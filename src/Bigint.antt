-- ===== src/Bigint.antt =====
-- The BIGINT columns as messages/messages.service.ts computes with them: pg returns such a column as
-- its decimal text, on which `+` joins, `-` counts, and `<` compares code units unless the other
-- side is a number. Numbers are exact, as those of JavaScript are up to 2^53.
pub mod Joins
use sms_platform_backend.Base.{
  ℕ, zero, suc, ◌+◌, ◌-◌, ◌*◌, ◌/◌, ◌%◌, ℤ, pos, negsuc, ◌-ℤ◌, ltb_ℤ, Bool, true, false, ◌&&◌, ◌||◌,
  Option, none, some, List, [], ◌∷◌, ◌++◌, ◌==◌, ltb, leb, if◌then◌else◌, Result, ok, err,
  bad_bigint,
}
use sms_platform_backend.Database.{Text}

-- The digits of a number; the fuel is enough if it is above the number.
unfoldable pub digits : ℕ → ℕ → Text
digits zero n = []
digits (suc fuel) n = elim (ltb n 10) [
  | true ↦ (b'0' + n) ∷ []
  | false ↦ digits fuel (n / 10) ++ (b'0' + n % 10) ∷ []
]

-- The text of a column.
unfoldable pub decimal : ℤ → Text
unfolding digits
decimal (pos n) = digits (suc n) n
decimal (negsuc n) = b'-' ∷ digits (suc (suc n)) (suc n)

abbrev pub is_digit : ℕ → Bool
is_digit u = leb b'0' u && leb u b'9'

-- The number that digits go on to spell behind those that were read.
unfoldable pub read_digits : ℕ → Text → Option ℕ
read_digits n [] = some n
read_digits n (u ∷ us) = if is_digit u then read_digits (n * 10 + (u - b'0')) us else none

abbrev pub opposite : Option ℕ → Option ℤ
opposite none = none
opposite (some n) = some (pos 0 -ℤ pos n)

abbrev pub positive : Option ℕ → Option ℤ
positive none = none
positive (some n) = some (pos n)

-- Number of a text that is not empty; nothing for NaN.
unfoldable pub number_of : Text → Option ℤ
unfolding read_digits
number_of [] = none
number_of (u ∷ us) =
    if u == b'-' then opposite (read_digits 0 us) else positive (read_digits 0 (u ∷ us))

-- A text against a number: NaN is not less.
unfoldable pub less_number : Text → ℤ → Bool
unfolding number_of
less_number t n = elim (number_of t) [ none ↦ false | some a ↦ ltb_ℤ a n ]

-- A text against a text.
unfoldable pub less_text : Text → Text → Bool
less_text [] [] = false
less_text [] (v ∷ vs) = true
less_text (u ∷ us) [] = false
less_text (u ∷ us) (v ∷ vs) = ltb u v || (u == v && less_text us vs)

-- `a + b` of two columns, or of a column and a number.
unfoldable pub joined : ℤ → ℤ → Text
unfolding decimal
joined a b = decimal a ++ decimal b

-- The parameter of an UPDATE, a number or what a text spells: PostgreSQL refuses what is no BIGINT.
unfoldable pub bigint : Option ℤ → Result ℤ
bigint none = err bad_bigint
bigint (some a) =
    if ltb_ℤ a (pos 9223372036854775808) && ltb_ℤ (negsuc 9223372036854775808) a
    then ok a
    else err bad_bigint
