-- ===== src/Strings.antt =====
-- JavaScript's operations on strings that several services use, on UTF-16 code units.
use Prim.Native.Char.{code}
use Prim.Native.String.{String}
use sms_platform_backend.Base.{
  ℕ, zero, suc, ◌≡◌, refl, Bool, true, false, List, [], ◌∷◌, ◌++◌, ◌==◌, if◌then◌else◌, any_row,
  arith,
}
use sms_platform_backend.Database.{Text, same_text}

-- The units of a literal.
abbrev pub codes : String → Text
codes String.[] = []
codes (String.◌∷◌ c s) = code c ∷ codes s

abbrev pub cons_first : ℕ → List Text → List Text
cons_first u [] = (u ∷ []) ∷ []
cons_first u (s ∷ ss) = (u ∷ s) ∷ ss

-- `text.split(separator)` for a separator of one unit.
unfoldable pub split_on : ℕ → Text → List Text
split_on separator [] = [] ∷ []
split_on separator (u ∷ us) =
    let rest = split_on separator us in if u == separator then [] ∷ rest else cons_first u rest

-- `text.includes(unit)`
abbrev pub has_unit : ℕ → Text → Bool
has_unit u text = any_row (λ v. v == u) text

-- A part without the separator stands alone.
pub split_on-append :
    (separator : ℕ) (part rest : Text)
    → has_unit separator part ≡ false
    → split_on separator (part ++ separator ∷ rest) ≡ part ∷ split_on separator rest
unfolding split_on
split_on-append separator [] rest h = ground arith
split_on-append separator (u ∷ us) rest h = ground (arith, split_on-append separator us rest)

unfoldable pub drop : ℕ → Text → Text
drop zero text = text
drop (suc n) [] = []
drop (suc n) (u ∷ us) = drop n us

pub same_text_refl : (t : Text) → same_text t t ≡ true
same_text_refl [] = refl
same_text_refl (u ∷ us) = ground (arith, same_text_refl us)

pub same_text_eq : (a b : Text) → same_text a b ≡ true → a ≡ b
same_text_eq [] [] h = refl
same_text_eq [] (v ∷ vs) h = cc
same_text_eq (u ∷ us) [] h = cc
same_text_eq (u ∷ us) (v ∷ vs) h = ground (arith, same_text_eq us vs)
