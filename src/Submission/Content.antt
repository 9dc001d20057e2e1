-- ===== src/Submission/Content.antt =====
-- `normalizePhoneNumber`, `computeMessageParts` and `countryCodeFor` of
-- messages/messages.service.ts. Texts are UTF-16 code units: 43 is '+', 48 to 57 are the digits.
use sms_platform_backend.Base.{
  ℕ, ◌+◌, ◌-◌, ◌*◌, ◌/◌, ◌≤◌, ◌<◌, ◌≡◌, refl, ◌⊎◌, Bool, true, false, ◌&&◌, ◌||◌, [], ◌∷◌, ◌==◌,
  leb, if◌then◌else◌, keep_rows, length, Result, ok, err, bad_phone_number, arith, Bool-cases, inl,
  inr,
}
use sms_platform_backend.Database.{Text}

-- `/[\d+]/`
abbrev pub is_phone_unit : ℕ → Bool
is_phone_unit u = u == 43 || (leb 48 u && leb u 57)

-- `startsWith`
unfoldable pub starts_with : Text → Text → Bool
starts_with [] s = true
starts_with (p ∷ ps) [] = false
starts_with (p ∷ ps) (u ∷ us) = p == u && starts_with ps us

-- `slice(1)`
abbrev pub rest_of : Text → Text
rest_of [] = []
rest_of (u ∷ us) = us

abbrev pub plus : Text
plus = 43 ∷ []

abbrev pub ethiopia_prefix : Text
ethiopia_prefix = 50 ∷ 53 ∷ 49 ∷ []

unfoldable pub trimmed_phone_number : Text → Result Text
unfolding starts_with
trimmed_phone_number trimmed =
    if starts_with plus trimmed
    then ok trimmed
    else if starts_with ethiopia_prefix trimmed
    then ok (43 ∷ trimmed)
    else if starts_with (48 ∷ []) trimmed
    then ok (43 ∷ 50 ∷ 53 ∷ 49 ∷ rest_of trimmed)
    else err bad_phone_number

-- `normalizePhoneNumber`
unfoldable pub normalize_phone_number : Text → Result Text
unfolding trimmed_phone_number
normalize_phone_number phone_number = trimmed_phone_number (keep_rows is_phone_unit phone_number)

-- `computeMessageParts`, with `Math.ceil(n / 153)` as (n + 152) / 153.
unfoldable pub compute_message_parts : Text → ℕ
compute_message_parts body = if leb (length body) 160 then 1 else (length body + 152) / 153

pub data CountryCode : Type 0 where
  et intl : CountryCode

-- `countryCodeFor`
unfoldable pub country_code_for : Text → CountryCode
unfolding starts_with
country_code_for phone_number = if starts_with (43 ∷ ethiopia_prefix) phone_number then et else intl

-- Every unit is a digit or a plus.
abbrev pub phone_units : Text → Bool
phone_units [] = true
phone_units (u ∷ us) = is_phone_unit u && phone_units us

keep_rows-phone_units : (s : Text) → phone_units (keep_rows is_phone_unit s) ≡ true
keep_rows-phone_units [] = refl
keep_rows-phone_units (u ∷ us) = ground (arith, keep_rows-phone_units us)

keep_all : (s : Text) → phone_units s ≡ true → keep_rows is_phone_unit s ≡ s
keep_all [] h = refl
keep_all (u ∷ us) h = ground (arith, keep_all us)

rest-phone_units : (s : Text) → phone_units s ≡ true → phone_units (rest_of s) ≡ true
rest-phone_units [] h = refl
rest-phone_units (u ∷ us) h = ground arith

trimmed_result :
    (s t : Text)
    → phone_units s ≡ true
    → trimmed_phone_number s ≡ ok t
    → (phone_units t ≡ true) × (starts_with plus t ≡ true)
unfolding trimmed_phone_number starts_with
trimmed_result s t p h = ground (arith, rest-phone_units s)

-- If `normalizePhoneNumber` returns a number, the number starts with a plus, consists of digits and
-- plus signs, and is returned unchanged when it is normalized again.
pub normalize_phone_number_lem :
    (phone_number result : Text)
    → normalize_phone_number phone_number ≡ ok result
    → (starts_with plus result ≡ true)
      × (phone_units result ≡ true)
      × (normalize_phone_number result ≡ ok result)
unfolding normalize_phone_number trimmed_phone_number
normalize_phone_number_lem phone_number result h =
    let (units, front) =
      trimmed_result (keep_rows is_phone_unit phone_number) result
        (keep_rows-phone_units phone_number) h in
    (front, units, again units front)
  where
    again :
        phone_units result ≡ true
        → starts_with plus result ≡ true
        → normalize_phone_number result ≡ ok result
    again units front = rw (keep_all result units) (ground arith)

covering : (n : ℕ) → 160 < n → (n ≤ 153 * ((n + 152) / 153)) × (153 * ((n + 152) / 153 - 1) < n)
covering n h = (omega arith, omega (arith, h))

-- A body of at most 160 units is one part; a longer body fits into its number of parts of 153 units
-- each, and does not fit into one part fewer.
pub compute_message_parts-bounds :
    (body : Text)
    → ((length body ≤ 160) × (compute_message_parts body ≡ 1))
      ⊎ ((160 < length body)
          × (length body ≤ 153 * compute_message_parts body)
          × (153 * (compute_message_parts body - 1) < length body))
unfolding compute_message_parts
compute_message_parts-bounds body = elim (Bool-cases (leb (length body) 160)) [
  | inl e ↦ inl (ground arith, ground arith)
  | inr e ↦
      (let long : 160 < length body = ground arith in
        inr (long, rw e (covering (length body) long).0, rw e (covering (length body) long).1))
]
