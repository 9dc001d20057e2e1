-- ===== src/Bigint/Joins.antt =====
-- What the joined texts of two columns spell (messages/messages.service.ts).
use sms_platform_backend.Base.{
  ℕ, zero, suc, ◌+◌, ◌-◌, ◌*◌, ◌/◌, ◌%◌, ◌≤◌, ◌<◌, ℤ, pos, ◌≡◌, refl, ap, ◌∙◌, inl, inr, Option,
  none, some, [], ◌∷◌, ◌++◌, ◌==◌, ltb, arith, Bool-cases, ok,
}
use sms_platform_backend.Database.{Text}
use sms_platform_backend.Bigint.{digits, decimal, is_digit, read_digits, number_of, joined, bigint}

read_digits-append :
    (us vs : Text) (n m : ℕ)
    → read_digits n us ≡ some m
    → read_digits n (us ++ vs) ≡ read_digits m vs
unfolding read_digits
read_digits-append [] vs n m h = ground arith
read_digits-append (u ∷ us) vs n m h = elim (Bool-cases (is_digit u)) [
  | inl e ↦ rw e (read_digits-append us vs (n * 10 + (u - b'0')) m (rw e at h))
  | inr e ↦ ground arith
]

read_one : (n d : ℕ) → d < 10 → read_digits n ((b'0' + d) ∷ []) ≡ some (n * 10 + d)
unfolding read_digits
read_one n d h = ground arith

-- Behind the digits of `n`, the digits of `a` spell at least ten times `n` and `a`.
read_digits-digits :
    (fuel n a : ℕ)
    → a < fuel
    → (m : ℕ) × (read_digits n (digits fuel a) ≡ some m) × (n * 10 + a ≤ m) × (n ≡ 0 → m ≡ a)
unfolding digits
read_digits-digits zero n a h = absurd (omega arith)
read_digits-digits (suc fuel) n a h = elim (Bool-cases (ltb a 10)) [
  | inl small ↦
      (let e : read_digits n (digits (suc fuel) a) ≡ some (n * 10 + a) =
          rw (small, digits) (read_one n a (ground arith)) in
        (n * 10 + a, e, omega arith, λ z. omega arith))
  | inr large ↦
      (let (m, e, more, same) = read_digits-digits fuel n (a / 10) (ground arith) in
        (
          m * 10 + a % 10,
          rw (large, digits)
              (read_digits-append (digits fuel (a / 10)) ((b'0' + a % 10) ∷ []) n m e
                ∙ read_one m (a % 10) (omega arith)),
          omega arith,
          λ z. (let q = same z in omega arith),
        ))
]

number_of_read :
    (t : Text) (z : ℤ) (m : ℕ) → number_of t ≡ some z → read_digits 0 t ≡ some m → z ≡ pos m
unfolding number_of read_digits
number_of_read [] z m h e = cc
number_of_read (u ∷ us) z m h e = elim (Bool-cases (u == b'-')) [
  | inl minus ↦ ground arith
  | inr plus ↦ ground arith
]

-- A sum of two amounts that are joined as texts is at least ten times the first and the second.
pub joined_exceeds :
    (r a : ℕ) (z : ℤ)
    → number_of (joined (pos r) (pos a)) ≡ some z
    → (m : ℕ) × (z ≡ pos m) × (r * 10 + a ≤ m)
unfolding joined decimal
joined_exceeds r a z h =
    let (r', first, more, same) = read_digits-digits (suc r) 0 r (omega arith) in
    let q : r' ≡ r = same refl in
    let (m, second, enough, _) = read_digits-digits (suc a) r a (omega arith) in
    (
      m,
      number_of_read _ z m h (
          read_digits-append (digits (suc r) r) (digits (suc a) a) 0 r' first
          ∙ ap (λ n. read_digits n (digits (suc a) a)) q
          ∙ second),
      enough,
    )

pub bigint_ok : (o : Option ℤ) (x : ℤ) → bigint o ≡ ok x → o ≡ some x
unfolding bigint
bigint_ok none x h = cc
bigint_ok (some a) x h = ground arith
