-- ===== src/Base/Lists.antt =====
-- Tables as lists: the first row that matches, and a write to that row.
use Prim.Native.Nat.{ℕ, zero, suc}
use mathlib.Core.Path.{◌≡◌, refl, subst}
use mathlib.Core.Bool.{Bool, true, false, ◌||◌}
use mathlib.Core.Logic.{◌⊎◌, inl, inr}
use mathlib.Core.Option.{Option, none, some}
use mathlib.Core.List.{List, [], ◌∷◌, ◌++◌}
use native.Mathlib.Omega.{arith}
use sms_platform_backend.Base.Tests.{if◌then◌else◌, Bool-cases}

module _ {ℓ} {A : Type ℓ} where
  abbrev pub length : List A → ℕ
  length [] = 0
  length (x ∷ xs) = suc (length xs)

  abbrev pub head_of : List A → Option A
  head_of [] = none
  head_of (x ∷ xs) = some x

  abbrev pub get_elem? : List A → ℕ → Option A
  get_elem? [] i = none
  get_elem? (x ∷ xs) zero = some x
  get_elem? (x ∷ xs) (suc i) = get_elem? xs i

  abbrev pub find_first : (A → Bool) → List A → Option A
  find_first p [] = none
  find_first p (x ∷ xs) = if p x then some x else find_first p xs

  -- A keyed `UPDATE`: the key is unique, so it writes the first row that matches.
  abbrev pub update_first : (A → Bool) → (A → A) → List A → List A
  update_first p f [] = []
  update_first p f (x ∷ xs) = if p x then f x ∷ xs else x ∷ update_first p f xs

  abbrev pub any_row : (A → Bool) → List A → Bool
  any_row p [] = false
  any_row p (x ∷ xs) = p x || any_row p xs

  abbrev pub keep_rows : (A → Bool) → List A → List A
  keep_rows p [] = []
  keep_rows p (x ∷ xs) = if p x then x ∷ keep_rows p xs else keep_rows p xs

  abbrev pub All {κ} : (A → Type κ) → List A → Type κ
  All P [] = Unit
  All P (x ∷ xs) = P x × All P xs

  -- The row that is found satisfies the test.
  pub find_first_holds :
      (p : A → Bool) (xs : List A) (x : A) → find_first p xs ≡ some x → p x ≡ true
  find_first_holds p [] x h = cc
  find_first_holds p (y ∷ ys) x h = ground (arith, find_first_holds p ys x)

  pub find_first-append_new :
      (p : A → Bool) (xs : List A) (x : A)
      → find_first p xs ≡ none
      → find_first p (xs ++ x ∷ []) ≡ (if p x then some x else none)
  find_first-append_new p [] x h = refl
  find_first-append_new p (y ∷ ys) x h = ground (arith, find_first-append_new p ys x)

  pub find_first-append_old :
      (p : A → Bool) (xs : List A) (x y : A)
      → find_first p xs ≡ some y
      → find_first p (xs ++ x ∷ []) ≡ some y
  find_first-append_old p [] x y h = cc
  find_first-append_old p (z ∷ zs) x y h = ground (arith, find_first-append_old p zs x y)

  pub any_row-append :
      (p : A → Bool) (xs : List A) (x : A) → any_row p (xs ++ x ∷ []) ≡ (any_row p xs || p x)
  any_row-append p [] x = ground arith
  any_row-append p (y ∷ ys) x = ground (arith, any_row-append p ys x)

  pub All-append {κ} :
      (P : A → Type κ) (xs : List A) (x : A) → All P xs → P x → All P (xs ++ x ∷ [])
  All-append P [] x h px = (px, tt)
  All-append P (y ∷ ys) x h px = (h.0, All-append P ys x h.1 px)

  -- Reading back the row that an UPDATE wrote, and any row that it did not match.
  pub find_first-update_first_self :
      (p : A → Bool) (f : A → A) (xs : List A) (x : A)
      → ((y : A) → p y ≡ true → p (f y) ≡ true)
      → find_first p xs ≡ some x
      → find_first p (update_first p f xs) ≡ some (f x)
  find_first-update_first_self p f [] x keep h = cc
  find_first-update_first_self p f (y ∷ ys) x keep h =
      ground (arith, keep y, find_first-update_first_self p f ys x keep)

  pub find_first-update_first_other :
      (p q : A → Bool) (f : A → A) (xs : List A)
      → ((y : A) → p y ≡ true → q y ≡ false)
      → ((y : A) → p y ≡ true → q (f y) ≡ false)
      → find_first q (update_first p f xs) ≡ find_first q xs
  find_first-update_first_other p q f [] before after = refl
  find_first-update_first_other p q f (y ∷ ys) before after =
      ground (arith, before y, after y, find_first-update_first_other p q f ys before after)

  pub All-update_first {κ} :
      (P : A → Type κ) (p : A → Bool) (f : A → A) (xs : List A)
      → All P xs
      → ((y : A) → find_first p xs ≡ some y → P y → P (f y))
      → All P (update_first p f xs)
  All-update_first P p f [] h step = tt
  All-update_first P p f (y ∷ ys) h step = elim (Bool-cases (p y)) [
    | inl e ↦ rw e (step y (rw e) h.0, h.1)
    | inr e ↦ rw e (h.0, All-update_first P p f ys h.1 (λ z hz. step z (rw e hz)))
  ]

  -- A stronger test that the row found satisfies finds the same row, and writes to it alone.
  pub find_first_stronger :
      (p q : A → Bool) (xs : List A) (x : A)
      → ((y : A) → q y ≡ true → p y ≡ true)
      → q x ≡ true
      → find_first p xs ≡ some x
      → find_first q xs ≡ some x
  find_first_stronger p q [] x imp qx h = cc
  find_first_stronger p q (y ∷ ys) x imp qx h =
      ground (arith, imp y, find_first_stronger p q ys x imp qx)

  pub update_first_stronger :
      (p q : A → Bool) (f : A → A) (xs : List A) (x : A)
      → ((y : A) → q y ≡ true → p y ≡ true)
      → q x ≡ true
      → find_first p xs ≡ some x
      → update_first q f xs ≡ update_first p f xs
  update_first_stronger p q f [] x imp qx h = refl
  update_first_stronger p q f (y ∷ ys) x imp qx h =
      ground (arith, imp y, update_first_stronger p q f ys x imp qx)

  pub All_found {κ} :
      (P : A → Type κ) (p : A → Bool) (xs : List A) (x : A)
      → All P xs
      → find_first p xs ≡ some x
      → P x
  All_found P p [] x h e = cc
  All_found P p (y ∷ ys) x h e = elim (Bool-cases (p y)) [
    | inl q ↦ (let same_row : y ≡ x = ground arith in subst P same_row h.0)
    | inr q ↦ All_found P p ys x h.1 (ground arith)
  ]

  pub All-map {κ μ} :
      {P : A → Type κ} {Q : A → Type μ} (xs : List A) → ((x : A) → P x → Q x) → All P xs → All Q xs
  All-map [] imp h = tt
  All-map (x ∷ xs) imp h = (imp x h.0, All-map xs imp h.1)

  -- An UPDATE leaves the row that a test finds, or rewrites it.
  pub update_first-found :
      (p q : A → Bool) (f : A → A) (xs : List A) (x : A)
      → ((z : A) → q (f z) ≡ q z)
      → find_first q xs ≡ some x
      → (find_first q (update_first p f xs) ≡ some x)
        ⊎ ((find_first p xs ≡ some x) × (find_first q (update_first p f xs) ≡ some (f x)))
  update_first-found p q f [] x keep h = absurd cc
  update_first-found p q f (y ∷ ys) x keep h =
      ground (arith, keep y, update_first-found p q f ys x keep)

  -- An UPDATE of every row, where the test does not look at what is written.
  abbrev pub map_rows : (A → A) → List A → List A
  map_rows f [] = []
  map_rows f (x ∷ xs) = f x ∷ map_rows f xs

  pub find_first-map_rows :
      (q : A → Bool) (f : A → A) (xs : List A) (x : A)
      → ((z : A) → q (f z) ≡ q z)
      → find_first q xs ≡ some x
      → find_first q (map_rows f xs) ≡ some (f x)
  find_first-map_rows q f [] x keep h = cc
  find_first-map_rows q f (y ∷ ys) x keep h =
      ground (arith, keep y, find_first-map_rows q f ys x keep)

  pub All-map_rows {κ} :
      (P : A → Type κ) (f : A → A) (xs : List A)
      → ((x : A) → P x → P (f x))
      → All P xs
      → All P (map_rows f xs)
  All-map_rows P f [] step h = tt
  All-map_rows P f (x ∷ xs) step h = (step x h.0, All-map_rows P f xs step h.1)

  pub All-keep_rows {κ} :
      (P : A → Type κ) (p : A → Bool) (xs : List A) → All P xs → All P (keep_rows p xs)
  All-keep_rows P p [] h = tt
  All-keep_rows P p (x ∷ xs) h = elim (Bool-cases (p x)) [
    | inl e ↦ rw e (h.0, All-keep_rows P p xs h.1)
    | inr e ↦ rw e (All-keep_rows P p xs h.1)
  ]

  -- What holds of the rows that pass holds of all rows under the test.
  pub All-keep_rows_under {κ} :
      (P : A → Type κ) (p : A → Bool) (xs : List A)
      → All P (keep_rows p xs)
      → All (λ x. p x ≡ true → P x) xs
  All-keep_rows_under P p [] h = tt
  All-keep_rows_under P p (x ∷ xs) h = elim (Bool-cases (p x)) [
    | inl e ↦
        (let kept = subst (λ b. All P (if b then x ∷ keep_rows p xs else keep_rows p xs)) e h in
          ((λ _. kept.0), All-keep_rows_under P p xs kept.1))
    | inr e ↦
        (let kept = subst (λ b. All P (if b then x ∷ keep_rows p xs else keep_rows p xs)) e h in
          ((λ q. absurd (cc)), All-keep_rows_under P p xs kept))
  ]

  pub All-kept : (p : A → Bool) (xs : List A) → All (λ x. p x ≡ true) (keep_rows p xs)
  All-kept p [] = tt
  All-kept p (x ∷ xs) = elim (Bool-cases (p x)) [
    | inl e ↦ rw e (e, All-kept p xs)
    | inr e ↦ rw e (All-kept p xs)
  ]

  pub find_first-none :
      (p : A → Bool) (xs : List A) → find_first p xs ≡ none → All (λ x. p x ≡ false) xs
  find_first-none p [] h = tt
  find_first-none p (x ∷ xs) h = elim (Bool-cases (p x)) [
    | inl e ↦ ground arith
    | inr e ↦ (e, find_first-none p xs (ground arith))
  ]

  pub All-find_first {κ} :
      (P : A → Type κ) (p : A → Bool) (xs : List A) (x : A)
      → All P xs
      → find_first p xs ≡ some x
      → P x
  All-find_first P p [] x all h = cc
  All-find_first P p (y ∷ ys) x all h = elim (Bool-cases (p y)) [
    | inl e ↦ (let q : y ≡ x = ground arith in subst P q all.0)
    | inr e ↦ All-find_first P p ys x all.1 (ground arith)
  ]

  -- A narrower test that the found row passes finds the same row.
  pub find_first-narrow :
      (p q : A → Bool) (xs : List A) (x : A)
      → ((y : A) → q y ≡ true → p y ≡ true)
      → find_first p xs ≡ some x
      → q x ≡ true
      → find_first q xs ≡ some x
  find_first-narrow p q [] x sub h qx = cc
  find_first-narrow p q (y ∷ ys) x sub h qx = ground (arith, sub y, find_first-narrow p q ys x sub)

  -- An UPDATE that keeps a test leaves the row that the test finds, or changes it.
  pub find_first-update_first_any :
      (p q : A → Bool) (f : A → A) (xs : List A) (x : A)
      → ((y : A) → p (f y) ≡ p y)
      → find_first p xs ≡ some x
      → (z : A) × (find_first p (update_first q f xs) ≡ some z) × ((z ≡ x) ⊎ (z ≡ f x))
  find_first-update_first_any p q f [] x keep h = cc
  find_first-update_first_any p q f (y ∷ ys) x keep h = elim (Bool-cases (q y)) [
    | inl e ↦ elim (Bool-cases (p y)) [
      | inl py ↦ (f y, ground (arith, keep y), inr (ground arith))
      | inr ny ↦ (x, ground (arith, keep y), inl refl)
    ]
    | inr e ↦ elim (Bool-cases (p y)) [
      | inl py ↦ (y, ground arith, inl (ground arith))
      | inr ny ↦
          (let (z, found, which) = find_first-update_first_any p q f ys x keep (ground arith) in
            (z, ground arith, which))
    ]
  ]

  -- Where two tests find the same row, an UPDATE under one is seen under the other.
  pub find_first-update_first_both :
      (p q : A → Bool) (f : A → A) (xs : List A) (x : A)
      → ((y : A) → p (f y) ≡ p y)
      → find_first p xs ≡ some x
      → find_first q xs ≡ some x
      → find_first p (update_first q f xs) ≡ some (f x)
  find_first-update_first_both p q f [] x keep hp hq = cc
  find_first-update_first_both p q f (y ∷ ys) x keep hp hq = ground (
    arith,
    keep y,
    find_first_holds p (y ∷ ys) x hp,
    find_first_holds q (y ∷ ys) x hq,
    find_first-update_first_both p q f ys x keep,
  )

  pub any_row-found :
      (p : A → Bool) (xs : List A) (x : A) → find_first p xs ≡ some x → any_row p xs ≡ true
  any_row-found p [] x h = cc
  any_row-found p (y ∷ ys) x h = ground (arith, any_row-found p ys x)

  pub any_row-update_first :
      (p q : A → Bool) (f : A → A) (xs : List A)
      → ((y : A) → p (f y) ≡ p y)
      → any_row p (update_first q f xs) ≡ any_row p xs
  any_row-update_first p q f [] keep = refl
  any_row-update_first p q f (y ∷ ys) keep =
      ground (arith, keep y, any_row-update_first p q f ys keep)
