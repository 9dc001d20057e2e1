-- ===== src/Connectors/Pool.antt =====
-- How many sessions connectors/smpp.service.ts keeps for one SMPP configuration.
use Prim.Native.Nat.{max}
use sms_platform_backend.Base.{
  ℕ, zero, suc, ◌+◌, ◌≤◌, ◌<◌, ◌≡◌, refl, sym, ap, subst, Bool, true, false, not, List, [], ◌∷◌,
  arith, ◌==◌, Bool-cases, inl, inr, length, any_row, keep_rows, All, All-keep_rows, find_first,
}
use sms_platform_backend.Database.{Text}
use sms_platform_backend.Connectors.Smpp.{
  SmppEndpoint, compute_session_slot, SessionKey, get_session_key, same_key, Session,
  has_session_key, drop_session, set_session, is_live, after_bind, ensure_session, PoolEvent,
  dispatched, ended, pool_step, pool_after,
}

-- No number stands twice.
abbrev IsUnique : List ℕ → Type 0
IsUnique [] = Unit
IsUnique (x ∷ xs) = (any_row (λ y. y == x) xs ≡ false) × IsUnique xs

abbrev without : ℕ → List ℕ → List ℕ
without n xs = keep_rows (λ y. not (y == n)) xs

without-any_row :
    (n x : ℕ) (xs : List ℕ)
    → any_row (λ y. y == x) xs ≡ false
    → any_row (λ y. y == x) (without n xs) ≡ false
without-any_row n x [] h = refl
without-any_row n x (y ∷ ys) h = ground (arith, without-any_row n x ys)

without-IsUnique : (n : ℕ) (xs : List ℕ) → IsUnique xs → IsUnique (without n xs)
without-IsUnique n [] h = tt
without-IsUnique n (x ∷ xs) h = elim (Bool-cases (x == n)) [
  | inl e ↦ rw e (without-IsUnique n xs h.1)
  | inr e ↦ rw e (without-any_row n x xs h.0, without-IsUnique n xs h.1)
]

without_absent :
    (n : ℕ) (xs : List ℕ) → any_row (λ y. y == n) xs ≡ false → length (without n xs) ≡ length xs
without_absent n [] h = refl
without_absent n (x ∷ xs) h = ground (arith, without_absent n xs)

length-without : (n : ℕ) (xs : List ℕ) → IsUnique xs → length xs ≤ length (without n xs) + 1
length-without n [] h = omega arith
length-without n (x ∷ xs) h = ground (arith, length-without n xs h.1, without_absent n xs, h.0)

without-below : (n : ℕ) (xs : List ℕ) → All (λ x. x < suc n) xs → All (λ x. x < n) (without n xs)
without-below n [] h = tt
without-below n (x ∷ xs) h = elim (Bool-cases (x == n)) [
  | inl e ↦ rw e (without-below n xs h.1)
  | inr e ↦ (let below : x < n = ground (arith, h.0) in rw e (below, without-below n xs h.1))
]

-- Different numbers below a bound are at most as many.
pigeonhole : (n : ℕ) (xs : List ℕ) → All (λ x. x < n) xs → IsUnique xs → length xs ≤ n
pigeonhole zero [] h u = omega arith
pigeonhole zero (x ∷ xs) h u = absurd (omega (arith, h.0))
pigeonhole (suc n) xs h u = omega (
  arith,
  length-without n xs u,
  pigeonhole n (without n xs) (without-below n xs h) (without-IsUnique n xs u),
)

abbrev slots_of : List Session → List ℕ
slots_of [] = []
slots_of (s ∷ ss) = s.session_key.slot ∷ slots_of ss

length-slots_of : (ss : List Session) → length (slots_of ss) ≡ length ss
length-slots_of [] = refl
length-slots_of (s ∷ ss) = ap suc (length-slots_of ss)

drop-any_row :
    (k : SessionKey) (x : ℕ) (ss : List Session)
    → any_row (λ y. y == x) (slots_of ss) ≡ false
    → any_row (λ y. y == x) (slots_of (drop_session k ss)) ≡ false
unfolding drop_session
drop-any_row k x [] h = refl
drop-any_row k x (s ∷ ss) h = ground (arith, drop-any_row k x ss)

drop-IsUnique :
    (k : SessionKey) (ss : List Session)
    → IsUnique (slots_of ss)
    → IsUnique (slots_of (drop_session k ss))
unfolding drop_session
drop-IsUnique k [] h = tt
drop-IsUnique k (s ∷ ss) h = elim (Bool-cases (has_session_key k s)) [
  | inl e ↦ rw e (drop-IsUnique k ss h.1)
  | inr e ↦ rw e (drop-any_row k s.session_key.slot ss h.0, drop-IsUnique k ss h.1)
]

set-any_row :
    (t : Session) (x : ℕ) (ss : List Session)
    → (t.session_key.slot == x) ≡ false
    → any_row (λ y. y == x) (slots_of ss) ≡ false
    → any_row (λ y. y == x) (slots_of (set_session t ss)) ≡ false
unfolding set_session
set-any_row t x [] e h = ground arith
set-any_row t x (s ∷ ss) e h = ground (arith, set-any_row t x ss e)

-- The slots of one configuration.
module _ (config : SmppEndpoint) where
  abbrev IsOwn : SessionKey → Type 0
  IsOwn k =
      (k.key_provider ≡ config.smpp_provider)
      × (k.key_endpoint ≡ config.endpoint)
      × (k.slot < max config.max_sessions 1)

  record IsPool (ss : List Session) : Type 0 where
    own : All (λ s. IsOwn s.session_key) ss
    unique : IsUnique (slots_of ss)

  get_session_key-IsOwn : (destination : Text) → IsOwn (get_session_key config destination)
  unfolding get_session_key compute_session_slot
  get_session_key-IsOwn destination = (refl, refl, omega arith)

  -- Own keys differ in their slots.
  apart : (k l : SessionKey) → IsOwn k → IsOwn l → same_key k l ≡ false → (l.slot == k.slot) ≡ false
  apart k l (p, q, r) (p', q', r') h = ground arith

  set-IsOwn :
      (t : Session) (ss : List Session)
      → IsOwn t.session_key
      → All (λ s. IsOwn s.session_key) ss
      → All (λ s. IsOwn s.session_key) (set_session t ss)
  unfolding set_session
  set-IsOwn t [] o h = (o, tt)
  set-IsOwn t (s ∷ ss) o h = elim (Bool-cases (has_session_key t.session_key s)) [
    | inl e ↦ rw e (o, h.1)
    | inr e ↦ rw e (h.0, set-IsOwn t ss o h.1)
  ]

  set-IsUnique :
      (t : Session) (ss : List Session)
      → IsOwn t.session_key
      → All (λ s. IsOwn s.session_key) ss
      → IsUnique (slots_of ss)
      → IsUnique (slots_of (set_session t ss))
  unfolding set_session
  set-IsUnique t [] o h u = (refl, tt)
  set-IsUnique t (s ∷ ss) o h u = elim (Bool-cases (has_session_key t.session_key s)) [
    | inl e ↦
        (let same_slot : s.session_key.slot ≡ t.session_key.slot = ground arith in
          rw (e, sym same_slot) u)
    | inr e ↦ rw e (
      set-any_row t s.session_key.slot ss (apart s.session_key t.session_key h.0 o e) u.0,
      set-IsUnique t ss o h.1 u.1,
    )
  ]

  ensure-IsPool :
      (k : SessionKey) (bound : Bool) (ss : List Session)
      → IsOwn k
      → IsPool ss
      → IsPool (ensure_session k bound ss).1
  unfolding ensure_session after_bind
  ensure-IsPool k bound ss o p = elim (Bool-cases (is_live (find_first (has_session_key k) ss))) [
    | inl e ↦ rw e p
    | inr e ↦ rw e (answer bound)
  ]
    where
      answer : (b : Bool) → IsPool (after_bind k b ss).1
      answer true = record {
        own = set-IsOwn (record { session_key = k; healthy = true }) ss o p.own;
        unique = set-IsUnique (record { session_key = k; healthy = true }) ss o p.own p.unique;
      }
      answer false = p

  pool_step-IsPool :
      (e : PoolEvent) (ss : List Session) → IsPool ss → IsPool (pool_step config e ss)
  unfolding pool_step drop_session
  pool_step-IsPool (dispatched destination bound) ss p =
      ensure-IsPool (get_session_key config destination) bound ss
        (get_session_key-IsOwn destination) p
  pool_step-IsPool (ended k) ss p = record {
    own = All-keep_rows (λ s. IsOwn s.session_key) _ ss p.own;
    unique = drop-IsUnique k ss p.unique;
  }

  pool_after-IsPool :
      (es : List PoolEvent) (ss : List Session) → IsPool ss → IsPool (pool_after config es ss)
  unfolding pool_after
  pool_after-IsPool [] ss p = p
  pool_after-IsPool (e ∷ es) ss p =
      pool_after-IsPool es (pool_step config e ss) (pool_step-IsPool e ss p)

  below :
      (ss : List Session)
      → All (λ s. IsOwn s.session_key) ss
      → All (λ x. x < max config.max_sessions 1) (slots_of ss)
  below [] h = tt
  below (s ∷ ss) h = (h.0.2, below ss h.1)

  -- From an empty pool, after any dispatches to any destinations over one SMPP configuration, with
  -- any answers to the binds, and any ends of sessions, the pool holds at most the configured
  -- number of sessions, or one if that is 0.
  pub pool_after-bound :
      (es : List PoolEvent) → length (pool_after config es []) ≤ max config.max_sessions 1
  pool_after-bound es =
      let p = pool_after-IsPool es [] (record { own = tt; unique = tt }) in
      subst (λ n. n ≤ max config.max_sessions 1) (length-slots_of (pool_after config es []))
        (pigeonhole (max config.max_sessions 1) (slots_of (pool_after config es []))
          (below (pool_after config es []) p.own) p.unique)
