-- ===== src/Messages/Distinct.antt =====
-- The primary key of `messages` (migrations/001_init.sql): no identity stands twice in the table.
use sms_platform_backend.Base.{
  ◌≡◌, refl, inl, inr, Bool, false, none, some, List, [], ◌∷◌, ◌++◌, arith, Bool-cases, All,
  find_first, update_first,
}
use sms_platform_backend.Status.{MessageCompositeId, same_ref_iff, same_ref_self}
use sms_platform_backend.Database.{MessageRow}
use sms_platform_backend.Messages.{is_ref}

abbrev pub Distinct : List MessageRow → Type 0
Distinct [] = Unit
Distinct (m ∷ ms) = (find_first (is_ref m.key) ms ≡ none) × Distinct ms

find_first-rewritten_none :
    (ref : MessageCompositeId) (p : MessageRow → Bool) (f : MessageRow → MessageRow)
    (ms : List MessageRow)
    → ((m : MessageRow) → (f m).key ≡ m.key)
    → find_first (is_ref ref) ms ≡ none
    → find_first (is_ref ref) (update_first p f ms) ≡ none
find_first-rewritten_none ref p f [] keep h = refl
find_first-rewritten_none ref p f (m ∷ ms) keep h =
    ground (arith, keep m, find_first-rewritten_none ref p f ms keep)

-- An UPDATE that leaves the identities alone.
pub Distinct-update_first :
    (p : MessageRow → Bool) (f : MessageRow → MessageRow) (ms : List MessageRow)
    → ((m : MessageRow) → (f m).key ≡ m.key)
    → Distinct ms
    → Distinct (update_first p f ms)
Distinct-update_first p f [] keep d = tt
Distinct-update_first p f (m ∷ ms) keep d = elim (Bool-cases (p m)) [
  | inl e ↦ rw e (rw (keep m) d.0, d.1)
  | inr e ↦
      rw e (find_first-rewritten_none m.key p f ms keep d.0, Distinct-update_first p f ms keep d.1)
]

find_first-append_none :
    (ref : MessageCompositeId) (ms : List MessageRow) (n : MessageRow)
    → find_first (is_ref ref) ms ≡ none
    → is_ref ref n ≡ false
    → find_first (is_ref ref) (ms ++ n ∷ []) ≡ none
find_first-append_none ref [] n h e = rw e refl
find_first-append_none ref (m ∷ ms) n h e = ground (arith, find_first-append_none ref ms n)

-- An INSERT of an identity that is not in the table.
pub Distinct-append :
    (ms : List MessageRow) (n : MessageRow)
    → find_first (is_ref n.key) ms ≡ none
    → Distinct ms
    → Distinct (ms ++ n ∷ [])
Distinct-append [] n new d = (refl, tt)
Distinct-append (m ∷ ms) n new d =
    (find_first-append_none m.key ms n d.0 apart, Distinct-append ms n (ground arith) d.1)
  where
    apart : is_ref m.key n ≡ false
    apart = ground (arith, same_ref_iff n.key m.key, same_ref_iff m.key n.key)

others_apart :
    (ref : MessageCompositeId) (ms : List MessageRow)
    → find_first (is_ref ref) ms ≡ none
    → All (λ m. is_ref ref m ≡ false) ms
others_apart ref [] h = tt
others_apart ref (m ∷ ms) h = (ground arith, others_apart ref ms (ground arith))

-- Each row is then the one that its identity finds.
pub Distinct-found :
    (ms : List MessageRow) → Distinct ms → All (λ m. find_first (is_ref m.key) ms ≡ some m) ms
Distinct-found [] d = tt
Distinct-found (m ∷ ms) d =
    (rw (same_ref_self m.key) refl, behind ms (others_apart m.key ms d.0) (Distinct-found ms d.1))
  where
    past :
        (x : MessageRow)
        → is_ref m.key x ≡ false
        → find_first (is_ref x.key) ms ≡ some x
        → find_first (is_ref x.key) (m ∷ ms) ≡ some x
    past x e h = ground (arith, same_ref_iff x.key m.key, same_ref_iff m.key x.key)

    behind :
        (xs : List MessageRow)
        → All (λ x. is_ref m.key x ≡ false) xs
        → All (λ x. find_first (is_ref x.key) ms ≡ some x) xs
        → All (λ x. find_first (is_ref x.key) (m ∷ ms) ≡ some x) xs
    behind [] e h = tt
    behind (x ∷ xs) e h = (past x e.0 h.0, behind xs e.1 h.1)
