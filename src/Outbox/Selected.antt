-- ===== src/Outbox/Selected.antt =====
-- The batch of `flushBatch` (outbox/outbox-relay.service.ts) and its UPDATEs, row by row.
use sms_platform_backend.Base.{
  ℕ, ◌≡◌, refl, Bool, List, [], ◌∷◌, arith, ltb, Bool-cases, inl, inr, All, All-keep_rows, zero,
  suc,
}
use sms_platform_backend.Database.{OutboxRow, published}
use sms_platform_backend.Outbox.Relay.{
  RelayConfig, recovered, insert_by_age, by_age, limit, selected, marked_failed,
}
use sms_platform_backend.Outbox.Relayed.{SameEvent, KeepsEvent}

pub same_event : (r : OutboxRow) → SameEvent r r
same_event r = (refl, refl, refl, refl, refl)

pub recovered-KeepsEvent : (now : ℕ) → KeepsEvent (recovered now)
unfolding recovered
recovered-KeepsEvent now r = (ground arith, ground arith, ground arith, ground arith, ground arith)

pub recovered_unpublished :
    (now : ℕ) (r : OutboxRow)
    → (recovered now r).outbox_status ≡ published
    → r.outbox_status ≡ published
unfolding recovered
recovered_unpublished now r h = ground arith

pub marked_failed-KeepsEvent : (now : ℕ) → KeepsEvent (marked_failed now)
unfolding marked_failed
marked_failed-KeepsEvent now r = same_event r

pub marked_failed_unpublished :
    {A : Type 0} (now : ℕ) (r : OutboxRow) → (marked_failed now r).outbox_status ≡ published → A
unfolding marked_failed
marked_failed_unpublished now r h = absurd (ground arith)

-- What holds of every row of a list holds of the batch taken from it.
module _ {κ} (P : OutboxRow → Type κ) where
  insert_by_age-All :
      (r : OutboxRow) (rs : List OutboxRow) → P r → All P rs → All P (insert_by_age r rs)
  unfolding insert_by_age
  insert_by_age-All r [] p h = (p, tt)
  insert_by_age-All r (x ∷ xs) p h = elim (Bool-cases (ltb x.created_at r.created_at)) [
    | inl e ↦ rw e (h.0, insert_by_age-All r xs p h.1)
    | inr e ↦ rw e (p, h)
  ]

  by_age-All : (rs : List OutboxRow) → All P rs → All P (by_age rs)
  unfolding by_age
  by_age-All [] h = tt
  by_age-All (r ∷ rs) h = insert_by_age-All r (by_age rs) h.0 (by_age-All rs h.1)

  limit-All : (n : ℕ) (rs : List OutboxRow) → All P rs → All P (limit n rs)
  limit-All zero rs h = tt
  limit-All (suc n) [] h = tt
  limit-All (suc n) (r ∷ rs) h = (h.0, limit-All n rs h.1)

  pub selected-All :
      (config : RelayConfig) (locked : OutboxRow → Bool) (now : ℕ) (rs : List OutboxRow)
      → All P rs
      → All P (selected config locked now rs)
  unfolding selected
  selected-All config locked now rs h =
      limit-All config.batch_size _ (by_age-All _ (All-keep_rows P _ rs h))
