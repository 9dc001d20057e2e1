-- ===== src/Outbox/Relayed.antt =====
-- The relay of outbox/outbox-relay.service.ts and the broker: which events are marked as published,
-- and that none is lost.
use sms_platform_backend.Base.{
  ℕ, ◌<◌, ◌≡◌, sym, ◌∙◌, inl, inr, Bool, true, some, List, arith, ok, All, All-map,
  All-update_first, All-map_rows, update_first-found, find_first-map_rows, find_first, update_first,
  map_rows,
}
use sms_platform_backend.Database.{KafkaTopic, OutboxPayload, OutboxRow, published}
use sms_platform_backend.Outbox.Relay.{Broker, is_event}

-- What the broker is documented to do: an accepted record is held, and stays.
pub record IsBroker {K : Type 0} (broker : Broker K) : Type 0 where
  pub acked :
      (t : KafkaTopic) (p : ℕ) (v : OutboxPayload) (k k' : K) (u : Unit {0})
      → broker.publish t p v k ≡ (ok u, k')
      → broker.holds k' t p v ≡ true
  pub kept :
      (t t' : KafkaTopic) (p p' : ℕ) (v v' : OutboxPayload) (k : K)
      → broker.holds k t p v ≡ true
      → broker.holds (broker.publish t' p' v' k).1 t p v ≡ true

abbrev pub SameEvent : OutboxRow → OutboxRow → Type 0
SameEvent r s =
    (r.event_date ≡ s.event_date)
    × (r.event_id ≡ s.event_id)
    × (r.topic_name ≡ s.topic_name)
    × (r.partition_key ≡ s.partition_key)
    × (r.payload ≡ s.payload)

-- The event's key finds a row of the same topic, key and value.
abbrev pub IsListed : List OutboxRow → OutboxRow → Type 0
IsListed rows r =
    (s : OutboxRow) × (find_first (is_event r.event_date r.event_id) rows ≡ some s) × SameEvent s r

abbrev pub KeepsEvent : (OutboxRow → OutboxRow) → Type 0
KeepsEvent f = (r : OutboxRow) → SameEvent (f r) r

SameEvent-trans : (r s t : OutboxRow) → SameEvent r s → SameEvent s t → SameEvent r t
SameEvent-trans r s t p q = (p.0 ∙ q.0, p.1 ∙ q.1, p.2 ∙ q.2, p.3 ∙ q.3, p.4 ∙ q.4)

-- Rows of the same event are found alike.
IsListed-same :
    (rows : List OutboxRow) (r s : OutboxRow) → SameEvent s r → IsListed rows r → IsListed rows s
IsListed-same rows r s e (x, there, same) = (
  x,
  ground (arith, e.0, e.1),
  (same.0 ∙ sym e.0, same.1 ∙ sym e.1, same.2 ∙ sym e.2, same.3 ∙ sym e.3, same.4 ∙ sym e.4),
)

test_kept :
    (f : OutboxRow → OutboxRow) (date id : ℕ)
    → KeepsEvent f
    → (r : OutboxRow) → is_event date id (f r) ≡ is_event date id r
test_kept f date id keep r = ground (arith, (keep r).0, (keep r).1)

pub IsListed-update_first :
    (p : OutboxRow → Bool) (f : OutboxRow → OutboxRow) (rows : List OutboxRow) (r : OutboxRow)
    → KeepsEvent f
    → IsListed rows r
    → IsListed (update_first p f rows) r
IsListed-update_first p f rows r keep (s, there, same) =
    elim (update_first-found p (is_event r.event_date r.event_id) f rows s
      (test_kept f r.event_date r.event_id keep) there) [
        | inl h ↦ (s, h, same)
        | inr (hit, h) ↦ (f s, h, SameEvent-trans (f s) s r (keep s) same)
      ]

pub IsListed-map_rows :
    (f : OutboxRow → OutboxRow) (rows : List OutboxRow) (r : OutboxRow)
    → KeepsEvent f
    → IsListed rows r
    → IsListed (map_rows f rows) r
IsListed-map_rows f rows r keep (s, there, same) = (
  f s,
  find_first-map_rows (is_event r.event_date r.event_id) f rows s
      (test_kept f r.event_date r.event_id keep) there,
  SameEvent-trans (f s) s r (keep s) same,
)

module _ {K : Type 0} (broker : Broker K) where
  abbrev pub IsSent : K → OutboxRow → Type 0
  IsSent k r =
      r.outbox_status ≡ published → broker.holds k r.topic_name r.partition_key r.payload ≡ true

  -- Every event is the one that its key finds, ids that are still to be given out are not used,
  -- and what is marked as published the broker holds.
  pub record IsRelayed (rows : List OutboxRow) (next_id : ℕ) (k : K) : Type 0 where
    pub keyed : All (IsListed rows) rows
    pub event_ids : All (λ r. r.event_id < next_id) rows
    pub sent : All (IsSent k) rows

  IsSent-same :
      (k : K) (r s : OutboxRow)
      → SameEvent s r
      → (s.outbox_status ≡ published → broker.holds k r.topic_name r.partition_key r.payload ≡ true)
      → IsSent k s
  IsSent-same k r s e h marked = rw (e.2, e.3, e.4) (h marked)

  pub update_first-IsRelayed :
      (p : OutboxRow → Bool) (f : OutboxRow → OutboxRow) (rows : List OutboxRow) (n : ℕ) (k : K)
      → KeepsEvent f
      → ((r : OutboxRow)
          → find_first p rows ≡ some r
          → (f r).outbox_status ≡ published
          → broker.holds k r.topic_name r.partition_key r.payload ≡ true)
      → IsRelayed rows n k
      → IsRelayed (update_first p f rows) n k
  update_first-IsRelayed p f rows n k keep step h = record {
    keyed =
        All-update_first (IsListed (update_first p f rows)) p f rows
          (All-map rows (λ r l. IsListed-update_first p f rows r keep l) h.keyed)
          (λ r found l. IsListed-same (update_first p f rows) r (f r) (keep r) l);
    event_ids =
        All-update_first (λ r. r.event_id < n) p f rows h.event_ids (λ r found l. rw (keep r).1 l);
    sent =
        All-update_first (IsSent k) p f rows h.sent
          (λ r found l. IsSent-same k r (f r) (keep r) (step r found));
  }

  pub map_rows-IsRelayed :
      (f : OutboxRow → OutboxRow) (rows : List OutboxRow) (n : ℕ) (k : K)
      → KeepsEvent f
      → ((r : OutboxRow) → (f r).outbox_status ≡ published → r.outbox_status ≡ published)
      → IsRelayed rows n k
      → IsRelayed (map_rows f rows) n k
  map_rows-IsRelayed f rows n k keep step h = record {
    keyed =
        All-map_rows (IsListed (map_rows f rows)) f rows
          (λ r l. IsListed-same (map_rows f rows) r (f r) (keep r) l)
          (All-map rows (λ r l. IsListed-map_rows f rows r keep l) h.keyed);
    event_ids = All-map_rows (λ r. r.event_id < n) f rows (λ r l. rw (keep r).1 l) h.event_ids;
    sent =
        All-map_rows (IsSent k) f rows
          (λ r l. IsSent-same k r (f r) (keep r) (λ marked. l (step r marked))) h.sent;
  }
