-- ===== src/Outbox/Flushed.antt =====
-- `flushBatch` of outbox/outbox-relay.service.ts from its first statement to its last.
use sms_platform_backend.Base.{
  ℕ, ◌≡◌, refl, subst, Bool, true, List, [], ◌∷◌, arith, ok, err, Result, All, All-map, map_rows,
}
use sms_platform_backend.Database.{Db, Clock, with_transaction_ok, OutboxRow}
use sms_platform_backend.Outbox.Relay.{
  Broker, RelayConfig, is_event, recovered, selected, leased, update_event, lease_rows, take_batch,
  marked_published, marked_failed, after_publish, flush_row, flush_rows, flush_taken, flush_batch,
}
use sms_platform_backend.Outbox.Relayed.{
  IsBroker, IsListed, IsListed-update_first, IsListed-map_rows, IsRelayed, update_first-IsRelayed,
  map_rows-IsRelayed,
}
use sms_platform_backend.Outbox.Selected.{
  same_event, recovered-KeepsEvent, recovered_unpublished, marked_failed-KeepsEvent,
  marked_failed_unpublished, selected-All,
}

module _ {K : Type 0} (broker : Broker K) (lawful : IsBroker broker) where
  abbrev Relayed : Db → K → Type 0
  Relayed db k = IsRelayed broker db.outbox_events db.next_event_id k

  -- One state of the tables and the broker, and a later one.
  record Onward (db : Db) (k : K) (db' : Db) (k' : K) : Type 0 where
    relayed : Relayed db' k'
    listed : (r : OutboxRow) → IsListed db.outbox_events r → IsListed db'.outbox_events r

  Onward-trans :
      (a : Db) (i : K) (b : Db) (j : K) (c : Db) (k : K)
      → Onward a i b j
      → Onward b j c k
      → Onward a i c k
  Onward-trans a i b j c k p q = record {
    relayed = q.relayed;
    listed = λ r l. q.listed r (p.listed r l);
  }

  lease_rows-Onward :
      (config : RelayConfig) (now : ℕ) (rs : List OutboxRow) (db : Db) (k : K)
      → Relayed db k
      → Onward db k (lease_rows config now rs db) k
  unfolding lease_rows update_event
  lease_rows-Onward config now [] db k h = record { relayed = h; listed = λ r l. l }
  lease_rows-Onward config now (r ∷ rs) db k h =
      let p = is_event r.event_date r.event_id in
      let f = leased config now in
      let one : Onward db k (update_event r f db) k = record {
        relayed =
            update_first-IsRelayed broker p f db.outbox_events db.next_event_id k same_event
              (λ x found marked. absurd cc) h;
        listed = λ x l. IsListed-update_first p f db.outbox_events x same_event l;
      } in
      Onward-trans db k (update_event r f db) k (lease_rows config now (r ∷ rs) db) k one
        (lease_rows-Onward config now rs (update_event r f db) k one.relayed)

  -- The broker keeps what it holds.
  publish-Onward :
      (db : Db) (r : OutboxRow) (k : K)
      → Relayed db k
      → Relayed db (broker.publish r.topic_name r.partition_key r.payload k).1
  publish-Onward db r k h = record {
    keyed = h.keyed;
    event_ids = h.event_ids;
    sent =
        All-map db.outbox_events
          (λ x l marked.
            lawful.kept x.topic_name r.topic_name x.partition_key r.partition_key x.payload
              r.payload k (l marked))
          h.sent;
  }

  after_publish-Onward :
      (r : OutboxRow) (outcome : Result (Unit {0}) × K) (db : Db) (k : K)
      → broker.publish r.topic_name r.partition_key r.payload k ≡ outcome
      → Relayed db outcome.1
      → IsListed db.outbox_events r
      → Onward db k (after_publish broker r outcome db).0 (after_publish broker r outcome db).1
  unfolding after_publish update_event
  after_publish-Onward r (ok u, k') db k e h (s, there, same) =
      let p = is_event r.event_date r.event_id in
      record {
        relayed =
            update_first-IsRelayed broker p marked_published db.outbox_events db.next_event_id k'
              same_event
              (λ x found marked.
                let q : s ≡ x = ground arith in
                subst (λ y. broker.holds k' y.topic_name y.partition_key y.payload ≡ true) q
                  (rw (same.2, same.3, same.4)
                    (lawful.acked r.topic_name r.partition_key r.payload k k' u e)))
              h;
        listed = λ x l. IsListed-update_first p marked_published db.outbox_events x same_event l;
      }
  after_publish-Onward r (err x, k') db k e h l =
      let p = is_event r.event_date r.event_id in
      let f = marked_failed (broker.time k') in
      record {
        relayed =
            update_first-IsRelayed broker p f db.outbox_events db.next_event_id k'
              (marked_failed-KeepsEvent (broker.time k'))
              (λ y found marked. marked_failed_unpublished (broker.time k') y marked) h;
        listed = λ y m.
            IsListed-update_first p f db.outbox_events y (marked_failed-KeepsEvent (broker.time k'))
              m;
      }

  flush_rows-Onward :
      (rs : List OutboxRow) (db : Db) (k : K)
      → Relayed db k
      → All (IsListed db.outbox_events) rs
      → Onward db k (flush_rows broker rs (db, k)).0 (flush_rows broker rs (db, k)).1
  unfolding flush_rows flush_row
  flush_rows-Onward [] db k h ls = record { relayed = h; listed = λ r l. l }
  flush_rows-Onward (r ∷ rs) db k h ls =
      go (flush_row broker r (db, k)) refl (λ d j q m. flush_rows-Onward rs d j q m)
    where
      go :
          (w : Db × K)
          → flush_row broker r (db, k) ≡ w
          → ((d : Db) (j : K)
              → Relayed d j
              → All (IsListed d.outbox_events) rs
              → Onward d j (flush_rows broker rs (d, j)).0 (flush_rows broker rs (d, j)).1)
          → Onward db k (flush_rows broker rs w).0 (flush_rows broker rs w).1
      go (db', k') e rest =
          let first =
            after_publish-Onward r (broker.publish r.topic_name r.partition_key r.payload k) db k
              refl (publish-Onward db r k h) ls.0 in
          let one : Onward db k db' k' = subst (λ w. Onward db k w.0 w.1) e first in
          Onward-trans db k db' k' _ _ one
            (rest db' k' one.relayed (All-map rs (λ x l. one.listed x l) ls.1))

  taken-Onward :
      (config : RelayConfig) (locked : OutboxRow → Bool) (c : Clock) (db : Db) (k : K)
      → Relayed db k
      → Onward db k
          (flush_batch broker config locked c (db, k)).0
          (flush_batch broker config locked c (db, k)).1
  unfolding flush_batch flush_taken take_batch
  taken-Onward config locked c db k h =
      let f = recovered c.now in
      let start : Db = record db { outbox_events = map_rows f db.outbox_events } in
      let rows = selected config locked c.now start.outbox_events in
      let begun : Onward db k start k = record {
        relayed =
            map_rows-IsRelayed broker f db.outbox_events db.next_event_id k
              (recovered-KeepsEvent c.now) (recovered_unpublished c.now) h;
        listed = λ r l. IsListed-map_rows f db.outbox_events r (recovered-KeepsEvent c.now) l;
      } in
      let held : Onward start k (lease_rows config c.now rows start) k =
        lease_rows-Onward config c.now rows start k begun.relayed in
      let listed : All (IsListed start.outbox_events) rows =
        selected-All (IsListed start.outbox_events) config locked c.now start.outbox_events
          begun.relayed.keyed in
      rw
        (with_transaction_ok (take_batch config locked c) db rows
          (lease_rows config c.now rows start) refl)
        (Onward-trans db k start k _ _ begun (
          Onward-trans start k (lease_rows config c.now rows start) k _ _ held (
            flush_rows-Onward rows (lease_rows config c.now rows start) k held.relayed
              (All-map rows (λ r l. held.listed r l) listed))))

  -- If a broker holds what it has accepted and keeps what it holds, every event is the one that its
  -- key finds, the next identity is above all, and every event marked as published is held by the
  -- broker, then all of this still holds after `flushBatch`, with any calls of the broker that
  -- throw, and every event from before is still found by its key with the same topic, key and
  -- value.
  pub flush_batch-IsRelayed :
      (config : RelayConfig) (locked : OutboxRow → Bool) (c : Clock) (db db' : Db) (k k' : K)
      → IsRelayed broker db.outbox_events db.next_event_id k
      → flush_batch broker config locked c (db, k) ≡ (db', k')
      → IsRelayed broker db'.outbox_events db'.next_event_id k'
        × All (IsListed db'.outbox_events) db.outbox_events
  flush_batch-IsRelayed config locked c db db' k k' h e =
      let done = taken-Onward config locked c db k h in
      let after : Onward db k db' k' = subst (λ w. Onward db k w.0 w.1) e done in
      (after.relayed, All-map db.outbox_events (λ r l. after.listed r l) h.keyed)
