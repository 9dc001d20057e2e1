-- ===== src/Outbox/Enqueued.antt =====
-- `enqueue` of outbox/outbox.service.ts and the relay's view of the table.
use sms_platform_backend.Base.{
  ℕ, ◌<◌, ◌≡◌, refl, subst, none, List, [], ◌∷◌, ◌++◌, arith, Bool-cases, inl, inr, any_row, ok,
  All, All-map, All-append, find_first, find_first-append_old, find_first-append_new, ◌∙◌,
}
use sms_platform_backend.Database.{Db, Clock, OutboxRow}
use sms_platform_backend.Outbox.{OutboxEventInput, new_row, has_dedupe, enqueued, enqueue}
use sms_platform_backend.Outbox.Relay.{Broker, is_event}
use sms_platform_backend.Outbox.Relayed.{IsListed, IsSent, IsRelayed}

IsListed-append :
    (rows : List OutboxRow) (n r : OutboxRow) → IsListed rows r → IsListed (rows ++ n ∷ []) r
IsListed-append rows n r (s, there, same) =
    (s, find_first-append_old (is_event r.event_date r.event_id) rows n s there, same)

unused_id :
    (next : ℕ) (n : OutboxRow) (rows : List OutboxRow)
    → n.event_id ≡ next
    → All (λ r. r.event_id < next) rows
    → find_first (is_event n.event_date n.event_id) rows ≡ none
unused_id next n [] e h = refl
unused_id next n (r ∷ rs) e h = ground (arith, unused_id next n rs e h.1)

keyed_new :
    {next : ℕ} (rows : List OutboxRow) (n : OutboxRow)
    → All (IsListed rows) rows
    → All (λ r. r.event_id < next) rows
    → n.event_id ≡ next
    → All (IsListed (rows ++ n ∷ [])) (rows ++ n ∷ [])
keyed_new {next} rows n h ids e =
    All-append (IsListed (rows ++ n ∷ [])) rows n
      (All-map rows (λ r l. IsListed-append rows n r l) h)
      (
        n,
        find_first-append_new (is_event n.event_date n.event_id) rows n
              (unused_id next n rows e ids)
            ∙ ground arith,
        (refl, refl, refl, refl, refl),
      )

-- enqueue
pub enqueue-IsRelayed :
    {K : Type 0} (broker : Broker K) (c : Clock) (event : OutboxEventInput) (db db' : Db) (k : K)
    → IsRelayed broker db.outbox_events db.next_event_id k
    → enqueue c event db ≡ ok (tt, db')
    → IsRelayed broker db'.outbox_events db'.next_event_id k
unfolding enqueue new_row
enqueue-IsRelayed broker c event db db' k h e =
    elim (Bool-cases (any_row (has_dedupe c.today event.dedupe) db.outbox_events)) [
      | inl there ↦
          (let q : db ≡ db' = ground arith in
            subst (λ d. IsRelayed broker d.outbox_events d.next_event_id k) q h)
      | inr new ↦
          (let q : enqueued c event db ≡ db' = ground arith in
            subst (λ d. IsRelayed broker d.outbox_events d.next_event_id k) q
              (record {
                keyed =
                    keyed_new db.outbox_events (new_row c event db.next_event_id) h.keyed
                      h.event_ids refl;
                event_ids =
                    All-append _ db.outbox_events _
                      (All-map db.outbox_events (λ r l. omega arith) h.event_ids) (omega arith);
                sent = All-append (IsSent broker k) db.outbox_events _ h.sent (λ m. absurd cc);
              }))
    ]
