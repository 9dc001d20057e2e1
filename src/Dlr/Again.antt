-- ===== src/Dlr/Again.antt =====
-- A report that comes in again: `acceptWebhook` of dlr/dlr.service.ts under the same callback.
use sms_platform_backend.Base.{
  ℕ, ◌≡◌, refl, ap, subst, ◌∙◌, true, Option, none, some, List, if◌then◌else◌, find_first,
  find_first-update_first_self, find_first-append_new, update_first, any_row, any_row-append,
  same_iff, Result, ok, err, arith, Bool-cases, inl, inr,
}
use sms_platform_backend.Database.{
  Db, Clock, Tx, with_transaction, with_transaction_ok, Text, same_text, WebhookRow, dlr_key,
  DedupeKey-discrete,
}
use sms_platform_backend.Outbox.{OutboxEventInput, new_row, has_dedupe, enqueued, enqueue}
use sms_platform_backend.Dlr.Accept.{
  Report, TextWriters, is_callback, id_of, callback_of, renewed, new_webhook, upserted,
  received_event, announce, store_under, store_report, accept_from, accept_webhook,
}

body_returns {ℓ} :
    {A : Type ℓ} (body : Tx A) (db : Db) (a : A) (db' : Db)
    → with_transaction body db ≡ (ok a, db')
    → body db ≡ ok (a, db')
unfolding with_transaction
body_returns {A} body db a db' h = go (body db) h
  where
    go :
        (r : Result (A × Db))
        → (elim r as (λ _. Result A × Db) [ ok (a, db') ↦ (ok a, db') | err e ↦ (err e, db) ])
          ≡ (ok a, db')
        → r ≡ ok (a, db')
    go (ok (x, mid)) e = cc
    go (err x) e = ground arith

-- The outbox holds the key afterwards, and the reports are as they were.
enqueue_has :
    (c : Clock) (event : OutboxEventInput) (db db' : Db)
    → enqueue c event db ≡ ok (tt, db')
    → (any_row (has_dedupe c.today event.dedupe) db'.outbox_events ≡ true)
      × (db'.dlr_webhooks ≡ db.dlr_webhooks)
unfolding enqueue new_row
enqueue_has c event db db' h =
    elim (Bool-cases (any_row (has_dedupe c.today event.dedupe) db.outbox_events)) [
      | inl there ↦
          (let q : db ≡ db' = ground arith in
            subst
              (λ d.
                (any_row (has_dedupe c.today event.dedupe) d.outbox_events ≡ true)
                × (d.dlr_webhooks ≡ db.dlr_webhooks))
              q (there, refl))
      | inr new ↦
          (let q : enqueued c event db ≡ db' = ground arith in
            subst
              (λ d.
                (any_row (has_dedupe c.today event.dedupe) d.outbox_events ≡ true)
                × (d.dlr_webhooks ≡ db.dlr_webhooks))
              q
              (
                any_row-append (has_dedupe c.today event.dedupe) db.outbox_events
                      (new_row c event db.next_event_id)
                    ∙ ground
                        (arith, (same_iff DedupeKey-discrete event.dedupe event.dedupe).1 refl),
                refl,
              ))
    ]

module _ (writers : TextWriters) (c : Clock) (provider k : ℕ) where
  -- The report that was stored is the one that its callback finds.
  upserted_found :
      (report : Report) (o : Option WebhookRow) (db : Db)
      → callback_of writers report ≡ some k
      → find_first (is_callback c.today provider (some k)) db.dlr_webhooks ≡ o
      → find_first
          (is_callback c.today provider (some k))
          (upserted writers c provider report (some k) o db).1.dlr_webhooks
        ≡ some (upserted writers c provider report (some k) o db).0
  unfolding upserted renewed new_webhook
  upserted_found report (some w) db named found =
      (find_first-update_first_self (is_callback c.today provider (some k)) (renewed writers report)
        db.dlr_webhooks w (λ y h. h) found)
  upserted_found report none db named found =
      find_first-append_new (is_callback c.today provider (some k)) db.dlr_webhooks
        (new_webhook writers c provider report db.next_webhook_id) found
      ∙ rw named (ground arith)

  -- What the first report leaves: its row under the callback, and the event of that row.
  stored_lem :
      (report : Report) (db db' : Db)
      → callback_of writers report ≡ some k
      → store_report writers c provider report db ≡ ok (tt, db')
      → (w : WebhookRow) × (find_first (is_callback c.today provider (some k)) db'.dlr_webhooks
          ≡ some w)
        × (any_row (has_dedupe c.today (dlr_key w.received_date w.webhook_id)) db'.outbox_events
            ≡ true)
  unfolding store_report store_under announce received_event
  stored_lem report db db' named h =
      let under = subst (λ n. store_under writers c provider report n db ≡ ok (tt, db')) named h in
      let o = find_first (is_callback c.today provider (some k)) db.dlr_webhooks in
      let (w, mid) = upserted writers c provider report (some k) o db in
      let (has, same_rows) = enqueue_has c (received_event provider w) mid db' under in
      (
        w,
        ap (find_first (is_callback c.today provider (some k))) same_rows
            ∙ upserted_found report o db named refl,
        has,
      )

  -- The same day and callback again: the row is renewed, and no event is added.
  stored_again :
      (now : ℕ) (report : Report) (db : Db) (w : WebhookRow)
      → callback_of writers report ≡ some k
      → find_first (is_callback c.today provider (some k)) db.dlr_webhooks ≡ some w
      → any_row (has_dedupe c.today (dlr_key w.received_date w.webhook_id)) db.outbox_events ≡ true
      → store_report writers (record c { now = now }) provider report db
        ≡ ok (
          tt,
          record db {
            dlr_webhooks =
                update_first
                  (is_callback c.today provider (some k))
                  (renewed writers report)
                  db.dlr_webhooks;
          },
        )
  unfolding store_report store_under announce received_event upserted enqueue renewed
  stored_again now report db w named found has =
      let c' : Clock = record c { now = now } in
      let db' : Db = record db {
        dlr_webhooks =
            update_first (is_callback c.today provider (some k)) (renewed writers report)
              db.dlr_webhooks;
      } in
      ap (λ n. store_under writers c' provider report n db) named
      ∙ ap (λ o. announce c' provider (upserted writers c' provider report (some k) o db)) found
      ∙ ap
          (λ b.
            if b
            then ok (tt, db')
            else ok (tt, enqueued c' (received_event provider (renewed writers report w)) db'))
          has

-- If `acceptWebhook` stored a report with a callback, the database holds the row that the callback
-- of the provider and the day finds, and an event for it; and a second report of the same day under
-- the same callback renews that row and changes nothing else, so that no second row and no second
-- event is made.
pub accept_webhook_again :
    (writers : TextWriters) (c : Clock) (now : ℕ) (providers : List (Text × ℕ)) (code : Text)
    (first again : Report) (k : ℕ) (db db' : Db)
    → callback_of writers first ≡ some k
    → callback_of writers again ≡ some k
    → accept_webhook writers c providers code first db ≡ (ok tt, db')
    → (provider : ℕ) × (w : WebhookRow) × (find_first
          (is_callback c.today provider (some k))
          db'.dlr_webhooks
        ≡ some w)
      × (any_row (has_dedupe c.today (dlr_key w.received_date w.webhook_id)) db'.outbox_events
          ≡ true)
      × (accept_webhook writers (record c { now = now }) providers code again db' ≡ (
        ok tt,
        record db' {
          dlr_webhooks =
              update_first
                (is_callback c.today provider (some k))
                (renewed writers again)
                db'.dlr_webhooks;
        },
      ))
unfolding accept_webhook accept_from
accept_webhook_again writers c now providers code first again k db db' named named' h =
    go (id_of (find_first (λ p. same_text p.0 code) providers)) h
  where
    go :
        (o : Option ℕ)
        → accept_from writers c o first db ≡ (ok tt, db')
        → (provider : ℕ) × (w : WebhookRow) × (find_first
              (is_callback c.today provider (some k))
              db'.dlr_webhooks
            ≡ some w)
          × (any_row (has_dedupe c.today (dlr_key w.received_date w.webhook_id)) db'.outbox_events
              ≡ true)
          × (accept_from writers (record c { now = now }) o again db' ≡ (
            ok tt,
            record db' {
              dlr_webhooks =
                  update_first
                    (is_callback c.today provider (some k))
                    (renewed writers again)
                    db'.dlr_webhooks;
            },
          ))
    go none e = ground arith
    go (some provider) e =
        let (w, found, has) =
          stored_lem writers c provider k first db db' named
            (body_returns (store_report writers c provider first) db tt db' e) in
        (
          provider,
          w,
          found,
          has,
          with_transaction_ok (store_report writers (record c { now = now }) provider again) db' tt
              _ (stored_again writers c provider k now again db' w named' found has),
        )
