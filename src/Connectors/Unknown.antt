-- ===== src/Connectors/Unknown.antt =====
-- A submission whose outcome nobody knows: the timeout of connectors/http-provider.service.ts or
-- connectors/smpp.service.ts, and what messages/message-workflow.service.ts does with its result.
use sms_platform_backend.Base.{
  ◌≡◌, refl, sym, subst, ap, ◌∙◌, inl, inr, ◌⊎◌, Bool, true, false, none, some, [], ◌∷◌, ◌++◌,
  arith, any_row, Bool-cases, Result-cases, ok, get_or, find_first, if◌then◌else◌,
}
use sms_platform_backend.Status.{submitting, same_status, same_status_iff}
use sms_platform_backend.Database.{
  Db, Clock, with_transaction_ok, with_transaction_err, bind_ok, MessageRow, MessageEventPayload,
  unknown_submit_outcome, OutboxRow, sms_reconcile, uncertain_key, reconcile_dispatch,
}
use sms_platform_backend.Messages.{
  is_ref, find_message, get_message_row, Field, patched, set_fields, set_field, patch_message,
  log_event,
}
use sms_platform_backend.Messages.Transitions.{patch_returns, patch_stores}
use sms_platform_backend.Outbox.{OutboxEventInput, enqueue, new_row, has_dedupe}
use sms_platform_backend.Workflow.Services.{Services, DispatchResult}
use sms_platform_backend.Workflow.Accept.{in_transaction}
use sms_platform_backend.Workflow.Results.{
  report_suspect, suspect_message, settle_message, result_for, handle_dispatch_result,
}
use sms_platform_backend.Connectors.Http.{axios_error, http_result}
use sms_platform_backend.Connectors.Smpp.{timed_out, smpp_result}

if_true {ℓ} : {A : Type ℓ} (b : Bool) (x y : A) → b ≡ true → (if b then x else y) ≡ x
if_true b x y e = rw e refl

if_false {ℓ} : {A : Type ℓ} (b : Bool) (x y : A) → b ≡ false → (if b then x else y) ≡ y
if_false b x y e = rw e refl

-- The result of a request without an answer.
unknown_result :
    (aborted : Bool) (result : DispatchResult)
    → (http_result (axios_error none aborted) ≡ ok result) ⊎ (smpp_result timed_out ≡ result)
    → (result.accepted ≡ false) × (result.uncertain ≡ true)
unfolding http_result smpp_result
unknown_result aborted result (inl h) = (ground arith, ground arith)
unknown_result aborted result (inr h) =
    (ap (λ r. r.accepted) (sym h), ap (λ r. r.uncertain) (sym h))

-- The outbox of the second tables has no new event, or one for the reconciliation.
abbrev pub OnlyReconciled : Db → Db → Type 0
OnlyReconciled db db' =
    (db'.outbox_events ≡ db.outbox_events)
    ⊎ ((row : OutboxRow) × (db'.outbox_events ≡ db.outbox_events ++ row ∷ [])
        × (row.topic_name ≡ sms_reconcile))

module _ (c : Clock) (payload : MessageEventPayload) (m : MessageRow) (db : Db)
    (found : find_message payload.message_ref db ≡ some m) where
  -- What the transaction of an uncertain result leaves alone.
  abbrev Untouched : Db → Type 0
  Untouched db' =
      (n : MessageRow) × (find_message payload.message_ref db' ≡ some n)
      × (n.status ≡ m.status)
      × (n.billing_state ≡ m.billing_state)
      × (db'.wallets ≡ db.wallets)
      × (db'.transactions ≡ db.transactions)
      × OnlyReconciled db db'

  suspect-OnlyReconciled :
      (n : MessageRow) (mid db' : Db)
      → mid.outbox_events ≡ db.outbox_events
      → report_suspect c payload m n mid ≡ ok (tt, db')
      → OnlyReconciled db db'
  unfolding report_suspect log_event enqueue new_row
  suspect-OnlyReconciled n mid db' same h =
      elim (Bool-cases (
        any_row (has_dedupe c.today (uncertain_key payload.message_ref n.version))
          mid.outbox_events)) [
            | inl there ↦
                (let kept : mid.outbox_events ≡ db'.outbox_events = ground arith in
                  inl (sym kept ∙ same))
            | inr fresh ↦
                (let event : OutboxEventInput = record {
                  topic = sms_reconcile;
                  partition = m.tenant_id;
                  dedupe = uncertain_key payload.message_ref n.version;
                  content = reconcile_dispatch payload;
                  not_before = none;
                } in
                  let row = new_row c event mid.next_event_id in
                  let grown : mid.outbox_events ++ row ∷ [] ≡ db'.outbox_events = ground arith in
                  inr (row, sym grown ∙ ap (λ es. es ++ row ∷ []) same, refl))
          ]

  suspect-Untouched : (db' : Db) → suspect_message c payload m db ≡ ok (tt, db') → Untouched db'
  unfolding suspect_message report_suspect log_event enqueue find_message patched set_fields
      set_field
  suspect-Untouched db' h =
      let fields =
        Field.last_error_code (some (get_or payload.event_error unknown_submit_outcome)) ∷ [] in
      let (n, mid, first, rest) =
        bind_ok (patch_message c m fields) (report_suspect c payload m) db tt db' h in
      let (there, same, version, later, time) =
        patch_stores c payload.message_ref m db fields n mid found first in
      let (row, written, legal) =
        patch_returns c payload.message_ref m db found fields n mid first in
      let same_messages : mid.messages ≡ db'.messages = ground arith in
      let same_wallets : db'.wallets ≡ mid.wallets = ground arith in
      let same_rows : db'.transactions ≡ mid.transactions = ground arith in
      (
        n,
        subst (λ ms. find_first (is_ref payload.message_ref) ms ≡ some n) same_messages there,
        same,
        ap (λ r. r.billing_state) row,
        same_wallets ∙ ap (λ d. d.wallets) written,
        same_rows ∙ ap (λ d. d.transactions) written,
        suspect-OnlyReconciled n mid db' (ap (λ d. d.outbox_events) written) rest,
      )

  -- If a request over HTTP got no response, or an SMPP submission no answer in time, and
  -- `handleDispatchResult` returns for a payload with that result of a message in 'submitting',
  -- then the message stays in 'submitting' with its billing state, wallets and ledger are as they
  -- were, the outbox has no new event but at most one for the reconciliation, and no service was
  -- called that changes its state: the message is neither released nor sent again.
  pub unknown_outcome_stays :
      {S : Type 0} (services : Services S) (aborted : Bool) (result : DispatchResult) (s s' : S)
      (db' : Db)
      → (http_result (axios_error none aborted) ≡ ok result) ⊎ (smpp_result timed_out ≡ result)
      → payload.event_accepted ≡ result.accepted
      → payload.event_uncertain ≡ result.uncertain
      → m.status ≡ submitting
      → handle_dispatch_result services c payload (db, s) ≡ (ok tt, (db', s'))
      → Untouched db' × (s' ≡ s)
  unfolding handle_dispatch_result get_message_row result_for settle_message
  unknown_outcome_stays services aborted result s s' db' outcome a u status h =
      let (refused, unknown) = unknown_result aborted result outcome in
      let is_submitting : same_status m.status submitting ≡ true =
        (same_status_iff m.status submitting).1 status in
      let run : in_transaction (suspect_message c payload m) (db, s) ≡ (ok tt, (db', s')) =
        sym (
          if_false payload.event_accepted _ _ (a ∙ refused)
          ∙ if_true payload.event_uncertain _ _ (u ∙ unknown))
        ∙ (rw (found, is_submitting) at h) in
      elim (Result-cases (suspect_message c payload m db)) [
        | inl ((x, after), e) ↦
            (let done =
                rw (with_transaction_ok (suspect_message c payload m) db x after e) at run in
              (
                suspect-Untouched db' (e ∙ ap (λ d. ok (tt, d)) (ap (λ w. w.1.0) done)),
                sym (ap (λ w. w.1.1) done),
              ))
        | inr (x, e) ↦
            absurd (
              let done = rw (with_transaction_err (suspect_message c payload m) db x e) at run in
              cc)
      ]
