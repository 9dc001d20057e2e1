-- ===== src/Billing/Steps.antt =====
-- The steps of the transactions that keep the books balanced: the log and the outbox, a patch, a
-- transition between open statuses, and a transition with its debit or release.
use sms_platform_backend.Base.{
  ℤ, pos, ◌-ℤ◌, ◌≡◌, refl, sym, subst, ap, ◌∙◌, inl, inr, Bool, true, false, some, List, [], ◌∷◌,
  ◌++◌, arith, Bool-cases, any_row, ok,
}
use sms_platform_backend.Status.{
  MessageStatus, MessageCompositeId, accepted, routed, submitting, provider_accepted, delivered,
  failed, allows,
}
use sms_platform_backend.Database.{
  Db, Clock, Tx, pure, ◌>>=◌, bind_ok, MessageRow, LogRow, LedgerKey, BillingOperation,
  transition_audit,
}
use sms_platform_backend.Messages.{
  find_message, Field, set_field, set_fields, patched, transitioned, patch_message,
  transition_message, log_event,
}
use sms_platform_backend.Messages.Updates.{
  patched-SameIdentity, patched-status, transitioned-SameIdentity, transitioned-status,
}
use sms_platform_backend.Messages.Transitions.{patch_returns, transition_returns}
use sms_platform_backend.Wallet.{apply_wallet_ledger}
use sms_platform_backend.Wallet.Sums.{reserved_change}
use sms_platform_backend.Outbox.{OutboxEventInput, enqueue, enqueued, has_dedupe}
use sms_platform_backend.Billing.Books.{is_reserved, is_open, is_settlement, key_ref, Balanced}
use sms_platform_backend.Billing.Writes.{write-Balanced}
use sms_platform_backend.Billing.Settle.{settle-Balanced}

-- A body that keeps the books balanced where it returns.
abbrev pub Keeps {ℓ} : {A : Type ℓ} → Tx A → Type ℓ
Keeps {A} body = (db : Db) (a : A) (db' : Db) → Balanced db → body db ≡ ok (a, db') → Balanced db'

pub Keeps-bind {ℓ κ} :
    {A : Type ℓ} {B : Type κ} (m : Tx A) (f : A → Tx B)
    → Keeps m
    → ((a : A) → Keeps (f a))
    → Keeps (m >>= f)
Keeps-bind m f km kf db b db' h e =
    let (a, mid, first, rest) = bind_ok m f db b db' e in kf a mid b db' (km db a mid h first) rest

pub Keeps-pure {ℓ} : {A : Type ℓ} (a : A) → Keeps (pure a)
Keeps-pure a db b db' h e = let q : db ≡ db' = ground arith in subst Balanced q h

pub Keeps-log_event : (row : LogRow) → Keeps (log_event row)
unfolding log_event
Keeps-log_event row db a db' h e =
    let q : record db { message_logs = db.message_logs ++ row ∷ [] } ≡ db' = ground arith in
    subst Balanced q h

pub Keeps-enqueue : (c : Clock) (event : OutboxEventInput) → Keeps (enqueue c event)
unfolding enqueue
Keeps-enqueue c event db a db' h e =
    elim (Bool-cases (any_row (has_dedupe c.today event.dedupe) db.outbox_events)) [
      | inl there ↦ (let q : db ≡ db' = ground arith in subst Balanced q h)
      | inr new ↦ (let q : enqueued c event db ≡ db' = ground arith in subst Balanced q h)
    ]

-- The fields of a patch that leave the billing state alone.
abbrev pub no_billing : List Field → Bool
no_billing [] = true
no_billing (Field.billing_state v ∷ fs) = false
no_billing (Field.provider_id v ∷ fs) = no_billing fs
no_billing (Field.smpp_config_id v ∷ fs) = no_billing fs
no_billing (Field.route_rule_id v ∷ fs) = no_billing fs
no_billing (Field.provider_message_id v ∷ fs) = no_billing fs
no_billing (Field.cost_minor v ∷ fs) = no_billing fs
no_billing (Field.last_error_code v ∷ fs) = no_billing fs
no_billing (Field.attempt_count v ∷ fs) = no_billing fs

set_fields-billing :
    (fs : List Field) (m : MessageRow)
    → no_billing fs ≡ true
    → (set_fields fs m).billing_state ≡ m.billing_state
unfolding set_fields
set_fields-billing [] m h = refl
set_fields-billing (Field.billing_state v ∷ fs) m h = cc
set_fields-billing (Field.provider_id v ∷ fs) m h =
    set_fields-billing fs (set_field (Field.provider_id v) m) h
set_fields-billing (Field.smpp_config_id v ∷ fs) m h =
    set_fields-billing fs (set_field (Field.smpp_config_id v) m) h
set_fields-billing (Field.route_rule_id v ∷ fs) m h =
    set_fields-billing fs (set_field (Field.route_rule_id v) m) h
set_fields-billing (Field.provider_message_id v ∷ fs) m h =
    set_fields-billing fs (set_field (Field.provider_message_id v) m) h
set_fields-billing (Field.cost_minor v ∷ fs) m h =
    set_fields-billing fs (set_field (Field.cost_minor v) m) h
set_fields-billing (Field.last_error_code v ∷ fs) m h =
    set_fields-billing fs (set_field (Field.last_error_code v) m) h
set_fields-billing (Field.attempt_count v ∷ fs) m h =
    set_fields-billing fs (set_field (Field.attempt_count v) m) h

module _ (c : Clock) (ref : MessageCompositeId) (m : MessageRow) (db : Db)
    (found : find_message ref db ≡ some m) (balanced : Balanced db) where
  pub patch-Balanced :
      (fields : List Field) (n : MessageRow) (db' : Db)
      → no_billing fields ≡ true
      → patch_message c m fields db ≡ ok (n, db')
      → Balanced db'
  unfolding patched
  patch-Balanced fields n db' plain h =
      let (same_row, same_db, legal) = patch_returns c ref m db found fields n db' h in
      subst Balanced (sym same_db) (
        write-Balanced ref m db (patched c fields) found (λ y. (patched-SameIdentity c fields y).0)
          balanced (patched-SameIdentity c fields m).1
          (ap is_reserved (set_fields-billing fields m plain))
          (ap is_open (patched-status c fields m)))

  -- A transition into an open status starts in one, and the message goes on holding its price.
  open_from :
      (from next : MessageStatus)
      → allows from next ≡ true
      → is_open next ≡ true
      → is_open from ≡ true
  unfolding allows
  open_from from next a o = ground arith

  open_billing :
      (next : MessageStatus) (fields : List Field) (increment : Bool)
      → is_open next ≡ true
      → no_billing fields ≡ true
      → (transitioned c next fields increment m).billing_state ≡ m.billing_state
  unfolding transitioned
  open_billing accepted fields true o p = set_fields-billing fields m p
  open_billing accepted fields false o p = set_fields-billing fields m p
  open_billing routed fields true o p = set_fields-billing fields m p
  open_billing routed fields false o p = set_fields-billing fields m p
  open_billing submitting fields true o p = set_fields-billing fields m p
  open_billing submitting fields false o p = set_fields-billing fields m p
  open_billing provider_accepted fields i o p = cc
  open_billing delivered fields i o p = cc
  open_billing failed fields i o p = cc

  pub open_transition-Balanced :
      (next : MessageStatus) (fields : List Field) (increment : Bool) (n : MessageRow) (db' : Db)
      → is_open next ≡ true
      → no_billing fields ≡ true
      → transition_message c m next fields increment db ≡ ok (n, db')
      → Balanced db'
  open_transition-Balanced next fields increment n db' o plain h =
      let f = transitioned c next fields increment in
      let (same_row, same_db, legal, allowed) =
        transition_returns c ref m db found next fields increment n db' h in
      subst Balanced (sym same_db) (
        write-Balanced ref m db f found
          (λ y. (transitioned-SameIdentity c next fields increment y).0) balanced
          (transitioned-SameIdentity c next fields increment m).1
          (ap is_reserved (open_billing next fields increment o plain))
          (ap is_open (transitioned-status c next fields increment m)
            ∙ o
            ∙ sym (open_from m.status next allowed o)))

  -- A transition out of the open statuses, with the debit or the release of the price.
  pub settling_transition-Balanced :
      (next : MessageStatus) (fields : List Field) (increment : Bool) (n : MessageRow) (mid : Db)
      (operation : BillingOperation) (k : LedgerKey) (b : Bool) (db' : Db)
      → is_reserved m.billing_state ≡ true
      → is_reserved (transitioned c next fields increment m).billing_state ≡ false
      → is_open next ≡ false
      → is_settlement k ≡ true
      → key_ref k ≡ ref
      → ((a : ℤ) → reserved_change operation a ≡ pos 0 -ℤ a)
      → transition_message c m next fields increment db ≡ ok (n, mid)
      → apply_wallet_ledger m.tenant_id m.price_minor operation k ref mid ≡ ok (b, db')
      → Balanced db'
  unfolding find_message
  settling_transition-Balanced next fields increment n mid operation k b db' held freed shut settles
        of_ref frees h pay =
      let f = transitioned c next fields increment in
      let (same_row, same_db, legal, allowed) =
        transition_returns c ref m db found next fields increment n mid h in
      let audited : Db = record db {
        audit_logs = db.audit_logs ++ transition_audit n.key m.status n.status n.version ∷ [];
      } in
      settle-Balanced ref m audited f found
        (λ y. (transitioned-SameIdentity c next fields increment y).0) balanced held freed
        (ap is_open (transitioned-status c next fields increment m) ∙ shut) k settles of_ref
        operation frees b db'
        (sym (ap (apply_wallet_ledger m.tenant_id m.price_minor operation k ref) same_db) ∙ pay)
