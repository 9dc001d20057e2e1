-- ===== src/Messages.antt =====
-- The message table of messages/messages.service.ts: `getMessageRow`, `patchMessage`,
-- `transitionMessage` and `logEvent`, with the trigger `enforce_message_state_transition` of
-- migrations/001_init.sql, which PostgreSQL runs before each UPDATE of a message.
pub mod Updates
pub mod Transitions
pub mod Distinct
pub mod Growth
pub mod Evolving
use sms_platform_backend.Base.{
  ℕ, ◌+◌, ℤ, Bool, true, false, not, ◌&&◌, ◌||◌, Option, none, some, List, [], ◌∷◌, ◌++◌, ◌==◌, ltb,
  if◌then◌else◌, same, or_else, find_first, update_first, Error, Result, ok, err, message_not_found,
  version_conflict, invalid_transition, illegal_update,
}
use sms_platform_backend.Status.{
  MessageStatus, MessageCompositeId, accepted, routed, submitting, provider_accepted, delivered,
  failed, same_status, same_ref, allows,
}
use sms_platform_backend.Database.{
  Db, Clock, Tx, pure, throw, ◌>>=◌, ◌>>◌, MessageRow, BillingState, debited, ErrorCode,
  ErrorCode-discrete, dlr_failed, LogRow, LogEvent, transition_audit,
}

abbrev pub is_ref : MessageCompositeId → MessageRow → Bool
is_ref ref m = same_ref m.key ref

unfoldable pub find_message : MessageCompositeId → Db → Option MessageRow
find_message ref db = find_first (is_ref ref) db.messages

abbrev pub or_missing : Option MessageRow → Result MessageRow
or_missing none = err message_not_found
or_missing (some m) = ok m

-- `getMessageRow`
unfoldable pub get_message_row : MessageCompositeId → Db → Result MessageRow
unfolding find_message
get_message_row ref db = or_missing (find_message ref db)

-- One entry of the `fields` of a patch; an undefined value is left out of the list.
pub data Field : Type 0 where
  provider_id smpp_config_id route_rule_id provider_message_id : Option ℕ → Field
  cost_minor : ℤ → Field
  last_error_code : Option ErrorCode → Field
  billing_state : BillingState → Field
  attempt_count : ℕ → Field

unfoldable pub set_field : Field → MessageRow → MessageRow
set_field (provider_id v) m = record m { provider_id = v }
set_field (smpp_config_id v) m = record m { smpp_config_id = v }
set_field (route_rule_id v) m = record m { route_rule_id = v }
set_field (provider_message_id v) m = record m { provider_message_id = v }
set_field (cost_minor v) m = record m { cost_minor = v }
set_field (last_error_code v) m = record m { last_error_code = v }
set_field (billing_state v) m = record m { billing_state = v }
set_field (attempt_count v) m = record m { attempt_count = v }

unfoldable pub set_fields : List Field → MessageRow → MessageRow
unfolding set_field
set_fields [] m = m
set_fields (f ∷ fs) m = set_fields fs (set_field f m)

-- The SET list of `patchMessage`.
unfoldable pub patched : Clock → List Field → MessageRow → MessageRow
unfolding set_fields
patched c fields m = record (set_fields fields m) {
  version = m.version + 1;
  state_changed_at = c.now;
}

-- The columns that `transitionMessage` sets by the next status.
unfoldable pub enter_status : Clock → MessageStatus → MessageRow → MessageRow
enter_status c provider_accepted m = record m {
  status = provider_accepted;
  sent_at = or_else m.sent_at (some c.now);
  billing_state = debited;
}
enter_status c delivered m = record m {
  status = delivered;
  delivered_at = or_else m.delivered_at (some c.now);
}
enter_status c failed m = record m { status = failed; failed_at = or_else m.failed_at (some c.now) }
enter_status c next m = record m { status = next }

-- The SET list of `transitionMessage`.
unfoldable pub transitioned : Clock → MessageStatus → List Field → Bool → MessageRow → MessageRow
unfolding patched enter_status
transitioned c next fields increment_attempt m =
    let r = enter_status c next (patched c fields m) in
    if increment_attempt then record r { attempt_count = m.attempt_count + 1 } else r

-- The trigger's conditions on the old and the new row.
unfoldable pub legal_status_change : MessageStatus → MessageStatus → Option ErrorCode → Bool
legal_status_change accepted routed code = true
legal_status_change routed submitting code = true
legal_status_change submitting provider_accepted code = true
legal_status_change submitting failed code = true
legal_status_change provider_accepted delivered code = true
legal_status_change provider_accepted failed (some code) = same ErrorCode-discrete code dlr_failed
legal_status_change _ _ _ = false

unfoldable pub legal_update : MessageRow → MessageRow → Bool
unfolding legal_status_change same_status
legal_update old new =
    (new.version == old.version + 1)
    && (ltb old.state_changed_at new.state_changed_at
        && (same_status new.status old.status
            || legal_status_change old.status new.status new.last_error_code))

-- `WHERE submit_date = .. AND tenant_id = .. AND id = .. AND status = .. AND version = ..`
unfoldable pub is_current : MessageRow → MessageRow → Bool
is_current seen m =
    same_ref m.key seen.key && (same_status m.status seen.status && m.version == seen.version)

-- `UPDATE .. RETURNING ..` of one message under the trigger, for a row as it was read before.
unfoldable pub update_found :
    MessageRow → (MessageRow → MessageRow) → Option MessageRow → Tx MessageRow
unfolding legal_update
update_found seen f none db = err version_conflict
update_found seen f (some m) db =
    if legal_update m (f m)
    then ok (f m, record db { messages = update_first (is_current seen) f db.messages })
    else err illegal_update

unfoldable pub update_message : MessageRow → (MessageRow → MessageRow) → Tx MessageRow
unfolding update_found is_current
update_message seen f db = update_found seen f (find_first (is_current seen) db.messages) db

-- `patchMessage`
unfoldable pub patch_message : Clock → MessageRow → List Field → Tx MessageRow
unfolding update_message patched
patch_message c message fields = update_message message (patched c fields)

unfoldable pub audit_transition : MessageStatus → MessageStatus → MessageRow → Tx MessageRow
audit_transition from to m db =
    ok
      (m, record db { audit_logs = db.audit_logs ++ transition_audit m.key from to m.version ∷ [] })

-- `transitionMessage`
unfoldable pub transition_message :
    Clock → MessageRow → MessageStatus → List Field → Bool → Tx MessageRow
unfolding update_message transitioned audit_transition allows
transition_message c message next fields increment_attempt =
    if allows message.status next
    then (update_message message (transitioned c next fields increment_attempt)
        >>= audit_transition message.status next)
    else throw invalid_transition

-- `logEvent`
unfoldable pub log_event : LogRow → Tx (Unit {0})
log_event row db = ok (tt, record db { message_logs = db.message_logs ++ row ∷ [] })
