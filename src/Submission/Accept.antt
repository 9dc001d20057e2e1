-- ===== src/Submission/Accept.antt =====
-- The transaction of `submitMessageWithContext` of messages/messages.service.ts: it inserts the
-- message, reserves its price, and writes the first event.
use sms_platform_backend.Base.{
  ℕ, ◌+◌, Bool, false, ◌&&◌, ◌||◌, Option, none, some, [], ◌∷◌, ◌++◌, ◌==◌, if◌then◌else◌, is_some,
  find_first, Result, ok, err,
}
use sms_platform_backend.Status.{accepted}
use sms_platform_backend.Database.{
  Db, Clock, Tx, pure, ◌>>=◌, ◌>>◌, with_transaction, MessageRow, reserved, reserve_key,
  api_accepted, accepted_key, MessageEventPayload, sms_accepted, LogRow,
}
use sms_platform_backend.Messages.{log_event}
use sms_platform_backend.Wallet.{reserve_wallet}
use sms_platform_backend.Outbox.{enqueue}
use sms_platform_backend.Workflow.Accept.{World, about_message}
use sms_platform_backend.Submission.Services.{
  SubmissionContext, SubmitMessageDto, SubmissionServices,
}
use sms_platform_backend.Submission.Prepare.{Draft, prepare}

-- The response: a message that was submitted before, or the new one.
pub data Submitted : Type 0 where
  repeated created : MessageRow → Submitted

-- `$2 IS NOT NULL AND column = $2`
abbrev pub same_value : Option ℕ → Option ℕ → Bool
same_value none v = false
same_value (some k) none = false
same_value (some k) (some v) = v == k

-- The INSERT.
abbrev pub inserted : MessageRow → Db → Db
inserted m db = record db {
  messages = db.messages ++ m ∷ [];
  next_message_id = db.next_message_id + 1;
}

module _ (c : Clock) (context : SubmissionContext) (dto : SubmitMessageDto) where
  unfoldable pub is_repeat : MessageRow → Bool
  is_repeat m =
      (m.submit_date == c.today && m.tenant_id == context.context_tenant)
      && (same_value context.idempotency_key m.api_idempotency_key
          || same_value dto.dto_client_message_id m.client_message_id)

  -- The message of today with one of the keys, where there is a key.
  unfoldable pub existing_message : Db → Option MessageRow
  existing_message db =
      if is_some context.idempotency_key || is_some dto.dto_client_message_id
      then find_first is_repeat db.messages
      else none

  unfoldable pub new_message : Draft → ℕ → MessageRow
  new_message draft id = record {
    key = record { submit_date = c.today; tenant_id = context.context_tenant; id = id };
    client_message_id = dto.dto_client_message_id;
    api_idempotency_key = context.idempotency_key;
    api_key_id = context.context_api_key;
    source_addr = some dto.dto_sender;
    phone_number = draft.draft_phone;
    body = draft.draft_body;
    traffic_type = draft.draft_traffic;
    status = accepted;
    version = 0;
    attempt_count = 0;
    provider_id = some draft.draft_route.route_provider;
    smpp_config_id = draft.draft_route.route_smpp_config;
    route_rule_id = some draft.draft_route.routing_rule;
    provider_message_id = none;
    price_minor = draft.draft_price;
    cost_minor = draft.draft_cost;
    billing_state = reserved;
    message_parts = draft.draft_parts;
    sent_at = none;
    delivered_at = none;
    failed_at = none;
    state_changed_at = c.now;
    last_error_code = none;
    campaign_id = none;
    body_hash = some draft.draft_hash;
  }

  abbrev pub accepted_payload : Draft → MessageRow → MessageEventPayload
  accepted_payload draft m = record {
    message_ref = m.key;
    event_version = m.version;
    event_phone = m.phone_number;
    event_body = m.body;
    event_sender = dto.dto_sender;
    event_traffic = m.traffic_type;
    event_provider = some draft.draft_route.route_provider;
    event_smpp_config = draft.draft_route.route_smpp_config;
    event_rule = none;
    event_protocol = none;
    event_provider_message = none;
    event_accepted = false;
    event_error = none;
    event_retryable = false;
    event_uncertain = false;
  }

  abbrev pub accepted_log : Draft → MessageRow → LogRow
  accepted_log draft m = record {
    log_ref = m.key;
    event = api_accepted;
    status_from = none;
    status_to = some accepted;
    log_provider = some draft.draft_route.route_provider;
    log_provider_message = none;
    attempt_no = 0;
  }

  -- The log and the event of a new message.
  unfoldable pub announce_accepted : Draft → MessageRow → Tx (Unit {0})
  announce_accepted draft m =
      log_event (accepted_log draft m)
      >> enqueue c
          (about_message m sms_accepted (accepted_key m.key) (accepted_payload draft m) none)

  -- The reservation of a new message that is in the table, and its announcement.
  unfoldable pub reserve_new : Draft → MessageRow → Tx Submitted
  reserve_new draft m =
      reserve_wallet context.context_tenant draft.draft_price (reserve_key m.key) m.key >>= λ _.
      announce_accepted draft m >>= λ _. pure (created m)

  unfoldable pub insert_unless : Option MessageRow → Draft → Tx Submitted
  insert_unless (some m) draft db = ok (repeated m, db)
  insert_unless none draft db =
      let m = new_message draft db.next_message_id in reserve_new draft m (inserted m db)

  -- The transaction of `submitMessageWithContext`.
  unfoldable pub accept_draft : Draft → Tx Submitted
  accept_draft draft db = insert_unless (existing_message db) draft db

module _ {S : Type 0} (services : SubmissionServices S) (c : Clock) (context : SubmissionContext)
    (dto : SubmitMessageDto) where
  unfoldable pub accept_prepared : Result Draft × S → Db → Result Submitted × World S
  accept_prepared (err e, s) db = (err e, (db, s))
  accept_prepared (ok draft, s) db =
      let (r, db') = with_transaction (accept_draft c context dto draft) db in (r, (db', s))

  -- `submitMessageWithContext`
  unfoldable pub submit_message_with_context : World S → Result Submitted × World S
  submit_message_with_context (db, s) = accept_prepared (prepare services c context dto s) db
