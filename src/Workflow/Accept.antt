-- ===== src/Workflow/Accept.antt =====
-- `handleAccepted` and `handleRetry` of messages/message-workflow.service.ts, with the small
-- helpers of that service.
use sms_platform_backend.Base.{
  ℕ, pos, ◌*ℤ◌, false, Option, none, some, List, [], ◌∷◌, if◌then◌else◌, Result, ok, err,
}
use sms_platform_backend.Status.{
  MessageStatus, MessageCompositeId, accepted, routed, submitting, same_status,
}
use sms_platform_backend.Database.{
  Db, Clock, Tx, ◌>>=◌, ◌>>◌, with_transaction, MessageRow, TrafficType, otp, marketing, Protocol,
  smpp, LogRow, LogEvent, log_routed, KafkaTopic, sms_dispatch_realtime, sms_dispatch_bulk,
  MessageEventPayload, message_event, DedupeKey, dispatch_key, retry_dispatch_key,
}
use sms_platform_backend.Messages.{
  Field, provider_id, smpp_config_id, route_rule_id, cost_minor, last_error_code, get_message_row,
  transition_message, log_event,
}
use sms_platform_backend.Outbox.{OutboxEventInput, enqueue}
use sms_platform_backend.Workflow.Services.{Services, RouteDecision, RouteSelectionOptions}

-- The database, and the state of the services.
abbrev pub World : Type 0 → Type 0
World S = Db × S

abbrev pub Handler : Type 0 → Type 0
Handler S = World S → Result (Unit {0}) × World S

-- `dispatchTopicFor`
unfoldable pub dispatch_topic_for : TrafficType → KafkaTopic
dispatch_topic_for marketing = sms_dispatch_bulk
dispatch_topic_for _ = sms_dispatch_realtime

-- `trafficType === 'otp' ? 'smpp' : undefined`
abbrev pub preferred_protocol : TrafficType → Option Protocol
preferred_protocol otp = some smpp
preferred_protocol _ = none

abbrev pub message_log :
    MessageRow
    → MessageCompositeId
    → LogEvent
    → MessageStatus
    → MessageStatus
    → Option ℕ
    → Option ℕ
    → LogRow
message_log updated ref event from to provider provider_message = record {
  log_ref = ref;
  event = event;
  status_from = some from;
  status_to = some to;
  log_provider = provider;
  log_provider_message = provider_message;
  attempt_no = updated.attempt_count;
}

-- An outbox event about a message: the tenant is the partition key.
abbrev pub about_message :
    MessageRow → KafkaTopic → DedupeKey → MessageEventPayload → Option ℕ → OutboxEventInput
about_message message topic dedupe payload not_before = record {
  topic = topic;
  partition = message.tenant_id;
  dedupe = dedupe;
  content = message_event payload;
  not_before = not_before;
}

-- The columns that a route decides.
unfoldable pub routed_fields : RouteDecision → MessageRow → List Field
routed_fields route message =
    provider_id (some route.route_provider)
    ∷ smpp_config_id route.route_smpp_config
    ∷ route_rule_id (some route.routing_rule)
    ∷ cost_minor (route.estimated_unit_cost_minor *ℤ pos message.message_parts)
    ∷ last_error_code none
    ∷ []

unfoldable pub dispatch_payload :
    MessageEventPayload → MessageRow → RouteDecision → MessageEventPayload
dispatch_payload payload updated route = record payload {
  event_version = updated.version;
  event_provider = some route.route_provider;
  event_smpp_config = route.route_smpp_config;
  event_rule = some route.routing_rule;
  event_protocol = some route.route_protocol;
}

-- The log and the dispatch event of a routed message.
unfoldable pub announce_routed :
    Clock → MessageEventPayload → MessageRow → RouteDecision → MessageRow → Tx (Unit {0})
announce_routed c payload message route updated = do
  log_event (
      message_log updated payload.message_ref log_routed accepted routed (some route.route_provider)
        none)
  enqueue c (
      about_message message (dispatch_topic_for message.traffic_type)
        (dispatch_key payload.message_ref updated.version) (dispatch_payload payload updated route)
        none)

-- The transaction of `handleAccepted`.
unfoldable pub route_message :
    Clock → MessageEventPayload → MessageRow → RouteDecision → Tx (Unit {0})
route_message c payload message route =
    transition_message c message routed (routed_fields route message) false
    >>= announce_routed c payload message route

unfoldable pub route_options : MessageRow → RouteSelectionOptions
route_options message = record {
  excluded_provider_ids = [];
  excluded_rule_ids = [];
  prefer_protocol = preferred_protocol message.traffic_type;
  allow_open_circuit_probe = false;
}

-- A transaction of a handler, beside the services' state.
abbrev pub in_transaction : {S : Type 0} → Tx (Unit {0}) → Handler S
in_transaction body (db, s) = let (r, db') = with_transaction body db in (r, (db', s))

-- The transaction of `handleRetry`.
unfoldable pub requeue_dispatch : Clock → MessageEventPayload → MessageRow → Tx (Unit {0})
requeue_dispatch c payload message = enqueue c (
    about_message message (dispatch_topic_for message.traffic_type)
      (retry_dispatch_key payload.message_ref message.version)
      (record payload {
        event_version = message.version;
        event_provider = message.provider_id;
        event_smpp_config = message.smpp_config_id;
      })
      none)

module _ {S : Type 0} (services : Services S) (c : Clock) (payload : MessageEventPayload) where
  unfoldable pub accept_routed :
      MessageRow → Result RouteDecision × S → Db → Result (Unit {0}) × World S
  accept_routed message (err e, s) db = (err e, (db, s))
  accept_routed message (ok route, s) db =
      in_transaction (route_message c payload message route) (db, s)

  unfoldable pub accept_message : Result MessageRow → Handler S
  accept_message (err e) w = (err e, w)
  accept_message (ok message) (db, s) =
      if same_status message.status accepted
      then accept_routed message
          (services.select_route message.tenant_id message.phone_number message.traffic_type
            (route_options message) s)
          db
      else (ok tt, (db, s))

  -- `handleAccepted`
  unfoldable pub handle_accepted : Handler S
  handle_accepted (db, s) = accept_message (get_message_row payload.message_ref db) (db, s)

  unfoldable pub retry_message : Result MessageRow → Handler S
  retry_message (err e) w = (err e, w)
  retry_message (ok message) w =
      if same_status message.status submitting
      then in_transaction (requeue_dispatch c payload message) w
      else (ok tt, w)

  -- `handleRetry`
  unfoldable pub handle_retry : Handler S
  handle_retry (db, s) = retry_message (get_message_row payload.message_ref db) (db, s)
