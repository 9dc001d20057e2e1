-- ===== src/Tests/PipelineTests.antt =====
-- The message table and the handlers on concrete inputs.
use sms_platform_backend.Base.{
  ◌<◌, pos, ◌≡◌, refl, true, false, none, some, [], ◌∷◌, Error, Result, ok, err, find_first,
}
use sms_platform_backend.Status.{routed, failed, same_status, same_ref, allows}
use sms_platform_backend.Database.{Db, MessageRow, reserved}
use sms_platform_backend.Messages.{
  Field, find_message, is_current, patch_message, transition_message, log_event,
}
use sms_platform_backend.Messages.Transitions.{transition_stores}
use sms_platform_backend.Outbox.{enqueue}
use sms_platform_backend.Workflow.Services.{FraudAction}
use sms_platform_backend.Workflow.Accept.{handle_retry}
use sms_platform_backend.Workflow.Dispatch.{handle_dispatch, throttle_message, delay_throttled}
use sms_platform_backend.Workflow.Results.{handle_dispatch_result}
use sms_platform_backend.Workflow.FraudOutcomes.{
  handle_dispatch-blocked, throttled_routed_not_retried,
}
use sms_platform_backend.Workflow.Books.{BalancedAfter, handle_dispatch_result-Balanced}
use sms_platform_backend.Tests.Sample.{
  ref, message, message_in, db, db_with, clock, payload, services, db-Balanced,
}

-- The tables that an outcome leaves.
abbrev tables_of {ℓ} : {A : Type ℓ} → Result (A × Db) → Db
tables_of (ok (a, after)) = after
tables_of (err e) = db_with message

abbrev value_of : Result (MessageRow × Db) → MessageRow
value_of (ok (m, after)) = m
value_of (err e) = message

abbrev failing : Result (MessageRow × Db)
failing = transition_message clock message failed [] false db

transition_stores_example :
    (find_message ref (tables_of failing) ≡ some (value_of failing))
    × (allows message.status failed ≡ true)
    × ((value_of failing).status ≡ failed)
    × ((value_of failing).version ≡ 3)
    × ((value_of failing).price_minor ≡ pos 30)
    × (message.state_changed_at < 5000)
    × ((value_of failing).state_changed_at ≡ 5000)
unfolding transition_message find_message same_ref
transition_stores_example =
    transition_stores clock ref message db failed [] false (value_of failing) (tables_of failing)
      refl refl

abbrev patching : Result (MessageRow × Db)
patching = patch_message clock message (Field.attempt_count 4 ∷ []) db

handle_dispatch-blocked_example :
    (e : Error) × (handle_dispatch (services FraudAction.block) clock payload (db, tt)
      ≡ (err e, (db, tt)))
unfolding find_message same_ref same_status
handle_dispatch-blocked_example =
    handle_dispatch-blocked (services FraudAction.block) clock payload message db tt tt refl refl
      refl

abbrev queued : MessageRow
queued = message_in routed reserved

abbrev throttling : Result (Unit {0} × Db)
throttling = throttle_message clock payload queued (db_with queued)

throttled_routed_not_retried_example :
    handle_retry
      (services FraudAction.allow)
      (record { now = 40000; today = 20000 })
      payload
      (tables_of throttling, tt)
    ≡ (ok tt, (tables_of throttling, tt))
unfolding throttle_message find_message same_ref patch_message delay_throttled log_event enqueue
throttled_routed_not_retried_example =
    throttled_routed_not_retried (services FraudAction.allow) clock
      (record { now = 40000; today = 20000 }) payload payload queued (db_with queued)
      (tables_of throttling) tt refl refl refl refl

handle_dispatch_result-Balanced_example :
    BalancedAfter (handle_dispatch_result (services FraudAction.allow) clock payload (db, tt))
handle_dispatch_result-Balanced_example =
    handle_dispatch_result-Balanced (services FraudAction.allow) clock payload db db-Balanced tt

-- The message as another worker saw it before.
abbrev seen_before : MessageRow
seen_before = record message { version = 1 }

gone : find_first (is_current seen_before) db.messages ≡ none
unfolding is_current same_ref same_status
gone = refl
