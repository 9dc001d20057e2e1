-- ===== src/Tests/ConnectorTests.antt =====
-- The connectors at concrete answers.
use Prim.Native.Nat.{max}
use sms_platform_backend.Base.{◌≤◌, ◌≡◌, refl, inr, true, false, some, [], ◌∷◌, Result, length}
use sms_platform_backend.Database.{MessageRow, MessageEventPayload, with_transaction}
use sms_platform_backend.Status.{same_ref, same_status}
use sms_platform_backend.Messages.{find_message, get_message_row, patch_message, log_event}
use sms_platform_backend.Outbox.{enqueue}
use sms_platform_backend.Workflow.Services.{FraudAction, DispatchResult}
use sms_platform_backend.Workflow.Accept.{World}
use sms_platform_backend.Workflow.Results.{
  handle_dispatch_result, result_for, settle_message, suspect_message, report_suspect,
}
use sms_platform_backend.Connectors.Smpp.{
  SmppEndpoint, dispatched, pool_after, compute_session_slot, timed_out, smpp_result,
}
use sms_platform_backend.Connectors.Pool.{pool_after-bound}
use sms_platform_backend.Connectors.Unknown.{OnlyReconciled, unknown_outcome_stays}
use sms_platform_backend.Tests.Sample.{ref, message, db, clock, payload, services}

abbrev config : SmppEndpoint
config = record { smpp_provider = 4; endpoint = 9; max_sessions = 2 }

pool_after-bound_example :
    length (pool_after config (dispatched (b'1' ∷ []) true ∷ dispatched (b'2' ∷ []) true ∷ []) [])
    ≤ max 2 1
pool_after-bound_example =
    pool_after-bound config (dispatched (b'1' ∷ []) true ∷ dispatched (b'2' ∷ []) true ∷ [])

-- The hash of these digits leaves the 32 bits on the way.
wrapped_slot :
    compute_session_slot (b'+' ∷ b'9' ∷ b'9' ∷ b'9' ∷ b'9' ∷ b'9' ∷ b'9' ∷ b'9' ∷ []) 1000 ≡ 257
unfolding compute_session_slot
wrapped_slot = refl

abbrev unanswered : MessageEventPayload
unanswered = record payload { event_accepted = false; event_uncertain = true }

abbrev handled : Result (Unit {0}) × World (Unit {0})
handled = handle_dispatch_result (services FraudAction.allow) clock unanswered (db, tt)

abbrev unknown : DispatchResult
unknown = smpp_result timed_out

unknown_outcome_stays_example :
    ((n : MessageRow) × (find_message ref handled.1.0 ≡ some n)
      × (n.status ≡ message.status)
      × (n.billing_state ≡ message.billing_state)
      × (handled.1.0.wallets ≡ db.wallets)
      × (handled.1.0.transactions ≡ db.transactions)
      × OnlyReconciled db handled.1.0)
    × (handled.1.1 ≡ tt)
unfolding handle_dispatch_result with_transaction smpp_result find_message same_ref result_for
    get_message_row same_status settle_message suspect_message patch_message report_suspect
    log_event enqueue
unknown_outcome_stays_example =
    unknown_outcome_stays clock unanswered message db refl (services FraudAction.allow) false
      unknown tt handled.1.1 handled.1.0 (inr refl) refl refl refl refl
