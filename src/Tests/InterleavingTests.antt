-- ===== src/Tests/InterleavingTests.antt =====
-- Two workers that have read the same message.
use sms_platform_backend.Base.{◌≡◌, refl, some, [], ◌∷◌}
use sms_platform_backend.Status.{same_ref, same_status}
use sms_platform_backend.Database.{MessageRow}
use sms_platform_backend.Messages.{find_message}
use sms_platform_backend.Messages.Distinct.{Distinct}
use sms_platform_backend.Messages.Growth.{Grows}
use sms_platform_backend.Billing.Books.{Balanced}
use sms_platform_backend.Workflow.Services.{FraudAction}
use sms_platform_backend.Workflow.Accept.{handle_accepted, handle_retry}
use sms_platform_backend.Workflow.Dispatch.{handle_dispatch}
use sms_platform_backend.Workflow.Results.{handle_dispatch_result}
use sms_platform_backend.Interleaving.Tasks.{
  Task, handles, confirm_work, fail_work, decides, System, finish_task, read, commit, Runs, idle,
  later,
}
use sms_platform_backend.Interleaving.Handlers.{alone, RunsTo}
use sms_platform_backend.Interleaving.Reachable.{Runs-Balanced, Runs-Grows}
use sms_platform_backend.Interleaving.Handled.{handlers-RunsTo}
use sms_platform_backend.Tests.Sample.{ref, message, db, clock, payload, services, db-Balanced}

abbrev confirming : Task
confirming = handles payload message confirm_work

abbrev failing_task : Task
failing_task = handles payload message fail_work

-- Both have read it, and one has committed.
abbrev confirmed : System
confirmed = finish_task clock confirming (failing_task ∷ []) db

both_read : Runs (alone db) confirmed
unfolding find_message same_ref decides same_status
both_read =
    later
      (later (later idle (read payload message fail_work refl refl))
        (read payload message confirm_work refl refl))
      (commit [] confirming (failing_task ∷ []) clock)

db-Distinct : Distinct db.messages
db-Distinct = (refl, tt)

Runs-Balanced_example : Balanced confirmed.tables × Distinct confirmed.tables.messages
Runs-Balanced_example = Runs-Balanced (alone db) confirmed refl db-Balanced db-Distinct both_read

Runs-Grows_example :
    (n : MessageRow) × (find_message ref confirmed.tables ≡ some n) × Grows message n
unfolding find_message same_ref
Runs-Grows_example = Runs-Grows (alone db) confirmed ref message both_read refl

handlers-RunsTo_example :
    RunsTo db (handle_accepted (services FraudAction.allow) clock payload (db, tt))
    × RunsTo db (handle_dispatch (services FraudAction.allow) clock payload (db, tt))
    × RunsTo db (handle_dispatch_result (services FraudAction.allow) clock payload (db, tt))
    × RunsTo db (handle_retry (services FraudAction.allow) clock payload (db, tt))
handlers-RunsTo_example = handlers-RunsTo (services FraudAction.allow) clock payload db tt
