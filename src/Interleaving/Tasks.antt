-- ===== src/Interleaving/Tasks.antt =====
-- The transactions that the handlers of messages/message-workflow.service.ts and
-- dlr/dlr.processor.service.ts decide on, and the steps of a system of such workers.
use sms_platform_backend.Base.{
  ℕ, ◌≡◌, Bool, true, false, ◌||◌, Option, some, List, [], ◌∷◌, ◌++◌, Result, ok, err, find_first,
}
use sms_platform_backend.Status.{accepted, routed, submitting, same_status}
use sms_platform_backend.Database.{
  Db, Clock, Tx, pure, ◌>>=◌, with_transaction, MessageRow, MessageEventPayload, Protocol,
  WebhookRow,
}
use sms_platform_backend.Messages.{find_message}
use sms_platform_backend.Workflow.Services.{RouteDecision, RetryPolicy, DispatchResult}
use sms_platform_backend.Workflow.Accept.{route_message, requeue_dispatch}
use sms_platform_backend.Workflow.Dispatch.{
  block_message, throttle_message, begin_submit, report_result,
}
use sms_platform_backend.Workflow.Results.{
  confirm_message, suspect_message, fail_message, schedule_retry,
}
use sms_platform_backend.Dlr.Correlate.{correlate_message}
use sms_platform_backend.Dlr.Processor.{TextReaders, dlr_input, report_about, is_report}
use sms_platform_backend.Submission.Services.{SubmissionContext, SubmitMessageDto}
use sms_platform_backend.Submission.Prepare.{Draft}
use sms_platform_backend.Submission.Accept.{accept_draft}

-- What a handler of the workflow decides for a message: its transaction, with the answers of the
-- services that it goes into. `begin_work` has the answer that the provider gives after it.
pub data Work : Type 0 where
  route_work : RouteDecision → Work
  requeue_work block_work throttle_work confirm_work suspect_work fail_work : Work
  begin_work : Protocol → DispatchResult → Work
  report_work : ℕ → Protocol → DispatchResult → Work
  retry_work : RetryPolicy → Result RouteDecision → Work

-- A transaction that is to be run, for a message as it was read.
pub data Task : Type 0 where
  handles : MessageEventPayload → MessageRow → Work → Task
  reports : WebhookRow → Option MessageRow → Task

-- The guard of the handler on the status that it has read. Only `begin_work` leads to a report.
unfoldable pub decides : MessageRow → Work → Bool
unfolding same_status
decides m (route_work route) = same_status m.status accepted
decides m block_work = same_status m.status routed || same_status m.status submitting
decides m throttle_work = same_status m.status routed || same_status m.status submitting
decides m (begin_work protocol result) =
    same_status m.status routed || same_status m.status submitting
decides m (report_work version protocol result) = false
decides m _ = same_status m.status submitting

-- A transaction that ends the handler.
unfoldable pub then_done : Tx (Unit {0}) → Tx (List Task)
then_done body = body >>= λ _. pure []

-- The transaction of a task, and the task that the handler goes on with.
unfoldable pub work_body : Clock → MessageEventPayload → MessageRow → Work → Tx (List Task)
work_body c payload m (route_work route) = then_done (route_message c payload m route)
work_body c payload m requeue_work = then_done (requeue_dispatch c payload m)
work_body c payload m block_work = then_done (block_message c payload m)
work_body c payload m throttle_work = then_done (throttle_message c payload m)
work_body c payload m confirm_work = then_done (confirm_message c payload m)
work_body c payload m suspect_work = then_done (suspect_message c payload m)
work_body c payload m fail_work = then_done (fail_message c payload m)
work_body c payload m (begin_work protocol result) = begin_submit c payload m >>= λ version.
    pure (handles payload m (report_work version protocol result) ∷ [])
work_body c payload m (report_work version protocol result) =
    then_done (report_result c payload m version protocol result)
work_body c payload m (retry_work policy next) = then_done (schedule_retry c payload m policy next)

unfoldable pub task_body : Clock → Task → Tx (List Task)
unfolding work_body
task_body c (handles payload m work) = work_body c payload m work
task_body c (reports w message) = then_done (report_about c w message)

pub record System : Type 0 where
  pub tables : Db
  pub tasks : List Task

abbrev pub tasks_of : Result (List Task) → List Task
tasks_of (ok ts) = ts
tasks_of (err e) = []

-- A task commits, or rolls back; the rest are still to be run.
unfoldable pub finish_task : Clock → Task → List Task → Db → System
unfolding task_body
finish_task c t rest db =
    let (r, db') = with_transaction (task_body c t) db in
    record { tables = db'; tasks = tasks_of r ++ rest }

-- One step of the system, each transaction at a clock of its own.
pub data Step : System → System → Type 0 where
  -- a handler of the workflow reads the message of its event
  read :
      {db : Db} {ts : List Task} (payload : MessageEventPayload) (m : MessageRow) (work : Work)
      → find_message payload.message_ref db ≡ some m
      → decides m work ≡ true
      → Step
          (record { tables = db; tasks = ts })
          (record { tables = db; tasks = handles payload m work ∷ ts })
  -- `processWebhook` reads a report that is not processed, and correlates it
  correlate :
      {db : Db} {ts : List Task} (readers : TextReaders) (c : Clock) (date id provider : ℕ)
      (w : WebhookRow)
      → find_first (is_report date id provider) db.dlr_webhooks ≡ some w
      → w.processed ≡ false
      → Step
          (record { tables = db; tasks = ts })
          (record {
            tables = db;
            tasks = reports w (correlate_message (dlr_input readers w) c.now db.messages) ∷ ts;
          })
  -- a task runs its transaction
  commit :
      {db : Db} (before : List Task) (t : Task) (after : List Task) (c : Clock)
      → Step
          (record { tables = db; tasks = before ++ t ∷ after })
          (finish_task c t (before ++ after) db)
  -- a worker stops before it does
  lose :
      {db : Db} (before : List Task) (t : Task) (after : List Task)
      → Step
          (record { tables = db; tasks = before ++ t ∷ after })
          (record { tables = db; tasks = before ++ after })
  -- `submitMessageWithContext` runs its transaction
  submit :
      {db : Db} {ts : List Task} (c : Clock) (context : SubmissionContext) (dto : SubmitMessageDto)
      (draft : Draft)
      → Step
          (record { tables = db; tasks = ts })
          (record {
            tables = (with_transaction (accept_draft c context dto draft) db).1;
            tasks = ts;
          })

-- Any number of steps.
pub data Runs : System → System → Type 0 where
  idle : {s : System} → Runs s s
  later : {s t u : System} → Runs s t → Step t u → Runs s u
