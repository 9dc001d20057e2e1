-- ===== src/Interleaving/Handlers.antt =====
-- The handlers of messages/message-workflow.service.ts and dlr/dlr.processor.service.ts and
-- `submitMessageWithContext` of messages/messages.service.ts, each from its first statement to its
-- last, as runs of the system of workers.
use sms_platform_backend.Base.{
  ℕ, ◌≡◌, refl, subst, inl, inr, Bool, true, false, ◌||◌, some, List, [], ◌∷◌, ok, Result,
  if◌then◌else◌, Result-cases,
}
use sms_platform_backend.Status.{routed, submitting, same_status}
use sms_platform_backend.Database.{
  Db, Clock, Tx, with_transaction, with_transaction_ok, with_transaction_err, bind_step, bind_err,
  pure, ◌>>=◌, MessageRow, MessageEventPayload, Protocol,
}
use sms_platform_backend.Messages.{find_message}
use sms_platform_backend.Workflow.Services.{Services, DispatchResult}
use sms_platform_backend.Workflow.Accept.{World, in_transaction}
use sms_platform_backend.Workflow.Dispatch.{
  begin_submit, report_result, after_dispatch, submit_begun,
}
use sms_platform_backend.Interleaving.Tasks.{
  Work, Task, handles, begin_work, report_work, decides, then_done, work_body, task_body, System,
  finish_task, read, commit, Runs, idle, later,
}

-- A system where no handler is at work.
abbrev pub alone : Db → System
alone db = record { tables = db; tasks = [] }

-- What a handler does is a run of the system.
pub record RunsTo {S : Type 0} (db : Db) (outcome : Result (Unit {0}) × World S) : Type 0 where
  pub run : Runs (alone db) (alone outcome.1.0)

-- A transaction that ends its handler leaves no task.
pub ends_alone :
    (body : Tx (Unit {0})) (c : Clock) (t : Task) (db : Db)
    → task_body c t ≡ then_done body
    → finish_task c t [] db ≡ alone (with_transaction body db).1
unfolding finish_task then_done
ends_alone body c t db e = elim (Result-cases (body db)) [
  | inl ((u, db'), h) ↦
      rw
        (
          e,
          with_transaction_ok {A = List Task} (body >>= λ _. pure []) db [] db'
              (bind_step body (λ _. pure []) db u db' h),
          with_transaction_ok body db u db' h,
        )
        refl
  | inr (x, h) ↦
      rw
        (
          e,
          with_transaction_err {A = List Task} (body >>= λ _. pure []) db x
              (bind_err body (λ _. pure []) db x h),
          with_transaction_err body db x h,
        )
        refl
]

pub if_RunsTo :
    {S : Type 0} (db : Db) (b : Bool) (x y : Result (Unit {0}) × World S)
    → (b ≡ true → RunsTo db x)
    → (b ≡ false → RunsTo db y)
    → RunsTo db (if b then x else y)
if_RunsTo db true x y hx hy = hx refl
if_RunsTo db false x y hx hy = hy refl

module _ (c : Clock) (payload : MessageEventPayload) (db : Db) (m : MessageRow) where
  -- The commit of the first transaction of a dispatch leaves the report to be made.
  begun_commit :
      (protocol : Protocol) (result : DispatchResult) (v : ℕ) (db' : Db)
      → begin_submit c payload m db ≡ ok (v, db')
      → finish_task c (handles payload m (begin_work protocol result)) [] db
        ≡ (record { tables = db'; tasks = handles payload m (report_work v protocol result) ∷ [] })
  unfolding finish_task task_body work_body
  begun_commit protocol result v db' h =
      rw
        (with_transaction_ok {A = List Task}
          (begin_submit c payload m >>= λ version.
            pure (handles payload m (report_work version protocol result) ∷ []))
          db (handles payload m (report_work v protocol result) ∷ []) db'
          (bind_step (begin_submit c payload m)
            (λ version. pure (handles payload m (report_work version protocol result) ∷ [])) db v
            db' h))
        refl

  begun_run :
      (protocol : Protocol) (result : DispatchResult) (v : ℕ) (db' : Db)
      → find_message payload.message_ref db ≡ some m
      → decides m (begin_work protocol result) ≡ true
      → begin_submit c payload m db ≡ ok (v, db')
      → Runs
          (alone db)
          (record { tables = db'; tasks = handles payload m (report_work v protocol result) ∷ [] })
  begun_run protocol result v db' found g h =
      subst (Runs (alone db)) (begun_commit protocol result v db' h) (
        later (later idle (read payload m (begin_work protocol result) found g))
          (commit [] (handles payload m (begin_work protocol result)) [] c))

module _ {S : Type 0} (c : Clock) (payload : MessageEventPayload) (db : Db) (m : MessageRow)
    (found : find_message payload.message_ref db ≡ some m) where
  -- A handler that reads its message and runs one transaction.
  pub one_transaction :
      (work : Work) (body : Tx (Unit {0})) (s : S)
      → work_body c payload m work ≡ then_done body
      → decides m work ≡ true
      → RunsTo db (in_transaction body (db, s))
  unfolding task_body
  one_transaction work body s e g = record {
    run = subst (Runs (alone db)) (ends_alone body c (handles payload m work) db e) (
        later (later idle (read payload m work found g)) (commit [] (handles payload m work) [] c));
  }

  -- A dispatch: the transaction before the provider is called, and the one after it.
  after_dispatch-RunsTo :
      (services : Services S) (version : ℕ) (outcome : Result (Protocol × DispatchResult) × S)
      (db' : Db)
      → ((protocol : Protocol) (result : DispatchResult)
          → Runs (alone db) (record {
            tables = db';
            tasks = handles payload m (report_work version protocol result) ∷ [];
          }))
      → RunsTo db (after_dispatch services c payload m version outcome db')
  unfolding after_dispatch task_body work_body
  after_dispatch-RunsTo services version (outcome, s) db' begun = record {
    run =
        subst (Runs (alone db))
          (ends_alone (report_result c payload m version _ _) c
            (handles payload m (report_work version _ _)) db' refl)
          (later (begun _ _) (commit [] (handles payload m (report_work version _ _)) [] c));
  }

  pub submit_begun-RunsTo :
      (services : Services S) (s : S)
      → (same_status m.status routed || same_status m.status submitting) ≡ true
      → RunsTo db
          (submit_begun services c payload m (with_transaction (begin_submit c payload m) db) s)
  unfolding submit_begun decides
  submit_begun-RunsTo services s g = elim (Result-cases (begin_submit c payload m db)) [
    | inl ((v, db'), h) ↦ rw (with_transaction_ok (begin_submit c payload m) db v db' h) (
        after_dispatch-RunsTo services v _ db'
          (λ protocol result. begun_run c payload db m protocol result v db' found g h))
    | inr (x, h) ↦
        rw (with_transaction_err (begin_submit c payload m) db x h) (record { run = idle })
  ]
