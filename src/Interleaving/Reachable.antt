-- ===== src/Interleaving/Reachable.antt =====
-- What holds at any time while the workers of messages/message-workflow.service.ts and
-- dlr/dlr.processor.service.ts and the submissions of messages/messages.service.ts run at once.
use sms_platform_backend.Base.{
  ℕ, ◌≡◌, refl, sym, subst, inl, inr, ◌⊎◌, true, Option, none, some, List, [], ◌∷◌, ◌++◌, All,
  All-map, find_first, Result-cases,
}
use sms_platform_backend.Status.{MessageCompositeId, delivered, failed}
use sms_platform_backend.Database.{
  Db, Clock, with_transaction_keeps, with_transaction_ok, with_transaction_err, MessageRow,
  WebhookRow,
}
use sms_platform_backend.Messages.{is_ref, find_message}
use sms_platform_backend.Messages.Updates.{found_ref}
use sms_platform_backend.Messages.Distinct.{Distinct, Distinct-found}
use sms_platform_backend.Messages.Growth.{Grows, Grows-self, Grows-trans, leads_final}
use sms_platform_backend.Messages.Evolving.{Evolving}
use sms_platform_backend.Billing.Books.{Balanced}
use sms_platform_backend.Dlr.Correlate.{DlrInput, correlate_message}
use sms_platform_backend.Dlr.Choice.{correlate_message_kept}
use sms_platform_backend.Submission.Accept.{accept_draft}
use sms_platform_backend.Submission.Outcome.{accept_draft-Balanced}
use sms_platform_backend.Interleaving.Tasks.{
  Work, Task, reports, report_work, decides, task_body, System, finish_task, Step, read, correlate,
  commit, lose, submit, Runs, idle, later,
}
use sms_platform_backend.Interleaving.Bodies.{Evolving-task_body}
use sms_platform_backend.Interleaving.Kept.{is_guarded}
use sms_platform_backend.Interleaving.Sound.{
  IsReady, IsSound, IsReady-later, transaction-Evolves, accept_draft-grown, accept_draft-Distinct,
  All-pick, task_body-Balanced, task_body-follows,
}

decides-is_guarded :
    (m : MessageRow) (work : Work) → decides m work ≡ true → is_guarded m work ≡ true
unfolding decides
decides-is_guarded m (report_work version protocol result) g = refl
decides-is_guarded m work g = g

All-append_both {ℓ κ} :
    {A : Type ℓ} (P : A → Type κ) (xs ys : List A) → All P xs → All P ys → All P (xs ++ ys)
All-append_both P [] ys h k = k
All-append_both P (x ∷ xs) ys h k = (h.0, All-append_both P xs ys h.1 k)

commit-IsSound :
    (db : Db) (t : Task) (rest : List Task) (c : Clock)
    → Balanced db
    → Distinct db.messages
    → IsReady db t
    → All (IsReady db) rest
    → IsSound (finish_task c t rest db)
unfolding finish_task Evolving
commit-IsSound db t rest c balanced distinct r rs = elim (Result-cases (task_body c t db)) [
  | inl ((ts, db'), h) ↦
      (let e = Evolving-task_body c t db ts db' h in
        rw (with_transaction_ok (task_body c t) db ts db' h) (record {
          balanced = task_body-Balanced c db balanced distinct t ts db' r h;
          distinct = e.distinct distinct;
          ready =
              All-append_both (IsReady db') ts rest
                (task_body-follows c db balanced distinct t ts db' r e h)
                (All-map rest (IsReady-later db db' e) rs);
        }))
  | inr (x, h) ↦
      rw (with_transaction_err (task_body c t) db x h)
        (record { balanced = balanced; distinct = distinct; ready = rs })
]

correlated-IsReady :
    (db : Db) (w : WebhookRow) (input : DlrInput) (now : ℕ)
    → Distinct db.messages
    → IsReady db (reports w (correlate_message input now db.messages))
unfolding find_message
correlated-IsReady db w input now distinct = go (correlate_message input now db.messages) refl
  where
    go :
        (o : Option MessageRow)
        → correlate_message input now db.messages ≡ o
        → IsReady db (reports w o)
    go none e = tt
    go (some m) e = (
      m,
      correlate_message_kept input (λ x. find_first (is_ref x.key) db.messages ≡ some x) now
          db.messages m (Distinct-found db.messages distinct) e,
      Grows-self m,
    )

Step-IsSound : {s t : System} → Step s t → IsSound s → IsSound t
unfolding find_message
Step-IsSound (read {db} {ts} payload m work found g) sound = record {
  balanced = sound.balanced;
  distinct = sound.distinct;
  ready = (
    (
      (
        m,
        subst (λ k. find_message k db ≡ some m) (sym (found_ref payload.message_ref m db found))
            found,
        Grows-self m,
      ),
      found_ref payload.message_ref m db found,
      decides-is_guarded m work g,
    ),
    sound.ready,
  );
}
Step-IsSound (correlate {db} {ts} readers c date id provider w there new) sound = record {
  balanced = sound.balanced;
  distinct = sound.distinct;
  ready = (correlated-IsReady db w _ c.now sound.distinct, sound.ready);
}
Step-IsSound (commit {db} before t after c) sound =
    let (r, rs) = All-pick (IsReady db) before t after sound.ready in
    commit-IsSound db t (before ++ after) c sound.balanced sound.distinct r rs
Step-IsSound (lose {db} before t after) sound = record {
  balanced = sound.balanced;
  distinct = sound.distinct;
  ready = (All-pick (IsReady db) before t after sound.ready).1;
}
Step-IsSound (submit {db} {ts} c context dto draft) sound = record {
  balanced =
      with_transaction_keeps Balanced (accept_draft c context dto draft) db sound.balanced
        (λ r db' h. accept_draft-Balanced c context dto draft db sound.balanced r db' h);
  distinct =
      with_transaction_keeps (λ d. Distinct d.messages) (accept_draft c context dto draft) db
        sound.distinct
        (λ r db' h.
          accept_draft-Distinct c context dto draft db r db' h sound.balanced sound.distinct);
  ready =
      with_transaction_keeps (λ d. All (IsReady d) ts) (accept_draft c context dto draft) db
        sound.ready
        (λ r db' h.
          All-map ts
            (IsReady-later db db' (record {
              distinct = accept_draft-Distinct c context dto draft db r db' h sound.balanced;
              grown = accept_draft-grown c context dto draft db r db' h;
            }))
            sound.ready);
}

pub Runs-IsSound : {s t : System} → Runs s t → IsSound s → IsSound t
Runs-IsSound idle sound = sound
Runs-IsSound (later runs step) sound = Step-IsSound step (Runs-IsSound runs sound)

-- If no handler is at work, the books are balanced and no identity stands twice among the messages,
-- then both hold of the tables in every later state of the system of workers: handlers of the
-- workflow and of delivery reports whose transactions commit in any order, at any time after they
-- have read their message, any number of times for one event, or never, with submissions in
-- between.
pub Runs-Balanced :
    (s t : System)
    → s.tasks ≡ []
    → Balanced s.tables
    → Distinct s.tables.messages
    → Runs s t
    → Balanced t.tables × Distinct t.tables.messages
Runs-Balanced s t start balanced distinct runs =
    let sound = Runs-IsSound runs (record {
      balanced = balanced;
      distinct = distinct;
      ready = subst (All (IsReady s.tables)) (sym start) tt;
    }) in
    (sound.balanced, sound.distinct)

-- A message in one state of the system, and in a later one.
abbrev Later : System → System → Type 0
Later s t =
    (ref : MessageCompositeId) (m : MessageRow)
    → find_message ref s.tables ≡ some m
    → (n : MessageRow) × (find_message ref t.tables ≡ some n) × Grows m n

Step-Later : {s t : System} → Step s t → Later s t
unfolding finish_task Evolving
Step-Later (read payload m work found g) ref x h = (x, h, Grows-self x)
Step-Later (correlate readers c date id provider w there new) ref x h = (x, h, Grows-self x)
Step-Later (commit {db} before t after c) ref x h =
    (transaction-Evolves (task_body c t) db (λ ts db' e. Evolving-task_body c t db ts db' e)).grown
      ref x h
Step-Later (lose before t after) ref x h = (x, h, Grows-self x)
Step-Later (submit {db} c context dto draft) ref x h =
    with_transaction_keeps (λ d. (n : MessageRow) × (find_message ref d ≡ some n) × Grows x n)
      (accept_draft c context dto draft) db (x, h, Grows-self x)
      (λ r db' e. accept_draft-grown c context dto draft db r db' e ref x h)

-- A message that is in the tables is in the tables of every later state of the system of workers,
-- with the same identity, price, traffic type, phone number, body and parts; its row is the same or
-- has a later version, and its status is the same or further on in the order accepted, routed,
-- submitting, provider_accepted, and delivered or failed.
pub Runs-Grows :
    (s t : System) (ref : MessageCompositeId) (m : MessageRow)
    → Runs s t
    → find_message ref s.tables ≡ some m
    → (n : MessageRow) × (find_message ref t.tables ≡ some n) × Grows m n
Runs-Grows s t ref m runs found = onward runs ref m found
  where
    onward : {s t : System} → Runs s t → Later s t
    onward idle ref x h = (x, h, Grows-self x)
    onward (later runs step) ref x h =
        let (y, there, g) = onward runs ref x h in
        let (z, last, k) = Step-Later step ref y there in (z, last, Grows-trans x y z g k)

-- A message that is delivered or failed keeps its status.
pub Runs-final :
    (s t : System) (ref : MessageCompositeId) (m : MessageRow)
    → Runs s t
    → find_message ref s.tables ≡ some m
    → (m.status ≡ delivered) ⊎ (m.status ≡ failed)
    → (n : MessageRow) × (find_message ref t.tables ≡ some n) × (n.status ≡ m.status)
Runs-final s t ref m runs found final =
    let (n, there, g) = Runs-Grows s t ref m runs found in
    (n, there, leads_final m.status n.status final g.forward)
