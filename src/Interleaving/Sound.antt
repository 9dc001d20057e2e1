-- ===== src/Interleaving/Sound.antt =====
-- The invariant of a system of workers (messages/message-workflow.service.ts,
-- dlr/dlr.processor.service.ts) and submissions (messages/messages.service.ts), and what each
-- transaction does to it.
use sms_platform_backend.Base.{
  ℕ, ◌<◌, ◌≤◌, ◌≡◌, refl, sym, subst, ap, ◌∙◌, true, Option, none, some, List, [], ◌∷◌, ◌++◌, arith,
  ok, All, find_first, find_first-append_old, some_inj,
}
use sms_platform_backend.Status.{MessageCompositeId, same_ref_iff}
use sms_platform_backend.Database.{
  Db, Clock, Tx, with_transaction, with_transaction_keeps, MessageRow, pure, bind_ok,
}
use sms_platform_backend.Messages.{is_ref, find_message}
use sms_platform_backend.Messages.Distinct.{Distinct, Distinct-append}
use sms_platform_backend.Messages.Growth.{Grows, Grows-self, Evolves, Evolves-same}
use sms_platform_backend.Billing.Books.{Balanced}
use sms_platform_backend.Dlr.Processor.{report_about}
use sms_platform_backend.Submission.Services.{SubmissionContext, SubmitMessageDto}
use sms_platform_backend.Submission.Prepare.{Draft}
use sms_platform_backend.Submission.Accept.{Submitted, created, repeated, accept_draft, new_message}
use sms_platform_backend.Submission.Repeats.{accept_draft-created, accept_draft-repeated}
use sms_platform_backend.Workflow.Dispatch.{begin_submit}
use sms_platform_backend.Interleaving.Tasks.{
  Task, handles, reports, begin_work, report_work, work_body, task_body, System,
}
use sms_platform_backend.Interleaving.Fresh.{IsSnapshot, IsSnapshot-kept}
use sms_platform_backend.Interleaving.Kept.{then_done-case, is_guarded, work_body-Balanced}
use sms_platform_backend.Interleaving.Reports.{report_about-stale}

-- A task whose row was read at some time, with the guard of its handler.
abbrev pub IsReady : Db → Task → Type 0
IsReady db (handles payload m work) =
    IsSnapshot m db × (m.key ≡ payload.message_ref) × (is_guarded m work ≡ true)
IsReady db (reports w none) = Unit
IsReady db (reports w (some m)) = IsSnapshot m db

pub record IsSound (s : System) : Type 0 where
  pub balanced : Balanced s.tables
  pub distinct : Distinct s.tables.messages
  pub ready : All (IsReady s.tables) s.tasks

pub IsReady-later : (db db' : Db) → Evolves db db' → (t : Task) → IsReady db t → IsReady db' t
IsReady-later db db' e (handles payload m work) (snapshot, about, g) =
    (IsSnapshot-kept m db db' e snapshot, about, g)
IsReady-later db db' e (reports w none) r = tt
IsReady-later db db' e (reports w (some m)) r = IsSnapshot-kept m db db' e r

-- The tables that a transaction leaves have evolved from those that it found.
pub transaction-Evolves :
    {A : Type 0} (body : Tx A) (db : Db)
    → ((a : A) (db' : Db) → body db ≡ ok (a, db') → Evolves db db')
    → Evolves db (with_transaction body db).1
transaction-Evolves body db step =
    with_transaction_keeps (Evolves db) body db (Evolves-same db db refl) step

fresh_identity :
    (n : ℕ) (ref : MessageCompositeId) (ms : List MessageRow)
    → n ≤ ref.id
    → All (λ m. m.id < n) ms
    → find_first (is_ref ref) ms ≡ none
fresh_identity n ref [] le h = refl
fresh_identity n ref (m ∷ ms) le h =
    ground (arith, same_ref_iff m.key ref, fresh_identity n ref ms le h.1)

module _ (c : Clock) (context : SubmissionContext) (dto : SubmitMessageDto) (draft : Draft)
    (db : Db) where
  -- A submission adds a message, or none.
  pub accept_draft-grown :
      (r : Submitted) (db' : Db)
      → accept_draft c context dto draft db ≡ ok (r, db')
      → (ref : MessageCompositeId) (m : MessageRow) → find_message ref db ≡ some m
      → (n : MessageRow) × (find_message ref db' ≡ some n) × Grows m n
  unfolding find_message
  accept_draft-grown (created m) db' h ref x there =
      let (new, same_row, appended) = accept_draft-created c context dto draft db m db' h in
      (
        x,
        ap (find_first (is_ref ref)) appended
            ∙ find_first-append_old (is_ref ref) db.messages m x there,
        Grows-self x,
      )
  accept_draft-grown (repeated m) db' h ref x there =
      let e = accept_draft-repeated c context dto draft db m db' h in
      (x, ap (λ d. find_first (is_ref ref) d.messages) e ∙ there, Grows-self x)

  pub accept_draft-Distinct :
      (r : Submitted) (db' : Db)
      → accept_draft c context dto draft db ≡ ok (r, db')
      → Balanced db
      → Distinct db.messages
      → Distinct db'.messages
  unfolding new_message
  accept_draft-Distinct (created m) db' h balanced distinct =
      let (new, same_row, appended) = accept_draft-created c context dto draft db m db' h in
      let next_id : m.key.id ≡ db.next_message_id = ap (λ x. x.key.id) same_row in
      subst Distinct (sym appended) (
        Distinct-append db.messages m
          (fresh_identity db.next_message_id m.key db.messages (omega (arith, next_id))
            balanced.message_ids)
          distinct)
  accept_draft-Distinct (repeated m) db' h balanced distinct =
      let e = accept_draft-repeated c context dto draft db m db' h in
      subst (λ d. Distinct d.messages) (sym e) distinct

pub All-pick {ℓ κ} :
    {A : Type ℓ} (P : A → Type κ) (xs : List A) (x : A) (ys : List A)
    → All P (xs ++ x ∷ ys)
    → P x × All P (xs ++ ys)
All-pick P [] x ys h = h
All-pick P (z ∷ zs) x ys h = let (p, rest) = All-pick P zs x ys h.1 in (p, (h.0, rest))

module _ (c : Clock) (db : Db) (balanced : Balanced db) (distinct : Distinct db.messages) where
  pub task_body-Balanced :
      (t : Task) (ts : List Task) (db' : Db)
      → IsReady db t
      → task_body c t db ≡ ok (ts, db')
      → Balanced db'
  unfolding task_body
  task_body-Balanced (handles payload m work) ts db' (snapshot, about, g) h =
      work_body-Balanced c payload m db balanced distinct snapshot about work ts db' g h
  task_body-Balanced (reports w o) ts db' r h =
      report_about-stale c w db balanced distinct o db' (there o r)
        (then_done-case (report_about c w o) db ts db' h).0
    where
      there :
          (o : Option MessageRow)
          → IsReady db (reports w o)
          → (m : MessageRow) → o ≡ some m
          → IsSnapshot m db
      there none q m e = absurd cc
      there (some x) q m e = subst (λ y. IsSnapshot y db) (some_inj x m e) q

  -- A handler goes on with a report of a dispatch, or with nothing.
  pub task_body-follows :
      (t : Task) (ts : List Task) (db' : Db)
      → IsReady db t
      → Evolves db db'
      → task_body c t db ≡ ok (ts, db')
      → All (IsReady db') ts
  unfolding task_body work_body
  task_body-follows (handles payload m (begin_work protocol result)) ts db' (snapshot, about, g) e
        h =
      let (v, mid, first, rest) =
        bind_ok (begin_submit c payload m)
          (λ v. pure (handles payload m (report_work v protocol result) ∷ [])) db ts db' h in
      let same_tasks : handles payload m (report_work v protocol result) ∷ [] ≡ ts = ground arith in
      subst (All (IsReady db')) same_tasks ((IsSnapshot-kept m db db' e snapshot, about, refl), tt)
  task_body-follows (handles payload m work) ts db' r e h =
      subst (All (IsReady db')) (sym (then_done-case _ db ts db' h).1) tt
  task_body-follows (reports w o) ts db' r e h =
      subst (All (IsReady db')) (sym (then_done-case _ db ts db' h).1) tt
