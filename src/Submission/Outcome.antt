-- ===== src/Submission/Outcome.antt =====
-- What `submitMessageWithContext` of messages/messages.service.ts leaves behind.
use sms_platform_backend.Base.{◌≡◌, refl, subst, Option, none, some, arith, ok, err, Result}
use sms_platform_backend.Database.{Db, Clock, MessageRow, with_transaction_keeps}
use sms_platform_backend.Messages.{log_event}
use sms_platform_backend.Wallet.{reserve_wallet}
use sms_platform_backend.Billing.Books.{Balanced}
use sms_platform_backend.Billing.Steps.{Keeps, Keeps-enqueue}
use sms_platform_backend.Submission.Services.{
  SubmissionContext, SubmitMessageDto, SubmissionServices,
}
use sms_platform_backend.Submission.Prepare.{Draft, prepare}
use sms_platform_backend.Submission.Accept.{
  Submitted, existing_message, new_message, inserted, announce_accepted, insert_unless,
  accept_draft, accept_prepared, submit_message_with_context,
}
use sms_platform_backend.Submission.Repeats.{reserve_new-steps}
use sms_platform_backend.Submission.Books.{reserve_new-Balanced}

module _ (c : Clock) (context : SubmissionContext) (dto : SubmitMessageDto) (draft : Draft) where
  announce_accepted-Keeps : (m : MessageRow) → Keeps (announce_accepted c context dto draft m)
  unfolding announce_accepted log_event
  announce_accepted-Keeps m db a db' h e = Keeps-enqueue c _ _ a db' h e

  module _ (db : Db) (balanced : Balanced db) where
    insert_unless-Balanced :
        (o : Option MessageRow) (r : Submitted) (db' : Db)
        → insert_unless c context dto o draft db ≡ ok (r, db')
        → Balanced db'
    unfolding insert_unless reserve_wallet new_message
    insert_unless-Balanced (some m) r db' h =
        let q : db ≡ db' = ground arith in subst Balanced q balanced
    insert_unless-Balanced none r db' h =
        let m = new_message c context dto draft db.next_message_id in
        let (b, mid, paid, told, done) =
          reserve_new-steps c context dto draft db m (inserted m db) r db' h in
        announce_accepted-Keeps m mid tt db'
          (reserve_new-Balanced m db balanced refl refl refl b mid paid) told

    pub accept_draft-Balanced :
        (r : Submitted) (db' : Db)
        → accept_draft c context dto draft db ≡ ok (r, db')
        → Balanced db'
    unfolding accept_draft
    accept_draft-Balanced r db' h =
        insert_unless-Balanced (existing_message c context dto db) r db' h

module _ {S : Type 0} (services : SubmissionServices S) (c : Clock) (context : SubmissionContext)
    (dto : SubmitMessageDto) where
  -- If the books are balanced, they are balanced after `submitMessageWithContext`, for any services
  -- and any request, whether it returns or throws.
  pub submit-Balanced :
      (db : Db) (s : S)
      → Balanced db
      → Balanced (submit_message_with_context services c context dto (db, s)).1.0
  unfolding submit_message_with_context accept_prepared
  submit-Balanced db s balanced = go (prepare services c context dto s)
    where
      go : (p : Result Draft × S) → Balanced (accept_prepared services c context dto p db).1.0
      go (err e, s') = balanced
      go (ok draft, s') =
          with_transaction_keeps Balanced (accept_draft c context dto draft) db balanced
            (λ r db' h. accept_draft-Balanced c context dto draft db balanced r db' h)
