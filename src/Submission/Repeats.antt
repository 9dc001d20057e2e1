-- ===== src/Submission/Repeats.antt =====
-- Submitting again under a key: `submitMessageWithContext` of messages/messages.service.ts.
use sms_platform_backend.Base.{
  ℕ, ◌≡◌, ◌≢◌, Bool, true, ◌||◌, Option, none, some, List, [], ◌∷◌, Bool-cases, ◌++◌, arith,
  is_some, find_first, find_first-append_new, ok, inl, inr, Option-cases, ◌∙◌, sym, ap, subst,
}
use sms_platform_backend.Database.{
  Db, Clock, MessageRow, bind_ok, reserve_key, reserve, pure, ◌>>=◌,
}
use sms_platform_backend.Messages.{log_event}
use sms_platform_backend.Wallet.{reserve_wallet, post}
use sms_platform_backend.Wallet.Movement.{skipped, posted, apply-Outcome}
use sms_platform_backend.Outbox.{enqueue}
use sms_platform_backend.Submission.Services.{SubmissionContext, SubmitMessageDto}
use sms_platform_backend.Submission.Prepare.{Draft}
use sms_platform_backend.Submission.Accept.{
  Submitted, repeated, created, is_repeat, existing_message, same_value, new_message, inserted,
  announce_accepted, reserve_new, insert_unless, accept_draft,
}

module _ (c : Clock) (context : SubmissionContext) (dto : SubmitMessageDto) (draft : Draft)
    (db : Db) where
  announced_messages :
      (m : MessageRow) (mid db' : Db)
      → announce_accepted c context dto draft m mid ≡ ok (tt, db')
      → db'.messages ≡ mid.messages
  unfolding announce_accepted log_event enqueue
  announced_messages m mid db' h = ground arith

  reserved_messages :
      (m : MessageRow) (b : Bool) (mid db' : Db)
      → reserve_wallet context.context_tenant draft.draft_price (reserve_key m.key) m.key mid
        ≡ ok (b, db')
      → db'.messages ≡ mid.messages
  unfolding reserve_wallet post
  reserved_messages m b mid db' h =
      elim (apply-Outcome context.context_tenant draft.draft_price reserve (reserve_key m.key) m.key
        mid b db' h) [
          | skipped _ d _ ↦ ap (λ x. x.messages) d
          | posted w x y _ d _ _ _ _ ↦ ap (λ x. x.messages) d
        ]

  -- The steps of the transaction behind the INSERT.
  pub reserve_new-steps :
      (m : MessageRow) (start : Db) (r : Submitted) (db' : Db)
      → reserve_new c context dto draft m start ≡ ok (r, db')
      → (b : Bool) × (mid : Db) × (reserve_wallet context.context_tenant draft.draft_price
            (reserve_key m.key)
            m.key
            start
          ≡ ok (b, mid))
        × (announce_accepted c context dto draft m mid ≡ ok (tt, db'))
        × (created m ≡ r)
  unfolding reserve_new
  reserve_new-steps m start r db' h =
      let (b, mid, first, rest) =
        bind_ok (reserve_wallet context.context_tenant draft.draft_price (reserve_key m.key) m.key)
          (λ _. announce_accepted c context dto draft m >>= λ _. pure (created m)) start r db' h in
      let (u, last, told, done) =
        bind_ok (announce_accepted c context dto draft m) (λ _. pure (created m)) mid r db' rest in
      let same_db : last ≡ db' = ground arith in
      (
        b,
        mid,
        first,
        subst (λ x. announce_accepted c context dto draft m mid ≡ ok (tt, x)) same_db told,
        ground arith,
      )

  -- A repeated submission leaves the tables as they were.
  pub accept_draft-repeated :
      (m : MessageRow) (db' : Db)
      → accept_draft c context dto draft db ≡ ok (repeated m, db')
      → db' ≡ db
  unfolding accept_draft insert_unless
  accept_draft-repeated m db' h = go (existing_message c context dto db) h
    where
      go :
          (o : Option MessageRow)
          → insert_unless c context dto o draft db ≡ ok (repeated m, db')
          → db' ≡ db
      go (some n) e = ground arith
      go none e =
          let n = new_message c context dto draft db.next_message_id in
          let (b, mid, paid, told, done) = reserve_new-steps n (inserted n db) (repeated m) db' e in
          absurd cc

  -- What a new submission leaves in the table of messages.
  pub accept_draft-created :
      (m : MessageRow) (db' : Db)
      → accept_draft c context dto draft db ≡ ok (created m, db')
      → (existing_message c context dto db ≡ none)
        × (m ≡ new_message c context dto draft db.next_message_id)
        × (db'.messages ≡ db.messages ++ m ∷ [])
  unfolding accept_draft insert_unless reserve_new
  accept_draft-created m db' h = elim (Option-cases (existing_message c context dto db)) [
    | inr (n, e) ↦
        absurd (twice n m db' (sym (ap (λ o. insert_unless c context dto o draft db) e) ∙ h))
    | inl e ↦
        (let (row, table) = fresh (sym (ap (λ o. insert_unless c context dto o draft db) e) ∙ h) in
          (e, row, table))
  ]
    where
      twice :
          (n m : MessageRow) (db' : Db)
          → insert_unless c context dto (some n) draft db ≢ ok (created m, db')
      twice n m db' h = cc

      fresh :
          insert_unless c context dto none draft db ≡ ok (created m, db')
          → (m ≡ new_message c context dto draft db.next_message_id)
            × (db'.messages ≡ db.messages ++ m ∷ [])
      fresh h =
          let n = new_message c context dto draft db.next_message_id in
          let start = inserted n db in
          let (b, mid, paid, told, done) = reserve_new-steps n start (created m) db' h in
          let same_row : n ≡ m = ground arith in
          (
            sym same_row,
            announced_messages n mid db' told
                ∙ reserved_messages n b start mid paid
                ∙ ap (λ r. db.messages ++ r ∷ []) same_row,
          )

same_value_self : (k : Option ℕ) → is_some k ≡ true → same_value k k ≡ true
same_value_self none h = cc
same_value_self (some k) h = ground arith

-- The identity and the two keys of a message, which no UPDATE writes.
abbrev pub SameKeys : MessageRow → MessageRow → Type 0
SameKeys m n =
    (n.key ≡ m.key)
    × (n.client_message_id ≡ m.client_message_id)
    × (n.api_idempotency_key ≡ m.api_idempotency_key)

-- A table that has the rows of an earlier one, with any other columns, and any rows behind them.
abbrev pub Follows : List MessageRow → List MessageRow → Type 0
Follows [] ns = Unit {0}
Follows (m ∷ ms) [] = ⊥
Follows (m ∷ ms) (n ∷ ns) = SameKeys m n × Follows ms ns

find_first-Follows :
    (p : MessageRow → Bool)
    → ((x y : MessageRow) → SameKeys x y → p y ≡ p x)
    → (ms ns : List MessageRow) (m : MessageRow) → Follows ms ns
    → find_first p ms ≡ some m
    → (n : MessageRow) × (find_first p ns ≡ some n) × SameKeys m n
find_first-Follows p keep [] ns m f h = cc
find_first-Follows p keep (x ∷ xs) [] m f h = absurd f
find_first-Follows p keep (x ∷ xs) (y ∷ ys) m (same, f) h = elim (Bool-cases (p x)) [
  | inl e ↦
      (let q : x ≡ m = ground arith in
        (y, ground (arith, keep x y same), subst (λ z. SameKeys z y) q same))
  | inr e ↦
      (let (n, there, kept) = find_first-Follows p keep xs ys m f (ground arith) in
        (n, ground (arith, keep x y same), kept))
]

is_repeat-SameKeys :
    (c : Clock) (context : SubmissionContext) (dto : SubmitMessageDto) (x y : MessageRow)
    → SameKeys x y
    → is_repeat c context dto y ≡ is_repeat c context dto x
unfolding is_repeat
is_repeat-SameKeys c context dto x y (a, b, d) = cc

-- If the transaction of `submitMessageWithContext` created a message for a request with an
-- idempotency key or a client message id, the same request on the same day, with any prices and
-- routes, on any database whose table of messages has the rows that the creation left, with any
-- statuses and other columns, and any rows behind them, returns the message with the identity of
-- the created one and changes nothing.
pub accept_draft_again :
    (c later : Clock) (context : SubmissionContext) (dto : SubmitMessageDto) (draft draft' : Draft)
    (db : Db) (m : MessageRow) (db' after : Db)
    → (is_some context.idempotency_key || is_some dto.dto_client_message_id) ≡ true
    → later.today ≡ c.today
    → accept_draft c context dto draft db ≡ ok (created m, db')
    → Follows db'.messages after.messages
    → (n : MessageRow) × (n.key ≡ m.key)
      × (accept_draft later context dto draft' after ≡ ok (repeated n, after))
unfolding accept_draft insert_unless existing_message is_repeat new_message
accept_draft_again c later context dto draft draft' db m db' after keyed same_day h follows =
    let (fresh, row, table) = accept_draft-created c context dto draft db m db' h in
    let unseen : find_first (is_repeat later context dto) db.messages ≡ none = ground arith in
    let matches : is_repeat later context dto m ≡ true =
      ground (
        arith,
        same_value_self context.idempotency_key,
        same_value_self dto.dto_client_message_id,
      ) in
    let there : find_first (is_repeat later context dto) db'.messages ≡ some m =
      rw table
        (find_first-append_new (is_repeat later context dto) db.messages m unseen ∙ rw matches) in
    let (n, found, (same, _, _)) =
      find_first-Follows (is_repeat later context dto) (is_repeat-SameKeys later context dto)
        db'.messages after.messages m follows there in
    (n, same, rw (keyed, found))
