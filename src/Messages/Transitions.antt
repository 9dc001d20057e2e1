-- ===== src/Messages/Transitions.antt =====
-- When `patchMessage` and `transitionMessage` of messages/messages.service.ts return, and what
-- they leave behind: the table of transitions, optimistic locking, and the trigger.
use sms_platform_backend.Base.{
  ◌+◌, ◌<◌, ◌≡◌, refl, sym, subst, ap, ◌∙◌, ◌≢◌, Bool, true, false, ◌&&◌, ◌||◌, not, Option, none,
  some, List, [], ◌∷◌, ◌++◌, arith, same, ◌⊎◌, find_first, ok, err, version_conflict,
  invalid_transition,
}
use sms_platform_backend.Status.{
  MessageStatus, MessageCompositeId, provider_accepted, delivered, failed, same_status, allows,
}
use sms_platform_backend.Database.{
  Db, Clock, MessageRow, ErrorCode, ErrorCode-discrete, dlr_failed, transition_audit,
}
use sms_platform_backend.Messages.{
  find_message, Field, patched, transitioned, legal_update, legal_status_change, is_current,
  patch_message, transition_message, audit_transition,
}
use sms_platform_backend.Messages.Updates.{
  write_message, find_message-write_self, update_fresh, transitioned-SameIdentity,
  transitioned-status, patched-SameIdentity, patched-status,
}

-- The audit row of a transition beside the table's write.
abbrev pub transition_written :
    MessageCompositeId → MessageRow → MessageRow → (MessageRow → MessageRow) → Db → Db
transition_written ref m n f db = record (write_message ref f db) {
  audit_logs = db.audit_logs ++ transition_audit n.key m.status n.status n.version ∷ [];
}

module _ (c : Clock) (ref : MessageCompositeId) (m : MessageRow) (db : Db)
    (found : find_message ref db ≡ some m) where
  -- A patch of a message as it was read returns the patched row, if the trigger allows it.
  pub patch_returns :
      (fields : List Field) (n : MessageRow) (db' : Db)
      → patch_message c m fields db ≡ ok (n, db')
      → (n ≡ patched c fields m)
        × (db' ≡ write_message ref (patched c fields) db)
        × (legal_update m (patched c fields m) ≡ true)
  unfolding patch_message
  patch_returns fields n db' h =
      let e = update_fresh ref m db found (patched c fields) in
      (ground arith, ground arith, ground arith)

  pub transition_returns :
      (next : MessageStatus) (fields : List Field) (increment : Bool) (n : MessageRow) (db' : Db)
      → transition_message c m next fields increment db ≡ ok (n, db')
      → (n ≡ transitioned c next fields increment m)
        × (db' ≡ transition_written ref m n (transitioned c next fields increment) db)
        × (legal_update m (transitioned c next fields increment m) ≡ true)
        × (allows m.status next ≡ true)
  unfolding transition_message audit_transition
  transition_returns next fields increment n db' h =
      let e = update_fresh ref m db found (transitioned c next fields increment) in
      let s = transitioned-status c next fields increment m in
      (ground arith, ground arith, ground arith, ground arith)

pub legal_later :
    (m n : MessageRow) → legal_update m n ≡ true → m.state_changed_at < n.state_changed_at
unfolding legal_update
legal_later m n h = ground arith

patched_marks :
    (c : Clock) (fields : List Field) (m : MessageRow)
    → ((patched c fields m).version ≡ m.version + 1)
      × ((patched c fields m).state_changed_at ≡ c.now)
unfolding patched
patched_marks c fields m = (refl, refl)

transitioned_marks :
    (c : Clock) (next : MessageStatus) (fields : List Field) (increment : Bool) (m : MessageRow)
    → ((transitioned c next fields increment m).version ≡ m.version + 1)
      × ((transitioned c next fields increment m).state_changed_at ≡ c.now)
unfolding transitioned
transitioned_marks c MessageStatus.provider_accepted fields true m = (refl, refl)
transitioned_marks c MessageStatus.provider_accepted fields false m = (refl, refl)
transitioned_marks c next fields true m = (refl, refl)
transitioned_marks c next fields false m = (refl, refl)

-- If `transitionMessage` returns for a message that is in the table, the transition is one of
-- `AllowedTransitions`, the table holds the returned row under the same identity, the row has the
-- next status, the next version and the old price, and its time is that of the transaction, which
-- is later than before.
pub transition_stores :
    (c : Clock) (ref : MessageCompositeId) (m : MessageRow) (db : Db) (next : MessageStatus)
    (fields : List Field) (increment : Bool) (n : MessageRow) (db' : Db)
    → find_message ref db ≡ some m
    → transition_message c m next fields increment db ≡ ok (n, db')
    → (find_message ref db' ≡ some n)
      × (allows m.status next ≡ true)
      × (n.status ≡ next)
      × (n.version ≡ m.version + 1)
      × (n.price_minor ≡ m.price_minor)
      × (m.state_changed_at < c.now)
      × (n.state_changed_at ≡ c.now)
unfolding find_message
transition_stores c ref m db next fields increment n db' found h =
    let (same_row, same_db, legal, allowed) =
      transition_returns c ref m db found next fields increment n db' h in
    let f = transitioned c next fields increment in
    let marks = transitioned_marks c next fields increment m in
    let identity = transitioned-SameIdentity c next fields increment m in
    (
      subst (λ d. find_message ref d ≡ some n) (sym same_db)
          (find_message-write_self ref m db found f
              (λ y. (transitioned-SameIdentity c next fields increment y).0)
            ∙ ap some (sym same_row)),
      allowed,
      ap (λ r. r.status) same_row ∙ transitioned-status c next fields increment m,
      ap (λ r. r.version) same_row ∙ marks.0,
      ap (λ r. r.price_minor) same_row ∙ identity.1,
      subst (λ t. m.state_changed_at < t) marks.1 (legal_later m (f m) legal),
      ap (λ r. r.state_changed_at) same_row ∙ marks.1,
    )

-- If the transition is allowed from the status that the caller has seen, but no row has the
-- identity, the status and the version that it has seen, `transitionMessage` throws the version
-- conflict.
pub transition_stale :
    (c : Clock) (ref : MessageCompositeId) (seen : MessageRow) (db : Db) (next : MessageStatus)
    (fields : List Field) (increment : Bool)
    → allows seen.status next ≡ true
    → find_first (is_current seen) db.messages ≡ none
    → transition_message c seen next fields increment db ≡ err version_conflict
unfolding transition_message
transition_stale c ref seen db next fields increment allowed gone = ground arith

-- If `patchMessage` returns for a message that is in the table, the table holds the returned row
-- under the same identity, with the old status, the next version and the time of the transaction,
-- which is later than before.
pub patch_stores :
    (c : Clock) (ref : MessageCompositeId) (m : MessageRow) (db : Db) (fields : List Field)
    (n : MessageRow) (db' : Db)
    → find_message ref db ≡ some m
    → patch_message c m fields db ≡ ok (n, db')
    → (find_message ref db' ≡ some n)
      × (n.status ≡ m.status)
      × (n.version ≡ m.version + 1)
      × (m.state_changed_at < c.now)
      × (n.state_changed_at ≡ c.now)
unfolding find_message
patch_stores c ref m db fields n db' found h =
    let (same_row, same_db, legal) = patch_returns c ref m db found fields n db' h in
    let marks = patched_marks c fields m in
    (
      subst (λ d. find_message ref d ≡ some n) (sym same_db)
          (find_message-write_self ref m db found (patched c fields)
              (λ y. (patched-SameIdentity c fields y).0)
            ∙ ap some (sym same_row)),
      ap (λ r. r.status) same_row ∙ patched-status c fields m,
      ap (λ r. r.version) same_row ∙ marks.0,
      subst (λ t. m.state_changed_at < t) marks.1 (legal_later m (patched c fields m) legal),
      ap (λ r. r.state_changed_at) same_row ∙ marks.1,
    )

-- `now()` is fixed in a transaction, and the trigger wants `state_changed_at` to move: a message
-- that this transaction has updated cannot be updated again in it.
pub second_transition_throws :
    (c : Clock) (ref : MessageCompositeId) (n : MessageRow) (db : Db) (next : MessageStatus)
    (fields : List Field) (increment : Bool)
    → find_message ref db ≡ some n
    → n.state_changed_at ≡ c.now
    → (r : MessageRow) (db' : Db) → transition_message c n next fields increment db ≢ ok (r, db')
second_transition_throws c ref n db next fields increment found same_time r db' h =
    let stored = transition_stores c ref n db next fields increment r db' found h in
    omega (arith, stored.5, same_time)

abbrev pub is_dlr_failed : Option ErrorCode → Bool
is_dlr_failed none = false
is_dlr_failed (some code) = same ErrorCode-discrete code dlr_failed

-- A change of status passes the database trigger exactly if `AllowedTransitions` has it and, from
-- 'provider_accepted' to 'failed', the last error code is 'dlr_failed'.
pub trigger_matches_table :
    (from to : MessageStatus) (code : Option ErrorCode)
    → legal_status_change from to code ≡ (
        allows from to
        && (not (same_status from provider_accepted && same_status to failed)
            || is_dlr_failed code))
unfolding legal_status_change allows
trigger_matches_table from to none = ground arith
trigger_matches_table from to (some code) = ground arith

-- `transitionMessage` throws the invalid transition for every message that is delivered or failed,
-- whatever the next status, the columns, the clock and the tables.
pub final_status_stays :
    (c : Clock) (m : MessageRow) (next : MessageStatus) (fields : List Field) (increment : Bool)
    (db : Db)
    → (m.status ≡ delivered) ⊎ (m.status ≡ failed)
    → transition_message c m next fields increment db ≡ err invalid_transition
unfolding transition_message allows
final_status_stays c m next fields increment db h = ground arith
