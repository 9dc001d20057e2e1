-- ===== src/Messages/Updates.antt =====
-- What an UPDATE of a message does to the table: `patchMessage` and `transitionMessage` of
-- messages/messages.service.ts, for a message that is in the table as it was read.
use sms_platform_backend.Base.{
  ◌≡◌, refl, ◌∙◌, ◌≢◌, Bool, true, false, some, List, [], ◌∷◌, arith, if◌then◌else◌, update_first,
  find_first_holds, find_first_stronger, update_first_stronger, find_first-update_first_self,
  find_first-update_first_other, ok, err, illegal_update,
}
use sms_platform_backend.Status.{
  MessageStatus, MessageCompositeId, same_status_iff, same_ref_iff, same_ref_self,
}
use sms_platform_backend.Database.{Db, Clock, MessageRow}
use sms_platform_backend.Messages.{
  is_ref, find_message, Field, set_field, set_fields, patched, enter_status, transitioned,
  legal_update, is_current, update_message,
}

-- The table with the row of `ref` rewritten.
abbrev pub write_message : MessageCompositeId → (MessageRow → MessageRow) → Db → Db
write_message ref f db = record db { messages = update_first (is_ref ref) f db.messages }

is_current_self : (m : MessageRow) → is_current m m ≡ true
unfolding is_current
is_current_self m = ground (arith, same_ref_self m.key, (same_status_iff m.status m.status).1 refl)

is_current-is_ref :
    (ref : MessageCompositeId) (m y : MessageRow)
    → is_ref ref m ≡ true
    → is_current m y ≡ true
    → is_ref ref y ≡ true
unfolding is_current
is_current-is_ref ref m y h e =
    ground (arith, same_ref_iff m.key ref, same_ref_iff y.key m.key, same_ref_iff y.key ref)

module _ (ref : MessageCompositeId) (m : MessageRow) (db : Db)
    (found : find_message ref db ≡ some m) where
  pub found_ref : m.key ≡ ref
  unfolding find_message
  found_ref = (same_ref_iff m.key ref).0 (find_first_holds (is_ref ref) db.messages m found)

  found_is_ref : is_ref ref m ≡ true
  unfolding find_message
  found_is_ref = find_first_holds (is_ref ref) db.messages m found

  -- The UPDATE of a row that has not changed since it was read: the trigger alone decides.
  pub update_fresh :
      (f : MessageRow → MessageRow)
      → update_message m f db
        ≡ (if legal_update m (f m) then ok (f m, write_message ref f db) else err illegal_update)
  unfolding update_message find_message
  update_fresh f = ground (
    arith,
    find_first_stronger (is_ref ref) (is_current m) db.messages m
        (λ y. is_current-is_ref ref m y found_is_ref) (is_current_self m) found,
    update_first_stronger (is_ref ref) (is_current m) f db.messages m
        (λ y. is_current-is_ref ref m y found_is_ref) (is_current_self m) found,
  )

  -- Reading any message back after the write.
  pub find_message-write_self :
      (f : MessageRow → MessageRow)
      → ((y : MessageRow) → (f y).key ≡ y.key)
      → find_message ref (write_message ref f db) ≡ some (f m)
  unfolding find_message
  find_message-write_self f keep =
      find_first-update_first_self (is_ref ref) f db.messages m (λ y h. rw (keep y) h) found

pub find_message-write_other :
    (ref other : MessageCompositeId) (f : MessageRow → MessageRow) (db : Db)
    → ref ≢ other
    → ((y : MessageRow) → (f y).key ≡ y.key)
    → find_message other (write_message ref f db) ≡ find_message other db
unfolding find_message
find_message-write_other ref other f db ne keep =
    find_first-update_first_other (is_ref ref) (is_ref other) f db.messages (λ y h. apart y h)
      (λ y h. rw (keep y) (apart y h))
  where
    apart : (y : MessageRow) → is_ref ref y ≡ true → is_ref other y ≡ false
    apart y h = ground (arith, same_ref_iff y.key ref, same_ref_iff y.key other)

-- What the SET lists leave alone, and the columns that they decide.
abbrev pub SameIdentity : MessageRow → MessageRow → Type 0
SameIdentity m n =
    (n.key ≡ m.key)
    × (n.price_minor ≡ m.price_minor)
    × (n.traffic_type ≡ m.traffic_type)
    × (n.phone_number ≡ m.phone_number)
    × (n.body ≡ m.body)
    × (n.message_parts ≡ m.message_parts)

set_fields-SameIdentity : (fs : List Field) (m : MessageRow) → SameIdentity m (set_fields fs m)
unfolding set_fields
set_fields-SameIdentity [] m = (refl, refl, refl, refl, refl, refl)
set_fields-SameIdentity (f ∷ fs) m =
    join m (set_field f m) (set_fields fs (set_field f m)) (set_field_identity f m)
      (set_fields-SameIdentity fs (set_field f m))
  where
    set_field_identity : (f : Field) (m : MessageRow) → SameIdentity m (set_field f m)
    set_field_identity (Field.provider_id v) m = (refl, refl, refl, refl, refl, refl)
    set_field_identity (Field.smpp_config_id v) m = (refl, refl, refl, refl, refl, refl)
    set_field_identity (Field.route_rule_id v) m = (refl, refl, refl, refl, refl, refl)
    set_field_identity (Field.provider_message_id v) m = (refl, refl, refl, refl, refl, refl)
    set_field_identity (Field.cost_minor v) m = (refl, refl, refl, refl, refl, refl)
    set_field_identity (Field.last_error_code v) m = (refl, refl, refl, refl, refl, refl)
    set_field_identity (Field.billing_state v) m = (refl, refl, refl, refl, refl, refl)
    set_field_identity (Field.attempt_count v) m = (refl, refl, refl, refl, refl, refl)

    join : (a b c : MessageRow) → SameIdentity a b → SameIdentity b c → SameIdentity a c
    join a b c p q = (q.0 ∙ p.0, q.1 ∙ p.1, q.2 ∙ p.2, q.3 ∙ p.3, q.4 ∙ p.4, q.5 ∙ p.5)

set_fields-status : (fs : List Field) (m : MessageRow) → (set_fields fs m).status ≡ m.status
unfolding set_fields
set_fields-status [] m = refl
set_fields-status (f ∷ fs) m = set_fields-status fs (set_field f m) ∙ one f
  where
    one : (f : Field) → (set_field f m).status ≡ m.status
    one (Field.provider_id v) = refl
    one (Field.smpp_config_id v) = refl
    one (Field.route_rule_id v) = refl
    one (Field.provider_message_id v) = refl
    one (Field.cost_minor v) = refl
    one (Field.last_error_code v) = refl
    one (Field.billing_state v) = refl
    one (Field.attempt_count v) = refl

pub patched-SameIdentity :
    (c : Clock) (fs : List Field) (m : MessageRow) → SameIdentity m (patched c fs m)
unfolding patched
patched-SameIdentity c fs m = set_fields-SameIdentity fs m

-- A patch changes neither the status nor any column of identity.
pub patched-status :
    (c : Clock) (fs : List Field) (m : MessageRow) → (patched c fs m).status ≡ m.status
unfolding patched
patched-status c fs m = set_fields-status fs m

enter_status-status :
    (c : Clock) (next : MessageStatus) (m : MessageRow) → (enter_status c next m).status ≡ next
unfolding enter_status
enter_status-status c MessageStatus.provider_accepted m = refl
enter_status-status c next m = refl

pub transitioned-SameIdentity :
    (c : Clock) (next : MessageStatus) (fs : List Field) (increment : Bool) (m : MessageRow)
    → SameIdentity m (transitioned c next fs increment m)
unfolding transitioned
transitioned-SameIdentity c MessageStatus.accepted fs true m = patched-SameIdentity c fs m
transitioned-SameIdentity c MessageStatus.accepted fs false m = patched-SameIdentity c fs m
transitioned-SameIdentity c MessageStatus.routed fs true m = patched-SameIdentity c fs m
transitioned-SameIdentity c MessageStatus.routed fs false m = patched-SameIdentity c fs m
transitioned-SameIdentity c MessageStatus.submitting fs true m = patched-SameIdentity c fs m
transitioned-SameIdentity c MessageStatus.submitting fs false m = patched-SameIdentity c fs m
transitioned-SameIdentity c MessageStatus.provider_accepted fs true m = patched-SameIdentity c fs m
transitioned-SameIdentity c MessageStatus.provider_accepted fs false m = patched-SameIdentity c fs m
transitioned-SameIdentity c MessageStatus.delivered fs true m = patched-SameIdentity c fs m
transitioned-SameIdentity c MessageStatus.delivered fs false m = patched-SameIdentity c fs m
transitioned-SameIdentity c MessageStatus.failed fs true m = patched-SameIdentity c fs m
transitioned-SameIdentity c MessageStatus.failed fs false m = patched-SameIdentity c fs m

pub transitioned-status :
    (c : Clock) (next : MessageStatus) (fs : List Field) (increment : Bool) (m : MessageRow)
    → (transitioned c next fs increment m).status ≡ next
unfolding transitioned
transitioned-status c next fs true m = enter_status-status c next (patched c fs m)
transitioned-status c next fs false m = enter_status-status c next (patched c fs m)
