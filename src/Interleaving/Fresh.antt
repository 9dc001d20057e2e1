-- ===== src/Interleaving/Fresh.antt =====
-- Optimistic locking in messages/messages.service.ts: an UPDATE `WHERE .. version = $n` of a row
-- that was read some time ago finds it only if nobody has changed the message since.
use sms_platform_backend.Base.{
  ◌<◌, ◌≡◌, sym, subst, ap, ◌∙◌, inl, inr, ◌⊎◌, Bool, true, false, some, List, [], arith,
  if◌then◌else◌, find_first, find_first_holds, All_found, ok, some_inj, Error, invalid_transition,
}
use sms_platform_backend.Status.{MessageStatus, same_ref_iff, allows}
use sms_platform_backend.Database.{Db, Clock, Tx, ◌>>=◌, throw, bind_ok, MessageRow}
use sms_platform_backend.Messages.{
  is_ref, find_message, Field, is_current, update_message, patch_message, transition_message,
  audit_transition, patched, transitioned,
}
use sms_platform_backend.Messages.Distinct.{Distinct, Distinct-found}
use sms_platform_backend.Messages.Growth.{Grows, Grows-trans, Evolves}
use sms_platform_backend.Messages.Evolving.{update_message-case}
use sms_platform_backend.Workflow.Dispatch.{start_submitting}

-- A row that was read at some time: the message is still there, and has grown since.
abbrev pub IsSnapshot : MessageRow → Db → Type 0
IsSnapshot seen db = (m : MessageRow) × (find_message seen.key db ≡ some m) × Grows seen m

pub IsSnapshot-kept :
    (seen : MessageRow) (db db' : Db) → Evolves db db' → IsSnapshot seen db → IsSnapshot seen db'
IsSnapshot-kept seen db db' later (m, there, g) =
    let (n, still, h) = later.grown seen.key m there in (n, still, Grows-trans seen m n g h)

-- A body that returns only for a row that is in the table as it was read.
abbrev pub NeedsFresh {ℓ} : {A : Type ℓ} → MessageRow → Tx A → Type ℓ
NeedsFresh {A} seen body =
    (db : Db) (a : A) (db' : Db)
    → Distinct db.messages
    → IsSnapshot seen db
    → body db ≡ ok (a, db')
    → find_message seen.key db ≡ some seen

current_version :
    (seen m : MessageRow)
    → is_current seen m ≡ true
    → (m.key ≡ seen.key) × (m.version ≡ seen.version)
unfolding is_current
current_version seen m h = (ground (arith, same_ref_iff m.key seen.key), ground arith)

NeedsFresh-update_message :
    (seen : MessageRow) (f : MessageRow → MessageRow) → NeedsFresh seen (update_message seen f)
unfolding find_message
NeedsFresh-update_message seen f db n db' distinct (m, there, g) e =
    let (x, hit, legal, written) = update_message-case seen f db n db' e in
    let (same_key, same_version) =
      current_version seen x (find_first_holds (is_current seen) db.messages x hit) in
    let found : find_first (is_ref x.key) db.messages ≡ some x =
      All_found (λ z. find_first (is_ref z.key) db.messages ≡ some z) (is_current seen) db.messages
        x (Distinct-found db.messages distinct) hit in
    let same_row : x ≡ m =
      some_inj x m (sym found ∙ ap (λ k. find_first (is_ref k) db.messages) same_key ∙ there) in
    subst (λ z. find_first (is_ref seen.key) db.messages ≡ some z)
      (unchanged m (sym (ap (λ r. r.version) same_row) ∙ same_version) g.same_or_later) there
  where
    unchanged :
        (y : MessageRow)
        → y.version ≡ seen.version
        → (y ≡ seen) ⊎ (seen.version < y.version)
        → y ≡ seen
    unchanged y v (inl p) = p
    unchanged y v (inr l) = absurd (omega arith)

pub NeedsFresh-bind {ℓ κ} :
    {A : Type ℓ} {B : Type κ} (seen : MessageRow) (m : Tx A) (f : A → Tx B)
    → NeedsFresh seen m
    → NeedsFresh seen (m >>= f)
NeedsFresh-bind seen m f fresh db b db' distinct snapshot e =
    let (a, mid, first, rest) = bind_ok m f db b db' e in fresh db a mid distinct snapshot first

NeedsFresh-if {ℓ} :
    {A : Type ℓ} (seen : MessageRow) (b : Bool) (x y : Tx A)
    → NeedsFresh seen x
    → NeedsFresh seen y
    → NeedsFresh seen (if b then x else y)
NeedsFresh-if seen true x y hx hy = hx
NeedsFresh-if seen false x y hx hy = hy

NeedsFresh-throw {ℓ} :
    {A : Type ℓ} (seen : MessageRow) (x : Error) → NeedsFresh {A = A} seen (throw x)
NeedsFresh-throw seen x db a db' distinct snapshot e = absurd cc

pub NeedsFresh-patch_message :
    (c : Clock) (seen : MessageRow) (fields : List Field)
    → NeedsFresh seen (patch_message c seen fields)
unfolding patch_message
NeedsFresh-patch_message c seen fields = NeedsFresh-update_message seen (patched c fields)

pub NeedsFresh-transition_message :
    (c : Clock) (seen : MessageRow) (to : MessageStatus) (fields : List Field) (increment : Bool)
    → NeedsFresh seen (transition_message c seen to fields increment)
unfolding transition_message
NeedsFresh-transition_message c seen to fields increment =
    NeedsFresh-if seen (allows seen.status to)
      (update_message seen (transitioned c to fields increment) >>= audit_transition seen.status to)
      (throw invalid_transition)
      (NeedsFresh-bind seen _ (audit_transition seen.status to)
        (NeedsFresh-update_message seen (transitioned c to fields increment)))
      (NeedsFresh-throw seen invalid_transition)

pub NeedsFresh-start_submitting :
    (c : Clock) (seen : MessageRow) (fields : List Field)
    → NeedsFresh seen (start_submitting c seen fields)
unfolding start_submitting
NeedsFresh-start_submitting c seen fields =
    NeedsFresh-if seen _ _ _ (NeedsFresh-transition_message c seen _ [] true)
      (NeedsFresh-patch_message c seen fields)
