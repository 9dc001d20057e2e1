-- ===== src/Messages/Evolving.antt =====
-- The statements of a transaction, and how the table of messages evolves under them: an UPDATE of
-- a message (`patchMessage`, `transitionMessage` of messages/messages.service.ts), and the writes
-- to the other tables, which leave it alone.
use sms_platform_backend.Base.{
  ℕ, ℤ, ◌≡◌, refl, sym, subst, inl, inr, ◌⊎◌, Bool, true, false, Option, none, some, List, [], ◌∷◌,
  arith, if◌then◌else◌, find_first, update_first, ok,
}
use sms_platform_backend.Status.{MessageStatus, MessageCompositeId, allows}
use sms_platform_backend.Database.{
  Db, Clock, Tx, pure, ◌>>=◌, bind_ok, MessageRow, LogRow, LedgerKey, BillingOperation,
}
use sms_platform_backend.Messages.{
  is_ref, find_message, Field, patched, transitioned, legal_update, is_current, update_found,
  update_message, patch_message, transition_message, audit_transition, log_event,
}
use sms_platform_backend.Messages.Updates.{
  SameIdentity, patched-SameIdentity, transitioned-SameIdentity,
}
use sms_platform_backend.Messages.Distinct.{Distinct, Distinct-update_first}
use sms_platform_backend.Messages.Growth.{
  Grows, Grows-self, legal-Grows, Evolves, Evolves-same, Evolves-trans,
}
use sms_platform_backend.Outbox.{OutboxEventInput, enqueue}
use sms_platform_backend.Wallet.{apply_wallet_ledger}

-- A body under which the table evolves, where it returns.
unfoldable pub Evolving {ℓ} : {A : Type ℓ} → Tx A → Type ℓ
Evolving {A} body = (db : Db) (a : A) (db' : Db) → body db ≡ ok (a, db') → Evolves db db'

pub Evolving-bind {ℓ κ} :
    {A : Type ℓ} {B : Type κ} (m : Tx A) (f : A → Tx B)
    → Evolving m
    → ((a : A) → Evolving (f a))
    → Evolving (m >>= f)
unfolding Evolving
Evolving-bind m f em ef db b db' e =
    let (a, mid, first, rest) = bind_ok m f db b db' e in
    Evolves-trans db mid db' (em db a mid first) (ef a mid b db' rest)

pub Evolving-pure {ℓ} : {A : Type ℓ} (a : A) → Evolving (pure a)
unfolding Evolving
Evolving-pure a db b db' e = Evolves-same db db' (ground arith)

pub Evolving-log_event : (row : LogRow) → Evolving (log_event row)
unfolding log_event Evolving
Evolving-log_event row db a db' e = Evolves-same db db' (ground arith)

pub Evolving-enqueue : (c : Clock) (event : OutboxEventInput) → Evolving (enqueue c event)
unfolding enqueue Evolving
Evolving-enqueue c event db a db' e = Evolves-same db db' (ground arith)

pub Evolving-apply_wallet_ledger :
    (t : ℕ) (amount : ℤ) (operation : BillingOperation) (k : LedgerKey) (ref : MessageCompositeId)
    → Evolving (apply_wallet_ledger t amount operation k ref)
unfolding apply_wallet_ledger Evolving
Evolving-apply_wallet_ledger t amount operation k ref db a db' e =
    Evolves-same db db' (ground arith)

-- An UPDATE leaves the row that a test finds, or rewrites it.
update_first-found :
    (p q : MessageRow → Bool) (f : MessageRow → MessageRow) (ms : List MessageRow)
    (x y : MessageRow)
    → ((z : MessageRow) → q (f z) ≡ q z)
    → find_first p ms ≡ some x
    → find_first q ms ≡ some y
    → (find_first q (update_first p f ms) ≡ some y)
      ⊎ ((y ≡ x) × (find_first q (update_first p f ms) ≡ some (f x)))
update_first-found p q f [] x y keep hx hy = absurd cc
update_first-found p q f (m ∷ ms) x y keep hx hy =
    ground (arith, keep m, update_first-found p q f ms x y keep)

-- What the statement finds and how the trigger decides on it.
update_found-case :
    (seen : MessageRow) (f : MessageRow → MessageRow) (o : Option MessageRow) (db : Db)
    (n : MessageRow) (db' : Db)
    → update_found seen f o db ≡ ok (n, db')
    → (m : MessageRow) × (o ≡ some m)
      × (legal_update m (f m) ≡ true)
      × (db'.messages ≡ update_first (is_current seen) f db.messages)
unfolding update_found
update_found-case seen f none db n db' e = absurd cc
update_found-case seen f (some m) db n db' e = (m, refl, ground arith, ground arith)

pub update_message-case :
    (seen : MessageRow) (f : MessageRow → MessageRow) (db : Db) (n : MessageRow) (db' : Db)
    → update_message seen f db ≡ ok (n, db')
    → (m : MessageRow) × (find_first (is_current seen) db.messages ≡ some m)
      × (legal_update m (f m) ≡ true)
      × (db'.messages ≡ update_first (is_current seen) f db.messages)
unfolding update_message
update_message-case seen f db n db' e =
    update_found-case seen f (find_first (is_current seen) db.messages) db n db' e

Evolving-update_message :
    (seen : MessageRow) (f : MessageRow → MessageRow)
    → ((m : MessageRow) → SameIdentity m (f m))
    → Evolving (update_message seen f)
unfolding find_message Evolving
Evolving-update_message seen f same db n db' e =
    let (x, there, legal, written) = update_message-case seen f db n db' e in
    record {
      distinct = λ d.
          subst (λ ms. Distinct ms) (sym written)
            (Distinct-update_first (is_current seen) f db.messages (λ m. (same m).0) d);
      grown = λ ref m h.
          subst (λ ms. (n' : MessageRow) × (find_first (is_ref ref) ms ≡ some n') × Grows m n')
            (sym written)
            (by_row ref m x legal (
              update_first-found (is_current seen) (is_ref ref) f db.messages x m
                (λ z. rw ((same z).0) refl) there h));
    }
  where
    by_row :
        (ref : MessageCompositeId) (m x : MessageRow)
        → legal_update x (f x) ≡ true
        → (find_first (is_ref ref) (update_first (is_current seen) f db.messages) ≡ some m)
          ⊎ ((m ≡ x)
              × (find_first (is_ref ref) (update_first (is_current seen) f db.messages)
                  ≡ some (f x)))
        → (n' : MessageRow) × (find_first
              (is_ref ref)
              (update_first (is_current seen) f db.messages)
            ≡ some n')
          × Grows m n'
    by_row ref m x legal (inl h) = (m, h, Grows-self m)
    by_row ref m x legal (inr (p, h)) =
        (f x, h, subst (λ z. Grows z (f x)) (sym p) (legal-Grows x (f x) (same x) legal))

pub Evolving-patch_message :
    (c : Clock) (seen : MessageRow) (fields : List Field) → Evolving (patch_message c seen fields)
unfolding patch_message
Evolving-patch_message c seen fields =
    Evolving-update_message seen (patched c fields) (patched-SameIdentity c fields)

Evolving-audit_transition :
    (from to : MessageStatus) (n : MessageRow) → Evolving (audit_transition from to n)
unfolding audit_transition Evolving
Evolving-audit_transition from to n db a db' e = Evolves-same db db' (ground arith)

pub Evolving-if {ℓ} :
    {A : Type ℓ} (b : Bool) (x y : Tx A) → Evolving x → Evolving y → Evolving (if b then x else y)
Evolving-if true x y ex ey = ex
Evolving-if false x y ex ey = ey

pub Evolving-transition_message :
    (c : Clock) (seen : MessageRow) (next : MessageStatus) (fields : List Field) (increment : Bool)
    → Evolving (transition_message c seen next fields increment)
unfolding transition_message Evolving
Evolving-transition_message c seen next fields increment =
    Evolving-if (allows seen.status next) _ _
      (Evolving-bind _ (audit_transition seen.status next)
        (Evolving-update_message seen (transitioned c next fields increment)
          (transitioned-SameIdentity c next fields increment))
        (Evolving-audit_transition seen.status next))
      (λ db a db' e. absurd cc)
