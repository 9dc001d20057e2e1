-- ===== src/Billing/Books.antt =====
-- The agreement of messages and ledger.
use sms_platform_backend.Base.{
  ℕ, ◌<◌, ℤ, pos, ◌+ℤ◌, leb_ℤ, ◌≡◌, Bool, true, false, ◌&&◌, some, List, [], ◌∷◌, ◌==◌,
  if◌then◌else◌, All, find_first, any_row,
}
use sms_platform_backend.Status.{MessageStatus, MessageCompositeId, accepted, routed, submitting}
use sms_platform_backend.Database.{
  Db, MessageRow, LedgerRow, LedgerKey, reserve_key, debit_key, release_key, BillingState, reserved,
}
use sms_platform_backend.Messages.{is_ref}
use sms_platform_backend.Wallet.{has_key}
use sms_platform_backend.Wallet.Sums.{ledger_sum}

abbrev pub is_reserved : BillingState → Bool
is_reserved reserved = true
is_reserved _ = false

-- A message that has no final outcome of its submission yet.
abbrev pub is_open : MessageStatus → Bool
is_open accepted = true
is_open routed = true
is_open submitting = true
is_open _ = false

-- The amount that a ledger operation moves for a price: nothing for a price of zero or less.
abbrev pub billable : ℤ → ℤ
billable price = if leb_ℤ price (pos 0) then pos 0 else price

-- What a message holds of the reservations of tenant `t`.
unfoldable pub hold : ℕ → MessageRow → ℤ
hold t m = if m.tenant_id == t && is_reserved m.billing_state then billable m.price_minor else pos 0

abbrev pub held_sum : ℕ → List MessageRow → ℤ
held_sum t [] = pos 0
held_sum t (m ∷ ms) = hold t m +ℤ held_sum t ms

-- The message of a ledger key, and whether the key ends a reservation.
abbrev pub key_ref : LedgerKey → MessageCompositeId
key_ref (reserve_key ref) = ref
key_ref (debit_key ref) = ref
key_ref (release_key ref cause) = ref

abbrev pub is_settlement : LedgerKey → Bool
is_settlement (reserve_key ref) = false
is_settlement (debit_key ref) = true
is_settlement (release_key ref cause) = true

pub record IsBalanced (ms : List MessageRow) (ts : List LedgerRow) (next_id : ℕ) : Type 0 where
  -- What the ledger says to be reserved is the sum of what the messages hold.
  pub held : (t : ℕ) → ledger_sum t ts ≡ held_sum t ms
  -- A message holds its price exactly while it is open.
  pub aligned :
      (ref : MessageCompositeId) (m : MessageRow)
      → find_first (is_ref ref) ms ≡ some m
      → is_reserved m.billing_state ≡ is_open m.status
  -- A message that holds its price has not been debited or released.
  pub unsettled :
      (ref : MessageCompositeId) (m : MessageRow) (k : LedgerKey)
      → find_first (is_ref ref) ms ≡ some m
      → is_reserved m.billing_state ≡ true
      → is_settlement k ≡ true
      → key_ref k ≡ ref
      → any_row (has_key ref.tenant_id k) ts ≡ false
  -- Identities that are still to be given out are used nowhere.
  pub message_ids : All (λ m. m.id < next_id) ms
  pub ledger_ids : All (λ row. (key_ref row.idempotency_key).id < next_id) ts

-- Only the tables of messages and transactions count.
abbrev pub Balanced : Db → Type 0
Balanced db = IsBalanced db.messages db.transactions db.next_message_id
