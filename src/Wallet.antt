-- ===== src/Wallet.antt =====
-- The wallet ledger of messages/messages.service.ts: `ledgerExists`, `applyWalletLedger` and the
-- three operations on it. Every step is one transaction's, under the row lock of FOR UPDATE.
pub mod Movement
pub mod Effects
pub mod Joined
pub mod Sums
use sms_platform_backend.Base.{
  ℕ, ℤ, pos, ◌+◌, ◌-ℤ◌, leb_ℤ, Bool, true, false, ◌&&◌, Option, none, some, List, [], ◌∷◌, ◌++◌,
  ◌==◌, if◌then◌else◌, same, find_first, update_first, any_row, Error, Result, ok, err,
  wallet_not_found, insufficient_wallet, insufficient_reserved_debit, insufficient_reserved_release,
}
use sms_platform_backend.Status.{MessageCompositeId}
use sms_platform_backend.Bigint.{joined, decimal, number_of, less_number, less_text, bigint}
use sms_platform_backend.Database.{
  Db, Tx, pure, throw, WalletRow, LedgerRow, LedgerKey, LedgerKey-discrete, BillingOperation,
  reserve, debit, release, AuditRow, wallet_audit,
}

-- `WHERE tenant_id = $1`
abbrev pub owned_by : ℕ → WalletRow → Bool
owned_by tenant_id w = w.owner == tenant_id

unfoldable pub wallet_of : ℕ → Db → Option WalletRow
wallet_of tenant_id db = find_first (owned_by tenant_id) db.wallets

abbrev pub has_key : ℕ → LedgerKey → LedgerRow → Bool
has_key tenant_id k row =
    row.ledger_tenant == tenant_id && same LedgerKey-discrete row.idempotency_key k

unfoldable pub ledger_exists : ℕ → LedgerKey → Db → Bool
ledger_exists tenant_id k db = any_row (has_key tenant_id k) db.transactions

-- The two parameters of the UPDATE.
unfoldable pub both_bigint : Option ℤ → Option ℤ → Result (ℤ × ℤ)
unfolding bigint
both_bigint a b = elim (bigint a) [
  | err e ↦ err e
  | ok x ↦ elim (bigint b) [ err e ↦ err e | ok y ↦ ok (x, y) ]
]

-- `availableAfter` and `reservedAfter`, or the exception of the operation's guard. The balances and
-- the credit limit are texts. The amount is a number for a reservation, whose price is a product,
-- and a text for a debit and a release, whose price is the column of the message.
unfoldable pub balances_after : BillingOperation → ℤ → WalletRow → Result (ℤ × ℤ)
unfolding joined decimal number_of less_number less_text both_bigint
balances_after reserve amount w =
    if less_number (joined w.available_balance_minor w.credit_limit_minor) amount
    then err insufficient_wallet
    else both_bigint (some (w.available_balance_minor -ℤ amount))
        (number_of (joined w.reserved_balance_minor amount))
balances_after debit amount w =
    if less_text (decimal w.reserved_balance_minor) (decimal amount)
    then err insufficient_reserved_debit
    else both_bigint (some w.available_balance_minor) (some (w.reserved_balance_minor -ℤ amount))
balances_after release amount w =
    if less_text (decimal w.reserved_balance_minor) (decimal amount)
    then err insufficient_reserved_release
    else both_bigint (number_of (joined w.available_balance_minor amount))
        (some (w.reserved_balance_minor -ℤ amount))

-- `balanceBefore` and `balanceAfter` are of the available balance for a reservation, and of the
-- reserved balance otherwise.
unfoldable pub ledger_side : BillingOperation → ℤ → ℤ → ℤ
ledger_side reserve available held = available
ledger_side debit available held = held
ledger_side release available held = held

unfoldable pub set_balances : ℤ → ℤ → WalletRow → WalletRow
set_balances available held w = record w {
  available_balance_minor = available;
  reserved_balance_minor = held;
  wallet_version = w.wallet_version + 1;
}

unfoldable pub ledger_row :
    ℕ → ℤ → BillingOperation → LedgerKey → MessageCompositeId → WalletRow → ℤ → ℤ → LedgerRow
unfolding ledger_side
ledger_row tenant_id amount operation k ref w available held = record {
  ledger_tenant = tenant_id;
  ledger_wallet = w.wallet_id;
  ledger_ref = ref;
  kind = operation;
  amount_minor = amount;
  balance_before_minor = ledger_side operation w.available_balance_minor w.reserved_balance_minor;
  balance_after_minor = ledger_side operation available held;
  idempotency_key = k;
}

-- The UPDATE of the wallet, the INSERT of the ledger row and the audit row.
unfoldable pub post :
    ℕ → ℤ → BillingOperation → LedgerKey → MessageCompositeId → WalletRow → ℤ → ℤ → Db → Db
unfolding ledger_row set_balances
post tenant_id amount operation k ref w available held db = record db {
  wallets = update_first (owned_by tenant_id) (set_balances available held) db.wallets;
  transactions =
      db.transactions ++ ledger_row tenant_id amount operation k ref w available held ∷ [];
  audit_logs = db.audit_logs ++ wallet_audit w.wallet_id operation amount k ∷ [];
}

unfoldable pub charge_wallet :
    ℕ → ℤ → BillingOperation → LedgerKey → MessageCompositeId → Option WalletRow → Tx Bool
unfolding balances_after post
charge_wallet tenant_id amount operation k ref none db = err wallet_not_found
charge_wallet tenant_id amount operation k ref (some w) db =
    elim (balances_after operation amount w) [
      | ok (available, held) ↦ ok (true, post tenant_id amount operation k ref w available held db)
      | err e ↦ err e
    ]

-- `applyWalletLedger`
unfoldable pub apply_wallet_ledger :
    ℕ → ℤ → BillingOperation → LedgerKey → MessageCompositeId → Tx Bool
unfolding ledger_exists wallet_of charge_wallet
apply_wallet_ledger tenant_id amount operation k ref db =
    if leb_ℤ amount (pos 0)
    then ok (false, db)
    else if ledger_exists tenant_id k db
    then ok (false, db)
    else charge_wallet tenant_id amount operation k ref (wallet_of tenant_id db) db

unfoldable pub reserve_wallet : ℕ → ℤ → LedgerKey → MessageCompositeId → Tx Bool
unfolding apply_wallet_ledger
reserve_wallet tenant_id amount k ref = apply_wallet_ledger tenant_id amount reserve k ref

unfoldable pub debit_reserved_wallet : ℕ → ℤ → LedgerKey → MessageCompositeId → Tx Bool
unfolding apply_wallet_ledger
debit_reserved_wallet tenant_id amount k ref = apply_wallet_ledger tenant_id amount debit k ref

unfoldable pub release_reserved_wallet : ℕ → ℤ → LedgerKey → MessageCompositeId → Tx Bool
unfolding apply_wallet_ledger
release_reserved_wallet tenant_id amount k ref = apply_wallet_ledger tenant_id amount release k ref
