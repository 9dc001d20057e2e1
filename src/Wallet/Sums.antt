-- ===== src/Wallet/Sums.antt =====
-- What the ledger of messages/messages.service.ts says that a tenant has reserved.
use sms_platform_backend.Base.{
  ℕ, ℤ, pos, ◌+ℤ◌, ◌-ℤ◌, +ℤ_assoc, +ℤ_comm, +ℤ-zero, ◌≡◌, sym, ◌≢◌, List, [], ◌∷◌, ◌++◌, arith,
  ◌==◌, if◌then◌else◌,
}
use sms_platform_backend.Status.{MessageCompositeId}
use sms_platform_backend.Database.{
  Db, WalletRow, LedgerKey, LedgerRow, BillingOperation, reserve, debit, release,
}
use sms_platform_backend.Wallet.{ledger_row, post}

-- What an operation adds to the amount that is reserved.
abbrev pub reserved_change : BillingOperation → ℤ → ℤ
reserved_change reserve amount = amount
reserved_change debit amount = pos 0 -ℤ amount
reserved_change release amount = pos 0 -ℤ amount

-- The reservations of a tenant less its debits and releases.
abbrev pub ledger_sum : ℕ → List LedgerRow → ℤ
ledger_sum t [] = pos 0
ledger_sum t (row ∷ rows) =
    (if row.ledger_tenant == t then reserved_change row.kind row.amount_minor else pos 0)
    +ℤ ledger_sum t rows

ledger_sum-append :
    (t : ℕ) (rows : List LedgerRow) (row : LedgerRow)
    → ledger_sum t (rows ++ row ∷ [])
      ≡ ledger_sum t rows
        +ℤ (if row.ledger_tenant == t then reserved_change row.kind row.amount_minor else pos 0)
ledger_sum-append t [] row = +ℤ_comm _ _
ledger_sum-append t (r ∷ rows) row = rw (ledger_sum-append t rows row) (sym (+ℤ_assoc _ _ _))

module _ (t : ℕ) (amount : ℤ) (operation : BillingOperation) (k : LedgerKey)
    (ref : MessageCompositeId) (w : WalletRow) (x y : ℤ) (db : Db) where
  pub post_sum_self :
      ledger_sum t (post t amount operation k ref w x y db).transactions
      ≡ ledger_sum t db.transactions +ℤ reserved_change operation amount
  unfolding post ledger_row
  post_sum_self =
      ground
        (arith, ledger_sum-append t db.transactions (ledger_row t amount operation k ref w x y))

  pub post_sum_other :
      (u : ℕ)
      → t ≢ u
      → ledger_sum u (post t amount operation k ref w x y db).transactions
        ≡ ledger_sum u db.transactions
  unfolding post ledger_row
  post_sum_other u ne = ground (
    arith,
    ledger_sum-append u db.transactions (ledger_row t amount operation k ref w x y),
    +ℤ-zero (ledger_sum u db.transactions),
  )
