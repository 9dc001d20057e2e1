-- ===== src/Tests/WalletTests.antt =====
-- The wallet on concrete inputs.
use native.Mathlib.Decide.{ℕ_discrete}
use sms_platform_backend.Base.{
  ℕ, ◌+◌, ◌*◌, ◌≤◌, pos, ◌-ℤ◌, ◌≡◌, ◌≢◌, refl, arith, true, false, some, [], ◌∷◌, ◌++◌, ok, err,
  insufficient_wallet,
}
use sms_platform_backend.Database.{
  Db, WalletRow, LedgerRow, LedgerKey, reserve, debit, release, reserve_key, debit_key,
  LedgerKey-discrete,
}
use sms_platform_backend.Wallet.{
  wallet_of, has_key, ledger_exists, post, charge_wallet, apply_wallet_ledger, balances_after,
}
use sms_platform_backend.Wallet.Effects.{Moves, apply-Moves, apply_again}
use sms_platform_backend.Wallet.Joined.{reserve_joins, reserve_overdraws}
use sms_platform_backend.Tests.Sample.{ref, wallet, db}

-- The database after the debit of the message's reservation.
abbrev debited : Db
debited = post 1 (pos 30) debit (debit_key ref) ref wallet (pos 70) (pos 0) db

debit_returns : apply_wallet_ledger 1 (pos 30) debit (debit_key ref) ref db ≡ ok (true, debited)
unfolding apply_wallet_ledger charge_wallet ledger_exists wallet_of balances_after
    LedgerKey-discrete ◌-ℤ◌
debit_returns = refl

apply-Moves_example :
    (w : WalletRow) × (w' : WalletRow) × (row : LedgerRow) × (wallet_of 1 db ≡ some w)
    × (wallet_of 1 debited ≡ some w')
    × Moves debit (pos 30) w w'
    × (ledger_exists 1 (debit_key ref) db ≡ false)
    × (debited.transactions ≡ db.transactions ++ row ∷ [])
    × (row.amount_minor ≡ pos 30)
    × (has_key 1 (debit_key ref) row ≡ true)
apply-Moves_example = apply-Moves 1 (pos 30) debit (debit_key ref) ref db debited debit_returns

-- The debited database with the row of another tenant behind.
abbrev other_row : LedgerRow
other_row = record {
  ledger_tenant = 2;
  ledger_wallet = 8;
  ledger_ref = ref;
  kind = reserve;
  amount_minor = pos 4;
  balance_before_minor = pos 9;
  balance_after_minor = pos 5;
  idempotency_key = reserve_key ref;
}

abbrev later_db : Db
later_db = record debited { transactions = debited.transactions ++ other_row ∷ [] }

apply_again_example :
    apply_wallet_ledger 1 (pos 5) release (debit_key ref) ref later_db ≡ ok (false, later_db)
apply_again_example =
    apply_again 1 (pos 30) debit (debit_key ref) ref db debited debit_returns later_db
      (other_row ∷ []) refl (pos 5) release ref

-- A reservation of 50 on top of 30: the reserved balance is 3050.
abbrev second_key : LedgerKey
second_key = reserve_key (record ref { id = 9 })

abbrev twice_reserved : Db
twice_reserved = post 1 (pos 50) reserve second_key ref wallet (pos 20) (pos 3050) db

reserve_returns :
    apply_wallet_ledger 1 (pos 50) reserve second_key ref db ≡ ok (true, twice_reserved)
unfolding apply_wallet_ledger charge_wallet ledger_exists wallet_of balances_after
    LedgerKey-discrete ◌-ℤ◌ ℕ_discrete
reserve_returns = refl

reserve_joins_example :
    (w' : WalletRow) × (z : ℕ) × (wallet_of 1 twice_reserved ≡ some w')
    × (w'.reserved_balance_minor ≡ pos z)
    × (30 * 10 + 50 ≤ z)
unfolding wallet_of
reserve_joins_example =
    reserve_joins 1 30 50 second_key ref db twice_reserved wallet refl refl reserve_returns

-- A reservation of 500 from a balance of 70 is not refused.
reserve_overdraws_example :
    apply_wallet_ledger 1 (pos 500) reserve second_key ref db ≢ err insufficient_wallet
unfolding wallet_of
reserve_overdraws_example =
    reserve_overdraws 1 70 0 500 second_key ref db wallet refl refl refl (omega arith)
