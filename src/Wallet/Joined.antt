-- ===== src/Wallet/Joined.antt =====
-- What it does to the wallets that `applyWalletLedger` of messages/messages.service.ts adds their
-- columns as texts.
use sms_platform_backend.Base.{
  ℕ, ◌+◌, ◌*◌, ◌≤◌, ℤ, pos, ◌-ℤ◌, ltb_ℤ, ◌≡◌, sym, ap, ◌∙◌, ◌≢◌, inl, inr, true, false, Option,
  none, some, arith, Option-cases, Result-cases, ok, err, Error, bad_bigint, insufficient_wallet,
}
use sms_platform_backend.Status.{MessageCompositeId}
use sms_platform_backend.Database.{Db, WalletRow, LedgerKey, reserve}
use sms_platform_backend.Bigint.{number_of, joined, bigint, less_number}
use sms_platform_backend.Bigint.Joins.{joined_exceeds}
use sms_platform_backend.Wallet.{
  wallet_of, both_bigint, balances_after, charge_wallet, apply_wallet_ledger,
}
use sms_platform_backend.Wallet.Effects.{apply-Moves}

-- If the reserved balance of a tenant is `r`, then after a reservation of the amount `a` that is
-- posted it is ten times `r` plus `a` at least, so that a reservation on top of another one does
-- not leave the sum of both.
pub reserve_joins :
    (t r a : ℕ) (k : LedgerKey) (ref : MessageCompositeId) (db db' : Db) (w : WalletRow)
    → wallet_of t db ≡ some w
    → w.reserved_balance_minor ≡ pos r
    → apply_wallet_ledger t (pos a) reserve k ref db ≡ ok (true, db')
    → (w' : WalletRow) × (z : ℕ) × (wallet_of t db' ≡ some w')
      × (w'.reserved_balance_minor ≡ pos z)
      × (r * 10 + a ≤ z)
reserve_joins t r a k ref db db' w found before h =
    let (v, w', row, there, after, (_, sum), _, _, _, _) =
      apply-Moves t (pos a) reserve k ref db db' h in
    let same_row : v ≡ w = ground arith in
    let (z, spelt, enough) = joined_exceeds r a w'.reserved_balance_minor (
      ap (λ b. number_of (joined b (pos a)))
        (sym (ap (λ u. u.reserved_balance_minor) same_row ∙ before))
      ∙ sym sum) in
    (w', z, after, spelt, enough)

bigint_error : (o : Option ℤ) (e : Error) → bigint o ≡ err e → e ≡ bad_bigint
unfolding bigint
bigint_error none e h = cc
bigint_error (some a) e h = ground arith

both_bigint_error : (a b : Option ℤ) (e : Error) → both_bigint a b ≡ err e → e ≡ bad_bigint
unfolding both_bigint
both_bigint_error a b e h = elim (Result-cases (bigint a)) [
  | inr (x, bad) ↦ bigint_error a e (ground arith)
  | inl (x, fits) ↦ elim (Result-cases (bigint b)) [
    | inr (y, bad) ↦ bigint_error b e (ground arith)
    | inl (y, fits') ↦ ground arith
  ]
]

not_less : (v c a : ℕ) → a ≤ v * 10 + c → less_number (joined (pos v) (pos c)) (pos a) ≡ false
unfolding less_number
not_less v c a covered = elim (Option-cases (number_of (joined (pos v) (pos c)))) [
  | inl unread ↦ ground arith
  | inr (z, spelt) ↦
      (let (m, whole, enough) = joined_exceeds v c z spelt in
        let above : ltb_ℤ z (pos a) ≡ false = rw whole (ground arith) in ground arith)
]

-- If neither the available balance nor the credit limit is negative, a reservation of up to ten
-- times the available balance plus the credit limit is not refused for want of funds.
pub reserve_overdraws :
    (t v c a : ℕ) (k : LedgerKey) (ref : MessageCompositeId) (db : Db) (w : WalletRow)
    → wallet_of t db ≡ some w
    → w.available_balance_minor ≡ pos v
    → w.credit_limit_minor ≡ pos c
    → a ≤ v * 10 + c
    → apply_wallet_ledger t (pos a) reserve k ref db ≢ err insufficient_wallet
unfolding apply_wallet_ledger charge_wallet balances_after
reserve_overdraws t v c a k ref db w found available credit covered h =
    let passes : less_number (joined w.available_balance_minor w.credit_limit_minor) (pos a)
        ≡ false =
      rw (available, credit) (not_less v c a covered) in
    let taken = some (w.available_balance_minor -ℤ pos a) in
    let sum = number_of (joined w.reserved_balance_minor (pos a)) in
    elim (Result-cases (both_bigint taken sum)) [
      | inl (r, written) ↦ ground arith
      | inr (e, refused) ↦ (let other = both_bigint_error taken sum e refused in ground arith)
    ]
