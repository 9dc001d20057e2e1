-- ===== src/Wallet/Movement.antt =====
-- What one ledger operation does to the wallets and the ledger: `applyWalletLedger` of
-- messages/messages.service.ts.
use sms_platform_backend.Base.{
  ℕ, ℤ, pos, ◌≤ℤ◌, leb_ℤ, ◌≡◌, refl, ◌≢◌, inl, inr, Bool, true, false, Option, none, some, arith,
  Bool-cases, ok, same, ◌&&◌, ◌||◌, ◌==◌, Result-cases, find_first-update_first_self,
  find_first-update_first_other, any_row-append,
}
use sms_platform_backend.Status.{MessageCompositeId}
use sms_platform_backend.Database.{Db, WalletRow, LedgerKey, LedgerKey-discrete, BillingOperation}
use sms_platform_backend.Wallet.{
  owned_by, wallet_of, has_key, ledger_row, ledger_exists, balances_after, set_balances, post,
  charge_wallet, apply_wallet_ledger,
}

keeps_owner :
    (tenant_id : ℕ) (x y : ℤ) (w : WalletRow)
    → owned_by tenant_id w ≡ true
    → owned_by tenant_id (set_balances x y w) ≡ true
unfolding set_balances
keeps_owner tenant_id x y w h = h

other_owner : (t u : ℕ) → t ≢ u → (w : WalletRow) → owned_by t w ≡ true → owned_by u w ≡ false
other_owner t u ne w h = ground arith

other_owner_after :
    (t u : ℕ) (x y : ℤ)
    → t ≢ u
    → (w : WalletRow) → owned_by t w ≡ true
    → owned_by u (set_balances x y w) ≡ false
unfolding set_balances
other_owner_after t u x y ne w h = ground arith

module _ (t : ℕ) (amount : ℤ) (operation : BillingOperation) (k : LedgerKey)
    (ref : MessageCompositeId) (w : WalletRow) (x y : ℤ) (db : Db) where
  pub wallet_of-post :
      wallet_of t db ≡ some w
      → wallet_of t (post t amount operation k ref w x y db) ≡ some (set_balances x y w)
  unfolding wallet_of post
  wallet_of-post h =
      find_first-update_first_self (owned_by t) (set_balances x y) db.wallets w (keeps_owner t x y)
        h

  pub wallet_of-post_other :
      (u : ℕ) → t ≢ u → wallet_of u (post t amount operation k ref w x y db) ≡ wallet_of u db
  unfolding wallet_of post
  wallet_of-post_other u ne =
      find_first-update_first_other (owned_by t) (owned_by u) (set_balances x y) db.wallets
        (other_owner t u ne) (other_owner_after t u x y ne)

  pub ledger_exists-post :
      (u : ℕ) (j : LedgerKey)
      → ledger_exists u j (post t amount operation k ref w x y db)
        ≡ (ledger_exists u j db || (t == u && same LedgerKey-discrete k j))
  unfolding ledger_exists post ledger_row
  ledger_exists-post u j =
      any_row-append (has_key u j) db.transactions (ledger_row t amount operation k ref w x y)

-- What a call of `applyWalletLedger` that returned `b` and left `db'` has done.
pub data Outcome (t : ℕ) (amount : ℤ) (operation : BillingOperation) (k : LedgerKey)
    (ref : MessageCompositeId) (db : Db) (b : Bool) (db' : Db) : Type 0 where
  skipped :
      b ≡ false
      → db' ≡ db
      → (leb_ℤ amount (pos 0) || ledger_exists t k db) ≡ true
      → Outcome t amount operation k ref db b db'
  posted :
      (w : WalletRow) (x y : ℤ)
      → b ≡ true
      → db' ≡ post t amount operation k ref w x y db
      → pos 1 ≤ℤ amount
      → ledger_exists t k db ≡ false
      → wallet_of t db ≡ some w
      → balances_after operation amount w ≡ ok (x, y)
      → Outcome t amount operation k ref db b db'

module _ (t : ℕ) (amount : ℤ) (operation : BillingOperation) (k : LedgerKey)
    (ref : MessageCompositeId) (db : Db) where
  charge-Outcome :
      (o : Option WalletRow) (b : Bool) (db' : Db)
      → wallet_of t db ≡ o
      → pos 1 ≤ℤ amount
      → ledger_exists t k db ≡ false
      → charge_wallet t amount operation k ref o db ≡ ok (b, db')
      → Outcome t amount operation k ref db b db'
  unfolding charge_wallet
  charge-Outcome none b db' hw ha hk h = cc
  charge-Outcome (some w) b db' hw ha hk h =
      elim (Result-cases (balances_after operation amount w)) [
        | inl ((x, y), e) ↦ posted w x y (ground arith) (ground arith) ha hk hw e
        | inr (e, p) ↦ ground arith
      ]

  pub apply-Outcome :
      (b : Bool) (db' : Db)
      → apply_wallet_ledger t amount operation k ref db ≡ ok (b, db')
      → Outcome t amount operation k ref db b db'
  unfolding apply_wallet_ledger
  apply-Outcome b db' h = elim (Bool-cases (leb_ℤ amount (pos 0) || ledger_exists t k db)) [
    | inl e ↦ skipped (ground arith) (ground arith) e
    | inr e ↦
        charge-Outcome (wallet_of t db) b db' refl (ground arith) (ground arith) (ground arith)
  ]
