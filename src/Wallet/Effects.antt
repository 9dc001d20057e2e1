-- ===== src/Wallet/Effects.antt =====
-- The effects of `applyWalletLedger` of messages/messages.service.ts on wallets and ledger.
use sms_platform_backend.Base.{
  ℕ, ℤ, ◌-ℤ◌, ◌≡◌, refl, ◌≢◌, ap, sym, ◌∙◌, inl, inr, Bool, true, false, Option, some, List, [],
  ◌∷◌, ◌++◌, arith, Bool-cases, Result-cases, ok, err, same, same_iff, ◌&&◌, ◌==◌, any_row,
  some_inj, Error, insufficient_wallet, insufficient_reserved_debit, insufficient_reserved_release,
  if◌then◌else◌,
}
use sms_platform_backend.Status.{MessageCompositeId}
use sms_platform_backend.Database.{
  Db, WalletRow, LedgerRow, LedgerKey, LedgerKey-discrete, BillingOperation, reserve, debit,
  release,
}
use sms_platform_backend.Bigint.{number_of, joined, bigint, less_number, less_text, decimal}
use sms_platform_backend.Bigint.Joins.{bigint_ok}
use sms_platform_backend.Wallet.{
  wallet_of, has_key, ledger_exists, both_bigint, balances_after, set_balances, ledger_row, post,
  apply_wallet_ledger,
}
use sms_platform_backend.Wallet.Movement.{
  wallet_of-post, wallet_of-post_other, ledger_exists-post, skipped, posted, apply-Outcome,
}

same_key_self : (t : ℕ) (k : LedgerKey) → (t == t && same LedgerKey-discrete k k) ≡ true
same_key_self t k = ground (arith, (same_iff LedgerKey-discrete k k).1 refl)

both_bigint_ok :
    (a b : Option ℤ) (x y : ℤ) → both_bigint a b ≡ ok (x, y) → (a ≡ some x) × (b ≡ some y)
unfolding both_bigint
both_bigint_ok a b x y h = elim (Result-cases (bigint a)) [
  | inr (e, bad) ↦ ground arith
  | inl (x', fits) ↦ elim (Result-cases (bigint b)) [
    | inr (e, bad) ↦ ground arith
    | inl (y', fits') ↦
        (let p = bigint_ok a x' fits in
          let q = bigint_ok b y' fits' in (ground arith, ground arith))
  ]
]

-- What an operation surely does to the balances: the subtractions count, the additions join.
abbrev pub Moves : BillingOperation → ℤ → WalletRow → WalletRow → Type 0
Moves reserve amount w w' =
    (w'.available_balance_minor ≡ w.available_balance_minor -ℤ amount)
    × (some w'.reserved_balance_minor ≡ number_of (joined w.reserved_balance_minor amount))
Moves debit amount w w' =
    (w'.available_balance_minor ≡ w.available_balance_minor)
    × (w'.reserved_balance_minor ≡ w.reserved_balance_minor -ℤ amount)
Moves release amount w w' =
    (some w'.available_balance_minor ≡ number_of (joined w.available_balance_minor amount))
    × (w'.reserved_balance_minor ≡ w.reserved_balance_minor -ℤ amount)

both_moves :
    (b : Bool) (e : Error) (p q : Option ℤ) (x y : ℤ)
    → (if b then err e else both_bigint p q) ≡ ok (x, y)
    → (p ≡ some x) × (q ≡ some y)
both_moves true e p q x y h = cc
both_moves false e p q x y h = both_bigint_ok p q x y h

balances_after-Moves :
    (operation : BillingOperation) (amount : ℤ) (w : WalletRow) (x y : ℤ)
    → balances_after operation amount w ≡ ok (x, y)
    → Moves operation amount w (set_balances x y w)
unfolding balances_after set_balances
balances_after-Moves reserve amount w x y h =
    let taken = w.available_balance_minor -ℤ amount in
    let (p, q) =
      both_moves (less_number (joined w.available_balance_minor w.credit_limit_minor) amount)
        insufficient_wallet (some taken) (number_of (joined w.reserved_balance_minor amount)) x y
        h in
    (sym (some_inj taken x p), sym q)
balances_after-Moves debit amount w x y h =
    let taken = w.reserved_balance_minor -ℤ amount in
    let (p, q) =
      both_moves (less_text (decimal w.reserved_balance_minor) (decimal amount))
        insufficient_reserved_debit (some w.available_balance_minor) (some taken) x y h in
    (sym (some_inj w.available_balance_minor x p), sym (some_inj taken y q))
balances_after-Moves release amount w x y h =
    let taken = w.reserved_balance_minor -ℤ amount in
    let (p, q) =
      both_moves (less_text (decimal w.reserved_balance_minor) (decimal amount))
        insufficient_reserved_release (number_of (joined w.available_balance_minor amount))
        (some taken) x y h in
    (sym p, sym (some_inj taken y q))

any_row-more {ℓ} :
    {A : Type ℓ} (p : A → Bool) (xs ys : List A) → any_row p xs ≡ true → any_row p (xs ++ ys) ≡ true
any_row-more p [] ys h = cc
any_row-more p (x ∷ xs) ys h = elim (Bool-cases (p x)) [
  | inl e ↦ ground arith
  | inr e ↦ ground (arith, any_row-more p xs ys)
]

module _ (t : ℕ) (amount : ℤ) (operation : BillingOperation) (k : LedgerKey)
    (ref : MessageCompositeId) (db : Db) where
  post_exists :
      (w : WalletRow) (x y : ℤ) → ledger_exists t k (post t amount operation k ref w x y db) ≡ true
  post_exists w x y =
      ground (arith, ledger_exists-post t amount operation k ref w x y db t k, same_key_self t k)

  -- A call of `applyWalletLedger` that returns `true` found the tenant's wallet and no row under
  -- its key, and leaves one more ledger row, with the amount; a reservation has taken the amount
  -- from the available balance, a debit and a release have taken it from the reserved balance, and
  -- what a reservation adds to the reserved balance and a release to the available one is joined to
  -- it as text.
  pub apply-Moves :
      (db' : Db)
      → apply_wallet_ledger t amount operation k ref db ≡ ok (true, db')
      → (w : WalletRow) × (w' : WalletRow) × (row : LedgerRow) × (wallet_of t db ≡ some w)
        × (wallet_of t db' ≡ some w')
        × Moves operation amount w w'
        × (ledger_exists t k db ≡ false)
        × (db'.transactions ≡ db.transactions ++ row ∷ [])
        × (row.amount_minor ≡ amount)
        × (has_key t k row ≡ true)
  unfolding post ledger_row
  apply-Moves db' h = elim (apply-Outcome t amount operation k ref db true db' h) [
    | skipped b d e ↦ cc
    | posted w x y b d pa hk hw e ↦ (
      w,
      set_balances x y w,
      ledger_row t amount operation k ref w x y,
      hw,
      ap (wallet_of t) d ∙ wallet_of-post t amount operation k ref w x y db hw,
      balances_after-Moves operation amount w x y e,
      hk,
      ap (λ z. z.transactions) d,
      refl,
      same_key_self t k,
    )
  ]

  -- A call of `applyWalletLedger` that returns leaves the wallet of every other tenant as it was.
  pub apply_others :
      (b : Bool) (db' : Db) (u : ℕ)
      → t ≢ u
      → apply_wallet_ledger t amount operation k ref db ≡ ok (b, db')
      → wallet_of u db' ≡ wallet_of u db
  apply_others b db' u ne h = elim (apply-Outcome t amount operation k ref db b db' h) [
    | skipped b d e ↦ rw d
    | posted w x y b d pa hk hw e ↦
        rw d (wallet_of-post_other t amount operation k ref w x y db u ne)
  ]

  -- Once `applyWalletLedger` has posted under a key, a call of the tenant under that key, whatever
  -- its operation and amount, returns `false` and changes nothing on any database whose ledger
  -- still has the rows that the posting left, with any rows behind them.
  pub apply_again :
      (db' : Db)
      → apply_wallet_ledger t amount operation k ref db ≡ ok (true, db')
      → (later : Db) (more : List LedgerRow) → later.transactions ≡ db'.transactions ++ more
      → (amount' : ℤ) (operation' : BillingOperation) (ref' : MessageCompositeId)
      → apply_wallet_ledger t amount' operation' k ref' later ≡ ok (false, later)
  unfolding apply_wallet_ledger ledger_exists
  apply_again db' h later more grown amount' operation' ref' =
      let there = keeps db' h later more grown in ground arith
    where
      keeps :
          (db' : Db)
          → apply_wallet_ledger t amount operation k ref db ≡ ok (true, db')
          → (later : Db) (more : List LedgerRow) → later.transactions ≡ db'.transactions ++ more
          → ledger_exists t k later ≡ true
      keeps db' h later more grown = elim (apply-Outcome t amount operation k ref db true db' h) [
        | skipped b d e ↦ cc
        | posted w x y b d pa hk hw e ↦
            ap (any_row (has_key t k)) grown
            ∙ any_row-more (has_key t k) db'.transactions more
                (ap (ledger_exists t k) d ∙ post_exists w x y)
      ]
