-- ===== src/Submission/Charge.antt =====
-- What a new message of `submitMessageWithContext` (messages/messages.service.ts) costs its tenant.
use sms_platform_backend.Base.{◌-ℤ◌, true, ◌≡◌, some, [], ◌∷◌, ◌++◌}
use sms_platform_backend.Database.{Db, Clock, MessageRow, WalletRow, LedgerRow, reserve_key}
use sms_platform_backend.Wallet.{has_key, wallet_of}
use sms_platform_backend.Submission.Services.{SubmissionContext, SubmitMessageDto}
use sms_platform_backend.Submission.Prepare.{Draft}

module _ (c : Clock) (context : SubmissionContext) (dto : SubmitMessageDto) (draft : Draft)
    (db : Db) where
  -- The ledger has one more row, the reservation of the price, and the available balance less.
  abbrev pub Charged : MessageRow → Db → Type 0
  Charged m db' =
      (w : WalletRow) × (w' : WalletRow) × (row : LedgerRow) × (wallet_of context.context_tenant db
        ≡ some w)
      × (wallet_of context.context_tenant db' ≡ some w')
      × (w'.available_balance_minor ≡ w.available_balance_minor -ℤ draft.draft_price)
      × (db'.transactions ≡ db.transactions ++ row ∷ [])
      × (row.amount_minor ≡ draft.draft_price)
      × (has_key context.context_tenant (reserve_key m.key) row ≡ true)
