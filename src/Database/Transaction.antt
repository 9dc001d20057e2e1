-- ===== src/Database/Transaction.antt =====
-- The database as a value, and database/database.service.ts `withTransaction`: a body that throws
-- leaves no trace. A transaction sees one clock, as `now()` and CURRENT_DATE are fixed in it.
use sms_platform_backend.Base.{ℕ, ◌≡◌, refl, List, Error, Result, ok, err}
use sms_platform_backend.Database.Rows.{
  MessageRow, WalletRow, LedgerRow, LogRow, AuditRow, WebhookRow,
}
use sms_platform_backend.Database.Events.{OutboxRow}

pub record Db : Type 0 where
  pub messages : List MessageRow
  pub next_message_id : ℕ
  pub wallets : List WalletRow
  pub transactions : List LedgerRow
  pub message_logs : List LogRow
  pub audit_logs : List AuditRow
  pub outbox_events : List OutboxRow
  pub next_event_id : ℕ
  pub dlr_webhooks : List WebhookRow
  pub next_webhook_id : ℕ

pub record Clock : Type 0 where
  pub now : ℕ
  pub today : ℕ

-- The body of a transaction: what it returns with the database that it has written.
abbrev pub Tx {ℓ} : Type ℓ → Type ℓ
Tx A = Db → Result (A × Db)

abbrev pub pure {ℓ} : {A : Type ℓ} → A → Tx A
pure a db = ok (a, db)

abbrev pub throw {ℓ} : {A : Type ℓ} → Error → Tx A
throw e db = err e

infixl 5 ◌>>=◌ ◌>>◌
abbrev pub ◌>>=◌ {ℓ κ} : {A : Type ℓ} {B : Type κ} → Tx A → (A → Tx B) → Tx B
◌>>=◌ m f db = elim (m db) [ ok (a, db') ↦ f a db' | err e ↦ err e ]

abbrev pub ◌>>◌ {ℓ κ} : {A : Type ℓ} {B : Type κ} → Tx A → Tx B → Tx B
m >> k = m >>= λ _. k

-- BEGIN, the body, COMMIT; ROLLBACK and the error again where the body throws.
unfoldable pub with_transaction {ℓ} : {A : Type ℓ} → Tx A → Db → Result A × Db
with_transaction body db = elim (body db) [ ok (a, db') ↦ (ok a, db') | err e ↦ (err e, db) ]

-- A transaction keeps what its body keeps where it returns: a throw changes nothing.
pub with_transaction_keeps {ℓ κ} :
    {A : Type ℓ} (P : Db → Type κ) (body : Tx A) (db : Db)
    → P db
    → ((a : A) (db' : Db) → body db ≡ ok (a, db') → P db')
    → P (with_transaction body db).1
unfolding with_transaction
with_transaction_keeps {A} P body db h step = go (body db) refl
  where
    go :
        (r : Result (A × Db))
        → body db ≡ r
        → P (elim r as (λ _. Result A × Db) [ ok (a, db') ↦ (ok a, db') | err e ↦ (err e, db) ]).1
    go (ok (a, db')) e = step a db' e
    go (err x) e = h

pub with_transaction_ok {ℓ} :
    {A : Type ℓ} (body : Tx A) (db : Db) (a : A) (db' : Db)
    → body db ≡ ok (a, db')
    → with_transaction body db ≡ (ok a, db')
unfolding with_transaction
with_transaction_ok body db a db' h = rw (h, with_transaction)

pub with_transaction_err {ℓ} :
    {A : Type ℓ} (body : Tx A) (db : Db) (e : Error)
    → body db ≡ err e
    → with_transaction body db ≡ (err e, db)
unfolding with_transaction
with_transaction_err body db e h = rw (h, with_transaction)

-- A sequence returns where its first part does and the rest does from there.
pub bind_ok {ℓ κ} :
    {A : Type ℓ} {B : Type κ} (m : Tx A) (f : A → Tx B) (db : Db) (b : B) (db' : Db)
    → (m >>= f) db ≡ ok (b, db')
    → (a : A) × (mid : Db) × (m db ≡ ok (a, mid)) × (f a mid ≡ ok (b, db'))
bind_ok {A} {B} m f db b db' h = go (m db) refl h
  where
    go :
        (r : Result (A × Db))
        → m db ≡ r
        → (elim r as (λ _. Result (B × Db)) [ ok (a, mid) ↦ f a mid | err e ↦ err e ]) ≡ ok (b, db')
        → (a : A) × (mid : Db) × (m db ≡ ok (a, mid)) × (f a mid ≡ ok (b, db'))
    go (ok (a, mid)) e p = (a, mid, e, p)
    go (err x) e p = cc

pub bind_step {ℓ κ} :
    {A : Type ℓ} {B : Type κ} (m : Tx A) (f : A → Tx B) (db : Db) (a : A) (mid : Db)
    → m db ≡ ok (a, mid)
    → (m >>= f) db ≡ f a mid
bind_step m f db a mid h = rw (h, ◌>>=◌)

pub bind_err {ℓ κ} :
    {A : Type ℓ} {B : Type κ} (m : Tx A) (f : A → Tx B) (db : Db) (e : Error)
    → m db ≡ err e
    → (m >>= f) db ≡ err e
bind_err m f db e h = rw (h, ◌>>=◌)
