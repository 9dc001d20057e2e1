-- ===== src/Billing/Settle.antt =====
-- Ending a reservation: a message that leaves its open statuses, with the debit or the release of
-- its price (`debitReservedWallet` and `releaseReservedWallet` of messages/messages.service.ts).
use native.Mathlib.Decide.{ℕ_discrete}
use sms_platform_backend.Base.{
  ℕ, ◌<◌, ℤ, pos, ◌+ℤ◌, ◌-ℤ◌, ◌≤ℤ◌, leb_ℤ, int_laws, ◌≡◌, sym, subst, ap, ◌∙◌, ◌≢◌, inl, inr, Bool,
  true, false, ◌||◌, some, arith, Bool-cases, All-append, All_found, same, same_iff, any_row, ok,
  +ℤ-zero,
}
use sms_platform_backend.Status.{MessageCompositeId}
use sms_platform_backend.Database.{
  Db, MessageRow, WalletRow, LedgerKey, LedgerKey-discrete, BillingOperation,
}
use sms_platform_backend.Messages.{is_ref, find_message}
use sms_platform_backend.Messages.Updates.{write_message, found_ref}
use sms_platform_backend.Wallet.{
  wallet_of, has_key, ledger_exists, post, ledger_row, apply_wallet_ledger,
}
use sms_platform_backend.Wallet.Movement.{ledger_exists-post, skipped, posted, apply-Outcome}
use sms_platform_backend.Wallet.Sums.{reserved_change, ledger_sum, post_sum_self, post_sum_other}
use sms_platform_backend.Billing.Books.{
  is_reserved, is_open, hold, held_sum, is_settlement, key_ref, Balanced,
}
use sms_platform_backend.Billing.Writes.{KeepsKey, held_sum-write, written_rows, message_ids-write}

module _ (ref : MessageCompositeId) (m : MessageRow) (db : Db) (f : MessageRow → MessageRow)
    (found : find_message ref db ≡ some m) (keep : KeepsKey f) (balanced : Balanced db)
    (was_reserved : is_reserved m.billing_state ≡ true)
    (now_settled : is_reserved (f m).billing_state ≡ false)
    (now_closed : is_open (f m).status ≡ false) (k : LedgerKey) (settles : is_settlement k ≡ true)
    (of_ref : key_ref k ≡ ref) where
  abbrev closed : Db
  closed = write_message ref f db

  hold_after : (t : ℕ) → hold t (f m) ≡ pos 0
  unfolding hold
  hold_after t = ground arith

  -- What the tenant's messages hold falls by what the message held.
  sum_after : (t : ℕ) → held_sum t closed.messages +ℤ hold t m ≡ held_sum t db.messages
  unfolding find_message
  sum_after t =
      held_sum-write t (is_ref ref) f db.messages m found
      ∙ ap (λ z. held_sum t db.messages +ℤ z) (hold_after t)
      ∙ +ℤ-zero (held_sum t db.messages)

  hold_self : pos 1 ≤ℤ m.price_minor → hold m.tenant_id m ≡ m.price_minor
  unfolding hold
  hold_self h = ground arith

  hold_other : (t : ℕ) → m.tenant_id ≢ t → hold t m ≡ pos 0
  unfolding hold
  hold_other t ne = ground arith

  hold_free : (t : ℕ) → leb_ℤ m.price_minor (pos 0) ≡ true → hold t m ≡ pos 0
  unfolding hold
  hold_free t h = ground arith

  closed_aligned :
      (r : MessageCompositeId) (y : MessageRow)
      → find_message r closed ≡ some y
      → is_reserved y.billing_state ≡ is_open y.status
  unfolding find_message
  closed_aligned =
      written_rows ref m db f found keep (λ r y. is_reserved y.billing_state ≡ is_open y.status)
        (now_settled ∙ sym now_closed) (λ r y ne h. balanced.aligned r y h)

  -- A message that still holds its price is another one, so the new key is not about it.
  closed_unsettled :
      (r : MessageCompositeId) (y : MessageRow) (j : LedgerKey)
      → find_message r closed ≡ some y
      → is_reserved y.billing_state ≡ true
      → is_settlement j ≡ true
      → key_ref j ≡ r
      → (any_row (has_key r.tenant_id j) db.transactions ≡ false)
        × (same LedgerKey-discrete k j ≡ false)
  unfolding find_message
  closed_unsettled r y j h =
      written_rows ref m db f found keep
        (λ s z.
          is_reserved z.billing_state ≡ true
          → is_settlement j ≡ true
          → key_ref j ≡ s
          → (any_row (has_key s.tenant_id j) db.transactions ≡ false)
            × (same LedgerKey-discrete k j ≡ false))
        (λ e sj ks. absurd (cc))
        (λ s z ne hz e sj ks. (balanced.unsettled s z j hz e sj ks, other_key s j ne ks)) r y h
    where
      other_key :
          (s : MessageCompositeId) (j : LedgerKey)
          → ref ≢ s
          → key_ref j ≡ s
          → same LedgerKey-discrete k j ≡ false
      other_key s j ne ks = elim (Bool-cases (same LedgerKey-discrete k j)) [
        | inl e ↦ absurd (ne (sym of_ref ∙ ap key_ref ((same_iff LedgerKey-discrete k j).0 e) ∙ ks))
        | inr e ↦ e
      ]

  not_settled_yet : ledger_exists m.tenant_id k db ≡ false
  unfolding ledger_exists find_message
  not_settled_yet =
      subst (λ r. any_row (has_key r.tenant_id k) db.transactions ≡ false)
        (sym (found_ref ref m db found))
        (balanced.unsettled ref m k found was_reserved settles of_ref)

  -- A message without a price leaves the books balanced by its write alone.
  free-Balanced : leb_ℤ m.price_minor (pos 0) ≡ true → Balanced closed
  unfolding find_message
  free-Balanced free = record {
    held = λ t.
        balanced.held t
        ∙ sym (sum_after t)
        ∙ ap (λ z. held_sum t closed.messages +ℤ z) (hold_free t free)
        ∙ +ℤ-zero (held_sum t closed.messages);
    aligned = closed_aligned;
    unsettled = λ r y j h e sj ks. (closed_unsettled r y j h e sj ks).0;
    message_ids = message_ids-write ref m db f found keep balanced.message_ids;
    ledger_ids = balanced.ledger_ids;
  }

  module _ (operation : BillingOperation)
      (frees : (a : ℤ) → reserved_change operation a ≡ pos 0 -ℤ a) (w : WalletRow) (x y : ℤ)
      (positive : pos 1 ≤ℤ m.price_minor) where
    abbrev paid : Db
    paid = post m.tenant_id m.price_minor operation k ref w x y closed

    paid_held_self : ledger_sum m.tenant_id paid.transactions ≡ held_sum m.tenant_id closed.messages
    paid_held_self =
        post_sum_self m.tenant_id m.price_minor operation k ref w x y closed
        ∙ ap (λ z. ledger_sum m.tenant_id db.transactions +ℤ z) (frees m.price_minor)
        ∙ ap (λ z. z +ℤ (pos 0 -ℤ m.price_minor))
            (balanced.held m.tenant_id
              ∙ sym (sum_after m.tenant_id)
              ∙ ap (λ z. held_sum m.tenant_id closed.messages +ℤ z) (hold_self positive))
        ∙ add_sub (held_sum m.tenant_id closed.messages) m.price_minor
      where
        add_sub : (a b : ℤ) → a +ℤ b +ℤ (pos 0 -ℤ b) ≡ a
        add_sub a b = omega int_laws

    paid_held : (t : ℕ) → ledger_sum t paid.transactions ≡ held_sum t closed.messages
    paid_held t = elim (ℕ_discrete m.tenant_id t) [
      | yes q ↦
          subst (λ u. ledger_sum u paid.transactions ≡ held_sum u closed.messages) q paid_held_self
      | no ne ↦
          post_sum_other m.tenant_id m.price_minor operation k ref w x y closed t ne
          ∙ balanced.held t
          ∙ sym (sum_after t)
          ∙ ap (λ z. held_sum t closed.messages +ℤ z) (hold_other t ne)
          ∙ +ℤ-zero (held_sum t closed.messages)
    ]

    paid_unsettled :
        (r : MessageCompositeId) (z : MessageRow) (j : LedgerKey)
        → find_message r closed ≡ some z
        → is_reserved z.billing_state ≡ true
        → is_settlement j ≡ true
        → key_ref j ≡ r
        → any_row (has_key r.tenant_id j) paid.transactions ≡ false
    unfolding ledger_exists
    paid_unsettled r z j h e sj ks =
        let (fresh, other) = closed_unsettled r z j h e sj ks in
        ground (
          arith,
          ledger_exists-post m.tenant_id m.price_minor operation k ref w x y closed r.tenant_id j,
        )

    key_below : (key_ref k).id < db.next_message_id
    unfolding find_message
    key_below =
        subst (λ r. r.id < db.next_message_id) (found_ref ref m db found ∙ sym of_ref)
          (All_found (λ n. n.id < db.next_message_id) (is_ref ref) db.messages m
            balanced.message_ids found)

    paid-Balanced : Balanced paid
    unfolding find_message post ledger_row
    paid-Balanced = record {
      held = paid_held;
      aligned = closed_aligned;
      unsettled = paid_unsettled;
      message_ids = message_ids-write ref m db f found keep balanced.message_ids;
      ledger_ids =
          All-append (λ row. (key_ref row.idempotency_key).id < db.next_message_id) db.transactions
            (ledger_row m.tenant_id m.price_minor operation k ref w x y) balanced.ledger_ids
            key_below;
    }

  -- A message with a reservation leaves its open statuses, and its price is debited or released
  -- under a key of that message: the books stay balanced.
  pub settle-Balanced :
      (operation : BillingOperation)
      → ((a : ℤ) → reserved_change operation a ≡ pos 0 -ℤ a)
      → (b : Bool) (db' : Db)
      → apply_wallet_ledger m.tenant_id m.price_minor operation k ref closed ≡ ok (b, db')
      → Balanced db'
  unfolding wallet_of ledger_exists
  settle-Balanced operation frees b db' h =
      elim (apply-Outcome m.tenant_id m.price_minor operation k ref closed b db' h) [
        | skipped _ d e ↦ subst Balanced (sym d) (free-Balanced (no_price e))
        | posted w x y _ d positive _ _ _ ↦
            subst Balanced (sym d) (paid-Balanced operation frees w x y positive)
      ]
    where
      no_price :
          (leb_ℤ m.price_minor (pos 0) || ledger_exists m.tenant_id k closed) ≡ true
          → leb_ℤ m.price_minor (pos 0) ≡ true
      no_price e = ground (arith, not_settled_yet)
