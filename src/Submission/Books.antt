-- ===== src/Submission/Books.antt =====
-- The insertion of a message with `reserveWallet` (messages/messages.service.ts) and the balance of
-- the books.
use native.Mathlib.Decide.{ℕ_discrete}
use sms_platform_backend.Base.{
  ℕ, ◌+◌, ◌<◌, ◌≤◌, ℤ, pos, ◌+ℤ◌, ◌≤ℤ◌, leb_ℤ, +ℤ-zero, +ℤ_assoc, +ℤ_comm, ◌≡◌, refl, sym, subst,
  ap, ◌∙◌, ◌≢◌, ◌⊎◌, inl, inr, Bool, true, false, some, List, [], ◌∷◌, ◌++◌, arith, Bool-cases,
  Option-cases, All, All-map, All-append, same, same_iff, any_row, find_first,
  find_first-append_new, find_first-append_old, ok,
}
use sms_platform_backend.Status.{MessageCompositeId, accepted, same_ref_iff}
use sms_platform_backend.Database.{
  Db, MessageRow, WalletRow, LedgerRow, LedgerKey, LedgerKey-discrete, reserve, reserve_key,
  reserved,
}
use sms_platform_backend.Messages.{is_ref, find_message}
use sms_platform_backend.Wallet.{
  wallet_of, has_key, ledger_exists, post, ledger_row, apply_wallet_ledger,
}
use sms_platform_backend.Wallet.Movement.{ledger_exists-post, skipped, posted, apply-Outcome}
use sms_platform_backend.Wallet.Sums.{ledger_sum, post_sum_self, post_sum_other}
use sms_platform_backend.Billing.Books.{
  is_reserved, is_open, hold, held_sum, is_settlement, key_ref, Balanced,
}
use sms_platform_backend.Submission.Accept.{inserted}

held_sum-append :
    (t : ℕ) (ms : List MessageRow) (m : MessageRow)
    → held_sum t (ms ++ m ∷ []) ≡ held_sum t ms +ℤ hold t m
held_sum-append t [] m = +ℤ_comm (hold t m) (pos 0)
held_sum-append t (y ∷ ys) m =
    ap (λ z. hold t y +ℤ z) (held_sum-append t ys m)
    ∙ sym (+ℤ_assoc (hold t y) (held_sum t ys) (hold t m))

-- No ledger row is about an identity that is still to be given out.
unposted :
    (t bound : ℕ) (k : LedgerKey) (rows : List LedgerRow)
    → bound ≤ (key_ref k).id
    → All (λ row. (key_ref row.idempotency_key).id < bound) rows
    → any_row (has_key t k) rows ≡ false
unposted t bound k [] le h = refl
unposted t bound k (row ∷ rows) le h =
    elim (Bool-cases (same LedgerKey-discrete row.idempotency_key k)) [
      | inl e ↦
          (let q : row.idempotency_key ≡ k =
              (same_iff LedgerKey-discrete row.idempotency_key k).0 e in
            absurd (omega (arith, h.0, le, ap (λ j. (key_ref j).id) q)))
      | inr e ↦ ground (arith, unposted t bound k rows le h.1)
    ]

module _ (m : MessageRow) (db : Db) (balanced : Balanced db) (new : m.id ≡ db.next_message_id)
    (is_new : m.status ≡ accepted) (holds : m.billing_state ≡ reserved) where
  abbrev start : Db
  start = inserted m db

  -- A row that is found later is an old one or the new one.
  found_later :
      (r : MessageCompositeId) (y : MessageRow)
      → find_message r start ≡ some y
      → (find_message r db ≡ some y) ⊎ ((r ≡ m.key) × (y ≡ m))
  unfolding find_message
  found_later r y h = elim (Option-cases (find_first (is_ref r) db.messages)) [
    | inl gone ↦
        (let e = find_first-append_new (is_ref r) db.messages m gone in
          inr (ground (arith, same_ref_iff m.key r), ground arith))
    | inr (z, e) ↦
        (let e' = find_first-append_old (is_ref r) db.messages m z e in inl (ground arith))
  ]

  start_aligned :
      (r : MessageCompositeId) (y : MessageRow)
      → find_message r start ≡ some y
      → is_reserved y.billing_state ≡ is_open y.status
  unfolding find_message
  start_aligned r y h = elim (found_later r y h) [
    | inl old ↦ balanced.aligned r y old
    | inr (q, row) ↦
        ap (λ z. is_reserved z.billing_state) row
        ∙ ap is_reserved holds
        ∙ sym (ap (λ z. is_open z.status) row ∙ ap is_open is_new)
  ]

  start_unsettled :
      (r : MessageCompositeId) (y : MessageRow) (k : LedgerKey)
      → find_message r start ≡ some y
      → is_reserved y.billing_state ≡ true
      → is_settlement k ≡ true
      → key_ref k ≡ r
      → any_row (has_key r.tenant_id k) db.transactions ≡ false
  unfolding find_message
  start_unsettled r y k h e s q = elim (found_later r y h) [
    | inl old ↦ balanced.unsettled r y k old e s q
    | inr (at, row) ↦
        unposted r.tenant_id db.next_message_id k db.transactions
          (omega (arith, new, ap (λ z. z.id) q, ap (λ z. z.id) at)) balanced.ledger_ids
  ]

  message_ids-inserted : All (λ y. y.id < db.next_message_id + 1) start.messages
  message_ids-inserted =
      All-append (λ y. y.id < db.next_message_id + 1) db.messages m
        (All-map db.messages (λ y lt. omega (arith, lt)) balanced.message_ids) (omega (arith, new))

  ledger_ids-inserted :
      All (λ row. (key_ref row.idempotency_key).id < db.next_message_id + 1) db.transactions
  ledger_ids-inserted = All-map db.transactions (λ row lt. omega (arith, lt)) balanced.ledger_ids

  pub not_reserved_yet : ledger_exists m.tenant_id (reserve_key m.key) start ≡ false
  unfolding ledger_exists
  not_reserved_yet =
      unposted m.tenant_id db.next_message_id (reserve_key m.key) db.transactions
        (omega (arith, new)) balanced.ledger_ids

  hold_self : pos 1 ≤ℤ m.price_minor → hold m.tenant_id m ≡ m.price_minor
  unfolding hold
  hold_self h = ground arith

  hold_other : (t : ℕ) → m.tenant_id ≢ t → hold t m ≡ pos 0
  unfolding hold
  hold_other t ne = ground arith

  hold_free : (t : ℕ) → leb_ℤ m.price_minor (pos 0) ≡ true → hold t m ≡ pos 0
  unfolding hold
  hold_free t h = ground arith

  free-Balanced : leb_ℤ m.price_minor (pos 0) ≡ true → Balanced start
  unfolding find_message
  free-Balanced free = record {
    held = λ t.
        balanced.held t
        ∙ sym (+ℤ-zero (held_sum t db.messages))
        ∙ ap (λ z. held_sum t db.messages +ℤ z) (sym (hold_free t free))
        ∙ sym (held_sum-append t db.messages m);
    aligned = start_aligned;
    unsettled = start_unsettled;
    message_ids = message_ids-inserted;
    ledger_ids = ledger_ids-inserted;
  }

  module _ (w : WalletRow) (x y : ℤ) (positive : pos 1 ≤ℤ m.price_minor) where
    abbrev booked : Db
    booked = post m.tenant_id m.price_minor reserve (reserve_key m.key) m.key w x y start

    booked_held : (t : ℕ) → ledger_sum t booked.transactions ≡ held_sum t start.messages
    booked_held t = elim (ℕ_discrete m.tenant_id t) [
      | yes q ↦ subst (λ u. ledger_sum u booked.transactions ≡ held_sum u start.messages) q self
      | no ne ↦
          post_sum_other m.tenant_id m.price_minor reserve (reserve_key m.key) m.key w x y start t
            ne
          ∙ balanced.held t
          ∙ sym (+ℤ-zero (held_sum t db.messages))
          ∙ ap (λ z. held_sum t db.messages +ℤ z) (sym (hold_other t ne))
          ∙ sym (held_sum-append t db.messages m)
    ]
      where
        self : ledger_sum m.tenant_id booked.transactions ≡ held_sum m.tenant_id start.messages
        self =
            post_sum_self m.tenant_id m.price_minor reserve (reserve_key m.key) m.key w x y start
            ∙ ap (λ z. z +ℤ m.price_minor) (balanced.held m.tenant_id)
            ∙ ap (λ z. held_sum m.tenant_id db.messages +ℤ z) (sym (hold_self positive))
            ∙ sym (held_sum-append m.tenant_id db.messages m)

    -- The new ledger row is a reservation, so it settles nothing.
    booked_unsettled :
        (r : MessageCompositeId) (z : MessageRow) (k : LedgerKey)
        → find_message r start ≡ some z
        → is_reserved z.billing_state ≡ true
        → is_settlement k ≡ true
        → key_ref k ≡ r
        → any_row (has_key r.tenant_id k) booked.transactions ≡ false
    unfolding ledger_exists
    booked_unsettled r z k h e s q =
        let before = start_unsettled r z k h e s q in
        let other : same LedgerKey-discrete (reserve_key m.key) k ≡ false = not_settlement k s in
        ground (
          arith,
          ledger_exists-post m.tenant_id m.price_minor reserve (reserve_key m.key) m.key w x y start
              r.tenant_id k,
        )
      where
        not_settlement :
            (k : LedgerKey)
            → is_settlement k ≡ true
            → same LedgerKey-discrete (reserve_key m.key) k ≡ false
        not_settlement k s = elim (Bool-cases (same LedgerKey-discrete (reserve_key m.key) k)) [
          | inl e ↦
              (let q : reserve_key m.key ≡ k =
                  (same_iff LedgerKey-discrete (reserve_key m.key) k).0 e in
                absurd (cc (ap is_settlement q)))
          | inr e ↦ e
        ]

    booked-Balanced : Balanced booked
    unfolding find_message post ledger_row
    booked-Balanced = record {
      held = booked_held;
      aligned = start_aligned;
      unsettled = booked_unsettled;
      message_ids = message_ids-inserted;
      ledger_ids =
          All-append (λ row. (key_ref row.idempotency_key).id < db.next_message_id + 1)
            db.transactions
            (ledger_row m.tenant_id m.price_minor reserve (reserve_key m.key) m.key w x y)
            ledger_ids-inserted (omega (arith, new));
    }

  -- Inserting an accepted message under the next identity and reserving its price keeps the books
  -- balanced.
  pub reserve_new-Balanced :
      (b : Bool) (db' : Db)
      → apply_wallet_ledger m.tenant_id m.price_minor reserve (reserve_key m.key) m.key start
        ≡ ok (b, db')
      → Balanced db'
  unfolding wallet_of
  reserve_new-Balanced b db' h =
      elim (apply-Outcome m.tenant_id m.price_minor reserve (reserve_key m.key) m.key start b db'
        h) [
          | skipped _ d e ↦
              subst Balanced (sym d) (free-Balanced (ground (arith, not_reserved_yet)))
          | posted w x y _ d positive _ _ _ ↦
              subst Balanced (sym d) (booked-Balanced w x y positive)
        ]
