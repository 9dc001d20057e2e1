-- ===== src/Billing/Writes.antt =====
-- How the writes of messages/messages.service.ts to one message change what the messages hold.
use sms_platform_backend.Base.{
  ℕ, ◌<◌, ℤ, ◌+ℤ◌, +ℤ_assoc, int_laws, ◌≡◌, sym, subst, ap, ◌∙◌, ◌≢◌, inl, inr, Bool, true, false,
  some, List, [], ◌∷◌, arith, Bool-cases, All, All-update_first, some_inj, find_first, update_first,
  any_row, +ℤ_cancel_right,
}
use sms_platform_backend.Status.{MessageCompositeId, same_ref, same_ref_iff}
use sms_platform_backend.Database.{Db, MessageRow}
use sms_platform_backend.Messages.{is_ref, find_message}
use sms_platform_backend.Messages.Updates.{
  write_message, find_message-write_self, find_message-write_other,
}
use sms_platform_backend.Wallet.{has_key}
use sms_platform_backend.Billing.Books.{
  is_reserved, is_open, hold, held_sum, Balanced, is_settlement, key_ref,
}

-- Rewriting the row that is found moves the sum by the change of what that row holds.
pub held_sum-write :
    (t : ℕ) (p : MessageRow → Bool) (f : MessageRow → MessageRow) (ms : List MessageRow)
    (m : MessageRow)
    → find_first p ms ≡ some m
    → held_sum t (update_first p f ms) +ℤ hold t m ≡ held_sum t ms +ℤ hold t (f m)
held_sum-write t p f [] m h = cc
held_sum-write t p f (y ∷ ys) m h = elim (Bool-cases (p y)) [
  | inl e ↦
      (let q : y ≡ m = ground arith in
        rw (e, q) (swap_ends (hold t (f m)) (held_sum t ys) (hold t m)))
  | inr e ↦ rw e (shift_under (hold t y) _ _ _ _ (held_sum-write t p f ys m (ground arith)))
]
  where
    swap_ends : (a b c : ℤ) → a +ℤ b +ℤ c ≡ c +ℤ b +ℤ a
    swap_ends a b c = omega int_laws

    shift_under : (h a b c d : ℤ) → a +ℤ b ≡ c +ℤ d → h +ℤ a +ℤ b ≡ h +ℤ c +ℤ d
    shift_under h a b c d e = +ℤ_assoc h a b ∙ ap (λ z. h +ℤ z) e ∙ sym (+ℤ_assoc h c d)

-- A function on rows that leaves the identity columns alone.
abbrev pub KeepsKey : (MessageRow → MessageRow) → Type 0
KeepsKey f = (y : MessageRow) → (f y).key ≡ y.key

module _ (ref : MessageCompositeId) (m : MessageRow) (db : Db) (f : MessageRow → MessageRow)
    (found : find_message ref db ≡ some m) (keep : KeepsKey f) where
  -- What holds of the row that is written and of every other row holds of every row found later.
  pub written_rows {κ} :
      (P : MessageCompositeId → MessageRow → Type κ)
      → P ref (f m)
      → ((other : MessageCompositeId) (y : MessageRow)
          → ref ≢ other
          → find_message other db ≡ some y
          → P other y)
      → (other : MessageCompositeId) (y : MessageRow)
      → find_message other (write_message ref f db) ≡ some y
      → P other y
  written_rows P here there other y h = elim (Bool-cases (same_ref ref other)) [
    | inl e ↦
        (let q : ref ≡ other = (same_ref_iff ref other).0 e in
          subst (λ r. find_message r (write_message ref f db) ≡ some y → P r y) q
            (λ g.
              subst (P ref)
                (some_inj (f m) y (sym (find_message-write_self ref m db found f keep) ∙ g)) here)
            h)
    | inr e ↦
        (let ne : ref ≢ other = λ q. ground (arith, same_ref_iff ref other) in
          there other y ne (sym (find_message-write_other ref other f db ne keep) ∙ h))
  ]

  pub message_ids-write :
      All (λ y. y.id < db.next_message_id) db.messages
      → All (λ y. y.id < db.next_message_id) (write_message ref f db).messages
  message_ids-write h =
      All-update_first (λ y. y.id < db.next_message_id) (is_ref ref) f db.messages h
        (λ y e lt. subst (λ k. k.id < db.next_message_id) (sym (keep y)) lt)

  module _ (balanced : Balanced db) (same_price : (f m).price_minor ≡ m.price_minor) where
    -- A write that keeps what the message holds, and keeps that in step with its status, keeps
    -- the books balanced.
    pub write-Balanced :
        is_reserved (f m).billing_state ≡ is_reserved m.billing_state
        → is_open (f m).status ≡ is_open m.status
        → Balanced (write_message ref f db)
    unfolding find_message hold
    write-Balanced same_reserved same_open = record {
      held = λ t. balanced.held t ∙ same_sum t;
      aligned =
          written_rows (λ r y. is_reserved y.billing_state ≡ is_open y.status)
            (same_reserved ∙ balanced.aligned ref m found ∙ sym same_open)
            (λ r y ne h. balanced.aligned r y h);
      unsettled = λ r y k h hold_it.
          written_rows
            (λ r y.
              is_reserved y.billing_state ≡ true
              → is_settlement k ≡ true
              → key_ref k ≡ r
              → any_row (has_key r.tenant_id k) db.transactions ≡ false)
            (λ e. balanced.unsettled ref m k found (sym same_reserved ∙ e))
            (λ r y ne h e. balanced.unsettled r y k h e) r y h hold_it;
      message_ids = message_ids-write balanced.message_ids;
      ledger_ids = balanced.ledger_ids;
    }
      where
        same_hold : (t : ℕ) → hold t (f m) ≡ hold t m
        same_hold t = ground (arith, keep m)

        same_sum : (t : ℕ) → held_sum t db.messages ≡ held_sum t (write_message ref f db).messages
        same_sum t =
            +ℤ_cancel_right (held_sum t db.messages) (held_sum t (write_message ref f db).messages)
              (hold t m)
              (sym (
                held_sum-write t (is_ref ref) f db.messages m found
                ∙ ap (λ z. held_sum t db.messages +ℤ z) (same_hold t)))
