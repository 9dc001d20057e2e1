-- ===== src/Outbox/Attempts.antt =====
-- How often the relay of outbox/outbox-relay.service.ts tries an event that the broker refuses,
-- and when.
use sms_platform_backend.Base.{
  ℕ, ◌+◌, ◌*◌, ◌≤◌, ◌≡◌, refl, ap, ◌∙◌, ◌&&◌, List, [], ◌∷◌, ◌++◌, arith, ltb, leb, length,
  Bool-cases, inl, inr,
}
use sms_platform_backend.Database.{OutboxRow}
use sms_platform_backend.Outbox.Relay.{is_due, backoff_seconds, marked_failed}

-- An event after calls of the broker that threw, at these times.
unfoldable pub failed_attempts : List ℕ → OutboxRow → OutboxRow
unfolding marked_failed
failed_attempts [] r = r
failed_attempts (t ∷ ts) r = failed_attempts ts (marked_failed t r)

failed_attempts-append :
    (ts : List ℕ) (t : ℕ) (r : OutboxRow)
    → failed_attempts (ts ++ t ∷ []) r ≡ marked_failed t (failed_attempts ts r)
unfolding failed_attempts
failed_attempts-append [] t r = refl
failed_attempts-append (s ∷ ts) t r = failed_attempts-append ts t (marked_failed s r)

failed_attempts-retry_count :
    (ts : List ℕ) (r : OutboxRow) → (failed_attempts ts r).retry_count ≡ r.retry_count + length ts
unfolding failed_attempts marked_failed
failed_attempts-retry_count [] r = omega arith
failed_attempts-retry_count (t ∷ ts) r =
    omega (arith, failed_attempts-retry_count ts (marked_failed t r))

-- Below ten attempts the cap of 300 seconds is not reached.
backoff_lem : (n : ℕ) → n ≤ 9 → backoff_seconds n ≡ 5 * (n + 1)
unfolding backoff_seconds
backoff_lem n h = omega arith

marked_failed-is_due :
    (now t : ℕ) (r : OutboxRow)
    → is_due now (marked_failed t r)
      ≡ (ltb (r.retry_count + 1) 10 && leb (t + 5000 * (r.retry_count + 1)) now)
unfolding marked_failed
marked_failed-is_due now t r = elim (Bool-cases (leb 10 (r.retry_count + 1))) [
  | inl e ↦ ground arith
  | inr e ↦ ground (arith, backoff_lem r.retry_count (ground arith))
]

-- After calls of the broker that threw, one at least, an event is due exactly if its attempts,
-- these calls included, are fewer than ten and five seconds for each attempt have passed since the
-- last call; so it is not tried again after ten, and the cap of 300 seconds is not reached.
pub failed_attempts-is_due :
    (ts : List ℕ) (t now : ℕ) (r : OutboxRow)
    → is_due now (failed_attempts (ts ++ t ∷ []) r) ≡ (
        ltb (r.retry_count + length ts + 1) 10
        && leb (t + 5000 * (r.retry_count + length ts + 1)) now)
failed_attempts-is_due ts t now r = rw (failed_attempts-append ts t r) (
    marked_failed-is_due now t (failed_attempts ts r)
    ∙ ap (λ n. ltb (n + 1) 10 && leb (t + 5000 * (n + 1)) now) (failed_attempts-retry_count ts r))
