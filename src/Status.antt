-- ===== src/Status.antt =====
-- messages/messages.types.ts: the statuses of a message, their transitions, and its identity.
use sms_platform_backend.Base.{
  ℕ, ◌≡◌, refl, ◌↔◌, Bool, true, false, ◌&&◌, List, [], ◌∷◌, arith, ◌==◌, any_row,
}

pub data MessageStatus : Type 0 where
  accepted routed submitting provider_accepted delivered failed : MessageStatus

-- `left === right` on statuses
unfoldable pub same_status : MessageStatus → MessageStatus → Bool
same_status accepted accepted = true
same_status routed routed = true
same_status submitting submitting = true
same_status provider_accepted provider_accepted = true
same_status delivered delivered = true
same_status failed failed = true
same_status _ _ = false

pub same_status_iff : (a b : MessageStatus) → (same_status a b ≡ true) ↔ (a ≡ b)
unfolding same_status
same_status_iff accepted b = (λ h. ground arith, λ h. ground arith)
same_status_iff routed b = (λ h. ground arith, λ h. ground arith)
same_status_iff submitting b = (λ h. ground arith, λ h. ground arith)
same_status_iff provider_accepted b = (λ h. ground arith, λ h. ground arith)
same_status_iff delivered b = (λ h. ground arith, λ h. ground arith)
same_status_iff failed b = (λ h. ground arith, λ h. ground arith)

-- `AllowedTransitions`
unfoldable pub allowed_transitions : MessageStatus → List MessageStatus
allowed_transitions accepted = routed ∷ []
allowed_transitions routed = submitting ∷ []
allowed_transitions submitting = provider_accepted ∷ failed ∷ []
allowed_transitions provider_accepted = delivered ∷ failed ∷ []
allowed_transitions delivered = []
allowed_transitions failed = []

-- `AllowedTransitions[from].includes(to)`
unfoldable pub allows : MessageStatus → MessageStatus → Bool
unfolding allowed_transitions same_status
allows from to = any_row (same_status to) (allowed_transitions from)

pub record MessageCompositeId : Type 0 where
  pub submit_date : ℕ
  pub tenant_id : ℕ
  pub id : ℕ

unfoldable pub same_ref : MessageCompositeId → MessageCompositeId → Bool
same_ref a b = a.submit_date == b.submit_date && (a.tenant_id == b.tenant_id && a.id == b.id)

pub same_ref_iff : (a b : MessageCompositeId) → (same_ref a b ≡ true) ↔ (a ≡ b)
unfolding same_ref
same_ref_iff a b = (λ h. ground arith, λ h. ground arith)

pub same_ref_self : (a : MessageCompositeId) → same_ref a a ≡ true
same_ref_self a = (same_ref_iff a a).1 refl
