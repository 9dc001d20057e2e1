-- ===== src/Base/Errors.antt =====
-- The exceptions that the modelled services throw, and computations that may throw.
use mathlib.Core.Bool.{Bool, true, false}
use mathlib.Core.Path.{◌≡◌, refl}
use mathlib.Core.Logic.{◌⊎◌, inl, inr}

-- One constructor for each `throw` of the modelled code, and `illegal_update` for the exception
-- of the database trigger on `messages`.
pub data Error : Type 0 where
  message_not_found wallet_not_found provider_not_found tenant_not_found : Error
  sender_not_registered sender_not_approved smpp_config_not_found : Error
  version_conflict invalid_transition illegal_update : Error
  insufficient_wallet insufficient_reserved_debit insufficient_reserved_release bad_bigint : Error
  missing_scope opted_out body_or_template_required empty_body bad_phone_number : Error
  template_not_found no_routing_rules no_route_candidates circuit_open_error rate_limited
        bad_bucket :
      Error
  fraud_blocked fraud_throttled service_unavailable other_error : Error
  malformed_api_key inactive_api_key expired_api_key invalid_api_key api_key_not_found : Error
  unique_violation bad_credentials bad_password_format password_not_confirmed : Error
  session_inactive tenant_inactive cross_tenant_forbidden cannot_switch : Error
  missing_api_key missing_bearer bad_bearer insufficient_role : Error
  no_session reauth_missing bad_reauth reauth_mismatch : Error
  missing_merge_fields : Error

pub data Result {ℓ} (A : Type ℓ) : Type ℓ where
  ok : A → Result A
  err : Error → Result A

abbrev pub is_ok {ℓ} : {A : Type ℓ} → Result A → Bool
is_ok (ok a) = true
is_ok (err e) = false

pub Result-cases {ℓ} :
    {A : Type ℓ} (r : Result A) → ((a : A) × (r ≡ ok a)) ⊎ ((e : Error) × (r ≡ err e))
Result-cases (ok a) = inl (a, refl)
Result-cases (err e) = inr (e, refl)
