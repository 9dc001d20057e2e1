-- ===== src/Auth/Guards.antt =====
-- common/guards: the admission of a request to an endpoint, in the order of main.ts.
use native.Mathlib.Decide.{ℕ_discrete}
use sms_platform_backend.Base.{
  ℕ, Bool, true, false, not, ◌&&◌, Option, none, some, List, [], ◌∷◌, ◌==◌, same, if◌then◌else◌,
  any_row, Result, ok, err, missing_api_key, missing_bearer, bad_bearer, insufficient_role,
  no_session, reauth_missing, bad_reauth, reauth_mismatch,
}
use sms_platform_backend.Database.{Text}
use sms_platform_backend.Strings.{drop}
use sms_platform_backend.Submission.Content.{starts_with}
use sms_platform_backend.Auth.Keys.{KeyTable, ApiPrincipal, validate_api_key}
use sms_platform_backend.Auth.Sessions.{Role, JwtClaims, TokenPayload, Jwt}

unfoldable pub Role-discrete : Discrete Role
Role-discrete = hlevel ℕ_discrete

-- The headers that the guards read.
pub record Request : Type 0 where
  pub api_key_header : Option Text
  pub authorization : Option Text
  pub reauth_header : Option Text

pub data RouteGuard : Type 0 where
  by_api_key by_reauth : RouteGuard

-- What the decorators of an endpoint say.
pub record Endpoint : Type 0 where
  pub is_public : Bool
  pub allowed_roles : List Role
  pub route_guards : List RouteGuard

-- `request.user` and `request.apiPrincipal`
pub record Admitted : Type 0 where
  pub user : Option JwtClaims
  pub principal : Option ApiPrincipal

-- 'Bearer '
abbrev pub bearer : Text
bearer = b'B' ∷ b'e' ∷ b'a' ∷ b'r' ∷ b'e' ∷ b'r' ∷ b' ' ∷ []

-- A header that is there and is not empty.
abbrev pub non_empty : Option Text → Option Text
non_empty (some (u ∷ us)) = some (u ∷ us)
non_empty _ = none

-- The token of an `authorization` header.
unfoldable pub bearer_token : Option Text → Option Text
unfolding starts_with drop
bearer_token none = none
bearer_token (some header) = if starts_with bearer header then some (drop 7 header) else none

abbrev pub same_number : Option ℕ → Option ℕ → Bool
same_number none none = true
same_number (some a) (some b) = a == b
same_number _ _ = false

-- The claims of the token are those of the session.
unfoldable pub same_session : JwtClaims → JwtClaims → Bool
same_session token session =
    token.sub == session.sub
    && (token.claims_tenant == session.claims_tenant
        && same_number token.home_tenant session.home_tenant)

abbrev pub has_role : List Role → Option JwtClaims → Bool
has_role roles none = false
has_role roles (some claims) = any_row (λ r. same Role-discrete r claims.role) roles

-- `RolesGuard`
unfoldable pub roles_guard : List Role → Option JwtClaims → Result (Option JwtClaims)
roles_guard [] user = ok user
roles_guard (r ∷ rs) user = if has_role (r ∷ rs) user then ok user else err insufficient_role

-- The checks of `ReauthGuard` on the payload of its token.
unfoldable pub reauth_payload_guard : JwtClaims → Option TokenPayload → Result (Unit {0})
unfolding same_session
reauth_payload_guard session none = err bad_reauth
reauth_payload_guard session (some payload) =
    if not (payload.kind_reauth && payload.scope_dangerous)
    then err bad_reauth
    else if same_session payload.claims session
    then ok tt
    else err reauth_mismatch

unfoldable pub verified : Option TokenPayload → Result (Option JwtClaims)
verified none = err bad_bearer
verified (some payload) = ok (some payload.claims)

unfoldable pub with_principal :
    Admitted → Result ApiPrincipal × KeyTable → Result Admitted × KeyTable
with_principal a (err e, w) = (err e, w)
with_principal a (ok p, w) = (ok (record a { principal = some p }), w)

unfoldable pub after_reauth : Admitted → Result (Unit {0}) → KeyTable → Result Admitted × KeyTable
after_reauth a (err e) w = (err e, w)
after_reauth a (ok u) w = (ok a, w)

unfoldable pub after_roles : Result (Option JwtClaims) → List Role → Result (Option JwtClaims)
unfolding roles_guard
after_roles (err e) roles = err e
after_roles (ok user) roles = roles_guard roles user

unfoldable pub admitted_as : Result (Option JwtClaims) → Result Admitted
admitted_as (err e) = err e
admitted_as (ok user) = ok (record { user = user; principal = none })

module _ (jwt : Jwt) (scrypt : Text → ℕ → Text) (now : ℕ) where
  unfoldable pub bearer_guard : Option Text → Result (Option JwtClaims)
  unfolding verified
  bearer_guard none = err missing_bearer
  bearer_guard (some token) = verified (jwt.verify token now)

  -- A request with an API key is let through, and left to `ApiKeyGuard`.
  unfoldable pub unless_key : Option Text → Option Text → Result (Option JwtClaims)
  unfolding bearer_guard
  unless_key (some key) token = ok none
  unless_key none token = bearer_guard token

  -- `JwtAuthGuard`
  unfoldable pub jwt_guard : Bool → Request → Result (Option JwtClaims)
  unfolding unless_key bearer_token
  jwt_guard true request = ok none
  jwt_guard false request =
      unless_key (non_empty request.api_key_header) (bearer_token request.authorization)

  -- `ReauthGuard`
  unfoldable pub reauth_guard : Option JwtClaims → Option Text → Result (Unit {0})
  unfolding reauth_payload_guard
  reauth_guard none header = err no_session
  reauth_guard (some session) none = err reauth_missing
  reauth_guard (some session) (some token) = reauth_payload_guard session (jwt.verify token now)

  -- `ApiKeyGuard`
  unfoldable pub api_key_guard : Option Text → KeyTable → Result ApiPrincipal × KeyTable
  api_key_guard none w = (err missing_api_key, w)
  api_key_guard (some key) w = validate_api_key scrypt now key w

  unfoldable pub run_guard : RouteGuard → Request → Admitted → KeyTable → Result Admitted × KeyTable
  unfolding with_principal after_reauth
  run_guard by_api_key request a w =
      with_principal a (api_key_guard (non_empty request.api_key_header) w)
  run_guard by_reauth request a w =
      after_reauth a (reauth_guard a.user (non_empty request.reauth_header)) w

  unfoldable pub run_guards :
      List RouteGuard → Request → Result Admitted × KeyTable → Result Admitted × KeyTable
  unfolding run_guard
  run_guards guards request (err e, w) = (err e, w)
  run_guards [] request (ok a, w) = (ok a, w)
  run_guards (g ∷ gs) request (ok a, w) = run_guards gs request (run_guard g request a w)

  -- The guards of main.ts, then those of the route.
  unfoldable pub admit : Endpoint → Request → KeyTable → Result Admitted × KeyTable
  unfolding jwt_guard after_roles admitted_as run_guards
  admit endpoint request w =
      run_guards endpoint.route_guards request
        (admitted_as (after_roles (jwt_guard endpoint.is_public request) endpoint.allowed_roles), w)
