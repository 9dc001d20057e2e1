-- ===== src/Auth/Admitted.antt =====
-- What the guards of common/guards let through.
use sms_platform_backend.Base.{
  ℕ, ◌≡◌, refl, sym, ap, subst, ◌∙◌, inl, inr, Bool, true, false, ◌&&◌, Option, none, some, List,
  [], ◌∷◌, any_row, Result, ok, err, arith, Bool-cases,
}
use sms_platform_backend.Database.{Text}
use sms_platform_backend.Auth.Keys.{KeyTable, ApiPrincipal}
use sms_platform_backend.Auth.Sessions.{Role, JwtClaims, TokenPayload, Jwt}
use sms_platform_backend.Auth.Guards.{
  Request, RouteGuard, by_api_key, by_reauth, Admitted, non_empty, bearer_token, same_session,
  has_role, roles_guard, reauth_payload_guard, verified, with_principal, after_reauth, after_roles,
  admitted_as, bearer_guard, unless_key, jwt_guard, reauth_guard, api_key_guard, run_guard,
  run_guards, admit,
}

abbrev pub is_reauth : RouteGuard → Bool
is_reauth by_reauth = true
is_reauth by_api_key = false

module _ (jwt : Jwt) (scrypt : Text → ℕ → Text) (now : ℕ) where
  -- The bearer token of the request verifies, and carries the claims.
  abbrev pub Bears : Request → JwtClaims → Type 0
  Bears request claims =
      (token : Text) × (payload : TokenPayload) × (bearer_token request.authorization ≡ some token)
      × (jwt.verify token now ≡ some payload)
      × (payload.claims ≡ claims)

  -- The second token of the request verifies, and confirms the password for the same session.
  abbrev pub Confirms : Request → Option JwtClaims → Type 0
  Confirms request user =
      (claims : JwtClaims) × (token : Text) × (payload : TokenPayload) × (user ≡ some claims)
      × (non_empty request.reauth_header ≡ some token)
      × (jwt.verify token now ≡ some payload)
      × ((payload.kind_reauth && payload.scope_dangerous) ≡ true)
      × (same_session payload.claims claims ≡ true)

  payload_confirms :
      (claims : JwtClaims) (o : Option TokenPayload)
      → reauth_payload_guard claims o ≡ ok tt
      → (payload : TokenPayload) × (o ≡ some payload)
        × ((payload.kind_reauth && payload.scope_dangerous) ≡ true)
        × (same_session payload.claims claims ≡ true)
  unfolding reauth_payload_guard
  payload_confirms claims none h = cc
  payload_confirms claims (some payload) h =
      elim (Bool-cases (payload.kind_reauth && payload.scope_dangerous)) [
        | inl kind ↦ elim (Bool-cases (same_session payload.claims claims)) [
          | inl same ↦ (payload, refl, kind, same)
          | inr other ↦ ground arith
        ]
        | inr no_kind ↦ ground arith
      ]

  guard_confirms :
      (request : Request) (user : Option JwtClaims) (header : Option Text)
      → non_empty request.reauth_header ≡ header
      → reauth_guard jwt scrypt now user header ≡ ok tt
      → Confirms request user
  unfolding reauth_guard
  guard_confirms request none header e h = cc
  guard_confirms request (some claims) none e h = cc
  guard_confirms request (some claims) (some token) e h =
      let (payload, verifies, kind, same) = payload_confirms claims (jwt.verify token now) h in
      (claims, token, payload, refl, e, verifies, kind, same)

  -- A guard of the route leaves the user, and a confirmation was asked for where it must be.
  Passed : List RouteGuard → Request → Admitted → Admitted → Type 0
  Passed guards request a a' =
      (a'.user ≡ a.user) × (any_row is_reauth guards ≡ true → Confirms request a.user)

  after_reauth_ok :
      (request : Request) (a a' : Admitted) (r : Result (Unit {0})) (w : KeyTable)
      → (after_reauth a r w).0 ≡ ok a'
      → (r ≡ ok tt) × (a ≡ a')
  unfolding after_reauth
  after_reauth_ok request a a' (err e) w h = cc
  after_reauth_ok request a a' (ok tt) w h = (refl, cc)

  with_principal_ok :
      (a a' : Admitted) (r : Result ApiPrincipal × KeyTable)
      → (with_principal a r).0 ≡ ok a'
      → a'.user ≡ a.user
  unfolding with_principal
  with_principal_ok a a' (err e, w) h = cc
  with_principal_ok a a' (ok p, w) h = ap (λ r. user_or a.user r) (sym h)
    where
      user_or : Option JwtClaims → Result Admitted → Option JwtClaims
      user_or u (ok x) = x.user
      user_or u (err e) = u

  guard_passes :
      (g : RouteGuard) (request : Request) (a a' : Admitted) (w : KeyTable)
      → (run_guard jwt scrypt now g request a w).0 ≡ ok a'
      → Passed (g ∷ []) request a a'
  unfolding run_guard Passed
  guard_passes by_api_key request a a' w h = (
    with_principal_ok a a' (api_key_guard jwt scrypt now (non_empty request.api_key_header) w) h,
    λ q. cc,
  )
  guard_passes by_reauth request a a' w h =
      let (passed, same) =
        after_reauth_ok request a a'
          (reauth_guard jwt scrypt now a.user (non_empty request.reauth_header)) w h in
      (
        ap (λ x. x.user) (sym same),
        λ q. guard_confirms request a.user (non_empty request.reauth_header) refl passed,
      )

  guards_pass :
      (guards : List RouteGuard) (request : Request) (r : Result Admitted × KeyTable)
      (a' : Admitted)
      → (run_guards jwt scrypt now guards request r).0 ≡ ok a'
      → (a : Admitted) × (r.0 ≡ ok a) × Passed guards request a a'
  unfolding run_guards Passed
  guards_pass [] request (err e, w) a' h = cc
  guards_pass (g ∷ gs) request (err e, w) a' h = cc
  guards_pass [] request (ok a, w) a' h =
      (a, refl, ((let same : a ≡ a' = cc in ap (λ x. x.user) (sym same)), λ q. cc))
  guards_pass (g ∷ gs) request (ok a, w) a' h =
      let (mid, first, passed) =
        guards_pass gs request (run_guard jwt scrypt now g request a w) a' h in
      let (same_user, asked) = guard_passes g request a mid w first in
      (
        a,
        refl,
        (
          passed.0 ∙ same_user,
          λ q. elim (Bool-cases (is_reauth g)) [
            | inl e ↦ asked (ground arith)
            | inr e ↦ subst (Confirms request) same_user (passed.1 (ground arith))
          ],
        ),
      )

  role_passes :
      (role : Role) (roles : List Role) (r : Result (Option JwtClaims)) (a : Admitted)
      → admitted_as (after_roles r (role ∷ roles)) ≡ ok a
      → (claims : JwtClaims) × (r ≡ ok (some claims))
        × (a.user ≡ some claims)
        × (has_role (role ∷ roles) (some claims) ≡ true)
  unfolding admitted_as after_roles roles_guard
  role_passes role roles (err e) a h = cc
  role_passes role roles (ok none) a h = cc
  role_passes role roles (ok (some claims)) a h =
      elim (Bool-cases (has_role (role ∷ roles) (some claims))) [
        | inl e ↦ (claims, refl, ground arith, e)
        | inr e ↦ ground arith
      ]

  key_or_bearer :
      (request : Request) (key token : Option Text) (claims : JwtClaims)
      → bearer_token request.authorization ≡ token
      → unless_key jwt scrypt now key token ≡ ok (some claims)
      → Bears request claims
  unfolding unless_key bearer_guard
  key_or_bearer request (some key) token claims e h = cc
  key_or_bearer request none none claims e h = cc
  key_or_bearer request none (some token) claims e h =
      let (payload, verifies, same) = verified_lem (jwt.verify token now) h in
      (token, payload, e, verifies, same)
    where
      verified_lem :
          (o : Option TokenPayload)
          → verified o ≡ ok (some claims)
          → (payload : TokenPayload) × (o ≡ some payload) × (payload.claims ≡ claims)
      verified_lem none h = cc
      verified_lem (some payload) h = (payload, refl, cc)

  -- If the guards admit a request to an endpoint that is not public and asks for a role, the user
  -- of the request is that of a bearer token which verifies at the time, and has one of the roles,
  -- also where the request has an API key; and if the endpoint asks for a confirmed password, a
  -- second token verifies, is one for dangerous actions, and is for the same user, tenant and home.
  pub admitted_by_role :
      (role : Role) (roles : List Role) (guards : List RouteGuard) (request : Request)
      (w : KeyTable) (a : Admitted)
      → (admit jwt scrypt now
          (record { is_public = false; allowed_roles = role ∷ roles; route_guards = guards })
          request
          w).0
        ≡ ok a
      → (claims : JwtClaims) × (a.user ≡ some claims)
        × Bears request claims
        × (has_role (role ∷ roles) (some claims) ≡ true)
        × (any_row is_reauth guards ≡ true → Confirms request (some claims))
  unfolding admit jwt_guard Passed
  admitted_by_role role roles guards request w a h =
      let (first, admitted, passed) =
        guards_pass guards request
          (admitted_as (after_roles (jwt_guard jwt scrypt now false request) (role ∷ roles)), w) a
          h in
      let (claims, claimed, user, has) =
        role_passes role roles (jwt_guard jwt scrypt now false request) first admitted in
      (
        claims,
        passed.0 ∙ user,
        key_or_bearer request (non_empty request.api_key_header)
            (bearer_token request.authorization) claims refl claimed,
        has,
        λ q. subst (Confirms request) user (passed.1 q),
      )

  -- Any API key header opens an endpoint that asks for nothing else.
  pub admitted_unknown :
      (u : ℕ) (key : Text) (authorization reauth_header : Option Text) (w : KeyTable)
      → admit jwt scrypt now
          (record { is_public = false; allowed_roles = []; route_guards = [] })
          (record {
            api_key_header = some (u ∷ key);
            authorization = authorization;
            reauth_header = reauth_header;
          })
          w
        ≡ (ok (record { user = none; principal = none }), w)
  unfolding admit jwt_guard
  admitted_unknown u key authorization reauth_header w = refl
