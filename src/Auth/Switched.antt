-- ===== src/Auth/Switched.antt =====
-- Sessions of auth/auth.service.ts over time: switches of the tenant, and a confirmed password.
use sms_platform_backend.Base.{
  ℕ, ◌+◌, ◌*◌, ◌<◌, ◌≡◌, refl, sym, ap, ◌∙◌, Bool, true, false, Option, none, some, List, [], ◌∷◌,
  find_first, find_first_holds, is_some, All, All-map, Error, Result, ok, err, arith, Bool-cases,
  Result-cases, inl, inr, subst, if◌then◌else◌, reauth_mismatch, password_not_confirmed,
}
use sms_platform_backend.Database.{Text}
use sms_platform_backend.Auth.Sessions.{
  JwtClaims, TokenPayload, Jwt, Crypto, UserRow, TenantRow, AuthTables, home_of, is_user_of,
  is_tenant, switch_to, switch_tenant, can_use_cross_tenant, confirm, verify_password,
  reauth_payload, reauth_as, reauthenticate,
}
use sms_platform_backend.Auth.Guards.{same_session, reauth_payload_guard, reauth_guard}

abbrev pub and_then : Result JwtClaims → (JwtClaims → Result JwtClaims) → Result JwtClaims
and_then (err e) f = err e
and_then (ok claims) f = f claims

-- Switches one after another, each on the tables at its time.
unfoldable pub switches : List (AuthTables × ℕ) → JwtClaims → Result JwtClaims
switches [] claims = ok claims
switches ((db, tenant) ∷ steps) claims =
    and_then (switch_tenant db claims tenant) (λ next. switches steps next)

-- The session's user, at home, and the tenant are active in the tables.
abbrev pub MaySwitch : JwtClaims → AuthTables × ℕ → Type 0
MaySwitch claims (db, tenant) =
    (u : UserRow) × (t : TenantRow) × (find_first (is_user_of claims.sub (home_of claims)) db.users
      ≡ some u)
    × (u.user_active ≡ true)
    × (find_first (is_tenant tenant) db.tenants ≡ some t)
    × (t.tenant_active ≡ true)

-- The same user with the same home.
abbrev pub SameOrigin : JwtClaims → JwtClaims → Type 0
SameOrigin claims next = (next.sub ≡ claims.sub) × (home_of next ≡ home_of claims)

switch_to_ok :
    (claims next : JwtClaims) (ou : Option UserRow) (ot : Option TenantRow)
    → switch_to claims ou ot ≡ ok next
    → (u : UserRow) × (t : TenantRow) × (ou ≡ some u)
      × (u.user_active ≡ true)
      × (ot ≡ some t)
      × (t.tenant_active ≡ true)
      × (next.sub ≡ u.user_id)
      × (home_of next ≡ home_of claims)
unfolding switch_to
switch_to_ok claims next none ot h = cc
switch_to_ok claims next (some u) none h = cc
switch_to_ok claims next (some u) (some t) h = elim (Bool-cases u.user_active) [
  | inr off ↦ ground arith
  | inl on ↦ elim (Bool-cases t.tenant_active) [
    | inr closed ↦ ground arith
    | inl live ↦ (u, t, refl, on, refl, live, ground arith, ground arith)
  ]
]

switch_ok :
    (db : AuthTables) (tenant : ℕ) (claims next : JwtClaims)
    → switch_tenant db claims tenant ≡ ok next
    → MaySwitch claims (db, tenant) × SameOrigin claims next
unfolding switch_tenant
switch_ok db tenant claims next h = elim (Bool-cases (can_use_cross_tenant claims)) [
  | inr refused ↦ ground arith
  | inl cross ↦
      (let q = is_user_of claims.sub (home_of claims) in
        let (u, t, user, on, found, live, sub, home) =
          switch_to_ok claims next (find_first q db.users)
            (find_first (is_tenant tenant) db.tenants) (ground arith) in
        let same : u.user_id ≡ claims.sub = ground (arith, find_first_holds q db.users u user) in
        ((u, t, user, on, found, live), (sub ∙ same, home)))
]

transport_may :
    (claims next : JwtClaims) (step : AuthTables × ℕ)
    → SameOrigin claims next
    → MaySwitch next step
    → MaySwitch claims step
transport_may claims next (db, tenant) (sub, home) (u, t, user, on, found, live) = (
  u,
  t,
  subst (λ home. find_first (is_user_of claims.sub home) db.users ≡ some u) home
      (subst (λ id. find_first (is_user_of id (home_of next)) db.users ≡ some u) sub user),
  on,
  found,
  live,
)

-- If switches of the tenant one after another, each on tables of its own, all return, the last
-- session is of the same user with the same home as the first, and at each switch the row of that
-- user in its home tenant and the row of the tenant switched to were active.
pub switches-SameOrigin :
    (steps : List (AuthTables × ℕ)) (claims next : JwtClaims)
    → switches steps claims ≡ ok next
    → SameOrigin claims next × All (MaySwitch claims) steps
unfolding switches
switches-SameOrigin [] claims next h =
    (let same : claims ≡ next = cc in (ap (λ c. c.sub) (sym same), ap home_of (sym same)), tt)
switches-SameOrigin ((db, tenant) ∷ steps) claims next h =
    elim (Result-cases (switch_tenant db claims tenant)) [
      | inr (e, failed) ↦ ground arith
      | inl (mid, done) ↦
          (let (may, (sub, home)) = switch_ok db tenant claims mid done in
            let ((sub', home'), all) =
              switches-SameOrigin steps mid next
                (subst (λ r. and_then r (λ n. switches steps n) ≡ ok next) done h) in
            (
              (sub' ∙ sub, home' ∙ home),
              (may, All-map steps (λ step m. transport_may claims mid step (sub, home) m) all),
            ))
    ]

-- What a token service is documented to do: a signed payload is read back until it expires.
abbrev pub ReadsBack : Jwt → TokenPayload → Type 0
ReadsBack jwt payload =
    (now time later : ℕ)
    → later < now + time
    → jwt.verify (jwt.sign payload now time) later ≡ some payload

confirm_ok {ℓ} : {A : Type ℓ} (r : Result Bool) (e : Error) (a b : A) → confirm r e a ≡ ok b → a ≡ b
unfolding confirm
confirm_ok (err x) e a b h = cc
confirm_ok (ok false) e a b h = cc
confirm_ok (ok true) e a b h = cc

reauth_token :
    (crypto : Crypto) (jwt : Jwt) (now : ℕ) (claims : JwtClaims) (password token : Text)
    (ou : Option UserRow)
    → reauth_as crypto jwt now claims password ou ≡ ok token
    → jwt.sign (reauth_payload claims) now (300 * 1000) ≡ token
unfolding reauth_as
reauth_token crypto jwt now claims password token none h = cc
reauth_token crypto jwt now claims password token (some u) h = elim (Bool-cases u.user_active) [
  | inr off ↦ ground arith
  | inl on ↦
      confirm_ok (verify_password crypto password u.password_hash) password_not_confirmed
        (jwt.sign (reauth_payload claims) now (300 * 1000)) token (ground arith)
]

same_session_self :
    (claims : JwtClaims)
    → same_session (reauth_payload claims).claims claims ≡ is_some claims.home_tenant
unfolding same_session reauth_payload
same_session_self claims = ground arith

-- If the token service reads the signed payload back until it expires, then for five minutes the
-- token that `reauthenticate` returned passes `ReauthGuard` for the session if that names its home
-- tenant, and is refused as one of another session otherwise.
pub reauth_guard-reauthenticate :
    (crypto : Crypto) (jwt : Jwt) (scrypt : Text → ℕ → Text) (now later : ℕ) (db : AuthTables)
    (claims : JwtClaims) (password token : Text)
    → ReadsBack jwt (reauth_payload claims)
    → reauthenticate crypto jwt now db claims password ≡ ok token
    → later < now + 300 * 1000
    → reauth_guard jwt scrypt later (some claims) (some token)
      ≡ (if is_some claims.home_tenant then ok tt else err reauth_mismatch)
unfolding reauthenticate reauth_guard reauth_payload_guard
reauth_guard-reauthenticate crypto jwt scrypt now later db claims password token laws h soon =
    let signed =
      reauth_token crypto jwt now claims password token
        (find_first (is_user_of claims.sub (home_of claims)) db.users) h in
    let reads = laws now (300 * 1000) later soon in
    ap (λ t. reauth_payload_guard claims (jwt.verify t later)) (sym signed)
    ∙ ap (reauth_payload_guard claims) reads
    ∙ ap (λ b. if b then ok tt else err reauth_mismatch) (same_session_self claims)
