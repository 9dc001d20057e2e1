-- ===== src/Auth/Sessions.antt =====
-- Sessions of auth/auth.service.ts: `login`, `switchTenant`, `reauthenticate`, `getCurrentUser`.
-- Signing and verifying a token, scrypt and the hex decoding of Buffer are parameters. Audit rows and
-- metrics, which no modelled code reads back, are left out.
use sms_platform_backend.Base.{
  ℕ, ◌*◌, Bool, true, false, ◌&&◌, Option, none, some, List, [], ◌∷◌, ◌==◌, if◌then◌else◌, get_or,
  get_elem?, find_first, Error, Result, ok, err, bad_credentials, bad_password_format,
  password_not_confirmed, session_inactive, tenant_inactive, cross_tenant_forbidden, cannot_switch,
}
use sms_platform_backend.Database.{Text, same_text}
use sms_platform_backend.Strings.{split_on}

pub data Role : Type 0 where
  owner admin finance developer support viewer : Role
  other_role : ℕ → Role

-- `JwtClaims`
pub record JwtClaims : Type 0 where
  pub sub : ℕ
  pub claims_tenant : ℕ
  pub home_tenant : Option ℕ
  pub role : Role
  pub email : Option Text

-- What a token carries: the claims, and the `kind` and `scope` of `ReauthClaims`.
pub record TokenPayload : Type 0 where
  pub claims : JwtClaims
  pub kind_reauth : Bool
  pub scope_dangerous : Bool

-- JwtService with the configured keys: a token signed at a time for some milliseconds, and what a
-- text verifies to at a time.
pub record Jwt : Type 0 where
  pub sign : TokenPayload → ℕ → ℕ → Text
  pub verify : Text → ℕ → Option TokenPayload

-- scrypt with the salt in base64url, in hex; and the bytes of a hex text.
pub record Crypto : Type 0 where
  pub scrypt_hex : Text → Text → Text
  pub from_hex : Text → List ℕ

pub record UserRow : Type 0 where
  pub user_id : ℕ
  pub user_tenant : ℕ
  pub user_email : Text
  pub password_hash : Text
  pub user_role : Role
  pub user_active : Bool

pub record TenantRow : Type 0 where
  pub tenant_key : ℕ
  pub tenant_code : Text
  pub tenant_active : Bool

pub record AuthTables : Type 0 where
  pub users : List UserRow
  pub tenants : List TenantRow

pub record LoginDto : Type 0 where
  pub login_code : Text
  pub login_email : Text
  pub login_password : Text

-- `canUseCrossTenantScope`
unfoldable pub can_use_cross_tenant : JwtClaims → Bool
can_use_cross_tenant claims = elim claims.role [ admin ↦ true | support ↦ true | _ ↦ false ]

-- `resolveTenantScope`; an empty identity is left out like a missing one.
unfoldable pub resolve_tenant_scope : JwtClaims → Option ℕ → Result ℕ
unfolding can_use_cross_tenant
resolve_tenant_scope user none = ok user.claims_tenant
resolve_tenant_scope user (some requested) =
    if requested == user.claims_tenant
    then ok user.claims_tenant
    else if can_use_cross_tenant user
    then ok requested
    else err cross_tenant_forbidden

-- 'scrypt'
abbrev pub scrypt_name : Text
scrypt_name = b's' ∷ b'c' ∷ b'r' ∷ b'y' ∷ b'p' ∷ b't' ∷ []

-- A segment that is there and is not empty.
abbrev pub some_segment : Option Text → Option Text
some_segment (some (u ∷ us)) = some (u ∷ us)
some_segment _ = none

abbrev pub is_text : Text → Option Text → Bool
is_text t none = false
is_text t (some u) = same_text u t

-- `homeTenantId ?? tenantId`
abbrev pub home_of : JwtClaims → ℕ
home_of claims = get_or claims.home_tenant claims.claims_tenant

abbrev pub is_user_of : ℕ → ℕ → UserRow → Bool
is_user_of id tenant u = u.user_id == id && u.user_tenant == tenant

abbrev pub is_tenant : ℕ → TenantRow → Bool
is_tenant tenant t = t.tenant_key == tenant

abbrev pub user_on : Option UserRow → Bool
user_on none = false
user_on (some u) = u.user_active

abbrev pub tenant_on : Option TenantRow → Bool
tenant_on none = false
tenant_on (some t) = t.tenant_active

abbrev pub code_of : Option TenantRow → Option Text
code_of none = none
code_of (some t) = some t.tenant_code

-- The first user of the tenant with the code, by the address in lower case.
unfoldable pub login_user : (Text → Text) → AuthTables → LoginDto → Option UserRow
login_user lower db dto =
    find_first
      (λ u.
        same_text (lower u.user_email) (lower dto.login_email)
        && is_text dto.login_code (code_of (find_first (is_tenant u.user_tenant) db.tenants)))
      db.users

unfoldable pub current_of : Option UserRow → Option TenantRow → Result (UserRow × TenantRow)
current_of none tenant = err session_inactive
current_of (some u) none = err tenant_inactive
current_of (some u) (some t) = if t.tenant_active then ok (u, t) else err tenant_inactive

-- `if (!verifyPassword(...)) throw e`
unfoldable pub confirm {ℓ} : {A : Type ℓ} → Result Bool → Error → A → Result A
confirm (err e) refusal a = err e
confirm (ok false) refusal a = err refusal
confirm (ok true) refusal a = ok a

abbrev pub claims_of : UserRow → JwtClaims
claims_of u = record {
  sub = u.user_id;
  claims_tenant = u.user_tenant;
  home_tenant = some u.user_tenant;
  role = u.user_role;
  email = some u.user_email;
}

unfoldable pub reauth_payload : JwtClaims → TokenPayload
reauth_payload claims = record {
  claims = record claims { home_tenant = some (home_of claims) };
  kind_reauth = true;
  scope_dangerous = true;
}

module _ (crypto : Crypto) where
  -- The parts of a stored hash: the algorithm, the salt and the digest.
  unfoldable pub verify_parts : Text → Option Text → Option Text → Option Text → Result Bool
  verify_parts password (some algorithm) (some salt) (some digest) =
      if same_text algorithm scrypt_name
      then ok
          (same_text (crypto.from_hex (crypto.scrypt_hex password salt)) (crypto.from_hex digest))
      else err bad_password_format
  verify_parts password _ _ _ = err bad_password_format

  -- `verifyPassword`
  unfoldable pub verify_password : Text → Text → Result Bool
  unfolding verify_parts split_on
  verify_password password stored =
      let parts = split_on b'$' stored in
      verify_parts password (get_elem? parts 0) (some_segment (get_elem? parts 1))
        (some_segment (get_elem? parts 2))

  unfoldable pub login_as : AuthTables → Text → Option UserRow → Result JwtClaims
  unfolding confirm verify_password
  login_as db password none = err bad_credentials
  login_as db password (some u) =
      if u.user_active && tenant_on (find_first (is_tenant u.user_tenant) db.tenants)
      then confirm (verify_password password u.password_hash) bad_credentials (claims_of u)
      else err bad_credentials

  -- `login`: the claims of the token.
  unfoldable pub login : (Text → Text) → AuthTables → LoginDto → Result JwtClaims
  unfolding login_as login_user
  login lower db dto = login_as db dto.login_password (login_user lower db dto)

  unfoldable pub reauth_as : Jwt → ℕ → JwtClaims → Text → Option UserRow → Result Text
  unfolding confirm verify_password reauth_payload
  reauth_as jwt now claims password none = err session_inactive
  reauth_as jwt now claims password (some u) =
      if u.user_active
      then confirm (verify_password password u.password_hash) password_not_confirmed
          (jwt.sign (reauth_payload claims) now (300 * 1000))
      else err session_inactive

  -- `reauthenticate`
  unfoldable pub reauthenticate : Jwt → ℕ → AuthTables → JwtClaims → Text → Result Text
  unfolding reauth_as
  reauthenticate jwt now db claims password =
      reauth_as jwt now claims password
        (find_first (is_user_of claims.sub (home_of claims)) db.users)

unfoldable pub switch_to : JwtClaims → Option UserRow → Option TenantRow → Result JwtClaims
switch_to claims (some u) (some t) =
    if u.user_active && t.tenant_active
    then ok (record {
      sub = u.user_id;
      claims_tenant = t.tenant_key;
      home_tenant = some (home_of claims);
      role = u.user_role;
      email = some u.user_email;
    })
    else err cannot_switch
switch_to claims _ _ = err cannot_switch

-- `switchTenant`: the claims of the next token. The role that is asked is that of the old token.
unfoldable pub switch_tenant : AuthTables → JwtClaims → ℕ → Result JwtClaims
unfolding switch_to can_use_cross_tenant
switch_tenant db claims tenant =
    if can_use_cross_tenant claims
    then switch_to claims (find_first (is_user_of claims.sub (home_of claims)) db.users)
        (find_first (is_tenant tenant) db.tenants)
    else err cross_tenant_forbidden

-- `getCurrentUser`, without the list of tenants.
unfoldable pub get_current_user : AuthTables → JwtClaims → Result (UserRow × TenantRow)
get_current_user db claims =
    current_of
      (find_first (λ u. is_user_of claims.sub (home_of claims) u && u.user_active) db.users)
      (find_first (is_tenant claims.claims_tenant) db.tenants)
