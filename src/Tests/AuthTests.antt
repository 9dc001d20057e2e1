-- ===== src/Tests/AuthTests.antt =====
-- Keys, sessions and guards on concrete data.
use sms_platform_backend.Base.{
  ℕ, ◌≡◌, refl, true, none, some, List, [], ◌∷◌, ◌++◌, if◌then◌else◌, any_row, ok, err, is_some,
  reauth_mismatch, inactive_api_key, All, arith,
}
use sms_platform_backend.Database.{Text}
use sms_platform_backend.Strings.{split_on}
use sms_platform_backend.Auth.Keys.{
  ApiKeyRow, KeyTable, CreateApiKeyDto, RandomKey, prefix_of, create_api_key, created_key,
  validate_api_key, principal_of, raw_key,
}
use sms_platform_backend.Auth.Revoked.{
  KeyCall, validate_call, disable_call, after_calls, retire, retired_key_refused,
}
use sms_platform_backend.Auth.Issued.{issued_key_admitted}
use sms_platform_backend.Auth.Sessions.{
  owner, support, JwtClaims, TokenPayload, Jwt, Crypto, UserRow, AuthTables, scrypt_name,
  switch_tenant, reauthenticate, reauth_payload,
}
use sms_platform_backend.Auth.Guards.{
  Role-discrete, Request, by_reauth, Admitted, has_role, bearer, admit, reauth_guard, same_session,
}
use sms_platform_backend.Auth.Admitted.{is_reauth, Bears, Confirms, admitted_by_role}
use sms_platform_backend.Auth.Switched.{
  switches, SameOrigin, MaySwitch, switches-SameOrigin, reauth_guard-reauthenticate,
}

-- A digest for tests: the salt in front of the key.
abbrev digest : Text → ℕ → Text
digest key salt = salt ∷ key

abbrev random : RandomKey
random = record {
  random_prefix = b'a' ∷ b'1' ∷ [];
  random_secret = b'x' ∷ b'_' ∷ b'y' ∷ [];
  random_salt = 9;
}

abbrev dto : CreateApiKeyDto
dto = record {
  created_name = b'k' ∷ [];
  created_scopes = none;
  created_rate_limit = some 5;
  created_quota = none;
  expires_in_days = some 1;
}

abbrev no_keys : KeyTable
no_keys = record { api_keys = []; next_api_key = 1; key_audit = [] }

issued_key_admitted_example :
    ((create_api_key digest 1000 7 dto random no_keys).0
      ≡ ok (created_key digest 1000 7 dto random 1))
    × ((validate_api_key digest 2000
          (raw_key random)
          (create_api_key digest 1000 7 dto random no_keys).1).0
        ≡ ok (principal_of (created_key digest 1000 7 dto random 1)))
issued_key_admitted_example =
    issued_key_admitted digest 1000 2000 7 dto random no_keys refl refl refl

abbrev issued : ApiKeyRow
issued = created_key digest 1000 7 dto random 1

abbrev one_key : KeyTable
one_key = record { api_keys = issued ∷ []; next_api_key = 2; key_audit = [] }

abbrev later_calls : List KeyCall
later_calls = validate_call 1500 (raw_key random) ∷ disable_call 7 1 ∷ []

retired_key_refused_example :
    ((retire digest none 7 1 one_key).0 ≡ true)
    × ((validate_api_key digest 2000
          (raw_key random)
          (after_calls digest later_calls (retire digest none 7 1 one_key).1)).0
        ≡ err inactive_api_key)
unfolding created_key raw_key prefix_of split_on
retired_key_refused_example =
    retired_key_refused digest none 7 1 one_key issued later_calls 2000 (raw_key random) refl refl
      refl tt refl

-- A user of support at home in tenant 1, and two tenants. The digest of a password is the password.
abbrev user : UserRow
user = record {
  user_id = 3;
  user_tenant = 1;
  user_email = b'a' ∷ b'@' ∷ b'b' ∷ [];
  password_hash = scrypt_name ++ b'$' ∷ b's' ∷ b'$' ∷ b'p' ∷ b'w' ∷ [];
  user_role = support;
  user_active = true;
}

abbrev tables : AuthTables
tables = record {
  users = user ∷ [];
  tenants =
      record { tenant_key = 1; tenant_code = []; tenant_active = true }
      ∷ record { tenant_key = 2; tenant_code = []; tenant_active = true }
      ∷ [];
}

abbrev session : JwtClaims
session = record { sub = 3; claims_tenant = 1; home_tenant = some 1; role = support; email = none }

abbrev switched : JwtClaims
switched = record {
  sub = 3;
  claims_tenant = 1;
  home_tenant = some 1;
  role = support;
  email = some (b'a' ∷ b'@' ∷ b'b' ∷ []);
}

switches-SameOrigin_example :
    SameOrigin session switched × All (MaySwitch session) ((tables, 2) ∷ (tables, 1) ∷ [])
unfolding switches switch_tenant
switches-SameOrigin_example =
    switches-SameOrigin ((tables, 2) ∷ (tables, 1) ∷ []) session switched refl

-- A token service that reads every text as the confirmed session until one point in time.
abbrev payload : TokenPayload
payload = record { claims = session; kind_reauth = true; scope_dangerous = true }

abbrev admin_request : Request
admin_request = record {
  api_key_header = none;
  authorization = some (bearer ++ b't' ∷ []);
  reauth_header = some (b'r' ∷ []);
}

abbrev one_session : Jwt
one_session = record { sign = λ p now time. []; verify = λ text now. some payload }

confirmed : Confirms one_session digest 2000 admin_request (some session)
unfolding same_session
confirmed = (session, b'r' ∷ [], payload, refl, refl, refl, refl, refl)

abbrev admitted : Admitted
admitted = record { user = some session; principal = none }

admitted_by_role_example :
    (claims : JwtClaims) × (admitted.user ≡ some claims)
    × Bears one_session digest 2000 admin_request claims
    × (has_role (support ∷ owner ∷ []) (some claims) ≡ true)
    × (any_row is_reauth (by_reauth ∷ []) ≡ true
        → Confirms one_session digest 2000 admin_request (some claims))
unfolding admit same_session Role-discrete reauth_guard
admitted_by_role_example =
    admitted_by_role one_session digest 2000 support (owner ∷ []) (by_reauth ∷ []) admin_request
      no_keys admitted refl

abbrev plain : Crypto
plain = record { scrypt_hex = λ password salt. password; from_hex = λ t. t }

reauth_guard-reauthenticate_example :
    reauth_guard one_session digest 250000 (some session) (some [])
    ≡ (if is_some session.home_tenant then ok tt else err reauth_mismatch)
unfolding reauthenticate reauth_payload
reauth_guard-reauthenticate_example =
    reauth_guard-reauthenticate plain one_session digest 1000 250000 tables session
      (b'p' ∷ b'w' ∷ []) [] (λ now time later soon. refl) refl (omega arith)
