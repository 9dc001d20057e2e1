-- ===== src/Auth/Keys.antt =====
-- The API keys of auth/auth.service.ts. The random parts of a key and scrypt are arguments; salts
-- and identities are numbers. The column `last_rotated_at`, which nothing reads, is left out.
use sms_platform_backend.Base.{
  ℕ, ◌+◌, ◌*◌, Bool, true, false, not, ◌&&◌, Option, none, some, List, [], ◌∷◌, ◌++◌, ◌==◌, ltb,
  if◌then◌else◌, get_or, get_elem?, find_first, update_first, any_row, length, Result, ok, err,
  malformed_api_key, inactive_api_key, expired_api_key, invalid_api_key, api_key_not_found,
  unique_violation,
}
use sms_platform_backend.Database.{Text, same_text}
use sms_platform_backend.Strings.{split_on}
use sms_platform_backend.Workflow.Services.{truthy}

-- `scopes`; `sms_send` is 'sms:send'.
pub data Scope : Type 0 where
  sms_send : Scope
  other_scope : ℕ → Scope

pub record ApiKeyRow : Type 0 where
  pub api_key_id : ℕ
  pub api_key_tenant : ℕ
  pub key_prefix : Text
  pub key_hash : Text
  pub key_salt : ℕ
  pub key_name : Text
  pub key_scopes : List Scope
  pub key_rate_limit : Option ℕ
  pub key_daily_quota : Option ℕ
  pub key_active : Bool
  pub key_last_used : Option ℕ
  pub key_expires : Option ℕ

-- The rows that the service writes to `audit_logs`.
pub data KeyAudit : Type 0 where
  key_created key_disabled : ℕ → ℕ → KeyAudit
  key_rotated : ℕ → ℕ → ℕ → KeyAudit

-- `api_keys`, with the next result of gen_random_uuid().
pub record KeyTable : Type 0 where
  pub api_keys : List ApiKeyRow
  pub next_api_key : ℕ
  pub key_audit : List KeyAudit

pub record CreateApiKeyDto : Type 0 where
  pub created_name : Text
  pub created_scopes : Option (List Scope)
  pub created_rate_limit : Option ℕ
  pub created_quota : Option ℕ
  pub expires_in_days : Option ℕ

pub record RotateApiKeyDto : Type 0 where
  pub rotated_name : Option Text
  pub rotated_scopes : Option (List Scope)

-- `ApiPrincipal`
pub record ApiPrincipal : Type 0 where
  pub principal_key : ℕ
  pub principal_tenant : ℕ
  pub principal_name : Text
  pub principal_scopes : List Scope
  pub principal_rate_limit : Option ℕ
  pub principal_quota : Option ℕ

-- The three calls of randomBytes, in hex, base64url and raw.
pub record RandomKey : Type 0 where
  pub random_prefix : Text
  pub random_secret : Text
  pub random_salt : ℕ

abbrev pub underscore : ℕ
underscore = b'_'

-- `sk_live_${prefix}_${secret}`
unfoldable pub raw_key : RandomKey → Text
raw_key random =
    (b's' ∷ b'k' ∷ [])
    ++ underscore
      ∷ ((b'l' ∷ b'i' ∷ b'v' ∷ b'e' ∷ [])
          ++ underscore ∷ (random.random_prefix ++ underscore ∷ random.random_secret))

abbrev pub has_prefix : Text → ApiKeyRow → Bool
has_prefix prefix row = same_text row.key_prefix prefix

abbrev pub is_key : ℕ → ApiKeyRow → Bool
is_key id row = row.api_key_id == id

abbrev pub is_key_of : ℕ → ℕ → ApiKeyRow → Bool
is_key_of tenant id row = row.api_key_id == id && row.api_key_tenant == tenant

abbrev pub deactivated : ApiKeyRow → ApiKeyRow
deactivated row = record row { key_active = false }

-- `expiresInDays ? new Date(Date.now() + days) : null`
abbrev pub expiry_of : ℕ → Option ℕ → Option ℕ
expiry_of now days = elim (truthy days) [ none ↦ none | some d ↦ some (now + d * 86400000) ]

-- An INSERT under the unique `key_prefix`; where it throws, the transaction leaves the old table.
unfoldable pub insert_key : KeyTable → ApiKeyRow → KeyAudit → KeyTable → Result ApiKeyRow × KeyTable
insert_key old row audit w =
    if any_row (has_prefix row.key_prefix) w.api_keys then (err unique_violation, old) else (
      ok row,
      record w {
        api_keys = w.api_keys ++ row ∷ [];
        next_api_key = w.next_api_key + 1;
        key_audit = audit ∷ w.key_audit;
      },
    )

abbrev pub principal_of : ApiKeyRow → ApiPrincipal
principal_of row = record {
  principal_key = row.api_key_id;
  principal_tenant = row.api_key_tenant;
  principal_name = row.key_name;
  principal_scopes = row.key_scopes;
  principal_rate_limit = row.key_rate_limit;
  principal_quota = row.key_daily_quota;
}

-- 'Rotated key'
abbrev pub rotated_key_name : Text
rotated_key_name = b'R' ∷ b'o' ∷ b't' ∷ b'a' ∷ b't' ∷ b'e' ∷ b'd' ∷ b' ' ∷ b'k' ∷ b'e' ∷ b'y' ∷ []

-- `expires_at && expires_at < Date.now()`
abbrev pub is_past : ℕ → Option ℕ → Bool
is_past now none = false
is_past now (some end) = ltb end now

abbrev pub used_at : ℕ → ApiKeyRow → ApiKeyRow
used_at now row = record row { key_last_used = some now }

-- `segments[2]` of a key with four segments or more.
unfoldable pub prefix_of : Text → Option Text
unfolding split_on
prefix_of key =
    let segments = split_on underscore key in
    if ltb (length segments) 4 then none else get_elem? segments 2

module _ (scrypt : Text → ℕ → Text) where
  unfoldable pub created_key : ℕ → ℕ → CreateApiKeyDto → RandomKey → ℕ → ApiKeyRow
  created_key now tenant dto random id = record {
    api_key_id = id;
    api_key_tenant = tenant;
    key_prefix = random.random_prefix;
    key_hash = scrypt (raw_key random) random.random_salt;
    key_salt = random.random_salt;
    key_name = dto.created_name;
    key_scopes = get_or dto.created_scopes (sms_send ∷ []);
    key_rate_limit = dto.created_rate_limit;
    key_daily_quota = dto.created_quota;
    key_active = true;
    key_last_used = none;
    key_expires = expiry_of now dto.expires_in_days;
  }

  -- `createApiKey`
  unfoldable pub create_api_key :
      ℕ → ℕ → CreateApiKeyDto → RandomKey → KeyTable → Result ApiKeyRow × KeyTable
  unfolding insert_key
  create_api_key now tenant dto random w =
      insert_key w (created_key now tenant dto random w.next_api_key)
        (key_created tenant w.next_api_key) w

  -- The new key has no limit, no quota and no end.
  unfoldable pub rotated_key : ℕ → RotateApiKeyDto → RandomKey → ℕ → ApiKeyRow
  rotated_key tenant dto random id = record {
    api_key_id = id;
    api_key_tenant = tenant;
    key_prefix = random.random_prefix;
    key_hash = scrypt (raw_key random) random.random_salt;
    key_salt = random.random_salt;
    key_name = get_or dto.rotated_name rotated_key_name;
    key_scopes = get_or dto.rotated_scopes (sms_send ∷ []);
    key_rate_limit = none;
    key_daily_quota = none;
    key_active = true;
    key_last_used = none;
    key_expires = none;
  }

  -- `rotateApiKey`
  unfoldable pub rotate_api_key :
      ℕ → ℕ → RotateApiKeyDto → RandomKey → KeyTable → Result ApiKeyRow × KeyTable
  unfolding insert_key
  rotate_api_key tenant id dto random w =
      if any_row (is_key_of tenant id) w.api_keys
      then insert_key w (rotated_key tenant dto random w.next_api_key)
          (key_rotated tenant w.next_api_key id)
          (record w { api_keys = update_first (is_key id) deactivated w.api_keys })
      else (err api_key_not_found, w)

  -- The checks of `validateApiKey` on the row that it found.
  unfoldable pub admit_key : ℕ → Text → Option ApiKeyRow → Result ApiKeyRow
  admit_key now key none = err inactive_api_key
  admit_key now key (some row) =
      if not row.key_active
      then err inactive_api_key
      else if is_past now row.key_expires
      then err expired_api_key
      else if same_text (scrypt key row.key_salt) row.key_hash
      then ok row
      else err invalid_api_key

  unfoldable pub use_key : ℕ → Result ApiKeyRow → KeyTable → Result ApiPrincipal × KeyTable
  use_key now (err e) w = (err e, w)
  use_key now (ok row) w = (
    ok (principal_of row),
    record w { api_keys = update_first (is_key row.api_key_id) (used_at now) w.api_keys },
  )

  unfoldable pub validate_prefix :
      ℕ → Text → Option Text → KeyTable → Result ApiPrincipal × KeyTable
  unfolding admit_key use_key
  validate_prefix now key none w = (err malformed_api_key, w)
  validate_prefix now key (some prefix) w =
      use_key now (admit_key now key (find_first (has_prefix prefix) w.api_keys)) w

  -- `validateApiKey`; the two buffers are compared as the hex texts that they come from.
  unfoldable pub validate_api_key : ℕ → Text → KeyTable → Result ApiPrincipal × KeyTable
  unfolding validate_prefix
  validate_api_key now key w = validate_prefix now key (prefix_of key) w

-- `disableApiKey`
unfoldable pub disable_api_key : ℕ → ℕ → KeyTable → Result (Unit {0}) × KeyTable
disable_api_key tenant id w =
    if any_row (is_key_of tenant id) w.api_keys
    then (
      ok tt,
      record w {
        api_keys = update_first (is_key_of tenant id) deactivated w.api_keys;
        key_audit = key_disabled tenant id ∷ w.key_audit;
      },
    )
    else (err api_key_not_found, w)
