-- ===== src/Auth/Revoked.antt =====
-- What becomes of an API key of auth/auth.service.ts that was disabled or rotated, and of a new one.
use sms_platform_backend.Base.{
  ℕ, ◌≡◌, refl, ap, ◌∙◌, Bool, true, false, Option, none, some, List, [], ◌∷◌, find_first,
  find_first_holds, find_first-append_old, find_first-narrow, find_first-update_first_any,
  find_first-update_first_both, update_first, any_row, any_row-found, any_row-update_first, Result,
  ok, err, is_ok, inactive_api_key, inl, inr, arith, Bool-cases,
}
use sms_platform_backend.Database.{Text, same_text}
use sms_platform_backend.Auth.Keys.{
  ApiKeyRow, KeyTable, KeyAudit, CreateApiKeyDto, RotateApiKeyDto, RandomKey, has_prefix, is_key,
  is_key_of, deactivated, used_at, prefix_of, insert_key, create_api_key, rotated_key,
  rotate_api_key, admit_key, use_key, validate_prefix, validate_api_key, disable_api_key,
}

-- The calls of the service.
pub data KeyCall : Type 0 where
  create_call : ℕ → ℕ → CreateApiKeyDto → RandomKey → KeyCall
  rotate_call : ℕ → ℕ → RotateApiKeyDto → RandomKey → KeyCall
  disable_call : ℕ → ℕ → KeyCall
  validate_call : ℕ → Text → KeyCall

-- The table has a key with the prefix, and it is not active.
abbrev pub Revoked : Text → KeyTable → Type 0
Revoked prefix w =
    (row : ApiKeyRow) × (find_first (has_prefix prefix) w.api_keys ≡ some row)
    × (row.key_active ≡ false)

update_keeps :
    (prefix : Text) (q : ApiKeyRow → Bool) (f : ApiKeyRow → ApiKeyRow) (w : KeyTable)
    → ((row : ApiKeyRow) → (f row).key_prefix ≡ row.key_prefix)
    → ((row : ApiKeyRow) → row.key_active ≡ false → (f row).key_active ≡ false)
    → Revoked prefix w
    → Revoked prefix (record w { api_keys = update_first q f w.api_keys })
update_keeps prefix q f w same off (row, found, inactive) =
    let (z, there, which) =
      find_first-update_first_any (has_prefix prefix) q f w.api_keys row
        (λ y. ap (λ p. same_text p prefix) (same y)) found in
    (
      z,
      there,
      elim which [
        | inl e ↦ ap (λ r. r.key_active) e ∙ inactive
        | inr e ↦ ap (λ r. r.key_active) e ∙ off row inactive
      ],
    )

insert_keeps :
    (prefix : Text) (old : KeyTable) (row : ApiKeyRow) (audit : KeyAudit) (w : KeyTable)
    → Revoked prefix old
    → Revoked prefix w
    → Revoked prefix (insert_key old row audit w).1
unfolding insert_key
insert_keeps prefix old row audit w before (r, found, inactive) =
    elim (Bool-cases (any_row (has_prefix row.key_prefix) w.api_keys)) [
      | inl taken ↦ rw taken before
      | inr free ↦
          rw free (r, find_first-append_old (has_prefix prefix) w.api_keys row r found, inactive)
    ]

module _ (scrypt : Text → ℕ → Text) where
  unfoldable pub after_call : KeyCall → KeyTable → KeyTable
  after_call (create_call now tenant dto random) w =
      (create_api_key scrypt now tenant dto random w).1
  after_call (rotate_call tenant id dto random) w = (rotate_api_key scrypt tenant id dto random w).1
  after_call (disable_call tenant id) w = (disable_api_key tenant id w).1
  after_call (validate_call now key) w = (validate_api_key scrypt now key w).1

  unfoldable pub after_calls : List KeyCall → KeyTable → KeyTable
  unfolding after_call
  after_calls [] w = w
  after_calls (call ∷ calls) w = after_calls calls (after_call call w)

  use_keeps :
      (prefix : Text) (now : ℕ) (r : Result ApiKeyRow) (w : KeyTable)
      → Revoked prefix w
      → Revoked prefix (use_key scrypt now r w).1
  unfolding use_key
  use_keeps prefix now (err e) w h = h
  use_keeps prefix now (ok row) w h =
      update_keeps prefix (is_key row.api_key_id) (used_at now) w (λ r. refl) (λ r e. e) h

  rotate_keeps :
      (prefix : Text) (tenant id : ℕ) (dto : RotateApiKeyDto) (random : RandomKey) (w : KeyTable)
      → Revoked prefix w
      → Revoked prefix (rotate_api_key scrypt tenant id dto random w).1
  unfolding rotate_api_key
  rotate_keeps prefix tenant id dto random w h =
      elim (Bool-cases (any_row (is_key_of tenant id) w.api_keys)) [
        | inl there ↦ rw there (
            insert_keeps prefix w _ _ _ h
              (update_keeps prefix (is_key id) deactivated w (λ r. refl) (λ r e. refl) h))
        | inr gone ↦ rw gone h
      ]

  disable_keeps :
      (prefix : Text) (tenant id : ℕ) (w : KeyTable)
      → Revoked prefix w
      → Revoked prefix (disable_api_key tenant id w).1
  unfolding disable_api_key
  disable_keeps prefix tenant id w h =
      elim (Bool-cases (any_row (is_key_of tenant id) w.api_keys)) [
        | inl there ↦
            rw there
              (update_keeps prefix (is_key_of tenant id) deactivated w (λ r. refl) (λ r e. refl) h)
        | inr gone ↦ rw gone h
      ]

  validate_keeps :
      (prefix : Text) (now : ℕ) (key : Text) (o : Option Text) (w : KeyTable)
      → Revoked prefix w
      → Revoked prefix (validate_prefix scrypt now key o w).1
  unfolding validate_prefix
  validate_keeps prefix now key none w h = h
  validate_keeps prefix now key (some p) w h =
      use_keeps prefix now (admit_key scrypt now key (find_first (has_prefix p) w.api_keys)) w h

  call_keeps :
      (prefix : Text) (call : KeyCall) (w : KeyTable)
      → Revoked prefix w
      → Revoked prefix (after_call call w)
  unfolding after_call create_api_key validate_api_key
  call_keeps prefix (create_call now tenant dto random) w h = insert_keeps prefix w _ _ w h h
  call_keeps prefix (rotate_call tenant id dto random) w h =
      rotate_keeps prefix tenant id dto random w h
  call_keeps prefix (disable_call tenant id) w h = disable_keeps prefix tenant id w h
  call_keeps prefix (validate_call now key) w h = validate_keeps prefix now key (prefix_of key) w h

  calls_keep :
      (prefix : Text) (calls : List KeyCall) (w : KeyTable)
      → Revoked prefix w
      → Revoked prefix (after_calls calls w)
  unfolding after_calls
  calls_keep prefix [] w h = h
  calls_keep prefix (call ∷ calls) w h =
      calls_keep prefix calls (after_call call w) (call_keeps prefix call w h)

  inactive_refused :
      (now : ℕ) (key prefix : Text) (w : KeyTable)
      → Revoked prefix w
      → prefix_of key ≡ some prefix
      → (validate_api_key scrypt now key w).0 ≡ err inactive_api_key
  unfolding validate_api_key validate_prefix admit_key use_key
  inactive_refused now key prefix w (row, found, inactive) p =
      rw (p, validate_prefix) (rw (found, admit_key) (rw (inactive, admit_key) refl))

  -- `disableApiKey`, or `rotateApiKey` with its new key.
  unfoldable pub retire : Option (RotateApiKeyDto × RandomKey) → ℕ → ℕ → KeyTable → Bool × KeyTable
  retire none tenant id w = let (r, w') = disable_api_key tenant id w in (is_ok r, w')
  retire (some (dto, random)) tenant id w =
      let (r, w') = rotate_api_key scrypt tenant id dto random w in (is_ok r, w')

  -- The prefix of the new key is not in use.
  abbrev pub IsFresh : Option (RotateApiKeyDto × RandomKey) → KeyTable → Type 0
  IsFresh none w = Unit
  IsFresh (some (dto, random)) w = any_row (has_prefix random.random_prefix) w.api_keys ≡ false

  retire_revokes :
      (way : Option (RotateApiKeyDto × RandomKey)) (tenant id : ℕ) (w : KeyTable) (row : ApiKeyRow)
      → find_first (is_key id) w.api_keys ≡ some row
      → row.api_key_tenant ≡ tenant
      → find_first (has_prefix row.key_prefix) w.api_keys ≡ some row
      → IsFresh way w
      → ((retire way tenant id w).0 ≡ true) × Revoked row.key_prefix (retire way tenant id w).1
  unfolding retire disable_api_key rotate_api_key insert_key rotated_key
  retire_revokes way tenant id w row by_id own by_prefix fresh = go way fresh
    where
      by_both : find_first (is_key_of tenant id) w.api_keys ≡ some row
      by_both =
          find_first-narrow (is_key id) (is_key_of tenant id) w.api_keys row (λ y h. ground arith)
            by_id (ground (arith, find_first_holds (is_key id) w.api_keys row by_id))

      there : any_row (is_key_of tenant id) w.api_keys ≡ true
      there = any_row-found (is_key_of tenant id) w.api_keys row by_both

      go :
          (way : Option (RotateApiKeyDto × RandomKey))
          → IsFresh way w
          → ((retire way tenant id w).0 ≡ true) × Revoked row.key_prefix (retire way tenant id w).1
      go none fresh =
          rw (there, disable_api_key, retire)
            (
              refl,
              (
                deactivated row,
                find_first-update_first_both (has_prefix row.key_prefix) (is_key_of tenant id)
                    deactivated w.api_keys row (λ y. refl) by_prefix by_both,
                refl,
              ),
            )
      go (some (dto, random)) fresh =
          let free =
            any_row-update_first (has_prefix random.random_prefix) (is_key id) deactivated
              w.api_keys (λ y. refl)
            ∙ fresh in
          rw (there, rotate_api_key, retire)
            (rw (free, insert_key)
              (
                refl,
                (
                  deactivated row,
                  find_first-append_old (has_prefix row.key_prefix)
                      (update_first (is_key id) deactivated w.api_keys) _ (deactivated row)
                      (find_first-update_first_both (has_prefix row.key_prefix) (is_key id)
                        deactivated w.api_keys row (λ y. refl) by_prefix by_id),
                  refl,
                ),
              ))

  -- If the API key of a tenant is the row that its identity and its prefix find, and a new key's
  -- prefix is not in use, then `disableApiKey` and `rotateApiKey` succeed for it, and after any
  -- later calls of `createApiKey`, `rotateApiKey`, `disableApiKey` and `validateApiKey`,
  -- `validateApiKey` throws 'not active' for every text with its prefix, at any time.
  pub retired_key_refused :
      (way : Option (RotateApiKeyDto × RandomKey)) (tenant id : ℕ) (w : KeyTable) (row : ApiKeyRow)
      (calls : List KeyCall) (now : ℕ) (key : Text)
      → find_first (is_key id) w.api_keys ≡ some row
      → row.api_key_tenant ≡ tenant
      → find_first (has_prefix row.key_prefix) w.api_keys ≡ some row
      → IsFresh way w
      → prefix_of key ≡ some row.key_prefix
      → ((retire way tenant id w).0 ≡ true)
        × ((validate_api_key scrypt now key (after_calls calls (retire way tenant id w).1)).0
            ≡ err inactive_api_key)
  retired_key_refused way tenant id w row calls now key by_id own by_prefix fresh named =
      let (done, revoked) = retire_revokes way tenant id w row by_id own by_prefix fresh in
      (
        done,
        inactive_refused now key row.key_prefix (after_calls calls (retire way tenant id w).1)
            (calls_keep row.key_prefix calls (retire way tenant id w).1 revoked) named,
      )
