-- ===== src/Auth/Issued.antt =====
-- A key that `createApiKey` or `rotateApiKey` of auth/auth.service.ts has issued.
use sms_platform_backend.Base.{
  ℕ, ◌≤◌, ◌≡◌, refl, ap, ◌∙◌, Bool, true, false, none, some, List, [], ◌∷◌, ◌++◌, ◌==◌, find_first,
  find_first-append_new, any_row, ok, arith, if◌then◌else◌, length,
}
use sms_platform_backend.Database.{Text, same_text}
use sms_platform_backend.Strings.{split_on, split_on-append, has_unit, same_text_refl, cons_first}
use sms_platform_backend.Auth.Keys.{
  ApiKeyRow, KeyTable, CreateApiKeyDto, RandomKey, raw_key, has_prefix, is_past, prefix_of,
  insert_key, create_api_key, created_key, expiry_of, admit_key, use_key, validate_prefix,
  validate_api_key, principal_of, underscore,
}

split_on-length : (separator : ℕ) (t : Text) → 1 ≤ length (split_on separator t)
unfolding split_on
split_on-length separator [] = omega arith
split_on-length separator (u ∷ us) = go (u == separator) (split_on separator us)
  where
    go : (b : Bool) (rest : List Text) → 1 ≤ length (if b then [] ∷ rest else cons_first u rest)
    go true rest = omega arith
    go false [] = omega arith
    go false (s ∷ ss) = omega arith

-- The third segment of a key is its prefix.
prefix_of-raw_key :
    (random : RandomKey)
    → has_unit underscore random.random_prefix ≡ false
    → prefix_of (raw_key random) ≡ some random.random_prefix
unfolding prefix_of raw_key split_on
prefix_of-raw_key random plain =
    rw (split_on-append underscore random.random_prefix random.random_secret plain)
      (ground (arith, split_on-length underscore random.random_secret))

find_first_missing {ℓ} :
    {A : Type ℓ} (p : A → Bool) (xs : List A) → any_row p xs ≡ false → find_first p xs ≡ none
find_first_missing p [] h = refl
find_first_missing p (x ∷ xs) h = ground (arith, find_first_missing p xs)

module _ (scrypt : Text → ℕ → Text) where
  -- A row that its prefix finds admits the key that its hash was made of.
  row_admits :
      (later : ℕ) (key prefix : Text) (w : KeyTable) (row : ApiKeyRow)
      → prefix_of key ≡ some prefix
      → find_first (has_prefix prefix) w.api_keys ≡ some row
      → row.key_active ≡ true
      → is_past later row.key_expires ≡ false
      → scrypt key row.key_salt ≡ row.key_hash
      → (validate_api_key scrypt later key w).0 ≡ ok (principal_of row)
  unfolding validate_api_key validate_prefix admit_key use_key
  row_admits later key prefix w row named found active valid hashed =
      let matches : same_text (scrypt key row.key_salt) row.key_hash ≡ true =
        rw hashed (same_text_refl row.key_hash) in
      rw (named, validate_prefix)
        (rw (found, admit_key)
          (rw (active, admit_key) (rw (valid, admit_key) (rw (matches, admit_key) refl))))

  -- If the random prefix of a new key is not in use and holds no underscore, `createApiKey` returns
  -- its row, and until the key expires, `validateApiKey` of the text of the key on the tables that
  -- it left returns the principal of that row.
  pub issued_key_admitted :
      (now later tenant : ℕ) (dto : CreateApiKeyDto) (random : RandomKey) (w : KeyTable)
      → has_unit underscore random.random_prefix ≡ false
      → any_row (has_prefix random.random_prefix) w.api_keys ≡ false
      → is_past later (expiry_of now dto.expires_in_days) ≡ false
      → ((create_api_key scrypt now tenant dto random w).0
          ≡ ok (created_key scrypt now tenant dto random w.next_api_key))
        × ((validate_api_key scrypt later
              (raw_key random)
              (create_api_key scrypt now tenant dto random w).1).0
            ≡ ok (principal_of (created_key scrypt now tenant dto random w.next_api_key)))
  unfolding create_api_key insert_key created_key
  issued_key_admitted now later tenant dto random w plain fresh valid =
      let row = created_key scrypt now tenant dto random w.next_api_key in
      let found : find_first (has_prefix random.random_prefix) (w.api_keys ++ row ∷ []) ≡ some row =
        find_first-append_new (has_prefix random.random_prefix) w.api_keys row
          (find_first_missing (has_prefix random.random_prefix) w.api_keys fresh)
        ∙ ap (λ b. if b then some row else none) (same_text_refl random.random_prefix) in
      rw (fresh, insert_key)
        (
          refl,
          row_admits later (raw_key random) random.random_prefix _ row
              (prefix_of-raw_key random plain) found refl valid refl,
        )
