-- ===== src/Auth/HashEncrypt.antt =====
-- src/auth/services/hash-encrypt/hash-encrypt.service.ts
pub mod RoundTrip
use nestjs_framework_templat.Prelude.{
  String, Bool, true, false, Option, none, some, ◌≡◌, if◌then◌else◌,
}
use nestjs_framework_templat.Effect.{M, Result, ok, err, error, throw, or_throw, ◌>>=◌, ◌>>◌, pure}

-- What the code relies on in node:crypto and bcrypt. `scrypt` is `scrypt(secret, 'salt', 32)`;
-- `cipher` and `decipher` are those of aes-256-ctr over a whole text, hexadecimal on one side, and
-- are thrown on an initialization vector that is not 16 bytes long; `hash` is `hash(value, 10)`.
pub record Crypto : Type 1 where
  pub Key : Type 0
  pub scrypt : String → Key
  pub is_iv : String → Bool
  pub cipher : Key → String → String → String
  pub decipher : Key → String → String → String
  pub hash : String → String
  pub compare : String → String → Bool
  pub decipher-cipher : (k : Key) (iv text : String) → decipher k iv (cipher k iv text) ≡ text
  pub compare-hash : (text : String) → compare text (hash text) ≡ true

module _ (κ : Crypto) where
  -- The fields of the service, none before the bootstrap.
  pub record HashEncryptService : Type 0 where
    pub iv_buffer : Option String
    pub key : Option κ.Key

  abbrev pub Act : Type 0 → Type 0
  Act A = M HashEncryptService A

  -- `configureConfig`, with the settings APP_SECRET and APP_ENCRYPT_HEX_KEY
  unfoldable pub configure_config : Option String → Option String → Act (Unit {0})
  configure_config app_secret app_encrypt_hex_key = do
    secret ← or_throw (error "Configuration key APP_SECRET does not exist") app_secret
    λ s. ok tt (record s {
      iv_buffer = elim app_encrypt_hex_key [ none ↦ some "1bce5155bf46c13c" | some iv ↦ some iv ];
      key = some (κ.scrypt secret);
    })

  -- `createCipheriv` and `createDecipheriv`: the key and the vector, or an exception
  abbrev pub opened : Act (κ.Key × String)
  opened s =
      (do
        key ← or_throw (error "TypeError: ERR_INVALID_ARG_TYPE") s.key
        iv ← or_throw (error "TypeError: ERR_INVALID_ARG_TYPE") s.iv_buffer
        λ t.
            if κ.is_iv iv then ok (key, iv) t else err (error "TypeError: ERR_CRYPTO_INVALID_IV") t)
        s

  unfoldable pub encrypt : String → Act String
  encrypt token = do (key, iv) ← opened; pure (κ.cipher key iv token)

  unfoldable pub decrypt : String → Act String
  decrypt token = do (key, iv) ← opened; pure (κ.decipher key iv token)

  unfoldable pub create_hash : String → Act String
  create_hash value = pure (κ.hash value)

  unfoldable pub check_hash : String → String → Act Bool
  check_hash value hash = pure (κ.compare value hash)
