-- ===== src/Auth/HashEncrypt/RoundTrip.antt =====
-- What is encrypted can be decrypted, once the service is configured.
use nestjs_framework_templat.Prelude.{String, true, some, ◌≡◌, refl}
use nestjs_framework_templat.Effect.{ok, ◌>>=◌}
use nestjs_framework_templat.Auth.HashEncrypt.{Crypto, HashEncryptService, encrypt, decrypt}

module _ (κ : Crypto) where
  -- The service as it works: with a key, and an initialization vector of the right length.
  pub record IsConfigured (s : HashEncryptService κ) : Type 0 where
    pub key : κ.Key
    pub iv : String
    pub has_key : s.key ≡ some key
    pub has_iv : s.iv_buffer ≡ some iv
    pub is_iv : κ.is_iv iv ≡ true

  pub decrypt-encrypt :
      (s : HashEncryptService κ) (text : String)
      → IsConfigured s
      → (token : String) × (encrypt κ text s ≡ ok token s) × (decrypt κ token s ≡ ok text s)
  unfolding encrypt decrypt
  decrypt-encrypt s text c = (
    κ.cipher c.key c.iv text,
    rw (c.has_key, c.has_iv, ◌>>=◌, c.is_iv) refl,
    rw (c.has_key, c.has_iv, ◌>>=◌, c.is_iv, κ.decipher-cipher) refl,
  )
