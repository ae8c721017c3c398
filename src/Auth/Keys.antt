-- ===== src/Auth/Keys.antt =====
-- The keys of the tokens: src/auth/services/jwt-token-manager, which reads them, and
-- src/cli-commands/commands/oauth/generate-private-keys, which makes them. Both name the files of the
-- directory `storage` of the working directory. What is logged is left out.
pub mod Files
use nestjs_framework_templat.Prelude.{
  String, Bool, true, false, Option, none, some, ◌==◌, string_eq, if◌then◌else◌, is_some,
}
use nestjs_framework_templat.Effect.{
  M, Result, ok, err, error, throw, or_throw, ◌>>=◌, ◌>>◌, pure, promise_all,
}

-- The directory: the content of a file by its name, none where there is no file; and the names that
-- `writeFile` refuses.
pub record Storage : Type 0 where
  pub content : String → Option String
  pub refuses : String → Bool

abbrev pub update : (String → Option String) → String → String → String → Option String
update content file text name = if name == file then some text else content name

-- `fsPromises.writeFile` and `fsPromises.readFile`
unfoldable pub write_file : String → String → M Storage (Unit {0})
write_file file text s =
    if s.refuses file
    then err (error "EACCES") s
    else ok tt (record s { content = update s.content file text })

unfoldable pub read_file : String → M Storage String
read_file file s = or_throw (error "ENOENT") (s.content file) s

-- JwtTokenManagerService.createFileIfNotExists
unfoldable pub create_file_if_not_exists : String → M Storage Bool
unfolding write_file
create_file_if_not_exists file s =
    if is_some (s.content file) then ok true s else (do write_file file ""; pure false) s

-- JwtTokenManagerService.publicKey and privateKey
unfoldable pub public_key : M Storage String
unfolding create_file_if_not_exists read_file
public_key = do create_file_if_not_exists "public-key.pem"; read_file "public-key.pem"

unfoldable pub private_key : M Storage String
unfolding create_file_if_not_exists read_file
private_key = do create_file_if_not_exists "private-key.pem"; read_file "private-key.pem"

pub record JwtOptions : Type 0 where
  pub public_key : String
  pub private_key : String

-- JwtTokenManagerService.createJwtOptions
unfoldable pub create_jwt_options : M Storage JwtOptions
unfolding public_key private_key
create_jwt_options = do
  first ← public_key
  second ← private_key
  pure (record { public_key = first; private_key = second })

-- GenerateOauthKeysService.savePrivateKey and savePublicKey
unfoldable pub save_private_key : String → M Storage Bool
unfolding write_file
save_private_key key = do write_file "private-key.pem" key; pure true

unfoldable pub save_public_key : String → M Storage Bool
unfolding write_file
save_public_key key = do write_file "public-key.pem" key; pure true

-- GenerateOauthKeysService.generateKeys, on the pair that `generateKeyPair` makes, none where it fails.
unfoldable pub generate_keys : Option JwtOptions → M Storage (Unit {0})
unfolding save_private_key save_public_key
generate_keys none = throw (error "generateKeyPair")
generate_keys (some keys) = do
  promise_all (save_private_key keys.private_key) (save_public_key keys.public_key)
  pure tt
