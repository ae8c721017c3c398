-- ===== src/Auth/Keys/Files.antt =====
-- Keys that were made are the keys that are read, and reading overwrites nothing.
use nestjs_framework_templat.Prelude.{
  String, false, Option, none, some, ◌≡◌, refl, arith, ◌==◌, string_eq, if◌then◌else◌, is_some,
  Option-cases, inl, inr, str_beq_refl,
}
use nestjs_framework_templat.Effect.{ok, promise_all, ◌>>=◌, ◌>>◌}
use nestjs_framework_templat.Auth.Keys.{
  Storage, JwtOptions, update, create_jwt_options, generate_keys, public_key, private_key,
  create_file_if_not_exists, read_file,
}

-- The content that a file has once it is made sure that there is one.
abbrev pub or_empty : Option String → String
or_empty none = ""
or_empty (some text) = text

-- A storage after a file was made sure of: nothing is overwritten.
abbrev pub ensured : String → Storage → Storage
ensured file s =
    if is_some (s.content file) then s else record s { content = update s.content file "" }

read_ensured :
    (file : String) (s : Storage)
    → s.refuses file ≡ false
    → (create_file_if_not_exists file >> read_file file) s
      ≡ ok (or_empty (s.content file)) (ensured file s)
unfolding create_file_if_not_exists read_file
read_ensured file s h = elim (Option-cases (s.content file)) [
  | inl n ↦ rw (◌>>=◌, n, h, str_beq_refl file) refl
  | inr (text, e) ↦ rw (◌>>=◌, e) (rw e refl)
]

-- With files that can be written, both keys are answered as their files hold them, an empty one for
-- a file that is not there; such a file is created, and no other file is touched.
pub create_jwt_options_lem :
    (s : Storage)
    → s.refuses "public-key.pem" ≡ false
    → s.refuses "private-key.pem" ≡ false
    → create_jwt_options s
      ≡ ok
          (record {
            public_key = or_empty (s.content "public-key.pem");
            private_key = or_empty (s.content "private-key.pem");
          })
          (ensured "private-key.pem" (ensured "public-key.pem" s))
unfolding create_jwt_options
create_jwt_options_lem s p q =
    let first : public_key s
        ≡ ok (or_empty (s.content "public-key.pem")) (ensured "public-key.pem" s) =
      read_ensured "public-key.pem" s p in
    let writable : (ensured "public-key.pem" s).refuses "private-key.pem" ≡ false =
      ground (arith, q) in
    let second : private_key (ensured "public-key.pem" s)
        ≡ ok (or_empty ((ensured "public-key.pem" s).content "private-key.pem"))
            (ensured "private-key.pem" (ensured "public-key.pem" s)) =
      read_ensured "private-key.pem" (ensured "public-key.pem" s) writable in
    let same : (ensured "public-key.pem" s).content "private-key.pem"
        ≡ s.content "private-key.pem" =
      ground arith in
    rw (◌>>=◌, first, second, same) refl

-- Keys that the command has written are the keys that the server signs and verifies with, also where
-- the server had been started before and had created empty files; reading them changes nothing.
pub generated_keys_are_read :
    (keys : JwtOptions) (s : Storage)
    → s.refuses "public-key.pem" ≡ false
    → s.refuses "private-key.pem" ≡ false
    → (t : Storage) × (generate_keys (some keys) s ≡ ok tt t)
      × (create_jwt_options t ≡ ok keys t)
      × ((name : String)
          → t.content name ≡ (
              if name == "public-key.pem"
              then some keys.public_key
              else if name == "private-key.pem"
              then some keys.private_key
              else s.content name))
unfolding generate_keys create_jwt_options
generated_keys_are_read keys s p q = (
  record s {
    content =
        update (update s.content "private-key.pem" keys.private_key) "public-key.pem"
          keys.public_key;
  },
  rw (◌>>=◌, promise_all, q, p) refl,
  refl,
  λ name. refl,
)
