-- ===== src/Examples/Codes.antt =====
-- Redeeming codes on the small database.
use nestjs_framework_templat.Prelude.{
  ℕ, none, some, List, [], ◌∷◌, ◌==◌, string_eq, ◌≡◌, refl, arith, All, units,
}
use nestjs_framework_templat.Database.ListTable.{list_table}
use nestjs_framework_templat.Effect.{ok, err, state_of, empty_result}
use nestjs_framework_templat.Models.{authorization_code, pkce}
use nestjs_framework_templat.World.{World}
use nestjs_framework_templat.Validation.{text}
use nestjs_framework_templat.Repos.ChallengeRepo.{LoadedChallenge, standard_text, verify_challenge}
use nestjs_framework_templat.Repos.ChallengeRepo.Base64.{decode, encode_url, IsByte}
use nestjs_framework_templat.Repos.ChallengeRepo.Verification.{
  with_verifier, with_client_id, redeem, redeem_once, verify_challenge_accepts,
  verify_challenge_sound,
}
use nestjs_framework_templat.Auth.Grants.{grant_validate}
use nestjs_framework_templat.Auth.Grants.Laws.{authorization_code_needs_no_secret}
use nestjs_framework_templat.Auth.Authorization.{Authorization}
use nestjs_framework_templat.Examples.{
  schema, runtime, connection, client, challenge, seed, payload,
}

redeem_once_example :
    redeem schema runtime connection
      (with_client_id "c1")
      "k1"
      (state_of (redeem schema runtime connection (with_verifier "abc") "k1" seed))
    ≡ err empty_result (
        connection.rollback
          (state_of (redeem schema runtime connection (with_verifier "abc") "k1" seed))
          (state_of (redeem schema runtime connection (with_verifier "abc") "k1" seed)))
redeem_once_example =
    redeem_once schema runtime connection (with_verifier "abc") (with_client_id "c1") "k1" seed

abbrev one_two_three : List ℕ
one_two_three = 1 ∷ 2 ∷ 3 ∷ []

one_two_three-IsByte : All IsByte one_two_three
one_two_three-IsByte = (omega arith, (omega arith, (omega arith, tt)))

challenge_text : units challenge.challenge ≡ encode_url one_two_three
unfolding encode_url
challenge_text = refl

abbrev loaded : LoadedChallenge
loaded = record {
  row = challenge;
  user = schema.users.find_by_pk challenge.user_id seed.users;
  client = schema.clients.find_by_pk challenge.client_id seed.clients;
}

abbrev redeemed : World schema
redeemed = record seed {
  challenges = schema.challenges.destroy (λ x. x.id == challenge.id) seed.challenges;
}

accepted : verify_challenge schema runtime connection "k1" "abc" seed ≡ ok (some loaded) redeemed
unfolding list_table
accepted =
    verify_challenge_accepts schema runtime connection "k1" "abc" seed challenge one_two_three refl
      refl one_two_three-IsByte challenge_text

verify_challenge_sound_example :
    (schema.challenges.find_by_pk "k1" seed.challenges ≡ some challenge)
    × (runtime.digest "sha256" "abc" ≡ some (decode (standard_text (units "AQID"))))
    × (loaded.user ≡ schema.users.find_by_pk 7 seed.users)
    × (loaded.client ≡ schema.clients.find_by_pk "c1" seed.clients)
    × (schema.challenges.find_by_pk "k1" redeemed.challenges ≡ none)
verify_challenge_sound_example =
    verify_challenge_sound schema runtime connection "k1" "abc" seed redeemed loaded accepted

-- The stored code was made for PKCE; the payload has no verifier and a wrong secret.
authorization_code_needs_no_secret_example :
    grant_validate schema runtime connection authorization_code
      (record payload { client_secret = text "wrong"; code = text "k1" })
      seed
    ≡ ok (record { user = schema.users.find_by_pk 7 seed.users; client = some client }) redeemed
unfolding list_table
authorization_code_needs_no_secret_example =
    authorization_code_needs_no_secret schema runtime connection
      (record payload { client_secret = text "wrong"; code = text "k1" }) "k1" seed challenge client
      refl refl refl refl

abbrev authorization : Authorization
authorization = record {
  grant_type = pkce;
  client_id = "c1";
  code_challenge = some "AQID";
  algorithm = some "sha256";
}
