-- ===== src/Repos/ChallengeRepo/Verification.antt =====
-- The redemption of codes, by verifier and by client id, as `AuthorizationChallengeRepoService` does it.
use nestjs_framework_templat.Prelude.{
  ℕ, String, Option, none, some, List, [], ◌∷◌, ◌++◌, map, ◌==◌, string_eq, nat_beq, units,
  units_eq_refl, units_eq_sound, length, if◌then◌else◌, ◌≡◌, arith, All, eq_iff, Option-cases, inl,
  inr, ap, ◌∙◌,
}
use nestjs_framework_templat.Effect.{Result, ok, err, empty_result, state_of}
use nestjs_framework_templat.Models.{AuthorizationChallengeModel, ClientModel}
use nestjs_framework_templat.World.{Schema, World, Runtime}
use nestjs_framework_templat.Transactions.{Connection}
use nestjs_framework_templat.Repos.ChallengeRepo.Base64.{
  sextet_of, sextets, pack, decode, encode_url, url_char, unpack, pack-unpack, unpack-IsSextet,
  IsByte, IsSextet,
}
use nestjs_framework_templat.Repos.ChallengeRepo.{
  LoadedChallenge, replace_all, padding, standard_text, consume_code, verify_challenge,
  verify_with_client_id,
}

abbrev standard_char : ℕ → ℕ
standard_char c = let d = if nat_beq c b'-' then b'+' else c in if nat_beq d b'_' then b'/' else d

sextet_of-url_char : (s : ℕ) → IsSextet s → sextet_of (standard_char (url_char s)) ≡ some s
sextet_of-url_char s h = ground arith

sextets-padding : (n : ℕ) → sextets (padding n) ≡ []
sextets-padding n = ground arith

sextets-standard :
    (ss : List ℕ) (n : ℕ)
    → All IsSextet ss
    → sextets (replace_all b'_' b'/' (replace_all b'-' b'+' (map url_char ss)) ++ padding n) ≡ ss
sextets-standard [] n h = sextets-padding n
sextets-standard (s ∷ ss) n (p, h) = ground (arith, sextet_of-url_char s p, sextets-standard ss n h)

-- Decoding the text that the code makes of an unpadded base64url challenge gives back its bytes.
pub decode-encode_url :
    (bytes : List ℕ) → All IsByte bytes → decode (standard_text (encode_url bytes)) ≡ bytes
unfolding decode encode_url
decode-encode_url bytes h =
    ap pack (sextets-standard (unpack bytes) (length (encode_url bytes)) (unpack-IsSextet bytes h))
    ∙ pack-unpack bytes h

module _ (σ : Schema) (ρ : Runtime) (c : Connection σ) where
  -- Whatever was found, nothing is found afterwards.
  consume_code-spent :
      (code : String) (w : World σ)
      → σ.challenges.find_by_pk code (state_of (consume_code σ c code w)).challenges ≡ none
  unfolding consume_code
  consume_code-spent code w = elim (Option-cases (σ.challenges.find_by_pk code w.challenges)) [
    | inl e ↦ ground (arith, c.challenges_restored w w)
    | inr (r, e) ↦ ground (
      arith,
      σ.challenges.find_by_pk_key code r w.challenges e,
      σ.challenges.find_by_pk-destroy code (λ x. x.id == r.id) w.challenges,
      eq_iff r.id r.id,
    )
  ]

  consume_code-missing :
      (code : String) (w : World σ)
      → σ.challenges.find_by_pk code w.challenges ≡ none
      → consume_code σ c code w ≡ err empty_result (c.rollback w w)
  unfolding consume_code
  consume_code-missing code w h = ground arith

  consume_code-found :
      (code : String) (w : World σ) (r : AuthorizationChallengeModel)
      → σ.challenges.find_by_pk code w.challenges ≡ some r
      → consume_code σ c code w
        ≡ ok
            (record {
              row = r;
              user = σ.users.find_by_pk r.user_id w.users;
              client = σ.clients.find_by_pk r.client_id w.clients;
            })
            (record w { challenges = σ.challenges.destroy (λ x. x.id == r.id) w.challenges })
  unfolding consume_code
  consume_code-found code w r h = ground arith

  verify_challenge-spent :
      (code verifier : String) (w : World σ)
      → σ.challenges.find_by_pk code (state_of (verify_challenge σ ρ c code verifier w)).challenges
        ≡ none
  unfolding verify_challenge
  verify_challenge-spent code verifier w = ground (arith, consume_code-spent code w)

  verify_with_client_id-spent :
      (code client_id : String) (w : World σ)
      → σ.challenges.find_by_pk code
          (state_of (verify_with_client_id σ c code client_id w)).challenges
        ≡ none
  unfolding verify_with_client_id
  verify_with_client_id-spent code client_id w = ground (arith, consume_code-spent code w)

-- The two ways to redeem a code: with a PKCE verifier, or with a client id.
pub data Attempt : Type 0 where
  with_verifier with_client_id : String → Attempt

module _ (σ : Schema) (ρ : Runtime) (c : Connection σ) where
  abbrev pub redeem : Attempt → String → World σ → Result (World σ) (Option LoadedChallenge)
  redeem (with_verifier verifier) code = verify_challenge σ ρ c code verifier
  redeem (with_client_id id) code = verify_with_client_id σ c code id

  redeem-spent :
      (a : Attempt) (code : String) (w : World σ)
      → σ.challenges.find_by_pk code (state_of (redeem a code w)).challenges ≡ none
  redeem-spent (with_verifier verifier) code w = verify_challenge-spent σ ρ c code verifier w
  redeem-spent (with_client_id id) code w = verify_with_client_id-spent σ ρ c code id w

  redeem-missing :
      (a : Attempt) (code : String) (w : World σ)
      → σ.challenges.find_by_pk code w.challenges ≡ none
      → redeem a code w ≡ err empty_result (c.rollback w w)
  unfolding verify_challenge verify_with_client_id
  redeem-missing (with_verifier verifier) code w h =
      ground (arith, consume_code-missing σ ρ c code w h)
  redeem-missing (with_client_id id) code w h = ground (arith, consume_code-missing σ ρ c code w h)

  -- Whatever the first attempt to redeem a code comes to (success, a wrong verifier or client id,
  -- an exception, an unknown code), every later attempt of either kind is rejected as an empty
  -- result, and rolls back.
  pub redeem_once :
      (first second : Attempt) (code : String) (w : World σ)
      → redeem second code (state_of (redeem first code w))
        ≡ err empty_result
            (c.rollback (state_of (redeem first code w)) (state_of (redeem first code w)))
  redeem_once first second code w = redeem-missing second code _ (redeem-spent first code w)

  -- A stored challenge that is the unpadded base64url text of the digest of the verifier, under the
  -- stored algorithm, is accepted: the record is returned and its row is deleted.
  pub verify_challenge_accepts :
      (code verifier : String) (w : World σ) (r : AuthorizationChallengeModel) (bytes : List ℕ)
      → σ.challenges.find_by_pk code w.challenges ≡ some r
      → ρ.digest r.algorithm verifier ≡ some bytes
      → All IsByte bytes
      → units r.challenge ≡ encode_url bytes
      → verify_challenge σ ρ c code verifier w
        ≡ ok
            (some (record {
              row = r;
              user = σ.users.find_by_pk r.user_id w.users;
              client = σ.clients.find_by_pk r.client_id w.clients;
            }))
            (record w { challenges = σ.challenges.destroy (λ x. x.id == r.id) w.challenges })
  unfolding verify_challenge
  verify_challenge_accepts code verifier w r bytes found hash small text = ground (
    arith,
    ap (λ t. decode (standard_text t)) text ∙ decode-encode_url bytes small,
    units_eq_refl bytes,
  )

  -- A verifier is accepted only if its digest is what the stored challenge decodes to.
  pub verify_challenge_sound :
      (code verifier : String) (w w' : World σ) (l : LoadedChallenge)
      → verify_challenge σ ρ c code verifier w ≡ ok (some l) w'
      → (σ.challenges.find_by_pk code w.challenges ≡ some l.row)
        × (ρ.digest l.row.algorithm verifier
            ≡ some (decode (standard_text (units l.row.challenge))))
        × (l.user ≡ σ.users.find_by_pk l.row.user_id w.users)
        × (l.client ≡ σ.clients.find_by_pk l.row.client_id w.clients)
        × (σ.challenges.find_by_pk code w'.challenges ≡ none)
  unfolding verify_challenge
  verify_challenge_sound code verifier w w' l h =
      elim (Option-cases (σ.challenges.find_by_pk code w.challenges)) [
        | inl e ↦ ground arith
        | inr (r, e) ↦ elim (Option-cases (ρ.digest r.algorithm verifier)) [
          | inl n ↦ ground arith
          | inr (bytes, d) ↦ ground (
            arith,
            units_eq_sound (decode (standard_text (units r.challenge))) bytes,
            verify_challenge-spent σ ρ c code verifier w,
          )
        ]
      ]

  -- A code is accepted with a client id only if it is stored for that client.
  pub verify_with_client_id_sound :
      (code client_id : String) (w w' : World σ) (l : LoadedChallenge)
      → verify_with_client_id σ c code client_id w ≡ ok (some l) w'
      → (client : ClientModel) × (σ.challenges.find_by_pk code w.challenges ≡ some l.row)
        × (l.client ≡ some client)
        × (client.id ≡ client_id)
        × (l.user ≡ σ.users.find_by_pk l.row.user_id w.users)
        × (l.client ≡ σ.clients.find_by_pk l.row.client_id w.clients)
        × (σ.challenges.find_by_pk code w'.challenges ≡ none)
  unfolding verify_with_client_id
  verify_with_client_id_sound code client_id w w' l h =
      elim (Option-cases (σ.challenges.find_by_pk code w.challenges)) [
        | inl e ↦ ground arith
        | inr (r, e) ↦ elim (Option-cases (σ.clients.find_by_pk r.client_id w.clients)) [
          | inl n ↦ ground arith
          | inr (client, d) ↦
              let spent = verify_with_client_id-spent σ ρ c code client_id w in
              (
                client,
                ground arith,
                ground arith,
                ground (arith, eq_iff client.id client_id),
                ground arith,
                ground arith,
                ground (arith, spent),
              )
        ]
      ]
