-- ===== src/Auth/Dto/Checked.antt =====
-- What an accepted payload of the token endpoint holds.
use nestjs_framework_templat.Prelude.{
  String, Bool, true, false, some, [], ◌∷◌, string_eq, ◌≡◌, ◌≢◌, arith, eq_iff, All, List, refl,
  Bool-cases, inl, inr,
}
use nestjs_framework_templat.Effect.{no_errors}
use nestjs_framework_templat.Models.{GrantTypes, implicit_password, pkce, authorization_code}
use nestjs_framework_templat.Validation.{
  Value, text, undefined, Validators, Rule, is_not_empty, is_string, text_rule, one_of,
}
use nestjs_framework_templat.Validation.Inversion.{check_property-inv}
use nestjs_framework_templat.Auth.Dto.{
  AccessTokenDto, is_grant, grant_type_of, access_token_errors, is_grant_type, all_grant_types,
}

-- A text that is not empty.
pub record IsText (v : Value) : Type 0 where
  pub content : String
  pub is_text : v ≡ text content
  pub not_empty : content ≢ ""

pub holds-IsText :
    (v : Value) (name : String) (test : String → Bool)
    → is_not_empty.holds v ≡ true
    → (text_rule name test).holds v ≡ true
    → IsText v
holds-IsText (text s) name test h k = record {
  content = s;
  is_text = refl;
  not_empty = λ e. ground (arith, eq_iff s "");
}
holds-IsText undefined name test h k = cc
holds-IsText _ name test h k = cc

-- A text that passes a test of its own.
pub record Passes (test : String → Bool) (v : Value) : Type 0 where
  pub content : String
  pub is_text : v ≡ text content
  pub passed : test content ≡ true

rule-Passes :
    (v : Value) (name : String) (test : String → Bool)
    → (text_rule name test).holds v ≡ true
    → Passes test v
rule-Passes (text s) name test h = record { content = s; is_text = refl; passed = h }
rule-Passes undefined name test h = cc
rule-Passes _ name test h = cc

abbrev Holds : Value → List Rule → Type 0
Holds v = All (λ (r : Rule). r.holds v ≡ true)

pub rules-IsText : (v : Value) → Holds v (is_not_empty ∷ is_string ∷ []) → IsText v
rules-IsText v h = holds-IsText v "isString" (λ _. true) h.0 h.1.0

-- A name of the enumeration that is neither of the first two is the third.
last_grant :
    (v : Value)
    → is_grant implicit_password v ≡ false
    → is_grant pkce v ≡ false
    → (text_rule "isEnum" (one_of all_grant_types)).holds v ≡ true
    → is_grant authorization_code v ≡ true
last_grant (text s) p q h = ground arith
last_grant undefined p q h = cc
last_grant _ p q h = cc

module _ (V : Validators) where
  -- What a payload of each grant type has to hold: no text is empty, an email is an email, and the
  -- ids of clients and codes are UUIDs of version 4. What the grant type does not read may be
  -- anything.
  abbrev pub Needs : AccessTokenDto → GrantTypes → Type 0
  Needs d implicit_password =
      IsText d.email
      × Passes V.is_email d.email
      × IsText d.password
      × IsText d.client_id
      × Passes V.is_uuid4 d.client_id
      × IsText d.client_secret
  Needs d pkce = IsText d.code_verifier × IsText d.code × Passes V.is_uuid4 d.code
  Needs d authorization_code =
      IsText d.client_id
      × Passes V.is_uuid4 d.client_id
      × IsText d.client_secret
      × IsText d.code
      × Passes V.is_uuid4 d.code

  -- An accepted payload names a grant type of the mapping, and holds what that grant type needs.
  pub access_token_errors-Needs :
      (d : AccessTokenDto)
      → access_token_errors V d ≡ no_errors
      → (g : GrantTypes) × (grant_type_of d.grant_type ≡ some g) × Needs d g
  unfolding access_token_errors
  access_token_errors-Needs d h =
      let (h₁, email) = check_property-inv V "email" _ _ _ _ h in
      let (h₂, password) = check_property-inv V "password" _ _ _ _ h₁ in
      let (h₃, client_id) = check_property-inv V "client_id" _ _ _ _ h₂ in
      let (h₄, client_secret) = check_property-inv V "client_secret" _ _ _ _ h₃ in
      let (h₅, grant_type) = check_property-inv V "grant_type" _ _ _ _ h₄ in
      let (h₆, code_verifier) = check_property-inv V "code_verifier" _ _ _ _ h₅ in
      let (h₇, code) = check_property-inv V "code" _ _ _ _ h₆ in
      let named : Holds d.grant_type (is_not_empty ∷ is_grant_type V ∷ []) = grant_type refl in
      elim (Bool-cases (is_grant implicit_password d.grant_type)) [
        | inl p ↦ (
          implicit_password,
          ground arith,
          (
            holds-IsText d.email "isEmail" V.is_email (email p).0 (email p).1.0,
            rule-Passes d.email "isEmail" V.is_email (email p).1.0,
            rules-IsText d.password (password p),
            holds-IsText d.client_id "isString" (λ _. true) (client_id (ground arith)).0
                (client_id (ground arith)).1.0,
            rule-Passes d.client_id "isUuid" V.is_uuid4 (client_id (ground arith)).1.1.0,
            rules-IsText d.client_secret (client_secret (ground arith)),
          ),
        )
        | inr p ↦ elim (Bool-cases (is_grant pkce d.grant_type)) [
          | inl q ↦ (
            pkce,
            ground arith,
            (
              rules-IsText d.code_verifier (code_verifier q),
              holds-IsText d.code "isUuid" V.is_uuid4 (code (ground arith)).0
                  (code (ground arith)).1.0,
              rule-Passes d.code "isUuid" V.is_uuid4 (code (ground arith)).1.0,
            ),
          )
          | inr q ↦
              let r : is_grant authorization_code d.grant_type ≡ true =
                last_grant d.grant_type p q named.1.0 in
              (
                authorization_code,
                ground arith,
                (
                  holds-IsText d.client_id "isString" (λ _. true) (client_id (ground arith)).0
                      (client_id (ground arith)).1.0,
                  rule-Passes d.client_id "isUuid" V.is_uuid4 (client_id (ground arith)).1.1.0,
                  rules-IsText d.client_secret (client_secret (ground arith)),
                  holds-IsText d.code "isUuid" V.is_uuid4 (code (ground arith)).0
                      (code (ground arith)).1.0,
                  rule-Passes d.code "isUuid" V.is_uuid4 (code (ground arith)).1.0,
                ),
              )
        ]
      ]
