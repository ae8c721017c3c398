-- ===== src/Auth/LoginStrategy/Tokens.antt =====
-- What it takes for a decrypted token to be accepted.
use nestjs_framework_templat.Prelude.{
  ℕ, suc, String, true, false, Option, some, ◌==◌, string_eq, ◌≡◌, ◌≢◌, inl, inr, refl, arith, sym,
  ap, ◌∙◌, eq_iff, Option-cases,
}
use nestjs_framework_templat.Effect.{no_errors, ValidationErrors, more_errors}
use nestjs_framework_templat.Models.{ClientModel, GrantTypes, pkce, implicit_password}
use nestjs_framework_templat.World.{Schema, Runtime}
use nestjs_framework_templat.Validation.{Value, text, Validators, is_not_empty}
use nestjs_framework_templat.Validation.Inversion.{check_property-inv}
use nestjs_framework_templat.Auth.Dto.{is_grant}
use nestjs_framework_templat.Auth.Dto.Checked.{IsText, holds-IsText, rules-IsText}
use nestjs_framework_templat.Auth.Authorization.{client_id_valid, is_falsy}
use nestjs_framework_templat.Auth.LoginStrategy.{
  AuthorizationBody, Parsed, json_null, json_scalar, json_object, json_array, Elements, no_elements,
  more_elements, nested, nested_errors, element_errors, token_errors, authorization_errors,
}

module _ (σ : Schema) (ρ : Runtime) (V : Validators)
    (decrypt : String → Option (Parsed AuthorizationBody)) where
  -- An authorization that a user may log in for.
  pub record IsAuthorized (clients : σ.clients.Rows) (d : AuthorizationBody) : Type 0 where
    pub grant : GrantTypes
    pub client_id : String
    pub client : ClientModel
    pub named : is_grant grant d.grant_type ≡ true
    pub not_password : grant ≢ implicit_password
    pub has_client : d.client_id ≡ text client_id
    pub stored : σ.clients.find_by_pk client_id clients ≡ some client
    pub active : client.is_revoked ≡ false
    pub same_grant : client.grant_type ≡ grant
    pub challenge : grant ≡ pkce → IsText d.code_challenge × IsText d.algorithm

  -- A client id that is accepted for a grant type that is given is the id of an active client of it.
  active_client :
      (clients : σ.clients.Rows) (id : String) (g : Value)
      → id ≢ ""
      → is_not_empty.holds g ≡ true
      → client_id_valid σ ρ clients (text id) g ≡ true
      → (client : ClientModel) × (σ.clients.find_by_pk id clients ≡ some client)
        × (client.is_revoked ≡ false)
        × (is_grant client.grant_type g ≡ true)
  active_client clients id g n h v =
      let given : is_falsy g ≡ false = ground (arith, h) in
      let not_empty : (id == "") ≡ false = ground (arith, eq_iff id "", n) in
      elim (Option-cases (σ.clients.find_by_pk id clients)) [
        | inl e ↦ ground (arith, e, given, not_empty, v)
        | inr (client, e) ↦
            (client, e, ground (arith, given, not_empty, v), ground (arith, given, not_empty, v))
      ]

  authorization_errors-IsAuthorized :
      (clients : σ.clients.Rows) (d : AuthorizationBody)
      → authorization_errors σ ρ V decrypt clients d ≡ no_errors
      → IsAuthorized clients d
  unfolding authorization_errors
  authorization_errors-IsAuthorized clients d h =
      let (h₁, grant_type) = check_property-inv V "grant_type" _ _ _ _ h in
      let (h₂, client_id) = check_property-inv V "client_id" _ _ _ _ h₁ in
      let (h₃, code_challenge) = check_property-inv V "code_challenge" _ _ _ _ h₂ in
      let (h₄, algorithm) = check_property-inv V "algorithm" _ _ _ _ h₃ in
      let (g₀, (g₁, (g₂, g₃))) = grant_type refl in
      let (c₀, (c₁, (c₂, c₃))) = client_id refl in
      let id : IsText d.client_id = holds-IsText d.client_id "isUuid" V.is_uuid c₀ c₁ in
      let (client, stored, active, named) =
        active_client clients id.content d.grant_type id.not_empty g₀
          (ap (λ v. client_id_valid σ ρ clients v d.grant_type) (sym id.is_text) ∙ c₂) in
      record {
        grant = client.grant_type;
        client_id = id.content;
        client = client;
        named = named;
        not_password = λ e. ground (arith, e, named, g₂);
        has_client = id.is_text;
        stored = stored;
        active = active;
        same_grant = refl;
        challenge = λ e.
            let on : is_grant pkce d.grant_type ≡ true =
              ap (λ g. is_grant g d.grant_type) (sym e) ∙ named in
            (
              rules-IsText d.code_challenge (code_challenge on),
              holds-IsText d.algorithm "isString" (λ _. true) (algorithm on).0 (algorithm on).1.0,
            );
      }

  nested-inv :
      (property : String) (es rest : ValidationErrors)
      → nested property es rest ≡ no_errors
      → (es ≡ no_errors) × (rest ≡ no_errors)
  nested-inv property no_errors rest h = (refl, h)
  nested-inv property (more_errors e es) rest h = cc

  -- What a token may be: an object that is authorized, or an array of them.
  abbrev mutual
    pub ElementAllowed : σ.clients.Rows → Parsed AuthorizationBody → Type 0
    ElementAllowed clients json_null = Unit {0}
    ElementAllowed clients (json_scalar empty) = ⊥
    ElementAllowed clients (json_object d) = IsAuthorized clients d
    ElementAllowed clients (json_array es) = ElementsAllowed clients es

    pub ElementsAllowed : σ.clients.Rows → Elements AuthorizationBody → Type 0
    ElementsAllowed clients no_elements = Unit {0}
    ElementsAllowed clients (more_elements e es) =
        ElementAllowed clients e × ElementsAllowed clients es

  abbrev pub Allowed : σ.clients.Rows → Parsed AuthorizationBody → Type 0
  Allowed clients json_null = ⊥
  Allowed clients token = ElementAllowed clients token

  mutual
    nested_errors-Allowed :
        (clients : σ.clients.Rows) (property : String) (p : Parsed AuthorizationBody)
        (rest : ValidationErrors)
        → nested_errors σ ρ V decrypt clients property p rest ≡ no_errors
        → ElementAllowed clients p × (rest ≡ no_errors)
    nested_errors-Allowed clients property json_null rest h = (tt, h)
    nested_errors-Allowed clients property (json_scalar empty) rest h = ground arith
    nested_errors-Allowed clients property (json_object d) rest h =
        let (own, others) = nested-inv property _ rest h in
        (authorization_errors-IsAuthorized clients d own, others)
    nested_errors-Allowed clients property (json_array es) rest h =
        let (own, others) = nested-inv property _ rest h in
        (element_errors-Allowed clients 0 es own, others)

    element_errors-Allowed :
        (clients : σ.clients.Rows) (index : ℕ) (es : Elements AuthorizationBody)
        → element_errors σ ρ V decrypt clients index es ≡ no_errors
        → ElementsAllowed clients es
    element_errors-Allowed clients index no_elements h = tt
    element_errors-Allowed clients index (more_elements e es) h =
        let (first, others) = nested_errors-Allowed clients (V.index_name index) e _ h in
        (first, element_errors-Allowed clients (suc index) es others)

  pub token_errors-Allowed :
      (clients : σ.clients.Rows) (token : Parsed AuthorizationBody) (rest : ValidationErrors)
      → token_errors σ ρ V decrypt clients token rest ≡ no_errors
      → Allowed clients token
  token_errors-Allowed clients json_null rest h = ground arith
  token_errors-Allowed clients (json_scalar true) rest h = ground arith
  token_errors-Allowed clients (json_scalar false) rest h = ground arith
  token_errors-Allowed clients (json_object d) rest h =
      (nested_errors-Allowed clients "token" (json_object d) rest h).0
  token_errors-Allowed clients (json_array es) rest h =
      (nested_errors-Allowed clients "token" (json_array es) rest h).0
