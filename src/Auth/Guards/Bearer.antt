-- ===== src/Auth/Guards/Bearer.antt =====
-- Whom AccessTokenGuard lets in.
use nestjs_framework_templat.Prelude.{
  ◌+◌, String, true, false, Option, none, some, units, to_lower, includes, ◌≡◌, ◌↔◌, refl, arith,
  Bool-cases, inl, inr,
}
use nestjs_framework_templat.Effect.{
  Result, ok, err, jwt_error, unauthorized, not_found, unprocessable, empty_result, database_error,
  type_error, error, or_throw,
}
use nestjs_framework_templat.Models.{UserModel}
use nestjs_framework_templat.World.{Schema, Runtime, World}
use nestjs_framework_templat.Auth.AuthService.{find_user_by_token}
use nestjs_framework_templat.Auth.AuthService.Laws.{Vouched, find_user_by_token_iff}
use nestjs_framework_templat.Auth.Strategies.{accepts_json}
use nestjs_framework_templat.Auth.Guards.{
  access_token_guard, get_bearer_token, slice, hide_jwt_error,
}

module _ (σ : Schema) (ρ : Runtime) where
  -- A request that accepts JSON and has 'bearer ' in its authorization header, in any case, whose
  -- header holds a token that is vouched for behind its first seven characters.
  pub record IsBearer (accept authorization : Option String) (w : World σ) (u : UserModel)
      : Type 0 where
    pub header : String
    pub accepts : accepts_json accept ≡ true
    pub authorized : authorization ≡ some header
    pub bearer : includes (to_lower (units header)) (units "bearer ") ≡ true
    pub vouched : Vouched σ ρ (slice 7 header) w u

  abbrev checked : Result (World σ) (Option UserModel) → Result (World σ) UserModel
  checked r =
      hide_jwt_error (elim r [ ok found w ↦ or_throw unauthorized found w | err e w ↦ err e w ])

  checked_ok :
      (r : Result (World σ) (Option UserModel)) (u : UserModel) (w : World σ)
      → checked r ≡ ok u w
      → r ≡ ok (some u) w
  checked_ok (ok (some v) t) u w h = ground (arith, h)
  checked_ok (ok none t) u w h = ground (arith, h)
  checked_ok (err unauthorized t) u w h = ground (arith, h)
  checked_ok (err not_found t) u w h = ground (arith, h)
  checked_ok (err (unprocessable es) t) u w h = ground (arith, h)
  checked_ok (err empty_result t) u w h = ground (arith, h)
  checked_ok (err jwt_error t) u w h = ground (arith, h)
  checked_ok (err database_error t) u w h = ground (arith, h)
  checked_ok (err type_error t) u w h = ground (arith, h)
  checked_ok (err (error m) t) u w h = ground (arith, h)

  let_in :
      (accept authorization : Option String) (w w' : World σ) (u : UserModel)
      → access_token_guard σ ρ accept authorization w ≡ ok u w'
      → (header : String) × (accepts_json accept ≡ true)
        × (authorization ≡ some header)
        × (includes (to_lower (units header)) (units "bearer ") ≡ true)
        × (find_user_by_token σ ρ (slice 7 header) w ≡ ok (some u) w')
  unfolding access_token_guard
  let_in accept none w w' u h = absurd (ground (arith, Bool-cases (accepts_json accept)))
  let_in accept (some header) w w' u h = elim (Bool-cases (accepts_json accept)) [
    | inr f ↦ absurd (ground arith)
    | inl a ↦ elim (Bool-cases (includes (to_lower (units header)) (units "bearer "))) [
      | inr f ↦ absurd (ground arith)
      | inl b ↦ (
        header,
        a,
        refl,
        b,
        checked_ok (find_user_by_token σ ρ (slice 7 header) w) u w' (ground arith),
      )
    ]
  ]

  -- The guard lets a request in as a user exactly when the request accepts JSON, its authorization
  -- header has 'bearer ' in it, in any case and at any place, and what stands behind the header's first
  -- seven characters is a token vouched for at this reading of the clock: signed for a stored access
  -- token of this stored user, not expired, whose client is stored and not revoked. Nothing changes but
  -- the number of clock readings.
  pub access_token_guard_iff :
      (accept authorization : Option String) (w : World σ) (u : UserModel)
      → (access_token_guard σ ρ accept authorization w
          ≡ ok u (record w { readings = w.readings + 1 }))
        ↔ IsBearer accept authorization w u
  unfolding access_token_guard
  access_token_guard_iff accept authorization w u = (
    λ h.
        let (header, a, e, b, f) = let_in accept authorization w _ u h in
        record {
          header = header;
          accepts = a;
          authorized = e;
          bearer = b;
          vouched = (find_user_by_token_iff σ ρ (slice 7 header) w u).0 f;
        },
    λ s. ground (
      arith,
      s.accepts,
      s.authorized,
      s.bearer,
      (find_user_by_token_iff σ ρ (slice 7 s.header) w u).1 s.vouched,
    ),
  )

-- The refusals of `get_bearer_token`: 404 without a JSON `accept` header; 401 without an authorization
-- header, or where 'bearer ' is not in it.
get_bearer_token_refusals :
    {S : Type 0} (accept : Option String) (header : String) (s : S)
    → (accepts_json accept ≡ false → get_bearer_token accept (some header) s ≡ err not_found s)
      × (accepts_json accept ≡ true → get_bearer_token accept none s ≡ err unauthorized s)
      × (accepts_json accept ≡ true
          → includes (to_lower (units header)) (units "bearer ") ≡ false
          → get_bearer_token accept (some header) s ≡ err unauthorized s)
unfolding get_bearer_token
get_bearer_token_refusals accept header s =
    (λ h. ground (arith, h), λ h. ground (arith, h), λ h k. ground (arith, h, k))
