-- ===== src/Session/WebGuard/Laws.antt =====
-- Who the session guard lets in.
use nestjs_framework_templat.Prelude.{
  ℕ, ◌<◌, true, false, Option, none, some, ◌≡◌, ◌↔◌, refl, arith, Option-cases, inl, inr,
}
use nestjs_framework_templat.Effect.{ok, err, unauthorized}
use nestjs_framework_templat.Models.{UserModel}
use nestjs_framework_templat.World.{Schema, Runtime}
use nestjs_framework_templat.Repos.UserRepo
use nestjs_framework_templat.Auth.AuthService.{get_logged_in_user}
use nestjs_framework_templat.Session.WebGuard.{
  SessionAuth, Request, signed_out, can_activate, redirect_if_authenticated,
}

module _ (σ : Schema) (ρ : Runtime) where
  -- A session that is signed in as `u`, who is stored.
  pub record IsSignedIn (r : Request σ) (u : UserModel) : Type 0 where
    pub auth : SessionAuth
    pub session : r.session ≡ some (some auth)
    pub signed_in : auth.is_auth ≡ true
    pub user_id : auth.user_id ≡ some u.id
    pub positive : 0 < u.id
    pub stored : σ.users.find_by_pk u.id r.world.users ≡ some u

  lets_in :
      (r : Request σ) (u : UserModel)
      → can_activate σ ρ r ≡ ok true (record r { user = some u })
      → IsSignedIn r u
  unfolding can_activate get_logged_in_user UserRepo.find_or_fail
  lets_in r u h = go r.session refl
    where
      go : (o : Option (Option SessionAuth)) → r.session ≡ o → IsSignedIn r u
      go none e = ground arith
      go (some none) e = ground arith
      go (some (some auth)) e = elim (Option-cases auth.user_id) [
        | inl n ↦ ground arith
        | inr (id, i) ↦ elim (Option-cases (σ.users.find_by_pk id r.world.users)) [
          | inl n ↦ ground arith
          | inr (v, f) ↦
              let k = σ.users.find_by_pk_key id v r.world.users f in
              record {
                auth = auth;
                session = e;
                signed_in = ground arith;
                user_id = ground arith;
                positive = ground arith;
                stored = ground arith;
              }
        ]
      ]

  -- The guard lets a request in as `u` exactly when its session is signed in for the id of `u`, not
  -- 0, and `u` is stored; it then sets `request.user` and changes nothing else.
  pub can_activate_iff :
      (r : Request σ) (u : UserModel)
      → (can_activate σ ρ r ≡ ok true (record r { user = some u })) ↔ IsSignedIn r u
  unfolding can_activate get_logged_in_user UserRepo.find_or_fail
  can_activate_iff r u =
      (lets_in r u, λ s. ground (arith, s.session, s.signed_in, s.user_id, s.positive, s.stored))

  -- A session of a user that is gone is signed out: the guard answers false, and from then on the
  -- request is unauthorized, and the pages for visitors are shown.
  pub can_activate-stale :
      (r : Request σ) (auth : SessionAuth) (id : ℕ)
      → r.session ≡ some (some auth)
      → auth.is_auth ≡ true
      → auth.user_id ≡ some id
      → 0 < id
      → σ.users.find_by_pk id r.world.users ≡ none
      → (s : Request σ) × (can_activate σ ρ r ≡ ok false s)
        × (s.session ≡ some (some signed_out))
        × (can_activate σ ρ s ≡ err unauthorized s)
        × (redirect_if_authenticated σ ρ s ≡ ok none s)
  unfolding can_activate redirect_if_authenticated get_logged_in_user UserRepo.find_or_fail
  can_activate-stale r auth id e a i p f = (
    record r { session = some (some signed_out) },
    ground arith,
    refl,
    ground arith,
    ground arith,
  )
