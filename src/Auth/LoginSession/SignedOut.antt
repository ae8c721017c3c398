-- ===== src/Auth/LoginSession/SignedOut.antt =====
-- What the session of a login is afterwards.
use nestjs_framework_templat.Prelude.{
  ℕ, ◌<◌, String, true, Option, none, some, ◌≡◌, ◌≢◌, refl, sym, ◌∙◌, ap, arith,
}
use nestjs_framework_templat.Effect.{M, ok, err, unauthorized}
use nestjs_framework_templat.Models.{UserModel, AuthorizationChallengeModel}
use nestjs_framework_templat.World.{Schema, Runtime, World}
use nestjs_framework_templat.Session.WebGuard.{SessionAuth, Request, signed_out, can_activate}
use nestjs_framework_templat.Session.WebGuard.Laws.{can_activate_iff}
use nestjs_framework_templat.Auth.LoginSession.{
  ExpressSession, Server, map_user_to_session, redirect_route,
}

-- The session store takes every call.
pub record Works (ε : ExpressSession) : Type 0 where
  pub regenerates : (s : ε.State) → (t : ε.State) × (ε.regenerate s ≡ ok tt t)
  pub saves : (o : ε.Object) (s : ε.State) → (t : ε.State) × (ε.save o s ≡ ok tt t)

abbrev pub signed_in_as : UserModel → SessionAuth
signed_in_as user = record { is_auth = true; user_id = some user.id }

module _ (ε : ExpressSession) where
  -- The sessions of `t`, after a login whose session was that of `s`.
  pub record IsSwapped (s t : ε.State) (user : UserModel) : Type 0 where
    pub new_object : ε.current t ≢ ε.current s
    pub new_blank : ε.stored (ε.current t) t ≡ some none
    pub old_signed_in : ε.stored (ε.current s) t ≡ some (some (signed_in_as user))

  swapped :
      (s t u v : ε.State) (user : UserModel)
      → ε.regenerate (ε.set_auth (ε.current s) (signed_in_as user) s) ≡ ok tt t
      → ε.save (ε.current s) t ≡ ok tt u
      → ε.save (ε.current u) u ≡ ok tt v
      → IsSwapped s v user
  swapped s t u v user regenerated saved saved_new =
      let a = signed_in_as user in
      let s' = ε.set_auth (ε.current s) a s in
      let same : ε.current s' ≡ ε.current s = ε.current-set_auth (ε.current s) a s in
      let at_u : ε.current u ≡ ε.current t = ε.current-save _ t u saved in
      let at_v : ε.current v ≡ ε.current t = ε.current-save _ u v saved_new ∙ at_u in
      let apart : ε.current t ≢ ε.current s =
        λ e. ε.regenerate_new s' t regenerated (e ∙ sym same) in
      let kept : ε.auth (ε.current s) t ≡ some a =
        cc (same, ε.regenerate_old s' t regenerated, ε.auth-set_auth (ε.current s) a s) in
      record {
        new_object = λ e. apart (sym at_v ∙ e);
        new_blank = cc (
          at_u,
          at_v,
          ε.stored-save (ε.current u) u v saved_new,
          ε.auth-save (ε.current s) (ε.current u) t u saved,
          ε.regenerate_blank s' t regenerated,
        );
        old_signed_in =
            ε.stored-save_other (ε.current u) (ε.current s) u v (λ e. apart (sym at_u ∙ sym e))
              saved_new
            ∙ ε.stored-save (ε.current s) t u saved
            ∙ ap some kept;
      }

-- The request that comes back with the session that the store holds for an object.
abbrev pub resumed : (σ : Schema) (ε : ExpressSession) → World σ → ε.Object → ε.State → Request σ
resumed σ ε world o t = record { world = world; session = ε.stored o t; user = none }

module _ (σ : Schema) (ε : ExpressSession) (next : M (Server σ ε) AuthorizationChallengeModel)
    (s r : Server σ ε) (challenge : AuthorizationChallengeModel) (user : UserModel)
    (answered : next s ≡ ok challenge r)
    (found : σ.users.find_by_pk challenge.user_id r.world.users ≡ some user) where
  mapped :
      (t u : ε.State)
      → ε.regenerate (ε.set_auth (ε.current r.sessions) (signed_in_as user) r.sessions) ≡ ok tt t
      → ε.save (ε.current r.sessions) t ≡ ok tt u
      → map_user_to_session σ ε next s ≡ ok challenge (record r { sessions = u })
  unfolding map_user_to_session
  mapped t u regenerated saved = ground (arith, answered, found, regenerated, saved)

refused :
    (σ : Schema) (ρ : Runtime) (q : Request σ)
    → q.session ≡ some none
    → can_activate σ ρ q ≡ err unauthorized (record q { session = some (some signed_out) })
unfolding can_activate
refused σ ρ q e = ground (arith, e)

module _ (σ : Schema) (ρ : Runtime) (ε : ExpressSession) where
  -- Let the session store take every call, let the login's handler answer with a challenge of a
  -- stored user, and let its redirect url be valid. The login then redirects, the tables are as the
  -- handler left them, and the request has a new session; but a request that comes back with that
  -- session is refused as unauthorized, while one with the session from before the login is let in
  -- as the user.
  pub login_leaves_signed_out :
      (next : M (Server σ ε) AuthorizationChallengeModel)
      (generate_url : AuthorizationChallengeModel → Option String) (s r : Server σ ε)
      (challenge : AuthorizationChallengeModel) (user : UserModel) (url : String)
      → Works ε
      → next s ≡ ok challenge r
      → σ.users.find_by_pk challenge.user_id r.world.users ≡ some user
      → 0 < user.id
      → generate_url challenge ≡ some url
      → (t : ε.State) × (redirect_route σ ε generate_url (map_user_to_session σ ε next) s
          ≡ ok url (record r { sessions = t }))
        × (ε.current t ≢ ε.current r.sessions)
        × (can_activate σ ρ (resumed σ ε r.world (ε.current t) t)
            ≡ err unauthorized
                (record (resumed σ ε r.world (ε.current t) t) { session = some (some signed_out) }))
        × (can_activate σ ρ (resumed σ ε r.world (ε.current r.sessions) t)
            ≡ ok true (record (resumed σ ε r.world (ε.current r.sessions) t) { user = some user }))
  unfolding redirect_route
  login_leaves_signed_out next generate_url s r challenge user url works answered found positive
        valid =
      let (t, regenerated) =
        works.regenerates (ε.set_auth (ε.current r.sessions) (signed_in_as user) r.sessions) in
      let (u, saved) = works.saves (ε.current r.sessions) t in
      let (v, saved_new) = works.saves (ε.current u) u in
      let swap = swapped ε r.sessions t u v user regenerated saved saved_new in
      let run = mapped σ ε next s r challenge user answered found t u regenerated saved in
      (
        v,
        ground (arith, run, saved_new, valid),
        swap.new_object,
        refused σ ρ _ swap.new_blank,
        (can_activate_iff σ ρ _ user).1 (record {
          auth = signed_in_as user;
          session = swap.old_signed_in;
          signed_in = refl;
          user_id = refl;
          positive = positive;
          stored =
              ap (λ (id : ℕ). σ.users.find_by_pk id r.world.users)
                (σ.users.find_by_pk_key _ user _ found)
              ∙ found;
        }),
      )
