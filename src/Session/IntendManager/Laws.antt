-- ===== src/Session/IntendManager/Laws.antt =====
-- What is remembered of the url that a visitor was sent away from.
use nestjs_framework_templat.Prelude.{String, Option, none, List, [], ◌∷◌, ◌≡◌, refl, arith}
use nestjs_framework_templat.Effect.{ok, ◌>>◌}
use nestjs_framework_templat.Session.{Flash, Entry, intend, corrupt, intends}
use nestjs_framework_templat.Session.IntendManager.{
  update_content, setup_intend, get_intend, set_url, get_url, or_null, first_url,
}

module _ (φ : Flash) where
  -- The store after the messages are read and `url` is put back, and after a reset on the way.
  abbrev put_back : Option String → φ.Store → φ.Store
  put_back url s = φ.push intends (intend url) (φ.consume intends s)

  abbrev reset : φ.Store → φ.Store
  reset s = put_back none (put_back none (φ.consume intends s))

  -- Reading the intend never fails: it answers with the first message, or null, and leaves only it.
  pub get_intend-total :
      (s : φ.Store)
      → (t : φ.Store) × (get_intend φ s ≡ ok (first_url φ s) t)
        × (φ.messages intends t ≡ intend (first_url φ s) ∷ [])
  unfolding get_intend setup_intend update_content
  get_intend-total s = go (φ.messages intends s) refl
    where
      go :
          (m : List Entry)
          → φ.messages intends s ≡ m
          → (t : φ.Store) × (get_intend φ s ≡ ok (first_url φ s) t)
            × (φ.messages intends t ≡ intend (first_url φ s) ∷ [])
      go [] e = (
        reset s,
        ground (
          arith,
          e,
          φ.messages-consume intends s,
          φ.messages-push intends (intend none) (φ.consume intends (φ.consume intends s)),
          φ.messages-consume intends (φ.consume intends s),
        ),
        ground (
          arith,
          e,
          φ.messages-push intends (intend none)
              (φ.consume intends (put_back none (φ.consume intends s))),
          φ.messages-consume intends (put_back none (φ.consume intends s)),
        ),
      )
      go (intend url ∷ es) e = (
        put_back url s,
        ground (arith, e),
        ground (
          arith,
          e,
          φ.messages-push intends (intend url) (φ.consume intends s),
          φ.messages-consume intends s,
        ),
      )
      go (corrupt ∷ es) e = (
        reset s,
        ground (
          arith,
          e,
          φ.messages-consume intends s,
          φ.messages-push intends (intend none) (φ.consume intends (φ.consume intends s)),
          φ.messages-consume intends (φ.consume intends s),
        ),
        ground (
          arith,
          e,
          φ.messages-push intends (intend none)
              (φ.consume intends (put_back none (φ.consume intends s))),
          φ.messages-consume intends (put_back none (φ.consume intends s)),
        ),
      )

  -- A url that is set is read by the next request: `setUrl`, then the `setupIntend` of that request,
  -- then `getUrl` answers with it (an empty url as null), whatever the flash held before.
  pub set_setup_get :
      (s : φ.Store) (url : Option String)
      → (t : φ.Store) × ((set_url φ url >> (setup_intend φ >> get_url φ)) s ≡ ok (or_null φ url) t)
  unfolding set_url setup_intend get_url update_content
  set_setup_get s url =
      let (t, e, m) = get_intend-total s in
      let t₁ = φ.push intends (intend url) t in
      let t₂ = put_back url t₁ in
      let p = φ.messages-push intends (intend url) t in
      let q = φ.messages-push intends (intend url) (φ.consume intends t₁) in
      let empty = φ.messages-consume intends t₁ in
      let (t₃, f, n) = get_intend-total t₂ in (t₃, ground (arith, e, m, p, q, empty, f))

  -- Within one request, `getUrl` after `setUrl` answers with what `getUrl` would have answered with
  -- before it, and then only that is left in the flash: the url that was set is gone.
  pub set_get_stale :
      (s : φ.Store) (url : Option String)
      → (t : φ.Store) × ((set_url φ url >> get_url φ) s ≡ ok (or_null φ (first_url φ s)) t)
        × (φ.messages intends t ≡ intend (first_url φ s) ∷ [])
        × ((u : φ.Store) × (get_url φ s ≡ ok (or_null φ (first_url φ s)) u))
  unfolding set_url get_url update_content
  set_get_stale s url =
      let (t, e, m) = get_intend-total s in
      let t₁ = φ.push intends (intend url) t in
      let p = φ.messages-push intends (intend url) t in
      let (t₂, f, n) = get_intend-total t₁ in
      (t₂, ground (arith, e, m, p, f), ground (arith, m, p, n), (t, ground (arith, e)))
