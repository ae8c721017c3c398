-- ===== src/Helpers/Reaching.antt =====
-- Which requests reach a handler behind src/helpers/middlewares/method-change and
-- src/helpers/interceptors/context, and as what.
use nestjs_framework_templat.Prelude.{
  ℕ, ◌+◌, String, false, none, some, List, ◌≡◌, ◌≢◌, refl, ap, sym, ◌∙◌, arith, ◌⊎◌, inl, inr,
  units, units_eq, units_eq_sound, units_eq_refl, to_upper, Bool-cases,
}
use nestjs_framework_templat.Effect.{M, err, type_error}
use nestjs_framework_templat.Helpers.{
  truthy, Fields, Body, undefined, null, primitive, object, Request, State, override_method,
  with_method, use_method, context_of, with_body, write_context, intercept_context, serve,
}
use nestjs_framework_templat.Helpers.Methods.{
  Method, to_upper_idem, method_cases, no_override, Method-unique,
}

-- The body's fields can be looked at, and `_method` is no value without `toLowerCase`.
pub record IsReadable (r : Request) : Type 0 where
  pub not_null : r.body ≢ null
  pub not_truthy : (o : Fields) → r.body ≡ object o → o.method ≢ truthy

pub data Unreadable (r : Request) : Type 0 where
  null_body : r.body ≡ null → Unreadable r
  no_text : (o : Fields) → r.body ≡ object o → o.method ≡ truthy → Unreadable r

abbrev pub Bodiless : Request → Type 0
Bodiless r = (r.body ≡ undefined) ⊎ (r.body ≡ primitive)

pub data Refused (r : Request) : Type 0 where
  unreadable : Unreadable r → Refused r
  bodiless : (m : List ℕ) → Method r m → m ≢ units "GET" → Bodiless r → Refused r

abbrev pub handled_as : List ℕ → State → State
handled_as m s = record s { request = record s.request { method = m } }

-- The handler is called in the second state.
pub data Reached (uuid : ℕ → String) (s : State) : State → Type 0 where
  reading :
      IsReadable s.request
      → Method s.request (units "GET")
      → Reached uuid s (handled_as (units "GET") s)
  writing :
      (m : List ℕ) (o : Fields)
      → IsReadable s.request
      → Method s.request m
      → m ≢ units "GET"
      → s.request.body ≡ object o
      → Reached uuid s
          (with_body (object (record o { context = some (context_of uuid s) })) (handled_as m s))

Refused-unreached : (uuid : ℕ → String) (s t : State) → Refused s.request → ¬ Reached uuid s t
Refused-unreached uuid s _ (unreadable (null_body e)) (reading k m) = k.not_null e
Refused-unreached uuid s _ (unreadable (null_body e)) (writing m o k n d b) = k.not_null e
Refused-unreached uuid s _ (unreadable (no_text p e q)) (reading k m) = k.not_truthy p e q
Refused-unreached uuid s _ (unreadable (no_text p e q)) (writing m o k n d b) = k.not_truthy p e q
Refused-unreached uuid s _ (bodiless n j d e) (reading k m) =
    d (Method-unique s.request n (units "GET") j m)
Refused-unreached uuid s _ (bodiless n j d (inl e)) (writing m o k i f b) = cc
Refused-unreached uuid s _ (bodiless n j d (inr e)) (writing m o k i f b) = cc

module _ {A : Type 0} (uuid : ℕ → String) (next : M State A) where
  Answer : State → Type 0
  Answer s =
      ((t : State) × Reached uuid s t × (serve uuid next s ≡ next t))
      ⊎ (Refused s.request × ((t : State) × (serve uuid next s ≡ err type_error t)))

  use_method_chosen :
      (s : State) (v : List ℕ)
      → override_method s.request.body s.request.method ≡ some v
      → serve uuid next s ≡ intercept_context uuid next (with_method v s)
  unfolding use_method
  use_method_chosen s v h =
      ap
        (λ o. elim o [
          | none ↦ err type_error s
          | some m ↦ intercept_context uuid next (with_method m s)
        ])
        h

  -- The interceptor on a method other than GET: what it is handled as, and each body.
  write-Answer :
      (s : State) (v : List ℕ) (b : Body)
      → override_method s.request.body s.request.method ≡ some v
      → IsReadable s.request
      → Method s.request (to_upper v)
      → units_eq (to_upper (to_upper v)) (units "GET") ≡ false
      → to_upper v ≢ units "GET"
      → s.request.body ≡ b
      → Answer s
  unfolding use_method intercept_context write_context Answer
  write-Answer s v undefined h k j g d q = inr (
    bodiless (to_upper v) j d (inl q),
    (
      record (with_method v s) { drawn = s.drawn + 1 },
      use_method_chosen s v h ∙ ground (arith, q, g),
    ),
  )
  write-Answer s v null h k j g d q = absurd (k.not_null q)
  write-Answer s v primitive h k j g d q = inr (
    bodiless (to_upper v) j d (inr q),
    (
      record (with_method v s) { drawn = s.drawn + 1 },
      use_method_chosen s v h ∙ ground (arith, q, g),
    ),
  )
  write-Answer s v (object o) h k j g d q = inl (
    with_body (object (record o { context = some (context_of uuid s) }))
        (handled_as (to_upper v) s),
    writing (to_upper v) o k j d q,
    use_method_chosen s v h ∙ ground (arith, q, g),
  )

  chosen-Answer :
      (s : State) (v : List ℕ)
      → override_method s.request.body s.request.method ≡ some v
      → IsReadable s.request
      → Method s.request (to_upper v)
      → Answer s
  unfolding use_method intercept_context Answer
  chosen-Answer s v h k j = elim (Bool-cases (units_eq (to_upper (to_upper v)) (units "GET"))) [
    | inl g ↦
        let e : to_upper v ≡ units "GET" =
          sym (to_upper_idem v) ∙ units_eq_sound (to_upper (to_upper v)) (units "GET") g in
        inl (
          handled_as (units "GET") s,
          reading k (rw (← e) j),
          use_method_chosen s v h ∙ ground (arith, e, g),
        )
    | inr g ↦
        let d : to_upper v ≢ units "GET" =
          λ e. cc (g, to_upper_idem v, e, units_eq_refl (units "GET")) in
        write-Answer s v s.request.body h k j g d refl
  ]

  body-Answer : (s : State) (b : Body) → s.request.body ≡ b → Answer s
  unfolding Answer use_method override_method
  body-Answer s undefined q =
      chosen-Answer s s.request.method (rw q refl)
        (record { not_null = λ e. cc; not_truthy = λ o e t. cc })
        (no_override s.request (λ o e. cc))
  body-Answer s primitive q =
      chosen-Answer s s.request.method (rw q refl)
        (record { not_null = λ e. cc; not_truthy = λ o e t. cc })
        (no_override s.request (λ o e. cc))
  body-Answer s null q = inr (unreadable (null_body q), (s, ground (arith, q)))
  body-Answer s (object o) q = elim (method_cases s.request o o.method q refl) [
    | inl (e, c) ↦ inr (unreadable (no_text o q e), (s, ground (arith, q, c)))
    | inr (v, d, c, j) ↦
        chosen-Answer s v (rw q c)
          (record {
            not_null = λ e. cc;
            not_truthy =
                λ p e t. let h : object o ≡ object p = cc in let i : o ≡ p = cc in d (cc (i, t));
          })
          j
  ]

  -- A request either reaches the handler, in one state, or is refused with a type error, and no
  -- state is then one that the handler is called in. It reaches it if its body is not null and has
  -- no `_method` that is true and not a text, and if it is read or its body is an object: as GET
  -- and as it came, or as another method, and then with the parameters, the query, the user's id
  -- and a new id in its body. Its method is the one that `_method` asks for, if that is, in any
  -- case, one of the six that are allowed, else its own, in capitals. Any other request is refused,
  -- among them every one that is not read and came without a body.
  pub serve-Reached :
      (s : State)
      → ((t : State) × Reached uuid s t × (serve uuid next s ≡ next t))
        ⊎ (Refused s.request
            × ((t : State) → ¬ Reached uuid s t)
            × ((t : State) × (serve uuid next s ≡ err type_error t)))
  unfolding Answer
  serve-Reached s = elim (body-Answer s s.request.body refl) [
    | inl a ↦ inl a
    | inr (r, t) ↦ inr (r, (λ u. Refused-unreached uuid s u r), t)
  ]
