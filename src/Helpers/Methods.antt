-- ===== src/Helpers/Methods.antt =====
-- The method that src/helpers/middlewares/method-change gives a request.
use nestjs_framework_templat.Prelude.{
  ℕ, true, none, some, List, [], ◌∷◌, ◌≡◌, ◌≢◌, refl, ap, arith, ◌⊎◌, inl, inr, to_upper,
  upper_unit, Bool-cases,
}
use nestjs_framework_templat.Helpers.{
  Value, text, falsy, truthy, Fields, object, Request, is_allowed, chosen_method,
}

-- The form asks for a method that may stand in for the request's own.
pub record Overrides (r : Request) (v : List ℕ) : Type 0 where
  pub fields : Fields
  pub body : r.body ≡ object fields
  pub method : fields.method ≡ text v
  pub filled : v ≢ []
  pub allowed : is_allowed v ≡ true

-- The method that the request is handled as.
pub data Method (r : Request) : List ℕ → Type 0 where
  overridden : (v : List ℕ) → Overrides r v → Method r (to_upper v)
  own : ((v : List ℕ) → ¬ Overrides r v) → Method r (to_upper r.method)

upper_unit_idem : (c : ℕ) → upper_unit (upper_unit c) ≡ upper_unit c
upper_unit_idem c = ground arith

pub to_upper_idem : (m : List ℕ) → to_upper (to_upper m) ≡ to_upper m
unfolding to_upper
to_upper_idem [] = refl
to_upper_idem (c ∷ cs) = rw (upper_unit_idem c, to_upper_idem cs)

-- What `_method` says, and what comes of it.
abbrev pub Chosen : Request → Value → Type 0
Chosen r x =
    ((x ≡ truthy) × (chosen_method x r.method ≡ none))
    ⊎ ((v : List ℕ) × (x ≢ truthy) × (chosen_method x r.method ≡ some v) × Method r (to_upper v))

only_override :
    (r : Request) (o : Fields) (v : List ℕ) → r.body ≡ object o → Overrides r v → o.method ≡ text v
only_override r o v h k =
    let same : object o ≡ object k.fields = cc in let eq : o ≡ k.fields = cc in cc k.method

pub method_cases :
    (r : Request) (o : Fields) (x : Value) → r.body ≡ object o → o.method ≡ x → Chosen r x
unfolding chosen_method
method_cases r o truthy h e = inl (refl, refl)
method_cases r o falsy h e = inr (
  r.method,
  λ q. cc,
  refl,
  own (λ v k. let q : o.method ≡ text v = only_override r o v h k in cc),
)
method_cases r o (text []) h e = inr (
  r.method,
  λ q. cc,
  refl,
  own (λ v k. let q : o.method ≡ text v = only_override r o v h k in k.filled cc),
)
method_cases r o (text (c ∷ cs)) h e = elim (Bool-cases (is_allowed (c ∷ cs))) [
  | inl a ↦ inr (
    c ∷ cs,
    λ q. cc,
    rw a refl,
    overridden (c ∷ cs)
        (record { fields = o; body = h; method = e; filled = λ q. cc; allowed = a }),
  )
  | inr a ↦ inr (
    r.method,
    λ q. cc,
    rw a refl,
    own (λ v k. let q : o.method ≡ text v = only_override r o v h k in cc (q, k.allowed, a)),
  )
]

pub no_override : (r : Request) → ((o : Fields) → r.body ≢ object o) → Method r (to_upper r.method)
no_override r h = own (λ v k. h k.fields k.body)

-- A request is handled as one method only.
pub Method-unique : (r : Request) (m n : List ℕ) → Method r m → Method r n → m ≡ n
Method-unique r _ _ (overridden v k) (overridden w l) =
    let q : k.fields.method ≡ text w = only_override r k.fields w k.body l in
    let e : v ≡ w = cc (q, k.method) in ap to_upper e
Method-unique r _ _ (overridden v k) (own l) = absurd (l v k)
Method-unique r _ _ (own k) (overridden w l) = absurd (k w l)
Method-unique r _ _ (own k) (own l) = refl
