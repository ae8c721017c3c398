-- ===== src/Helpers.antt =====
-- src/helpers/middlewares/method-change and src/helpers/interceptors/context, in the order in which a
-- request meets them: the middleware of every route (src/app.module.ts), then the interceptor
-- (src/main.ts).
pub mod Methods
pub mod Reaching
use nestjs_framework_templat.Prelude.{
  ℕ, ◌+◌, String, Bool, Option, none, some, List, [], ◌∷◌, map, units, units_eq, to_lower, to_upper,
  any, if◌then◌else◌,
}
use nestjs_framework_templat.Effect.{M, err, type_error}

-- The value of a field `_method`: a text, a value that is false as a condition (a missing one is
-- undefined), or one that is true and not a text.
pub data Value : Type 0 where
  text : List ℕ → Value
  falsy : Value
  truthy : Value

-- `__CONTEXT`
pub record Context : Type 0 where
  pub params : List (String × String)
  pub query : List (String × String)
  pub user : Option ℕ
  pub id : String

-- What the two read and write of a body that is an object.
pub record Fields : Type 0 where
  pub method : Value
  pub context : Option Context
  pub others : List (String × String)

-- A body that was not parsed is undefined; a primitive is not null.
pub data Body : Type 0 where
  undefined : Body
  null : Body
  primitive : Body
  object : Fields → Body

-- `user` is the id of the request's user, if it has one.
pub record Request : Type 0 where
  pub method : List ℕ
  pub params : List (String × String)
  pub query : List (String × String)
  pub user : Option ℕ
  pub body : Body

-- The request, and the number of UUIDs drawn.
pub record State : Type 0 where
  pub request : Request
  pub drawn : ℕ

abbrev pub allowed_methods : List (List ℕ)
allowed_methods = map units ("put" ∷ "get" ∷ "delete" ∷ "post" ∷ "patch" ∷ "head" ∷ [])

-- `this.allowedMethods.includes(method.toLowerCase())`
unfoldable pub is_allowed : List ℕ → Bool
is_allowed m = any (units_eq (to_lower m)) allowed_methods

-- `_method || req.method`, and then the test; only a text has a `toLowerCase`.
unfoldable pub chosen_method : Value → List ℕ → Option (List ℕ)
chosen_method (text []) m = some m
chosen_method (text (c ∷ cs)) m = some (if is_allowed (c ∷ cs) then c ∷ cs else m)
chosen_method falsy m = some m
chosen_method truthy m = none

-- `typeof null` is 'object', too.
unfoldable pub override_method : Body → List ℕ → Option (List ℕ)
override_method undefined m = some m
override_method null m = none
override_method primitive m = some m
override_method (object o) m = chosen_method o.method m

abbrev pub with_method : List ℕ → State → State
with_method m s = record s { request = record s.request { method = to_upper m } }

-- MethodChangeMiddleware.use
unfoldable pub use_method : {A : Type 0} → M State A → M State A
use_method next s = elim (override_method s.request.body s.request.method) [
  | none ↦ err type_error s
  | some m ↦ next (with_method m s)
]

abbrev pub context_of : (ℕ → String) → State → Context
context_of uuid s = record {
  params = s.request.params;
  query = s.request.query;
  user = s.request.user;
  id = uuid s.drawn;
}

abbrev pub with_body : Body → State → State
with_body b s = record s { request = record s.request { body = b }; drawn = s.drawn + 1 }

-- `request.body.__CONTEXT = …`, which only an object takes
unfoldable pub write_context : (ℕ → String) → State → Body → Option State
write_context uuid s (object o) =
    some (with_body (object (record o { context = some (context_of uuid s) })) s)
write_context uuid s _ = none

-- ContextInterceptor.intercept
unfoldable pub intercept_context : {A : Type 0} → (ℕ → String) → M State A → M State A
intercept_context uuid next s =
    if units_eq (to_upper s.request.method) (units "GET")
    then next s
    else elim (write_context uuid s s.request.body) [
      | none ↦ err type_error (record s { drawn = s.drawn + 1 })
      | some t ↦ next t
    ]

abbrev pub serve : {A : Type 0} → (ℕ → String) → M State A → M State A
serve uuid next = use_method (intercept_context uuid next)
