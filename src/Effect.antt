-- ===== src/Effect.antt =====
-- Asynchronous, fallible code as explicit state passing: a rejected promise or a thrown exception
-- is `err`, and keeps the state that was reached.
use nestjs_framework_templat.Prelude.{String, List, Option, none, some, ◌≡◌, refl}

-- `ValidationError` of class-validator, with `constraints` in key order; a list of itself is a
-- type of its own.
mutual
  pub data ValidationError : Type 0 where
    validation_error : String → List (String × String) → ValidationErrors → ValidationError

  pub data ValidationErrors : Type 0 where
    no_errors : ValidationErrors
    more_errors : ValidationError → ValidationErrors → ValidationErrors

-- The exceptions that the code throws or tells apart.
pub data Exception : Type 0 where
  unauthorized : Exception
  not_found : Exception
  unprocessable : ValidationErrors → Exception
  empty_result : Exception
  jwt_error : Exception
  database_error : Exception
  type_error : Exception
  error : String → Exception

pub data Result (S A : Type 0) : Type 0 where
  ok : A → S → Result S A
  err : Exception → S → Result S A

abbrev pub M : Type 0 → Type 0 → Type 0
M S A = S → Result S A

infixl 5 ◌>>=◌ ◌>>◌
abbrev pub ◌>>=◌ : {S A B : Type 0} → M S A → (A → M S B) → M S B
◌>>=◌ m f s = elim (m s) [ ok a s' ↦ f a s' | err e s' ↦ err e s' ]

abbrev pub ◌>>◌ : {S A B : Type 0} → M S A → M S B → M S B
m >> k = m >>= λ _. k

abbrev pub pure : {S A : Type 0} → A → M S A
pure a s = ok a s

abbrev pub throw : {S A : Type 0} → Exception → M S A
throw e s = err e s

-- `rejectOnEmpty` and the like: a missing value is the exception.
abbrev pub or_throw : {S A : Type 0} → Exception → Option A → M S A
or_throw e none = throw e
or_throw e (some a) = pure a

-- `Promise.all` of two: both are started; the first rejection is the result.
abbrev pub promise_all : {S A B : Type 0} → M S A → M S B → M S (A × B)
promise_all m n s = elim (m s) [
  | ok a s' ↦ elim (n s') [ ok b s'' ↦ ok (a, b) s'' | err e s'' ↦ err e s'' ]
  | err e s' ↦ elim (n s') [ ok b s'' ↦ err e s'' | err _ s'' ↦ err e s'' ]
]

abbrev pub state_of : {S A : Type 0} → Result S A → S
state_of (ok a s) = s
state_of (err e s) = s

-- A successful sequence of two steps, taken apart.
pub >>=-eq-ok :
    {S A B : Type 0} (m : M S A) (f : A → M S B) {s t : S} {b : B}
    → (m >>= f) s ≡ ok b t
    → (a : A) × (r : S) × (m s ≡ ok a r) × (f a r ≡ ok b t)
>>=-eq-ok {S} {A} {B} m f {s} {t} {b} h = go (m s) refl h
  where
    go :
        (x : Result S A)
        → m s ≡ x
        → elim x [ ok a s' ↦ f a s' | err e s' ↦ err e s' ] ≡ ok b t
        → (a : A) × (r : S) × (m s ≡ ok a r) × (f a r ≡ ok b t)
    go (ok a r) e k = (a, r, e, k)
    go (err _ _) e k = cc

-- The same as a rule: what follows from the parts follows from the sequence.
pub >>=-rule {ℓ} :
    {S A B : Type 0} {P : Type ℓ} (m : M S A) (f : A → M S B) {s t : S} {b : B}
    → (m >>= f) s ≡ ok b t
    → ((a : A) (r : S) → m s ≡ ok a r → f a r ≡ ok b t → P)
    → P
>>=-rule m f h k = let (a, r, e, g) = >>=-eq-ok m f h in k a r e g
