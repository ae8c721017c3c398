-- ===== src/Session.antt =====
-- The session of a request: its flash messages, and the state that guards and interceptors keep.
pub mod IntendManager
pub mod WebGuard
pub mod Interceptors
pub mod ErrorPages
use nestjs_framework_templat.Prelude.{ℕ, String, Bool, Option, List, [], ◌∷◌, ◌++◌, ◌≡◌, ◌≢◌}
use nestjs_framework_templat.ErrorFormat.{ValidationErrorsFormat}

-- The keys of src/session-manager/constants.ts
pub data FlashKey : Type 0 where
  intends validation_errors validation_inputs : FlashKey

-- A message on the intended url: the JSON of an `IntendContent`, or a text that is not JSON.
pub data Entry : Type 0 where
  intend : Option String → Entry
  corrupt : Entry

-- `request.body`, and the JSON of it: the fields of an object, an array, null, or a scalar.
pub data Body : Type 0 where
  fields : List (String × String) → Body
  array : List String → Body
  null_body : Body
  scalar : String → Body

-- The messages of a key, as what their JSON stands for: only ErrorValidationFormatFilter writes the
-- errors and the inputs.
abbrev pub Message : FlashKey → Type 0
Message intends = Entry
Message validation_errors = ValidationErrorsFormat
Message validation_inputs = Body

-- What the code relies on in connect-flash: `request.flash(key)` answers with the messages of the
-- key and drops them, `request.flash(key, message)` adds one at the end; other keys stay.
pub record Flash : Type 1 where
  pub Store : Type 0
  pub messages : (k : FlashKey) → Store → List (Message k)
  pub consume : FlashKey → Store → Store
  pub push : (k : FlashKey) → Message k → Store → Store
  pub messages-consume : (k : FlashKey) (s : Store) → messages k (consume k s) ≡ []
  pub messages-push :
      (k : FlashKey) (m : Message k) (s : Store)
      → messages k (push k m s) ≡ messages k s ++ (m ∷ [])
  pub messages-consume_other :
      (k j : FlashKey) (s : Store) → j ≢ k → messages j (consume k s) ≡ messages j s
  pub messages-push_other :
      (k j : FlashKey) (m : Message k) (s : Store) → j ≢ k → messages j (push k m s) ≡ messages j s
