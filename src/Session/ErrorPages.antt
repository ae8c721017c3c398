-- ===== src/Session/ErrorPages.antt =====
-- How a refused form comes back to the page it was sent from: `catch` of
-- src/helpers/filters/error-validation-format, and the interceptors SessionErrorValidationInterceptor
-- and OldInputsInterceptor of src/session-manager/interceptors.
pub mod RoundTrip
use nestjs_framework_templat.Prelude.{
  ℕ, String, Bool, Option, none, some, List, [], ◌∷◌, ◌++◌, ◌==◌, string_eq, if◌then◌else◌,
}
use nestjs_framework_templat.Effect.{M, ok, err, ValidationErrors, ◌>>=◌, ◌>>◌, pure}
use nestjs_framework_templat.ErrorFormat.{ValidationErrorsFormat, formatted_errors}
use nestjs_framework_templat.Session.{
  Flash, FlashKey, validation_errors, validation_inputs, Message, Body, fields, array, null_body,
  scalar,
}

-- What the filter reads of a request. `previous` is `session._previous`, with its url, if set.
pub record Request : Type 0 where
  pub wants_json : Bool
  pub body : Body
  pub referrer : Option String
  pub previous : Option (Option String)

-- The response with status 422 and the errors, or a redirect.
pub data Response : Type 0 where
  json : ValidationErrorsFormat → String → Response
  redirect : String → Response

-- `value || other`
abbrev pub or_else : Option String → String → String
or_else none other = other
or_else (some s) other = if s == "" then other else s

abbrev pub previous_url : Request → String
previous_url r = or_else r.referrer (or_else (elim r.previous [ none ↦ none | some url ↦ url ]) "/")

-- `{ all, errors }`
pub record ErrorBag : Type 0 where
  pub all : List String
  pub errors : ValidationErrorsFormat

abbrev pub empty_bag : ErrorBag
empty_bag = record { all = []; errors = [] }

-- The values of all keys, one after the other.
abbrev pub all_errors : ValidationErrorsFormat → List String
all_errors [] = []
all_errors ((key, messages) ∷ rest) = messages ++ all_errors rest

-- The value that a handler answers with: an object, of which these two fields are set, or a text,
-- null or undefined.
pub data TemplateContext : Type 0 where
  context : Option ErrorBag → Option Body → TemplateContext
  no_object : TemplateContext

abbrev pub with_error_bag : ErrorBag → TemplateContext → TemplateContext
with_error_bag bag (context b i) = context (some bag) i
with_error_bag bag no_object = no_object

abbrev pub with_old_inputs : Body → TemplateContext → TemplateContext
with_old_inputs inputs (context b i) = context b (some inputs)
with_old_inputs inputs no_object = no_object

-- The first message on the errors.
abbrev pub bag_of : List ValidationErrorsFormat → ErrorBag
bag_of [] = empty_bag
bag_of (errors ∷ more) = record { all = all_errors errors; errors = errors }

-- The first message on the inputs; what is no object for `typeof` becomes an empty one.
abbrev pub inputs_of : List Body → Body
inputs_of [] = fields []
inputs_of (scalar s ∷ more) = fields []
inputs_of (fields f ∷ more) = fields f
inputs_of (array a ∷ more) = array a
inputs_of (null_body ∷ more) = null_body

module _ (φ : Flash) where
  -- `request.flash(key)`
  abbrev pub flash : (k : FlashKey) → M φ.Store (List (Message k))
  flash k s = ok (φ.messages k s) (φ.consume k s)

  -- `request.flash(key, message)`
  abbrev pub push : (k : FlashKey) → Message k → M φ.Store (Unit {0})
  push k m s = ok tt (φ.push k m s)

  -- ErrorValidationFormatFilter.catch, on the errors and the `error` of the exception's response.
  unfoldable pub catch : Request → ValidationErrors → String → M φ.Store Response
  catch request message error s =
      let errors = formatted_errors message [] in
      if request.wants_json
      then ok (json errors error) s
      else (do
        flash validation_errors
        flash validation_inputs
        push validation_errors errors
        push validation_inputs request.body
        pure (redirect (previous_url request)))
          s

  -- SessionErrorValidationInterceptor.intercept
  unfoldable pub session_error_validation : M φ.Store TemplateContext → M φ.Store TemplateContext
  session_error_validation next = do
    flash_message ← flash validation_errors
    template_context ← next
    pure (with_error_bag (bag_of flash_message) template_context)

  -- OldInputsInterceptor.intercept
  unfoldable pub old_inputs : M φ.Store TemplateContext → M φ.Store TemplateContext
  old_inputs next = do
    flash_message ← flash validation_inputs
    template_context ← next
    pure (with_old_inputs (inputs_of flash_message) template_context)
