-- ===== src/Session/ErrorPages/RoundTrip.antt =====
-- What the page shows after a refused form.
use nestjs_framework_templat.Prelude.{String, false, none, some, [], ◌∷◌, ◌≡◌, ◌≢◌, refl, ◌∙◌}
use nestjs_framework_templat.Effect.{M, ok, ValidationErrors, pure}
use nestjs_framework_templat.ErrorFormat.{formatted_errors}
use nestjs_framework_templat.Session.{Flash, validation_errors, validation_inputs, fields}
use nestjs_framework_templat.Session.ErrorPages.{
  Request, redirect, previous_url, empty_bag, all_errors, TemplateContext, context, bag_of,
  inputs_of, catch, session_error_validation, old_inputs,
}

errors_apart : validation_errors ≢ validation_inputs
errors_apart e = cc

inputs_apart : validation_inputs ≢ validation_errors
inputs_apart e = cc

module _ (φ : Flash) where
  -- A page of src/auth/controllers/authorization: both interceptors, and a handler that answers with
  -- an object and leaves the flash messages.
  abbrev pub show_page : M φ.Store TemplateContext
  show_page = session_error_validation φ (old_inputs φ (pure (context none none)))

  shows :
      (s : φ.Store)
      → (t : φ.Store) × (show_page s
          ≡ ok
              (context
                (some (bag_of (φ.messages validation_errors s)))
                (some (inputs_of (φ.messages validation_inputs s))))
              t)
        × (φ.messages validation_errors t ≡ [])
        × (φ.messages validation_inputs t ≡ [])
  unfolding session_error_validation old_inputs
  shows s = (
    φ.consume validation_inputs (φ.consume validation_errors s),
    rw (φ.messages-consume_other validation_errors validation_inputs s inputs_apart) refl,
    φ.messages-consume_other validation_inputs validation_errors (φ.consume validation_errors s)
          errors_apart
        ∙ φ.messages-consume validation_errors s,
    φ.messages-consume validation_inputs (φ.consume validation_errors s),
  )

  -- The filter leaves one message under each key.
  caught :
      (request : Request) (message : ValidationErrors) (error : String) (s : φ.Store)
      → request.wants_json ≡ false
      → (t : φ.Store) × (catch φ request message error s ≡ ok (redirect (previous_url request)) t)
        × (φ.messages validation_errors t ≡ formatted_errors message [] ∷ [])
        × (φ.messages validation_inputs t ≡ request.body ∷ [])
  unfolding catch
  caught request message error s html =
      let errors = formatted_errors message [] in
      let cleared = φ.consume validation_inputs (φ.consume validation_errors s) in
      let flashed = φ.push validation_errors errors cleared in
      (
        φ.push validation_inputs request.body flashed,
        rw html refl,
        cc (
          φ.messages-push_other validation_inputs validation_errors request.body flashed
              errors_apart,
          φ.messages-push validation_errors errors cleared,
          φ.messages-consume_other validation_inputs validation_errors
              (φ.consume validation_errors s) errors_apart,
          φ.messages-consume validation_errors s,
        ),
        cc (
          φ.messages-push validation_inputs request.body flashed,
          φ.messages-push_other validation_errors validation_inputs errors cleared inputs_apart,
          φ.messages-consume validation_inputs (φ.consume validation_errors s),
        ),
      )

  -- A request of a browser whose form is refused is redirected to its referrer, else to the page
  -- before, else to the root. The next page that is shown holds exactly the errors of that form, by
  -- field and in one list, and what was typed in, whatever messages were left of earlier forms; the
  -- page after that holds neither.
  pub error_round_trip :
      (request : Request) (message : ValidationErrors) (error : String) (s : φ.Store)
      → request.wants_json ≡ false
      → (t u v : φ.Store) × (catch φ request message error s
          ≡ ok (redirect (previous_url request)) t)
        × (show_page t
            ≡ ok
                (context
                  (some (record {
                    all = all_errors (formatted_errors message []);
                    errors = formatted_errors message [];
                  }))
                  (some (inputs_of (request.body ∷ []))))
                u)
        × (show_page u ≡ ok (context (some empty_bag) (some (fields []))) v)
  error_round_trip request message error s html =
      let (t, run, errors, inputs) = caught request message error s html in
      let (u, shown, no_errors, no_inputs) = shows t in
      let (v, again, _, _) = shows u in
      (t, u, v, run, rw (errors, inputs) at shown, rw (no_errors, no_inputs) at again)
