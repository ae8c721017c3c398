-- ===== src/Examples/Texts.antt =====
-- A url with a path parameter, and the errors of a nested payload.
use nestjs_framework_templat.Prelude.{List, [], ◌∷◌, units, All, ◌≡◌, refl, arith}
use nestjs_framework_templat.Effect.{ValidationErrors, validation_error, no_errors, more_errors}
use nestjs_framework_templat.UrlBuilder.{get_replaced_path_parameters}
use nestjs_framework_templat.UrlBuilder.PathParameters.{
  Part, IsPlain, entries, template, filled, get_replaced_path_parameters-template,
}
use nestjs_framework_templat.ErrorFormat.{formatted_errors}

abbrev parts : List Part
parts = record { text = units "u"; key = units "id"; value = units "7" } ∷ []

parts-IsPlain : All IsPlain parts
parts-IsPlain = (((λ e. ground arith, tt), (λ e. ground arith, tt), (λ e. ground arith, tt)), tt)

get_replaced_path_parameters-template_example :
    get_replaced_path_parameters (entries parts) (template parts (units "/x"))
    ≡ filled parts (units "/x")
get_replaced_path_parameters-template_example =
    get_replaced_path_parameters-template parts (units "/x") parts-IsPlain

abbrev nested_errors : ValidationErrors
nested_errors =
    more_errors
      (validation_error "token" [] (
        more_errors (validation_error "client_id" (("isUuid", "no uuid") ∷ []) no_errors)
          no_errors))
      no_errors

nested_format : formatted_errors nested_errors [] ≡ (units "token.client_id", "no uuid" ∷ []) ∷ []
unfolding formatted_errors
nested_format = refl
