-- ===== src/ErrorFormat.antt =====
-- `formattedErrors` of src/helpers/filters/error-validation-format/error-validation-format.filter.ts.
-- An object is the list of its keys and values in insertion order; keys are UTF-16 units.
pub mod Keys
use nestjs_framework_templat.Prelude.{
  ℕ, String, Bool, true, false, Option, none, some, List, [], ◌∷◌, ◌++◌, map, units, units_eq,
  if◌then◌else◌,
}
use nestjs_framework_templat.Effect.{
  ValidationError, ValidationErrors, validation_error, no_errors, more_errors,
}

-- `ValidationErrorsFormat`
abbrev pub ValidationErrorsFormat : Type 0
ValidationErrorsFormat = List (List ℕ × List String)

-- `object[key] = value`: an old key keeps its place.
abbrev pub assign : List ℕ → List String → ValidationErrorsFormat → ValidationErrorsFormat
assign key value [] = (key, value) ∷ []
assign key value ((k, v) ∷ rest) =
    if units_eq k key then (k, value) ∷ rest else (k, v) ∷ assign key value rest

-- `{ ...first, ...second }`
abbrev pub spread : ValidationErrorsFormat → ValidationErrorsFormat → ValidationErrorsFormat
spread first [] = first
spread first ((k, v) ∷ rest) = spread (assign k v first) rest

-- The loop at the end drops the keys with no message.
abbrev pub drop_empty : ValidationErrorsFormat → ValidationErrorsFormat
drop_empty [] = []
drop_empty ((k, []) ∷ rest) = drop_empty rest
drop_empty ((k, m ∷ ms) ∷ rest) = (k, m ∷ ms) ∷ drop_empty rest

abbrev pub messages : List (String × String) → List String
messages [] = []
messages ((constraint, message) ∷ rest) = message ∷ messages rest

abbrev pub key_of : List ℕ → String → List ℕ
key_of prefix property = prefix ++ units property

abbrev pub child_prefix : List ℕ → String → List ℕ
child_prefix prefix property = prefix ++ (units property ++ (b'.' ∷ []))

abbrev mutual
  -- The loop over the errors, from what is formatted so far.
  pub collect : ValidationErrors → List ℕ → ValidationErrorsFormat → ValidationErrorsFormat
  collect no_errors prefix formatted = formatted
  collect (more_errors e es) prefix formatted = collect es prefix (collect_one e prefix formatted)

  pub collect_one : ValidationError → List ℕ → ValidationErrorsFormat → ValidationErrorsFormat
  collect_one (validation_error property constraints no_errors) prefix formatted =
      assign (key_of prefix property) (messages constraints) formatted
  collect_one (validation_error property constraints (more_errors c cs)) prefix formatted =
      spread
        (drop_empty (
          collect cs (child_prefix prefix property)
            (collect_one c (child_prefix prefix property) [])))
        (assign (key_of prefix property) (messages constraints) formatted)

unfoldable pub formatted_errors : ValidationErrors → List ℕ → ValidationErrorsFormat
formatted_errors errors prefix = drop_empty (collect errors prefix [])
