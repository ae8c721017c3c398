-- ===== src/Validation.antt =====
-- class-validator as the DTOs use it: the decorators of a property are rules, checked when the
-- property's `ValidateIf` allows it. The tests on texts are a parameter.
pub mod Inversion
use nestjs_framework_templat.Prelude.{
  ℕ, String, Bool, true, false, not, ◌&&◌, List, [], ◌∷◌, Option, none, some, ◌==◌, string_eq,
  if◌then◌else◌, any,
}
use nestjs_framework_templat.Effect.{
  ValidationErrors, no_errors, more_errors, validation_error, unprocessable, M, ok, err,
}

-- A value of a request's body. Numbers, booleans, arrays and objects are `other`.
pub data Value : Type 0 where
  undefined null other : Value
  text : String → Value

pub record Validators : Type 0 where
  pub is_email : String → Bool
  pub is_uuid : String → Bool
  pub is_uuid4 : String → Bool
  pub is_url : String → Bool
  -- the property that an error of an array's element names: its index, as a text
  pub index_name : ℕ → String
  -- the default message of a constraint for a property
  pub message : String → String → String

pub record Rule : Type 0 where
  pub name : String
  pub holds : Value → Bool

abbrev pub is_not_empty : Rule
is_not_empty = record {
  name = "isNotEmpty";
  holds = λ v. elim v [ undefined ↦ false | null ↦ false | other ↦ true | text s ↦ not (s == "") ];
}

-- A rule on texts that no other value meets.
abbrev pub text_rule : String → (String → Bool) → Rule
text_rule name test = record { name = name; holds = λ v. elim v [ text s ↦ test s | _ ↦ false ] }

abbrev pub is_string : Rule
is_string = text_rule "isString" (λ _. true)

abbrev pub one_of : List String → String → Bool
one_of options s = any (λ o. s == o) options

abbrev pub failing : Validators → String → List Rule → Value → List (String × String)
failing V property [] v = []
failing V property (r ∷ rs) v =
    if r.holds v
    then failing V property rs v
    else (r.name, V.message r.name property) ∷ failing V property rs v

-- One property: nothing is reported when its condition is off or all its rules hold.
unfoldable pub check_property :
    Validators → String → Bool → List Rule → Value → ValidationErrors → ValidationErrors
check_property V property condition rules v rest =
    if condition
    then elim (failing V property rules v) [
      | [] ↦ rest
      | c ∷ cs ↦ more_errors (validation_error property (c ∷ cs) no_errors) rest
    ]
    else rest

-- `try { await validateOrReject(payload) } catch (err) { throw new UnprocessableEntityException(err) }`
abbrev pub validate_or_reject : {S A : Type 0} → ValidationErrors → A → M S A
validate_or_reject no_errors payload s = ok payload s
validate_or_reject (more_errors e es) payload s = err (unprocessable (more_errors e es)) s

-- The text of a value that validation has accepted as a text.
abbrev pub text_of : Value → Option String
text_of (text s) = some s
text_of _ = none
