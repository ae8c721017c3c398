-- ===== src/Validation/Inversion.antt =====
-- What it takes for a property to report nothing.
use nestjs_framework_templat.Prelude.{String, Bool, true, List, [], ◌∷◌, ◌≡◌, arith, All}
use nestjs_framework_templat.Effect.{ValidationErrors, no_errors}
use nestjs_framework_templat.Validation.{Value, Validators, Rule, failing, check_property}

pub failing-eq-nil :
    (V : Validators) (property : String) (rs : List Rule) (v : Value)
    → failing V property rs v ≡ []
    → All (λ (r : Rule). r.holds v ≡ true) rs
failing-eq-nil V property [] v h = tt
failing-eq-nil V property (r ∷ rs) v h = ground (arith, failing-eq-nil V property rs v)

-- The rest reports nothing, and the property's rules hold where its condition is on.
pub check_property-inv :
    (V : Validators) (property : String) (condition : Bool) (rs : List Rule) (v : Value)
    (rest : ValidationErrors)
    → check_property V property condition rs v rest ≡ no_errors
    → (rest ≡ no_errors) × (condition ≡ true → All (λ (r : Rule). r.holds v ≡ true) rs)
unfolding check_property
check_property-inv V property condition rs v rest h =
    (ground arith, λ on. failing-eq-nil V property rs v (ground arith))
