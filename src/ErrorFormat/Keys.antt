-- ===== src/ErrorFormat/Keys.antt =====
-- What the keys and the messages of the formatted errors are.
use mathlib.Core.List.{append_assoc}
use mathlib.Core.Path.{◌∙◌}
use nestjs_framework_templat.Prelude.{
  ℕ, String, List, [], ◌∷◌, ◌++◌, units, units_eq, All, ◌≡◌, ◌≢◌, refl, Bool-cases, inl, inr,
}
use nestjs_framework_templat.Effect.{
  ValidationError, ValidationErrors, validation_error, no_errors, more_errors,
}
use nestjs_framework_templat.ErrorFormat.{
  ValidationErrorsFormat, assign, spread, drop_empty, child_prefix, collect, collect_one,
  formatted_errors,
}

module _ (P : List ℕ → Type 0) where
  abbrev Keyed : ValidationErrorsFormat → Type 0
  Keyed = All (λ (x : List ℕ × List String). P x.0)

  assign-Keyed :
      (k : List ℕ) (v : List String) (f : ValidationErrorsFormat)
      → P k
      → Keyed f
      → Keyed (assign k v f)
  assign-Keyed k v [] h a = (h, tt)
  assign-Keyed k v ((k', v') ∷ rest) h (p, a) = elim (Bool-cases (units_eq k' k)) [
    | inl e ↦ rw e (p, a)
    | inr e ↦ rw e (p, assign-Keyed k v rest h a)
  ]

  spread-Keyed : (f g : ValidationErrorsFormat) → Keyed f → Keyed g → Keyed (spread f g)
  spread-Keyed f [] a b = a
  spread-Keyed f ((k, v) ∷ rest) a (p, b) =
      spread-Keyed (assign k v f) rest (assign-Keyed k v f p a) b

  drop_empty-Keyed : (f : ValidationErrorsFormat) → Keyed f → Keyed (drop_empty f)
  drop_empty-Keyed [] a = tt
  drop_empty-Keyed ((k, []) ∷ rest) (p, a) = drop_empty-Keyed rest a
  drop_empty-Keyed ((k, m ∷ ms) ∷ rest) (p, a) = (p, drop_empty-Keyed rest a)

abbrev pub Under : List ℕ → List ℕ → Type 0
Under prefix key = (rest : List ℕ) × (key ≡ prefix ++ rest)

abbrev AllUnder : List ℕ → ValidationErrorsFormat → Type 0
AllUnder prefix = All (λ (x : List ℕ × List String). Under prefix x.0)

under_child :
    (prefix : List ℕ) (property : String) (f : ValidationErrorsFormat)
    → AllUnder (child_prefix prefix property) f
    → AllUnder prefix f
under_child prefix property [] a = tt
under_child prefix property (x ∷ f) ((rest, e), a) = (
  (
    (units property ++ (b'.' ∷ [])) ++ rest,
    e ∙ append_assoc prefix (units property ++ (b'.' ∷ [])) rest,
  ),
  under_child prefix property f a,
)

mutual
  collect-Under :
      (es : ValidationErrors) (prefix : List ℕ) (f : ValidationErrorsFormat)
      → AllUnder prefix f
      → AllUnder prefix (collect es prefix f)
  collect-Under no_errors prefix f a = a
  collect-Under (more_errors e es) prefix f a =
      collect-Under es prefix (collect_one e prefix f) (collect_one-Under e prefix f a)

  collect_one-Under :
      (e : ValidationError) (prefix : List ℕ) (f : ValidationErrorsFormat)
      → AllUnder prefix f
      → AllUnder prefix (collect_one e prefix f)
  collect_one-Under (validation_error property constraints no_errors) prefix f a =
      assign-Keyed (Under prefix) _ _ f (units property, refl) a
  collect_one-Under (validation_error property constraints (more_errors c cs)) prefix f a =
      let inner = child_prefix prefix property in
      spread-Keyed (Under prefix) _ _
        (under_child prefix property _ (
          drop_empty-Keyed (Under inner) _
            (collect-Under cs inner _ (collect_one-Under c inner [] tt))))
        (assign-Keyed (Under prefix) _ _ f (units property, refl) a)

drop_empty-nonempty :
    (f : ValidationErrorsFormat) → All (λ (x : List ℕ × List String). x.1 ≢ []) (drop_empty f)
drop_empty-nonempty [] = tt
drop_empty-nonempty ((k, []) ∷ rest) = drop_empty-nonempty rest
drop_empty-nonempty ((k, m ∷ ms) ∷ rest) = (λ e. cc, drop_empty-nonempty rest)

-- Every key of the formatted errors starts with the prefix, also a key of a nested error, and no
-- key has an empty list of messages.
pub formatted_errors-Under :
    (errors : ValidationErrors) (prefix : List ℕ)
    → All (λ (x : List ℕ × List String). Under prefix x.0) (formatted_errors errors prefix)
      × All (λ (x : List ℕ × List String). x.1 ≢ []) (formatted_errors errors prefix)
unfolding formatted_errors
formatted_errors-Under errors prefix = (
  drop_empty-Keyed (Under prefix) _ (collect-Under errors prefix [] tt),
  drop_empty-nonempty (collect errors prefix []),
)
