-- ===== src/UrlBuilder/PathParameters.antt =====
-- Templates with path parameters, and how `getReplacedPathParameters` fills them.
use mathlib.Core.List.{append_assoc}
use nestjs_framework_templat.Prelude.{
  ℕ, false, List, [], ◌∷◌, ◌++◌, nat_beq, starts_with-append, drop, length, All, All-append, ◌≡◌,
  ◌≢◌, refl, sym, ap, ◌∙◌, arith,
}
use nestjs_framework_templat.UrlBuilder.{
  Text, expand, replace_from, replace, get_replaced_path_parameters,
}

-- A parameter of a template: the text before it, its key, and the value it is given.
pub record Part : Type 0 where
  pub text : Text
  pub key : Text
  pub value : Text

abbrev pub template : List Part → Text → Text
template [] tail = tail
template (p ∷ ps) tail = p.text ++ ((b':' ∷ p.key) ++ template ps tail)

abbrev pub filled : List Part → Text → Text
filled [] tail = tail
filled (p ∷ ps) tail = p.text ++ (p.value ++ filled ps tail)

abbrev pub entries : List Part → List (Text × Text)
entries [] = []
entries (p ∷ ps) = (p.key, p.value) ∷ entries ps

abbrev pub Free : ℕ → Text → Type 0
Free c = All (λ x. x ≢ c)

-- No ':' in the texts and the values, and no '$' in the values.
abbrev pub IsPlain : Part → Type 0
IsPlain p = Free b':' p.text × Free b':' p.value × Free b'$' p.value

expand-plain :
    (before matched after value : Text)
    → Free b'$' value
    → expand before matched after value ≡ value
expand-plain before matched after [] h = refl
expand-plain before matched after (c ∷ []) h = refl
expand-plain before matched after (c ∷ d ∷ rest) (p, h) =
    ground (arith, p, expand-plain before matched after (d ∷ rest) h)

drop-append : (xs ys : Text) → drop (length xs) (xs ++ ys) ≡ ys
drop-append [] ys = refl
drop-append (x ∷ xs) ys = drop-append xs ys

replace_from-plain :
    (before text key after value : Text)
    → Free b':' text
    → Free b'$' value
    → replace_from before (b':' ∷ key) value (text ++ ((b':' ∷ key) ++ after))
      ≡ text ++ (value ++ after)
replace_from-plain before [] key after value f g = rw (
  starts_with-append key after,
  drop-append key after,
  expand-plain before (b':' ∷ key) after value g,
)
replace_from-plain before (c ∷ text) key after value (p, f) g =
    let e : nat_beq c b':' ≡ false = ground (arith, p) in
    rw (e, replace_from-plain (before ++ (c ∷ [])) text key after value f g)

regroup : (a b c d : Text) → (a ++ b) ++ (c ++ d) ≡ (a ++ (b ++ c)) ++ d
regroup [] b c d = sym (append_assoc b c d)
regroup (x ∷ a) b c d = ap (λ (t : Text). x ∷ t) (regroup a b c d)

-- With what is already filled in before the template.
replaced-filled :
    (done : Text) (ps : List Part) (tail : Text)
    → Free b':' done
    → All IsPlain ps
    → get_replaced_path_parameters (entries ps) (done ++ template ps tail) ≡ done ++ filled ps tail
unfolding get_replaced_path_parameters
replaced-filled done [] tail f a = refl
replaced-filled done (p ∷ ps) tail f ((t, v, d), a) =
    let done' = done ++ (p.text ++ p.value) in
    let plain : Free b':' (done ++ p.text) = All-append (λ x. x ≢ b':') done p.text f t in
    let one = replace_from-plain [] (done ++ p.text) p.key (template ps tail) p.value plain d in
    let rest =
      replaced-filled done' ps tail
        (All-append (λ x. x ≢ b':') done (p.text ++ p.value) f
          (All-append (λ x. x ≢ b':') p.text p.value t v))
        a in
    let step =
      ap (λ x. replace x (b':' ∷ p.key) p.value)
        (sym (append_assoc done p.text ((b':' ∷ p.key) ++ template ps tail)))
      ∙ one
      ∙ regroup done p.text p.value (template ps tail) in
    ap (get_replaced_path_parameters (entries ps)) step
    ∙ rest
    ∙ sym (regroup done p.text p.value (filled ps tail))
    ∙ append_assoc done p.text (p.value ++ filled ps tail)

-- For a template of texts and keys, given its parameters in order, with no ':' in texts and values
-- and no '$' in values, each parameter stands where its key stood, and nothing else changes.
pub get_replaced_path_parameters-template :
    (ps : List Part) (tail : Text)
    → All IsPlain ps
    → get_replaced_path_parameters (entries ps) (template ps tail) ≡ filled ps tail
get_replaced_path_parameters-template ps tail a = replaced-filled [] ps tail tt a
