-- ===== src/UrlBuilder.antt =====
-- src/url-management/services/url-builder/url-builder.service.ts, over UTF-16 units. `URL` is the
-- parameter `UrlStandard`.
pub mod PathParameters
use mathlib.Core.List.{append-nil, append_assoc}
use nestjs_framework_templat.Prelude.{
  ℕ, Bool, true, false, not, Option, none, some, List, [], ◌∷◌, ◌++◌, map, refl, sym, nat_beq,
  starts_with, drop, length, if◌then◌else◌, ◌≡◌, All, ◌≤◌, ◌⊎◌,
}

abbrev pub Text : Type 0
Text = List ℕ

-- `$$`, `$&`, `` $` `` and `$'` of a replacement; `$n` and `$<` stand as they are, since a pattern
-- that is a string has no groups.
abbrev pub expand : Text → Text → Text → Text → Text
expand before matched after [] = []
expand before matched after (c ∷ []) = c ∷ []
expand before matched after (c ∷ d ∷ rest) =
    let one = expand before matched after (d ∷ rest) in
    let two = expand before matched after rest in
    if not (nat_beq c b'$')
    then c ∷ one
    else if nat_beq d b'$'
    then b'$' ∷ two
    else if nat_beq d b'&'
    then matched ++ two
    else if nat_beq d b'`'
    then before ++ two
    else if nat_beq d 39
    then after ++ two
    else c ∷ one

-- `text.replace(pattern, replacement)` from a position on: the first occurrence alone.
abbrev pub replace_from : Text → Text → Text → Text → Text
replace_from before pattern replacement [] =
    if starts_with [] pattern then expand before pattern [] replacement else []
replace_from before pattern replacement (c ∷ text) =
    let later = replace_from (before ++ (c ∷ [])) pattern replacement text in
    if starts_with (c ∷ text) pattern
    then expand before pattern (drop (length pattern) (c ∷ text)) replacement
      ++ drop (length pattern) (c ∷ text)
    else c ∷ later

abbrev pub replace : Text → Text → Text → Text
replace text pattern replacement = replace_from [] pattern replacement text

-- The entries of `pathParams`, in order, values as texts.
unfoldable pub get_replaced_path_parameters : List (Text × Text) → Text → Text
get_replaced_path_parameters [] base_url = base_url
get_replaced_path_parameters ((key, value) ∷ entries) base_url =
    get_replaced_path_parameters entries (replace base_url (b':' ∷ key) value)

-- A query value: a scalar, null or undefined as none, or an array of them.
pub data QueryValue : Type 0 where
  single : Option Text → QueryValue
  many : List (Option Text) → QueryValue

-- `value?.toString() ?? ''`
abbrev pub text_or_empty : Option Text → Text
text_or_empty none = []
text_or_empty (some t) = t

abbrev pub query_pairs : List (Text × QueryValue) → List (Text × Option Text)
query_pairs [] = []
query_pairs ((key, single v) ∷ entries) = (key, v) ∷ query_pairs entries
query_pairs ((key, many vs) ∷ entries) = map (λ v. (key, v)) vs ++ query_pairs entries

-- The search parameters, after `append` of each pair.
unfoldable pub append_query_params :
    List (Text × QueryValue) → List (Text × Text) → List (Text × Text)
append_query_params query_params search_params =
    search_params
    ++ map (λ (p : Text × Option Text). (p.0, text_or_empty p.1)) (query_pairs query_params)

-- A path that is not empty and has only small letters and slashes.
abbrev pub IsPlainPath : Text → Type 0
IsPlainPath path = (1 ≤ length path) × All (λ c. (b'a' ≤ c) × (c ≤ b'z') ⊎ (c ≡ b'/')) path

-- What the code relies on in the class `URL`: a text, on its own or relative to a base, is a url or
-- not; its search parameters are a list that `append` adds to, and that is empty for a relative path
-- of small letters and slashes, whatever the query of the base; and it has a text again.
pub record UrlStandard : Type 1 where
  pub Url : Type 0
  pub parse : Text → Option Url
  pub parse_relative : Text → Text → Option Url
  pub search_params : Url → List (Text × Text)
  pub append : Text → Text → Url → Url
  pub to_text : Url → Text
  pub search_params-append :
      (key value : Text) (u : Url)
      → search_params (append key value u) ≡ search_params u ++ ((key, value) ∷ [])
  pub no_search_params :
      (path base : Text) (u : Url)
      → IsPlainPath path
      → parse_relative path base ≡ some u
      → search_params u ≡ []

-- What is not thrown is gone on with.
abbrev pub if_some : {A B : Type 0} → (A → B) → Option A → Option B
if_some f none = none
if_some f (some a) = some (f a)

module _ (υ : UrlStandard) where
  abbrev pub append_all : List (Text × Text) → υ.Url → υ.Url
  append_all [] u = u
  append_all ((key, value) ∷ pairs) u = append_all pairs (υ.append key value u)

  -- The url before its text is taken, none where `new URL` throws. `system_url` is the configured one.
  unfoldable pub build : Text → List (Text × Text) → List (Text × QueryValue) → Text → Option υ.Url
  unfolding get_replaced_path_parameters append_query_params
  build base_url path_parameters query_parameters system_url =
      if_some (append_all (append_query_params query_parameters []))
        (υ.parse_relative (get_replaced_path_parameters path_parameters base_url) system_url)

  -- UrlBuilderService.url
  unfoldable pub url : Text → List (Text × Text) → List (Text × QueryValue) → Text → Option Text
  unfolding build
  url base_url path_parameters query_parameters system_url =
      if_some υ.to_text (build base_url path_parameters query_parameters system_url)

  pub search_params-append_all :
      (pairs : List (Text × Text)) (u : υ.Url)
      → υ.search_params (append_all pairs u) ≡ υ.search_params u ++ pairs
  search_params-append_all [] u = sym (append-nil (υ.search_params u))
  search_params-append_all ((key, value) ∷ pairs) u = simp (
    search_params-append_all pairs (υ.append key value u),
    υ.search_params-append key value u,
    append_assoc,
  )
