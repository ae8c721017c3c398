-- ===== src/Pagination.antt =====
-- src/paginate-overwrite/services/overwrite-paginate.service.ts. Settings that are undefined or null
-- are none; texts are UTF-16 units. The query is the parameter `Finder`: `findAndCountAll` of
-- sequelize, with the limit, none for null, and the offset.
pub mod Crawl
use nestjs_framework_templat.Prelude.{
  ℕ, zero, suc, ◌+◌, ◌-◌, ◌*◌, ◌/◌, ◌%◌, String, Bool, true, false, Option, none, some, List, [],
  ◌∷◌, ◌++◌, units, if◌then◌else◌, ltb, leb, nat_beq, ◌==◌, string_eq,
}
use nestjs_framework_templat.Effect.{M, ◌>>=◌, pure}

abbrev pub Text : Type 0
Text = List ℕ

-- The decimal digits of a number, on fuel above the number.
abbrev pub digits : ℕ → ℕ → Text
digits zero n = []
digits (suc fuel) n =
    let more = digits fuel (n / 10) ++ ((b'0' + n % 10) ∷ []) in
    if ltb n 10 then (b'0' + n) ∷ [] else more

abbrev pub decimal : ℕ → Text
decimal n = digits (suc n) n

-- A difference of two numbers; `negsuc n` is -(n + 1).
pub data ℤ : Type 0 where
  pos : ℕ → ℤ
  negsuc : ℕ → ℤ

unfoldable pub sub_ℕ : ℕ → ℕ → ℤ
sub_ℕ a b = if leb b a then pos (a - b) else negsuc (b - a - 1)

-- A quotient in JavaScript: a division by null is one by zero.
pub data Count : Type 0 where
  finite : ℕ → Count
  infinite nan : Count

pub record PaginateOptions : Type 0 where
  pub url : Option Text
  pub show_url : Option Bool
  pub structure : Option String
  pub offset : Option ℕ
  pub page : Option ℕ
  pub path : Option Text
  pub show_offset : Option Bool

pub record PaginateModuleOptions : Type 0 where
  pub url : Option Text
  pub show_url : Option Bool
  pub structure : Option String
  pub default_offset : Option ℕ
  pub default_page : Option ℕ
  pub show_offset : Option Bool

pub record Meta : Type 0 where
  pub page : Option ℕ
  pub next_page : Option ℕ
  pub prev_page : Option ℕ
  pub offset : Option ℕ
  pub total_items : ℕ
  pub item_count : Option ℕ
  pub total_pages : Count

pub record Links : Type 0 where
  pub next_url : Option Text
  pub prev_url : Option Text
  pub first_url : Text
  pub last_url : Text

-- `{ meta, items }` or the fields of both in one object, with the links where they are shown.
pub data Payload (A : Type 0) : Type 0 where
  segmented : Meta → List A → Option Links → Payload A
  simple : Meta → List A → Option Links → Payload A

abbrev pub Finder : Type 0 → Type 0 → Type 0
Finder S A = Option ℕ → ℤ → M S (ℕ × List A)

-- `iu(first) || iu(second) || null`, where 0, false and the empty text are passed over.
abbrev pub either : {A : Type 0} → (A → Bool) → Option A → Option A → Option A
either {A} falsy first second =
    let other : Option A = elim second [
      | none ↦ none
      | some b ↦ if falsy b then none else some b
    ] in
    elim first [ none ↦ other | some a ↦ if falsy a then other else some a ]

abbrev pub is_zero : ℕ → Bool
is_zero n = nat_beq n 0

abbrev pub is_false : Bool → Bool
is_false true = false
is_false false = true

abbrev pub is_empty : Text → Bool
is_empty [] = true
is_empty (c ∷ t) = false

abbrev pub is_true : Option Bool → Bool
is_true none = false
is_true (some b) = b

abbrev pub number_or_0 : Option ℕ → ℕ
number_or_0 none = 0
number_or_0 (some n) = n

-- A value put at the end of a text.
abbrev pub text_or_null : Option Text → Text
text_or_null none = units "null"
text_or_null (some t) = t

abbrev pub count_text : Count → Text
count_text (finite n) = decimal n
count_text infinite = units "Infinity"
count_text nan = units "NaN"

-- `Math.ceil(totalItems / offset)`
abbrev pub pages_of : ℕ → Option ℕ → Count
pages_of total none = if nat_beq total 0 then nan else infinite
pages_of total (some offset) = finite ((total + offset - 1) / offset)

abbrev pub le_count : ℕ → Count → Bool
le_count n (finite k) = leb n k
le_count n infinite = true
le_count n nan = false

-- A link to a page, if there is that page.
abbrev pub page_url : Text → Bool → Option ℕ → Option ℕ → Option Text
page_url url allow_offset offset none = none
page_url url allow_offset offset (some page) = some (
    url
    ++ (decimal page
        ++ (if allow_offset
            then units "&offset=" ++ elim offset [ none ↦ units "null" | some n ↦ decimal n ]
            else [])))

-- The pages and the counts of an answer.
abbrev pub meta_for : Option ℕ → Option ℕ → ℕ → Meta
meta_for offset page total =
    let next = number_or_0 page + 1 in
    record {
      page = page;
      next_page = if le_count next (pages_of total offset) then some next else none;
      prev_page = if leb 2 (number_or_0 page) then some (number_or_0 page - 1) else none;
      offset = offset;
      total_items = total;
      item_count = offset;
      total_pages = pages_of total offset;
    }

abbrev pub links_for : Text → Bool → Meta → Links
links_for url allow_offset meta = record {
  next_url = page_url url allow_offset meta.offset meta.next_page;
  prev_url = page_url url allow_offset meta.offset meta.prev_page;
  first_url = url ++ decimal 1;
  last_url = url ++ count_text meta.total_pages;
}

-- The `switch` on the structure.
unfoldable pub arrange : {A : Type 0} → Option String → Meta → List A → Option Links → Payload A
arrange none meta items links = simple meta items links
arrange (some structure) meta items links =
    if structure == "segmented" then segmented meta items links else simple meta items links

module _ {S A : Type 0} (defaults : PaginateModuleOptions) (find_and_count_all : Finder S A) where
  -- What follows the query.
  unfoldable pub payload_of : PaginateOptions → Option ℕ → Option ℕ → ℕ × List A → Payload A
  unfolding arrange
  payload_of options offset page (total, items) =
      let allow_offset = is_true (either is_false options.show_offset defaults.show_offset) in
      let url : Text =
        text_or_null (either is_empty options.url defaults.url)
        ++ (text_or_null (either is_empty options.path none) ++ units "?page=") in
      let meta = meta_for offset page total in
      let links : Option Links =
        if is_true (either is_false options.show_url defaults.show_url)
        then some (links_for url allow_offset meta)
        else none in
      arrange (either (λ s. s == "") options.structure defaults.structure) meta items links

  -- The query, and the answer, once the page and its size are settled.
  unfoldable pub find_window : PaginateOptions → Option ℕ → Option ℕ → M S (Payload A)
  unfolding payload_of sub_ℕ
  find_window options offset page =
      let end = number_or_0 page * number_or_0 offset in
      do
        found ← find_and_count_all offset (sub_ℕ end (number_or_0 offset))
        pure (payload_of options offset page found)

  unfoldable pub find_all_paginate : PaginateOptions → M S (Payload A)
  unfolding find_window
  find_all_paginate options =
      find_window options (either is_zero options.offset defaults.default_offset)
        (either is_zero options.page defaults.default_page)
