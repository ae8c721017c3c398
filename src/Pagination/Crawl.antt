-- ===== src/Pagination/Crawl.antt =====
-- Reading all pages: a client that follows `nextPage` from the first page on.
use native.Mathlib.Nat.{le-div_iff_mul-le}
use nestjs_framework_templat.Prelude.{
  ℕ, zero, suc, ◌+◌, ◌-◌, ◌*◌, ◌/◌, ◌≤◌, ◌<◌, String, Option, none, some, List, [], ◌∷◌, ◌++◌, ◌≡◌,
  refl, ap, arith, length, take, drop, leb, ltb, nat_beq, Bool-cases, ◌↔◌, inl, inr, if◌then◌else◌,
}
use nestjs_framework_templat.Effect.{M, ok, ◌>>=◌, pure}
use nestjs_framework_templat.Pagination.{
  PaginateOptions, PaginateModuleOptions, Meta, Links, arrange, Payload, segmented, simple, Finder,
  pos, sub_ℕ, find_all_paginate, find_window, either, is_zero, payload_of, pages_of, le_count,
}

-- What the code relies on in sequelize: the rows of a window, and the number of all rows.
abbrev pub Serves : {S A : Type 0} → Finder S A → List A → S → Type 0
Serves finder rows s =
    (limit start : ℕ)
    → finder (some limit) (pos start) s ≡ ok (length rows, take limit (drop start rows)) s

abbrev pub items_of : {A : Type 0} → Payload A → List A
items_of (segmented meta items links) = items
items_of (simple meta items links) = items

abbrev pub meta_of : {A : Type 0} → Payload A → Meta
meta_of (segmented meta items links) = meta
meta_of (simple meta items links) = meta

module _ {ℓ} {A : Type ℓ} where
  take-append-drop : (k : ℕ) (xs : List A) → take k xs ++ drop k xs ≡ xs
  take-append-drop zero xs = refl
  take-append-drop (suc k) [] = refl
  take-append-drop (suc k) (x ∷ xs) = ap (λ ys. x ∷ ys) (take-append-drop k xs)

  drop-drop : (k n : ℕ) (xs : List A) → drop k (drop n xs) ≡ drop (n + k) xs
  drop-drop k zero xs = let e : 0 + k ≡ k = omega arith in rw e
  drop-drop zero (suc n) [] = let e : suc n + 0 ≡ suc n = omega arith in rw e
  drop-drop (suc k) (suc n) [] = let e : suc n + suc k ≡ suc (n + suc k) = omega arith in rw e
  drop-drop k (suc n) (x ∷ xs) =
      let e : suc n + k ≡ suc (n + k) = omega arith in rw e (drop-drop k n xs)

  take-drop-append : (k n : ℕ) (xs : List A) → take k (drop n xs) ++ drop (n + k) xs ≡ drop n xs
  take-drop-append k n xs = rw (← drop-drop k n xs) (take-append-drop k (drop n xs))

  take-all : (k : ℕ) (xs : List A) → length xs ≤ k → take k xs ≡ xs
  take-all zero [] h = refl
  take-all zero (x ∷ xs) h = absurd (omega arith)
  take-all (suc k) [] h = refl
  take-all (suc k) (x ∷ xs) h = ap (λ ys. x ∷ ys) (take-all k xs (omega arith))

  length-drop : (n : ℕ) (xs : List A) → length (drop n xs) ≡ length xs - n
  length-drop zero xs = omega arith
  length-drop (suc n) [] = omega arith
  length-drop (suc n) (x ∷ xs) = omega (arith, length-drop n xs)

window_start : (q k : ℕ) → sub_ℕ (suc q * suc k) (suc k) ≡ pos (q * suc k)
unfolding sub_ℕ
window_start q k = grind arith

-- A further page is there exactly when items are left.
add_mul : (a k : ℕ) → (a + 1) * suc k ≡ a * suc k + suc k
add_mul a k = grind arith

next_page_lem :
    (q k total : ℕ)
    → le_count (suc q + 1) (pages_of total (some (suc k))) ≡ ltb (suc q * suc k) total
next_page_lem q k total =
    let bound : (suc q + 1 ≤ (total + suc k - 1) / suc k)
        ↔ ((suc q + 1) * suc k ≤ total + suc k - 1) =
      le-div_iff_mul-le (omega arith) in
    let product : (suc q + 1) * suc k ≡ suc q * suc k + suc k = add_mul (suc q) k in
    elim (Bool-cases (ltb (suc q * suc k) total)) [
      | inl h ↦
          let at : suc q + 1 ≤ (total + suc k - 1) / suc k = bound.1 (ground arith) in
          ground (arith, at)
      | inr h ↦ elim (Bool-cases (leb (suc q + 1) ((total + suc k - 1) / suc k))) [
        | inl p ↦
            let at : (suc q + 1) * suc k ≤ total + suc k - 1 = bound.0 (ground arith) in
            absurd (ground arith)
        | inr p ↦ ground arith
      ]
    ]

items-arrange :
    {A : Type 0} (o : Option String) (meta : Meta) (items : List A) (links : Option Links)
    → items_of (arrange o meta items links) ≡ items
unfolding arrange
items-arrange none meta items links = refl
items-arrange (some s) meta items links = ground arith

meta-arrange :
    {A : Type 0} (o : Option String) (meta : Meta) (items : List A) (links : Option Links)
    → meta_of (arrange o meta items links) ≡ meta
unfolding arrange
meta-arrange none meta items links = refl
meta-arrange (some s) meta items links = ground arith

module _ {S A : Type 0} (defaults : PaginateModuleOptions) (finder : Finder S A)
    (options : PaginateOptions) where
  abbrev pub page_options : ℕ → PaginateOptions
  page_options page = record options { page = some page }

  -- The rows of this page and of those that are read after it, if reading them came to an end.
  abbrev joined : List A → Option (List A) → Option (List A)
  joined items none = none
  joined items (some rest) = some (items ++ rest)

  abbrev go_on : (ℕ → M S (Option (List A))) → Option ℕ → List A → M S (Option (List A))
  go_on more none items = pure (some items)
  go_on more (some next) items = do rest ← more next; pure (joined items rest)

  -- At most `fuel` pages are read: none if there would be one more.
  unfoldable pub crawl : ℕ → ℕ → M S (Option (List A))
  unfolding find_all_paginate
  crawl zero page = pure none
  crawl (suc fuel) page = do
    payload ← find_all_paginate defaults finder (page_options page)
    go_on (crawl fuel) (meta_of payload).next_page (items_of payload)

  module _ (rows : List A) (s : S) (serves : Serves finder rows s) (k : ℕ)
      (size : either is_zero options.offset defaults.default_offset ≡ some (suc k)) where
    abbrev pub page_of : ℕ → Payload A
    page_of q =
        payload_of defaults finder (page_options (suc q)) (some (suc k)) (some (suc q))
          (length rows, take (suc k) (drop (q * suc k) rows))

    find_window_lem :
        (q : ℕ)
        → find_window defaults finder (page_options (suc q)) (some (suc k)) (some (suc q)) s
          ≡ ok (page_of q) s
    unfolding find_window
    find_window_lem q = rw (window_start q k, ◌>>=◌, serves (suc k) (q * suc k)) refl

    find_page :
        (q : ℕ) → find_all_paginate defaults finder (page_options (suc q)) s ≡ ok (page_of q) s
    unfolding find_all_paginate
    find_page q =
        let given : either is_zero (some (suc q)) defaults.default_page ≡ some (suc q) =
          ground arith in
        rw (size, given) (find_window_lem q)

    page_items : (q : ℕ) → items_of (page_of q) ≡ take (suc k) (drop (q * suc k) rows)
    unfolding payload_of
    page_items q = rw items-arrange refl

    page_next :
        (q : ℕ)
        → (meta_of (page_of q)).next_page
          ≡ (if ltb (suc q * suc k) (length rows) then some (suc q + 1) else none)
    unfolding payload_of
    page_next q = rw meta-arrange (rw (next_page_lem q k (length rows)) refl)

    -- From a page on, all rows that are left are read, on fuel for each of them.
    crawl-drop :
        (fuel q : ℕ)
        → 0 < fuel
        → length rows ≤ q * suc k + fuel
        → crawl fuel (suc q) s ≡ ok (some (drop (q * suc k) rows)) s
    unfolding crawl
    crawl-drop zero q f h = absurd (omega arith)
    crawl-drop (suc fuel) q f h = elim (Bool-cases (ltb (suc q * suc k) (length rows))) [
      | inl more ↦
          let next : suc q + 1 ≡ suc (suc q) = omega arith in
          let window : suc q * suc k ≡ q * suc k + suc k = grind arith in
          let rest : crawl fuel (suc (suc q)) s ≡ ok (some (drop (q * suc k + suc k) rows)) s =
            rw (← window) (crawl-drop fuel (suc q) (ground arith) (ground arith)) in
          rw (crawl, ◌>>=◌, find_page q, page_next q, more, next, rest, page_items q)
            (ap (λ xs. ok (some xs) s) (take-drop-append (suc k) (q * suc k) rows))
      | inr last ↦
          let window : suc q * suc k ≡ q * suc k + suc k = grind arith in
          rw (crawl, ◌>>=◌, find_page q, page_next q, last, page_items q)
            (ap (λ xs. ok (some xs) s)
              (take-all (suc k) (drop (q * suc k) rows)
                (rw (length-drop (q * suc k) rows) (ground arith))))
    ]

  -- Let the query answer with the rows of a window and the number of all rows, and let the page size
  -- that the options and the defaults give be positive. A client that reads page 1 and follows
  -- `nextPage` reads each row exactly once, in order, whatever the other options are, and comes to a
  -- page without a `nextPage` within as many pages as there are rows, or one if there is none.
  pub crawl-rows :
      (rows : List A) (s : S) (k fuel : ℕ)
      → Serves finder rows s
      → either is_zero options.offset defaults.default_offset ≡ some (suc k)
      → 0 < fuel
      → length rows ≤ fuel
      → crawl fuel 1 s ≡ ok (some rows) s
  crawl-rows rows s k fuel serves size f h =
      let none_skipped : 0 * suc k ≡ 0 = omega arith in
      rw none_skipped at (crawl-drop rows s serves k size fuel 0 f (ground arith))

  -- With such a query and page size, page `q + 1` is answered with the rows from `q` sizes on, one
  -- size of them at most; with the number of all rows; with the next page exactly when rows are left
  -- behind this one; and with the page before it unless it is the first.
  pub page_answer :
      (rows : List A) (s : S) (k q : ℕ)
      → Serves finder rows s
      → either is_zero options.offset defaults.default_offset ≡ some (suc k)
      → (payload : Payload A) × (find_all_paginate defaults finder (page_options (suc q)) s
          ≡ ok payload s)
        × (items_of payload ≡ take (suc k) (drop (q * suc k) rows))
        × ((meta_of payload).total_items ≡ length rows)
        × ((meta_of payload).next_page
            ≡ (if ltb (suc q * suc k) (length rows) then some (q + 2) else none))
        × ((meta_of payload).prev_page ≡ (if nat_beq q 0 then none else some q))
  unfolding payload_of
  page_answer rows s k q serves size = (
    page_of rows s serves k size q,
    find_page rows s serves k size q,
    page_items rows s serves k size q,
    rw meta-arrange refl,
    (let two : q + 2 ≡ suc q + 1 = omega arith in rw two (page_next rows s serves k size q)),
    rw meta-arrange (ground arith),
  )
