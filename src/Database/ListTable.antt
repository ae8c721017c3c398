-- ===== src/Database/ListTable.antt =====
-- A table as a list of rows with distinct keys, as an instance of the interface of `Database`.
use nestjs_framework_templat.Prelude.{
  Bool, true, false, Option, none, some, ◌≡◌, refl, sym, ap, List, [], ◌∷◌, Eq, ◌==◌, if◌then◌else◌,
  find, arith,
}
use nestjs_framework_templat.Database.{Table, unless, replaced}

module _ {Key Row : Type 0} (pk : Row → Key) ⦃e : Eq Key⦄ where
  abbrev pub by_pk : Key → List Row → Option Row
  by_pk k = find (λ r. pk r == k)

  abbrev pub Unique : List Row → Type 0
  Unique [] = Unit
  Unique (r ∷ rs) = (by_pk (pk r) rs ≡ none) × Unique rs

  -- The row with the key of `r` becomes `r`.
  abbrev pub overwrite : Row → List Row → List Row
  overwrite r [] = []
  overwrite r (x ∷ xs) = (if pk r == pk x then r else x) ∷ overwrite r xs

  abbrev pub remove : (Row → Bool) → List Row → List Row
  remove p [] = []
  remove p (x ∷ xs) = if p x then remove p xs else x ∷ remove p xs

  pub by_pk_key : (k : Key) (r : Row) (rs : List Row) → by_pk k rs ≡ some r → pk r ≡ k
  by_pk_key k r [] h = cc
  by_pk_key k r (x ∷ xs) h = ground (arith, e.same_iff (pk x) k, by_pk_key k r xs)

  pub by_pk-overwrite :
      (k : Key) (r : Row) (rs : List Row)
      → by_pk k (overwrite r rs) ≡ (if pk r == k then replaced r (by_pk k rs) else by_pk k rs)
  by_pk-overwrite k r [] = ground arith
  by_pk-overwrite k r (x ∷ xs) = ground (
    arith,
    e.same_iff (pk r) (pk x),
    e.same_iff (pk r) k,
    e.same_iff (pk x) k,
    by_pk-overwrite k r xs,
  )

  pub overwrite-Unique : (r : Row) (rs : List Row) → Unique rs → Unique (overwrite r rs)
  overwrite-Unique r [] u = tt
  overwrite-Unique r (x ∷ xs) (h, u) = (
    ground
        (arith, e.same_iff (pk r) (pk x), by_pk-overwrite (pk x) r xs, by_pk-overwrite (pk r) r xs),
    overwrite-Unique r xs u,
  )

  by_pk-remove-none :
      (k : Key) (p : Row → Bool) (rs : List Row) → by_pk k rs ≡ none → by_pk k (remove p rs) ≡ none
  by_pk-remove-none k p [] h = refl
  by_pk-remove-none k p (x ∷ xs) h = ground (arith, by_pk-remove-none k p xs)

  pub by_pk-remove :
      (k : Key) (p : Row → Bool) (rs : List Row)
      → Unique rs
      → by_pk k (remove p rs) ≡ unless p (by_pk k rs)
  by_pk-remove k p [] u = refl
  by_pk-remove k p (x ∷ xs) (h, u) =
      ground (arith, by_pk-remove k p xs u, e.same_iff (pk x) k, by_pk-remove-none (pk x) p xs h)

  pub remove-Unique : (p : Row → Bool) (rs : List Row) → Unique rs → Unique (remove p rs)
  remove-Unique p [] u = tt
  remove-Unique p (x ∷ xs) (h, u) =
      ground (arith, by_pk-remove-none (pk x) p xs h, remove-Unique p xs u)

  pub find_sound :
      (p : Row → Bool) (r : Row) (rs : List Row)
      → Unique rs
      → find p rs ≡ some r
      → (p r ≡ true) × (by_pk (pk r) rs ≡ some r)
  find_sound p r [] u h = cc
  find_sound p r (x ∷ xs) (n, u) h =
      ground (arith, find_sound p r xs u, e.same_iff (pk x) (pk r), e.same_iff (pk r) (pk r))

  pub find_complete :
      (p : Row → Bool) (k : Key) (r : Row) (rs : List Row)
      → find p rs ≡ none
      → by_pk k rs ≡ some r
      → p r ≡ false
  find_complete p k r [] h g = cc
  find_complete p k r (x ∷ xs) h g = ground (arith, find_complete p k r xs)

  abbrev pub Rows : Type 0
  Rows = (rs : List Row) × Unique rs

  abbrev pub insert_if :
      (r : Row) (rs : List Row) → Unique rs → (o : Option Row) → by_pk (pk r) rs ≡ o → Option Rows
  insert_if r rs u none h = some (r ∷ rs, (h, u))
  insert_if r rs u (some _) h = none

  abbrev pub insert_row : Row → Rows → Option Rows
  insert_row r (rs, u) = insert_if r rs u (by_pk (pk r) rs) refl

  abbrev rows_or : Option Rows → List Row
  rows_or none = []
  rows_or (some t) = t.0

  pub by_pk-insert_if :
      (k : Key) (r : Row) (rs : List Row) (u : Unique rs) (o : Option Row) (h : by_pk (pk r) rs ≡ o)
      (t : Rows)
      → insert_if r rs u o h ≡ some t
      → by_pk k t.0 ≡ (if pk r == k then some r else by_pk k rs)
  by_pk-insert_if k r rs u none h t g = ap (λ o. by_pk k (rows_or o)) (sym g)
  by_pk-insert_if k r rs u (some _) h t g = cc

  pub insert_if_fresh :
      (r : Row) (rs : List Row) (u : Unique rs) (o : Option Row) (h : by_pk (pk r) rs ≡ o)
      (t : Rows)
      → insert_if r rs u o h ≡ some t
      → by_pk (pk r) rs ≡ none
  insert_if_fresh r rs u none h t g = h
  insert_if_fresh r rs u (some _) h t g = cc

-- The interface, met by lists of rows with distinct keys.
unfoldable pub list_table : {Key Row : Type 0} (pk : Row → Key) ⦃e : Eq Key⦄ → Table Key Row pk
list_table pk ⦃e⦄ = record {
  Rows = Rows pk;
  find_by_pk = λ k t. by_pk pk k t.0;
  find_one = λ p t. find p t.0;
  insert = insert_row pk;
  update = λ r t. (overwrite pk r t.0, overwrite-Unique pk r t.0 t.1);
  destroy = λ p t. (remove pk p t.0, remove-Unique pk p t.0 t.1);
  find_by_pk_key = λ k r t. by_pk_key pk k r t.0;
  find_by_pk-insert = λ k r t t'. by_pk-insert_if pk k r t.0 t.1 (by_pk pk (pk r) t.0) refl t';
  insert_fresh = λ r t t'. insert_if_fresh pk r t.0 t.1 (by_pk pk (pk r) t.0) refl t';
  find_by_pk-update = λ k r t. by_pk-overwrite pk k r t.0;
  find_by_pk-destroy = λ k p t. by_pk-remove pk k p t.0 t.1;
  find_one_sound = λ p r t. find_sound pk p r t.0 t.1;
  find_one_complete = λ p k r t. find_complete pk p k r t.0;
}
