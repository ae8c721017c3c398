-- ===== src/Database.antt =====
-- What the code relies on in sequelize: a table as an interface, operations and laws. The models
-- of src/databases/models are its clients; `ListTable` is an implementation.
pub mod ListTable
use nestjs_framework_templat.Prelude.{
  Bool, true, false, Option, none, some, ◌≡◌, Eq, ◌==◌, if◌then◌else◌,
}

-- A row that a `DELETE … WHERE p` leaves.
abbrev pub unless : {Row : Type 0} → (Row → Bool) → Option Row → Option Row
unless p none = none
unless p (some r) = if p r then none else some r

-- A row that an `UPDATE` of another row with its key replaces.
abbrev pub replaced : {Row : Type 0} → Row → Option Row → Option Row
replaced r none = none
replaced r (some _) = some r

-- `find_by_pk` is `Model.findByPk`, `find_one` is `Model.findOne({ where })`, `insert` is
-- `Model.build().save()` (`none` when the database refuses the row), `update` is `save` of a row
-- that exists, `destroy` deletes the rows of a condition.
pub record Table (Key Row : Type 0) (pk : Row → Key) ⦃e : Eq Key⦄ : Type 1 where
  pub Rows : Type 0
  pub find_by_pk : Key → Rows → Option Row
  pub find_one : (Row → Bool) → Rows → Option Row
  pub insert : Row → Rows → Option Rows
  pub update : Row → Rows → Rows
  pub destroy : (Row → Bool) → Rows → Rows
  pub find_by_pk_key : (k : Key) (r : Row) (t : Rows) → find_by_pk k t ≡ some r → pk r ≡ k
  pub find_by_pk-insert :
      (k : Key) (r : Row) (t t' : Rows)
      → insert r t ≡ some t'
      → find_by_pk k t' ≡ (if pk r == k then some r else find_by_pk k t)
  pub insert_fresh : (r : Row) (t t' : Rows) → insert r t ≡ some t' → find_by_pk (pk r) t ≡ none
  pub find_by_pk-update :
      (k : Key) (r : Row) (t : Rows)
      → find_by_pk k (update r t)
        ≡ (if pk r == k then replaced r (find_by_pk k t) else find_by_pk k t)
  pub find_by_pk-destroy :
      (k : Key) (p : Row → Bool) (t : Rows) → find_by_pk k (destroy p t) ≡ unless p (find_by_pk k t)
  pub find_one_sound :
      (p : Row → Bool) (r : Row) (t : Rows)
      → find_one p t ≡ some r
      → (p r ≡ true) × (find_by_pk (pk r) t ≡ some r)
  pub find_one_complete :
      (p : Row → Bool) (k : Key) (r : Row) (t : Rows)
      → find_one p t ≡ none
      → find_by_pk k t ≡ some r
      → p r ≡ false
