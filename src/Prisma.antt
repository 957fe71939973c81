-- ===== src/Prisma.antt =====
-- The database client, which is not code of this repository: `@prisma/client` over PostgreSQL. Its
-- operations on one model are a parameter, and `IsDatabase` states the documented behaviour that
-- the services rely on. A table's contents is the list of its rows, in no stated order.
pub mod Laws
use restosync_api.Base.{
  ℕ, String, Bool, true, false, ◌≡◌, Option, none, some, List, All, Any, ◌==◌, if◌then◌else◌,
}
use mathlib.Core.Option
use restosync_api.Schema.{Uuid}
use restosync_api.Base.Text.{Text}

-- A key of an `orderBy` clause.
pub data OrderBy (Row : Type 0) : Type 0 where
  asc desc : (Row → ℕ) → OrderBy Row
  asc_text : (Row → String) → OrderBy Row
  asc_codes : (Row → Text) → OrderBy Row

-- A `where` clause is its test of a row, and `data` is the change that it makes to one.
pub record Delegate (Row : Type 0) : Type 0 where
  pub find_unique : Uuid → List Row → Option Row
  pub find_first : (Row → Bool) → List (OrderBy Row) → List Row → Option Row
  pub find_many : (Row → Bool) → List (OrderBy Row) → List Row → List Row
  pub create : Row → List Row → List Row
  pub update : Uuid → (Row → Row) → List Row → List Row
  pub delete : Uuid → List Row → List Row
  pub delete_many : (Row → Bool) → List Row → List Row
  -- `ON DELETE SET NULL`, which the database applies to the rows that refer to a deleted one
  pub set_null : (Row → Row) → List Row → List Row
  -- `@default(uuid())`
  pub new_id : List Row → Uuid

-- What is left of a row by a deletion of the rows that satisfy a clause
abbrev pub unless : {Row : Type 0} → (Row → Bool) → Option Row → Option Row
unless p none = none
unless p (some r) = if p r then none else some r

-- What the services rely on: a row is found by its id, a write changes the row that it names and no
-- other, `findFirst` and `findMany` return the rows of the table that satisfy the clause, and a new id is
-- unused.
pub record IsDatabase (Row : Type 0) (id : Row → Uuid) (d : Delegate Row) : Type 0 where
  pub found_id : (i : Uuid) (rows : List Row) (r : Row) → d.find_unique i rows ≡ some r → id r ≡ i
  pub found_update :
      (i j : Uuid) (f : Row → Row) (rows : List Row)
      → ((r : Row) → id (f r) ≡ id r)
      → d.find_unique j (d.update i f rows)
        ≡ (if i == j then Option.map f (d.find_unique j rows) else d.find_unique j rows)
  pub found_create :
      (r : Row) (j : Uuid) (rows : List Row)
      → d.find_unique (id r) rows ≡ none
      → d.find_unique j (d.create r rows) ≡ (if id r == j then some r else d.find_unique j rows)
  pub found_delete :
      (i j : Uuid) (rows : List Row)
      → d.find_unique j (d.delete i rows) ≡ (if i == j then none else d.find_unique j rows)
  pub found_delete_many :
      (p : Row → Bool) (j : Uuid) (rows : List Row)
      → d.find_unique j (d.delete_many p rows) ≡ unless p (d.find_unique j rows)
  pub found_set_null :
      (j : Uuid) (f : Row → Row) (rows : List Row)
      → ((r : Row) → id (f r) ≡ id r)
      → d.find_unique j (d.set_null f rows) ≡ Option.map f (d.find_unique j rows)
  pub found_new_id : (rows : List Row) → d.find_unique (d.new_id rows) rows ≡ none
  pub first_where :
      (p : Row → Bool) (o : List (OrderBy Row)) (rows : List Row) (r : Row)
      → d.find_first p o rows ≡ some r
      → p r ≡ true
  pub first_found :
      (p : Row → Bool) (o : List (OrderBy Row)) (rows : List Row) (r : Row)
      → d.find_first p o rows ≡ some r
      → d.find_unique (id r) rows ≡ some r
  pub first_none :
      (p : Row → Bool) (o : List (OrderBy Row)) (rows : List Row) (i : Uuid) (r : Row)
      → d.find_first p o rows ≡ none
      → d.find_unique i rows ≡ some r
      → p r ≡ false
  pub many_where :
      (p : Row → Bool) (o : List (OrderBy Row)) (rows : List Row)
      → All (λ r. p r ≡ true) (d.find_many p o rows)
  pub many_found :
      (p : Row → Bool) (o : List (OrderBy Row)) (rows : List Row) (i : Uuid) (r : Row)
      → d.find_unique i rows ≡ some r
      → p r ≡ true
      → Any (λ x. x ≡ r) (d.find_many p o rows)
