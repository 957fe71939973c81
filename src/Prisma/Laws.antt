-- ===== src/Prisma/Laws.antt =====
-- What follows from the laws of the database: a write is read back, and other rows stay.
use restosync_api.Base.{ℕ, ◌≡◌, true, false, some, List, arith, ◌==◌}
use restosync_api.Schema.{Uuid}
use restosync_api.Prisma.{Delegate, IsDatabase}

pub ==-refl : (i : ℕ) → (i == i) ≡ true
==-refl i = ground arith

module _ {Row : Type 0} {id : Row → Uuid} {d : Delegate Row} (db : IsDatabase Row id d) where
  pub update_self :
      (i : Uuid) (f : Row → Row) (rows : List Row) (r : Row)
      → ((x : Row) → id (f x) ≡ id x)
      → d.find_unique i rows ≡ some r
      → d.find_unique i (d.update i f rows) ≡ some (f r)
  update_self i f rows r keep e = rw (db.found_update i i f rows keep, ==-refl i, e)

  pub update_ne :
      (i j : Uuid) (f : Row → Row) (rows : List Row)
      → ((x : Row) → id (f x) ≡ id x)
      → (i == j) ≡ false
      → d.find_unique j (d.update i f rows) ≡ d.find_unique j rows
  update_ne i j f rows keep ne = rw (db.found_update i j f rows keep, ne)

  -- The row that is created under a new id is read back, and no other row changes.
  pub create_self :
      (r : Row) (rows : List Row)
      → id r ≡ d.new_id rows
      → d.find_unique (id r) (d.create r rows) ≡ some r
  create_self r rows e =
      rw (db.found_create r (id r) rows (rw (e, db.found_new_id rows)), ==-refl (id r))

  pub create_ne :
      (r : Row) (j : Uuid) (rows : List Row)
      → id r ≡ d.new_id rows
      → (id r == j) ≡ false
      → d.find_unique j (d.create r rows) ≡ d.find_unique j rows
  create_ne r j rows e ne = rw (db.found_create r j rows (rw (e, db.found_new_id rows)), ne)
