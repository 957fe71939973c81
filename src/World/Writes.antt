-- ===== src/World/Writes.antt =====
-- The rules for the steps of a method that write.
use restosync_api.Base.{◌≡◌, refl, some, List, Option-cases, inl, inr}
use restosync_api.Schema.{Uuid}
use restosync_api.Prisma.{Delegate}
use restosync_api.World.{
  World, Exec, pure, gets, modify, create_row, delete_row, update_or_throw, ◌>>=◌,
}
use restosync_api.World.Atomic.{Atomic}

pub Atomic-modify :
    {B : Type 0} (Q : B → World → Type 0) (f : World → World) (k : Unit {0} → Exec B) (w v : World)
    → Atomic Q w (k tt (f v))
    → Atomic Q w ((modify f >>= k) v)
unfolding ◌>>=◌
Atomic-modify Q f k w v h = h

pub Atomic-pure :
    {A : Type 0} (Q : A → World → Type 0) (a : A) (w v : World) → Q a v → Atomic Q w (pure a v)
unfolding pure
Atomic-pure Q a w v h = h

pub Atomic-gets_last :
    {A : Type 0} (Q : A → World → Type 0) (f : World → A) (w v : World)
    → Q (f v) v
    → Atomic Q w (gets f v)
unfolding gets
Atomic-gets_last Q f w v h = h

module _ {Row B : Type 0} (Q : B → World → Type 0) (d : Delegate Row) (rows : World → List Row)
    (put : List Row → World → World) (row : Uuid → Row) (k : Row → Exec B) where
  pub Atomic-create :
      (w v : World)
      → Atomic Q w
          (k (row (d.new_id (rows v))) (put (d.create (row (d.new_id (rows v))) (rows v)) v))
      → Atomic Q w ((create_row d rows put row >>= k) v)
  unfolding ◌>>=◌ create_row
  Atomic-create w v h = h

module _ {Row : Type 0} (Q : Row → World → Type 0) (d : Delegate Row) (rows : World → List Row)
    (put : List Row → World → World) (i : Uuid) where
  pub Atomic-create_last :
      (row : Uuid → Row) (w v : World)
      → Q (row (d.new_id (rows v))) (put (d.create (row (d.new_id (rows v))) (rows v)) v)
      → Atomic Q w (create_row d rows put row v)
  unfolding create_row
  Atomic-create_last row w v h = h

  pub Atomic-update_last :
      (f : Row → Row) (w v : World) (r : Row)
      → d.find_unique i (rows v) ≡ some r
      → Q (f r) (put (d.update i f (rows v)) v)
      → Atomic Q w (update_or_throw d rows put i f v)
  unfolding update_or_throw
  Atomic-update_last f w v r e h = rw (update_or_throw, e) h

  pub Atomic-delete_last :
      (w v : World) (r : Row)
      → d.find_unique i (rows v) ≡ some r
      → Q r (put (d.delete i (rows v)) v)
      → Atomic Q w (delete_row d rows put i v)
  unfolding delete_row
  Atomic-delete_last w v r e h = rw (delete_row, e) h

module _ {Row B : Type 0} (Q : B → World → Type 0) (d : Delegate Row) (rows : World → List Row)
    (put : List Row → World → World) (i : Uuid) (f : Row → Row) (k : Row → Exec B) where
  -- An update of a row that is there succeeds.
  pub Atomic-update :
      (w v : World) (r : Row)
      → d.find_unique i (rows v) ≡ some r
      → Atomic Q w (k (f r) (put (d.update i f (rows v)) v))
      → Atomic Q w ((update_or_throw d rows put i f >>= k) v)
  unfolding ◌>>=◌ update_or_throw
  Atomic-update w v r e h = rw (update_or_throw, e) h

  -- An update that opens the writing of a method fails with nothing written.
  pub Atomic-update_first :
      (w : World)
      → ((r : Row)
          → d.find_unique i (rows w) ≡ some r
          → Atomic Q w (k (f r) (put (d.update i f (rows w)) w)))
      → Atomic Q w ((update_or_throw d rows put i f >>= k) w)
  unfolding ◌>>=◌ update_or_throw
  Atomic-update_first w h = elim (Option-cases (d.find_unique i (rows w))) [
    | inl e ↦ rw (update_or_throw, e) refl
    | inr (r, e) ↦ rw (update_or_throw, e) (h r e)
  ]
