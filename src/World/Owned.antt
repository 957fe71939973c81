-- ===== src/World/Owned.antt =====
-- The check `ensureExists` of the services: a row is found by its id, and it belongs to the
-- caller's restaurant.
use restosync_api.Base.{◌≡◌, refl, false, Option, none, some, List, arith, ◌==◌}
use restosync_api.Schema.{Uuid}
use restosync_api.Prisma.{Delegate, IsDatabase}
use restosync_api.Prisma.Laws.{update_self, update_ne}
use restosync_api.World.{
  World, Error, done, Exec, gets, guard, throw, pure, update_or_throw, ◌>>=◌, ◌>>◌,
}
use restosync_api.World.Atomic.{Atomic}
use restosync_api.World.Reads.{Reads, Atomic-read, reads}
use restosync_api.World.Writes.{Atomic-update_last}

-- `if (!row || row.restaurantId !== user.restaurantId) throw e`
unfoldable pub owned : {Row : Type 0} → (Row → Uuid) → Error → Uuid → Option Row → Exec Row
owned restaurant e r none = throw e
owned restaurant e r (some x) = guard (restaurant x == r) e >> pure x

module _ {Row : Type 0} (d : Delegate Row) (rows : World → List Row) (restaurant : Row → Uuid)
    (e : Error) (i r : Uuid) where
  unfoldable pub ensure_owned : Exec Row
  ensure_owned = do found ← gets (λ w. d.find_unique i (rows w)); owned restaurant e r found

  owned-Reads : (x : Option Row) → Reads (owned restaurant e r x)
  unfolding owned
  owned-Reads none = search reads
  owned-Reads (some x) = search reads

  pub ensure_owned-Reads : Reads ensure_owned
  unfolding ensure_owned
  ensure_owned-Reads = search (reads, owned-Reads)

  owned-eq :
      (x : Option Row) (w : World) (y : Row)
      → owned restaurant e r x w ≡ done y w
      → (x ≡ some y) × (restaurant y ≡ r)
  unfolding owned ◌>>=◌
  owned-eq none w y h = cc
  owned-eq (some x) w y h = ground arith

  pub ensure_owned-eq :
      (w : World) (y : Row)
      → ensure_owned w ≡ done y w
      → (d.find_unique i (rows w) ≡ some y) × (restaurant y ≡ r)
  unfolding ensure_owned ◌>>=◌
  ensure_owned-eq w y h = owned-eq (d.find_unique i (rows w)) w y h

-- The row `i`, which belongs to restaurant `r`, has been changed by `f`, and nothing else has.
pub record Changes {Row : Type 0} (d : Delegate Row) (rows : World → List Row)
    (put : List Row → World → World) (restaurant : Row → Uuid) (i r : Uuid) (f : Row → Row)
    (w v : World) : Type 0 where
  pub row : Row
  pub found : d.find_unique i (rows w) ≡ some row
  pub own : restaurant row ≡ r
  pub stored : d.find_unique i (rows v) ≡ some (f row)
  pub others : (j : Uuid) → (i == j) ≡ false → d.find_unique j (rows v) ≡ d.find_unique j (rows w)
  pub rest : v ≡ put (rows v) w

module _ {Row : Type 0} {id : Row → Uuid} {d : Delegate Row} (db : IsDatabase Row id d)
    (rows : World → List Row) (put : List Row → World → World)
    (get_put : (xs : List Row) (w : World) → rows (put xs w) ≡ xs) (restaurant : Row → Uuid)
    (i r : Uuid) (f : Row → Row) (keep : (x : Row) → id (f x) ≡ id x) (w : World) where
  pub update-changed :
      (x : Row)
      → d.find_unique i (rows w) ≡ some x
      → restaurant x ≡ r
      → Changes d rows put restaurant i r f w (put (d.update i f (rows w)) w)
  update-changed x found own = record {
    row = x;
    found = found;
    own = own;
    stored = rw (get_put (d.update i f (rows w)) w) (update_self db i f (rows w) x keep found);
    others = λ j ne. rw (get_put (d.update i f (rows w)) w) (update_ne db i j f (rows w) keep ne);
    rest = rw (get_put (d.update i f (rows w)) w) refl;
  }

  -- An update of a row that has been found
  pub update-Changes :
      (x : Row)
      → d.find_unique i (rows w) ≡ some x
      → restaurant x ≡ r
      → Atomic (λ _ v. Changes d rows put restaurant i r f w v) w (update_or_throw d rows put i f w)
  update-Changes x found own =
      Atomic-update_last _ d rows put i f w w x found (update-changed x found own)

  pub ensure_update-Changes :
      (e : Error)
      → Atomic
          (λ _ v. Changes d rows put restaurant i r f w v)
          w
          ((ensure_owned d rows restaurant e i r >>= λ _. update_or_throw d rows put i f) w)
  ensure_update-Changes e =
      Atomic-read _ (ensure_owned d rows restaurant e i r) _ w
        (ensure_owned-Reads d rows restaurant e i r)
        λ x h.
          let (found, own) = ensure_owned-eq d rows restaurant e i r w x h in
          update-Changes x found own
