-- ===== src/Tables/Effects.antt =====
-- tables/tables.service.ts: what moving and removing a table do.
use restosync_api.Base.{
  ◌≡◌, refl, subst, Bool, true, false, ◌&&◌, Option, none, some, [], arith, ◌==◌,
}
use restosync_api.Schema.{
  Uuid, AuthUser, Table, TableStatus, Zone, Order, Reservation, same_table_status,
}
use restosync_api.Prisma.Laws.{==-refl}
use restosync_api.World.{World, done, Env, IsPrisma, throw, ◌>>=◌}
use restosync_api.World.Atomic.{Atomic}
use restosync_api.World.Reads.{Reads, Reads-gets, Reads-bind, reads, Atomic-read, Atomic-test}
use restosync_api.World.Removal.{
  Detached, detach_tables, detach_tables-orders, detach_tables-reservations, ==-decides,
}
use restosync_api.World.Writes.{Atomic-update_last, Atomic-delete_last}
use restosync_api.World.Owned.{Changes, update-changed, ensure_owned-Reads, ensure_owned-eq}
use restosync_api.Tables.{
  UpdateTableLayoutDto, put_tables, moved_table, ensure_table, assert_table_editable,
  refuse_without_zone, check_zone, update_layout, put_detached, remove,
}

module _ (env : Env) (db : IsPrisma env) (user : AuthUser) (w : World) where
  pub ensure_table-Reads : (i : Uuid) → Reads (ensure_table env i user)
  unfolding ensure_table
  ensure_table-Reads i = ensure_owned-Reads env.tables (λ u. u.tables) (λ t. t.restaurant_id) _ i _

  pub ensure_table-eq :
      (i : Uuid) (t : Table)
      → ensure_table env i user w ≡ done t w
      → (env.tables.find_unique i w.tables ≡ some t) × (t.restaurant_id ≡ user.restaurant_id)
  unfolding ensure_table
  ensure_table-eq i t h =
      ensure_owned-eq env.tables (λ u. u.tables) (λ x. x.restaurant_id) _ i _ w t h

  pub available_status :
      (s : TableStatus)
      → same_table_status s TableStatus.available ≡ true
      → s ≡ TableStatus.available
  available_status TableStatus.available h = refl
  available_status TableStatus.reserved h = cc
  available_status TableStatus.occupied h = cc

  -- The zone of a new place is one of the restaurant.
  zone_checked : (zone_id : Option Uuid) (x : Option Zone) → Reads (refuse_without_zone env x)
  zone_checked zone_id none = search reads
  zone_checked zone_id (some z) = search reads

  check_zone-Reads : (zone_id : Option Uuid) → Reads (check_zone env zone_id user)
  check_zone-Reads none = search reads
  check_zone-Reads (some zone_id) = Reads-bind _ _ (Reads-gets _) (zone_checked none)

  zone_found :
      (x : Option Zone) → refuse_without_zone env x w ≡ done tt w → (z : Zone) × (x ≡ some z)
  unfolding throw
  zone_found none h = cc
  zone_found (some z) h = (z, refl)

  -- A move: only the place of the table has changed, and a zone that is named is the restaurant's.
  pub record MovesTable (i : Uuid) (dto : UpdateTableLayoutDto) (v : World) : Type 0 where
    pub changes :
        Changes env.tables
          (λ u. u.tables)
          put_tables
          (λ t. t.restaurant_id)
          i
          user.restaurant_id
          (moved_table dto)
          w
          v
    pub zone :
        (zone_id : Uuid)
        → dto.zone_id ≡ some zone_id
        → (z : Zone) × (env.zones.find_unique zone_id w.zones ≡ some z)
          × (z.restaurant_id ≡ user.restaurant_id)

  zone_own :
      (zone_id : Uuid)
      → check_zone env (some zone_id) user w ≡ done tt w
      → (z : Zone) × (env.zones.find_unique zone_id w.zones ≡ some z)
        × (z.restaurant_id ≡ user.restaurant_id)
  unfolding ◌>>=◌
  zone_own zone_id h =
      let clause : Zone → Bool = λ z. z.id == zone_id && z.restaurant_id == user.restaurant_id in
      let (z, e) = zone_found (env.zones.find_first clause [] w.zones) h in
      let pass = db.zones.first_where clause [] w.zones z e in
      let found = db.zones.first_found clause [] w.zones z e in
      let same : z.id ≡ zone_id = ground arith in
      (z, subst (λ k. env.zones.find_unique k w.zones ≡ some z) same found, ground arith)

  pub update_layout-MovesTable :
      (i : Uuid) (dto : UpdateTableLayoutDto)
      → Atomic (λ _ v. MovesTable i dto v) w (update_layout env i dto user w)
  unfolding update_layout moved_table
  update_layout-MovesTable i dto =
      Atomic-read _ (ensure_table env i user) _ w (ensure_table-Reads i) λ t h.
        let (found, own) = ensure_table-eq i t h in
        Atomic-read _ (check_zone env dto.zone_id user) _ w (check_zone-Reads dto.zone_id) λ a ok.
          Atomic-update_last _ env.tables (λ u. u.tables) put_tables i (moved_table dto) w w t found
            (record {
              changes =
                  update-changed db.tables (λ u. u.tables) put_tables (λ rows u. refl)
                    (λ x. x.restaurant_id) i user.restaurant_id (moved_table dto) (λ x. refl) w t
                    found own;
              zone = λ zone_id e.
                  zone_own zone_id (subst (λ o. check_zone env o user w ≡ done tt w) e ok);
            })

  -- A removal: the table was free, it is gone, its orders and reservations have no table, and nothing
  -- else has changed.
  pub record RemovesTable (i : Uuid) (t : Table) (v : World) : Type 0 where
    pub found : env.tables.find_unique i w.tables ≡ some t
    pub own : t.restaurant_id ≡ user.restaurant_id
    pub free : t.status ≡ TableStatus.available
    pub gone : env.tables.find_unique i v.tables ≡ none
    pub others :
        (j : Uuid)
        → (i == j) ≡ false
        → env.tables.find_unique j v.tables ≡ env.tables.find_unique j w.tables
    pub orders :
        (j : Uuid)
        → Detached
            (λ k. k ≡ i)
            (λ (o : Order). o.table_id)
            (λ x o. record o { table_id = x })
            (env.orders.find_unique j w.orders)
            (env.orders.find_unique j v.orders)
    pub reservations :
        (j : Uuid)
        → Detached
            (λ k. k ≡ i)
            (λ (o : Reservation). o.table_id)
            (λ x o. record o { table_id = x })
            (env.reservations.find_unique j w.reservations)
            (env.reservations.find_unique j v.reservations)
    pub rest : v ≡ record w { tables = v.tables; orders = v.orders; reservations = v.reservations }

  pub remove-RemovesTable : (i : Uuid) → Atomic (RemovesTable i) w (remove env i user w)
  unfolding remove assert_table_editable detach_tables
  remove-RemovesTable i = Atomic-read _ (ensure_table env i user) _ w (ensure_table-Reads i) λ t h.
      let (found, own) = ensure_table-eq i t h in
      Atomic-test _ _ _ _ w λ editable.
        Atomic-delete_last _ env.tables (λ u. u.tables) (put_detached env i) i w w t found
          (record {
            found = found;
            own = own;
            free = available_status t.status editable;
            gone = rw (db.tables.found_delete i i w.tables, ==-refl i) refl;
            others = λ j ne. rw (db.tables.found_delete i j w.tables, ne) refl;
            orders = detach_tables-orders (λ k. k ≡ i) (λ k. k == i) (==-decides i) env db w;
            reservations =
                detach_tables-reservations (λ k. k ≡ i) (λ k. k == i) (==-decides i) env db w;
            rest = refl;
          })
