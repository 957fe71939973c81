-- ===== src/Zones/Deletion.antt =====
-- zones/zones.service.ts: what `remove` does to the zone, its tables, and what refers to these.
use mathlib.Core.Option
use restosync_api.Base.{
  ◌≡◌, ◌⊎◌, ◌↔◌, arith, Bool, Bool-cases, refl, ap, subst, true, false, ◌&&◌, Option, none, some,
  [], ◌==◌, ==_iff, inl, inr,
}
use restosync_api.Schema.{Uuid, AuthUser, Zone, Table, TableStatus, Order, Reservation}
use restosync_api.Prisma.{unless}
use restosync_api.Prisma.Laws.{==-refl}
use restosync_api.World.{World, Env, IsPrisma, modify, transaction, ◌>>=◌}
use restosync_api.World.Atomic.{Atomic}
use restosync_api.World.Removal.{
  cut, detach_tables, Cuts, Detached, cut-Cuts, detach_tables-orders, detach_tables-reservations,
  ==-decides,
}
use restosync_api.World.Reads.{Atomic-read, Atomic-gets}
use restosync_api.Zones.{
  ensure_zone, in_zone, is_in_use, is_deleted, is_blocking, refuse_blocked, delete_zone, remove,
}
use restosync_api.Zones.Effects.{ensure_zone-Reads, ensure_zone-eq}

module _ (env : Env) (db : IsPrisma env) (user : AuthUser) (w : World) where
  -- A table that goes with zone `i`
  abbrev pub OfZone : Uuid → Table → Type 0
  OfZone i t = (t.zone_id ≡ some i) × (t.restaurant_id ≡ user.restaurant_id)

  abbrev pub DeletedTable : Uuid → Uuid → Type 0
  DeletedTable i j = (t : Table) × (env.tables.find_unique j w.tables ≡ some t) × OfZone i t

  -- A table before and after: one of the zone was AVAILABLE and is gone, and any other is as it was,
  -- but no longer refers to the zone.
  abbrev pub TableAfter : Uuid → Option Table → Option Table → Type 0
  TableAfter i none after = after ≡ none
  TableAfter i (some t) after =
      (OfZone i t × (t.status ≡ TableStatus.available) × (after ≡ none))
      ⊎ ((¬ OfZone i t)
          × (zone_id : Option Uuid) × Cuts (λ k. k ≡ i) t.zone_id zone_id
          × (after ≡ some (record t { zone_id = zone_id })))

  -- Deleting a zone: it is gone with its tables, which were free and are now no order's and no
  -- reservation's, and nothing else has changed.
  pub record Deletes (i : Uuid) (v : World) : Type 0 where
    pub zone : Zone
    pub found : env.zones.find_unique i w.zones ≡ some zone
    pub own : zone.restaurant_id ≡ user.restaurant_id
    pub gone : env.zones.find_unique i v.zones ≡ none
    pub other_zones :
        (j : Uuid)
        → (i == j) ≡ false
        → env.zones.find_unique j v.zones ≡ env.zones.find_unique j w.zones
    pub tables :
        (j : Uuid)
        → TableAfter i (env.tables.find_unique j w.tables) (env.tables.find_unique j v.tables)
    pub orders :
        (j : Uuid)
        → Detached
            (DeletedTable i)
            (λ (o : Order). o.table_id)
            (λ x o. record o { table_id = x })
            (env.orders.find_unique j w.orders)
            (env.orders.find_unique j v.orders)
    pub reservations :
        (j : Uuid)
        → Detached
            (DeletedTable i)
            (λ (r : Reservation). r.table_id)
            (λ x r. record r { table_id = x })
            (env.reservations.find_unique j w.reservations)
            (env.reservations.find_unique j v.reservations)
    pub rest : v ≡ record w {
      tables = v.tables;
      zones = v.zones;
      orders = v.orders;
      reservations = v.reservations;
    }

  in_zone_iff : (i : Uuid) (x : Option Uuid) → (in_zone i x ≡ true) ↔ (x ≡ some i)
  in_zone_iff i none = (λ h. cc, λ h. cc)
  in_zone_iff i (some j) = (λ h. ap some ((==_iff j i).0 h), λ h. (==_iff j i).1 (cc))

  in_zone-OfZone :
      (i : Uuid) (t : Table)
      → (OfZone i t × ((in_zone i t.zone_id && t.restaurant_id == user.restaurant_id) ≡ true))
        ⊎ ((¬ OfZone i t)
            × ((in_zone i t.zone_id && t.restaurant_id == user.restaurant_id) ≡ false))
  in_zone-OfZone i t =
      elim (Bool-cases (in_zone i t.zone_id && t.restaurant_id == user.restaurant_id)) [
        | inl e ↦
            let inside : in_zone i t.zone_id ≡ true = ground arith in
            let same : t.restaurant_id ≡ user.restaurant_id = ground arith in
            inl (((in_zone_iff i t.zone_id).0 inside, same), e)
        | inr e ↦
            inr (λ (zone, same). let inside = (in_zone_iff i t.zone_id).1 zone in ground arith, e)
      ]

  is_deleted-DeletedTable :
      (i j : Uuid) (x : Option Table)
      → env.tables.find_unique j w.tables ≡ x
      → (DeletedTable i j × (is_deleted env i user.restaurant_id x ≡ true))
        ⊎ ((¬ DeletedTable i j) × (is_deleted env i user.restaurant_id x ≡ false))
  is_deleted-DeletedTable i j none f = inr (λ (t, found, of_zone). cc, refl)
  is_deleted-DeletedTable i j (some t) f = elim (in_zone-OfZone i t) [
    | inl (of_zone, e) ↦ inl ((t, f, of_zone), e)
    | inr (other, e) ↦
        inr
          (λ (u, found, of_zone). let same : u ≡ t = cc in other (subst (OfZone i) same of_zone), e)
  ]

  not_in_use : (s : TableStatus) → is_in_use s ≡ false → s ≡ TableStatus.available
  unfolding is_in_use
  not_in_use TableStatus.available h = refl
  not_in_use TableStatus.reserved h = cc
  not_in_use TableStatus.occupied h = cc

  table_after :
      (i : Uuid) (x : Option Table)
      → ((t : Table) → x ≡ some t → is_blocking env i user.restaurant_id t ≡ false)
      → TableAfter i x (
          Option.map
            (λ (t : Table). record t { zone_id = cut (λ j. j == i) t.zone_id })
            (unless (λ t. in_zone i t.zone_id && t.restaurant_id == user.restaurant_id) x))
  unfolding is_blocking
  table_after i none free = refl
  table_after i (some t) free = elim (in_zone-OfZone i t) [
    | inl (of_zone, e) ↦
        let allowed = free t refl in inl (of_zone, not_in_use t.status (ground arith), rw e refl)
    | inr (other, e) ↦
        inr (other, _, cut-Cuts (λ k. k ≡ i) (λ k. k == i) (==-decides i) t.zone_id, rw e refl)
  ]

  remove_free :
      (i : Uuid) (z : Zone) (x : Option Table)
      → env.zones.find_unique i w.zones ≡ some z
      → z.restaurant_id ≡ user.restaurant_id
      → env.tables.find_first (is_blocking env i user.restaurant_id) [] w.tables ≡ x
      → Atomic
          (λ _ v. Deletes i v)
          w
          ((refuse_blocked env x >>= λ _.
              transaction (modify (delete_zone env i user.restaurant_id)))
            w)
  unfolding transaction delete_zone detach_tables ◌>>=◌
  remove_free i z (some t) found own e = refl
  remove_free i z none found own e =
      let deleted : Uuid → Bool =
        λ j. is_deleted env i user.restaurant_id (env.tables.find_unique j w.tables) in
      let agree =
        λ (j : Uuid). is_deleted-DeletedTable i j (env.tables.find_unique j w.tables) refl in
      let clause : Table → Bool =
        λ t. in_zone i t.zone_id && t.restaurant_id == user.restaurant_id in
      record {
        zone = z;
        found = found;
        own = own;
        gone = rw (db.zones.found_delete i i w.zones, ==-refl i);
        other_zones = λ j ne. rw (db.zones.found_delete i j w.zones, ne);
        tables = λ j.
            rw
              (
                db.tables.found_set_null j (λ t. record t { zone_id = cut (λ k. k == i) t.zone_id })
                    (env.tables.delete_many clause w.tables) (λ t. refl),
                db.tables.found_delete_many clause j w.tables,
              )
              (table_after i (env.tables.find_unique j w.tables)
                λ t f. db.tables.first_none _ [] w.tables j t e f);
        orders = detach_tables-orders (DeletedTable i) deleted agree env db w;
        reservations = detach_tables-reservations (DeletedTable i) deleted agree env db w;
        rest = refl;
      }

  -- In a database that keeps Prisma's laws, the removal of a zone returns, or throws and leaves
  -- the state as it was. If it returns, the zone was there, in the user's restaurant, and its
  -- tables in that restaurant were AVAILABLE; the zone and these tables are gone, the orders
  -- and reservations at them have no table, a table that is left no longer refers to the zone,
  -- and all else is as it was.
  pub remove-Deletes : (i : Uuid) → Atomic (λ _ v. Deletes i v) w (remove env i user w)
  unfolding remove
  remove-Deletes i =
      Atomic-read _ (ensure_zone env i user) _ w (ensure_zone-Reads env db user w i) λ z h.
        let (found, own) = ensure_zone-eq env db user w i z h in
        Atomic-gets _ _ _ w w (remove_free i z _ found own refl)
