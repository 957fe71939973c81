-- ===== src/Orders/Creation/Seating.antt =====
-- orders/orders.service.ts: the look of `create` at the table, before it makes an order.
use restosync_api.Base.{◌≡◌, refl, Bool, true, ◌&&◌, Option, none, some, [], arith, ◌==◌}
use restosync_api.Schema.{Uuid, Table, TableStatus, Order, OrderType}
use restosync_api.World.{World, Env, IsPrisma, pure}
use restosync_api.World.Atomic.{Atomic}
use restosync_api.World.Reads.{Atomic-gets, Atomic-or_throw_here}
use restosync_api.World.Writes.{Atomic-pure, Atomic-gets_last}
use restosync_api.Orders.Totals.{OrderWithItems, include_items}
use restosync_api.Orders.Creation.{
  CreateOrderDto, Admission, already_open, proceed, holds_id, matches_id, is_active_order,
  active_order, admit_occupied, look_at_table, find_table, admit_type,
}

module _ (env : Env) (db : IsPrisma env) (r : Uuid) (dto : CreateOrderDto) (w : World) where
  -- An order that is there already: its table is OCCUPIED, and it is active at that table.
  pub record IsAlreadyOpen (view : OrderWithItems) : Type 0 where
    pub table : Table
    pub table_found : env.tables.find_unique table.id w.tables ≡ some table
    pub table_own : table.restaurant_id ≡ r
    pub occupied_before : table.status ≡ TableStatus.occupied
    pub order : Order
    pub found : env.orders.find_unique order.id w.orders ≡ some order
    pub own : order.restaurant_id ≡ r
    pub at_table : holds_id order.table_id table.id ≡ true
    pub active : is_active_order order.status ≡ true
    pub returned : view ≡ include_items env order w

  -- The table that a new order of a type takes
  abbrev pub TakesTable : OrderType → Option Table → Type 0
  TakesTable OrderType.takeaway none = Unit
  TakesTable OrderType.takeaway (some t) = ⊥
  TakesTable OrderType.dine_in none = ⊥
  TakesTable OrderType.dine_in (some t) =
      (env.tables.find_unique t.id w.tables ≡ some t)
      × (t.restaurant_id ≡ r)
      × (matches_id dto.table_id t.id ≡ true)

  abbrev pub Admits : OrderType → Admission → Type 0
  Admits type (already_open view) = IsAlreadyOpen view
  Admits type (proceed table) = TakesTable type table

  module _ (t : Table) (takes : TakesTable OrderType.dine_in (some t)) where
    proceeds : Atomic (λ a v. (v ≡ w) × Admits OrderType.dine_in a) w (pure (proceed (some t)) w)
    proceeds = Atomic-pure _ (proceed (some t)) w w (refl, takes)

    occupied_Admits :
        (active : Option Order)
        → t.status ≡ TableStatus.occupied
        → active_order env t.id r w ≡ active
        → Atomic (λ a v. (v ≡ w) × Admits OrderType.dine_in a) w (admit_occupied env t active w)
    unfolding active_order admit_occupied
    occupied_Admits none status e = proceeds
    occupied_Admits (some o) status e =
        let clause : Order → Bool =
          λ x. holds_id x.table_id t.id && is_active_order x.status && x.restaurant_id == r in
        let pass = db.orders.first_where clause _ w.orders o e in
        let (found_table, own_table, matches) = takes in
        Atomic-gets_last _ _ w w (
          refl,
          record {
            table = t;
            table_found = found_table;
            table_own = own_table;
            occupied_before = status;
            order = o;
            found = db.orders.first_found clause _ w.orders o e;
            own = ground arith;
            at_table = ground arith;
            active = ground arith;
            returned = refl;
          },
        )

    look_Admits :
        (s : TableStatus)
        → t.status ≡ s
        → Atomic (λ a v. (v ≡ w) × Admits OrderType.dine_in a) w (look_at_table env r t s w)
    unfolding look_at_table
    look_Admits TableStatus.available e = proceeds
    look_Admits TableStatus.reserved e = proceeds
    look_Admits TableStatus.occupied e =
        Atomic-gets _ _ _ w w (occupied_Admits (active_order env t.id r w) e refl)

  pub admit_type-Admits :
      (type : OrderType) → Atomic (λ a v. (v ≡ w) × Admits type a) w (admit_type env dto r type w)
  unfolding admit_type find_table
  admit_type-Admits OrderType.takeaway = Atomic-pure _ (proceed none) w w (refl, tt)
  admit_type-Admits OrderType.dine_in =
      let clause : Table → Bool = λ t. matches_id dto.table_id t.id && t.restaurant_id == r in
      Atomic-gets _ _ _ w w (
        Atomic-or_throw_here _ (find_table env dto.table_id r w) _ _ w λ t found.
          let pass = db.tables.first_where clause [] w.tables t found in
          look_Admits t
            (db.tables.first_found clause [] w.tables t found, ground arith, ground arith) t.status
            refl)
