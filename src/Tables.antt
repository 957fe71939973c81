-- ===== src/Tables.antt =====
-- tables/tables.service.ts: the tables of a restaurant, their names and their place on the floor.
pub mod Effects
pub mod Uniqueness
use restosync_api.Base.{
  ℕ, String, Bool, true, false, not, ◌&&◌, ◌||◌, Option, none, some, List, [], ◌∷◌, map, ◌==◌,
  Option-cases, inl, inr,
}
use restosync_api.Base.Int.{ℤ}
use restosync_api.Base.Text.{Text}
use restosync_api.Schema.{
  Uuid, Float, AuthUser, Table, TableStatus, Order, OrderStatus, Zone, same_table_status,
  same_order_status,
}
use restosync_api.Prisma.{OrderBy, desc, asc_codes}
use restosync_api.World.{
  World, Exec, Env, table_not_found, table_not_editable, table_name_taken, zone_not_found, pure,
  throw, gets, guard, create_row, delete_row, update_or_throw, ◌>>=◌, ◌>>◌,
}
use restosync_api.World.Owned.{ensure_owned}
use restosync_api.World.Removal.{detach_tables}
use restosync_api.World.Unique.{assert_unique}
use restosync_api.Names.{normalize_name}
use restosync_api.Zones.{given_or}

-- dto/create-table.dto.ts
pub record CreateTableDto : Type 0 where
  pub name : Text
  pub capacity : Option ℕ

-- dto/update-table.dto.ts
pub record UpdateTableDto : Type 0 where
  pub name : Option Text
  pub capacity : Option ℕ

-- dto/update-table-layout.dto.ts
pub record UpdateTableLayoutDto : Type 0 where
  pub zone_id : Option Uuid
  pub position_x : Option Float
  pub position_y : Option Float
  pub width : Option Float
  pub height : Option Float
  pub shape : Option String

-- The columns of an order that are read with its table
pub record ActiveOrder : Type 0 where
  pub id : Uuid
  pub number : String
  pub total_cents : ℤ

pub record TableWithOrder : Type 0 where
  pub table : Table
  pub active_order : Option ActiveOrder

abbrev pub put_tables : List Table → World → World
put_tables rows w = record w { tables = rows }

-- `data: { x: dto.x }`: `undefined` leaves a column that may be null as it was.
abbrev pub given_in {ℓ} : {A : Type ℓ} → Option A → Option A → Option A
given_in none old = old
given_in (some a) old = some a

-- `ACTIVE_ORDER_STATUSES`
unfoldable pub is_active : OrderStatus → Bool
is_active s =
    not (same_order_status s OrderStatus.completed)
    && not (same_order_status s OrderStatus.cancelled)

-- The columns that are not given get their defaults.
unfoldable pub new_table : CreateTableDto → Uuid → Uuid → Table
new_table dto restaurant_id id = record {
  id = id;
  name = dto.name;
  capacity = dto.capacity;
  status = TableStatus.available;
  restaurant_id = restaurant_id;
  zone_id = none;
  position_x = none;
  position_y = none;
  width = none;
  height = none;
  shape = some "rounded";
}

unfoldable pub changed_table : UpdateTableDto → Table → Table
changed_table dto t = record t {
  name = given_or dto.name t.name;
  capacity = given_in dto.capacity t.capacity;
}

unfoldable pub moved_table : UpdateTableLayoutDto → Table → Table
moved_table dto t = record t {
  zone_id = given_in dto.zone_id t.zone_id;
  position_x = given_in dto.position_x t.position_x;
  position_y = given_in dto.position_y t.position_y;
  width = given_in dto.width t.width;
  height = given_in dto.height t.height;
  shape = given_in dto.shape t.shape;
}

abbrev pub active_columns : Order → ActiveOrder
active_columns o = record { id = o.id; number = o.number; total_cents = o.total_cents }

-- `excludeId ? { id: { not: excludeId } } : {}`
abbrev pub is_other : Option Uuid → Uuid → Bool
is_other none id = true
is_other (some excluded) id = not (id == excluded)

abbrev pub is_at : Uuid → Option Uuid → Bool
is_at id none = false
is_at id (some table_id) = table_id == id

module _ (env : Env) where
  unfoldable pub ensure_table : Uuid → AuthUser → Exec Table
  ensure_table id user =
      ensure_owned env.tables (λ w. w.tables) (λ t. t.restaurant_id) table_not_found id
        user.restaurant_id

  unfoldable pub assert_table_editable : Table → Exec (Unit {0})
  assert_table_editable t =
      guard (same_table_status t.status TableStatus.available) table_not_editable

  unfoldable pub assert_name_unique : Text → AuthUser → Option Uuid → Exec (Unit {0})
  assert_name_unique name user excluded =
      assert_unique env.tables (λ w. w.tables)
        (λ t. t.restaurant_id == user.restaurant_id && is_other excluded t.id)
        (λ t. normalize_name env t.name) (normalize_name env name) table_name_taken

  -- `if (dto.name !== undefined) await this.assertNameUnique(...)`
  abbrev pub check_name : Option Text → AuthUser → Uuid → Exec (Unit {0})
  check_name none user id = pure tt
  check_name (some name) user id = assert_name_unique name user (some id)

  unfoldable pub active_order_of : Table → Uuid → World → Option Order
  active_order_of t restaurant_id w =
      env.orders.find_first
        (λ o. is_at t.id o.table_id && is_active o.status && o.restaurant_id == restaurant_id)
        (desc (λ o. o.created_at) ∷ []) w.orders

  abbrev columns_of : Option Order → Option ActiveOrder
  columns_of none = none
  columns_of (some o) = some (active_columns o)

  -- The early return for a table that is not occupied is the first branch.
  unfoldable pub with_active_order : AuthUser → World → Table → TableWithOrder
  with_active_order user w t = record {
    table = t;
    active_order = elim (same_table_status t.status TableStatus.occupied) [
      | false ↦ none
      | true ↦ columns_of (active_order_of t user.restaurant_id w)
    ];
  }

  unfoldable pub find_all : AuthUser → Exec (List TableWithOrder)
  find_all user = do
    tables ← gets (λ w.
        env.tables.find_many (λ t. t.restaurant_id == user.restaurant_id)
          (asc_codes (λ t. t.name) ∷ []) w.tables)
    gets (λ w. map (with_active_order user w) tables)

  unfoldable pub find_one : Uuid → AuthUser → Exec TableWithOrder
  find_one id user = do t ← ensure_table id user; gets (λ w. with_active_order user w t)

  unfoldable pub create : CreateTableDto → AuthUser → Exec Table
  create dto user = do
    assert_name_unique dto.name user none
    create_row env.tables (λ w. w.tables) put_tables (new_table dto user.restaurant_id)

  unfoldable pub update : Uuid → UpdateTableDto → AuthUser → Exec Table
  update id dto user = do
    t ← ensure_table id user
    assert_table_editable t
    check_name dto.name user id
    update_or_throw env.tables (λ w. w.tables) put_tables id (changed_table dto)

  abbrev refuse_without_zone : Option Zone → Exec (Unit {0})
  refuse_without_zone none = throw zone_not_found
  refuse_without_zone (some z) = pure tt

  -- `if (dto.zoneId) { ... }`
  abbrev check_zone : Option Uuid → AuthUser → Exec (Unit {0})
  check_zone none user = pure tt
  check_zone (some zone_id) user = do
    zone ← gets (λ w.
        env.zones.find_first (λ z. z.id == zone_id && z.restaurant_id == user.restaurant_id) []
          w.zones)
    refuse_without_zone zone

  unfoldable pub update_layout : Uuid → UpdateTableLayoutDto → AuthUser → Exec Table
  update_layout id dto user = do
    t ← ensure_table id user
    check_zone dto.zone_id user
    update_or_throw env.tables (λ w. w.tables) put_tables id (moved_table dto)

  -- The tables without `id`: the orders and reservations at it lose it.
  abbrev pub put_detached : Uuid → List Table → World → World
  put_detached id rows w = put_tables rows (detach_tables env (λ j. j == id) w)

  unfoldable pub remove : Uuid → AuthUser → Exec Table
  remove id user = do
    t ← ensure_table id user
    assert_table_editable t
    delete_row env.tables (λ w. w.tables) (put_detached id) id
