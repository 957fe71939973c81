-- ===== src/Inventory.antt =====
-- inventory/inventory.service.ts: stock items, and the adjustments that are logged for them.
pub mod Stock
pub mod Alerts
use restosync_api.Base.{
  Bool, true, false, ◌&&◌, Option, none, some, List, [], ◌∷◌, String, ◌==◌, if◌then◌else◌, map,
  filter_by,
}
use restosync_api.Schema.{Uuid, Float, AuthUser, InventoryItem, StockAdjustment, AdjustmentType}
use restosync_api.Prisma.{asc_text}
use restosync_api.World.{
  World, Exec, Env, inventory_item_not_found, gets, guard, throw, pure, modify, transaction,
  update_or_throw, create_row, ◌>>=◌, ◌>>◌,
}

pub record AdjustStockDto : Type 0 where
  pub type : AdjustmentType
  pub quantity_delta : Float
  pub reason : Option String

pub record CreateInventoryItemDto : Type 0 where
  pub name : String
  pub unit : Option String
  pub quantity_on_hand : Option Float
  pub low_stock_threshold : Option Float
  pub menu_item_id : Option Uuid

-- Partial<CreateInventoryItemDto>: an undefined field is not written.
pub record UpdateInventoryItemDto : Type 0 where
  pub name : Option String
  pub unit : Option String
  pub quantity_on_hand : Option Float
  pub low_stock_threshold : Option Float
  pub menu_item_id : Option Uuid

pub data AlertLevel : Type 0 where
  critical low : AlertLevel

pub record LowStock : Type 0 where
  pub item : InventoryItem
  pub alert_level : AlertLevel

abbrev pub put_inventory_items : List InventoryItem → World → World
put_inventory_items rows w = record w { inventory_items = rows }

abbrev pub put_stock_adjustments : List StockAdjustment → World → World
put_stock_adjustments rows w = record w { stock_adjustments = rows }

-- `a ?? b`
abbrev pub or_default : {A : Type 0} → Option A → A → A
or_default none d = d
or_default (some a) d = a

abbrev pub or_kept : {A : Type 0} → Option A → Option A → Option A
or_kept none old = old
or_kept (some a) old = some a

-- `if (!item || item.restaurantId !== restaurantId) throw`
unfoldable pub item_in_restaurant : Option InventoryItem → Uuid → Exec InventoryItem
item_in_restaurant none restaurant_id = throw inventory_item_not_found
item_in_restaurant (some item) restaurant_id =
    guard (item.restaurant_id == restaurant_id) inventory_item_not_found >> pure item

unfoldable pub set_quantity : Float → InventoryItem → InventoryItem
set_quantity quantity item = record item { quantity_on_hand = quantity }

unfoldable pub adjustment : Uuid → AdjustStockDto → Uuid → Uuid → Uuid → StockAdjustment
adjustment item_id dto actor_id restaurant_id id = record {
  id = id;
  inventory_item_id = item_id;
  type = dto.type;
  quantity_delta = dto.quantity_delta;
  reason = dto.reason;
  performed_by_id = actor_id;
  restaurant_id = restaurant_id;
}

module _ (env : Env) where
  -- `Math.max(0, item.quantityOnHand + dto.quantityDelta)`
  unfoldable pub adjusted : InventoryItem → Float → Float
  adjusted item delta =
      env.floats.max (env.floats.number 0) (env.floats.add item.quantity_on_hand delta)

  -- `i.quantityOnHand === 0 ? 'CRITICAL' : 'LOW'`
  unfoldable pub alert_of : InventoryItem → AlertLevel
  alert_of i = if env.floats.same i.quantity_on_hand (env.floats.number 0) then critical else low

  unfoldable pub alerts : List InventoryItem → List LowStock
  unfolding alert_of
  alerts items =
      map (λ i. record { item = i; alert_level = alert_of i })
        (filter_by
          (λ (i : InventoryItem). env.floats.at_most i.quantity_on_hand i.low_stock_threshold)
          items)

  unfoldable pub find_item : Uuid → Uuid → Exec InventoryItem
  find_item id restaurant_id = do
    item ← gets (λ w. env.inventory_items.find_unique id w.inventory_items)
    item_in_restaurant item restaurant_id

  unfoldable pub create : CreateInventoryItemDto → AuthUser → Exec InventoryItem
  create dto user =
      create_row env.inventory_items (λ w. w.inventory_items) put_inventory_items
        λ id. record {
          id = id;
          name = dto.name;
          unit = or_default dto.unit "unit";
          quantity_on_hand = or_default dto.quantity_on_hand (env.floats.number 0);
          low_stock_threshold = or_default dto.low_stock_threshold (env.floats.number 0);
          menu_item_id = dto.menu_item_id;
          restaurant_id = user.restaurant_id;
        }

  unfoldable pub update : Uuid → UpdateInventoryItemDto → AuthUser → Exec InventoryItem
  update id dto user = do
    item ← find_item id user.restaurant_id
    update_or_throw env.inventory_items (λ w. w.inventory_items) put_inventory_items id
        (λ i. record i {
          name = or_default dto.name i.name;
          unit = or_default dto.unit i.unit;
          quantity_on_hand = or_default dto.quantity_on_hand i.quantity_on_hand;
          low_stock_threshold = or_default dto.low_stock_threshold i.low_stock_threshold;
          menu_item_id = or_kept dto.menu_item_id i.menu_item_id;
        })

  -- `onDelete: Cascade` of prisma/schema.prisma takes the adjustments of the item with it.
  unfoldable pub remove : Uuid → AuthUser → Exec (Unit {0})
  remove id user = do
    item ← find_item id user.restaurant_id
    modify (λ w. record w {
      stock_adjustments =
          env.stock_adjustments.delete_many (λ a. a.inventory_item_id == id) w.stock_adjustments;
      inventory_items = env.inventory_items.delete id w.inventory_items;
    })

  -- The body of the `$transaction` of `adjust`
  unfoldable pub write_adjustment :
      Uuid → AdjustStockDto → Uuid → Uuid → InventoryItem → Exec InventoryItem
  write_adjustment id dto actor_id restaurant_id item = do
    logged ←
        create_row env.stock_adjustments (λ w. w.stock_adjustments) put_stock_adjustments
          (adjustment id dto actor_id restaurant_id)
    update_or_throw env.inventory_items (λ w. w.inventory_items) put_inventory_items id
        (set_quantity (adjusted item dto.quantity_delta))

  unfoldable pub adjust : Uuid → AdjustStockDto → Uuid → Uuid → Exec InventoryItem
  adjust id dto actor_id restaurant_id = do
    item ← find_item id restaurant_id
    transaction (write_adjustment id dto actor_id restaurant_id item)

  unfoldable pub find_low_stock : AuthUser → Exec (List LowStock)
  find_low_stock user = gets (λ w. alerts (
      env.inventory_items.find_many
        (λ i.
          i.restaurant_id == user.restaurant_id
          && env.floats.less (env.floats.number 0) i.low_stock_threshold)
        (asc_text (λ i. i.name) ∷ []) w.inventory_items))
