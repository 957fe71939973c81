-- ===== src/Orders/Creation.antt =====
-- orders/orders.service.ts: `create`. The steps of the method are functions of their own: the table
-- of a dine-in order, the priced lines, the transaction, and the notice to the floor plan.
pub mod Lines
pub mod Rows
pub mod Seating
pub mod Drafts
pub mod Effects
use restosync_api.Base.{
  Bool, true, false, ◌&&◌, Option, none, some, List, [], ◌∷◌, map, includes, String, ◌==◌, ℕ,
}
use restosync_api.Base.Int.{ℤ, pos, ◌+ℤ◌, ◌*ℤ◌}
use restosync_api.Base.Dict.{lookup, insert}
use restosync_api.Schema.{
  Uuid, Table, TableStatus, MenuItem, Order, OrderItem, OrderType, OrderStatus, DiscountType,
  ResolvedModifierSelection,
}
use restosync_api.Prisma.{desc}
use restosync_api.World.{
  World, Exec, Env, table_not_found, menu_item_missing, menu_item_unavailable, gets, guard, pure,
  modify, or_throw, transaction, update_or_throw, ◌>>=◌, ◌>>◌,
}
use restosync_api.Realtime.{emit_realtime_event, emit_table_status_changed}
use restosync_api.Modifiers.{ResolvedSelection, resolve_selections}
use restosync_api.Orders.Status.{includes_status}
use restosync_api.Orders.Totals.{OrderWithItems, include_items, recalculate_totals, put_tables}

pub record OrderLineDto : Type 0 where
  pub menu_item_id : Uuid
  pub quantity : ℕ
  pub modifier_ids : Option (List Uuid)
  pub notes : Option String

pub record CreateOrderDto : Type 0 where
  pub type : OrderType
  pub table_id : Option Uuid
  pub items : List OrderLineDto
  pub notes : Option String

-- An entry of `orderItems`
pub record PricedLine : Type 0 where
  pub menu_item_id : Uuid
  pub name_snapshot : String
  pub price_cents : ℤ
  pub quantity : ℕ
  pub modifiers : Option (List ResolvedModifierSelection)
  pub modifier_delta_cents : ℤ
  pub notes : Option String
  pub line_total_cents : ℤ

-- ACTIVE_ORDER_STATUSES, every status but the two that end an order
unfoldable pub is_active_order : OrderStatus → Bool
unfolding includes_status
is_active_order = includes_status (
    OrderStatus.draft ∷ OrderStatus.pending ∷ OrderStatus.confirmed ∷ OrderStatus.preparing
    ∷ OrderStatus.ready ∷ [])

-- `id: dto.tableId` in a `where`: an undefined value is no condition.
abbrev pub matches_id : Option Uuid → Uuid → Bool
matches_id none id = true
matches_id (some wanted) id = id == wanted

-- `tableId: table.id` on the nullable column
abbrev pub holds_id : Option Uuid → Uuid → Bool
holds_id none id = false
holds_id (some held) id = held == id

-- `resolved.selections.length ? resolved.selections : undefined`
unfoldable pub stored_modifiers :
    List ResolvedModifierSelection → Option (List ResolvedModifierSelection)
stored_modifiers [] = none
stored_modifiers (s ∷ rest) = some (s ∷ rest)

unfoldable pub line_total : ℤ → ℤ → ℕ → ℤ
line_total price delta quantity = (price +ℤ delta) *ℤ pos quantity

-- `menuItems[0]?.currency ?? 'usd'`
unfoldable pub currency_of : List MenuItem → String
currency_of [] = "usd"
currency_of (m ∷ rest) = m.currency

-- `new Map(menuItems.map((m) => [m.id, m]))`
unfoldable pub index_items : List MenuItem → List (Uuid × MenuItem) → List (Uuid × MenuItem)
index_items [] by_id = by_id
index_items (m ∷ rest) by_id = index_items rest (insert m.id m by_id)

unfoldable pub priced_line : MenuItem → OrderLineDto → ResolvedSelection → PricedLine
unfolding stored_modifiers line_total
priced_line item line resolved = record {
  menu_item_id = item.id;
  name_snapshot = item.name;
  price_cents = item.price_cents;
  quantity = line.quantity;
  modifiers = stored_modifiers resolved.selections;
  modifier_delta_cents = resolved.delta_cents_per_unit;
  notes = line.notes;
  line_total_cents = line_total item.price_cents resolved.delta_cents_per_unit line.quantity;
}

-- What the look at the table yields: an order that is returned as it is, or a table to be occupied.
pub data Admission : Type 0 where
  already_open : OrderWithItems → Admission
  proceed : Option Table → Admission

module _ (env : Env) where
  -- The loop over `dto.items`
  unfoldable pub price_lines :
      List (Uuid × MenuItem) → Uuid → List OrderLineDto → Exec (List PricedLine)
  unfolding priced_line
  price_lines by_id restaurant_id [] = pure []
  price_lines by_id restaurant_id (line ∷ rest) = do
    item ← or_throw (lookup line.menu_item_id by_id) menu_item_missing
    guard item.available menu_item_unavailable
    resolved ← resolve_selections env item.id line.modifier_ids restaurant_id
    priced ← price_lines by_id restaurant_id rest
    pure (priced_line item line resolved ∷ priced)

  unfoldable pub active_order : Uuid → Uuid → World → Option Order
  unfolding is_active_order
  active_order table_id restaurant_id w =
      env.orders.find_first
        (λ o.
          holds_id o.table_id table_id
          && is_active_order o.status
          && o.restaurant_id == restaurant_id)
        (desc (λ o. o.created_at) ∷ []) w.orders

  abbrev admit_occupied : Table → Option Order → Exec Admission
  unfolding include_items
  admit_occupied table none = pure (proceed (some table))
  admit_occupied table (some o) = gets (λ w. already_open (include_items env o w))

  -- The look at a table of this status
  unfoldable pub look_at_table : Uuid → Table → TableStatus → Exec Admission
  unfolding admit_occupied active_order
  look_at_table restaurant_id table TableStatus.occupied = do
    active ← gets (active_order table.id restaurant_id)
    admit_occupied table active
  look_at_table restaurant_id table status = pure (proceed (some table))

  -- `prisma.table.findFirst({ where: { id: dto.tableId, restaurantId } })`
  unfoldable pub find_table : Option Uuid → Uuid → World → Option Table
  find_table table_id restaurant_id w =
      env.tables.find_first (λ t. matches_id table_id t.id && t.restaurant_id == restaurant_id) []
        w.tables

  unfoldable pub admit_type : CreateOrderDto → Uuid → OrderType → Exec Admission
  unfolding look_at_table find_table
  admit_type dto restaurant_id OrderType.takeaway = pure (proceed none)
  admit_type dto restaurant_id OrderType.dine_in = do
    found ← gets (find_table dto.table_id restaurant_id)
    table ← or_throw found table_not_found
    look_at_table restaurant_id table table.status

  unfoldable pub admit : CreateOrderDto → Uuid → Exec Admission
  unfolding admit_type
  admit dto restaurant_id = admit_type dto restaurant_id dto.type

  unfoldable pub item_row : Uuid → Uuid → PricedLine → Uuid → OrderItem
  item_row order_id restaurant_id line id = record {
    id = id;
    order_id = order_id;
    menu_item_id = line.menu_item_id;
    name_snapshot = line.name_snapshot;
    price_cents = line.price_cents;
    quantity = line.quantity;
    modifiers = line.modifiers;
    modifier_delta_cents = line.modifier_delta_cents;
    notes = line.notes;
    line_total_cents = line.line_total_cents;
    restaurant_id = restaurant_id;
  }

  -- `items: { create: orderItems.map(...) }`
  unfoldable pub create_rows : Uuid → Uuid → List PricedLine → List OrderItem → List OrderItem
  unfolding item_row
  create_rows order_id restaurant_id [] rows = rows
  create_rows order_id restaurant_id (line ∷ rest) rows = create_rows order_id restaurant_id rest (
      env.order_items.create (item_row order_id restaurant_id line (env.order_items.new_id rows))
        rows)

  -- The row of `tx.order.create`: a draft whose totals are still zero
  unfoldable pub new_order :
      CreateOrderDto → Uuid → Option Uuid → Option Uuid → String → World → Order
  new_order dto restaurant_id customer_id table_id currency w = record {
    id = env.orders.new_id w.orders;
    number = env.order_number w.now;
    customer_id = customer_id;
    type = dto.type;
    status = OrderStatus.draft;
    table_id = table_id;
    subtotal_cents = pos 0;
    tax_cents = pos 0;
    total_cents = pos 0;
    discount_cents = pos 0;
    discount_type = DiscountType.fixed;
    discount_percent = none;
    discount_applied_by = none;
    discount_applied_at = none;
    discount_reason = none;
    currency = currency;
    notes = dto.notes;
    restaurant_id = restaurant_id;
    created_at = w.now;
  }

  abbrev occupy : Option Table → Exec (Unit {0})
  occupy none = pure tt
  occupy (some t) = do
    updated ←
        update_or_throw env.tables (λ w. w.tables) put_tables t.id
          (λ r. record r { status = TableStatus.occupied })
    pure tt

  unfoldable pub insert_order : Order → Uuid → List PricedLine → Exec Order
  insert_order o restaurant_id lines = do
    modify (λ w. record w {
      orders = env.orders.create o w.orders;
      order_items = create_rows o.id restaurant_id lines w.order_items;
    })
    pure o

  abbrev announce_occupied : Option Table → Uuid → Exec (Unit {0})
  announce_occupied none restaurant_id = pure tt
  announce_occupied (some t) restaurant_id = emit_realtime_event t.id (
      emit_table_status_changed env (record {
        table_id = t.id;
        restaurant_id = restaurant_id;
        status = TableStatus.occupied;
        zone_id = t.zone_id;
      }))

  abbrev id_of_table : Option Table → Option Uuid
  id_of_table none = none
  id_of_table (some t) = some t.id

  unfoldable pub create_new :
      CreateOrderDto → Uuid → Option Uuid → Option Table → Exec OrderWithItems
  unfolding insert_order
  create_new dto restaurant_id customer_id table = do
    menu_items ← gets (λ w.
        env.menu_items.find_many
          (λ m.
            includes (map (λ (l : OrderLineDto). l.menu_item_id) dto.items) m.id
            && m.restaurant_id == restaurant_id)
          [] w.menu_items)
    let currency = currency_of menu_items
    lines ← price_lines (index_items menu_items []) restaurant_id dto.items
    order ← transaction (do
      o ← gets (new_order dto restaurant_id customer_id (id_of_table table) currency)
      created ← insert_order o restaurant_id lines
      occupy table
      pure created)
    announce_occupied table restaurant_id
    recalculate_totals env order.id restaurant_id

  abbrev admitted : CreateOrderDto → Uuid → Option Uuid → Admission → Exec OrderWithItems
  admitted dto restaurant_id customer_id (already_open view) = pure view
  admitted dto restaurant_id customer_id (proceed table) =
      create_new dto restaurant_id customer_id table

  unfoldable pub create : CreateOrderDto → Uuid → Option Uuid → Exec OrderWithItems
  create dto restaurant_id customer_id = do
    admission ← admit dto restaurant_id
    admitted dto restaurant_id customer_id admission
