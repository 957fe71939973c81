-- ===== src/Orders/Editing.antt =====
-- orders/orders.service.ts: the operations that edit an order that is still open, `addItem`,
-- `updateItemQuantity`, `removeItem` and `applyDiscount`. Each ends with `recalculateTotals`.
pub mod Checks
pub mod Effects
pub mod Discounts
use restosync_api.Base.{
  not, ◌&&◌, Option, none, some, List, [], ◌∷◌, String, ℕ, suc, ◌+◌, ◌*◌, ◌/◌, ◌==◌,
}
use restosync_api.Base.Int.{ℤ, pos, negsuc, sub_ℕ, ltb_ℤ}
use restosync_api.Schema.{Uuid, AuthUser, MenuItem, Order, OrderItem, DiscountType, AuditLog}
use restosync_api.World.{
  Exec, Env, not_editable, menu_item_not_found, order_item_not_found, discount_exceeds_subtotal,
  gets, guard, throw, pure, modify, or_throw, update_or_throw, ◌>>=◌, ◌>>◌,
}
use restosync_api.Modifiers.{ResolvedSelection, resolve_selections}
use restosync_api.Orders.Totals.{
  OrderWithItems, is_editable, put_orders, put_order_items, subtotal_of, recalculate_totals,
}
use restosync_api.Orders.Creation.{stored_modifiers, line_total}
use restosync_api.Orders.Lifecycle.{find_order}

pub record AddOrderItemDto : Type 0 where
  pub menu_item_id : Uuid
  pub quantity : ℕ
  pub modifier_ids : Option (List Uuid)
  pub notes : Option String

pub record UpdateOrderItemDto : Type 0 where
  pub quantity : Option ℕ
  pub notes : Option String

pub record ApplyDiscountDto : Type 0 where
  pub discount_type : DiscountType
  pub discount_cents : Option ℤ
  pub discount_percent : Option ℕ
  pub reason : Option String

unfoldable pub new_item :
    Uuid → Uuid → MenuItem → AddOrderItemDto → ResolvedSelection → Uuid → OrderItem
unfolding stored_modifiers line_total
new_item order_id restaurant_id menu_item dto resolved id = record {
  id = id;
  order_id = order_id;
  menu_item_id = menu_item.id;
  name_snapshot = menu_item.name;
  price_cents = menu_item.price_cents;
  quantity = dto.quantity;
  modifiers = stored_modifiers resolved.selections;
  modifier_delta_cents = resolved.delta_cents_per_unit;
  notes = dto.notes;
  line_total_cents = line_total menu_item.price_cents resolved.delta_cents_per_unit dto.quantity;
  restaurant_id = restaurant_id;
}

-- `a ?? b`
abbrev pub or_else : {A : Type 0} → Option A → A → A
or_else none d = d
or_else (some a) d = a

-- `if (dto.notes !== undefined) updateData.notes = dto.notes`
abbrev pub changed : {A : Type 0} → Option A → Option A → Option A
changed none old = old
changed (some a) old = some a

unfoldable pub update_item : UpdateOrderItemDto → OrderItem → OrderItem
unfolding line_total
update_item dto item = record item {
  quantity = or_else dto.quantity item.quantity;
  line_total_cents =
      line_total item.price_cents item.modifier_delta_cents (or_else dto.quantity item.quantity);
  notes = changed dto.notes item.notes;
}

-- `Math.floor((subtotalCents * percent) / 100)`, which rounds down on both sides of zero
unfoldable pub floor_percent : ℤ → ℕ → ℤ
floor_percent (pos n) percent = pos (n * percent / 100)
floor_percent (negsuc n) percent = sub_ℕ 0 ((suc n * percent + 99) / 100)

unfoldable pub resolve_discount : ApplyDiscountDto → ℤ → ℤ
unfolding floor_percent
resolve_discount dto subtotal = elim dto.discount_type [
  | DiscountType.percentage ↦ floor_percent subtotal (or_else dto.discount_percent 0)
  | DiscountType.fixed ↦ or_else dto.discount_cents (pos 0)
]

-- `dto.discountType === DiscountType.PERCENTAGE ? dto.discountPercent : null`
unfoldable pub kept_percent : ApplyDiscountDto → Option ℕ
kept_percent dto = elim dto.discount_type [
  | DiscountType.percentage ↦ dto.discount_percent
  | DiscountType.fixed ↦ none
]

unfoldable pub discounted : ApplyDiscountDto → ℤ → Uuid → ℕ → Order → Order
unfolding kept_percent
discounted dto discount user_id now o = record o {
  discount_cents = discount;
  discount_type = dto.discount_type;
  discount_percent = kept_percent dto;
  discount_applied_by = some user_id;
  discount_applied_at = some now;
  discount_reason = dto.reason;
}

unfoldable pub discount_log : Uuid → ApplyDiscountDto → ℤ → AuthUser → AuditLog
unfolding kept_percent
discount_log order_id dto discount user = record {
  entity_type = "Order";
  entity_id = order_id;
  action = "DISCOUNT_APPLIED";
  user_id = user.id;
  restaurant_id = user.restaurant_id;
  discount_type = dto.discount_type;
  discount_cents = discount;
  discount_percent = kept_percent dto;
  reason = dto.reason;
}

module _ (env : Env) where
  -- The two checks that open all four operations
  unfoldable pub find_editable : Uuid → AuthUser → Exec Order
  find_editable order_id user = do
    order ← find_order env order_id user
    guard (is_editable order.status) (not_editable order.status)
    pure order

  unfoldable pub available_item : Option MenuItem → Exec MenuItem
  available_item none = throw menu_item_not_found
  available_item (some m) = guard m.available menu_item_not_found >> pure m

  unfoldable pub find_item : Uuid → Uuid → AuthUser → Exec OrderItem
  find_item order_id order_item_id user = do
    found ← gets (λ w.
        env.order_items.find_first
          (λ i.
            i.id == order_item_id
            && i.order_id == order_id
            && i.restaurant_id == user.restaurant_id)
          [] w.order_items)
    or_throw found order_item_not_found

  unfoldable pub add_item : Uuid → AddOrderItemDto → AuthUser → Exec OrderWithItems
  add_item order_id dto user = do
    order ← find_editable order_id user
    found ← gets (λ w.
        env.menu_items.find_first
          (λ m. m.id == dto.menu_item_id && m.restaurant_id == user.restaurant_id) [] w.menu_items)
    menu_item ← available_item found
    resolved ← resolve_selections env menu_item.id dto.modifier_ids user.restaurant_id
    modify (λ w. record w {
      order_items =
          env.order_items.create
            (new_item order_id user.restaurant_id menu_item dto resolved
              (env.order_items.new_id w.order_items))
            w.order_items;
    })
    recalculate_totals env order_id user.restaurant_id

  unfoldable pub update_item_quantity :
      Uuid → Uuid → UpdateOrderItemDto → AuthUser → Exec OrderWithItems
  update_item_quantity order_id order_item_id dto user = do
    order ← find_editable order_id user
    item ← find_item order_id order_item_id user
    updated ←
        update_or_throw env.order_items (λ w. w.order_items) put_order_items order_item_id
          (update_item dto)
    recalculate_totals env order_id user.restaurant_id

  unfoldable pub remove_item : Uuid → Uuid → AuthUser → Exec OrderWithItems
  remove_item order_id order_item_id user = do
    order ← find_editable order_id user
    item ← find_item order_id order_item_id user
    modify (λ w. record w { order_items = env.order_items.delete order_item_id w.order_items })
    recalculate_totals env order_id user.restaurant_id

  unfoldable pub apply_discount : Uuid → ApplyDiscountDto → AuthUser → Exec OrderWithItems
  apply_discount order_id dto user = do
    order ← find_editable order_id user
    subtotal ← gets (subtotal_of env order_id user.restaurant_id)
    let discount = resolve_discount dto subtotal
    guard (not (ltb_ℤ subtotal discount)) discount_exceeds_subtotal
    now ← gets (λ w. w.now)
    updated ←
        update_or_throw env.orders (λ w. w.orders) put_orders order_id
          (discounted dto discount user.id now)
    modify (λ w. record w { audit_logs = discount_log order_id dto discount user ∷ w.audit_logs })
    recalculate_totals env order_id user.restaurant_id
