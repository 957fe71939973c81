-- ===== src/Orders/Totals.antt =====
-- orders/orders.service.ts: an order with its items, and `recalculateTotals`.
pub mod Balance
use restosync_api.Base.{Bool, Option, none, some, List, [], ◌∷◌, ◌&&◌, ◌==◌}
use restosync_api.Base.Int.{ℤ, pos, ◌+ℤ◌, ◌-ℤ◌, at_least_zero, sum_by}
use restosync_api.Schema.{Uuid, Table, Order, OrderItem, OrderStatus}
use restosync_api.World.{World, Exec, Env, gets, pure, update_or_throw, ◌>>=◌, ◌>>◌}
use restosync_api.Realtime.{emit_realtime_event, emit_totals_changed}
use restosync_api.Orders.Status.{includes_status}

-- An order with `orderInclude`
pub record OrderWithItems : Type 0 where
  pub order : Order
  pub open order use *
  pub items : List OrderItem

-- EDITABLE_STATUSES.includes(status)
unfoldable pub is_editable : OrderStatus → Bool
unfolding includes_status
is_editable = includes_status (OrderStatus.draft ∷ OrderStatus.pending ∷ [])

abbrev pub put_orders : List Order → World → World
put_orders rows w = record w { orders = rows }

abbrev pub put_tables : List Table → World → World
put_tables rows w = record w { tables = rows }

abbrev pub put_order_items : List OrderItem → World → World
put_order_items rows w = record w { order_items = rows }

-- `order?.discountCents ?? 0`
unfoldable pub discount_of : Option Order → ℤ
discount_of none = pos 0
discount_of (some order) = order.discount_cents

unfoldable pub total_of : ℤ → ℤ → ℤ → ℤ
total_of subtotal tax discount = at_least_zero (subtotal +ℤ tax -ℤ discount)

-- `data: { subtotalCents, taxCents, totalCents }`
unfoldable pub set_totals : ℤ → ℤ → ℤ → Order → Order
set_totals subtotal tax total o = record o {
  subtotal_cents = subtotal;
  tax_cents = tax;
  total_cents = total;
}

module _ (env : Env) where
  unfoldable pub include_items : Order → World → OrderWithItems
  include_items o w = record {
    order = o;
    items = env.order_items.find_many (λ i. i.order_id == o.id) [] w.order_items;
  }

  -- `prisma.orderItem.findMany({ where: { orderId, restaurantId } })`
  unfoldable pub items_of : Uuid → Uuid → World → List OrderItem
  items_of order_id restaurant_id w =
      env.order_items.find_many (λ i. i.order_id == order_id && i.restaurant_id == restaurant_id) []
        w.order_items

  unfoldable pub subtotal_of : Uuid → Uuid → World → ℤ
  unfolding items_of sum_by
  subtotal_of order_id restaurant_id w =
      sum_by (λ i. i.line_total_cents) (pos 0) (items_of order_id restaurant_id w)

  unfoldable pub recalculate_totals : Uuid → Uuid → Exec OrderWithItems
  unfolding discount_of
  recalculate_totals order_id restaurant_id = do
    order ← gets (λ w. env.orders.find_unique order_id w.orders)
    subtotal ← gets (subtotal_of order_id restaurant_id)
    let tax = env.round_tax subtotal
    let total = total_of subtotal tax (discount_of order)
    updated ←
        update_or_throw env.orders (λ w. w.orders) put_orders order_id
          (set_totals subtotal tax total)
    view ← gets (include_items updated)
    emit_realtime_event order_id (
        emit_totals_changed env (record {
          order_id = order_id;
          subtotal_cents = subtotal;
          tax_cents = tax;
          discount_cents = discount_of order;
          total_cents = total;
        }))
    pure view
