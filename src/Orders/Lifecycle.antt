-- ===== src/Orders/Lifecycle.antt =====
-- orders/orders.service.ts: reading an order, and the operations that change its status.
pub mod Effects
pub mod Returns
use restosync_api.Base.{
  Bool, true, false, not, ◌&&◌, Option, none, some, List, [], ◌∷◌, ◌==◌, length, if◌then◌else◌,
}
use restosync_api.Schema.{Uuid, AuthUser, Role, Order, OrderStatus}
use restosync_api.Prisma.{asc}
use restosync_api.World.{
  Exec, Env, order_not_found, order_forbidden, bad_transition, empty_order, gets, guard, throw,
  pure, update_or_throw, ◌>>=◌, ◌>>◌,
}
use restosync_api.Realtime.{emit_realtime_event, emit_status_changed}
use restosync_api.Orders.Status.{can_transition, includes_status}
use restosync_api.Orders.Totals.{OrderWithItems, include_items, put_orders}

abbrev pub is_customer : Role → Bool
is_customer Role.customer = true
is_customer r = false

-- `order.customerId !== user.id`
abbrev pub is_own : Option Uuid → Uuid → Bool
is_own none user_id = false
is_own (some customer_id) user_id = customer_id == user_id

-- `if (!order || order.restaurantId !== user.restaurantId) throw`
unfoldable pub in_restaurant : Option Order → Uuid → Exec Order
in_restaurant none restaurant_id = throw order_not_found
in_restaurant (some o) restaurant_id =
    guard (o.restaurant_id == restaurant_id) order_not_found >> pure o

unfoldable pub set_status : OrderStatus → Order → Order
set_status s o = record o { status = s }

module _ (env : Env) where
  unfoldable pub find_order : Uuid → AuthUser → Exec Order
  find_order id user = do
    order ← gets (λ w. env.orders.find_unique id w.orders)
    in_restaurant order user.restaurant_id

  unfoldable pub find_one : Uuid → AuthUser → Exec OrderWithItems
  find_one id user = do
    order ← find_order id user
    guard (not (is_customer user.role && not (is_own order.customer_id user.id))) order_forbidden
    gets (include_items env order)

  unfoldable pub find_open : AuthUser → Exec (List Order)
  find_open user = gets (λ w.
      env.orders.find_many
        (λ o.
          o.restaurant_id == user.restaurant_id
          && includes_status (OrderStatus.draft ∷ OrderStatus.pending ∷ []) o.status)
        (asc (λ o. o.created_at) ∷ []) w.orders)

  unfoldable pub update_status : Uuid → OrderStatus → AuthUser → Exec OrderWithItems
  update_status id following user = do
    order ← find_order id user
    guard (can_transition order.status following) (bad_transition order.status following)
    updated ← update_or_throw env.orders (λ w. w.orders) put_orders id (set_status following)
    view ← gets (include_items env updated)
    emit_realtime_event id (
        emit_status_changed env
          (record { order_id = id; status = following; previous_status = order.status }))
    pure view

  unfoldable pub confirm_found : Uuid → Option Order → Exec (Unit {0})
  confirm_found id none = pure tt
  confirm_found id (some o) =
      if can_transition o.status OrderStatus.confirmed
      then (do
        updated ←
            update_or_throw env.orders (λ w. w.orders) put_orders id
              (set_status OrderStatus.confirmed)
        pure tt)
      else pure tt

  unfoldable pub mark_confirmed : Uuid → Exec (Unit {0})
  mark_confirmed id = do
    order ← gets (λ w. env.orders.find_unique id w.orders)
    confirm_found id order

  unfoldable pub confirm_order : Uuid → AuthUser → Exec OrderWithItems
  confirm_order order_id user = do
    order ← find_order order_id user
    view ← gets (include_items env order)
    guard (not (length view.items == 0)) empty_order
    guard (can_transition order.status OrderStatus.pending)
        (bad_transition order.status OrderStatus.pending)
    updated ←
        update_or_throw env.orders (λ w. w.orders) put_orders order_id
          (set_status OrderStatus.pending)
    gets (include_items env updated)
