-- ===== src/Orders/Lifecycle/Returns.antt =====
-- orders/orders.service.ts: when `updateStatus` returns.
use restosync_api.Base.{◌≡◌, refl, true, some, arith}
use restosync_api.Schema.{Uuid, AuthUser, Order, OrderStatus}
use restosync_api.World.{World, done, Env, update_or_throw, ◌>>=◌}
use restosync_api.Realtime.Quiet.{status_notice}
use restosync_api.Orders.Status.{can_transition}
use restosync_api.Orders.Totals.{OrderWithItems, include_items, put_orders}
use restosync_api.Orders.Lifecycle.{find_order, in_restaurant, set_status, update_status}

module _ (env : Env) (i : Uuid) (user : AuthUser) (w : World) (o : Order) where
  pub find_order-passes :
      env.orders.find_unique i w.orders ≡ some o
      → o.restaurant_id ≡ user.restaurant_id
      → find_order env i user w ≡ done o w
  unfolding find_order in_restaurant ◌>>=◌
  find_order-passes found own = ground arith

  -- If the order is there, in the user's restaurant, and its status may be followed by the
  -- given one, `updateStatus` returns the order with that status, whether or not the sockets
  -- take the notice.
  pub update_status-returns :
      (to : OrderStatus)
      → env.orders.find_unique i w.orders ≡ some o
      → o.restaurant_id ≡ user.restaurant_id
      → can_transition o.status to ≡ true
      → (view : OrderWithItems) × (v : World) × (update_status env i to user w ≡ done view v)
        × (view.order ≡ set_status to o)
  unfolding update_status include_items update_or_throw ◌>>=◌
  update_status-returns to found own allowed =
      let u = put_orders (env.orders.update i (set_status to) w.orders) w in
      let (v, run, _) =
        status_notice env i (record { order_id = i; status = to; previous_status = o.status }) u in
      (
        include_items env (set_status to o) u,
        v,
        rw (find_order-passes found own, allowed) (rw (update_or_throw, found, run) refl),
        refl,
      )
