-- ===== src/Payments/Returns.antt =====
-- payments/payments.service.ts: when `checkout` returns.
use restosync_api.Base.{◌≡◌, refl, sym, subst, true, false, arith, Option, none, some, List, []}
use restosync_api.Schema.{
  same_order_status, Uuid, AuthUser, Table, Order, OrderStatus, Payment, CashRegisterSession,
  TableStatus,
}
use restosync_api.World.{
  World, done, Env, IsPrisma, pure, transaction, create_row, update_or_throw, ◌>>=◌,
}
use restosync_api.Orders.Status.{can_transition}
use restosync_api.Orders.Totals.{put_orders, put_tables, include_items}
use restosync_api.Orders.Lifecycle.{set_status}
use restosync_api.Orders.Lifecycle.Returns.{find_order-passes}
use restosync_api.CashRegister.{active_session}
use restosync_api.Payments.{
  CheckoutDto, is_paid, is_short, pos_payment, release, settle_order, find_table_of, charge,
  checkout, put_payments,
}
use restosync_api.Payments.Inventory.{decrement_inventory_for_order-sale}
use restosync_api.Payments.Checkout.{announce_available-sale}

-- The table that an order names is there.
abbrev pub HasTable : Env → Option Uuid → List Table → Type 0
HasTable env none rows = Unit
HasTable env (some i) rows = (t : Table) × (env.tables.find_unique i rows ≡ some t)

is_pending :
    (s : OrderStatus) → s ≡ OrderStatus.pending → same_order_status s OrderStatus.pending ≡ true
is_pending s e = ground arith

pending_may_be_confirmed :
    (s : OrderStatus) → s ≡ OrderStatus.pending → can_transition s OrderStatus.confirmed ≡ true
unfolding can_transition
pending_may_be_confirmed s e = rw e refl

module _ (env : Env) where
  release-returns :
      (i : Option Uuid) (w : World)
      → HasTable env i w.tables
      → (v : World) × (release env i w ≡ done tt v)
  unfolding pure update_or_throw ◌>>=◌
  release-returns none w h = (w, refl)
  release-returns (some i) w (t, found) = (
    put_tables (env.tables.update i (λ x. record x { status = TableStatus.available }) w.tables) w,
    rw (update_or_throw, found) refl,
  )

  settle_order-returns :
      (o : Order) (dto : CheckoutDto) (session_id r : Uuid) (w : World)
      → env.orders.find_unique o.id w.orders ≡ some o
      → can_transition o.status OrderStatus.confirmed ≡ true
      → HasTable env o.table_id w.tables
      → (u : World) × (settle_order env o dto session_id r w
          ≡ done (pos_payment o dto session_id r (env.payments.new_id u.payments)) (
              put_payments
                (env.payments.create
                  (pos_payment o dto session_id r (env.payments.new_id u.payments))
                  u.payments)
                u))
  unfolding settle_order create_row update_or_throw ◌>>=◌
  settle_order-returns o dto session_id r w found ok table =
      let (u, run) =
        release-returns o.table_id
          (put_orders (env.orders.update o.id (set_status OrderStatus.confirmed) w.orders) w)
          table in
      (u, rw ok (rw (update_or_throw, found) (rw run refl)))

module _ (env : Env) (db : IsPrisma env) (user : AuthUser) (w : World) where
  charge-returns :
      (dto : CheckoutDto) (o : Order) (s : CashRegisterSession)
      → env.orders.find_unique o.id w.orders ≡ some o
      → can_transition o.status OrderStatus.confirmed ≡ true
      → HasTable env o.table_id w.tables
      → is_short dto o ≡ false
      → (p : Payment) × (v : World) × (charge env dto user o s none w ≡ done p v)
        × (p.amount_cents ≡ o.total_cents)
        × (p.session_id ≡ some s.id)
  unfolding charge pos_payment transaction ◌>>=◌
  charge-returns dto o s found ok table enough =
      let (u, settled) = settle_order-returns env o dto s.id user.restaurant_id w found ok table in
      let p = pos_payment o dto s.id user.restaurant_id (env.payments.new_id u.payments) in
      let (x, told, _) =
        announce_available-sale env db o.table_id o.restaurant_id (find_table_of env o.table_id w)
          (put_payments (env.payments.create p u.payments) u) in
      let (v, sold, _) =
        decrement_inventory_for_order-sale env db (include_items env o w).items o.number
          o.restaurant_id user.id x in
      (p, v, rw enough (rw (transaction, settled) (rw told (rw sold refl))), refl, refl)

  -- In a database that keeps Prisma's laws, `checkout` returns a payment of the order's total
  -- in the open session if the order is there, in the user's restaurant and PENDING, a session
  -- is open, no payment of the order has succeeded, cash is not short, and the table that the
  -- order names, if any, is there.
  pub checkout-returns :
      (dto : CheckoutDto) (o : Order) (s : CashRegisterSession)
      → env.orders.find_unique dto.order_id w.orders ≡ some o
      → o.restaurant_id ≡ user.restaurant_id
      → o.status ≡ OrderStatus.pending
      → active_session env user.restaurant_id w ≡ some s
      → env.payments.find_first (is_paid o.id user.restaurant_id) [] w.payments ≡ none
      → is_short dto o ≡ false
      → HasTable env o.table_id w.tables
      → (p : Payment) × (v : World) × (checkout env dto user w ≡ done p v)
        × (p.amount_cents ≡ o.total_cents)
        × (p.session_id ≡ some s.id)
  unfolding checkout ◌>>=◌
  checkout-returns dto o s found own pending active unpaid enough table =
      let here : env.orders.find_unique o.id w.orders ≡ some o =
        subst (λ i. env.orders.find_unique i w.orders ≡ some o)
          (sym (db.orders.found_id dto.order_id w.orders o found)) found in
      let (p, v, run, amount, session) =
        charge-returns dto o s here (pending_may_be_confirmed o.status pending) table enough in
      (
        p,
        v,
        rw (find_order-passes env dto.order_id user w o found own, is_pending o.status pending)
            (rw active (rw unpaid run)),
        amount,
        session,
      )
