-- ===== src/Payments/Checkout.antt =====
-- payments/payments.service.ts: what `checkout` does.
use restosync_api.Base.{
  ◌≡◌, refl, ap, ◌∙◌, subst, true, false, Option, none, some, List, [], ◌==◌, ◌⊎◌, inl, inr,
}
use restosync_api.Base.Int.{◌-ℤ◌, at_least_zero}
use restosync_api.Schema.{
  Uuid, AuthUser, Table, Order, OrderStatus, OrderItem, Payment, TableStatus, CashRegisterSession,
  same_order_status,
}
use restosync_api.Prisma.Laws.{update_self, update_ne, create_self}
use restosync_api.World.{
  create_row, World, done, Exec, Env, IsPrisma, pure, transaction, ◌>>=◌, ◌>>◌,
}
use restosync_api.World.Atomic.{Atomic, Atomic-next, Atomic-map, Atomic-transaction}
use restosync_api.World.Reads.{
  Atomic-read, Atomic-gets, Atomic-test, Atomic-or_throw_here, not-true,
}
use restosync_api.World.Writes.{Atomic-pure}
use restosync_api.World.Ensures.{Ensures, Ensures-bind, Ensures-guard, Ensures-update, Ensures-done}
use restosync_api.Realtime.Quiet.{table_notice}
use restosync_api.Orders.Status.{can_transition}
use restosync_api.Orders.Totals.{put_orders, put_tables}
use restosync_api.Orders.Lifecycle.{set_status, find_order}
use restosync_api.Orders.Editing.Checks.{find_order-Reads, find_order-eq}
use restosync_api.CashRegister.{active_session}
use restosync_api.Payments.{
  CheckoutDto, is_paid, is_short, pos_payment, release, settle_order, announce_available,
  decrement_inventory_for_order, charge, checkout, put_payments,
}
use restosync_api.Payments.Inventory.{sale, decrement_inventory_for_order-sale}

-- The table of an order, if it has one, is available.
abbrev pub IsReleased : Env → Option Uuid → List Table → Type 0
IsReleased env none rows = Unit
IsReleased env (some i) rows =
    (t : Table) × (env.tables.find_unique i rows ≡ some t) × (t.status ≡ TableStatus.available)

-- The writes of a checkout: the order is confirmed, its table is released, and a payment of its
-- total, with the change to give back, is attached to the session. The items are as they were.
pub record Settles (env : Env) (o : Order) (dto : CheckoutDto) (session_id r : Uuid) (w : World)
    (p : Payment) (v : World) : Type 0 where
  pub allowed : can_transition o.status OrderStatus.confirmed ≡ true
  pub confirmed :
      (x : Order) × (env.orders.find_unique o.id w.orders ≡ some x)
      × (env.orders.find_unique o.id v.orders ≡ some (set_status OrderStatus.confirmed x))
  pub others :
      (j : Uuid)
      → (o.id == j) ≡ false
      → env.orders.find_unique j v.orders ≡ env.orders.find_unique j w.orders
  pub released : IsReleased env o.table_id v.tables
  pub stored : env.payments.find_unique p.id v.payments ≡ some p
  pub new : env.payments.find_unique p.id w.payments ≡ none
  pub amount : p.amount_cents ≡ o.total_cents
  pub change : p.change_cents ≡ at_least_zero (p.paid_cents -ℤ p.amount_cents)
  pub session : p.session_id ≡ some session_id
  pub items : v.order_items ≡ w.order_items

-- A checkout that sells: what it has settled, and what its best-effort notices and stock
-- adjustments have then left alone.
pub record Sells (env : Env) (o : Order) (dto : CheckoutDto) (session_id r : Uuid) (w : World)
    (p : Payment) (v : World) : Type 0 where
  pub enough : is_short dto o ≡ false
  pub unpaid :
      (i : Uuid) (x : Payment)
      → env.payments.find_unique i w.payments ≡ some x
      → is_paid o.id r x ≡ false
  pub after : World
  pub settled : Settles env o dto session_id r w p after
  pub rest : sale v ≡ sale after

-- What is returned: the payment that was there, or a new one.
abbrev pub Charged : Env → Order → CheckoutDto → Uuid → Uuid → World → Payment → World → Type 0
Charged env o dto session_id r w p v =
    ((is_paid o.id r p ≡ true) × (v ≡ w)) ⊎ Sells env o dto session_id r w p v

-- A checkout that returns: of a pending order of the user's restaurant, in an open session. A
-- payment that was already made is returned again.
pub record Checks (env : Env) (dto : CheckoutDto) (user : AuthUser) (w : World) (p : Payment)
    (v : World) : Type 0 where
  pub order : Order
  pub found : env.orders.find_unique dto.order_id w.orders ≡ some order
  pub own : order.restaurant_id ≡ user.restaurant_id
  pub pending : same_order_status order.status OrderStatus.pending ≡ true
  pub session : CashRegisterSession
  pub active : active_session env user.restaurant_id w ≡ some session
  pub charged : Charged env order dto session.id user.restaurant_id w p v

module _ (env : Env) (db : IsPrisma env) where
  -- What `release` may change
  release-eq :
      (i : Option Uuid) (w : World)
      → Ensures
          (λ _ v. IsReleased env i v.tables × (v ≡ record w { tables = v.tables }))
          (release env i w)
  unfolding pure
  release-eq none w = (tt, refl)
  release-eq (some i) w =
      Ensures-update _ env.tables (λ u. u.tables) put_tables i _ _ w
        λ t f. (
          (
            record t { status = TableStatus.available },
            update_self db.tables i _ w.tables t (λ y. refl) f,
            refl,
          ),
          refl,
        )

  set_status-id : (s : OrderStatus) (o : Order) → (set_status s o).id ≡ o.id
  unfolding set_status
  set_status-id s o = refl

  pos_payment-Settles :
      (o : Order) (dto : CheckoutDto) (session_id r : Uuid) (w u : World) (x : Order)
      → env.orders.find_unique o.id w.orders ≡ some x
      → can_transition o.status OrderStatus.confirmed ≡ true
      → IsReleased env o.table_id u.tables
      → u ≡ record w {
        orders = env.orders.update o.id (set_status OrderStatus.confirmed) w.orders;
        tables = u.tables;
      }
      → let p = pos_payment o dto session_id r (env.payments.new_id u.payments) in
        Settles env o dto session_id r w p (put_payments (env.payments.create p u.payments) u)
  unfolding pos_payment
  pos_payment-Settles o dto session_id r w u x f ok free e =
      let p = pos_payment o dto session_id r (env.payments.new_id u.payments) in
      let same : u.orders ≡ env.orders.update o.id (set_status OrderStatus.confirmed) w.orders =
        ap (λ (x : World). x.orders) e in
      let paid : u.payments ≡ w.payments = ap (λ (x : World). x.payments) e in
      record {
        allowed = ok;
        confirmed = (
          x,
          f,
          rw same (
              update_self db.orders o.id (set_status OrderStatus.confirmed) w.orders x
                (set_status-id OrderStatus.confirmed) f),
        );
        others = λ j ne. rw same (
            update_ne db.orders o.id j (set_status OrderStatus.confirmed) w.orders
              (set_status-id OrderStatus.confirmed) ne);
        released = free;
        stored = create_self db.payments p u.payments refl;
        new =
            subst (λ rows. env.payments.find_unique p.id rows ≡ none) paid
              (db.payments.found_new_id u.payments);
        amount = refl;
        change = refl;
        session = refl;
        items = ap (λ (x : World). x.order_items) e;
      }

  settle_order-Settles :
      (o : Order) (dto : CheckoutDto) (session_id r : Uuid) (w : World)
      → Ensures
          (λ p v. Settles env o dto session_id r w p v)
          (settle_order env o dto session_id r w)
  unfolding settle_order create_row
  settle_order-Settles o dto session_id r w = Ensures-guard _ _ _ _ w λ ok.
      Ensures-update _ env.orders (λ u. u.orders) put_orders o.id (set_status OrderStatus.confirmed)
        _ w
        λ x f.
          Ensures-bind _ _ (release env o.table_id) _ _ (release-eq o.table_id _)
            λ _ u (free, e). pos_payment-Settles o dto session_id r w u x f ok free e

  pub announce_available-sale :
      (i : Option Uuid) (r : Uuid) (t : Option Table) (w : World)
      → (v : World) × (announce_available env i r t w ≡ done tt v) × (sale v ≡ sale w)
  unfolding pure
  announce_available-sale none r t w = (w, refl, refl)
  announce_available-sale (some i) r t w =
      let (v, run, q) = table_notice env i _ w in (v, run, ap sale q)

  -- What follows the transaction
  finish_sale :
      (Q : Payment → World → Type 0) (o : Order) (items : List OrderItem) (t : Option Table)
      (actor : Uuid) (p : Payment) (w u : World)
      → ((v : World) → sale v ≡ sale u → Q p v)
      → Atomic Q w (
          (announce_available env o.table_id o.restaurant_id t
              >> (decrement_inventory_for_order env items o.number o.restaurant_id actor >> pure p))
            u)
  unfolding ◌>>=◌
  finish_sale Q o items t actor p w u k =
      let (x, told, q) = announce_available-sale o.table_id o.restaurant_id t u in
      let (v, run, s) =
        decrement_inventory_for_order-sale env db items o.number o.restaurant_id actor x in
      rw (told, run) (k v (s ∙ q))

  after_settling :
      (Q : Payment → World → Type 0) (o : Order) (dto : CheckoutDto) (session_id r : Uuid)
      (w : World) (k : Payment → Exec Payment)
      → ((p : Payment) (u : World) → Settles env o dto session_id r w p u → Atomic Q w (k p u))
      → Atomic Q w ((transaction (settle_order env o dto session_id r) >>= k) w)
  unfolding ◌>>=◌
  after_settling Q o dto session_id r w k h =
      Atomic-next (λ p u. Settles env o dto session_id r w p u) Q w _ k
        (Atomic-transaction _ _ w
          λ p u e. Ensures-done _ _ p u (settle_order-Settles o dto session_id r w) e)
        h

  charge-Sells :
      (dto : CheckoutDto) (user : AuthUser) (o : Order) (s : CashRegisterSession)
      (x : Option Payment) (w : World)
      → env.payments.find_first (is_paid o.id user.restaurant_id) [] w.payments ≡ x
      → Atomic (Charged env o dto s.id user.restaurant_id w) w (charge env dto user o s x w)
  unfolding charge
  charge-Sells dto user o s (some p) w e =
      Atomic-pure _ _ w w (inl (db.payments.first_where _ [] w.payments p e, refl))
  charge-Sells dto user o s none w e = Atomic-test _ _ _ _ w λ ok. Atomic-gets _ _ _ w w (
      Atomic-gets _ _ _ w w (
        after_settling (Charged env o dto s.id user.restaurant_id w) o dto s.id user.restaurant_id w
          _
          λ p u settled.
            finish_sale (Charged env o dto s.id user.restaurant_id w) o _ _ user.id p w u λ v q.
              inr (record {
                enough = not-true _ ok;
                unpaid = λ i y f. db.payments.first_none _ [] w.payments i y e f;
                after = u;
                settled = settled;
                rest = q;
              })))

  -- In a database that keeps Prisma's laws, `checkout` returns, or throws and leaves the state
  -- as it was. If it returns, the order was there, in the user's restaurant and PENDING, and a
  -- session was open. Then either the payment was an earlier one that had succeeded and nothing
  -- has changed; or no payment of the order had succeeded, cash was not short, the order is
  -- CONFIRMED, its table, if it has one, is AVAILABLE, and a new payment of its total with the
  -- change to give back is stored in the session, other orders and all items being as they
  -- were; the notices and the stock adjustments that follow change only the stock, the sockets
  -- and the log.
  pub checkout-Checks :
      (dto : CheckoutDto) (user : AuthUser) (w : World)
      → Atomic (λ p v. Checks env dto user w p v) w (checkout env dto user w)
  unfolding checkout
  checkout-Checks dto user w =
      Atomic-read _ (find_order env dto.order_id user) _ w (find_order-Reads env dto.order_id user)
        λ o e.
          let (found, own) = find_order-eq env dto.order_id user w o e in
          Atomic-test _ _ _ _ w λ pending. Atomic-gets _ _ _ w w (
            Atomic-or_throw_here _ _ _ _ w λ s active. Atomic-gets _ _ _ w w (
              Atomic-map (Charged env o dto s.id user.restaurant_id w)
                (λ p v. Checks env dto user w p v) w _ (charge-Sells dto user o s _ w refl)
                λ p v c. record {
                  order = o;
                  found = found;
                  own = own;
                  pending = pending;
                  session = s;
                  active = active;
                  charged = c;
                }))
