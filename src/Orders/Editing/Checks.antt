-- ===== src/Orders/Editing/Checks.antt =====
-- The checks that open the editing operations: they only read, and what passes them.
use restosync_api.Base.{◌≡◌, Bool, true, Option, none, some, [], arith, subst, ◌==◌, ◌&&◌}
use restosync_api.Schema.{Uuid, AuthUser, Order, OrderItem, MenuItem}
use restosync_api.World.{World, done, Env, IsPrisma, or_throw, ◌>>=◌}
use restosync_api.World.Reads.{Reads, reads}
use restosync_api.Orders.Totals.{is_editable}
use restosync_api.Orders.Lifecycle.{in_restaurant, find_order}
use restosync_api.Orders.Editing.{find_editable, available_item, find_item}

in_restaurant-Reads : (o : Option Order) (r : Uuid) → Reads (in_restaurant o r)
unfolding in_restaurant
in_restaurant-Reads none r = search reads
in_restaurant-Reads (some o) r = search reads

pub available_item-Reads : (env : Env) (m : Option MenuItem) → Reads (available_item env m)
unfolding available_item
available_item-Reads env none = search reads
available_item-Reads env (some m) = search reads

module _ (env : Env) where
  pub find_order-Reads : (i : Uuid) (user : AuthUser) → Reads (find_order env i user)
  unfolding find_order
  find_order-Reads i user = search (reads, in_restaurant-Reads)

  pub find_editable-Reads : (i : Uuid) (user : AuthUser) → Reads (find_editable env i user)
  unfolding find_editable
  find_editable-Reads i user = search (reads, find_order-Reads)

  pub find_item-Reads : (i j : Uuid) (user : AuthUser) → Reads (find_item env i j user)
  unfolding find_item
  find_item-Reads i j user = search reads

  pub find_order-eq :
      (i : Uuid) (user : AuthUser) (w : World) (o : Order)
      → find_order env i user w ≡ done o w
      → (env.orders.find_unique i w.orders ≡ some o) × (o.restaurant_id ≡ user.restaurant_id)
  unfolding find_order in_restaurant ◌>>=◌
  find_order-eq i user w o h = ground arith

  -- The item that is found has the given id, and belongs to the order and to the restaurant.
  pub find_item-eq :
      (db : IsPrisma env) (i j : Uuid) (user : AuthUser) (w : World) (x : OrderItem)
      → find_item env i j user w ≡ done x w
      → (env.order_items.find_unique j w.order_items ≡ some x)
        × (x.order_id ≡ i)
        × (x.restaurant_id ≡ user.restaurant_id)
  unfolding find_item or_throw ◌>>=◌
  find_item-eq db i j user w x h =
      let clause : OrderItem → Bool =
        λ y. y.id == j && y.order_id == i && y.restaurant_id == user.restaurant_id in
      let e : env.order_items.find_first clause [] w.order_items ≡ some x = ground arith in
      let pass = db.order_items.first_where clause [] w.order_items x e in
      let found = db.order_items.first_found clause [] w.order_items x e in
      let same : x.id ≡ j = ground arith in
      (
        subst (λ k. env.order_items.find_unique k w.order_items ≡ some x) same found,
        ground arith,
        ground arith,
      )

  -- What an order that may be edited satisfies.
  pub find_editable-eq :
      (i : Uuid) (user : AuthUser) (w : World) (o : Order)
      → find_editable env i user w ≡ done o w
      → (env.orders.find_unique i w.orders ≡ some o)
        × (o.restaurant_id ≡ user.restaurant_id)
        × (is_editable o.status ≡ true)
  unfolding find_editable find_order in_restaurant ◌>>=◌
  find_editable-eq i user w o h = ground arith
