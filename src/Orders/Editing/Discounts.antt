-- ===== src/Orders/Editing/Discounts.antt =====
-- orders/orders.service.ts: when `applyDiscount` returns, for a discount by percentage.
use restosync_api.Base.{ℕ, ◌*◌, ◌/◌, ◌≤◌, ◌≡◌, ◌∷◌, refl, true, false, some, arith}
use restosync_api.Base.Int.{ℤ, pos, negsuc, ltb_ℤ, ◌≤ℤ◌}
use restosync_api.Schema.{Uuid, AuthUser, Order, DiscountType}
use restosync_api.Prisma.Laws.{update_self}
use restosync_api.World.{World, done, Env, IsPrisma, ◌>>=◌, update_or_throw}
use restosync_api.Orders.Totals.{OrderWithItems, is_editable, include_items, subtotal_of}
use restosync_api.Orders.Totals.Balance.{retotal, retotalled, recalculate_totals_lem}
use restosync_api.Orders.Lifecycle.{find_order, in_restaurant}
use restosync_api.Orders.Editing.{
  ApplyDiscountDto, or_else, floor_percent, resolve_discount, discounted, discount_log,
  find_editable, apply_discount,
}

part_of : (n p : ℕ) → p ≤ 100 → n * p / 100 ≤ n
part_of n p h = let le : n * p ≤ n * 100 = grind arith in omega arith

floor_percent-le : (s : ℤ) (p : ℕ) → pos 0 ≤ℤ s → p ≤ 100 → ltb_ℤ s (floor_percent s p) ≡ false
unfolding floor_percent
floor_percent-le (pos n) p h b = let le = part_of n p b in ground arith
floor_percent-le (negsuc n) p h b = ground arith

resolve_discount-le :
    (dto : ApplyDiscountDto) (s : ℤ)
    → dto.discount_type ≡ DiscountType.percentage
    → or_else dto.discount_percent 0 ≤ 100
    → pos 0 ≤ℤ s
    → ltb_ℤ s (resolve_discount dto s) ≡ false
unfolding resolve_discount
resolve_discount-le dto s t b h = rw t (floor_percent-le s (or_else dto.discount_percent 0) h b)

discounted-id :
    (dto : ApplyDiscountDto) (amount : ℤ) (user_id : Uuid) (now : ℕ) (x : Order)
    → (discounted dto amount user_id now x).id ≡ x.id
unfolding discounted
discounted-id dto amount user_id now x = refl

module _ (env : Env) (db : IsPrisma env) (i : Uuid) (user : AuthUser) (w : World) where
  -- The checks of an editing operation let through an editable order of the restaurant.
  find_editable-passes :
      (o : Order)
      → env.orders.find_unique i w.orders ≡ some o
      → o.restaurant_id ≡ user.restaurant_id
      → is_editable o.status ≡ true
      → find_editable env i user w ≡ done o w
  unfolding find_editable find_order in_restaurant ◌>>=◌
  find_editable-passes o found own editable = ground arith

  -- In a database that keeps Prisma's laws, a discount of at most 100 percent on an order that
  -- is there, in the user's restaurant and editable, with a subtotal that is not negative, is
  -- not refused: `applyDiscount` returns.
  pub apply_discount-returns :
      (dto : ApplyDiscountDto) (o : Order)
      → env.orders.find_unique i w.orders ≡ some o
      → o.restaurant_id ≡ user.restaurant_id
      → is_editable o.status ≡ true
      → pos 0 ≤ℤ subtotal_of env i user.restaurant_id w
      → dto.discount_type ≡ DiscountType.percentage
      → or_else dto.discount_percent 0 ≤ 100
      → (view : OrderWithItems) × (v : World) × (apply_discount env i dto user w ≡ done view v)
  unfolding apply_discount update_or_throw ◌>>=◌
  apply_discount-returns dto o found own editable s t b =
      let small = resolve_discount-le dto (subtotal_of env i user.restaurant_id w) t b s in
      let r = user.restaurant_id in
      let amount = resolve_discount dto (subtotal_of env i r w) in
      let f = discounted dto amount user.id w.now in
      let u : World = record w {
        orders = env.orders.update i f w.orders;
        audit_logs = discount_log i dto amount user ∷ w.audit_logs;
      } in
      let (v, run, _) =
        recalculate_totals_lem env i r u (f o)
          (update_self db.orders i f w.orders o (discounted-id dto amount user.id w.now) found) in
      (
        include_items env (retotal env i r u (f o).discount_cents (f o))
            (retotalled env i r u (f o)),
        v,
        rw (find_editable-passes o found own editable, small) (rw (update_or_throw, found) run),
      )
