-- ===== src/Orders/Totals/Balance.antt =====
-- What `recalculateTotals` leaves in the database.
use restosync_api.World.Atomic.{Atomic}
use restosync_api.Prisma.Laws.{update_self, update_ne}
use restosync_api.Base.{
  ◌≡◌, sym, [], ◌&&◌, ◌∙◌, Option-cases, inl, inr, false, refl, none, some, ap, ◌==◌,
}
use restosync_api.Base.Int.{ℤ, pos, sum_by, ◌+ℤ◌, ◌-ℤ◌, at_least_zero}
use restosync_api.Schema.{Uuid, Order, OrderItem}
use restosync_api.World.{
  World, done, thrown, record_not_found, quiet, Env, IsPrisma, TotalsChangedPayload,
  update_or_throw, ◌>>=◌,
}
use restosync_api.Realtime.Quiet.{totals_notice}
use restosync_api.Orders.Totals.{
  subtotal_of, total_of, set_totals, items_of, include_items, recalculate_totals,
}

module _ (env : Env) (i r : Uuid) (w : World) where
  -- The change that `recalculateTotals` makes to an order with this discount
  abbrev pub retotal : ℤ → Order → Order
  retotal discount =
      set_totals (subtotal_of env i r w) (env.round_tax (subtotal_of env i r w))
        (total_of (subtotal_of env i r w) (env.round_tax (subtotal_of env i r w)) discount)

  abbrev pub retotalled : Order → World
  retotalled o = record w { orders = env.orders.update i (retotal o.discount_cents) w.orders }

  abbrev payload : Order → TotalsChangedPayload
  payload o = record {
    order_id = i;
    subtotal_cents = subtotal_of env i r w;
    tax_cents = env.round_tax (subtotal_of env i r w);
    discount_cents = o.discount_cents;
    total_cents =
        total_of (subtotal_of env i r w) (env.round_tax (subtotal_of env i r w)) o.discount_cents;
  }

  pub recalculate_totals_lem :
      (o : Order)
      → env.orders.find_unique i w.orders ≡ some o
      → (v : World) × (recalculate_totals env i r w
          ≡ done (include_items env (retotal o.discount_cents o) (retotalled o)) v)
        × (quiet v ≡ quiet (retotalled o))
  unfolding recalculate_totals update_or_throw ◌>>=◌
  recalculate_totals_lem o e =
      let (v, run, q) = totals_notice env i (payload o) (retotalled o) in
      (v, rw (e, update_or_throw, e, run), q)

  pub recalculate_totals_missing :
      env.orders.find_unique i w.orders ≡ none
      → recalculate_totals env i r w ≡ thrown record_not_found w
  unfolding recalculate_totals update_or_throw ◌>>=◌
  recalculate_totals_missing e = rw (update_or_throw, e)

-- The subtotal is a function of the order's id and of the item rows.
pub subtotal_of-eq :
    (env : Env) (r i j : Uuid) (w v : World)
    → i ≡ j
    → w.order_items ≡ v.order_items
    → subtotal_of env i r w ≡ subtotal_of env j r v
unfolding subtotal_of items_of
subtotal_of-eq env r i j w v p q = λ k.
    sum_by (λ (x : OrderItem). x.line_total_cents) (pos 0)
      (env.order_items.find_many (λ x. x.order_id == p k && x.restaurant_id == r) [] (q k))

-- An order's totals are those of its lines: the subtotal is the sum of the line totals, the tax is
-- the rounded tax of the subtotal, and the total takes the discount off and stops at zero.
abbrev pub IsBalanced : Env → Uuid → World → Order → Type 0
IsBalanced env r w o =
    (o.subtotal_cents
      ≡ sum_by (λ (x : OrderItem). x.line_total_cents) (pos 0)
          (env.order_items.find_many (λ x. x.order_id == o.id && x.restaurant_id == r) []
            w.order_items))
    × (o.tax_cents ≡ env.round_tax o.subtotal_cents)
    × (o.total_cents ≡ at_least_zero (o.subtotal_cents +ℤ o.tax_cents -ℤ o.discount_cents))

-- What a recalculation does to a world: order `i` gets its totals, and nothing else in the database
-- changes.
pub record Retotals (env : Env) (i r : Uuid) (w v : World) : Type 0 where
  pub before : Order
  pub found : env.orders.find_unique i w.orders ≡ some before
  pub balanced : (o : Order) × (env.orders.find_unique i v.orders ≡ some o) × IsBalanced env r v o
  pub kept : balanced.0 ≡ record before {
    subtotal_cents = balanced.0.subtotal_cents;
    tax_cents = balanced.0.tax_cents;
    total_cents = balanced.0.total_cents;
  }
  pub rest : quiet v ≡ quiet (record w { orders = v.orders })
  pub others :
      (j : Uuid)
      → (i == j) ≡ false
      → env.orders.find_unique j v.orders ≡ env.orders.find_unique j w.orders
  pub items : v.order_items ≡ w.order_items
  pub tables : v.tables ≡ w.tables

module _ (env : Env) (db : IsPrisma env) (i r : Uuid) (w : World) where
  pub retotal-IsBalanced :
      (o : Order) (v : World)
      → o.id ≡ i
      → v.order_items ≡ w.order_items
      → IsBalanced env r v (retotal env i r w o.discount_cents o)
  unfolding set_totals total_of subtotal_of items_of
  retotal-IsBalanced o v p q = (subtotal_of-eq env r i o.id w v (sym p) (sym q), refl, refl)

  pub retotalled-Retotals :
      (o : Order) (v : World)
      → env.orders.find_unique i w.orders ≡ some o
      → quiet v ≡ quiet (retotalled env i r w o)
      → Retotals env i r w v
  unfolding set_totals
  retotalled-Retotals o v e q = record {
    before = o;
    found = e;
    kept = refl;
    rest =
        q ∙ ap (λ rows. quiet (record w { orders = rows })) (sym (ap (λ (u : World). u.orders) q));
    balanced = (
      retotal env i r w o.discount_cents o,
      ap (λ (u : World). env.orders.find_unique i u.orders) q
          ∙ update_self db.orders i (retotal env i r w o.discount_cents) w.orders o (λ y. refl) e,
      retotal-IsBalanced o v (db.orders.found_id i w.orders o e)
          (ap (λ (u : World). u.order_items) q),
    );
    others = λ j ne.
        ap (λ (u : World). env.orders.find_unique j u.orders) q
        ∙ update_ne db.orders i j (retotal env i r w o.discount_cents) w.orders (λ y. refl) ne;
    items = ap (λ (u : World). u.order_items) q;
    tables = ap (λ (u : World). u.tables) q;
  }

  -- In a database that keeps Prisma's laws, `recalculateTotals` returns, or throws and leaves
  -- the state as it was. If it returns, the order is there with a subtotal that is the sum of
  -- its lines' totals, the rounded tax of that, and a total of subtotal plus tax less discount,
  -- stopped at zero; it is otherwise as it was, and nothing else in the database has changed.
  pub recalculate_totals-Retotals :
      Atomic (λ view v. Retotals env i r w v) w (recalculate_totals env i r w)
  recalculate_totals-Retotals = elim (Option-cases (env.orders.find_unique i w.orders)) [
    | inl e ↦ rw (recalculate_totals_missing env i r w e) refl
    | inr (o, e) ↦
        let (v, run, q) = recalculate_totals_lem env i r w o e in
        rw run (retotalled-Retotals o v e q)
  ]
