-- ===== src/Orders/Creation/Rows.antt =====
-- orders/orders.service.ts: the item rows that `create` stores with an order.
use restosync_api.Base.{
  ◌≡◌, refl, sym, ap, ◌∙◌, subst, none, some, List, [], ◌∷◌, ◌==◌, ==_iff, Any, Bool-cases, inl,
  inr,
}
use restosync_api.Schema.{Uuid, OrderItem}
use restosync_api.Prisma.Laws.{create_self, create_ne}
use restosync_api.World.{Env, IsPrisma}
use restosync_api.Orders.Creation.{PricedLine, item_row, create_rows}

module _ (env : Env) (db : IsPrisma env) (order_id r : Uuid) where
  -- An item that was there stays.
  pub create_rows_keep :
      (lines : List PricedLine) (rows : List OrderItem) (j : Uuid) (x : OrderItem)
      → env.order_items.find_unique j rows ≡ some x
      → env.order_items.find_unique j (create_rows env order_id r lines rows) ≡ some x
  unfolding create_rows item_row
  create_rows_keep [] rows j x e = e
  create_rows_keep (line ∷ lines) rows j x e =
      let n = env.order_items.new_id rows in
      let row = item_row env order_id r line n in
      create_rows_keep lines (env.order_items.create row rows) j x (elim (Bool-cases (n == j)) [
        | inl same ↦
            let q : n ≡ j = (==_iff n j).0 same in
            let free = db.order_items.found_new_id rows in
            let clash = subst (λ k. env.order_items.find_unique k rows ≡ none) q free in cc
        | inr other ↦ create_ne db.order_items row j rows refl other ∙ e
      ])

  -- Each line has a row under an id of its own.
  pub create_rows_store :
      (lines : List PricedLine) (rows : List OrderItem) (line : PricedLine)
      → Any (λ l. l ≡ line) lines
      → (j : Uuid) × (env.order_items.find_unique j rows ≡ none)
        × (env.order_items.find_unique j (create_rows env order_id r lines rows)
            ≡ some (item_row env order_id r line j))
  unfolding create_rows item_row
  create_rows_store [] rows line h = elim h [ ]
  create_rows_store (l ∷ lines) rows line (inl e) =
      let n = env.order_items.new_id rows in
      let row = item_row env order_id r l n in
      (
        n,
        db.order_items.found_new_id rows,
        create_rows_keep lines (env.order_items.create row rows) n row
              (create_self db.order_items row rows refl)
            ∙ ap (λ (p : PricedLine). some (item_row env order_id r p n)) e,
      )
  create_rows_store (l ∷ lines) rows line (inr later) =
      let n = env.order_items.new_id rows in
      let row = item_row env order_id r l n in
      let (j, free, stored) =
        create_rows_store lines (env.order_items.create row rows) line later in
      (j, unused rows row j refl free, stored)
    where
      unused :
          (rows : List OrderItem) (row : OrderItem) (j : Uuid)
          → row.id ≡ env.order_items.new_id rows
          → env.order_items.find_unique j (env.order_items.create row rows) ≡ none
          → env.order_items.find_unique j rows ≡ none
      unused rows row j new free = elim (Bool-cases (row.id == j)) [
        | inr other ↦ sym (create_ne db.order_items row j rows new other) ∙ free
        | inl same ↦
            let q : row.id ≡ j = (==_iff row.id j).0 same in
            subst (λ k. env.order_items.find_unique k rows ≡ none) (sym new ∙ q)
              (db.order_items.found_new_id rows)
      ]
