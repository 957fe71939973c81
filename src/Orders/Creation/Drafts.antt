-- ===== src/Orders/Creation/Drafts.antt =====
-- orders/orders.service.ts: the transaction of `create`, and the totals of the order that it stores.
use restosync_api.Base.{◌≡◌, refl, ap, ◌∙◌, String, false, Option, none, some, List, ◌==◌, Any}
use restosync_api.Base.Int.{pos}
use restosync_api.Schema.{Uuid, Table, TableStatus, Order, OrderItem}
use restosync_api.Prisma.Laws.{create_self, create_ne, update_self, update_ne}
use restosync_api.World.{
  World, done, Env, IsPrisma, quiet, gets, pure, transaction, update_or_throw, ◌>>=◌,
}
use restosync_api.World.Atomic.{Atomic}
use restosync_api.Realtime.Quiet.{ReturnsQuietly, table_notice}
use restosync_api.Orders.Totals.{set_totals, recalculate_totals, put_tables}
use restosync_api.Orders.Totals.Balance.{
  IsBalanced, retotal, recalculate_totals_lem, retotal-IsBalanced,
}
use restosync_api.Orders.Creation.{
  CreateOrderDto, PricedLine, item_row, create_rows, new_order, occupy, insert_order,
  announce_occupied, id_of_table,
}
use restosync_api.Orders.Creation.Lines.{PricesAll}
use restosync_api.Orders.Creation.Rows.{create_rows_keep, create_rows_store}

module _ (env : Env) (db : IsPrisma env) (r : Uuid) (customer : Option Uuid) (dto : CreateOrderDto)
    (w : World) where
  abbrev occupied : Table → Table
  occupied t = record t { status = TableStatus.occupied }

  -- The table of the order is OCCUPIED, and no other table has changed.
  abbrev pub Occupies : Option Table → World → Type 0
  Occupies none v = v.tables ≡ w.tables
  Occupies (some t) v =
      (env.tables.find_unique t.id v.tables ≡ some (record t { status = TableStatus.occupied }))
      × ((j : Uuid)
          → (t.id == j) ≡ false
          → env.tables.find_unique j v.tables ≡ env.tables.find_unique j w.tables)

  -- What a new order leaves
  pub record Creates (table : Option Table) (v : World) : Type 0 where
    pub lines : List PricedLine
    pub prices : PricesAll env r w dto.items lines
    pub currency : String
    pub order : Order
    pub unused : env.orders.find_unique order.id w.orders ≡ none
    pub stored : env.orders.find_unique order.id v.orders ≡ some order
    pub made :
        order
        ≡ set_totals order.subtotal_cents order.tax_cents order.total_cents
            (new_order env dto r customer (id_of_table env table) currency w)
    pub balanced : IsBalanced env r v order
    pub other_orders :
        (j : Uuid)
        → (order.id == j) ≡ false
        → env.orders.find_unique j v.orders ≡ env.orders.find_unique j w.orders
    pub items_stay :
        (j : Uuid) (x : OrderItem)
        → env.order_items.find_unique j w.order_items ≡ some x
        → env.order_items.find_unique j v.order_items ≡ some x
    pub items_stored :
        (line : PricedLine)
        → Any (λ l. l ≡ line) lines
        → (j : Uuid) × (env.order_items.find_unique j w.order_items ≡ none)
          × (env.order_items.find_unique j v.order_items ≡ some (item_row env order.id r line j))
    pub table_occupied : Occupies table v

  abbrev placed : Option Table → World → World
  placed none u = u
  placed (some t) u = put_tables (env.tables.update t.id occupied u.tables) u

  abbrev pub IsStored : Option Table → Type 0
  IsStored none = Unit
  IsStored (some t) = env.tables.find_unique t.id w.tables ≡ some t

  module _ (currency : String) (lines : List PricedLine) (table : Option Table) where
    abbrev pub draft : Order
    draft = new_order env dto r customer (id_of_table env table) currency w

    abbrev pub inserted : World
    inserted = placed table (record w {
      orders = env.orders.create draft w.orders;
      order_items = create_rows env draft.id r lines w.order_items;
    })

  pub stored_lem :
      (currency : String) (lines : List PricedLine) (table : Option Table)
      → IsStored table
      → transaction
          (gets (new_order env dto r customer (id_of_table env table) currency) >>= λ o.
            insert_order env o r lines >>= λ created. occupy env table >>= λ _. pure created)
          w
        ≡ done (draft currency lines table) (inserted currency lines table)
  unfolding transaction insert_order ◌>>=◌ update_or_throw
  stored_lem currency lines none h = refl
  stored_lem currency lines (some t) h = rw (transaction, update_or_throw, h) refl

  pub announced :
      (table : Option Table) (u : World) → ReturnsQuietly (announce_occupied env table r u) u
  unfolding pure
  announced none u = (u, refl, refl)
  announced (some t) u = table_notice env t.id _ u

  -- The tables after the insertion
  inserted-Occupies :
      (currency : String) (lines : List PricedLine) (table : Option Table) (v : World)
      → IsStored table
      → v.tables ≡ (inserted currency lines table).tables
      → Occupies table v
  inserted-Occupies currency lines none v h e = e
  inserted-Occupies currency lines (some t) v h e = (
    ap (λ rows. env.tables.find_unique t.id rows) e
        ∙ update_self db.tables t.id occupied w.tables t (λ x. refl) h,
    λ j ne.
        ap (λ rows. env.tables.find_unique j rows) e
        ∙ update_ne db.tables t.id j occupied w.tables (λ x. refl) ne,
  )

  placed_orders : (table : Option Table) (u : World) → (placed table u).orders ≡ u.orders
  placed_orders none u = refl
  placed_orders (some t) u = refl

  placed_items : (table : Option Table) (u : World) → (placed table u).order_items ≡ u.order_items
  placed_items none u = refl
  placed_items (some t) u = refl

  -- The recalculation of the draft ends the method.
  pub finish :
      (currency : String) (lines : List PricedLine) (table : Option Table) (u : World)
      → IsStored table
      → PricesAll env r w dto.items lines
      → quiet u ≡ quiet (inserted currency lines table)
      → Atomic
          (λ _ v. Creates table v)
          w
          (recalculate_totals env (draft currency lines table).id r u)
  unfolding new_order set_totals
  finish currency lines table u h prices same =
      let o = draft currency lines table in
      let orders : u.orders ≡ env.orders.create o w.orders =
        ap (λ (x : World). x.orders) same ∙ placed_orders table _ in
      let items : u.order_items ≡ create_rows env o.id r lines w.order_items =
        ap (λ (x : World). x.order_items) same ∙ placed_items table _ in
      let found : env.orders.find_unique o.id u.orders ≡ some o =
        ap (λ rows. env.orders.find_unique o.id rows) orders
        ∙ create_self db.orders o w.orders refl in
      let (v, run, q) = recalculate_totals_lem env o.id r u o found in
      let f = retotal env o.id r u (pos 0) in
      let v_items : v.order_items ≡ create_rows env o.id r lines w.order_items =
        ap (λ (x : World). x.order_items) q ∙ items in
      rw run (record {
        lines = lines;
        prices = prices;
        currency = currency;
        order = f o;
        unused = db.orders.found_new_id w.orders;
        stored =
            ap (λ (x : World). env.orders.find_unique o.id x.orders) q
            ∙ update_self db.orders o.id f u.orders o (λ y. refl) found;
        made = refl;
        balanced =
            retotal-IsBalanced env db o.id r u o v refl (ap (λ (x : World). x.order_items) q);
        other_orders = λ j ne.
            ap (λ (x : World). env.orders.find_unique j x.orders) q
            ∙ update_ne db.orders o.id j f u.orders (λ y. refl) ne
            ∙ ap (λ rows. env.orders.find_unique j rows) orders
            ∙ create_ne db.orders o j w.orders refl ne;
        items_stay = λ j x e.
            ap (λ rows. env.order_items.find_unique j rows) v_items
            ∙ create_rows_keep env db o.id r lines w.order_items j x e;
        items_stored = λ line there.
            let (j, free, stored) =
              create_rows_store env db o.id r lines w.order_items line there in
            (j, free, ap (λ rows. env.order_items.find_unique j rows) v_items ∙ stored);
        table_occupied =
            inserted-Occupies currency lines table v h
              (ap (λ (x : World). x.tables) q ∙ ap (λ (x : World). x.tables) same);
      })
