-- ===== src/Orders/Creation/Effects.antt =====
-- orders/orders.service.ts: what `create` does.
use restosync_api.Base.{
  ◌≡◌, refl, sym, subst, String, Bool, true, ◌&&◌, Option, none, some, List, [], ◌∷◌, map, arith,
  includes, ◌==◌, All, ◌⊎◌, inl, inr,
}
use restosync_api.Base.Dict.{lookup}
use restosync_api.Schema.{Uuid, Table, MenuItem, OrderType}
use restosync_api.World.{World, done, Env, IsPrisma, gets, pure, transaction, ◌>>=◌}
use restosync_api.World.Atomic.{Atomic, Atomic-bind, Atomic-run, Atomic-map}
use restosync_api.World.Reads.{Atomic-gets}
use restosync_api.World.Writes.{Atomic-pure}
use restosync_api.Realtime.Quiet.{Atomic-notice}
use restosync_api.Orders.Totals.{recalculate_totals}
use restosync_api.Orders.Creation.{
  OrderLineDto, CreateOrderDto, PricedLine, Admission, already_open, proceed, currency_of,
  index_items, admit, new_order, occupy, insert_order, announce_occupied, id_of_table, create_new,
  admitted, create,
}
use restosync_api.Orders.Creation.Lines.{
  PricesAll, IndexesItems, index_items-IndexesItems, price_lines-PricesAll,
}
use restosync_api.Orders.Creation.Seating.{IsAlreadyOpen, TakesTable, Admits, admit_type-Admits}
use restosync_api.Orders.Creation.Drafts.{
  Creates, IsStored, draft, inserted, stored_lem, announced, finish,
}

module _ (env : Env) (db : IsPrisma env) (r : Uuid) (customer : Option Uuid) (dto : CreateOrderDto)
    (w : World) where
  items_own :
      (p : MenuItem → Bool) (items : List MenuItem)
      → All (λ m. (p m && m.restaurant_id == r) ≡ true) items
      → All (λ m. m.restaurant_id ≡ r) items
  items_own p [] h = tt
  items_own p (m ∷ items) (h, rest) = (ground arith, items_own p items rest)

  nothing_indexed : IndexesItems r []
  unfolding lookup
  nothing_indexed k item e = cc

  after_pricing :
      (currency : String) (lines : List PricedLine) (table : Option Table) (v : World)
      → IsStored env db r customer dto w table
      → v ≡ w
      → PricesAll env r w dto.items lines
      → Atomic
          (λ _ v. Creates env db r customer dto w table v)
          w
          ((transaction (
                gets (new_order env dto r customer (id_of_table env table) currency) >>= λ o.
                insert_order env o r lines >>= λ created. occupy env table >>= λ _. pure created)
              >>= λ order. announce_occupied env table r >>= λ _. recalculate_totals env order.id r)
            v)
  after_pricing currency lines table v h same prices =
      Atomic-run _ _ _ w v (inserted env db r customer dto w currency lines table)
        (draft env db r customer dto w currency lines table)
        (subst
          (λ u.
            transaction
              (gets (new_order env dto r customer (id_of_table env table) currency) >>= λ o.
                insert_order env o r lines >>= λ created. occupy env table >>= λ _. pure created)
              u
            ≡ done (draft env db r customer dto w currency lines table)
                (inserted env db r customer dto w currency lines table))
          (sym same) (stored_lem env db r customer dto w currency lines table h))
        (Atomic-notice _ _ _ w (inserted env db r customer dto w currency lines table)
          (announced env db r customer dto w table
            (inserted env db r customer dto w currency lines table))
          λ u q. finish env db r customer dto w currency lines table u h prices q)

  create_new-Creates :
      (table : Option Table)
      → IsStored env db r customer dto w table
      → Atomic
          (λ _ v. Creates env db r customer dto w table v)
          w
          (create_new env dto r customer table w)
  unfolding create_new
  create_new-Creates table h =
      let wanted : MenuItem → Bool =
        λ m. includes (map (λ (l : OrderLineDto). l.menu_item_id) dto.items) m.id in
      let items =
        env.menu_items.find_many (λ m. wanted m && m.restaurant_id == r) [] w.menu_items in
      let own =
        items_own wanted items
          (db.menu_items.many_where (λ m. wanted m && m.restaurant_id == r) [] w.menu_items) in
      Atomic-gets _ _ _ w w (
        Atomic-bind _ _ _ _ w
          (price_lines-PricesAll env r w (index_items items []) dto.items
            (index_items-IndexesItems r [] items nothing_indexed own))
          λ lines v (same, prices). after_pricing (currency_of items) lines table v h same prices)

  TakesTable-IsStored :
      (type : OrderType) (table : Option Table)
      → TakesTable env db r dto w type table
      → IsStored env db r customer dto w table
  TakesTable-IsStored OrderType.takeaway none h = tt
  TakesTable-IsStored OrderType.takeaway (some t) h = elim h [ ]
  TakesTable-IsStored OrderType.dine_in none h = elim h [ ]
  TakesTable-IsStored OrderType.dine_in (some t) (found, own, matches) = found

  admitted-Creates :
      (a : Admission)
      → Admits env db r dto w dto.type a
      → Atomic
          (λ view v.
            (IsAlreadyOpen env db r dto w view × (v ≡ w))
            ⊎ ((table : Option Table) × TakesTable env db r dto w dto.type table
                × Creates env db r customer dto w table v))
          w
          (admitted env dto r customer a w)
  admitted-Creates (already_open view) h = Atomic-pure _ view w w (inl (h, refl))
  admitted-Creates (proceed table) h =
      Atomic-map (λ _ v. Creates env db r customer dto w table v) _ w _
        (create_new-Creates table (TakesTable-IsStored dto.type table h))
        λ view v c. inr (table, h, c)

  -- In a database that keeps Prisma's laws, `create` returns, or throws and leaves the state as
  -- it was. If it returns, either it returns an active order of an OCCUPIED table of the
  -- restaurant and nothing has changed; or a new DRAFT order is stored under an id that was not
  -- in use, for no table if it is a takeaway and else for a table of the restaurant, the one
  -- that was asked for if an id was given, which is now OCCUPIED. Each line of the request has
  -- been priced as an available item of the restaurant with the modifiers that
  -- `resolveSelections` returned for it, and has an item row under an id that was not in use.
  -- The order's totals are those of its item rows; other orders and tables and all earlier
  -- items are as they were.
  pub create-Creates :
      Atomic
        (λ view v.
          (IsAlreadyOpen env db r dto w view × (v ≡ w))
          ⊎ ((table : Option Table) × TakesTable env db r dto w dto.type table
              × Creates env db r customer dto w table v))
        w
        (create env dto r customer w)
  unfolding create admit
  create-Creates =
      Atomic-bind (λ a v. (v ≡ w) × Admits env db r dto w dto.type a) _ _ _ w
        (admit_type-Admits env db r dto w dto.type)
        λ a v (same, h).
          subst
            (λ u.
              Atomic
                (λ view v.
                  (IsAlreadyOpen env db r dto w view × (v ≡ w))
                  ⊎ ((table : Option Table) × TakesTable env db r dto w dto.type table
                      × Creates env db r customer dto w table v))
                w (admitted env dto r customer a u))
            (sym same) (admitted-Creates a h)
