-- ===== src/Orders/Editing/Effects.antt =====
-- orders/orders.service.ts: what the editing operations do.
use restosync_api.Base.{
  ℕ, ◌≡◌, refl, ap, ◌∙◌, true, false, String, Option, none, some, ◌∷◌, ◌==◌, ◌⊎◌, inl, inr,
}
use restosync_api.Base.Int.{pos, ltb_ℤ, ◌+ℤ◌, ◌*ℤ◌}
use restosync_api.Schema.{Uuid, AuthUser, Order, OrderItem, MenuItem}
use restosync_api.Prisma.Laws.{update_self, update_ne, ==-refl, create_self, create_ne}
use restosync_api.World.{World, done, Env, IsPrisma, gets, quiet}
use restosync_api.World.Atomic.{Atomic}
use restosync_api.World.Reads.{Reads-gets, Atomic-read, Atomic-gets, Atomic-test, not-true}
use restosync_api.World.Writes.{Atomic-modify, Atomic-update, Atomic-update_first}
use restosync_api.Modifiers.{ResolvedSelection, resolve_selections}
use restosync_api.Modifiers.Reads.{resolve_selections-Reads}
use restosync_api.Orders.Totals.{
  is_editable, put_order_items, put_orders, set_totals, subtotal_of, recalculate_totals,
}
use restosync_api.Orders.Totals.Balance.{
  IsBalanced, retotal, retotalled, recalculate_totals_lem, retotalled-Retotals,
}
use restosync_api.Orders.Creation.{line_total}
use restosync_api.Orders.Editing.{
  AddOrderItemDto, UpdateOrderItemDto, ApplyDiscountDto, find_editable, available_item, find_item,
  new_item, or_else, changed, update_item, discount_log, resolve_discount, discounted, add_item,
  update_item_quantity, remove_item, apply_discount,
}
use restosync_api.Orders.Editing.Checks.{
  find_editable-Reads, find_editable-eq, find_item-Reads, find_item-eq, available_item-Reads,
}

-- The order that was there could be edited by this user; now its totals are those of its lines, and
-- neither another order nor a table has changed.
pub record Edits (env : Env) (i : Uuid) (user : AuthUser) (w v : World) : Type 0 where
  pub order : Order
  pub found : env.orders.find_unique i w.orders ≡ some order
  pub own : order.restaurant_id ≡ user.restaurant_id
  pub editable : is_editable order.status ≡ true
  pub balanced :
      (o : Order) × (env.orders.find_unique i v.orders ≡ some o)
      × IsBalanced env user.restaurant_id v o
  pub others :
      (j : Uuid)
      → (i == j) ≡ false
      → env.orders.find_unique j v.orders ≡ env.orders.find_unique j w.orders
  pub tables : v.tables ≡ w.tables

or_else-cases :
    {A : Type 0} (x : Option A) (d : A)
    → (x ≡ some (or_else x d)) ⊎ ((x ≡ none) × (or_else x d ≡ d))
or_else-cases none d = inr (refl, refl)
or_else-cases (some a) d = inl refl

changed-cases :
    {A : Type 0} (x old : Option A)
    → ((a : A) × (x ≡ some a) × (changed x old ≡ some a)) ⊎ ((x ≡ none) × (changed x old ≡ old))
changed-cases none old = inr (refl, refl)
changed-cases (some a) old = inl (a, refl, refl)

module _ (env : Env) (db : IsPrisma env) (i : Uuid) (user : AuthUser) (w : World) where
  -- `recalculateTotals` at the end of an operation that has changed items, or order `i`.
  finish_quiet :
      (Q : World → Type 0) (w' : World) (before after : Order)
      → find_editable env i user w ≡ done before w
      → env.orders.find_unique i w'.orders ≡ some after
      → ((j : Uuid)
          → (i == j) ≡ false
          → env.orders.find_unique j w'.orders ≡ env.orders.find_unique j w.orders)
      → w'.tables ≡ w.tables
      → ((v : World) → quiet v ≡ quiet (retotalled env i user.restaurant_id w' after) → Q v)
      → Atomic
          (λ _ v. Edits env i user w v × Q v)
          w
          (recalculate_totals env i user.restaurant_id w')
  finish_quiet Q w' before after e f others tables k =
      let (v, run, q) = recalculate_totals_lem env i user.restaurant_id w' after f in
      let t = retotalled-Retotals env db i user.restaurant_id w' after v f q in
      let (found, own, editable) = find_editable-eq env i user w before e in
      rw run (
        record {
          order = before;
          found = found;
          own = own;
          editable = editable;
          balanced = t.balanced;
          others = λ j ne. t.others j ne ∙ others j ne;
          tables = t.tables ∙ tables;
        },
        k v q,
      )

  finish :
      (Q : World → Type 0) (w' : World) (before after : Order)
      → find_editable env i user w ≡ done before w
      → env.orders.find_unique i w'.orders ≡ some after
      → ((j : Uuid)
          → (i == j) ≡ false
          → env.orders.find_unique j w'.orders ≡ env.orders.find_unique j w.orders)
      → w'.tables ≡ w.tables
      → ((v : World) → v.order_items ≡ w'.order_items → Q v)
      → Atomic
          (λ _ v. Edits env i user w v × Q v)
          w
          (recalculate_totals env i user.restaurant_id w')
  finish Q w' before after e f others tables k =
      finish_quiet Q w' before after e f others tables
        λ v q. k v (ap (λ (u : World). u.order_items) q)

  -- The item that `addItem` has created: it is priced, it belongs to the order, and no other item
  -- has changed.
  pub record Adds (dto : AddOrderItemDto) (v : World) : Type 0 where
    pub item : OrderItem
    pub stored : env.order_items.find_unique item.id v.order_items ≡ some item
    pub of_order : item.order_id ≡ i
    pub ordered : item.quantity ≡ dto.quantity
    pub priced :
        item.line_total_cents ≡ (item.price_cents +ℤ item.modifier_delta_cents) *ℤ pos item.quantity
    pub was_free : env.order_items.find_unique item.id w.order_items ≡ none
    pub others :
        (j : Uuid)
        → (item.id == j) ≡ false
        → env.order_items.find_unique j v.order_items ≡ env.order_items.find_unique j w.order_items

  new_item-Adds :
      (dto : AddOrderItemDto) (m : MenuItem) (s : ResolvedSelection) (v : World)
      → v.order_items
        ≡ env.order_items.create
            (new_item i user.restaurant_id m dto s (env.order_items.new_id w.order_items))
            w.order_items
      → Adds dto v
  unfolding new_item line_total
  new_item-Adds dto m s v e =
      let x = new_item i user.restaurant_id m dto s (env.order_items.new_id w.order_items) in
      record {
        item = x;
        stored = rw e (create_self db.order_items x w.order_items refl);
        of_order = refl;
        ordered = refl;
        priced = refl;
        was_free = db.order_items.found_new_id w.order_items;
        others = λ j ne. rw e (create_ne db.order_items x j w.order_items refl ne);
      }

  -- In a database that keeps Prisma's laws, `addItem` returns, or throws and leaves the state
  -- as it was. If it returns, the order was there, in the user's restaurant and editable (DRAFT
  -- or PENDING); its subtotal is now the sum of its lines' totals, its tax the rounded tax of
  -- that, and its total subtotal plus tax less discount, stopped at zero; no other order and no
  -- table has changed; and there is one new item under a new id, of this order, with the given
  -- quantity and the price (unit price + modifiers) * quantity, while the other items are as
  -- they were.
  pub add_item-Edits :
      (dto : AddOrderItemDto)
      → Atomic (λ _ v. Edits env i user w v × Adds dto v) w (add_item env i dto user w)
  unfolding add_item
  add_item-Edits dto =
      Atomic-read _ (find_editable env i user) _ w (find_editable-Reads env i user) λ o e.
        Atomic-read _ (gets _) _ w (Reads-gets _) λ found _.
          Atomic-read _ (available_item env found) _ w (available_item-Reads env found) λ m _.
            Atomic-read _ (resolve_selections env m.id dto.modifier_ids user.restaurant_id) _ w
              (resolve_selections-Reads env m.id dto.modifier_ids user.restaurant_id)
              λ s _. Atomic-modify _ _ _ w w (
                finish (Adds dto) _ o o e (find_editable-eq env i user w o e).0 (λ j ne. refl) refl
                  (new_item-Adds dto m s))

  -- The item that `updateItemQuantity` names, which is one of the order, has the new quantity, a
  -- line total at its old price, and the new notes.
  pub record Requantifies (j : Uuid) (dto : UpdateOrderItemDto) (v : World) : Type 0 where
    pub item : OrderItem
    pub found : env.order_items.find_unique j w.order_items ≡ some item
    pub of_order : item.order_id ≡ i
    pub own : item.restaurant_id ≡ user.restaurant_id
    pub quantity : ℕ
    pub ordered :
        (dto.quantity ≡ some quantity) ⊎ ((dto.quantity ≡ none) × (quantity ≡ item.quantity))
    pub notes : Option String
    pub noted :
        ((s : String) × (dto.notes ≡ some s) × (notes ≡ some s))
        ⊎ ((dto.notes ≡ none) × (notes ≡ item.notes))
    pub stored :
        env.order_items.find_unique j v.order_items
        ≡ some (record item {
          quantity = quantity;
          line_total_cents = (item.price_cents +ℤ item.modifier_delta_cents) *ℤ pos quantity;
          notes = notes;
        })
    pub others :
        (k : Uuid)
        → (j == k) ≡ false
        → env.order_items.find_unique k v.order_items ≡ env.order_items.find_unique k w.order_items

  update_item_stored :
      (j : Uuid) (dto : UpdateOrderItemDto) (x : OrderItem)
      → env.order_items.find_unique j w.order_items ≡ some x
      → env.order_items.find_unique j (env.order_items.update j (update_item dto) w.order_items)
        ≡ some (record x {
          quantity = or_else dto.quantity x.quantity;
          line_total_cents =
              (x.price_cents +ℤ x.modifier_delta_cents) *ℤ pos (or_else dto.quantity x.quantity);
          notes = changed dto.notes x.notes;
        })
  unfolding update_item line_total
  update_item_stored j dto x found =
      update_self db.order_items j (update_item dto) w.order_items x (λ y. refl) found

  -- In a database that keeps Prisma's laws, `updateItemQuantity` returns, or throws and leaves
  -- the state as it was. If it returns, the order was there, in the user's restaurant and
  -- editable (DRAFT or PENDING); its subtotal is now the sum of its lines' totals, its tax the
  -- rounded tax of that, and its total subtotal plus tax less discount, stopped at zero; no
  -- other order and no table has changed; and the item was there, one of this order and of the
  -- user's restaurant; it has the given quantity and notes, its old ones where none are given,
  -- and the line total (unit price + modifiers) * quantity, and is otherwise as it was, like
  -- the other items.
  pub update_item_quantity-Edits :
      (j : Uuid) (dto : UpdateOrderItemDto)
      → Atomic
          (λ _ v. Edits env i user w v × Requantifies j dto v)
          w
          (update_item_quantity env i j dto user w)
  unfolding update_item_quantity
  update_item_quantity-Edits j dto =
      Atomic-read _ (find_editable env i user) _ w (find_editable-Reads env i user) λ o e.
        Atomic-read _ (find_item env i j user) _ w (find_item-Reads env i j user) λ x h.
          let (found, of_order, own) = find_item-eq env db i j user w x h in
          Atomic-update _ env.order_items (λ w'. w'.order_items) put_order_items j (update_item dto)
            _ w w x found
            (finish (Requantifies j dto) _ o o e (find_editable-eq env i user w o e).0
              (λ k ne. refl) refl
              λ v q. record {
                item = x;
                found = found;
                of_order = of_order;
                own = own;
                quantity = or_else dto.quantity x.quantity;
                ordered = or_else-cases dto.quantity x.quantity;
                notes = changed dto.notes x.notes;
                noted = changed-cases dto.notes x.notes;
                stored = rw q (update_item_stored j dto x found);
                others = λ k ne.
                    rw q (update_ne db.order_items j k (update_item dto) w.order_items keep ne);
              })
    where
      keep : (y : OrderItem) → (update_item dto y).id ≡ y.id
      keep y = unfold update_item in refl

  -- The item that `removeItem` names was one of the order and is gone, and no other item has changed.
  pub record Removes (j : Uuid) (v : World) : Type 0 where
    pub item : OrderItem
    pub found : env.order_items.find_unique j w.order_items ≡ some item
    pub of_order : item.order_id ≡ i
    pub own : item.restaurant_id ≡ user.restaurant_id
    pub gone : env.order_items.find_unique j v.order_items ≡ none
    pub others :
        (k : Uuid)
        → (j == k) ≡ false
        → env.order_items.find_unique k v.order_items ≡ env.order_items.find_unique k w.order_items

  -- In a database that keeps Prisma's laws, `removeItem` returns, or throws and leaves the
  -- state as it was. If it returns, the order was there, in the user's restaurant and editable
  -- (DRAFT or PENDING); its subtotal is now the sum of its lines' totals, its tax the rounded
  -- tax of that, and its total subtotal plus tax less discount, stopped at zero; no other order
  -- and no table has changed; and the item was there, one of this order and of the user's
  -- restaurant, and is gone, while the other items are as they were.
  pub remove_item-Edits :
      (j : Uuid) → Atomic (λ _ v. Edits env i user w v × Removes j v) w (remove_item env i j user w)
  unfolding remove_item
  remove_item-Edits j =
      Atomic-read _ (find_editable env i user) _ w (find_editable-Reads env i user) λ o e.
        Atomic-read _ (find_item env i j user) _ w (find_item-Reads env i j user) λ x h.
          Atomic-modify _ _ _ w w (
            finish (Removes j) _ o o e (find_editable-eq env i user w o e).0 (λ k ne. refl) refl
              λ v q.
                let (found, of_order, own) = find_item-eq env db i j user w x h in
                record {
                  item = x;
                  found = found;
                  of_order = of_order;
                  own = own;
                  gone = rw (q, db.order_items.found_delete j j w.order_items, ==-refl j);
                  others = λ k ne. rw (q, db.order_items.found_delete j k w.order_items, ne);
                })

  -- The order has the discount that was resolved from its subtotal, which that does not exceed; the
  -- items are as they were, and the audit log has one more entry.
  pub record Discounts (dto : ApplyDiscountDto) (v : World) : Type 0 where
    pub amount :
        (o : Order) × (env.orders.find_unique i v.orders ≡ some o)
        × (o.discount_cents ≡ resolve_discount dto (subtotal_of env i user.restaurant_id w))
    pub within :
        ltb_ℤ
          (subtotal_of env i user.restaurant_id w)
          (resolve_discount dto (subtotal_of env i user.restaurant_id w))
        ≡ false
    pub items : v.order_items ≡ w.order_items
    pub logged :
        v.audit_logs
        ≡ discount_log i dto (resolve_discount dto (subtotal_of env i user.restaurant_id w)) user
          ∷ w.audit_logs

  -- The order row between the discount and the recalculation
  discounted_now : ApplyDiscountDto → Order → Order
  discounted_now dto =
      discounted dto (resolve_discount dto (subtotal_of env i user.restaurant_id w)) user.id w.now

  discounted_now-id : (dto : ApplyDiscountDto) (x : Order) → (discounted_now dto x).id ≡ x.id
  unfolding discounted_now discounted
  discounted_now-id dto x = refl

  discounted_world : ApplyDiscountDto → World
  discounted_world dto = record w {
    orders = env.orders.update i (discounted_now dto) w.orders;
    audit_logs =
        discount_log i dto (resolve_discount dto (subtotal_of env i user.restaurant_id w)) user
        ∷ w.audit_logs;
  }

  discounted_world-Discounts :
      (dto : ApplyDiscountDto) (x : Order) (v : World)
      → env.orders.find_unique i w.orders ≡ some x
      → ltb_ℤ
          (subtotal_of env i user.restaurant_id w)
          (resolve_discount dto (subtotal_of env i user.restaurant_id w))
        ≡ false
      → quiet v
        ≡ quiet (retotalled env i user.restaurant_id (discounted_world dto) (discounted_now dto x))
      → Discounts dto v
  unfolding discounted_now discounted_world discounted set_totals
  discounted_world-Discounts dto x v f small q =
      let r = user.restaurant_id in
      let once =
        update_self db.orders i (discounted_now dto) w.orders x (discounted_now-id dto) f in
      let twice =
        update_self db.orders i
          (retotal env i r (discounted_world dto) (discounted_now dto x).discount_cents)
          (discounted_world dto).orders (discounted_now dto x) (λ y. refl) once in
      record {
        amount = (_, ap (λ (u : World). env.orders.find_unique i u.orders) q ∙ twice, refl);
        within = small;
        items = ap (λ (u : World). u.order_items) q;
        logged = ap (λ (u : World). u.audit_logs) q;
      }

  -- In a database that keeps Prisma's laws, `applyDiscount` returns, or throws and leaves the
  -- state as it was. If it returns, the order was there, in the user's restaurant and editable
  -- (DRAFT or PENDING); its subtotal is now the sum of its lines' totals, its tax the rounded
  -- tax of that, and its total subtotal plus tax less discount, stopped at zero; no other order
  -- and no table has changed; and its discount is the amount resolved from the request, which
  -- is not above the subtotal; the items are as they were, and the audit log has one more
  -- entry.
  pub apply_discount-Edits :
      (dto : ApplyDiscountDto)
      → Atomic (λ _ v. Edits env i user w v × Discounts dto v) w (apply_discount env i dto user w)
  unfolding apply_discount discounted_now discounted_world
  apply_discount-Edits dto =
      Atomic-read _ (find_editable env i user) _ w (find_editable-Reads env i user) λ o e.
        Atomic-gets _ (subtotal_of env i user.restaurant_id) _ w w (
          Atomic-test _ _ _ _ w λ small. Atomic-gets _ _ _ w w (
            Atomic-update_first _ env.orders (λ w'. w'.orders) put_orders i (discounted_now dto) _ w
              λ x f. Atomic-modify _ _ _ w _ (
                finish_quiet (Discounts dto) (discounted_world dto) o (discounted_now dto x) e
                  (update_self db.orders i (discounted_now dto) w.orders x (discounted_now-id dto)
                    f)
                  (λ k ne.
                    update_ne db.orders i k (discounted_now dto) w.orders (discounted_now-id dto)
                      ne)
                  refl (λ v q. discounted_world-Discounts dto x v f (not-true _ small) q))))
