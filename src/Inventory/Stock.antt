-- ===== src/Inventory/Stock.antt =====
-- inventory/inventory.service.ts: what `adjust` does.
use restosync_api.Base.{◌≡◌, refl, ◌∙◌, true, false, Option, none, some, arith, ◌==◌}
use restosync_api.Base.Number.{Float, Floats, IsFloats}
use restosync_api.Schema.{Uuid, InventoryItem, StockAdjustment}
use restosync_api.Prisma.Laws.{update_self, update_ne, create_self, create_ne}
use restosync_api.World.{World, done, Env, IsPrisma, ◌>>=◌}
use restosync_api.World.Atomic.{Atomic, Atomic-map, Atomic-done, Atomic-transaction}
use restosync_api.World.Reads.{Reads, reads, Atomic-read}
use restosync_api.World.Writes.{Atomic-create, Atomic-update_last}
use restosync_api.Inventory.{
  AdjustStockDto, item_in_restaurant, find_item, adjusted, set_quantity, adjustment,
  write_adjustment, adjust, put_inventory_items, put_stock_adjustments,
}

item_in_restaurant-Reads : (x : Option InventoryItem) (r : Uuid) → Reads (item_in_restaurant x r)
unfolding item_in_restaurant
item_in_restaurant-Reads none r = search reads
item_in_restaurant-Reads (some x) r = search reads

module _ (env : Env) (i r : Uuid) where
  pub find_item-Reads : Reads (find_item env i r)
  unfolding find_item
  find_item-Reads = search (reads, item_in_restaurant-Reads)

  pub find_item-eq :
      (w : World) (x : InventoryItem)
      → find_item env i r w ≡ done x w
      → (env.inventory_items.find_unique i w.inventory_items ≡ some x) × (x.restaurant_id ≡ r)
  unfolding find_item item_in_restaurant ◌>>=◌
  find_item-eq w x h = ground arith

-- What an adjustment by `dto` leaves: the item has the new quantity, the log has an entry for it,
-- and nothing else has changed.
pub record Stores (env : Env) (i : Uuid) (dto : AdjustStockDto) (actor r : Uuid) (w v : World)
    : Type 0 where
  pub item : InventoryItem
  pub found : env.inventory_items.find_unique i w.inventory_items ≡ some item
  pub own : item.restaurant_id ≡ r
  pub quantity : Float
  pub counted :
      quantity
      ≡ env.floats.max
          (env.floats.number 0)
          (env.floats.add item.quantity_on_hand dto.quantity_delta)
  pub stored :
      env.inventory_items.find_unique i v.inventory_items
      ≡ some (record item { quantity_on_hand = quantity })
  pub others :
      (j : Uuid)
      → (i == j) ≡ false
      → env.inventory_items.find_unique j v.inventory_items
        ≡ env.inventory_items.find_unique j w.inventory_items
  pub entry : StockAdjustment
  pub is_new : env.stock_adjustments.find_unique entry.id w.stock_adjustments ≡ none
  pub logged :
      env.stock_adjustments.find_unique entry.id v.stock_adjustments
      ≡ some (record {
        id = entry.id;
        inventory_item_id = i;
        type = dto.type;
        quantity_delta = dto.quantity_delta;
        reason = dto.reason;
        performed_by_id = actor;
        restaurant_id = r;
      })
  pub other_entries :
      (j : Uuid)
      → (entry.id == j) ≡ false
      → env.stock_adjustments.find_unique j v.stock_adjustments
        ≡ env.stock_adjustments.find_unique j w.stock_adjustments
  pub rest :
      v ≡ record w { inventory_items = v.inventory_items; stock_adjustments = v.stock_adjustments }

-- The quantity that is left: the sum if that is above zero, zero if the sum is below, and in no case
-- a number below zero
pub record StopsAtZero (f : Floats) (sum quantity : Float) : Type 0 where
  pub above : f.less (f.number 0) sum ≡ true → quantity ≡ sum
  pub below : f.less sum (f.number 0) ≡ true → quantity ≡ f.number 0
  pub not_negative : f.less quantity (f.number 0) ≡ false

-- An adjustment whose quantity stops at zero
pub record Adjusts (env : Env) (i : Uuid) (dto : AdjustStockDto) (actor r : Uuid) (w v : World)
    : Type 0 where
  pub stores : Stores env i dto actor r w v
  pub stops :
      StopsAtZero env.floats
        (env.floats.add stores.item.quantity_on_hand dto.quantity_delta)
        stores.quantity

max-StopsAtZero :
    (f : Floats) (laws : IsFloats f) (sum quantity : Float)
    → quantity ≡ f.max (f.number 0) sum
    → StopsAtZero f sum quantity
max-StopsAtZero f laws sum quantity e = record {
  above = λ h. e ∙ laws.max_second (f.number 0) sum h;
  below = λ h. e ∙ laws.max_first (f.number 0) sum h;
  not_negative = rw e (laws.max_not_less (f.number 0) sum);
}

module _ (env : Env) (db : IsPrisma env) (i : Uuid) (dto : AdjustStockDto) (actor r : Uuid)
    (w : World) where
  write_adjustment-Stores :
      (x : InventoryItem)
      → find_item env i r w ≡ done x w
      → Atomic (λ _ v. Stores env i dto actor r w v) w (write_adjustment env i dto actor r x w)
  unfolding write_adjustment adjustment set_quantity adjusted
  write_adjustment-Stores x e =
      let (found, own) = find_item-eq env i r w x e in
      let log = adjustment i dto actor r (env.stock_adjustments.new_id w.stock_adjustments) in
      let change = set_quantity (adjusted env x dto.quantity_delta) in
      Atomic-create _ env.stock_adjustments (λ u. u.stock_adjustments) put_stock_adjustments
        (adjustment i dto actor r) _ w w
        (Atomic-update_last _ env.inventory_items (λ u. u.inventory_items) put_inventory_items i
          change w _ x found
          (record {
            item = x;
            found = found;
            own = own;
            quantity = adjusted env x dto.quantity_delta;
            counted = refl;
            stored = update_self db.inventory_items i change w.inventory_items x (λ y. refl) found;
            others =
                λ j ne. update_ne db.inventory_items i j change w.inventory_items (λ y. refl) ne;
            entry = log;
            is_new = db.stock_adjustments.found_new_id w.stock_adjustments;
            logged = create_self db.stock_adjustments log w.stock_adjustments refl;
            other_entries =
                λ j ne. create_ne db.stock_adjustments log j w.stock_adjustments refl ne;
            rest = refl;
          }))

  pub adjust-Stores : Atomic (λ _ v. Stores env i dto actor r w v) w (adjust env i dto actor r w)
  unfolding adjust
  adjust-Stores =
      Atomic-read _ (find_item env i r) _ w (find_item-Reads env i r) λ x e.
        Atomic-transaction _ _ w λ a v h. Atomic-done _ w _ a v (write_adjustment-Stores x e) h

  -- In a database that keeps Prisma's laws, `adjust` returns, or throws and leaves the state as
  -- it was. If it returns, the item was there and in the restaurant, its quantity is now
  -- `Math.max` of zero and the sum of the old one and the change, the item is otherwise as it
  -- was, an entry for the adjustment is stored under a new id, and nothing else has changed.
  -- With the laws of `Math.max` on doubles, the quantity is that sum if the sum is above zero,
  -- zero if the sum is below, and never below zero.
  pub adjust-Adjusts :
      IsFloats env.floats
      → Atomic (λ _ v. Adjusts env i dto actor r w v) w (adjust env i dto actor r w)
  adjust-Adjusts laws =
      Atomic-map (λ _ v. Stores env i dto actor r w v) (λ _ v. Adjusts env i dto actor r w v) w _
        adjust-Stores
        λ _ v s. record {
          stores = s;
          stops = max-StopsAtZero env.floats laws _ s.quantity s.counted;
        }
