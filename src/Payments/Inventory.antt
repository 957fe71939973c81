-- ===== src/Payments/Inventory.antt =====
-- payments/payments.service.ts: `decrementInventoryForOrder`, the stock hook of a checkout.
use restosync_api.Base.{◌≡◌, refl, ap, ◌∙◌, Option, none, some, List, [], ◌∷◌, String}
use restosync_api.Schema.{Uuid, OrderItem, InventoryItem}
use restosync_api.World.{
  World, Outcome, done, thrown, Exec, Warning, Env, IsPrisma, attempt, inventory_failed, ◌>>=◌,
}
use restosync_api.World.Atomic.{Atomic, Atomic-map, Atomic-next}
use restosync_api.World.Reads.{Atomic-gets}
use restosync_api.World.Writes.{Atomic-pure}
use restosync_api.Inventory.{AdjustStockDto, adjust}
use restosync_api.Inventory.Stock.{Stores, adjust-Stores}
use restosync_api.Payments.{sell, decrement_item, decrement_inventory_for_order}

-- The state without the stock, the sockets and the log
abbrev pub sale : World → World
sale w = record w { inventory_items = []; stock_adjustments = []; sent = []; warnings = [] }

attempt-sale :
    (m : Exec (Unit {0})) (x : Warning) (w : World) (o : Outcome (Unit {0}))
    → m w ≡ o
    → Atomic (λ _ v. sale v ≡ sale w) w o
    → (v : World) × (attempt m x w ≡ done tt v) × (sale v ≡ sale w)
unfolding attempt
attempt-sale m x w (done a v) e h = (v, rw (attempt, e), h)
attempt-sale m x w (thrown y v) e h =
    (record v { warnings = x ∷ v.warnings }, rw (attempt, e), ap sale h)

module _ (env : Env) (db : IsPrisma env) where
  adjust-sale :
      (i : Uuid) (dto : AdjustStockDto) (actor r : Uuid) (w : World)
      → Atomic (λ _ v. sale v ≡ sale w) w (adjust env i dto actor r w)
  adjust-sale i dto actor r w =
      Atomic-map (λ _ v. Stores env i dto actor r w v) (λ _ v. sale v ≡ sale w) w _
        (adjust-Stores env db i dto actor r w) λ _ v a. ap sale a.rest

  sell-sale :
      (x : Option InventoryItem) (item : OrderItem) (number : String) (r actor : Uuid) (w : World)
      → Atomic (λ _ v. sale v ≡ sale w) w (sell env x item number r actor w)
  unfolding sell
  sell-sale none item number r actor w = Atomic-pure _ _ w w refl
  sell-sale (some x) item number r actor w =
      unfold ◌>>=◌ in
      Atomic-next _ (λ _ v. sale v ≡ sale w) w (adjust env x.id _ actor r w) _
        (adjust-sale x.id _ actor r w) λ _ v h. h

  decrement_item-sale :
      (item : OrderItem) (number : String) (r actor : Uuid) (w : World)
      → Atomic (λ _ v. sale v ≡ sale w) w (decrement_item env item number r actor w)
  unfolding decrement_item
  decrement_item-sale item number r actor w =
      Atomic-gets _ _ _ w w (sell-sale _ item number r actor w)

  -- In a database that keeps Prisma's laws, the stock hook of a checkout always returns,
  -- whatever its adjustments throw, and changes only the stock, the sockets and the log.
  pub decrement_inventory_for_order-sale :
      (items : List OrderItem) (number : String) (r actor : Uuid) (w : World)
      → (v : World) × (decrement_inventory_for_order env items number r actor w ≡ done tt v)
        × (sale v ≡ sale w)
  unfolding decrement_inventory_for_order ◌>>=◌
  decrement_inventory_for_order-sale [] number r actor w = (w, refl, refl)
  decrement_inventory_for_order-sale (item ∷ rest) number r actor w =
      let (u, run, q) =
        attempt-sale (decrement_item env item number r actor) (inventory_failed item.menu_item_id) w
          _ refl (decrement_item-sale item number r actor w) in
      let (v, more, p) = decrement_inventory_for_order-sale rest number r actor u in
      (v, rw (run, more), p ∙ q)
