-- ===== src/Inventory/Alerts.antt =====
-- inventory/inventory.service.ts: the alerts of `findLowStock`.
use restosync_api.Base.{
  ◌≡◌, ◌↔◌, refl, sym, Bool, true, ◌&&◌, some, List, [], ◌∷◌, arith, ◌==◌, All, Any, subst,
  Bool-cases, inl, inr,
}
use restosync_api.Schema.{Uuid, AuthUser, InventoryItem}
use restosync_api.Prisma.{asc_text}
use restosync_api.World.{World, done, Env, IsPrisma, gets}
use restosync_api.Inventory.{LowStock, critical, alert_of, alerts, find_low_stock}

module _ (env : Env) where
  abbrev pub IsLow : InventoryItem → Type 0
  IsLow x = env.floats.at_most x.quantity_on_hand x.low_stock_threshold ≡ true

  -- An alert is about an item at or below its threshold, and is critical just when none is left.
  abbrev pub IsDue : LowStock → Type 0
  IsDue l =
      IsLow l.item
      × ((l.alert_level ≡ critical)
          ↔ (env.floats.same l.item.quantity_on_hand (env.floats.number 0) ≡ true))

  alert_of-critical :
      (x : InventoryItem)
      → (alert_of env x ≡ critical)
        ↔ (env.floats.same x.quantity_on_hand (env.floats.number 0) ≡ true)
  unfolding alert_of
  alert_of-critical x = ground arith

  alerts-All :
      (P : InventoryItem → Type 0) (items : List InventoryItem)
      → All P items
      → All (λ (l : LowStock). IsDue l × P l.item) (alerts env items)
  unfolding alerts
  alerts-All P [] h = tt
  alerts-All P (x ∷ items) (here, later) =
      elim (Bool-cases (env.floats.at_most x.quantity_on_hand x.low_stock_threshold)) [
        | inl e ↦
            rw e (((e, unfold alert_of in alert_of-critical x), here), alerts-All P items later)
        | inr e ↦ rw e (alerts-All P items later)
      ]

  alerts_complete :
      (x : InventoryItem) (items : List InventoryItem)
      → Any (λ y. y ≡ x) items
      → IsLow x
      → Any (λ (l : LowStock). (l.item ≡ x) × IsDue l) (alerts env items)
  unfolding alerts
  alerts_complete x [] h le = h
  alerts_complete x (y ∷ items) (inl p) le =
      let low = subst IsLow (sym p) le in
      rw low (inl (p, (low, unfold alert_of in alert_of-critical y)))
  alerts_complete x (y ∷ items) (inr h) le =
      elim (Bool-cases (env.floats.at_most y.quantity_on_hand y.low_stock_threshold)) [
        | inl e ↦ rw e (inr (alerts_complete x items h le))
        | inr e ↦ rw e (alerts_complete x items h le)
      ]

  -- An item that `findLowStock` looks at: one of the restaurant with a threshold above zero
  abbrev pub IsWatched : Uuid → InventoryItem → Type 0
  IsWatched r x =
      (x.restaurant_id ≡ r) × (env.floats.less (env.floats.number 0) x.low_stock_threshold ≡ true)

  watched :
      (r : Uuid) (items : List InventoryItem)
      → All
          (λ (x : InventoryItem).
            (x.restaurant_id == r && env.floats.less (env.floats.number 0) x.low_stock_threshold)
            ≡ true)
          items
      → All (IsWatched r) items
  watched r [] h = tt
  watched r (x ∷ items) (here, later) = ((ground arith, ground arith), watched r items later)

  -- In a database that keeps Prisma's laws, `findLowStock` returns and changes nothing. Each of
  -- its alerts is about an item of the user's restaurant with a threshold above zero and a
  -- quantity at or below it, and is critical just when the quantity is zero; every such item of
  -- the database has such an alert.
  pub find_low_stock_exact :
      (db : IsPrisma env) (user : AuthUser) (w : World)
      → (found : List LowStock) × (find_low_stock env user w ≡ done found w)
        × All (λ (l : LowStock). IsDue l × IsWatched user.restaurant_id l.item) found
        × ((i : Uuid) (x : InventoryItem)
            → env.inventory_items.find_unique i w.inventory_items ≡ some x
            → IsWatched user.restaurant_id x
            → IsLow x
            → Any (λ (l : LowStock). (l.item ≡ x) × IsDue l) found)
  unfolding find_low_stock gets
  find_low_stock_exact db user w =
      let clause : InventoryItem → Bool = λ x.
        x.restaurant_id == user.restaurant_id
        && env.floats.less (env.floats.number 0) x.low_stock_threshold in
      let order = asc_text (λ (x : InventoryItem). x.name) ∷ [] in
      let items = env.inventory_items.find_many clause order w.inventory_items in
      (
        alerts env items,
        refl,
        alerts-All (IsWatched user.restaurant_id) items (
            watched user.restaurant_id items
              (db.inventory_items.many_where clause order w.inventory_items)),
        λ i x f (own, positive) low.
            alerts_complete x items
              (db.inventory_items.many_found clause order w.inventory_items i x f (ground arith))
              low,
      )
