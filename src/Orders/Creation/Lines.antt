-- ===== src/Orders/Creation/Lines.antt =====
-- orders/orders.service.ts: the priced lines of `create`.
use restosync_api.Base.{
  ◌≡◌, refl, sym, ◌∙◌, subst, true, some, List, [], ◌∷◌, ◌==◌, ==_iff, All, Bool-cases, inl, inr,
}
use restosync_api.Base.Dict.{lookup, insert, lookup-insert}
use restosync_api.Schema.{Uuid, MenuItem}
use restosync_api.World.{World, done, Env}
use restosync_api.World.Atomic.{Atomic, Atomic-bind}
use restosync_api.World.Reads.{Atomic-read, Atomic-test, Atomic-or_throw_here}
use restosync_api.World.Writes.{Atomic-pure}
use restosync_api.Modifiers.{ResolvedSelection, resolve_selections}
use restosync_api.Modifiers.Reads.{resolve_selections-Reads}
use restosync_api.Orders.Creation.{OrderLineDto, PricedLine, index_items, priced_line, price_lines}

-- Each entry of the map is an item of the restaurant under its id.
abbrev pub IndexesItems : Uuid → List (Uuid × MenuItem) → Type 0
IndexesItems r by_id =
    (k : Uuid) (item : MenuItem)
    → lookup k by_id ≡ some item
    → (item.id ≡ k) × (item.restaurant_id ≡ r)

pub index_items-IndexesItems :
    (r : Uuid) (by_id : List (Uuid × MenuItem)) (items : List MenuItem)
    → IndexesItems r by_id
    → All (λ m. m.restaurant_id ≡ r) items
    → IndexesItems r (index_items items by_id)
unfolding index_items
index_items-IndexesItems r by_id [] old all = old
index_items-IndexesItems r by_id (m ∷ items) old (own, all) =
    index_items-IndexesItems r (insert m.id m by_id) items
      (λ k item e. elim (Bool-cases (m.id == k)) [
        | inl same ↦
            let hit : lookup k (insert m.id m by_id) ≡ some m =
              rw (lookup-insert m.id k m by_id, same) refl in
            let is : m ≡ item = cc in
            subst (λ (x : MenuItem). (x.id ≡ k) × (x.restaurant_id ≡ r)) is
              ((==_iff m.id k).0 same, own)
        | inr other ↦
            let miss : lookup k (insert m.id m by_id) ≡ lookup k by_id =
              rw (lookup-insert m.id k m by_id, other) refl in
            old k item (sym miss ∙ e)
      ])
      all

module _ (env : Env) (r : Uuid) (w : World) where
  -- A line of the request and what it is priced as
  pub record Prices (line : OrderLineDto) (priced : PricedLine) : Type 0 where
    pub item : MenuItem
    pub named : item.id ≡ line.menu_item_id
    pub own : item.restaurant_id ≡ r
    pub available : item.available ≡ true
    pub resolved : ResolvedSelection
    pub selected : resolve_selections env item.id line.modifier_ids r w ≡ done resolved w
    pub price : priced ≡ priced_line item line resolved

  abbrev pub PricesAll : List OrderLineDto → List PricedLine → Type 0
  PricesAll [] [] = Unit
  PricesAll (line ∷ lines) (priced ∷ rest) = Prices line priced × PricesAll lines rest
  PricesAll [] (priced ∷ rest) = ⊥
  PricesAll (line ∷ lines) [] = ⊥

  pub price_lines-PricesAll :
      (by_id : List (Uuid × MenuItem)) (lines : List OrderLineDto)
      → IndexesItems r by_id
      → Atomic (λ priced v. (v ≡ w) × PricesAll lines priced) w (price_lines env by_id r lines w)
  unfolding price_lines priced_line
  price_lines-PricesAll by_id [] index = Atomic-pure _ [] w w (refl, tt)
  price_lines-PricesAll by_id (line ∷ lines) index =
      Atomic-or_throw_here _ (lookup line.menu_item_id by_id) _ _ w λ item found.
        Atomic-test _ _ _ _ w λ available.
          Atomic-read _ (resolve_selections env item.id line.modifier_ids r) _ w
            (resolve_selections-Reads env item.id line.modifier_ids r)
            λ resolved selected.
              let (named, own) = index line.menu_item_id item found in
              Atomic-bind _ _ _ _ w (price_lines-PricesAll by_id lines index)
                λ rest v (same, prices). Atomic-pure _ (priced_line item line resolved ∷ rest) w v (
                  same,
                  (
                    record {
                      item = item;
                      named = named;
                      own = own;
                      available = available;
                      resolved = resolved;
                      selected = selected;
                      price = refl;
                    },
                    prices,
                  ),
                )
