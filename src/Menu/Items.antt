-- ===== src/Menu/Items.antt =====
-- menu/menu-items.service.ts, with its DTOs and the pages of common/dto/pagination-query.dto.ts
use restosync_api.Base.{
  ℕ, ◌+◌, ◌-◌, ◌*◌, ◌/◌, String, Bool, true, false, not, ◌&&◌, Option, none, some, List, [], ◌∷◌,
  map, ◌==◌, some_by, if◌then◌else◌,
}
use restosync_api.Base.Int.{ℤ}
use restosync_api.Schema.{Uuid, AuthUser, MenuItem, OrderItem, ModifierGroup, InventoryItem}
use restosync_api.Prisma.{OrderBy, asc, asc_text}
use restosync_api.World.{
  World, Exec, Env, menu_item_not_found, menu_item_has_history, still_referenced, pure, throw, gets,
  modify, create_row, delete_row, update_or_throw, ◌>>=◌, ◌>>◌,
}
use restosync_api.World.Owned.{owned, ensure_owned}
use restosync_api.Modifiers.{GroupWithModifiers, include_modifiers}
use restosync_api.Modifiers.Editing.{default_restaurant_id}
use restosync_api.Payments.{has_text}
use restosync_api.Zones.{given_or}
use restosync_api.Menu.{Patch, patched}

-- dto/menu-item.dto.ts
pub record CreateMenuItemDto : Type 0 where
  pub name : String
  pub description : Option String
  pub price_cents : ℤ
  pub currency : Option String
  pub image_url : Option String
  pub available : Option Bool
  pub category_id : Uuid

-- dto/menu-item.dto.ts: the partial type of the one above
pub record UpdateMenuItemDto : Type 0 where
  pub name : Option String
  pub description : Patch String
  pub price_cents : Option ℤ
  pub currency : Option String
  pub image_url : Patch String
  pub available : Option Bool
  pub category_id : Option Uuid

-- dto/menu-item.dto.ts, with the page and the limit that it inherits
pub record MenuItemQueryDto : Type 0 where
  pub name : Option String
  pub category_id : Option Uuid
  pub available : Option Bool
  pub page : ℕ
  pub limit : ℕ

-- `PaginatedResult`
pub record PaginatedResult (A : Type 0) : Type 0 where
  pub data_rows : List A
  pub page : ℕ
  pub limit : ℕ
  pub total : ℕ
  pub total_pages : ℕ

-- An item with `menuItemInclude`
pub record ItemWithGroups : Type 0 where
  pub item : MenuItem
  pub groups : List GroupWithModifiers

-- The getter `skip`; pages are numbered from 1 on.
unfoldable pub skip : ℕ → ℕ → ℕ
skip page limit = (page - 1) * limit

-- `Math.ceil(total / limit) || 0`, for a limit that is not 0
unfoldable pub total_pages : ℕ → ℕ → ℕ
total_pages total limit = (total + (limit - 1)) / limit

unfoldable pub paginate : {A : Type 0} → List A → ℕ → ℕ → ℕ → PaginatedResult A
unfolding total_pages
paginate rows total page limit = record {
  data_rows = rows;
  page = page;
  limit = limit;
  total = total;
  total_pages = total_pages total limit;
}

abbrev pub put_menu_items : List MenuItem → World → World
put_menu_items rows w = record w { menu_items = rows }

unfoldable pub new_menu_item : CreateMenuItemDto → Uuid → Uuid → MenuItem
new_menu_item dto restaurant_id id = record {
  id = id;
  name = dto.name;
  description = dto.description;
  price_cents = dto.price_cents;
  currency = given_or dto.currency "usd";
  image_url = dto.image_url;
  available = given_or dto.available true;
  category_id = dto.category_id;
  restaurant_id = restaurant_id;
}

unfoldable pub changed_menu_item : UpdateMenuItemDto → MenuItem → MenuItem
changed_menu_item dto m = record m {
  name = given_or dto.name m.name;
  description = patched dto.description m.description;
  price_cents = given_or dto.price_cents m.price_cents;
  currency = given_or dto.currency m.currency;
  image_url = patched dto.image_url m.image_url;
  available = given_or dto.available m.available;
  category_id = given_or dto.category_id m.category_id;
}

-- What the database does beyond the laws of `Prisma`
pub record Pages : Type 0 where
  -- `{ contains: text, mode: 'insensitive' }`
  pub contains : String → String → Bool
  -- `skip` and `take` of a `findMany` with its order
  pub page_of : (MenuItem → Bool) → List (OrderBy MenuItem) → ℕ → ℕ → List MenuItem → List MenuItem
  -- `count({ where })`
  pub count : (MenuItem → Bool) → List MenuItem → ℕ

abbrev has_category : Option Uuid → Uuid → Bool
has_category none id = true
has_category (some wanted) id = id == wanted

abbrev is_as_available : Option Bool → Bool → Bool
is_as_available none b = true
is_as_available (some true) b = b
is_as_available (some false) b = not b

abbrev has_name : Pages → Option String → String → Bool
has_name pages none name = true
has_name pages (some text) name = if has_text (some text) "" then true else pages.contains name text

module _ (env : Env) where
  -- `menuItemInclude`
  unfoldable pub with_groups : World → MenuItem → ItemWithGroups
  with_groups w m = record {
    item = m;
    groups = map (include_modifiers env w) (
        env.modifier_groups.find_many (λ g. g.menu_item_id == m.id)
          (asc (λ g. g.sort_order) ∷ asc_text (λ g. g.name) ∷ []) w.modifier_groups);
  }

  unfoldable pub ensure_menu_item : Uuid → AuthUser → Exec MenuItem
  ensure_menu_item id user =
      ensure_owned env.menu_items (λ w. w.menu_items) (λ m. m.restaurant_id) menu_item_not_found id
        user.restaurant_id

  unfoldable pub create_menu_item : CreateMenuItemDto → AuthUser → Exec MenuItem
  create_menu_item dto user =
      create_row env.menu_items (λ w. w.menu_items) put_menu_items
        (new_menu_item dto user.restaurant_id)

  -- The clause `where` of `findAll`; an empty name is no condition.
  unfoldable pub is_listed : Pages → MenuItemQueryDto → MenuItem → Bool
  is_listed pages query m =
      m.restaurant_id == default_restaurant_id
      && has_name pages query.name m.name
      && has_category query.category_id m.category_id
      && is_as_available query.available m.available

  unfoldable pub find_menu_items : Pages → MenuItemQueryDto → Exec (PaginatedResult ItemWithGroups)
  unfolding paginate
  find_menu_items pages query = gets (λ w.
      paginate
        (map (with_groups w) (
          pages.page_of (is_listed pages query) (asc_text (λ m. m.name) ∷ [])
            (skip query.page query.limit) query.limit w.menu_items))
        (pages.count (is_listed pages query) w.menu_items) query.page query.limit)

  unfoldable pub find_menu_item : Uuid → Exec ItemWithGroups
  find_menu_item id = do
    found ← gets (λ w. env.menu_items.find_unique id w.menu_items)
    m ← owned (λ m. m.restaurant_id) menu_item_not_found default_restaurant_id found
    gets (λ w. with_groups w m)

  unfoldable pub update_menu_item : Uuid → UpdateMenuItemDto → AuthUser → Exec MenuItem
  update_menu_item id dto user = do
    m ← ensure_menu_item id user
    update_or_throw env.menu_items (λ w. w.menu_items) put_menu_items id (changed_menu_item dto)

  unfoldable pub deactivate : Uuid → AuthUser → Exec MenuItem
  deactivate id user = do
    m ← ensure_menu_item id user
    update_or_throw env.menu_items (λ w. w.menu_items) put_menu_items id
        (λ x. record x { available = false })

  -- `if (orderItemCount > 0) throw`: the count is positive just when there is such an item.
  abbrev refuse_history : Option OrderItem → Exec (Unit {0})
  refuse_history none = pure tt
  refuse_history (some x) = throw menu_item_has_history

  -- `onDelete: Restrict` of the order items of prisma/schema.prisma
  abbrev refuse_referenced : Option OrderItem → Exec (Unit {0})
  refuse_referenced none = pure tt
  refuse_referenced (some x) = throw still_referenced

  abbrev is_of_group : Uuid → List ModifierGroup → Bool
  is_of_group id groups = some_by (λ (g : ModifierGroup). g.id == id) groups

  abbrev stock_of : Uuid → InventoryItem → Bool
  stock_of id s = elim s.menu_item_id [ none ↦ false | some linked ↦ linked == id ]

  abbrev unlink : Option InventoryItem → World → World
  unlink none w = w
  unlink (some s) w = record w {
    inventory_items =
        env.inventory_items.update s.id (λ x. record x { menu_item_id = none }) w.inventory_items;
  }

  -- `onDelete` of prisma/schema.prisma: the groups of the item go with their modifiers, and its stock
  -- item is unlinked.
  unfoldable pub release_references : Uuid → World → World
  release_references id w =
      let groups = env.modifier_groups.find_many (λ g. g.menu_item_id == id) [] w.modifier_groups in
      unlink (env.inventory_items.find_first (stock_of id) [] w.inventory_items) (record w {
        modifiers = env.modifiers.delete_many (λ m. is_of_group m.group_id groups) w.modifiers;
        modifier_groups =
            env.modifier_groups.delete_many (λ g. g.menu_item_id == id) w.modifier_groups;
      })

  unfoldable pub remove_menu_item : Uuid → AuthUser → Exec MenuItem
  remove_menu_item id user = do
    m ← ensure_menu_item id user
    sold ← gets (λ w.
        env.order_items.find_first
          (λ x. x.menu_item_id == id && x.restaurant_id == user.restaurant_id) [] w.order_items)
    refuse_history sold
    used ← gets (λ w. env.order_items.find_first (λ x. x.menu_item_id == id) [] w.order_items)
    refuse_referenced used
    modify (release_references id)
    delete_row env.menu_items (λ w. w.menu_items) put_menu_items id
