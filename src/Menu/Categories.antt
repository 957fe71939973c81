-- ===== src/Menu/Categories.antt =====
-- menu/categories.service.ts, with its DTOs
use restosync_api.Base.{ℕ, String, Bool, true, ◌&&◌, ◌||◌, Option, none, some, List, [], ◌∷◌, ◌==◌}
use restosync_api.Schema.{Uuid, AuthUser, Category, MenuItem}
use restosync_api.Prisma.{asc, asc_text}
use restosync_api.World.{
  World, Exec, Env, category_not_found, still_referenced, pure, throw, gets, create_row, delete_row,
  update_or_throw, ◌>>=◌, ◌>>◌,
}
use restosync_api.World.Owned.{owned, ensure_owned}
use restosync_api.Modifiers.Editing.{default_restaurant_id}
use restosync_api.Zones.{given_or}

-- dto/category.dto.ts
pub record CreateCategoryDto : Type 0 where
  pub name : String
  pub sort_order : Option ℕ
  pub active : Option Bool

-- dto/category.dto.ts: the partial type of the one above
pub record UpdateCategoryDto : Type 0 where
  pub name : Option String
  pub sort_order : Option ℕ
  pub active : Option Bool

-- A category with `include: { items: true }`
pub record CategoryWithItems : Type 0 where
  pub category : Category
  pub items : List MenuItem

abbrev pub put_categories : List Category → World → World
put_categories rows w = record w { categories = rows }

unfoldable pub new_category : CreateCategoryDto → Uuid → Uuid → Category
new_category dto restaurant_id id = record {
  id = id;
  name = dto.name;
  sort_order = given_or dto.sort_order 0;
  active = given_or dto.active true;
  restaurant_id = restaurant_id;
}

unfoldable pub changed_category : UpdateCategoryDto → Category → Category
changed_category dto c = record c {
  name = given_or dto.name c.name;
  sort_order = given_or dto.sort_order c.sort_order;
  active = given_or dto.active c.active;
}

module _ (env : Env) where
  unfoldable pub ensure_category : Uuid → AuthUser → Exec Category
  ensure_category id user =
      ensure_owned env.categories (λ w. w.categories) (λ c. c.restaurant_id) category_not_found id
        user.restaurant_id

  unfoldable pub create_category : CreateCategoryDto → AuthUser → Exec Category
  create_category dto user =
      create_row env.categories (λ w. w.categories) put_categories
        (new_category dto user.restaurant_id)

  unfoldable pub find_categories : Bool → Exec (List Category)
  find_categories include_inactive = gets (λ w.
      env.categories.find_many
        (λ c. c.restaurant_id == default_restaurant_id && (include_inactive || c.active))
        (asc (λ c. c.sort_order) ∷ asc_text (λ c. c.name) ∷ []) w.categories)

  unfoldable pub find_category : Uuid → Exec CategoryWithItems
  find_category id = do
    found ← gets (λ w. env.categories.find_unique id w.categories)
    c ← owned (λ c. c.restaurant_id) category_not_found default_restaurant_id found
    items ← gets (λ w. env.menu_items.find_many (λ m. m.category_id == id) [] w.menu_items)
    pure (record { category = c; items = items })

  unfoldable pub update_category : Uuid → UpdateCategoryDto → AuthUser → Exec Category
  update_category id dto user = do
    c ← ensure_category id user
    update_or_throw env.categories (λ w. w.categories) put_categories id (changed_category dto)

  -- `onDelete: Restrict` of prisma/schema.prisma: a category with items is not deleted.
  abbrev refuse_referenced : Option MenuItem → Exec (Unit {0})
  refuse_referenced none = pure tt
  refuse_referenced (some m) = throw still_referenced

  unfoldable pub remove_category : Uuid → AuthUser → Exec Category
  remove_category id user = do
    c ← ensure_category id user
    used ← gets (λ w. env.menu_items.find_first (λ m. m.category_id == id) [] w.menu_items)
    refuse_referenced used
    delete_row env.categories (λ w. w.categories) put_categories id
