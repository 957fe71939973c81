-- ===== src/Modifiers/Editing.antt =====
-- menu/modifiers.service.ts: how the groups of modifiers of a menu item and their modifiers are edited.
use restosync_api.Base.{ℕ, String, Bool, true, false, ◌&&◌, Option, some, List, [], ◌∷◌, ◌==◌, leb}
use restosync_api.Base.Int.{ℤ, pos}
use restosync_api.Schema.{Uuid, AuthUser, ModifierGroup, Modifier}
use restosync_api.World.{
  World, Exec, Env, menu_item_not_found, min_above_max, modifier_group_not_found,
  modifier_not_found, pure, gets, guard, modify, or_throw, create_row, delete_row, update_or_throw,
  ◌>>=◌, ◌>>◌,
}
use restosync_api.World.Owned.{ensure_owned}
use restosync_api.Modifiers.{GroupWithModifiers, include_modifiers, load_groups}
use restosync_api.Zones.{given_or}

-- dto/modifier.dto.ts
pub record CreateModifierDto : Type 0 where
  pub name : String
  pub price_delta_cents : Option ℤ
  pub sort_order : Option ℕ
  pub available : Option Bool

-- dto/modifier.dto.ts: the partial type of the one above
pub record UpdateModifierDto : Type 0 where
  pub name : Option String
  pub price_delta_cents : Option ℤ
  pub sort_order : Option ℕ
  pub available : Option Bool

-- dto/modifier.dto.ts
pub record CreateModifierGroupDto : Type 0 where
  pub name : String
  pub required : Option Bool
  pub min_select : Option ℕ
  pub max_select : Option ℕ
  pub sort_order : Option ℕ
  pub modifiers : Option (List CreateModifierDto)

-- dto/modifier.dto.ts: the partial type of the one above, of which `modifiers` is not read
pub record UpdateModifierGroupDto : Type 0 where
  pub name : Option String
  pub required : Option Bool
  pub min_select : Option ℕ
  pub max_select : Option ℕ
  pub sort_order : Option ℕ

abbrev pub put_groups : List ModifierGroup → World → World
put_groups rows w = record w { modifier_groups = rows }

abbrev pub put_modifiers : List Modifier → World → World
put_modifiers rows w = record w { modifiers = rows }

-- The constant `DEFAULT_RESTAURANT_ID` of common/constants/tenancy.ts
abbrev pub default_restaurant_id : Uuid
default_restaurant_id = 302240678275694148452353

-- `assertMinMax`: what is `undefined` is not compared.
unfoldable pub assert_min_max : Option ℕ → Option ℕ → Exec (Unit {0})
assert_min_max (some min) (some max) = guard (leb min max) min_above_max
assert_min_max min max = pure tt

unfoldable pub new_group : CreateModifierGroupDto → Uuid → Uuid → Uuid → ModifierGroup
new_group dto menu_item_id restaurant_id id = record {
  id = id;
  name = dto.name;
  required = given_or dto.required false;
  min_select = given_or dto.min_select 0;
  max_select = given_or dto.max_select 1;
  sort_order = given_or dto.sort_order 0;
  menu_item_id = menu_item_id;
  restaurant_id = restaurant_id;
}

unfoldable pub new_modifier : CreateModifierDto → Uuid → Uuid → Uuid → Modifier
new_modifier dto group_id restaurant_id id = record {
  id = id;
  name = dto.name;
  price_delta_cents = given_or dto.price_delta_cents (pos 0);
  sort_order = given_or dto.sort_order 0;
  available = given_or dto.available true;
  group_id = group_id;
  restaurant_id = restaurant_id;
}

unfoldable pub changed_group : UpdateModifierGroupDto → ModifierGroup → ModifierGroup
changed_group dto g = record g {
  name = given_or dto.name g.name;
  required = given_or dto.required g.required;
  min_select = given_or dto.min_select g.min_select;
  max_select = given_or dto.max_select g.max_select;
  sort_order = given_or dto.sort_order g.sort_order;
}

unfoldable pub changed_modifier : UpdateModifierDto → Modifier → Modifier
changed_modifier dto m = record m {
  name = given_or dto.name m.name;
  price_delta_cents = given_or dto.price_delta_cents m.price_delta_cents;
  sort_order = given_or dto.sort_order m.sort_order;
  available = given_or dto.available m.available;
}

module _ (env : Env) where
  unfoldable pub ensure_group : Uuid → AuthUser → Exec ModifierGroup
  ensure_group id user =
      ensure_owned env.modifier_groups (λ w. w.modifier_groups) (λ g. g.restaurant_id)
        modifier_group_not_found id user.restaurant_id

  unfoldable pub ensure_modifier : Uuid → AuthUser → Exec Modifier
  ensure_modifier id user =
      ensure_owned env.modifiers (λ w. w.modifiers) (λ m. m.restaurant_id) modifier_not_found id
        user.restaurant_id

  -- The nested `create` of a group's modifiers, one after the other
  unfoldable pub create_modifiers : List CreateModifierDto → Uuid → Uuid → Exec (Unit {0})
  unfolding new_modifier
  create_modifiers [] group_id restaurant_id = pure tt
  create_modifiers (dto ∷ rest) group_id restaurant_id = do
    m ←
        create_row env.modifiers (λ w. w.modifiers) put_modifiers
          (new_modifier dto group_id restaurant_id)
    create_modifiers rest group_id restaurant_id

  unfoldable pub create_group : Uuid → CreateModifierGroupDto → AuthUser → Exec GroupWithModifiers
  create_group menu_item_id dto user = do
    assert_min_max dto.min_select dto.max_select
    found ← gets (λ w.
        env.menu_items.find_first
          (λ i. i.id == menu_item_id && i.restaurant_id == user.restaurant_id) [] w.menu_items)
    item ← or_throw found menu_item_not_found
    group ←
        create_row env.modifier_groups (λ w. w.modifier_groups) put_groups
          (new_group dto menu_item_id user.restaurant_id)
    create_modifiers (given_or dto.modifiers []) group.id user.restaurant_id
    gets (λ w. include_modifiers env w group)

  unfoldable pub list_groups_for_item : Uuid → Exec (List GroupWithModifiers)
  list_groups_for_item menu_item_id = gets (load_groups env menu_item_id default_restaurant_id)

  unfoldable pub update_group : Uuid → UpdateModifierGroupDto → AuthUser → Exec GroupWithModifiers
  update_group group_id dto user = do
    group ← ensure_group group_id user
    let next_min = given_or dto.min_select group.min_select
    let next_max = given_or dto.max_select group.max_select
    assert_min_max (some next_min) (some next_max)
    changed ←
        update_or_throw env.modifier_groups (λ w. w.modifier_groups) put_groups group_id
          (changed_group dto)
    gets (λ w. include_modifiers env w changed)

  -- `onDelete: Cascade` of prisma/schema.prisma takes the modifiers of the group with it.
  unfoldable pub remove_group : Uuid → AuthUser → Exec ModifierGroup
  remove_group group_id user = do
    group ← ensure_group group_id user
    modify
        (λ w. put_modifiers (env.modifiers.delete_many (λ m. m.group_id == group_id) w.modifiers) w)
    delete_row env.modifier_groups (λ w. w.modifier_groups) put_groups group_id

  unfoldable pub add_modifier : Uuid → CreateModifierDto → AuthUser → Exec Modifier
  add_modifier group_id dto user = do
    group ← ensure_group group_id user
    create_row env.modifiers (λ w. w.modifiers) put_modifiers
        (new_modifier dto group_id user.restaurant_id)

  unfoldable pub update_modifier : Uuid → UpdateModifierDto → AuthUser → Exec Modifier
  update_modifier modifier_id dto user = do
    modifier ← ensure_modifier modifier_id user
    update_or_throw env.modifiers (λ w. w.modifiers) put_modifiers modifier_id
        (changed_modifier dto)

  unfoldable pub remove_modifier : Uuid → AuthUser → Exec Modifier
  remove_modifier modifier_id user = do
    modifier ← ensure_modifier modifier_id user
    delete_row env.modifiers (λ w. w.modifiers) put_modifiers modifier_id
