-- ===== src/Modifiers.antt =====
-- menu/modifiers.service.ts, the order-time entry point `resolveSelections`.

pub mod Sound
pub mod Editing
pub mod Groups
pub mod Reads
use Prim.Native.Nat.{max}
use restosync_api.Base.{
  ℕ, suc, ◌+◌, Bool, true, false, not, ◌&&◌, Option, none, some, List, [], ◌∷◌, ◌++◌, map, ltb,
  ◌==◌, if◌then◌else◌, length, filter_by, includes,
}
use restosync_api.Base.Int.{ℤ, pos, sum_by}
use restosync_api.Base.Dict.{lookup, insert, get_or_zero}
use restosync_api.Schema.{Uuid, Modifier, ModifierGroup, ResolvedModifierSelection}
use restosync_api.Prisma.{asc, asc_text}
use restosync_api.World.{
  World, modifier_twice, modifier_invalid, modifier_unavailable, group_required,
  group_below_minimum, group_above_maximum, Exec, Env, pure, throw, guard, gets, ◌>>=◌, ◌>>◌,
}

pub record ResolvedSelection : Type 0 where
  pub selections : List ResolvedModifierSelection
  pub delta_cents_per_unit : ℤ

-- A group with `groupInclude`
pub record GroupWithModifiers : Type 0 where
  pub group : ModifierGroup
  pub modifiers : List Modifier

pub record Hit : Type 0 where
  pub modifier : Modifier
  pub group : ModifierGroup

-- `new Set(ids).size`
unfoldable pub set_size : List Uuid → ℕ
set_size [] = 0
set_size (id ∷ rest) = let n = set_size rest in if includes rest id then n else suc n

module _ (env : Env) where
  unfoldable pub include_modifiers : World → ModifierGroup → GroupWithModifiers
  include_modifiers w group = record {
    group = group;
    modifiers =
        env.modifiers.find_many (λ m. m.group_id == group.id)
          (asc (λ m. m.sort_order) ∷ asc_text (λ m. m.name) ∷ []) w.modifiers;
  }

  -- `prisma.modifierGroup.findMany({ where, include: groupInclude, orderBy })`
  unfoldable pub load_groups : Uuid → Uuid → World → List GroupWithModifiers
  unfolding include_modifiers
  load_groups menu_item_id restaurant_id w = map (include_modifiers w) (
      env.modifier_groups.find_many
        (λ g. g.menu_item_id == menu_item_id && g.restaurant_id == restaurant_id)
        (asc (λ g. g.sort_order) ∷ asc_text (λ g. g.name) ∷ []) w.modifier_groups)

unfoldable pub index_modifiers :
    ModifierGroup → List Modifier → List (Uuid × Hit) → List (Uuid × Hit)
index_modifiers group [] by_id = by_id
index_modifiers group (m ∷ rest) by_id =
    index_modifiers group rest (insert m.id (record { modifier = m; group = group }) by_id)

-- The loop that fills `byId`
unfoldable pub index_groups : List GroupWithModifiers → List (Uuid × Hit) → List (Uuid × Hit)
unfolding index_modifiers
index_groups [] by_id = by_id
index_groups (g ∷ rest) by_id = index_groups rest (index_modifiers g.group g.modifiers by_id)

unfoldable pub check_hit : Option Hit → Exec (Unit {0})
check_hit none = throw modifier_invalid
check_hit (some hit) = guard hit.modifier.available modifier_unavailable

unfoldable pub check_ids : List (Uuid × Hit) → List Uuid → Exec (Unit {0})
check_ids by_id [] = pure tt
check_ids by_id (id ∷ rest) = check_hit (lookup id by_id) >> check_ids by_id rest

-- One round of the loop that fills `countByGroup`. `check_ids` has passed, so there is a hit.
unfoldable pub count_hit : Option Hit → List (Uuid × ℕ) → List (Uuid × ℕ)
count_hit none counts = counts
count_hit (some hit) counts =
    insert hit.group.id (get_or_zero (lookup hit.group.id counts) + 1) counts

unfoldable pub count_by_group : List (Uuid × Hit) → List Uuid → List (Uuid × ℕ) → List (Uuid × ℕ)
unfolding count_hit
count_by_group by_id [] counts = counts
count_by_group by_id (id ∷ rest) counts =
    count_by_group by_id rest (count_hit (lookup id by_id) counts)

unfoldable pub effective_min : ModifierGroup → ℕ
effective_min g = if g.required then max g.min_select 1 else g.min_select

unfoldable pub check_group : ModifierGroup → ℕ → Exec (Unit {0})
unfolding effective_min
check_group g count = do
  guard (not (g.required && count == 0)) group_required
  guard (not (ltb 0 count && ltb count (effective_min g))) group_below_minimum
  guard (not (ltb g.max_select count)) group_above_maximum

unfoldable pub check_groups : List GroupWithModifiers → List (Uuid × ℕ) → Exec (Unit {0})
check_groups [] counts = pure tt
check_groups (g ∷ rest) counts =
    check_group g.group (get_or_zero (lookup g.group.id counts)) >> check_groups rest counts

unfoldable pub select : ModifierGroup → Modifier → ResolvedModifierSelection
select g m = record {
  id = m.id;
  group_id = g.id;
  group_name = g.name;
  name = m.name;
  price_delta_cents = m.price_delta_cents;
}

-- `groups.flatMap(...)`
unfoldable pub select_from : List GroupWithModifiers → List Uuid → List ResolvedModifierSelection
unfolding select
select_from [] ids = []
select_from (g ∷ rest) ids =
    map (select g.group) (filter_by (λ m. includes ids m.id) g.modifiers) ++ select_from rest ids

-- `modifierIds ?? []`
abbrev pub ids_or_empty : Option (List Uuid) → List Uuid
ids_or_empty none = []
ids_or_empty (some ids) = ids

-- The part of `resolveSelections` after the groups have been read.
unfoldable pub resolve_in : List GroupWithModifiers → List Uuid → Exec ResolvedSelection
resolve_in groups ids =
    let by_id = index_groups groups [] in
    let selections = select_from groups ids in
    check_ids by_id ids
    >> check_groups groups (count_by_group by_id ids [])
    >> pure (record {
      selections = selections;
      delta_cents_per_unit = sum_by (λ s. s.price_delta_cents) (pos 0) selections;
    })

module _ (env : Env) where
  unfoldable pub resolve_selections : Uuid → Option (List Uuid) → Uuid → Exec ResolvedSelection
  resolve_selections menu_item_id modifier_ids restaurant_id =
      let ids = ids_or_empty modifier_ids in
      guard (set_size ids == length ids) modifier_twice
      >> do groups ← gets (load_groups env menu_item_id restaurant_id); resolve_in groups ids
