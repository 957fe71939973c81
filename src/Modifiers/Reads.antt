-- ===== src/Modifiers/Reads.antt =====
-- menu/modifiers.service.ts: `resolveSelections` as a method that reads.
use restosync_api.Base.{Option, none, some, List, [], ◌∷◌}
use restosync_api.Base.Dict.{lookup, get_or_zero}
use restosync_api.Schema.{Uuid, ModifierGroup}
use restosync_api.World.{Env}
use restosync_api.World.Reads.{Reads, Reads-bind, reads}
use restosync_api.Modifiers.{
  Hit, GroupWithModifiers, check_hit, check_ids, check_group, check_groups, resolve_in,
  resolve_selections,
}
use restosync_api.Base.{ℕ}

check_hit-Reads : (h : Option Hit) → Reads (check_hit h)
unfolding check_hit
check_hit-Reads none = search reads
check_hit-Reads (some hit) = search reads

check_ids-Reads : (by_id : List (Uuid × Hit)) (ids : List Uuid) → Reads (check_ids by_id ids)
unfolding check_ids
check_ids-Reads by_id [] = search reads
check_ids-Reads by_id (id ∷ rest) =
    Reads-bind (check_hit (lookup id by_id)) (λ _. check_ids by_id rest)
      (check_hit-Reads (lookup id by_id)) (λ _. check_ids-Reads by_id rest)

check_group-Reads : (g : ModifierGroup) (count : ℕ) → Reads (check_group g count)
unfolding check_group
check_group-Reads g count = search reads

check_groups-Reads :
    (groups : List GroupWithModifiers) (counts : List (Uuid × ℕ))
    → Reads (check_groups groups counts)
unfolding check_groups
check_groups-Reads [] counts = search reads
check_groups-Reads (g ∷ rest) counts =
    Reads-bind (check_group g.group (get_or_zero (lookup g.group.id counts)))
      (λ _. check_groups rest counts) (check_group-Reads g.group _)
      (λ _. check_groups-Reads rest counts)

resolve_in-Reads :
    (groups : List GroupWithModifiers) (ids : List Uuid) → Reads (resolve_in groups ids)
unfolding resolve_in
resolve_in-Reads groups ids = search (reads, check_ids-Reads, check_groups-Reads)

pub resolve_selections-Reads :
    (env : Env) (menu_item_id : Uuid) (ids : Option (List Uuid)) (restaurant_id : Uuid)
    → Reads (resolve_selections env menu_item_id ids restaurant_id)
unfolding resolve_selections
resolve_selections-Reads env menu_item_id ids restaurant_id = search (reads, resolve_in-Reads)
