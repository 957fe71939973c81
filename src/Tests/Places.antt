-- ===== src/Tests/Places.antt =====
-- The theorems on names, zones, tables and the groups of modifiers at the small restaurant.
use restosync_api.Base.{
  ℕ, zero, suc, ◌+◌, ◌/◌, ◌%◌, ◌<◌, ◌≡◌, refl, false, none, some, [], ◌∷◌, ◌++◌, map, arith, ltb,
  Bool-cases, inl, inr, sym, ap, ◌∙◌,
}
use restosync_api.Base.Text.{Text, codes, decimal, decimal_onto}
use restosync_api.Schema.{Uuid, ModifierGroup, Zone, Table}
use restosync_api.World.{World, done}
use restosync_api.World.Atomic.{Atomic}
use restosync_api.Names.{normalize_name}
use restosync_api.Names.Digits.{IsCaseMapping}
use restosync_api.Zones.{
  CreateZoneDto, UpdateZoneDto, is_piso, prefix_of, used_codes, compute_zone_code, table_name,
}
use restosync_api.Zones as ZoneService
use restosync_api.Zones.Codes.{IsLeastFree, compute_zone_code-free}
use restosync_api.Zones.Deletion.{Deletes, remove-Deletes}
use restosync_api.Zones.Effects.{Suggests, get_next_table_name-Suggests}
use restosync_api.Zones.Uniqueness.{
  HasUniqueCodes, ChangesUniquely, create-HasUniqueCodes, update-HasUniqueCodes,
}
use restosync_api.Tables.{CreateTableDto, UpdateTableDto, changed_table}
use restosync_api.Tables as TableService
use restosync_api.Tables.Uniqueness.{
  HasUniqueNames, CreatesTable, create-CreatesTable, EditsTable, update-EditsTable,
}
use restosync_api.Modifiers.Editing.{UpdateModifierGroupDto, update_group}
use restosync_api.Modifiers.Groups.{HasMinMax, EditsGroup, update_group-EditsGroup}
use restosync_api.Tests.Code.{code}
use restosync_api.Tests.{ascii_lower, env, env-IsPrisma, ana, spare_table, terrace, size, world}

lower_append : (s t : Text) → map ascii_lower (s ++ t) ≡ map ascii_lower s ++ map ascii_lower t
lower_append [] t = refl
lower_append (c ∷ s) t = ap (λ r. ascii_lower c ∷ r) (lower_append s t)

lower_digit : (d : ℕ) → d < 10 → ascii_lower (48 + d) ≡ 48 + d
lower_digit d h = ground arith

lower_decimal_onto :
    (fuel n : ℕ) (after : Text)
    → map ascii_lower after ≡ after
    → map ascii_lower (decimal_onto fuel n after) ≡ decimal_onto fuel n after
unfolding decimal_onto
lower_decimal_onto zero n after h = h
lower_decimal_onto (suc fuel) n after h =
    let here = lower_digit (n % 10) (omega arith) in
    let same : map ascii_lower ((48 + n % 10) ∷ after) ≡ (48 + n % 10) ∷ after =
      ap (λ c. c ∷ map ascii_lower after) here ∙ ap (λ r. (48 + n % 10) ∷ r) h in
    elim (Bool-cases (ltb n 10)) [
      | inl e ↦ rw e same
      | inr e ↦ rw e (lower_decimal_onto fuel (n / 10) ((48 + n % 10) ∷ after) same)
    ]

env-IsCaseMapping : IsCaseMapping env
unfolding decimal
env-IsCaseMapping = record {
  lower_decimal = λ s n.
      lower_append s (decimal n)
      ∙ ap (λ r. map ascii_lower s ++ r) (lower_decimal_onto (suc n) n [] refl);
}

normalize_run : normalize_name env (codes "  Mesa   1 ") ≡ codes "mesa 1"
unfolding code
normalize_run = refl

next_name_run : ZoneService.get_next_table_name env 2 ana world ≡ done (codes "T03") world
unfolding code
next_name_run = refl

abbrev garden : CreateZoneDto
garden = record { name = codes "Terra nova"; code = []; sort_order = none }

garden_is_no_piso : is_piso env (codes "Terra nova") ≡ false
unfolding code
garden_is_no_piso = refl

code_run : compute_zone_code env (codes "Terra nova") (terrace ∷ []) ≡ codes "TER1"
unfolding code
code_run = refl

only_terrace : (i : Uuid) (z : Zone) → env.zones.find_unique i world.zones ≡ some z → i ≡ 2
only_terrace i z h = ground arith

world-HasUniqueCodes : HasUniqueCodes env 1 world
world-HasUniqueCodes i j y z f g p q e = only_terrace i y f ∙ sym (only_terrace j z g)

compute_zone_code-free_example :
    (n : ℕ) × (compute_zone_code env (codes "Terra nova") (terrace ∷ [])
      ≡ prefix_of env (codes "Terra nova") ++ decimal n)
    × IsLeastFree env (codes "Terra nova") (terrace ∷ []) n
compute_zone_code-free_example =
    compute_zone_code-free env env-IsCaseMapping (codes "Terra nova") (terrace ∷ [])

get_next_table_name-Suggests_example :
    Atomic
      (λ name v. Suggests env env-IsPrisma ana world 2 name × (v ≡ world))
      world
      (ZoneService.get_next_table_name env 2 ana world)
get_next_table_name-Suggests_example = get_next_table_name-Suggests env env-IsPrisma ana world 2

abbrev quiet_world : World
quiet_world = record world { tables = spare_table ∷ [] }

remove-Deletes_example :
    Atomic
      (λ _ v. Deletes env env-IsPrisma ana quiet_world 2 v)
      quiet_world
      (ZoneService.remove env 2 ana quiet_world)
remove-Deletes_example = remove-Deletes env env-IsPrisma ana quiet_world 2

create-HasUniqueCodes_example :
    Atomic
      (λ z v. HasUniqueCodes env 1 v × (env.zones.find_unique z.id v.zones ≡ some z))
      world
      (ZoneService.create env garden ana world)
create-HasUniqueCodes_example =
    create-HasUniqueCodes env env-IsPrisma ana world garden env-IsCaseMapping garden_is_no_piso
      world-HasUniqueCodes

abbrev renamed : UpdateZoneDto
renamed = record { name = none; code = some (codes "TE"); sort_order = none }

update-HasUniqueCodes_example :
    Atomic
      (λ _ v. ChangesUniquely env env-IsPrisma ana world 2 renamed v)
      world
      (ZoneService.update env 2 renamed ana world)
update-HasUniqueCodes_example =
    update-HasUniqueCodes env env-IsPrisma ana world 2 renamed world-HasUniqueCodes

only_spare : (i : Uuid) (t : Table) → env.tables.find_unique i quiet_world.tables ≡ some t → i ≡ 6
only_spare i t h = ground arith

quiet_world-HasUniqueNames : HasUniqueNames env 1 quiet_world
quiet_world-HasUniqueNames i j y z f g p q e = only_spare i y f ∙ sym (only_spare j z g)

abbrev big_table : CreateTableDto
big_table = record { name = codes "T03"; capacity = some 8 }

create-CreatesTable_example :
    Atomic
      (CreatesTable env env-IsPrisma ana quiet_world big_table)
      quiet_world
      (TableService.create env big_table ana quiet_world)
create-CreatesTable_example =
    create-CreatesTable env env-IsPrisma ana quiet_world big_table quiet_world-HasUniqueNames

abbrev new_name : UpdateTableDto
new_name = record { name = some (codes "T 02"); capacity = none }

update-EditsTable_example :
    Atomic
      (λ _ v. EditsTable env env-IsPrisma ana quiet_world 6 (changed_table new_name) v)
      quiet_world
      (TableService.update env 6 new_name ana quiet_world)
update-EditsTable_example =
    update-EditsTable env env-IsPrisma ana quiet_world 6 new_name quiet_world-HasUniqueNames

only_size :
    (i : Uuid) (g : ModifierGroup)
    → env.modifier_groups.find_unique i world.modifier_groups ≡ some g
    → size ≡ g
only_size i g h = ground arith

world-HasMinMax : HasMinMax env world
world-HasMinMax i g h = let e = only_size i g h in rw (sym e) (omega arith)

abbrev two_sizes : UpdateModifierGroupDto
two_sizes = record {
  name = none;
  required = none;
  min_select = some 1;
  max_select = some 2;
  sort_order = none;
}

update_group-EditsGroup_example :
    Atomic
      (EditsGroup env env-IsPrisma ana world 21 two_sizes)
      world
      (update_group env 21 two_sizes ana world)
update_group-EditsGroup_example =
    update_group-EditsGroup env env-IsPrisma ana world 21 two_sizes world-HasMinMax
