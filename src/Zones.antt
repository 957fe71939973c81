-- ===== src/Zones.antt =====
-- zones/zones.service.ts: the areas of a restaurant, and the names that their tables get.
pub mod Codes
pub mod Effects
pub mod Deletion
pub mod Uniqueness
use restosync_api.Base.{
  ℕ, suc, Bool, true, false, not, ◌&&◌, ◌||◌, Option, none, some, List, [], ◌∷◌, ◌++◌, map, ◌==◌,
  leb, length, filter_by, some_by, if◌then◌else◌,
}
use restosync_api.Base.Text.{Text, codes, same_text, is_space, is_digit, decimal, parse_decimal}
use restosync_api.Base.Search.{first_free}
use restosync_api.Schema.{Uuid, AuthUser, Zone, Table, TableStatus, same_table_status}
use restosync_api.Prisma.{asc}
use restosync_api.World.{
  World, Exec, Env, zone_not_found, zone_not_empty, zone_code_taken, pure, throw, gets, guard,
  modify, transaction, create_row, update_or_throw, ◌>>=◌, ◌>>◌,
}
use restosync_api.World.Owned.{ensure_owned}
use restosync_api.World.Removal.{cut, detach_tables}
use restosync_api.World.Unique.{assert_unique}
use restosync_api.Names.{trim, normalize_name}

-- dto/create-zone.dto.ts; its `code` is not read by the service.
pub record CreateZoneDto : Type 0 where
  pub name : Text
  pub code : Text
  pub sort_order : Option ℕ

-- dto/update-zone.dto.ts
pub record UpdateZoneDto : Type 0 where
  pub name : Option Text
  pub code : Option Text
  pub sort_order : Option ℕ

abbrev pub put_zones : List Zone → World → World
put_zones rows w = record w { zones = rows }

abbrev pub given_or {ℓ} : {A : Type ℓ} → Option A → A → A
given_or none old = old
given_or (some a) old = a

abbrev up_to_space : Text → Text
up_to_space [] = []
up_to_space (c ∷ s) = let rest = up_to_space s in if is_space c then [] else c ∷ rest

-- `name.trim().split(/\s+/)[0] ?? ''`
unfoldable pub leading_word : Text → Text
leading_word name = up_to_space (trim name)

abbrev pub first_three : Text → Text
first_three (a ∷ b ∷ c ∷ d ∷ rest) = a ∷ b ∷ c ∷ []
first_three s = s

-- `name.startsWith(code) ? name.slice(code.length) : undefined`
abbrev pub strip_prefix : Text → Text → Option Text
strip_prefix [] name = some name
strip_prefix (c ∷ code) [] = none
strip_prefix (c ∷ code) (d ∷ name) =
    let rest = strip_prefix code name in if c == d then rest else none

-- `/^\d{2}$/.test(suffix)`, and the number
abbrev pub two_digits : Option Text → List ℕ
two_digits (some (a ∷ b ∷ [])) =
    if is_digit a && is_digit b then parse_decimal (a ∷ b ∷ []) ∷ [] else []
two_digits suffix = []

-- The set `used` of `getNextTableName`
unfoldable pub used_suffixes : Text → List Text → List ℕ
unfolding is_digit
used_suffixes code [] = []
used_suffixes code (name ∷ rest) = two_digits (strip_prefix code name) ++ used_suffixes code rest

-- The loop from 1 on: with one more round than there are numbers in use it ends by its test.
unfoldable pub next_suffix : List ℕ → ℕ
next_suffix used = first_free (λ n. some_by (◌==◌ n) used) (suc (length used)) 1

-- `s.padStart(2, '0')`
abbrev pub pad_two : Text → Text
pad_two [] = 48 ∷ 48 ∷ []
pad_two (c ∷ []) = 48 ∷ c ∷ []
pad_two s = s

unfoldable pub table_name : Text → ℕ → Text
table_name code n = code ++ pad_two (decimal n)

-- `status: { in: [RESERVED, OCCUPIED] }`
unfoldable pub is_in_use : TableStatus → Bool
is_in_use TableStatus.available = false
is_in_use status = true

abbrev pub in_zone : Uuid → Option Uuid → Bool
in_zone id none = false
in_zone id (some zone_id) = zone_id == id

module _ (env : Env) where
  unfoldable pub is_piso : Text → Bool
  unfolding leading_word
  is_piso name = same_text (env.to_lower_case (leading_word name)) (codes "piso")

  unfoldable pub prefix_of : Text → Text
  unfolding is_piso
  prefix_of name = if is_piso name then [] else first_three (env.to_upper_case (leading_word name))

  -- The set `used` of `computeZoneCode`: for a name in "Piso", only the codes of such names
  unfoldable pub used_codes : Text → List Zone → List Text
  unfolding is_piso
  used_codes name existing =
      map (λ (z : Zone). normalize_name env z.code)
        (filter_by (λ (z : Zone). not (is_piso name) || is_piso z.name) existing)

  unfoldable pub is_code_used : Text → List Text → ℕ → Bool
  is_code_used prefix used n = some_by (same_text (normalize_name env (prefix ++ decimal n))) used

  unfoldable pub code_number : Text → List Text → ℕ
  unfolding is_code_used
  code_number prefix used = first_free (is_code_used prefix used) (suc (length used)) 1

  unfoldable pub compute_zone_code : Text → List Zone → Text
  unfolding prefix_of used_codes code_number
  compute_zone_code name existing =
      prefix_of name ++ decimal (code_number (prefix_of name) (used_codes name existing))

  unfoldable pub zones_of : Uuid → World → List Zone
  zones_of restaurant_id w = env.zones.find_many (λ z. z.restaurant_id == restaurant_id) [] w.zones

  unfoldable pub new_zone : CreateZoneDto → Text → Uuid → Uuid → Zone
  new_zone dto code restaurant_id id = record {
    id = id;
    restaurant_id = restaurant_id;
    name = dto.name;
    code = code;
    sort_order = given_or dto.sort_order 0;
  }

  unfoldable pub create : CreateZoneDto → AuthUser → Exec Zone
  create dto user = do
    existing ← gets (zones_of user.restaurant_id)
    let code = compute_zone_code dto.name existing
    create_row env.zones (λ w. w.zones) put_zones (new_zone dto code user.restaurant_id)

  unfoldable pub find_all : AuthUser → Exec (List Zone)
  find_all user = gets (λ w.
      env.zones.find_many (λ z. z.restaurant_id == user.restaurant_id)
        (asc (λ z. z.sort_order) ∷ []) w.zones)

  unfoldable pub ensure_zone : Uuid → AuthUser → Exec Zone
  ensure_zone id user =
      ensure_owned env.zones (λ w. w.zones) (λ z. z.restaurant_id) zone_not_found id
        user.restaurant_id

  -- `assertCodeUnique`, where `id` is the zone that is left out
  unfoldable pub assert_code_unique : Text → AuthUser → Uuid → Exec (Unit {0})
  assert_code_unique code user id =
      assert_unique env.zones (λ w. w.zones)
        (λ z. z.restaurant_id == user.restaurant_id && not (z.id == id))
        (λ z. normalize_name env z.code) (normalize_name env code) zone_code_taken

  -- `if (dto.code !== undefined) await this.assertCodeUnique(...)`
  abbrev pub check_code : Option Text → AuthUser → Uuid → Exec (Unit {0})
  check_code none user id = pure tt
  check_code (some code) user id = assert_code_unique code user id

  unfoldable pub changed_zone : UpdateZoneDto → Zone → Zone
  changed_zone dto z = record z {
    name = given_or dto.name z.name;
    code = given_or dto.code z.code;
    sort_order = given_or dto.sort_order z.sort_order;
  }

  unfoldable pub update : Uuid → UpdateZoneDto → AuthUser → Exec Zone
  update id dto user = do
    zone ← ensure_zone id user
    check_code dto.code user id
    update_or_throw env.zones (λ w. w.zones) put_zones id (changed_zone dto)

  unfoldable pub names_of_tables : Uuid → World → List Text
  names_of_tables restaurant_id w =
      map (λ (t : Table). t.name)
        (env.tables.find_many (λ t. t.restaurant_id == restaurant_id) [] w.tables)

  unfoldable pub get_next_table_name : Uuid → AuthUser → Exec Text
  get_next_table_name id user = do
    zone ← ensure_zone id user
    names ← gets (names_of_tables user.restaurant_id)
    pure (table_name zone.code (next_suffix (used_suffixes zone.code names)))

  unfoldable pub is_blocking : Uuid → Uuid → Table → Bool
  is_blocking id restaurant_id t =
      in_zone id t.zone_id && t.restaurant_id == restaurant_id && is_in_use t.status

  abbrev refuse_blocked : Option Table → Exec (Unit {0})
  refuse_blocked none = pure tt
  refuse_blocked (some t) = throw zone_not_empty

  abbrev is_deleted : Uuid → Uuid → Option Table → Bool
  is_deleted id restaurant_id none = false
  is_deleted id restaurant_id (some t) = in_zone id t.zone_id && t.restaurant_id == restaurant_id

  -- The body of the `$transaction` of `remove`. The foreign keys are `ON DELETE SET NULL`: of orders
  -- and reservations to a table, and of a table that is left to the zone.
  unfoldable pub delete_zone : Uuid → Uuid → World → World
  delete_zone id restaurant_id w =
      let v =
        detach_tables env (λ j. is_deleted id restaurant_id (env.tables.find_unique j w.tables))
          w in
      record v {
        tables =
            env.tables.set_null (λ t. record t { zone_id = cut (λ j. j == id) t.zone_id })
              (env.tables.delete_many
                (λ t. in_zone id t.zone_id && t.restaurant_id == restaurant_id) v.tables);
        zones = env.zones.delete id v.zones;
      }

  unfoldable pub remove : Uuid → AuthUser → Exec (Unit {0})
  remove id user = do
    zone ← ensure_zone id user
    blocking ← gets (λ w. env.tables.find_first (is_blocking id user.restaurant_id) [] w.tables)
    refuse_blocked blocking
    transaction (modify (delete_zone id user.restaurant_id))
