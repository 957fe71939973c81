-- ===== src/Zones/Effects.antt =====
-- zones/zones.service.ts: the zone that an operation is about, and the names that it suggests.
use restosync_api.Base.{
  ℕ, ◌≤◌, ◌<◌, ◌≡◌, ◌≢◌, refl, ap, subst, true, some, List, [], ◌∷◌, map, ◌==◌, ==_iff, some_by,
  Any, inl, inr,
}
use restosync_api.Base.Text.{Text}
use restosync_api.Schema.{Uuid, AuthUser, Zone, Table}
use restosync_api.World.{World, done, Env, IsPrisma}
use restosync_api.World.Atomic.{Atomic}
use restosync_api.World.Reads.{Reads, Atomic-read, Atomic-gets}
use restosync_api.World.Writes.{Atomic-pure}
use restosync_api.World.Owned.{ensure_owned-Reads, ensure_owned-eq}
use restosync_api.Zones.{
  ensure_zone, used_suffixes, next_suffix, table_name, names_of_tables, get_next_table_name,
}
use restosync_api.Zones.Codes.{next_suffix-least, next_suffix-unused}

module _ (env : Env) (db : IsPrisma env) (user : AuthUser) (w : World) where
  pub ensure_zone-Reads : (i : Uuid) → Reads (ensure_zone env i user)
  unfolding ensure_zone
  ensure_zone-Reads i = ensure_owned-Reads env.zones (λ u. u.zones) (λ z. z.restaurant_id) _ i _

  pub ensure_zone-eq :
      (i : Uuid) (z : Zone)
      → ensure_zone env i user w ≡ done z w
      → (env.zones.find_unique i w.zones ≡ some z) × (z.restaurant_id ≡ user.restaurant_id)
  unfolding ensure_zone
  ensure_zone-eq i z h = ensure_owned-eq env.zones (λ u. u.zones) (λ z. z.restaurant_id) _ i _ w z h

  -- What a suggested name is made of
  pub record Suggests (i : Uuid) (name : Text) : Type 0 where
    pub zone : Zone
    pub found : env.zones.find_unique i w.zones ≡ some zone
    pub own : zone.restaurant_id ≡ user.restaurant_id
    pub number : ℕ
    pub made : name ≡ table_name zone.code number
    pub positive : 1 ≤ number
    pub unused :
        number < 100
        → (j : Uuid) (t : Table) → env.tables.find_unique j w.tables ≡ some t
        → t.restaurant_id ≡ user.restaurant_id
        → t.name ≢ name
    pub least :
        (m : ℕ)
        → 1 ≤ m
        → m < number
        → some_by (◌==◌ m) (used_suffixes zone.code (names_of_tables env user.restaurant_id w))
          ≡ true

  name_listed :
      (j : Uuid) (t : Table)
      → env.tables.find_unique j w.tables ≡ some t
      → t.restaurant_id ≡ user.restaurant_id
      → Any (λ name. name ≡ t.name) (names_of_tables env user.restaurant_id w)
  unfolding names_of_tables
  name_listed j t f own =
      Any-map (env.tables.find_many (λ x. x.restaurant_id == user.restaurant_id) [] w.tables) (
        db.tables.many_found _ [] w.tables j t f
          ((==_iff t.restaurant_id user.restaurant_id).1 own))
    where
      Any-map :
          (xs : List Table)
          → Any (λ x. x ≡ t) xs
          → Any (λ name. name ≡ t.name) (map (λ (x : Table). x.name) xs)
      Any-map [] h = elim h [ ]
      Any-map (x ∷ xs) (inl e) = inl (ap (λ (y : Table). y.name) e)
      Any-map (x ∷ xs) (inr h) = inr (Any-map xs h)

  -- In a database that keeps Prisma's laws, `getNextTableName` returns, or throws, and leaves
  -- the state as it was. If it returns, the zone is there and in the user's restaurant, and the
  -- name is its code with a number from 1 on; if that number is below 100, no table of the
  -- restaurant has the name; each smaller number is a two-digit suffix of a table name with
  -- that code.
  pub get_next_table_name-Suggests :
      (i : Uuid) → Atomic (λ name v. Suggests i name × (v ≡ w)) w (get_next_table_name env i user w)
  unfolding get_next_table_name
  get_next_table_name-Suggests i =
      Atomic-read _ (ensure_zone env i user) _ w (ensure_zone-Reads i) λ z h.
        let (found, own) = ensure_zone-eq i z h in
        let names = names_of_tables env user.restaurant_id w in
        let n = next_suffix (used_suffixes z.code names) in
        let (positive, least) = next_suffix-least (used_suffixes z.code names) in
        Atomic-gets _ _ _ w w (
          Atomic-pure _ (table_name z.code n) w w (
            record {
              zone = z;
              found = found;
              own = own;
              number = n;
              made = refl;
              positive = positive;
              unused = λ small j t f same_restaurant same. next_suffix-unused z.code names small (
                  subst (λ name. Any (λ x. x ≡ name) names) same
                    (name_listed j t f same_restaurant));
              least = least;
            },
            refl,
          ))
