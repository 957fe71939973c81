-- ===== src/Zones/Uniqueness.antt =====
-- zones/zones.service.ts: the uniqueness of codes in a restaurant.
use restosync_api.Base.{
  ◌≡◌, refl, sym, subst, true, false, not, ◌&&◌, ◌||◌, Option, none, some, List, [], ◌∷◌, map,
  arith, ◌==◌, ==_iff, some_by, filter_by, if◌then◌else◌,
}
use restosync_api.Base.Text.{Text, same_text, same_text_comm}
use restosync_api.Schema.{Uuid, AuthUser, Zone}
use restosync_api.Prisma.Laws.{create_self}
use restosync_api.World.{World, Env, zone_code_taken, IsPrisma, pure, update_or_throw, ◌>>=◌}
use restosync_api.World.Atomic.{Atomic}
use restosync_api.World.Reads.{Reads-pure, Atomic-read, Atomic-gets}
use restosync_api.World.Writes.{Atomic-create_last, Atomic-update_last}
use restosync_api.World.Unique.{
  HasUniqueKeys, assert_unique-Reads, assert_unique-eq, listed_not_same, create_unique,
  update_unique, same_key_unique,
}
use restosync_api.World.Owned.{Changes, update-changed}
use restosync_api.Names.{normalize_name}
use restosync_api.Names.Digits.{IsCaseMapping}
use restosync_api.Zones.{
  CreateZoneDto, UpdateZoneDto, put_zones, is_piso, used_codes, compute_zone_code, zones_of,
  new_zone, create, ensure_zone, assert_code_unique, check_code, changed_zone, update,
}
use restosync_api.Zones.Codes.{compute_zone_code-free}
use restosync_api.Zones.Effects.{ensure_zone-Reads, ensure_zone-eq}

-- No two zones of a restaurant have codes that are the same name.
abbrev pub HasUniqueCodes : Env → Uuid → World → Type 0
HasUniqueCodes env r w =
    HasUniqueKeys env.zones (λ z. z.restaurant_id) (λ z. normalize_name env z.code) r w.zones

module _ (env : Env) (db : IsPrisma env) (user : AuthUser) (w : World) where
  -- The zone has been changed, no other has, and the codes are still unique.
  abbrev pub ChangesUniquely : Uuid → UpdateZoneDto → World → Type 0
  ChangesUniquely i dto v =
      Changes env.zones (λ u. u.zones) put_zones (λ z. z.restaurant_id) i user.restaurant_id
        (changed_zone env dto) w v
      × HasUniqueCodes env user.restaurant_id v

  -- The zones that `computeZoneCode` reads are all those of the restaurant.
  not_used :
      (name : Text) (k : Text)
      → is_piso env name ≡ false
      → some_by (same_text k) (used_codes env name (zones_of env user.restaurant_id w)) ≡ false
      → not (
          some_by
            (λ (z : Zone). same_text (normalize_name env z.code) k)
            (env.zones.find_many (λ z. z.restaurant_id == user.restaurant_id) [] w.zones))
        ≡ true
  unfolding used_codes zones_of
  not_used name k other e =
      all (env.zones.find_many (λ z. z.restaurant_id == user.restaurant_id) [] w.zones) e
    where
      all :
          (zs : List Zone)
          → some_by (same_text k) (
              map
                (λ (z : Zone). normalize_name env z.code)
                (filter_by (λ (z : Zone). not (is_piso env name) || is_piso env z.name) zs))
            ≡ false
          → not (some_by (λ (z : Zone). same_text (normalize_name env z.code) k) zs) ≡ true
      all [] h = refl
      all (z ∷ zs) h =
          let later = all zs in
          let flip = same_text_comm k (normalize_name env z.code) in
          let listed : (not (is_piso env name) || is_piso env z.name) ≡ true = rw other refl in
          let here : some_by (same_text k) (
                normalize_name env z.code
                ∷ map (λ (x : Zone). normalize_name env x.code)
                    (filter_by (λ (x : Zone). not (is_piso env name) || is_piso env x.name) zs))
              ≡ false =
            subst
              (λ b.
                some_by (same_text k) (
                  map (λ (x : Zone). normalize_name env x.code)
                    (if b
                      then z
                        ∷ filter_by (λ (x : Zone). not (is_piso env name) || is_piso env x.name) zs
                      else filter_by (λ (x : Zone). not (is_piso env name) || is_piso env x.name)
                          zs))
                ≡ false)
              listed h in
          ground arith

  -- In a database that keeps Prisma's laws, if `toLowerCase` leaves the digits at a text's end
  -- as they are, the zone's name does not begin with the word Piso, and no two zones of the
  -- restaurant have codes that are the same name, then `create` returns, or throws and leaves
  -- the state as it was; if it returns, the new zone is stored and still no two zones of the
  -- restaurant have codes that are the same name.
  pub create-HasUniqueCodes :
      (dto : CreateZoneDto)
      → IsCaseMapping env
      → is_piso env dto.name ≡ false
      → HasUniqueCodes env user.restaurant_id w
      → Atomic
          (λ z v.
            HasUniqueCodes env user.restaurant_id v × (env.zones.find_unique z.id v.zones ≡ some z))
          w
          (create env dto user w)
  unfolding create new_zone
  create-HasUniqueCodes dto case other unique =
      let existing = zones_of env user.restaurant_id w in
      let code = compute_zone_code env dto.name existing in
      let (n, made, (positive, free, least)) = compute_zone_code-free env case dto.name existing in
      let row = new_zone env dto code user.restaurant_id in
      Atomic-gets _ _ _ w w (
        Atomic-create_last _ env.zones (λ u. u.zones) put_zones 0 row w w
          (
            create_unique db.zones (λ z. z.restaurant_id) (λ z. normalize_name env z.code)
                user.restaurant_id w.zones (row (env.zones.new_id w.zones)) refl unique
                (λ j y found own.
                  listed_not_same db.zones (λ z. z.restaurant_id) (λ z. normalize_name env z.code)
                    user.restaurant_id w.zones _ [] (normalize_name env code) j y
                    (not_used dto.name (normalize_name env code) other (
                      subst
                        (λ c.
                          some_by (same_text (normalize_name env c))
                            (used_codes env dto.name existing)
                          ≡ false)
                        (sym made) free))
                    found ((==_iff y.restaurant_id user.restaurant_id).1 own)),
            create_self db.zones (row (env.zones.new_id w.zones)) w.zones refl,
          ))

  changed-Changes :
      (i : Uuid) (dto : UpdateZoneDto) (z : Zone)
      → env.zones.find_unique i w.zones ≡ some z
      → z.restaurant_id ≡ user.restaurant_id
      → HasUniqueCodes env user.restaurant_id
          (put_zones (env.zones.update i (changed_zone env dto) w.zones) w)
      → Atomic
          (λ _ v. ChangesUniquely i dto v)
          w
          (update_or_throw env.zones (λ u. u.zones) put_zones i (changed_zone env dto) w)
  unfolding changed_zone
  changed-Changes i dto z found own unique =
      Atomic-update_last _ env.zones (λ u. u.zones) put_zones i (changed_zone env dto) w w z found
        (
          update-changed db.zones (λ u. u.zones) put_zones (λ rows u. refl) (λ x. x.restaurant_id) i
              user.restaurant_id (changed_zone env dto) (λ x. refl) w z found own,
          unique,
        )

  checked_update :
      (i : Uuid) (dto : UpdateZoneDto) (z : Zone) (code : Option Text)
      → dto.code ≡ code
      → env.zones.find_unique i w.zones ≡ some z
      → z.restaurant_id ≡ user.restaurant_id
      → HasUniqueCodes env user.restaurant_id w
      → Atomic
          (λ _ v. ChangesUniquely i dto v)
          w
          ((check_code env code user i >>= λ _.
              update_or_throw env.zones (λ u. u.zones) put_zones i (changed_zone env dto))
            w)
  unfolding changed_zone assert_code_unique
  checked_update i dto z none e found own unique =
      Atomic-read _ (pure tt) _ w (Reads-pure tt) λ a h. changed-Changes i dto z found own (
        same_key_unique db.zones (λ x. x.restaurant_id) (λ x. normalize_name env x.code)
          user.restaurant_id w.zones i (changed_zone env dto) (λ x. refl) (λ x. refl) z found
          (rw e refl) own unique)
  checked_update i dto z (some code) e found own unique =
      let check = λ (x : Zone). x.restaurant_id == user.restaurant_id && not (x.id == i) in
      let key = λ (x : Zone). normalize_name env x.code in
      Atomic-read _ (assert_code_unique env code user i) _ w
        (assert_unique-Reads env.zones (λ u. u.zones) check key (normalize_name env code)
          zone_code_taken)
        λ a h. changed-Changes i dto z found own (
          update_unique db.zones (λ x. x.restaurant_id) key user.restaurant_id w.zones i
            (changed_zone env dto) (λ x. refl) (λ x. refl) z found unique
            λ j y ne found_y own_y. rw e (
              listed_not_same db.zones (λ x. x.restaurant_id) key user.restaurant_id w.zones check
                [] (normalize_name env code) j y
                (assert_unique-eq env.zones (λ u. u.zones) check key (normalize_name env code)
                  zone_code_taken w h)
                found_y
                (let q = db.zones.found_id j w.zones y found_y in
                  rw ((==_iff y.restaurant_id user.restaurant_id).1 own_y, q, ne) refl)))

  -- In a database that keeps Prisma's laws, if no two zones of the restaurant have codes that
  -- are the same name, the update of a zone returns, or throws and leaves the state as it was;
  -- if it returns, the zone was there and in the user's restaurant, it is changed as the
  -- request says and nothing else is, and still no two zones of the restaurant have codes that
  -- are the same name.
  pub update-HasUniqueCodes :
      (i : Uuid) (dto : UpdateZoneDto)
      → HasUniqueCodes env user.restaurant_id w
      → Atomic (λ _ v. ChangesUniquely i dto v) w (update env i dto user w)
  unfolding update
  update-HasUniqueCodes i dto unique =
      Atomic-read _ (ensure_zone env i user) _ w (ensure_zone-Reads env db user w i) λ z h.
        let (found, own) = ensure_zone-eq env db user w i z h in
        checked_update i dto z dto.code refl found own unique
