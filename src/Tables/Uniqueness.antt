-- ===== src/Tables/Uniqueness.antt =====
-- tables/tables.service.ts: the uniqueness of names in a restaurant, when tables are made and edited.
use restosync_api.Base.{
  ◌≡◌, ◌≢◌, refl, subst, Bool, true, false, ◌&&◌, Option, none, some, [], ◌==◌, ==_iff,
}
use restosync_api.Base.Text.{Text}
use restosync_api.Schema.{Uuid, AuthUser, Table, TableStatus, same_table_status}
use restosync_api.Prisma.Laws.{create_self, create_ne}
use restosync_api.World.{World, done, Env, IsPrisma, table_name_taken, pure, update_or_throw, ◌>>=◌}
use restosync_api.World.Atomic.{Atomic}
use restosync_api.World.Reads.{Reads, Reads-pure, Atomic-read, Atomic-test}
use restosync_api.World.Writes.{Atomic-create_last, Atomic-update_last}
use restosync_api.World.Owned.{Changes, update-changed}
use restosync_api.World.Unique.{
  HasUniqueKeys, assert_unique-Reads, assert_unique-eq, listed_not_same, create_unique,
  update_unique, same_key_unique,
}
use restosync_api.Names.{normalize_name}
use restosync_api.Tables.{
  CreateTableDto, UpdateTableDto, put_tables, new_table, changed_table, is_other, ensure_table,
  assert_table_editable, assert_name_unique, check_name, create, update,
}
use restosync_api.Tables.Effects.{ensure_table-Reads, ensure_table-eq, available_status}

-- No two tables of a restaurant have names that are the same name.
abbrev pub HasUniqueNames : Env → Uuid → World → Type 0
HasUniqueNames env r w =
    HasUniqueKeys env.tables (λ t. t.restaurant_id) (λ t. normalize_name env t.name) r w.tables

module _ (env : Env) (db : IsPrisma env) (user : AuthUser) (w : World) where
  -- The name check of `restaurant_id`, with the table that it leaves out
  checked : Option Uuid → Table → Bool
  checked excluded t = t.restaurant_id == user.restaurant_id && is_other excluded t.id

  name_free :
      (excluded : Option Uuid) (name : Text) (j : Uuid) (y : Table)
      → assert_name_unique env name user excluded w ≡ done tt w
      → env.tables.find_unique j w.tables ≡ some y
      → y.restaurant_id ≡ user.restaurant_id
      → is_other excluded y.id ≡ true
      → normalize_name env y.name ≢ normalize_name env name
  unfolding assert_name_unique checked
  name_free excluded name j y h found own other =
      listed_not_same db.tables (λ t. t.restaurant_id) (λ t. normalize_name env t.name)
        user.restaurant_id w.tables (checked excluded) [] (normalize_name env name) j y
        (assert_unique-eq env.tables (λ u. u.tables) (checked excluded)
          (λ t. normalize_name env t.name) (normalize_name env name) table_name_taken w h)
        found (rw ((==_iff y.restaurant_id user.restaurant_id).1 own, other) refl)

  assert_name_unique-Reads :
      (name : Text) (excluded : Option Uuid) → Reads (assert_name_unique env name user excluded)
  unfolding assert_name_unique
  assert_name_unique-Reads name excluded =
      assert_unique-Reads env.tables (λ u. u.tables) _ (λ t. normalize_name env t.name)
        (normalize_name env name) table_name_taken

  -- What a creation does: a free table with no place is stored under its name, and names stay unique.
  pub record CreatesTable (dto : CreateTableDto) (t : Table) (v : World) : Type 0 where
    pub stored : env.tables.find_unique t.id v.tables ≡ some t
    pub unused : env.tables.find_unique t.id w.tables ≡ none
    pub made : t ≡ record {
      id = t.id;
      name = dto.name;
      capacity = dto.capacity;
      status = TableStatus.available;
      restaurant_id = user.restaurant_id;
      zone_id = none;
      position_x = none;
      position_y = none;
      width = none;
      height = none;
      shape = some "rounded";
    }
    pub others :
        (j : Uuid)
        → (t.id == j) ≡ false
        → env.tables.find_unique j v.tables ≡ env.tables.find_unique j w.tables
    pub rest : v ≡ put_tables v.tables w
    pub unique : HasUniqueNames env user.restaurant_id v

  -- In a database that keeps Prisma's laws, if no two tables of the restaurant have names that
  -- are the same name, `create` returns, or throws and leaves the state as it was; if it
  -- returns, an AVAILABLE table without a place, of the default shape, with the given name and
  -- capacity, is stored under an id that was not in use, the other tables are as they were,
  -- nothing else has changed, and still no two of the restaurant have names that are the same
  -- name.
  pub create-CreatesTable :
      (dto : CreateTableDto)
      → HasUniqueNames env user.restaurant_id w
      → Atomic (CreatesTable dto) w (create env dto user w)
  unfolding create new_table
  create-CreatesTable dto unique =
      let x = new_table dto user.restaurant_id (env.tables.new_id w.tables) in
      Atomic-read _ (assert_name_unique env dto.name user none) _ w
        (assert_name_unique-Reads dto.name none)
        λ a h.
          Atomic-create_last _ env.tables (λ u. u.tables) put_tables 0
            (new_table dto user.restaurant_id) w w
            (record {
              stored = create_self db.tables x w.tables refl;
              unused = db.tables.found_new_id w.tables;
              made = refl;
              others = λ j ne. create_ne db.tables x j w.tables refl ne;
              rest = refl;
              unique =
                  create_unique db.tables (λ t. t.restaurant_id) (λ t. normalize_name env t.name)
                    user.restaurant_id w.tables x refl unique
                    (λ j y found own. name_free none dto.name j y h found own refl);
            })

  -- A change of a table that was free: no other table has changed, and names stay unique.
  pub record EditsTable (i : Uuid) (f : Table → Table) (v : World) : Type 0 where
    pub changes :
        Changes env.tables
          (λ u. u.tables)
          put_tables
          (λ t. t.restaurant_id)
          i
          user.restaurant_id
          f
          w
          v
    pub free :
        (t : Table) → env.tables.find_unique i w.tables ≡ some t → t.status ≡ TableStatus.available
    pub unique : HasUniqueNames env user.restaurant_id v

  edited-EditsTable :
      (i : Uuid) (dto : UpdateTableDto) (t : Table)
      → env.tables.find_unique i w.tables ≡ some t
      → t.restaurant_id ≡ user.restaurant_id
      → same_table_status t.status TableStatus.available ≡ true
      → HasUniqueNames env user.restaurant_id
          (put_tables (env.tables.update i (changed_table dto) w.tables) w)
      → Atomic
          (λ _ v. EditsTable i (changed_table dto) v)
          w
          (update_or_throw env.tables (λ u. u.tables) put_tables i (changed_table dto) w)
  unfolding changed_table
  edited-EditsTable i dto t found own editable unique =
      Atomic-update_last _ env.tables (λ u. u.tables) put_tables i (changed_table dto) w w t found
        (record {
          changes =
              update-changed db.tables (λ u. u.tables) put_tables (λ rows u. refl)
                (λ x. x.restaurant_id) i user.restaurant_id (changed_table dto) (λ x. refl) w t
                found own;
          free = λ x e.
              let same : t ≡ x = cc in
              subst (λ (y : Table). y.status ≡ TableStatus.available) same
                (available_status env db user w t.status editable);
          unique = unique;
        })

  checked_update :
      (i : Uuid) (dto : UpdateTableDto) (t : Table) (name : Option Text)
      → dto.name ≡ name
      → env.tables.find_unique i w.tables ≡ some t
      → t.restaurant_id ≡ user.restaurant_id
      → same_table_status t.status TableStatus.available ≡ true
      → HasUniqueNames env user.restaurant_id w
      → Atomic
          (λ _ v. EditsTable i (changed_table dto) v)
          w
          ((check_name env name user i >>= λ _.
              update_or_throw env.tables (λ u. u.tables) put_tables i (changed_table dto))
            w)
  unfolding changed_table
  checked_update i dto t none e found own editable unique =
      Atomic-read _ (pure tt) _ w (Reads-pure tt) λ a h.
        edited-EditsTable i dto t found own editable (
          same_key_unique db.tables (λ x. x.restaurant_id) (λ x. normalize_name env x.name)
            user.restaurant_id w.tables i (changed_table dto) (λ x. refl) (λ x. refl) t found
            (rw e refl) own unique)
  checked_update i dto t (some name) e found own editable unique =
      Atomic-read _ (assert_name_unique env name user (some i)) _ w
        (assert_name_unique-Reads name (some i))
        λ a h. edited-EditsTable i dto t found own editable (
          update_unique db.tables (λ x. x.restaurant_id) (λ x. normalize_name env x.name)
            user.restaurant_id w.tables i (changed_table dto) (λ x. refl) (λ x. refl) t found unique
            λ j y ne found_y own_y. rw e (
              name_free (some i) name j y h found_y own_y
                (let q = db.tables.found_id j w.tables y found_y in rw (q, ne) refl)))

  -- In a database that keeps Prisma's laws, if no two tables of the restaurant have names that
  -- are the same name, the update of a table returns, or throws and leaves the state as it was;
  -- if it returns, the table was there, in the user's restaurant and AVAILABLE, it is changed
  -- as the request says and nothing else is, and still no two tables of the restaurant have
  -- names that are the same name.
  pub update-EditsTable :
      (i : Uuid) (dto : UpdateTableDto)
      → HasUniqueNames env user.restaurant_id w
      → Atomic (λ _ v. EditsTable i (changed_table dto) v) w (update env i dto user w)
  unfolding update assert_table_editable
  update-EditsTable i dto unique =
      Atomic-read _ (ensure_table env i user) _ w (ensure_table-Reads env db user w i) λ t h.
        let (found, own) = ensure_table-eq env db user w i t h in
        Atomic-test _ _ _ _ w
          λ editable. checked_update i dto t dto.name refl found own editable unique
