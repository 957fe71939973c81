-- ===== src/Modifiers/Groups.antt =====
-- menu/modifiers.service.ts: the groups that edits leave.
use restosync_api.Base.{
  ◌≤◌, ◌≡◌, refl, sym, ◌∙◌, subst, false, none, some, ◌==◌, ==_iff, leb→le, Bool-cases, inl, inr,
}
use restosync_api.Schema.{Uuid, AuthUser, ModifierGroup}
use restosync_api.Prisma.{unless}
use restosync_api.Prisma.Laws.{==-refl, update_self, update_ne}
use restosync_api.World.{World, done, Env, IsPrisma}
use restosync_api.World.Atomic.{Atomic}
use restosync_api.World.Reads.{Reads, Atomic-read, Atomic-test}
use restosync_api.World.Writes.{Atomic-update, Atomic-gets_last, Atomic-modify, Atomic-delete_last}
use restosync_api.World.Owned.{Changes, update-changed, ensure_owned-Reads, ensure_owned-eq}
use restosync_api.Modifiers.{GroupWithModifiers, include_modifiers}
use restosync_api.Modifiers.Editing.{
  UpdateModifierGroupDto, put_groups, put_modifiers, assert_min_max, changed_group, ensure_group,
  update_group, remove_group,
}
use restosync_api.Zones.{given_or}

-- The number of modifiers that a group asks for is not above the number that it allows.
abbrev pub HasMinMax : Env → World → Type 0
HasMinMax env w =
    (i : Uuid) (g : ModifierGroup)
    → env.modifier_groups.find_unique i w.modifier_groups ≡ some g
    → g.min_select ≤ g.max_select

module _ (env : Env) (db : IsPrisma env) (user : AuthUser) (w : World) where
  ensure_group-Reads : (i : Uuid) → Reads (ensure_group env i user)
  unfolding ensure_group
  ensure_group-Reads i =
      ensure_owned-Reads env.modifier_groups (λ u. u.modifier_groups) (λ g. g.restaurant_id) _ i _

  ensure_group-eq :
      (i : Uuid) (g : ModifierGroup)
      → ensure_group env i user w ≡ done g w
      → (env.modifier_groups.find_unique i w.modifier_groups ≡ some g)
        × (g.restaurant_id ≡ user.restaurant_id)
  unfolding ensure_group
  ensure_group-eq i g h =
      ensure_owned-eq env.modifier_groups (λ u. u.modifier_groups) (λ x. x.restaurant_id) _ i _ w g
        h

  -- What an edit of a group leaves
  pub record EditsGroup (i : Uuid) (dto : UpdateModifierGroupDto) (r : GroupWithModifiers)
      (v : World) : Type 0 where
    pub changes :
        Changes env.modifier_groups
          (λ u. u.modifier_groups)
          put_groups
          (λ g. g.restaurant_id)
          i
          user.restaurant_id
          (changed_group dto)
          w
          v
    pub returned : env.modifier_groups.find_unique i v.modifier_groups ≡ some r.group
    pub sound : HasMinMax env v

  changed_min_max :
      (i : Uuid) (dto : UpdateModifierGroupDto) (g : ModifierGroup)
      → env.modifier_groups.find_unique i w.modifier_groups ≡ some g
      → given_or dto.min_select g.min_select ≤ given_or dto.max_select g.max_select
      → HasMinMax env w
      → HasMinMax env
          (put_groups (env.modifier_groups.update i (changed_group dto) w.modifier_groups) w)
  unfolding changed_group
  changed_min_max i dto g found le all j x e = elim (Bool-cases (i == j)) [
    | inr ne ↦ all j x (
        sym (update_ne db.modifier_groups i j (changed_group dto) w.modifier_groups (λ y. refl) ne)
        ∙ e)
    | inl same ↦
        let q : i ≡ j = (==_iff i j).0 same in
        let stored =
          update_self db.modifier_groups i (changed_group dto) w.modifier_groups g (λ y. refl)
            found in
        let e' =
          subst
            (λ k.
              env.modifier_groups.find_unique k
                (env.modifier_groups.update i (changed_group dto) w.modifier_groups)
              ≡ some x)
            (sym q) e in
        let x_is : changed_group dto g ≡ x = cc in
        subst (λ (y : ModifierGroup). y.min_select ≤ y.max_select) x_is le
  ]

  -- In a database that keeps Prisma's laws, if in every group the least number of modifiers is
  -- not above the greatest, `updateGroup` returns, or throws and leaves the state as it was; if
  -- it returns, the group was there and in the user's restaurant, it is changed as the request
  -- says and nothing else is, the group returned is the one stored, and still in every group
  -- the least number is not above the greatest.
  pub update_group-EditsGroup :
      (i : Uuid) (dto : UpdateModifierGroupDto)
      → HasMinMax env w
      → Atomic (EditsGroup i dto) w (update_group env i dto user w)
  unfolding update_group assert_min_max changed_group include_modifiers
  update_group-EditsGroup i dto all =
      Atomic-read _ (ensure_group env i user) _ w (ensure_group-Reads i) λ g h.
        let (found, own) = ensure_group-eq i g h in
        Atomic-test _ _ _ _ w λ ok.
          Atomic-update _ env.modifier_groups (λ u. u.modifier_groups) put_groups i
            (changed_group dto) _ w w g found
            (Atomic-gets_last _ _ w _ (record {
              changes =
                  update-changed db.modifier_groups (λ u. u.modifier_groups) put_groups
                    (λ rows u. refl) (λ x. x.restaurant_id) i user.restaurant_id (changed_group dto)
                    (λ x. refl) w g found own;
              returned =
                  update_self db.modifier_groups i (changed_group dto) w.modifier_groups g
                    (λ y. refl) found;
              sound = changed_min_max i dto g found (leb→le _ _ ok) all;
            }))

  -- What the removal of a group leaves
  pub record RemovesGroup (i : Uuid) (g : ModifierGroup) (v : World) : Type 0 where
    pub found : env.modifier_groups.find_unique i w.modifier_groups ≡ some g
    pub own : g.restaurant_id ≡ user.restaurant_id
    pub gone : env.modifier_groups.find_unique i v.modifier_groups ≡ none
    pub other_groups :
        (j : Uuid)
        → (i == j) ≡ false
        → env.modifier_groups.find_unique j v.modifier_groups
          ≡ env.modifier_groups.find_unique j w.modifier_groups
    pub modifiers :
        (j : Uuid)
        → env.modifiers.find_unique j v.modifiers
          ≡ unless (λ m. m.group_id == i) (env.modifiers.find_unique j w.modifiers)
    pub rest : v ≡ put_groups v.modifier_groups (put_modifiers v.modifiers w)

  pub remove_group-RemovesGroup : (i : Uuid) → Atomic (RemovesGroup i) w (remove_group env i user w)
  unfolding remove_group
  remove_group-RemovesGroup i =
      Atomic-read _ (ensure_group env i user) _ w (ensure_group-Reads i) λ g h.
        let (found, own) = ensure_group-eq i g h in
        Atomic-modify _ _ _ w w (
          Atomic-delete_last _ env.modifier_groups (λ u. u.modifier_groups) put_groups i w _ g found
            (record {
              found = found;
              own = own;
              gone = rw (db.modifier_groups.found_delete i i w.modifier_groups, ==-refl i) refl;
              other_groups =
                  λ j ne. rw (db.modifier_groups.found_delete i j w.modifier_groups, ne) refl;
              modifiers = λ j. db.modifiers.found_delete_many (λ m. m.group_id == i) j w.modifiers;
              rest = refl;
            }))
