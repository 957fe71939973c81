-- ===== src/Modifiers/Sound.antt =====
-- menu/modifiers.service.ts: the choices that `resolveSelections` lets through.
use restosync_api.Base.{
  ℕ, ◌+◌, ◌≤◌, ◌≡◌, refl, sym, ap, ◌∙◌, Bool, true, false, Option, none, some, List, [], ◌∷◌, arith,
  ◌==◌, if◌then◌else◌, length, filter_by, includes, All, inl, inr, Bool-cases, subst,
}
use restosync_api.Base.Int.{pos, sum_by}
use restosync_api.Base.Dict.{lookup, lookup-insert, get_or_zero}
use restosync_api.Schema.{Uuid, ModifierGroup}
use restosync_api.World.{
  World, Error, modifier_twice, Env, done, guard, throw, pure, next-eq-done, ◌>>=◌, ◌>>◌,
}
use restosync_api.Modifiers.{
  ResolvedSelection, GroupWithModifiers, Hit, set_size, index_groups, check_hit, check_ids,
  count_hit, count_by_group, effective_min, check_group, check_groups, select_from, resolve_in,
  ids_or_empty, load_groups, resolve_selections,
}

-- No id stands twice in a list.
abbrev pub IsDistinct : List Uuid → Type 0
IsDistinct [] = Unit
IsDistinct (id ∷ rest) = (includes rest id ≡ false) × IsDistinct rest

-- An id is that of a modifier of the item, and that is available.
abbrev pub IsOffered : List (Uuid × Hit) → Uuid → Type 0
IsOffered by_id id = (h : Hit) × (lookup id by_id ≡ some h) × (h.modifier.available ≡ true)

abbrev pub is_of : ModifierGroup → Option Hit → Bool
is_of g none = false
is_of g (some h) = h.group.id == g.id

-- How many of the ids are of a group's modifiers
abbrev pub chosen_in : List (Uuid × Hit) → ModifierGroup → List Uuid → ℕ
chosen_in by_id g ids = length (filter_by (λ id. is_of g (lookup id by_id)) ids)

-- A number of choices that a group admits
pub record Admits (g : ModifierGroup) (n : ℕ) : Type 0 where
  pub required : g.required ≡ true → 1 ≤ n
  pub at_least : 1 ≤ n → g.min_select ≤ n
  pub at_most : n ≤ g.max_select

set_size-le : (ids : List Uuid) → set_size ids ≤ length ids
unfolding set_size
set_size-le [] = omega arith
set_size-le (id ∷ rest) = let h = set_size-le rest in ground arith

set_size-IsDistinct : (ids : List Uuid) → (set_size ids == length ids) ≡ true → IsDistinct ids
unfolding set_size
set_size-IsDistinct [] h = tt
set_size-IsDistinct (id ∷ rest) h = elim (Bool-cases (includes rest id)) [
  | inl e ↦ let le = set_size-le rest in ground arith
  | inr e ↦ (e, set_size-IsDistinct rest (ground arith))
]

check_group-Admits :
    (g : ModifierGroup) (n : ℕ) (w v : World) → check_group g n w ≡ done tt v → Admits g n
unfolding check_group effective_min guard ◌>>=◌
check_group-Admits g n w v h = record {
  required = ground arith;
  at_least = ground arith;
  at_most = ground arith;
}

check_hit-eq :
    (x : Option Hit) (w v : World)
    → check_hit x w ≡ done tt v
    → (h : Hit) × (x ≡ some h) × (h.modifier.available ≡ true)
unfolding check_hit throw guard
check_hit-eq none w v e = cc
check_hit-eq (some h) w v e = (h, refl, ground arith)

check_ids-IsOffered :
    (by_id : List (Uuid × Hit)) (ids : List Uuid) (w v : World)
    → check_ids by_id ids w ≡ done tt v
    → All (IsOffered by_id) ids
unfolding check_ids ◌>>=◌
check_ids-IsOffered by_id [] w v e = tt
check_ids-IsOffered by_id (id ∷ rest) w v e =
    let (_, u, first, more) = next-eq-done (check_hit (lookup id by_id) w) _ e in
    (check_hit-eq (lookup id by_id) w u first, check_ids-IsOffered by_id rest u v more)

count_hit-get :
    (x : Option Hit) (counts : List (Uuid × ℕ)) (g : ModifierGroup)
    → get_or_zero (lookup g.id (count_hit x counts))
      ≡ get_or_zero (lookup g.id counts) + (if is_of g x then 1 else 0)
unfolding count_hit get_or_zero
count_hit-get none counts g = omega arith
count_hit-get (some h) counts g =
    ground
      (arith, lookup-insert h.group.id g.id (get_or_zero (lookup h.group.id counts) + 1) counts)

count_by_group-get :
    (by_id : List (Uuid × Hit)) (ids : List Uuid) (counts : List (Uuid × ℕ)) (g : ModifierGroup)
    → get_or_zero (lookup g.id (count_by_group by_id ids counts))
      ≡ get_or_zero (lookup g.id counts) + chosen_in by_id g ids
unfolding count_by_group
count_by_group-get by_id [] counts g = omega arith
count_by_group-get by_id (id ∷ rest) counts g =
    let step = count_hit-get (lookup id by_id) counts g in
    let more = count_by_group-get by_id rest (count_hit (lookup id by_id) counts) g in
    elim (Bool-cases (is_of g (lookup id by_id))) [
      | inl e ↦ rw (more, step, e) (omega arith)
      | inr e ↦ rw (more, step, e) (omega arith)
    ]

check_groups-Admits :
    (groups : List GroupWithModifiers) (counts : List (Uuid × ℕ)) (w v : World)
    → check_groups groups counts w ≡ done tt v
    → All (λ g. Admits g.group (get_or_zero (lookup g.group.id counts))) groups
unfolding check_groups ◌>>=◌
check_groups-Admits [] counts w v e = tt
check_groups-Admits (g ∷ rest) counts w v e =
    let n = get_or_zero (lookup g.group.id counts) in
    let (_, u, first, more) = next-eq-done (check_group g.group n w) _ e in
    (check_group-Admits g.group n w u first, check_groups-Admits rest counts u v more)

All-Admits :
    (groups : List GroupWithModifiers) (by_id : List (Uuid × Hit)) (ids : List Uuid)
    → All
        (λ g. Admits g.group (get_or_zero (lookup g.group.id (count_by_group by_id ids []))))
        groups
    → All (λ g. Admits g.group (chosen_in by_id g.group ids)) groups
unfolding lookup get_or_zero
All-Admits [] by_id ids h = tt
All-Admits (g ∷ rest) by_id ids (a, h) = (
  subst (Admits g.group) (count_by_group-get by_id ids [] g.group ∙ omega arith) a,
  All-Admits rest by_id ids h,
)

-- A choice of modifiers that fits the groups of an item, and what it costs
pub record Fits (groups : List GroupWithModifiers) (ids : List Uuid) (s : ResolvedSelection)
    : Type 0 where
  pub offered : All (IsOffered (index_groups groups [])) ids
  pub admitted : All (λ g. Admits g.group (chosen_in (index_groups groups []) g.group ids)) groups
  pub selections : s.selections ≡ select_from groups ids
  pub delta :
      s.delta_cents_per_unit ≡ sum_by (λ x. x.price_delta_cents) (pos 0) (select_from groups ids)

pure-eq : (a b : ResolvedSelection) (w v : World) → pure a w ≡ done b v → a ≡ b
unfolding pure
pure-eq a b w v e = cc

resolve_in-Fits :
    (groups : List GroupWithModifiers) (ids : List Uuid) (w v : World) (s : ResolvedSelection)
    → resolve_in groups ids w ≡ done s v
    → Fits groups ids s
unfolding resolve_in pure ◌>>=◌
resolve_in-Fits groups ids w v s e =
    let by_id = index_groups groups [] in
    let counts = count_by_group by_id ids [] in
    let (_, x, checks, last) =
      next-eq-done ((check_ids by_id ids >> check_groups groups counts) w) _ e in
    let (_, u, offered, admitted) = next-eq-done (check_ids by_id ids w) _ checks in
    record {
      offered = check_ids-IsOffered by_id ids w u offered;
      admitted = All-Admits groups by_id ids (check_groups-Admits groups _ u x admitted);
      selections = ap (λ (y : ResolvedSelection). y.selections) (sym (pure-eq _ s x v last));
      delta = ap (λ (y : ResolvedSelection). y.delta_cents_per_unit) (sym (pure-eq _ s x v last));
    }

guard-eq : (b : Bool) (x : Error) (w v : World) → guard b x w ≡ done tt v → (b ≡ true) × (v ≡ w)
unfolding guard
guard-eq true x w v e = (refl, ground arith)
guard-eq false x w v e = cc

-- If `resolveSelections` returns, no modifier id was given twice, each id is that of an available
-- modifier of the item, and in each group of the item the number of chosen modifiers is at least
-- one if the group is required, at least its minimum unless it is zero, and at most its maximum;
-- the selections are those of the groups, in their order, and the price change is the sum of
-- theirs.
pub resolve_selections-Fits :
    (env : Env) (m : Uuid) (ids : Option (List Uuid)) (r : Uuid) (w v : World)
    (s : ResolvedSelection)
    → resolve_selections env m ids r w ≡ done s v
    → IsDistinct (ids_or_empty ids) × Fits (load_groups env m r w) (ids_or_empty ids) s
unfolding resolve_selections ◌>>=◌
resolve_selections-Fits env m ids r w v s e =
    let chosen = ids_or_empty ids in
    let (_, u, once, rest) =
      next-eq-done (guard (set_size chosen == length chosen) modifier_twice w) _ e in
    (
      set_size-IsDistinct chosen ((guard-eq _ _ w u once).0),
      subst (λ x. Fits (load_groups env m r x) chosen s) (guard-eq _ _ w u once).1
          (resolve_in-Fits (load_groups env m r u) chosen u v s rest),
    )
