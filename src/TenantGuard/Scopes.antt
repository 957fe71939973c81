-- ===== src/TenantGuard/Scopes.antt =====
-- common/prisma-tenant-guard.extension.ts: which clauses the check lets through.
use restosync_api.Base.{
  String, ◌≡◌, ◌↔◌, refl, Bool, true, false, not, ◌&&◌, ◌||◌, Option, none, some, arith, ◌⊎◌, inl,
  inr, Bool-cases, if◌then◌else◌,
}
use restosync_api.TenantGuard.{
  Key, restaurant_id, and_key, or_key, other_key, Clause, undefined, scalar, array, object, Clauses,
  no_clauses, clause, Fields, no_fields, field, is_undefined, has_restaurant_id_filter, any_field,
  has_nested, any_clause, is_guarded, tenant_guard_operation,
}

-- A field of an object, and a clause of an array
pub data HasField (k : Key) (c : Clause) : Fields → Type 0 where
  first_field : (fs : Fields) → HasField k c (field k c fs)
  later_field : (j : Key) (d : Clause) (fs : Fields) → HasField k c fs → HasField k c (field j d fs)

pub data HasClause (c : Clause) : Clauses → Type 0 where
  first_clause : (cs : Clauses) → HasClause c (clause c cs)
  later_clause : (d : Clause) (cs : Clauses) → HasClause c cs → HasClause c (clause d cs)

pub data IsNesting : Key → Type 0 where
  by_and : IsNesting and_key
  by_or : IsNesting or_key

-- A clause names the restaurant: itself, in an object under AND or OR, or in one of an array there.
pub data IsScoped : Clause → Type 0 where
  names_it :
      (c : Clause) (fs : Fields)
      → HasField restaurant_id c fs
      → is_undefined c ≡ false
      → IsScoped (object fs)
  in_object :
      (k : Key) (gs fs : Fields)
      → IsNesting k
      → HasField k (object gs) fs
      → IsScoped (object gs)
      → IsScoped (object fs)
  in_array :
      (k : Key) (c : Clause) (cs : Clauses) (fs : Fields)
      → IsNesting k
      → HasField k (array cs) fs
      → HasClause c cs
      → IsScoped c
      → IsScoped (object fs)

-- A scoped object stays scoped with one more field.
wider :
    (j : Key) (d : Clause) (fs : Fields) → IsScoped (object fs) → IsScoped (object (field j d fs))
wider j d fs (names_it c _ at defined) = names_it c (field j d fs) (later_field j d fs at) defined
wider j d fs (in_object k gs _ n at h) = in_object k gs (field j d fs) n (later_field j d fs at) h
wider j d fs (in_array k c cs _ n at there h) =
    in_array k c cs (field j d fs) n (later_field j d fs at) there h

or-true : (a b : Bool) → (a || b) ≡ true → (a ≡ true) ⊎ (b ≡ true)
or-true true b h = inl refl
or-true false b h = inr h

or_left : (a b : Bool) → a ≡ true → (a || b) ≡ true
or_left a b h = ground arith

or_right : (a b : Bool) → b ≡ true → (a || b) ≡ true
or_right a b h = ground arith

-- What the check finds in the value of AND or OR
pub data Nests : Clause → Type 0 where
  nests_object : (gs : Fields) → IsScoped (object gs) → Nests (object gs)
  nests_array : (c : Clause) (cs : Clauses) → HasClause c cs → IsScoped c → Nests (array cs)

nested_branch :
    (k : Key) (d : Clause) (fs : Fields) → IsNesting k → Nests d → IsScoped (object (field k d fs))
nested_branch k _ fs n (nests_object gs h) =
    in_object k gs (field k (object gs) fs) n (first_field fs) h
nested_branch k _ fs n (nests_array c cs there h) =
    in_array k c cs (field k (array cs) fs) n (first_field fs) there h

mutual
  unfolding has_restaurant_id_filter

  filter-IsScoped : (c : Clause) → has_restaurant_id_filter c ≡ true → IsScoped c
  filter-IsScoped undefined h = cc
  filter-IsScoped scalar h = cc
  filter-IsScoped (array cs) h = cc
  filter-IsScoped (object fs) h = field-IsScoped fs h

  field-IsScoped : (fs : Fields) → any_field fs ≡ true → IsScoped (object fs)
  field-IsScoped no_fields h = cc
  field-IsScoped (field restaurant_id c fs) h =
      elim (or-true (not (is_undefined c)) (any_field fs) h) [
        | inl defined ↦ names_it c (field restaurant_id c fs) (first_field fs) (ground arith)
        | inr later ↦ wider restaurant_id c fs (field-IsScoped fs later)
      ]
  field-IsScoped (field and_key c fs) h = elim (or-true (has_nested c) (any_field fs) h) [
    | inl inside ↦ nested_branch and_key c fs by_and (nested-Nests c inside)
    | inr later ↦ wider and_key c fs (field-IsScoped fs later)
  ]
  field-IsScoped (field or_key c fs) h = elim (or-true (has_nested c) (any_field fs) h) [
    | inl inside ↦ nested_branch or_key c fs by_or (nested-Nests c inside)
    | inr later ↦ wider or_key c fs (field-IsScoped fs later)
  ]
  field-IsScoped (field other_key c fs) h = wider other_key c fs (field-IsScoped fs h)

  nested-Nests : (c : Clause) → has_nested c ≡ true → Nests c
  nested-Nests undefined h = cc
  nested-Nests scalar h = cc
  nested-Nests (array cs) h =
      let (c, there, scoped) = clause-IsScoped cs h in nests_array c cs there scoped
  nested-Nests (object gs) h = nests_object gs (field-IsScoped gs h)

  clause-IsScoped :
      (cs : Clauses) → any_clause cs ≡ true → (c : Clause) × HasClause c cs × IsScoped c
  clause-IsScoped no_clauses h = cc
  clause-IsScoped (clause c cs) h = elim (or-true (has_restaurant_id_filter c) (any_clause cs) h) [
    | inl now ↦ (c, first_clause cs, filter-IsScoped c now)
    | inr later ↦
        let (d, there, scoped) = clause-IsScoped cs later in (d, later_clause c cs there, scoped)
  ]

more_fields :
    (j : Key) (d : Clause) (fs : Fields) → any_field fs ≡ true → any_field (field j d fs) ≡ true
unfolding has_restaurant_id_filter
more_fields restaurant_id d fs h = or_right (not (is_undefined d)) (any_field fs) h
more_fields and_key d fs h = or_right (has_nested d) (any_field fs) h
more_fields or_key d fs h = or_right (has_nested d) (any_field fs) h
more_fields other_key d fs h = h

direct_field :
    (c : Clause) (fs : Fields)
    → HasField restaurant_id c fs
    → is_undefined c ≡ false
    → any_field fs ≡ true
unfolding has_restaurant_id_filter
direct_field c _ (first_field fs) h = rw h refl
direct_field c _ (later_field j d fs at) h = more_fields j d fs (direct_field c fs at h)

nested_first :
    (k : Key) (c : Clause) (fs : Fields)
    → IsNesting k
    → has_nested c ≡ true
    → any_field (field k c fs) ≡ true
unfolding has_restaurant_id_filter
nested_first _ c fs by_and h = or_left (has_nested c) (any_field fs) h
nested_first _ c fs by_or h = or_left (has_nested c) (any_field fs) h

nested_field :
    (k : Key) (c : Clause) (fs : Fields)
    → IsNesting k
    → HasField k c fs
    → has_nested c ≡ true
    → any_field fs ≡ true
nested_field k c _ n (first_field fs) h = nested_first k c fs n h
nested_field k c _ n (later_field j d fs at) h = more_fields j d fs (nested_field k c fs n at h)

some_clause :
    (c : Clause) (cs : Clauses)
    → HasClause c cs
    → has_restaurant_id_filter c ≡ true
    → any_clause cs ≡ true
unfolding has_restaurant_id_filter
some_clause c _ (first_clause cs) h = or_left (has_restaurant_id_filter c) (any_clause cs) h
some_clause c _ (later_clause d cs there) h =
    or_right (has_restaurant_id_filter d) (any_clause cs) (some_clause c cs there h)

IsScoped-filter : (c : Clause) → IsScoped c → has_restaurant_id_filter c ≡ true
unfolding has_restaurant_id_filter
IsScoped-filter _ (names_it c fs at defined) = direct_field c fs at defined
IsScoped-filter _ (in_object k gs fs n at h) =
    nested_field k (object gs) fs n at (IsScoped-filter (object gs) h)
IsScoped-filter _ (in_array k c cs fs n at there h) =
    nested_field k (array cs) fs n at (some_clause c cs there (IsScoped-filter c h))

-- The tenant guard refuses a query just when its model and operation are guarded and its `where`
-- does not name the restaurant: neither in an own `restaurantId` that is not undefined, nor in an
-- object under AND or OR, nor in one of an array there, at any depth.
pub tenant_guard_operation-refuses :
    {A : Type 0} (model : Option String) (operation : String) (where_clause : Clause) (result : A)
    → (tenant_guard_operation model operation where_clause result ≡ none)
      ↔ ((is_guarded model operation ≡ true) × (¬ IsScoped where_clause))
unfolding tenant_guard_operation
tenant_guard_operation-refuses model operation where_clause result = (refused, refuses)
  where
    refused :
        (if is_guarded model operation && not (has_restaurant_id_filter where_clause)
            then none
            else some result)
          ≡ none
        → (is_guarded model operation ≡ true) × (¬ IsScoped where_clause)
    refused h =
        (ground arith, λ scoped. let e = IsScoped-filter where_clause scoped in ground arith)

    refuses :
        (is_guarded model operation ≡ true) × (¬ IsScoped where_clause)
        → (if is_guarded model operation && not (has_restaurant_id_filter where_clause)
            then none
            else some result)
          ≡ none
    refuses (guarded, unscoped) = elim (Bool-cases (has_restaurant_id_filter where_clause)) [
      | inl e ↦ absurd (unscoped (filter-IsScoped where_clause e))
      | inr e ↦ rw (guarded, e) refl
    ]
