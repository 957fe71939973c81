-- ===== src/TenantGuard.antt =====
-- common/prisma-tenant-guard.extension.ts: the check that a query names the restaurant.
pub mod Scopes
use restosync_api.Base.{
  String, Bool, true, false, not, ◌&&◌, ◌||◌, List, [], ◌∷◌, some_by, if◌then◌else◌, Option, none,
  some,
}
use restosync_api.Payments.{has_text}

-- The keys that the check tells apart
pub data Key : Type 0 where
  restaurant_id and_key or_key other_key : Key

-- A `where` as it is passed: `undefined`, a value that is no object (or null), an array, an object.
mutual
  pub data Clause : Type 0 where
    undefined : Clause
    scalar : Clause
    array : Clauses → Clause
    object : Fields → Clause

  pub data Clauses : Type 0 where
    no_clauses : Clauses
    clause : Clause → Clauses → Clauses

  -- An object has each key once.
  pub data Fields : Type 0 where
    no_fields : Fields
    field : Key → Clause → Fields → Fields

abbrev pub is_undefined : Clause → Bool
is_undefined undefined = true
is_undefined c = false

-- `hasRestaurantIdFilter`: an array has none of the keys, so it has no filter of its own.
unfoldable mutual
  pub has_restaurant_id_filter : Clause → Bool
  has_restaurant_id_filter undefined = false
  has_restaurant_id_filter scalar = false
  has_restaurant_id_filter (array cs) = false
  has_restaurant_id_filter (object fs) = any_field fs

  pub any_field : Fields → Bool
  any_field no_fields = false
  any_field (field restaurant_id c fs) = not (is_undefined c) || any_field fs
  any_field (field and_key c fs) = has_nested c || any_field fs
  any_field (field or_key c fs) = has_nested c || any_field fs
  any_field (field other_key c fs) = any_field fs

  -- `Array.isArray(nested) && nested.some(...)`, or an object that has a filter
  pub has_nested : Clause → Bool
  has_nested undefined = false
  has_nested scalar = false
  has_nested (array cs) = any_clause cs
  has_nested (object fs) = any_field fs

  pub any_clause : Clauses → Bool
  any_clause no_clauses = false
  any_clause (clause c cs) = has_restaurant_id_filter c || any_clause cs

abbrev pub tenant_guarded_models : List String
tenant_guarded_models =
    "User" ∷ "Category" ∷ "MenuItem" ∷ "Order" ∷ "OrderItem" ∷ "Table" ∷ "InventoryItem"
    ∷ "StockAdjustment" ∷ "Reservation" ∷ "CashRegisterSession" ∷ "Payment" ∷ "AuditLog"
    ∷ "ModifierGroup" ∷ "Modifier" ∷ "Zone" ∷ []

abbrev pub guarded_operations : List String
guarded_operations =
    "findMany" ∷ "findFirst" ∷ "count" ∷ "aggregate" ∷ "groupBy" ∷ "updateMany" ∷ "deleteMany" ∷ []

-- `set.has(name)`
unfoldable pub has_name : List String → String → Bool
has_name names name = some_by (λ (n : String). has_text (some n) name) names

-- Whether a query is one that needs a filter; without a model it is none.
unfoldable pub is_guarded : Option String → String → Bool
unfolding has_name
is_guarded none operation = false
is_guarded (some model) operation =
    has_name tenant_guarded_models model && has_name guarded_operations operation

-- `tenantGuardOperation`: `none` where it throws, else what the query returns. The clause is
-- `undefined` where there are no arguments.
unfoldable pub tenant_guard_operation :
    {A : Type 0} → Option String → String → Clause → A → Option A
unfolding is_guarded has_restaurant_id_filter
tenant_guard_operation model operation where_clause result =
    if is_guarded model operation && not (has_restaurant_id_filter where_clause)
    then none
    else some result
