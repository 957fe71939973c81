-- ===== src/Tests/Guards.antt =====
-- The tenant guard on a query for the orders of one table.
use restosync_api.Base.{ℕ, ◌≡◌, ◌↔◌, refl, true, none, some}
use restosync_api.TenantGuard.{
  Clause, scalar, array, object, no_clauses, clause, no_fields, field, restaurant_id, or_key,
  other_key, is_guarded, tenant_guard_operation,
}
use restosync_api.TenantGuard.Scopes.{IsScoped, tenant_guard_operation-refuses}
use restosync_api.Tests.Code.{code}

-- What the query returns
abbrev rows : ℕ
rows = 5

-- `{ OR: [{ tableId }, { restaurantId }] }`
abbrev half_scoped : Clause
half_scoped = object (
    field or_key
      (array (
        clause (object (field other_key scalar no_fields))
          (clause (object (field restaurant_id scalar no_fields)) no_clauses)))
      no_fields)

unscoped_run :
    tenant_guard_operation
      (some "Order")
      "findMany"
      (object (field other_key scalar no_fields))
      rows
    ≡ none
unfolding code
unscoped_run = refl

half_scoped_run : tenant_guard_operation (some "Order") "findMany" half_scoped rows ≡ some rows
unfolding code
half_scoped_run = refl

tenant_guard_operation-refuses_example :
    (tenant_guard_operation (some "Order") "findMany" half_scoped rows ≡ none)
    ↔ ((is_guarded (some "Order") "findMany" ≡ true) × (¬ IsScoped half_scoped))
tenant_guard_operation-refuses_example =
    tenant_guard_operation-refuses (some "Order") "findMany" half_scoped rows
