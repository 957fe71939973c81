-- ===== src/World/Removal.antt =====
-- What the database does when tables are deleted: `orders.tableId` and `reservations.tableId` are
-- foreign keys with `ON DELETE SET NULL` (prisma/migrations).
use restosync_api.Base.{
  ◌≡◌, Bool-cases, ◌==◌, ==_iff, arith, refl, Bool, true, false, Option, none, some, if◌then◌else◌,
  inl, inr, ◌⊎◌, subst,
}
use mathlib.Core.Option
use restosync_api.Schema.{Uuid, Order, Reservation}
use restosync_api.World.{World, Env, IsPrisma}

-- A reference to a deleted row becomes NULL.
abbrev pub cut : (Uuid → Bool) → Option Uuid → Option Uuid
cut deleted none = none
cut deleted (some j) = if deleted j then none else some j

unfoldable pub detach_tables : Env → (Uuid → Bool) → World → World
detach_tables env deleted w = record w {
  orders = env.orders.set_null (λ o. record o { table_id = cut deleted o.table_id }) w.orders;
  reservations =
      env.reservations.set_null (λ r. record r { table_id = cut deleted r.table_id })
        w.reservations;
}

-- A reference before and after the deletion of what `Gone` says is deleted
abbrev pub Cuts : (Uuid → Type 0) → Option Uuid → Option Uuid → Type 0
Cuts Gone before after =
    ((j : Uuid) × (before ≡ some j) × Gone j × (after ≡ none))
    ⊎ ((after ≡ before) × ((j : Uuid) → before ≡ some j → ¬ Gone j))

-- A row before and after: it is there just as it was, but for its reference.
abbrev pub Detached :
    {Row : Type 0}
    → (Uuid → Type 0)
    → (Row → Option Uuid)
    → (Option Uuid → Row → Row)
    → Option Row
    → Option Row
    → Type 0
Detached Gone reference refer none after = after ≡ none
Detached Gone reference refer (some r) after =
    (x : Option Uuid) × Cuts Gone (reference r) x × (after ≡ some (refer x r))

-- The test for one id
pub ==-decides : (i j : Uuid) → ((j ≡ i) × ((j == i) ≡ true)) ⊎ ((¬ (j ≡ i)) × ((j == i) ≡ false))
==-decides i j = elim (Bool-cases (j == i)) [
  | inl e ↦ inl ((==_iff j i).0 e, e)
  | inr e ↦ inr (λ same. ground arith, e)
]

module _ (Gone : Uuid → Type 0) (deleted : Uuid → Bool)
    (agree : (j : Uuid) → (Gone j × (deleted j ≡ true)) ⊎ ((¬ Gone j) × (deleted j ≡ false))) where
  pub cut-Cuts : (before : Option Uuid) → Cuts Gone before (cut deleted before)
  cut-Cuts none = inr (refl, λ j e. cc)
  cut-Cuts (some j) = elim (agree j) [
    | inl (gone, e) ↦ inl (j, refl, gone, rw e refl)
    | inr (stays, e) ↦ inr (rw e refl, λ k same gone. stays (subst Gone (cc) gone))
  ]

  cut-Detached :
      {Row : Type 0} (reference : Row → Option Uuid) (refer : Option Uuid → Row → Row)
      (before : Option Row)
      → Detached Gone reference refer before
          (Option.map (λ r. refer (cut deleted (reference r)) r) before)
  cut-Detached reference refer none = refl
  cut-Detached reference refer (some r) = (_, cut-Cuts (reference r), refl)

  module _ (env : Env) (db : IsPrisma env) (w : World) where
    pub detach_tables-orders :
        (j : Uuid)
        → Detached Gone
            (λ (o : Order). o.table_id)
            (λ x o. record o { table_id = x })
            (env.orders.find_unique j w.orders)
            (env.orders.find_unique j (detach_tables env deleted w).orders)
    unfolding detach_tables
    detach_tables-orders j =
        rw
          (db.orders.found_set_null j (λ o. record o { table_id = cut deleted o.table_id }) w.orders
            (λ o. refl))
          (cut-Detached (λ (o : Order). o.table_id) (λ x o. record o { table_id = x })
            (env.orders.find_unique j w.orders))

    pub detach_tables-reservations :
        (j : Uuid)
        → Detached Gone
            (λ (r : Reservation). r.table_id)
            (λ x r. record r { table_id = x })
            (env.reservations.find_unique j w.reservations)
            (env.reservations.find_unique j (detach_tables env deleted w).reservations)
    unfolding detach_tables
    detach_tables-reservations j =
        rw
          (db.reservations.found_set_null j (λ r. record r { table_id = cut deleted r.table_id })
            w.reservations (λ r. refl))
          (cut-Detached (λ (r : Reservation). r.table_id) (λ x r. record r { table_id = x })
            (env.reservations.find_unique j w.reservations))
