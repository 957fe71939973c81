-- ===== src/Tests/Creations.antt =====
-- The creation of orders at the small restaurant.
use restosync_api.Base.{◌≡◌, refl, Option, none, some, [], ◌∷◌, ◌⊎◌}
use restosync_api.Base.Int.{ℤ, pos}
use restosync_api.Schema.{Table, OrderType}
use restosync_api.World.{Outcome, done, thrown}
use restosync_api.World.Atomic.{Atomic}
use restosync_api.Orders.Totals.{OrderWithItems}
use restosync_api.Orders.Creation.{CreateOrderDto, create}
use restosync_api.Orders.Creation.Seating.{IsAlreadyOpen, TakesTable}
use restosync_api.Orders.Creation.Drafts.{Creates}
use restosync_api.Orders.Creation.Effects.{create-Creates}
use restosync_api.Tests.Code.{code}
use restosync_api.Tests.{env, env-IsPrisma, world}

-- Two large soups at the free table
abbrev dinner : CreateOrderDto
dinner = record {
  type = OrderType.dine_in;
  table_id = some 6;
  items =
      record { menu_item_id = 11; quantity = 2; modifier_ids = some (31 ∷ []); notes = none } ∷ [];
  notes = none;
}

abbrev total_of_run : Outcome OrderWithItems → Option ℤ
total_of_run (done view w) = some view.total_cents
total_of_run (thrown e w) = none

create_run : total_of_run (create env dinner 1 none world) ≡ some (pos 2596)
unfolding code
create_run = refl

create-Creates_example :
    Atomic
      (λ view v.
        (IsAlreadyOpen env env-IsPrisma 1 dinner world view × (v ≡ world))
        ⊎ ((table : Option Table) × TakesTable env env-IsPrisma 1 dinner world OrderType.dine_in
              table
            × Creates env env-IsPrisma 1 none dinner world table v))
      world
      (create env dinner 1 none world)
create-Creates_example = create-Creates env env-IsPrisma 1 none dinner world
