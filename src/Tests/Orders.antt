-- ===== src/Tests/Orders.antt =====
-- The theorems on orders at the small restaurant, and runs of the operations.
use restosync_api.Base.{◌≡◌, ◌≢◌, ◌+◌, ◌≤◌, refl, arith, true, none, some, List, [], ◌∷◌, ◌⊎◌}
use restosync_api.Base.Int.{ℤ, pos, ◌≤ℤ◌}
use restosync_api.Schema.{Order, OrderStatus, DiscountType}
use restosync_api.World.{World, Outcome, done, thrown}
use restosync_api.World.Atomic.{Atomic}
use restosync_api.Orders.Totals.{OrderWithItems}
use restosync_api.Orders.Editing.{
  AddOrderItemDto, UpdateOrderItemDto, ApplyDiscountDto, add_item, update_item_quantity,
  remove_item, apply_discount,
}
use restosync_api.Orders.Editing.Effects.{
  Edits, Adds, Requantifies, Removes, Discounts, add_item-Edits, update_item_quantity-Edits,
  remove_item-Edits, apply_discount-Edits,
}
use restosync_api.Orders.Totals.{is_editable, subtotal_of, recalculate_totals, include_items}
use restosync_api.Orders.Totals.Balance.{Retotals, recalculate_totals-Retotals}
use restosync_api.Orders.Lifecycle.{update_status, confirm_order, mark_confirmed}
use restosync_api.Orders.Lifecycle.Effects.{
  Moves, IsOwn, update_status-Moves, confirm_order-Moves, mark_confirmed-Moves,
}
use restosync_api.Orders.Status.{can_transition, History, start, change, changes, has_been_prepared}
use restosync_api.Orders.Status.Histories.{History-changes, History-has_been_prepared}
use restosync_api.Orders.Editing.Discounts.{apply_discount-returns}
use restosync_api.Orders.Lifecycle.Returns.{update_status-returns}
use restosync_api.Orders.Lifecycle.{set_status}
use restosync_api.Tests.Code.{code}
use restosync_api.Tests.{env, env-IsPrisma, ana, open_order, world}

abbrev one_large_soup : AddOrderItemDto
one_large_soup = record {
  menu_item_id = 11;
  quantity = 1;
  modifier_ids = some (31 ∷ []);
  notes = none;
}

-- The totals of the order that an outcome returns
abbrev totals : Outcome OrderWithItems → List ℤ
totals (done v w) = v.subtotal_cents ∷ v.tax_cents ∷ v.total_cents ∷ []
totals (thrown e w) = []

add_item_run : totals (add_item env 7 one_large_soup ana world) ≡ pos 2900 ∷ pos 522 ∷ pos 3422 ∷ []
unfolding code
add_item_run = refl

add_item-Edits_example :
    Atomic
      (λ _ v. Edits env 7 ana world v × Adds env env-IsPrisma 7 ana world one_large_soup v)
      world
      (add_item env 7 one_large_soup ana world)
add_item-Edits_example = add_item-Edits env env-IsPrisma 7 ana world one_large_soup

abbrev three_soups : UpdateOrderItemDto
three_soups = record { quantity = some 3; notes = none }

update_item_quantity_run :
    totals (update_item_quantity env 7 41 three_soups ana world)
    ≡ pos 2700 ∷ pos 486 ∷ pos 3186 ∷ []
unfolding code
update_item_quantity_run = refl

update_item_quantity-Edits_example :
    Atomic
      (λ _ v. Edits env 7 ana world v × Requantifies env env-IsPrisma 7 ana world 41 three_soups v)
      world
      (update_item_quantity env 7 41 three_soups ana world)
update_item_quantity-Edits_example =
    update_item_quantity-Edits env env-IsPrisma 7 ana world 41 three_soups

remove_item_run : totals (remove_item env 7 41 ana world) ≡ pos 0 ∷ pos 0 ∷ pos 0 ∷ []
unfolding code
remove_item_run = refl

remove_item-Edits_example :
    Atomic
      (λ _ v. Edits env 7 ana world v × Removes env env-IsPrisma 7 ana world 41 v)
      world
      (remove_item env 7 41 ana world)
remove_item-Edits_example = remove_item-Edits env env-IsPrisma 7 ana world 41

abbrev ten_percent : ApplyDiscountDto
ten_percent = record {
  discount_type = DiscountType.percentage;
  discount_cents = none;
  discount_percent = some 10;
  reason = none;
}

apply_discount_run :
    totals (apply_discount env 7 ten_percent ana world) ≡ pos 1800 ∷ pos 324 ∷ pos 1944 ∷ []
unfolding code
apply_discount_run = refl

apply_discount-Edits_example :
    Atomic
      (λ _ v. Edits env 7 ana world v × Discounts env env-IsPrisma 7 ana world ten_percent v)
      world
      (apply_discount env 7 ten_percent ana world)
apply_discount-Edits_example = apply_discount-Edits env env-IsPrisma 7 ana world ten_percent

recalculate_totals-Retotals_example :
    Atomic (λ view v. Retotals env 7 1 world v) world (recalculate_totals env 7 1 world)
recalculate_totals-Retotals_example = recalculate_totals-Retotals env env-IsPrisma 7 1 world

update_status-Moves_example :
    Atomic
      (λ _ v. Moves env 7 OrderStatus.confirmed world v × IsOwn env env-IsPrisma 7 world 1)
      world
      (update_status env 7 OrderStatus.confirmed ana world)
update_status-Moves_example = update_status-Moves env env-IsPrisma 7 world ana OrderStatus.confirmed

abbrev draft_world : World
draft_world = record world { orders = record open_order { status = OrderStatus.draft } ∷ [] }

confirm_order-Moves_example :
    Atomic
      (λ _ v.
        Moves env 7 OrderStatus.pending draft_world v
        × IsOwn env env-IsPrisma 7 draft_world 1
        × ((o : Order)
            → env.orders.find_unique 7 draft_world.orders ≡ some o
            → (include_items env o draft_world).items ≢ []))
      draft_world
      (confirm_order env 7 ana draft_world)
confirm_order-Moves_example = confirm_order-Moves env env-IsPrisma 7 draft_world ana

mark_confirmed-Moves_example :
    Atomic
      (λ _ v. Moves env 7 OrderStatus.confirmed world v ⊎ (v ≡ world))
      world
      (mark_confirmed env 7 world)
mark_confirmed-Moves_example = mark_confirmed-Moves env env-IsPrisma 7 world

abbrev in_the_kitchen : History OrderStatus.draft OrderStatus.preparing
unfolding code
in_the_kitchen =
    change {s = OrderStatus.confirmed} (change {s = OrderStatus.pending} (change start refl) refl)
      refl

History-changes_example :
    (changes in_the_kitchen + 2 ≤ 5)
    × (OrderStatus.preparing ≢ OrderStatus.cancelled → changes in_the_kitchen + 2 ≡ 5)
History-changes_example = History-changes in_the_kitchen

abbrev served : History OrderStatus.ready OrderStatus.completed
unfolding code
served = change start refl

History-has_been_prepared_example : has_been_prepared OrderStatus.completed ≡ true
History-has_been_prepared_example = History-has_been_prepared served refl

subtotal_is_1800 : subtotal_of env 7 1 world ≡ pos 1800
unfolding code
subtotal_is_1800 = refl

subtotal_is_nonnegative : pos 0 ≤ℤ subtotal_of env 7 1 world
subtotal_is_nonnegative = rw subtotal_is_1800 (omega arith)

open_order_is_found : env.orders.find_unique 7 world.orders ≡ some open_order
unfolding code
open_order_is_found = refl

open_order_is_editable : is_editable open_order.status ≡ true
unfolding code
open_order_is_editable = refl

open_order_may_be_confirmed : can_transition open_order.status OrderStatus.confirmed ≡ true
unfolding code
open_order_may_be_confirmed = refl

ten_is_allowed : 10 ≤ 100
ten_is_allowed = omega arith

apply_discount-returns_example :
    (view : OrderWithItems) × (v : World) × (apply_discount env 7 ten_percent ana world
      ≡ done view v)
apply_discount-returns_example =
    apply_discount-returns env env-IsPrisma 7 ana world ten_percent open_order open_order_is_found
      refl open_order_is_editable subtotal_is_nonnegative refl ten_is_allowed

update_status-returns_example :
    (view : OrderWithItems) × (v : World) × (update_status env 7 OrderStatus.confirmed ana world
      ≡ done view v)
    × (view.order ≡ set_status OrderStatus.confirmed open_order)
update_status-returns_example =
    update_status-returns env 7 ana world open_order OrderStatus.confirmed open_order_is_found refl
      open_order_may_be_confirmed
