-- ===== src/Tests/Register.antt =====
-- The theorems on the register, the stock and the payments at the small restaurant.
use restosync_api.Base.{List, arith, false, ◌≡◌, refl, Option, none, some, [], ◌∷◌, All, Any}
use restosync_api.Base.Int.{ℤ, pos, ◌≤ℤ◌, sum_by}
use restosync_api.Schema.{
  Uuid, Payment, PaymentMethod, PaymentStatus, AdjustmentType, InventoryItem,
}
use restosync_api.World.{World, Outcome, done, thrown}
use restosync_api.World.Atomic.{Atomic}
use restosync_api.Inventory.{AdjustStockDto, LowStock, adjust, find_low_stock}
use restosync_api.Inventory.Stock.{Adjusts, adjust-Adjusts}
use restosync_api.Inventory.Alerts.{IsDue, IsLow, IsWatched, find_low_stock_exact}
use restosync_api.CashRegister.{
  OpenSessionDto, CloseSessionDto, open_session, close_session, by_method,
}
use restosync_api.CashRegister.Breakdown.{by_method_total}
use restosync_api.CashRegister.Sessions.{
  Opens, HasOneOpen, open_session-HasOneOpen, Closes, close_session-Closes,
}
use restosync_api.Payments.{
  CheckoutDto, GatewayEvent, EventType, checkout, handle_event, decrement_inventory_for_order,
}
use restosync_api.Payments.Checkout.{Checks, checkout-Checks}
use restosync_api.Payments.Inventory.{sale, decrement_inventory_for_order-sale}
use restosync_api.Payments.Webhook.{Handled, handle_event-Handled}
use restosync_api.Modifiers.{ResolvedSelection, load_groups, resolve_selections}
use restosync_api.Modifiers.Sound.{IsDistinct, Fits, resolve_selections-Fits}
use restosync_api.Payments.{is_paid, is_short}
use restosync_api.Payments.Returns.{checkout-returns}
use restosync_api.CashRegister.{active_session}
use restosync_api.Tests.Code.{code}
use restosync_api.Tests.{
  offset_floats-IsFloats, window_table, open_order, till, env, env-IsPrisma, ana, two_soups, world,
}

abbrev cash : CheckoutDto
cash = record { order_id = 7; method = PaymentMethod.cash; amount_paid_cents = pos 3000 }

-- The change that a checkout gives back
abbrev change_of : Outcome Payment → Option ℤ
change_of (done p w) = some p.change_cents
change_of (thrown e w) = none

checkout_run : change_of (checkout env cash ana world) ≡ some (pos 876)
unfolding code
checkout_run = refl

checkout-Checks_example :
    Atomic (λ p v. Checks env cash ana world p v) world (checkout env cash ana world)
checkout-Checks_example = checkout-Checks env env-IsPrisma cash ana world

decrement_inventory_for_order-sale_example :
    (v : World) × (decrement_inventory_for_order env (two_soups ∷ []) "ORD-0" 1 3 world ≡ done tt v)
    × (sale v ≡ sale world)
decrement_inventory_for_order-sale_example =
    decrement_inventory_for_order-sale env env-IsPrisma (two_soups ∷ []) "ORD-0" 1 3 world

abbrev card_payment : Payment
card_payment = record {
  id = 71;
  order_id = 7;
  method = PaymentMethod.stripe;
  provider = "stripe";
  provider_ref = some "pi_1";
  amount_cents = pos 2124;
  paid_cents = pos 0;
  change_cents = pos 0;
  currency = "usd";
  status = PaymentStatus.requires_payment;
  last_event_id = none;
  raw_event = none;
  session_id = none;
  restaurant_id = 1;
}

abbrev paid_event : GatewayEvent
paid_event = record {
  id = "evt_1";
  type = EventType.payment_succeeded;
  payment_intent_id = some "pi_1";
  raw = "{}";
}

abbrev card_world : World
card_world = record world { payments = card_payment ∷ [] }

handle_event-Handled_example :
    (v : World) × (handle_event env paid_event card_world ≡ done tt v)
    × Handled env paid_event EventType.payment_succeeded card_world v
handle_event-Handled_example = handle_event-Handled env env-IsPrisma paid_event card_world

abbrev sold_two : AdjustStockDto
sold_two = record { type = AdjustmentType.sale; quantity_delta = 998; reason = none }

adjust-Adjusts_example :
    Atomic (λ _ v. Adjusts env 61 sold_two 3 1 world v) world (adjust env 61 sold_two 3 1 world)
adjust-Adjusts_example =
    adjust-Adjusts env env-IsPrisma 61 sold_two 3 1 world offset_floats-IsFloats

find_low_stock_exact_example :
    (found : List LowStock) × (find_low_stock env ana world ≡ done found world)
    × All (λ (l : LowStock). IsDue env l × IsWatched env 1 l.item) found
    × ((i : Uuid) (x : InventoryItem)
        → env.inventory_items.find_unique i world.inventory_items ≡ some x
        → IsWatched env 1 x
        → IsLow env x
        → Any (λ (l : LowStock). (l.item ≡ x) × IsDue env l) found)
find_low_stock_exact_example = find_low_stock_exact env env-IsPrisma ana world

abbrev float : OpenSessionDto
float = record { opening_float_cents = pos 5000; notes = none }

abbrev closed_world : World
closed_world = record world { sessions = [] }

open_session-HasOneOpen_example :
    Atomic
      (λ _ v. Opens env env-IsPrisma ana closed_world v × HasOneOpen env 1 v)
      closed_world
      (open_session env float ana closed_world)
open_session-HasOneOpen_example = open_session-HasOneOpen env env-IsPrisma ana closed_world float

abbrev count : CloseSessionDto
count = record { counted_cents = pos 5100; notes = none }

close_session-Closes_example :
    Atomic
      (λ _ v. Closes env env-IsPrisma ana world count v)
      world
      (close_session env count ana world)
close_session-Closes_example = close_session-Closes env env-IsPrisma ana world count

card_payment-All : All (λ (p : Payment). pos 0 ≤ℤ p.amount_cents) (card_payment ∷ [])
card_payment-All = (omega arith, tt)

by_method_total_example :
    sum_by (λ e. e.1) (pos 0) (by_method (card_payment ∷ []))
    ≡ sum_by (λ p. p.amount_cents) (pos 0) (card_payment ∷ [])
by_method_total_example = by_method_total (card_payment ∷ []) card_payment-All

abbrev choice : ResolvedSelection
choice = record {
  selections =
      record {
        id = 31;
        group_id = 21;
        group_name = "Size";
        name = "Large";
        price_delta_cents = pos 200;
      }
      ∷ [];
  delta_cents_per_unit = pos 200;
}

resolve_selections_run : resolve_selections env 11 (some (31 ∷ [])) 1 world ≡ done choice world
unfolding code
resolve_selections_run = refl

resolve_selections-Fits_example :
    IsDistinct (31 ∷ []) × Fits (load_groups env 11 1 world) (31 ∷ []) choice
resolve_selections-Fits_example =
    resolve_selections-Fits env 11 (some (31 ∷ [])) 1 world world choice resolve_selections_run

open_order_is_found : env.orders.find_unique 7 world.orders ≡ some open_order
unfolding code
open_order_is_found = refl

till_is_active : active_session env 1 world ≡ some till
unfolding code
till_is_active = refl

open_order_is_unpaid : env.payments.find_first (is_paid 7 1) [] world.payments ≡ none
unfolding code
open_order_is_unpaid = refl

cash_is_enough : is_short cash open_order ≡ false
unfolding code
cash_is_enough = refl

window_table_is_found : env.tables.find_unique 5 world.tables ≡ some window_table
unfolding code
window_table_is_found = refl

checkout-returns_example :
    (p : Payment) × (v : World) × (checkout env cash ana world ≡ done p v)
    × (p.amount_cents ≡ pos 2124)
    × (p.session_id ≡ some 51)
checkout-returns_example =
    checkout-returns env env-IsPrisma ana world cash open_order till open_order_is_found refl refl
      till_is_active open_order_is_unpaid cash_is_enough (window_table, window_table_is_found)
