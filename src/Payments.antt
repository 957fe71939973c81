-- ===== src/Payments.antt =====
-- payments/payments.service.ts: the payment intent, the checkout at the register, and the webhook.
-- The payment gateway of payments/gateway/ is a parameter.
pub mod Checkout
pub mod Returns
pub mod Webhook
pub mod Inventory
use restosync_api.Base.{
  Bool, true, false, not, ◌&&◌, Option, none, some, List, [], ◌∷◌, String, ◌==◌, if◌then◌else◌, ℕ,
}
use restosync_api.Base.Int.{ℤ, pos, ltb_ℤ, ◌-ℤ◌, sub_ℕ, pos_part, neg_part, at_least_zero}
use Prim.Native.String.{◌++◌}
use text.Mathlib.Text.{◌==◌ as str_eq}
use restosync_api.Schema.{
  Uuid, Json, AuthUser, Order, OrderItem, OrderStatus, Payment, PaymentMethod, PaymentStatus,
  TableStatus, Table, CashRegisterSession, AdjustmentType, InventoryItem, same_order_status,
  same_method, same_payment_status,
}
use restosync_api.World.{
  World, Exec, Env, not_payable, no_active_session, insufficient_payment, bad_transition,
  inventory_failed, no_payment_for_intent, gets, guard, throw, pure, modify, attempt, transaction,
  or_throw, create_row, update_or_throw, ◌>>=◌, ◌>>◌,
}
use restosync_api.Realtime.{emit_realtime_event, emit_table_status_changed}
use restosync_api.Orders.Status.{can_transition}
use restosync_api.Orders.Totals.{put_orders, put_tables, include_items}
use restosync_api.Orders.Creation.{holds_id}
use restosync_api.Orders.Lifecycle.{find_order, mark_confirmed, set_status}
use restosync_api.CashRegister.{active_session}
use restosync_api.Inventory.{AdjustStockDto, adjust}

pub record CheckoutDto : Type 0 where
  pub order_id : Uuid
  pub method : PaymentMethod
  pub amount_paid_cents : ℤ

-- payments/gateway/payment-gateway.interface.ts
pub record PaymentIntentResult : Type 0 where
  pub id : String
  pub client_secret : Option String

pub data EventType : Type 0 where
  payment_succeeded payment_failed other : EventType

pub record GatewayEvent : Type 0 where
  pub id : String
  pub type : EventType
  pub payment_intent_id : Option String
  pub raw : Json

pub record IntentReply : Type 0 where
  pub payment_intent_id : String
  pub client_secret : Option String
  pub amount_cents : ℤ
  pub currency : String

abbrev pub put_payments : List Payment → World → World
put_payments rows w = record w { payments = rows }

abbrev pub has_text : Option String → String → Bool
has_text none text = false
has_text (some t) text = str_eq t text

-- `where: { orderId, status: SUCCEEDED, restaurantId }`
unfoldable pub is_paid : Uuid → Uuid → Payment → Bool
is_paid order_id restaurant_id p =
    p.order_id == order_id
    && same_payment_status p.status PaymentStatus.succeeded
    && p.restaurant_id == restaurant_id

-- The row of `tx.payment.create` in `checkout`
unfoldable pub pos_payment : Order → CheckoutDto → Uuid → Uuid → Uuid → Payment
pos_payment order dto session_id restaurant_id id = record {
  id = id;
  order_id = order.id;
  method = dto.method;
  provider = "pos";
  provider_ref = none;
  amount_cents = order.total_cents;
  paid_cents = dto.amount_paid_cents;
  change_cents = at_least_zero (dto.amount_paid_cents -ℤ order.total_cents);
  currency = order.currency;
  status = PaymentStatus.succeeded;
  last_event_id = none;
  raw_event = none;
  session_id = some session_id;
  restaurant_id = restaurant_id;
}

-- The row of `prisma.payment.upsert` in `createIntent`
unfoldable pub intent_payment : Order → String → Uuid → Uuid → Payment
intent_payment order intent_id restaurant_id id = record {
  id = id;
  order_id = order.id;
  method = PaymentMethod.stripe;
  provider = "stripe";
  provider_ref = some intent_id;
  amount_cents = order.total_cents;
  paid_cents = pos 0;
  change_cents = pos 0;
  currency = order.currency;
  status = PaymentStatus.requires_payment;
  last_event_id = none;
  raw_event = none;
  session_id = none;
  restaurant_id = restaurant_id;
}

-- `dto.method === CASH && dto.amountPaidCents < order.totalCents`
unfoldable pub is_short : CheckoutDto → Order → Bool
is_short dto order =
    same_method dto.method PaymentMethod.cash && ltb_ℤ dto.amount_paid_cents order.total_cents

-- The `data` of the update in `onPaymentSucceeded` and `onPaymentFailed`
unfoldable pub settle : PaymentStatus → GatewayEvent → Payment → Payment
settle status event p = record p {
  status = status;
  last_event_id = some event.id;
  raw_event = some event.raw;
}

abbrev zone_of : Option Table → Option Uuid
zone_of none = none
zone_of (some t) = t.zone_id

module _ (env : Env) where
  -- `findUnique({ where: { providerRef } })`: the column is unique.
  unfoldable pub find_by_ref : String → World → Option Payment
  find_by_ref ref w = env.payments.find_first (λ p. has_text p.provider_ref ref) [] w.payments

  unfoldable pub upsert_intent : Option Payment → Order → String → Uuid → Exec Payment
  upsert_intent none order intent_id restaurant_id =
      create_row env.payments (λ w. w.payments) put_payments
        (intent_payment order intent_id restaurant_id)
  upsert_intent (some p) order intent_id restaurant_id =
      update_or_throw env.payments (λ w. w.payments) put_payments p.id
        (λ x. record x { amount_cents = order.total_cents })

  -- `gateway.createPaymentIntent` is the parameter `request`.
  unfoldable pub create_intent :
      (ℤ → String → Uuid → Exec PaymentIntentResult) → Uuid → AuthUser → Exec IntentReply
  create_intent request order_id user = do
    order ← find_order env order_id user
    guard (same_order_status order.status OrderStatus.pending) (not_payable order.status)
    intent ← request order.total_cents order.currency order.id
    existing ← gets (find_by_ref intent.id)
    saved ← upsert_intent existing order intent.id user.restaurant_id
    pure (record {
      payment_intent_id = intent.id;
      client_secret = intent.client_secret;
      amount_cents = order.total_cents;
      currency = order.currency;
    })

  abbrev release : Option Uuid → Exec (Unit {0})
  release none = pure tt
  release (some table_id) = do
    updated ←
        update_or_throw env.tables (λ w. w.tables) put_tables table_id
          (λ t. record t { status = TableStatus.available })
    pure tt

  -- The body of the `$transaction` of `checkout`
  unfoldable pub settle_order : Order → CheckoutDto → Uuid → Uuid → Exec Payment
  settle_order order dto session_id restaurant_id = do
    guard (can_transition order.status OrderStatus.confirmed)
        (bad_transition order.status OrderStatus.confirmed)
    updated ←
        update_or_throw env.orders (λ w. w.orders) put_orders order.id
          (set_status OrderStatus.confirmed)
    release order.table_id
    create_row env.payments (λ w. w.payments) put_payments
        (pos_payment order dto session_id restaurant_id)

  abbrev announce_available : Option Uuid → Uuid → Option Table → Exec (Unit {0})
  announce_available none restaurant_id table = pure tt
  announce_available (some table_id) restaurant_id table = emit_realtime_event table_id (
      emit_table_status_changed env (record {
        table_id = table_id;
        restaurant_id = restaurant_id;
        status = TableStatus.available;
        zone_id = zone_of table;
      }))

  abbrev find_table_of : Option Uuid → World → Option Table
  find_table_of none w = none
  find_table_of (some table_id) w = env.tables.find_unique table_id w.tables

  unfoldable pub sell : Option InventoryItem → OrderItem → String → Uuid → Uuid → Exec (Unit {0})
  sell none item number restaurant_id actor_id = pure tt
  sell (some x) item number restaurant_id actor_id = do
    adjusted ←
        adjust env x.id
          (record {
            type = AdjustmentType.sale;
            quantity_delta = env.floats.negated (env.floats.number item.quantity);
            reason = some ("Sale from order " ++ number);
          })
          actor_id restaurant_id
    pure tt

  -- One round of the loop of `decrementInventoryForOrder`, inside its `try`
  unfoldable pub decrement_item : OrderItem → String → Uuid → Uuid → Exec (Unit {0})
  decrement_item item number restaurant_id actor_id = do
    found ← gets (λ w.
        env.inventory_items.find_first
          (λ x. holds_id x.menu_item_id item.menu_item_id && x.restaurant_id == restaurant_id) []
          w.inventory_items)
    sell found item number restaurant_id actor_id

  unfoldable pub decrement_inventory_for_order :
      List OrderItem → String → Uuid → Uuid → Exec (Unit {0})
  decrement_inventory_for_order [] number restaurant_id actor_id = pure tt
  decrement_inventory_for_order (item ∷ rest) number restaurant_id actor_id = do
    attempt (decrement_item item number restaurant_id actor_id) (inventory_failed item.menu_item_id)
    decrement_inventory_for_order rest number restaurant_id actor_id

  -- The part of `checkout` from the check of the amount on
  unfoldable pub charge :
      CheckoutDto → AuthUser → Order → CashRegisterSession → Option Payment → Exec Payment
  charge dto user order session (some paid) = pure paid
  charge dto user order session none = do
    guard (not (is_short dto order)) insufficient_payment
    table ← gets (find_table_of order.table_id)
    items ← gets (λ w. (include_items env order w).items)
    payment ← transaction (settle_order order dto session.id user.restaurant_id)
    announce_available order.table_id order.restaurant_id table
    decrement_inventory_for_order items order.number order.restaurant_id user.id
    pure payment

  unfoldable pub checkout : CheckoutDto → AuthUser → Exec Payment
  checkout dto user = do
    order ← find_order env dto.order_id user
    guard (same_order_status order.status OrderStatus.pending) (not_payable order.status)
    active ← gets (active_session env user.restaurant_id)
    session ← or_throw active no_active_session
    existing ←
        gets (λ w. env.payments.find_first (is_paid order.id user.restaurant_id) [] w.payments)
    charge dto user order session existing

  unfoldable pub warn_missing : String → World → World
  warn_missing ref w = record w { warnings = no_payment_for_intent ref ∷ w.warnings }

  -- A payment that has seen this event is not returned again.
  unfoldable pub unless_seen : GatewayEvent → Option Payment → String → Exec (Option Payment)
  unless_seen event none ref = do modify (warn_missing ref); pure none
  unless_seen event (some p) ref = pure (if has_text p.last_event_id event.id then none else some p)

  -- `if (!event.paymentIntentId) return null` returns for an empty id too.
  unfoldable pub look_up_intent : GatewayEvent → Bool → String → Exec (Option Payment)
  look_up_intent event true ref = pure none
  look_up_intent event false ref = do found ← gets (find_by_ref ref); unless_seen event found ref

  unfoldable pub find_payment_for_intent : GatewayEvent → Option String → Exec (Option Payment)
  find_payment_for_intent event none = pure none
  find_payment_for_intent event (some ref) = look_up_intent event (str_eq ref "") ref

  unfoldable pub find_payment_for_event : GatewayEvent → Exec (Option Payment)
  find_payment_for_event event = find_payment_for_intent event event.payment_intent_id

  unfoldable pub settle_event : GatewayEvent → PaymentStatus → Payment → Exec Payment
  settle_event event status p =
      update_or_throw env.payments (λ w. w.payments) put_payments p.id (settle status event)

  unfoldable pub succeed : GatewayEvent → Option Payment → Exec (Unit {0})
  succeed event none = pure tt
  succeed event (some p) = do
    updated ← settle_event event PaymentStatus.succeeded p
    mark_confirmed env p.order_id

  unfoldable pub fail : GatewayEvent → Option Payment → Exec (Unit {0})
  fail event none = pure tt
  fail event (some p) = do updated ← settle_event event PaymentStatus.failed p; pure tt

  unfoldable pub on_payment_succeeded : GatewayEvent → Exec (Unit {0})
  on_payment_succeeded event = do payment ← find_payment_for_event event; succeed event payment

  unfoldable pub on_payment_failed : GatewayEvent → Exec (Unit {0})
  on_payment_failed event = do payment ← find_payment_for_event event; fail event payment

  -- The `switch` of `handleWebhook`
  unfoldable pub handle_type : EventType → GatewayEvent → Exec (Unit {0})
  handle_type EventType.payment_succeeded event = on_payment_succeeded event
  handle_type EventType.payment_failed event = on_payment_failed event
  handle_type EventType.other event = pure tt

  -- `handleWebhook`, from the event that `gateway.constructEvent` has verified
  unfoldable pub handle_event : GatewayEvent → Exec (Unit {0})
  handle_event event = handle_type event.type event
