-- ===== src/Billing.antt =====
-- billing/billing.service.ts: the subscriptions that restaurants pay, as Stripe's events tell them.
pub mod Events
use restosync_api.Base.{
  ℕ, String, ◌*◌, Bool, true, false, ◌||◌, Option, none, some, List, [], ◌∷◌, ◌==◌, if◌then◌else◌,
}
use restosync_api.Schema.{Uuid, Subscription}
use restosync_api.World.{
  World, Warning, no_subscription, bad_signature, Exec, Env, invalid_signature, pure, throw, gets,
  modify, create_row, update_or_throw, ◌>>=◌, ◌>>◌,
}
use restosync_api.Payments.{has_text}

-- `Stripe.Event` with the fields that are read; a subscription's nickname is that of its first price.
pub data BillingEvent : Type 0 where
  subscription_created : (customer id : String) → (nickname : Option String) → BillingEvent
  subscription_updated : (id status : String) → (current_period_end : Option ℕ) → BillingEvent
  subscription_deleted : (id : String) → BillingEvent
  payment_failed : (subscription : Option String) → BillingEvent
  other_event : BillingEvent

abbrev pub put_subscriptions : List Subscription → World → World
put_subscriptions rows w = record w { subscriptions = rows }

-- `text || fallback`
unfoldable pub text_or : Option String → String → String
text_or none fallback = fallback
text_or (some text) fallback = if has_text (some text) "" then fallback else text

-- `seconds ? new Date(seconds * 1000) : undefined`
unfoldable pub date_of_seconds : Option ℕ → Option ℕ
date_of_seconds none = none
date_of_seconds (some seconds) = if seconds == 0 then none else some (seconds * 1000)

unfoldable pub new_subscription : String → String → String → Uuid → Subscription
new_subscription customer subscription plan_name id = record {
  id = id;
  stripe_customer_id = customer;
  stripe_subscription_id = some subscription;
  status = "active";
  plan_name = plan_name;
  current_period_end = none;
}

abbrev pub date_or : Option ℕ → Option ℕ → Option ℕ
date_or none old = old
date_or (some date) old = some date

unfoldable pub changed_subscription : String → Option ℕ → Subscription → Subscription
changed_subscription status current_period_end s = record s {
  status = status;
  current_period_end = date_or current_period_end s.current_period_end;
}

module _ (env : Env) where
  unfoldable pub create_subscription : String → String → String → Exec Subscription
  create_subscription customer subscription plan_name =
      create_row env.subscriptions (λ w. w.subscriptions) put_subscriptions
        (new_subscription customer subscription plan_name)

  -- `subscription.findUnique({ where: { stripeSubscriptionId } })`, a column without duplicates
  unfoldable pub find_by_subscription_id : String → World → Option Subscription
  find_by_subscription_id subscription w =
      env.subscriptions.find_first (λ s. has_text s.stripe_subscription_id subscription) []
        w.subscriptions

  -- A record that is not there is a warning; one that is there is changed.
  unfoldable pub set_status :
      String → String → Option ℕ → Option Subscription → Exec (Option Subscription)
  set_status subscription status current_period_end none = do
    modify (λ w. record w { warnings = no_subscription subscription ∷ w.warnings })
    pure none
  set_status subscription status current_period_end (some existing) = do
    s ←
        update_or_throw env.subscriptions (λ w. w.subscriptions) put_subscriptions existing.id
          (changed_subscription status current_period_end)
    pure (some s)

  unfoldable pub update_subscription_status :
      String → String → Option ℕ → Exec (Option Subscription)
  update_subscription_status subscription status current_period_end = do
    existing ← gets (find_by_subscription_id subscription)
    set_status subscription status current_period_end existing

  unfoldable pub find_by_stripe_customer_id : String → World → Option Subscription
  find_by_stripe_customer_id customer w =
      env.subscriptions.find_first (λ s. has_text (some s.stripe_customer_id) customer) []
        w.subscriptions

  -- `if (existing) return`
  unfoldable pub create_unless :
      String → String → Option String → Option Subscription → Exec (Unit {0})
  create_unless customer id nickname (some existing) = pure tt
  create_unless customer id nickname none = do
    s ← create_subscription customer id (text_or nickname "default")
    pure tt

  unfoldable pub on_subscription_created : String → String → Option String → Exec (Unit {0})
  on_subscription_created customer id nickname = do
    existing ← gets (find_by_stripe_customer_id customer)
    create_unless customer id nickname existing

  unfoldable pub on_subscription_updated : String → String → Option ℕ → Exec (Unit {0})
  on_subscription_updated id status current_period_end = do
    s ← update_subscription_status id status (date_of_seconds current_period_end)
    pure tt

  unfoldable pub on_subscription_deleted : String → Exec (Unit {0})
  on_subscription_deleted id = do s ← update_subscription_status id "canceled" none; pure tt

  -- `if (!subscriptionId) return`: of a missing id and of the empty text
  unfoldable pub on_invoice_payment_failed : Option String → Exec (Unit {0})
  on_invoice_payment_failed none = pure tt
  on_invoice_payment_failed (some id) = elim (has_text (some id) "") [
    | true ↦ pure tt
    | false ↦ update_subscription_status id "past_due" none >>= λ _. pure tt
  ]

  -- The `switch` of `handleWebhook`
  unfoldable pub handle_billing_event : BillingEvent → Exec (Unit {0})
  handle_billing_event (subscription_created customer id nickname) =
      on_subscription_created customer id nickname
  handle_billing_event (subscription_updated id status current_period_end) =
      on_subscription_updated id status current_period_end
  handle_billing_event (subscription_deleted id) = on_subscription_deleted id
  handle_billing_event (payment_failed subscription) = on_invoice_payment_failed subscription
  handle_billing_event other_event = pure tt

  -- The event that Stripe's library reads from a signed payload; `none` where it throws
  unfoldable pub handle_webhook : Option BillingEvent → Exec (Unit {0})
  handle_webhook none = do
    modify (λ w. record w { warnings = bad_signature ∷ w.warnings })
    throw invalid_signature
  handle_webhook (some event) = handle_billing_event event
