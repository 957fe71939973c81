-- ===== src/Payments/Webhook.antt =====
-- payments/payments.service.ts: what handling a webhook event does.
use restosync_api.Base.{
  ◌≡◌, refl, ap, sym, ◌∙◌, Bool, true, false, Option, none, some, [], ◌==◌, String, if◌then◌else◌,
  ◌⊎◌, inl, inr, Bool-cases, subst,
}
use text.Mathlib.Text.{◌==◌ as str_eq}
use restosync_api.Schema.{Uuid, Order, OrderStatus, Payment, PaymentStatus}
use restosync_api.Prisma.Laws.{update_self, update_ne}
use restosync_api.World.{
  World, Outcome, done, thrown, Exec, Env, IsPrisma, pure, next, quiet, update_or_throw, ◌>>=◌,
}
use restosync_api.World.Atomic.{Atomic-done}
use restosync_api.Orders.Lifecycle.{mark_confirmed, confirm_found, set_status}
use restosync_api.Orders.Totals.{put_orders}
use restosync_api.Orders.Status.{can_transition}
use restosync_api.Orders.Lifecycle.Effects.{Moves, mark_confirmed-Moves}
use restosync_api.Payments.{
  GatewayEvent, EventType, put_payments, has_text, settle, find_by_ref, warn_missing, unless_seen,
  look_up_intent, find_payment_for_intent, find_payment_for_event, settle_event, succeed, fail,
  on_payment_succeeded, on_payment_failed, handle_type, handle_event,
}

abbrev pub has_ref : Option String → Payment → Bool
has_ref none p = false
has_ref (some ref) p = has_text p.provider_ref ref

-- What looking for an event's payment finds: none to settle, where at most a warning is logged, or
-- a payment of its intent that has not seen the event.
abbrev Finds : Env → GatewayEvent → World → Outcome (Option Payment) → Type 0
Finds env event w (done none v) = quiet v ≡ quiet w
Finds env event w (done (some p) v) =
    (v ≡ w)
    × (env.payments.find_unique p.id w.payments ≡ some p)
    × (has_ref event.payment_intent_id p ≡ true)
    × (has_text p.last_event_id event.id ≡ false)
Finds env event w (thrown e v) = ⊥

module _ (env : Env) (db : IsPrisma env) (event : GatewayEvent) (w : World) where
  seen-Finds :
      (p : Payment) (b : Bool)
      → has_text p.last_event_id event.id ≡ b
      → env.payments.find_unique p.id w.payments ≡ some p
      → has_ref event.payment_intent_id p ≡ true
      → Finds env event w (done (if b then none else some p) w)
  seen-Finds p true e f h = refl
  seen-Finds p false e f h = (refl, f, h, e)

  unless_seen-Finds :
      (ref : String) (x : Option Payment)
      → event.payment_intent_id ≡ some ref
      → find_by_ref env ref w ≡ x
      → Finds env event w (unless_seen env event x ref w)
  unfolding unless_seen find_by_ref warn_missing ◌>>=◌
  unless_seen-Finds ref none e f = refl
  unless_seen-Finds ref (some p) e f =
      seen-Finds p _ refl (db.payments.first_found _ [] w.payments p f)
        (rw e (db.payments.first_where _ [] w.payments p f))

  look_up-Finds :
      (ref : String) (empty : Bool)
      → event.payment_intent_id ≡ some ref
      → Finds env event w (look_up_intent env event empty ref w)
  unfolding look_up_intent ◌>>=◌
  look_up-Finds ref true e = refl
  look_up-Finds ref false e = unless_seen-Finds ref _ e refl

  find_for-Finds :
      (x : Option String)
      → event.payment_intent_id ≡ x
      → Finds env event w (find_payment_for_intent env event x w)
  unfolding find_payment_for_intent ◌>>=◌
  find_for-Finds none e = refl
  find_for-Finds (some ref) e = look_up-Finds ref (str_eq ref "") e

  find_payment-Finds : Finds env event w (find_payment_for_event env event w)
  unfolding find_payment_for_event
  find_payment-Finds = find_for-Finds event.payment_intent_id refl

-- The payment that an event settles: it gets the event's status and remembers the event. A success may
-- move its order to CONFIRMED, if it may go there; nothing else in the database changes.
pub record Applies (env : Env) (event : GatewayEvent) (status : PaymentStatus) (w v : World)
    : Type 0 where
  pub payment : Payment
  pub found : env.payments.find_unique payment.id w.payments ≡ some payment
  pub of_intent : has_ref event.payment_intent_id payment ≡ true
  pub unseen : has_text payment.last_event_id event.id ≡ false
  pub stored :
      env.payments.find_unique payment.id v.payments
      ≡ some (record payment {
        status = status;
        last_event_id = some event.id;
        raw_event = some event.raw;
      })
  pub others :
      (j : Uuid)
      → (payment.id == j) ≡ false
      → env.payments.find_unique j v.payments ≡ env.payments.find_unique j w.payments
  pub order :
      Moves env payment.order_id OrderStatus.confirmed
        (record w { payments = env.payments.update payment.id (settle status event) w.payments })
        v
      ⊎ (v.orders ≡ w.orders)
  pub rest : quiet v ≡ quiet (record w { payments = v.payments; orders = v.orders })

-- What an event of each type does to the world, beyond a warning
abbrev pub Handled : Env → GatewayEvent → EventType → World → World → Type 0
Handled env event EventType.payment_succeeded w v =
    (quiet v ≡ quiet w) ⊎ Applies env event PaymentStatus.succeeded w v
Handled env event EventType.payment_failed w v =
    (quiet v ≡ quiet w) ⊎ (Applies env event PaymentStatus.failed w v × (v.orders ≡ w.orders))
Handled env event EventType.other w v = v ≡ w

module _ (env : Env) (db : IsPrisma env) where
  confirm_found-returns :
      (i : Uuid) (w : World) (x : Option Order)
      → env.orders.find_unique i w.orders ≡ x
      → (v : World) × (confirm_found env i x w ≡ done tt v)
  unfolding confirm_found update_or_throw pure ◌>>=◌
  confirm_found-returns i w none e = (w, refl)
  confirm_found-returns i w (some o) e =
      elim (Bool-cases (can_transition o.status OrderStatus.confirmed)) [
        | inl ok ↦
            let v =
              put_orders (env.orders.update i (set_status OrderStatus.confirmed) w.orders) w in
            (v, rw (ok, update_or_throw, e) refl)
        | inr no_step ↦ (w, rw no_step refl)
      ]

  -- The webhook's confirmation of an order never throws.
  mark_confirmed-returns :
      (i : Uuid) (w : World)
      → (v : World) × (mark_confirmed env i w ≡ done tt v)
        × (Moves env i OrderStatus.confirmed w v ⊎ (v ≡ w))
  unfolding mark_confirmed ◌>>=◌
  mark_confirmed-returns i w =
      let (v, e) = confirm_found-returns i w _ refl in
      (v, e, Atomic-done _ w _ tt v (mark_confirmed-Moves env db i w) e)

  module _ (event : GatewayEvent) (w : World) where
    settled : PaymentStatus → Payment → World
    settled status p = put_payments (env.payments.update p.id (settle status event) w.payments) w

    settled-Applies :
        (status : PaymentStatus) (p : Payment) (v : World)
        → Finds env event w (done (some p) w)
        → Moves env p.order_id OrderStatus.confirmed (settled status p) v ⊎ (v ≡ settled status p)
        → quiet v ≡ quiet (record (settled status p) { orders = v.orders })
        → Applies env event status w v
    unfolding settled settle
    settled-Applies status p v (_, found, of_intent, unseen) order q =
        let rows : v.payments ≡ (settled status p).payments = ap (λ (u : World). u.payments) q in
        record {
          payment = p;
          found = found;
          of_intent = of_intent;
          unseen = unseen;
          stored =
              rw rows
                (update_self db.payments p.id (settle status event) w.payments p (λ y. refl) found);
          others = λ j ne.
              rw rows
                (update_ne db.payments p.id j (settle status event) w.payments (λ y. refl) ne);
          order = elim order [ inl m ↦ inl m | inr e ↦ inr (ap (λ (u : World). u.orders) e) ];
          rest =
              q ∙ ap (λ rows. quiet (record w { payments = rows; orders = v.orders })) (sym rows);
        }

    rest_of :
        (i : Uuid) (u v : World)
        → Moves env i OrderStatus.confirmed u v ⊎ (v ≡ u)
        → quiet v ≡ quiet (record u { orders = v.orders })
    rest_of i u v (inl m) = m.rest
    rest_of i u v (inr e) =
        ap quiet e ∙ ap (λ (x : World). quiet (record u { orders = x.orders })) (sym e)

    succeed-Handled :
        (x : Option Payment) (u : World)
        → Finds env event w (done x u)
        → (v : World) × (succeed env event x u ≡ done tt v)
          × Handled env event EventType.payment_succeeded w v
    unfolding succeed settle_event update_or_throw settled pure ◌>>=◌
    succeed-Handled none u h = (u, refl, inl h)
    succeed-Handled (some p) u (same, found, of_intent, unseen) =
        let (v, run, order) =
          mark_confirmed-returns p.order_id (settled PaymentStatus.succeeded p) in
        (
          v,
          subst (λ x. succeed env event (some p) x ≡ done tt v) (sym same)
              (rw (update_or_throw, found) run),
          inr (
              settled-Applies PaymentStatus.succeeded p v (refl, found, of_intent, unseen) order
                (rest_of _ _ v order)),
        )

    fail-Handled :
        (x : Option Payment) (u : World)
        → Finds env event w (done x u)
        → (v : World) × (fail env event x u ≡ done tt v)
          × Handled env event EventType.payment_failed w v
    unfolding fail settle_event update_or_throw settled pure ◌>>=◌
    fail-Handled none u h = (u, refl, inl h)
    fail-Handled (some p) u (same, found, of_intent, unseen) =
        let v = settled PaymentStatus.failed p in
        (
          v,
          subst (λ x. fail env event (some p) x ≡ done tt v) (sym same)
              (rw (update_or_throw, found) refl),
          inr (
            settled-Applies PaymentStatus.failed p v (refl, found, of_intent, unseen) (inr refl)
                refl,
            refl,
          ),
        )

    after_finding :
        (Q : World → Type 0) (k : Option Payment → Exec (Unit {0})) (o : Outcome (Option Payment))
        → Finds env event w o
        → ((x : Option Payment) (u : World)
            → Finds env event w (done x u)
            → (v : World) × (k x u ≡ done tt v) × Q v)
        → (v : World) × (next o k ≡ done tt v) × Q v
    after_finding Q k (done x u) h f = f x u h
    after_finding Q k (thrown e u) h f = elim h [ ]

    handle_type-Handled :
        (t : EventType)
        → (v : World) × (handle_type env t event w ≡ done tt v) × Handled env event t w v
    unfolding handle_type on_payment_succeeded on_payment_failed pure ◌>>=◌
    handle_type-Handled EventType.payment_succeeded =
        after_finding _ (succeed env event) _ (find_payment-Finds env db event w) succeed-Handled
    handle_type-Handled EventType.payment_failed =
        after_finding _ (fail env event) _ (find_payment-Finds env db event w) fail-Handled
    handle_type-Handled EventType.other = (w, refl, refl)

    -- In a database that keeps Prisma's laws, handling a verified webhook event always
    -- returns. An event of another type changes nothing. A success or a failure either
    -- changes nothing but the log and the sockets, or settles one payment of its intent that
    -- had not seen the event: it gets the event's status, its id and its raw payload, and
    -- other payments are as they were. A failure leaves the orders; a success moves at most
    -- the payment's order, to CONFIRMED, and only if its status may go there. Nothing else in
    -- the database changes.
    pub handle_event-Handled :
        (v : World) × (handle_event env event w ≡ done tt v) × Handled env event event.type w v
    unfolding handle_event
    handle_event-Handled = handle_type-Handled event.type
