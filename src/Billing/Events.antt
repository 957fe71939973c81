-- ===== src/Billing/Events.antt =====
-- billing/billing.service.ts: what Stripe's events do to the subscriptions.
use text.Mathlib.TextPositions.{eq_refl}
use restosync_api.Base.{
  ℕ, String, ◌≡◌, refl, sym, ap, ◌∙◌, subst, Bool, true, false, Option, none, some, [], ◌∷◌, ◌==◌,
  ◌⊎◌, inl, inr, Option-cases,
}
use restosync_api.Schema.{Uuid, Subscription}
use restosync_api.Prisma.Laws.{create_self, update_self, update_ne}
use restosync_api.World.{
  World, no_subscription, done, Env, IsPrisma, create_row, update_or_throw, ◌>>=◌,
}
use restosync_api.Payments.{has_text}
use restosync_api.Billing.{
  subscription_created, put_subscriptions, text_or, new_subscription, changed_subscription,
  create_subscription, find_by_subscription_id, set_status, update_subscription_status,
  find_by_stripe_customer_id, create_unless, on_subscription_created, handle_billing_event,
}

module _ (env : Env) (db : IsPrisma env) where
  -- A change of the status: the record of that id has it, and no other record has changed.
  pub record SetsStatus (subscription status : String) (date : Option ℕ) (w v : World)
      : Type 0 where
    pub row : Subscription
    pub found : env.subscriptions.find_unique row.id w.subscriptions ≡ some row
    pub named : has_text row.stripe_subscription_id subscription ≡ true
    pub stored :
        env.subscriptions.find_unique row.id v.subscriptions
        ≡ some (changed_subscription status date row)
    pub others :
        (j : Uuid)
        → (row.id == j) ≡ false
        → env.subscriptions.find_unique j v.subscriptions
          ≡ env.subscriptions.find_unique j w.subscriptions
    pub rest : v ≡ put_subscriptions v.subscriptions w

  -- No record has the id: a warning is all that is left.
  abbrev pub Warns : String → World → World → Type 0
  Warns subscription w v =
      ((j : Uuid) (s : Subscription)
        → env.subscriptions.find_unique j w.subscriptions ≡ some s
        → has_text s.stripe_subscription_id subscription ≡ false)
      × (v ≡ record w { warnings = no_subscription subscription ∷ w.warnings })

  -- In a database that keeps Prisma's laws, `updateSubscriptionStatus` always returns: either a
  -- subscription with the given Stripe id gets the status, and the end of the period if one is
  -- given, and nothing else changes; or none has that id, and all that changes is one more
  -- warning.
  pub update_subscription_status-returns :
      (subscription status : String) (date : Option ℕ) (w : World)
      → (r : Option Subscription) × (v : World) × (update_subscription_status env subscription
            status date w
          ≡ done r v)
        × (SetsStatus subscription status date w v ⊎ Warns subscription w v)
  unfolding update_subscription_status find_by_subscription_id set_status ◌>>=◌ update_or_throw
      changed_subscription
  update_subscription_status-returns subscription status date w =
      let clause : Subscription → Bool = λ s. has_text s.stripe_subscription_id subscription in
      elim (Option-cases (env.subscriptions.find_first clause [] w.subscriptions)) [
        | inl e ↦ (
          none,
          record w { warnings = no_subscription subscription ∷ w.warnings },
          rw e refl,
          inr (
            (λ j s found. db.subscriptions.first_none clause [] w.subscriptions j s e found),
            refl,
          ),
        )
        | inr (s, e) ↦
            let found = db.subscriptions.first_found clause [] w.subscriptions s e in
            let f = changed_subscription status date in
            (
              some (f s),
              put_subscriptions (env.subscriptions.update s.id f w.subscriptions) w,
              rw (e, update_or_throw, found) refl,
              inl (record {
                row = s;
                found = found;
                named = db.subscriptions.first_where clause [] w.subscriptions s e;
                stored = update_self db.subscriptions s.id f w.subscriptions s (λ x. refl) found;
                others = λ j ne. update_ne db.subscriptions s.id j f w.subscriptions (λ x. refl) ne;
                rest = refl;
              }),
            )
      ]

  has_text_refl : (s : String) → has_text (some s) s ≡ true
  has_text_refl s = eq_refl s

  -- In a database that keeps Prisma's laws, if handling an event that a subscription was
  -- created has returned, handling it again returns and leaves the state as it is.
  pub subscription_created-twice :
      (customer id : String) (nickname : Option String) (w v : World)
      → handle_billing_event env (subscription_created customer id nickname) w ≡ done tt v
      → handle_billing_event env (subscription_created customer id nickname) v ≡ done tt v
  unfolding handle_billing_event on_subscription_created find_by_stripe_customer_id create_unless
      create_subscription create_row new_subscription ◌>>=◌
  subscription_created-twice customer id nickname w v h =
      let clause : Subscription → Bool = λ s. has_text (some s.stripe_customer_id) customer in
      elim (Option-cases (env.subscriptions.find_first clause [] v.subscriptions)) [
        | inr (s, e) ↦ rw e refl
        | inl e ↦ elim (Option-cases (env.subscriptions.find_first clause [] w.subscriptions)) [
          | inr (s, f) ↦
              let h' = subst (λ o. create_unless env customer id nickname o w ≡ done tt v) f h in
              let same : w ≡ v = cc in
              let clash : none ≡ some s =
                sym e
                ∙ ap (λ u. env.subscriptions.find_first clause [] u.subscriptions) (sym same)
                ∙ f in
              cc
          | inl f ↦
              let x =
                new_subscription customer id (text_or nickname "default")
                  (env.subscriptions.new_id w.subscriptions) in
              let h' = subst (λ o. create_unless env customer id nickname o w ≡ done tt v) f h in
              let same : put_subscriptions (env.subscriptions.create x w.subscriptions) w ≡ v =
                cc in
              let stored = create_self db.subscriptions x w.subscriptions refl in
              let e' : env.subscriptions.find_first clause []
                    (env.subscriptions.create x w.subscriptions)
                  ≡ none =
                ap (λ u. env.subscriptions.find_first clause [] u.subscriptions) same ∙ e in
              let unlike =
                db.subscriptions.first_none clause [] (env.subscriptions.create x w.subscriptions)
                  x.id x e' stored in
              let alike = has_text_refl customer in cc
        ]
      ]
