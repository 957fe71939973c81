-- ===== src/Orders/Lifecycle/Effects.antt =====
-- orders/orders.service.ts: what the operations on an order's status do.
use mathlib.Core.Option.{some-injective}
use restosync_api.Base.{
  ◌≡◌, ◌≢◌, refl, ap, sym, ◌∙◌, true, false, not, Option, none, some, ◌==◌, ◌⊎◌, List, [], ◌∷◌, inl,
  inr, Bool-cases, length,
}
use restosync_api.Schema.{Uuid, AuthUser, Order, OrderStatus}
use restosync_api.Prisma.Laws.{update_self, update_ne}
use restosync_api.World.{World, done, Env, IsPrisma, quiet}
use restosync_api.World.Atomic.{Atomic}
use restosync_api.World.Reads.{Atomic-read, Atomic-gets, Atomic-test}
use restosync_api.World.Writes.{Atomic-update, Atomic-pure, Atomic-gets_last}
use restosync_api.Realtime.Quiet.{status_notice, Atomic-notice}
use restosync_api.Orders.Status.{can_transition}
use restosync_api.Orders.Totals.{put_orders, include_items}
use restosync_api.Orders.Lifecycle.{
  find_order, set_status, update_status, mark_confirmed, confirm_found, confirm_order,
}
use restosync_api.Orders.Editing.Checks.{find_order-Reads, find_order-eq}

-- Order `i` goes from a status to one that may follow it; it is otherwise as it was, and so is
-- everything else in the database.
pub record Moves (env : Env) (i : Uuid) (to : OrderStatus) (w v : World) : Type 0 where
  pub order : Order
  pub found : env.orders.find_unique i w.orders ≡ some order
  pub allowed : can_transition order.status to ≡ true
  pub stored : env.orders.find_unique i v.orders ≡ some (set_status to order)
  pub others :
      (j : Uuid)
      → (i == j) ≡ false
      → env.orders.find_unique j v.orders ≡ env.orders.find_unique j w.orders
  pub rest : quiet v ≡ quiet (record w { orders = v.orders })

set_status-id : (s : OrderStatus) (o : Order) → (set_status s o).id ≡ o.id
unfolding set_status
set_status-id s o = refl

not_empty : {A : Type 0} (xs : List A) → not (length xs == 0) ≡ true → xs ≢ []
not_empty [] h e = cc
not_empty (x ∷ xs) h e = cc

module _ (env : Env) (db : IsPrisma env) (i : Uuid) (w : World) where
  set_status-Moves :
      (to : OrderStatus) (o : Order) (v : World)
      → env.orders.find_unique i w.orders ≡ some o
      → can_transition o.status to ≡ true
      → quiet v ≡ quiet (record w { orders = env.orders.update i (set_status to) w.orders })
      → Moves env i to w v
  set_status-Moves to o v f t q =
      let e : v.orders ≡ env.orders.update i (set_status to) w.orders =
        ap (λ (u : World). u.orders) q in
      record {
        order = o;
        found = f;
        allowed = t;
        stored = rw e (update_self db.orders i (set_status to) w.orders o (set_status-id to) f);
        others =
            λ j ne. rw e (update_ne db.orders i j (set_status to) w.orders (set_status-id to) ne);
        rest = q ∙ ap (λ os. quiet (record w { orders = os })) (sym e);
      }

  -- An order that is found belongs to this restaurant.
  abbrev pub IsOwn : Uuid → Type 0
  IsOwn r = (o : Order) → env.orders.find_unique i w.orders ≡ some o → o.restaurant_id ≡ r

  module _ (user : AuthUser) where
    find_order-IsOwn : (o : Order) → find_order env i user w ≡ done o w → IsOwn user.restaurant_id
    find_order-IsOwn o e x f =
        let (found, own) = find_order-eq env i user w o e in
        ap (λ (y : Order). y.restaurant_id) (some-injective _ _ (sym f ∙ found)) ∙ own

    -- In a database that keeps Prisma's laws, `updateStatus` returns, or throws and leaves
    -- the state as it was. If it returns, the order was there, in the user's restaurant, with
    -- a status that the given one may follow; it now has the given status and is otherwise as
    -- it was, and nothing else in the database has changed.
    pub update_status-Moves :
        (to : OrderStatus)
        → Atomic
            (λ _ v. Moves env i to w v × IsOwn user.restaurant_id)
            w
            (update_status env i to user w)
    unfolding update_status
    update_status-Moves to =
        Atomic-read _ (find_order env i user) _ w (find_order-Reads env i user) λ o e.
          let (found, _) = find_order-eq env i user w o e in
          Atomic-test _ _ _ _ w λ ok.
            Atomic-update _ env.orders (λ w'. w'.orders) put_orders i (set_status to) _ w w o found
              (Atomic-gets _ _ _ w _ (
                Atomic-notice _ _ _ w _ (status_notice env i _ _) λ u q.
                  Atomic-pure _ _ w u (set_status-Moves to o u found ok q, find_order-IsOwn o e)))

    -- In a database that keeps Prisma's laws, `confirmOrder` returns, or throws and leaves
    -- the state as it was. If it returns, the order was there, in the user's restaurant, with
    -- at least one item and a status that PENDING may follow; it is now PENDING and otherwise
    -- as it was, and nothing else in the database has changed.
    pub confirm_order-Moves :
        Atomic
          (λ _ v.
            Moves env i OrderStatus.pending w v
            × IsOwn user.restaurant_id
            × ((o : Order)
                → env.orders.find_unique i w.orders ≡ some o
                → (include_items env o w).items ≢ []))
          w
          (confirm_order env i user w)
    unfolding confirm_order
    confirm_order-Moves =
        Atomic-read _ (find_order env i user) _ w (find_order-Reads env i user) λ o e.
          let (found, _) = find_order-eq env i user w o e in
          Atomic-gets _ (include_items env o) _ w w (
            Atomic-test _ _ _ _ w λ full. Atomic-test _ _ _ _ w λ ok.
              Atomic-update _ env.orders (λ w'. w'.orders) put_orders i
                (set_status OrderStatus.pending) _ w w o found
                (Atomic-gets_last _ _ w _ (
                  set_status-Moves OrderStatus.pending o _ found ok refl,
                  find_order-IsOwn o e,
                  λ x f none_there.
                      let same : o ≡ x = some-injective _ _ (sym found ∙ f) in
                      not_empty _ full
                        (ap (λ (y : Order). (include_items env y w).items) same ∙ none_there),
                )))

  confirm_found-Moves :
      (o : Order)
      → env.orders.find_unique i w.orders ≡ some o
      → Atomic
          (λ _ v. Moves env i OrderStatus.confirmed w v ⊎ (v ≡ w))
          w
          (confirm_found env i (some o) w)
  unfolding confirm_found
  confirm_found-Moves o e = elim (Bool-cases (can_transition o.status OrderStatus.confirmed)) [
    | inl ok ↦ rw ok (
        Atomic-update _ env.orders (λ w'. w'.orders) put_orders i (set_status OrderStatus.confirmed)
          _ w w o e
          (Atomic-pure _ _ w _ (inl (set_status-Moves OrderStatus.confirmed o _ e ok refl))))
    | inr no_step ↦ rw no_step (Atomic-pure _ _ w w (inr refl))
  ]

  confirm_any-Moves :
      (x : Option Order)
      → env.orders.find_unique i w.orders ≡ x
      → Atomic (λ _ v. Moves env i OrderStatus.confirmed w v ⊎ (v ≡ w)) w (confirm_found env i x w)
  unfolding confirm_found
  confirm_any-Moves none e = Atomic-pure _ _ w w (inr refl)
  confirm_any-Moves (some o) e = confirm_found-Moves o e

  -- In a database that keeps Prisma's laws, `markConfirmed` returns, or throws and leaves the
  -- state as it was. If it returns, either nothing has changed, or the order had a status that
  -- CONFIRMED may follow and is now CONFIRMED, and nothing else in the database has changed.
  pub mark_confirmed-Moves :
      Atomic (λ _ v. Moves env i OrderStatus.confirmed w v ⊎ (v ≡ w)) w (mark_confirmed env i w)
  unfolding mark_confirmed
  mark_confirmed-Moves =
      Atomic-gets _ _ _ w w (confirm_any-Moves (env.orders.find_unique i w.orders) refl)
