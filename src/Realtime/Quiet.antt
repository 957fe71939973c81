-- ===== src/Realtime/Quiet.antt =====
-- realtime/realtime.gateway.ts: the emits within their wrapper `emitRealtimeEvent`.
use restosync_api.Base.{◌≡◌, refl, Option, none, some, ◌∷◌, arith, ◌∙◌}
use restosync_api.Schema.{Uuid, Order}
use restosync_api.World.{
  World, Outcome, done, thrown, Exec, Warning, attempt, quiet, Env, Room, Event, staff_room,
  customer_room, StatusChangedPayload, TotalsChangedPayload, TableStatusChangedPayload, emit_failed,
  order_totals_changed, order_status_changed, table_status_changed, next, pure, ◌>>=◌,
}
use restosync_api.World.Atomic.{Atomic}
use restosync_api.Realtime.{
  emit, emit_to_customer, emit_for_order, emit_totals_changed, emit_status_changed,
  emit_table_status_changed, emit_realtime_event,
}

-- However it ends, the database is as it was.
abbrev pub Quietly : Outcome (Unit {0}) → World → Type 0
Quietly (done a v) w = quiet v ≡ quiet w
Quietly (thrown e v) w = quiet v ≡ quiet w

-- A wrapped emit returns, and the database is as it was.
abbrev pub ReturnsQuietly : Outcome (Unit {0}) → World → Type 0
ReturnsQuietly o w = (v : World) × (o ≡ done tt v) × (quiet v ≡ quiet w)

attempt-Quietly :
    (m : Exec (Unit {0})) (x : Warning) (w : World) (o : Outcome (Unit {0}))
    → m w ≡ o
    → Quietly o w
    → ReturnsQuietly (attempt m x w) w
unfolding attempt
attempt-Quietly m x w (done a v) e q = (v, rw (attempt, e), q)
attempt-Quietly m x w (thrown r v) e q =
    (record v { warnings = x ∷ v.warnings }, rw (attempt, e), q)

next-Quietly :
    (k : Exec (Unit {0})) (w : World) (o : Outcome (Unit {0}))
    → Quietly o w
    → ((v : World) → Quietly (k v) v)
    → Quietly (next o (λ _. k)) w
next-Quietly k w (done a v) q h = after (k v) (h v)
  where
    after : (o : Outcome (Unit {0})) → Quietly o v → Quietly o w
    after (done b u) p = p ∙ q
    after (thrown r u) p = p ∙ q
next-Quietly k w (thrown r v) q h = q

module _ (env : Env) where
  emit-Quietly : (room : Room) (event : Event) (w : World) → Quietly (emit env room event w) w
  unfolding emit
  emit-Quietly room event w = ground arith

  emit_to_customer-Quietly :
      (c : Option Uuid) (event : Event) (w : World) → Quietly (emit_to_customer env c event w) w
  unfolding emit_to_customer pure
  emit_to_customer-Quietly none event w = refl
  emit_to_customer-Quietly (some c) event w = emit-Quietly (customer_room c) event w

  emit_for_order-Quietly :
      (o : Option Order) (event : Event) (w : World) → Quietly (emit_for_order env o event w) w
  unfolding emit_for_order ◌>>=◌
  emit_for_order-Quietly none event w = refl
  emit_for_order-Quietly (some o) event w =
      next-Quietly (emit_to_customer env o.customer_id event) w
        (emit env (staff_room o.restaurant_id) event w)
        (emit-Quietly (staff_room o.restaurant_id) event w)
        (emit_to_customer-Quietly o.customer_id event)

  pub totals_notice :
      (i : Uuid) (p : TotalsChangedPayload) (w : World)
      → ReturnsQuietly (emit_realtime_event i (emit_totals_changed env p) w) w
  unfolding emit_realtime_event emit_totals_changed
  totals_notice i p w = attempt-Quietly (emit_totals_changed env p) (emit_failed i) w _ refl (
      emit_for_order-Quietly (env.orders.find_unique p.order_id w.orders) (order_totals_changed p)
        w)

  pub status_notice :
      (i : Uuid) (p : StatusChangedPayload) (w : World)
      → ReturnsQuietly (emit_realtime_event i (emit_status_changed env p) w) w
  unfolding emit_realtime_event emit_status_changed
  status_notice i p w = attempt-Quietly (emit_status_changed env p) (emit_failed i) w _ refl (
      emit_for_order-Quietly (env.orders.find_unique p.order_id w.orders) (order_status_changed p)
        w)

  pub table_notice :
      (i : Uuid) (p : TableStatusChangedPayload) (w : World)
      → ReturnsQuietly (emit_realtime_event i (emit_table_status_changed env p) w) w
  unfolding emit_realtime_event emit_table_status_changed
  table_notice i p w =
      attempt-Quietly (emit_table_status_changed env p) (emit_failed i) w _ refl
        (emit-Quietly (staff_room p.restaurant_id) (table_status_changed p) w)

-- After a notice the method goes on, in the same database.
pub Atomic-notice :
    {B : Type 0} (Q : B → World → Type 0) (m : Exec (Unit {0})) (k : Unit {0} → Exec B)
    (w v : World)
    → ReturnsQuietly (m v) v
    → ((u : World) → quiet u ≡ quiet v → Atomic Q w (k tt u))
    → Atomic Q w ((m >>= k) v)
unfolding ◌>>=◌
Atomic-notice Q m k w v (u, run, q) h = rw (◌>>=◌, run) (h u q)
