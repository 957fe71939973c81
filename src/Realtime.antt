-- ===== src/Realtime.antt =====
-- realtime/realtime.gateway.ts: which room receives which event, and the best-effort wrapper
-- `emitRealtimeEvent` of the services (orders/orders.service.ts, payments/payments.service.ts and
-- reservations/reservations.service.ts). The socket server is a parameter.
pub mod Quiet
use restosync_api.Base.{true, false, Option, none, some, ◌∷◌}
use restosync_api.Schema.{Uuid, Order}
use restosync_api.World.{
  Room, staff_room, customer_room, Event, order_status_changed, order_totals_changed,
  table_status_changed, StatusChangedPayload, TotalsChangedPayload, TableStatusChangedPayload,
  socket_error, emit_failed, done, thrown, Exec, attempt, pure, Env, ◌>>◌,
}

module _ (env : Env) where
  -- `this.server.to(room).emit(name, payload)`
  unfoldable pub emit : Room → Event → Exec (Unit {0})
  emit room event w = elim (env.delivers room event) [
    | true ↦ done tt (record w { sent = (room, event) ∷ w.sent })
    | false ↦ thrown socket_error w
  ]

  unfoldable pub emit_to_customer : Option Uuid → Event → Exec (Unit {0})
  unfolding emit
  emit_to_customer none event = pure tt
  emit_to_customer (some customer_id) event = emit (customer_room customer_id) event

  -- The common body of `emitStatusChanged` and `emitTotalsChanged`.
  unfoldable pub emit_for_order : Option Order → Event → Exec (Unit {0})
  unfolding emit emit_to_customer
  emit_for_order none event = pure tt
  emit_for_order (some order) event = do
    emit (staff_room order.restaurant_id) event
    emit_to_customer order.customer_id event

  unfoldable pub emit_status_changed : StatusChangedPayload → Exec (Unit {0})
  unfolding emit_for_order
  emit_status_changed payload w =
      emit_for_order (env.orders.find_unique payload.order_id w.orders)
        (order_status_changed payload) w

  unfoldable pub emit_totals_changed : TotalsChangedPayload → Exec (Unit {0})
  unfolding emit_for_order
  emit_totals_changed payload w =
      emit_for_order (env.orders.find_unique payload.order_id w.orders)
        (order_totals_changed payload) w

  unfoldable pub emit_table_status_changed : TableStatusChangedPayload → Exec (Unit {0})
  unfolding emit
  emit_table_status_changed payload =
      emit (staff_room payload.restaurant_id) (table_status_changed payload)

-- `emitRealtimeEvent`: a failure to emit leaves a warning and nothing else.
unfoldable pub emit_realtime_event : Uuid → Exec (Unit {0}) → Exec (Unit {0})
emit_realtime_event subject_id emit_it = attempt emit_it (emit_failed subject_id)
