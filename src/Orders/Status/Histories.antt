-- ===== src/Orders/Status/Histories.antt =====
-- orders/order-status.ts: the histories of an order's status.
use restosync_api.Base.{suc, ◌+◌, ◌≤◌, ◌≡◌, ◌≢◌, true, arith}
use restosync_api.Schema.{OrderStatus}
use restosync_api.Orders.Status.{
  can_transition, History, start, change, changes, has_been_prepared, steps_left,
}

one_step_less :
    (s t : OrderStatus)
    → can_transition s t ≡ true
    → t ≢ OrderStatus.cancelled
    → suc (steps_left t) ≡ steps_left s
unfolding can_transition
one_step_less s t h n = ground arith

less_steps : (s t : OrderStatus) → can_transition s t ≡ true → suc (steps_left t) ≤ steps_left s
unfolding can_transition
less_steps s t h = ground arith

never_from_cancelled : (s t : OrderStatus) → can_transition s t ≡ true → s ≢ OrderStatus.cancelled
unfolding can_transition
never_from_cancelled s t h = ground arith

still_prepared :
    (s t : OrderStatus)
    → can_transition s t ≡ true
    → has_been_prepared s ≡ true
    → has_been_prepared t ≡ true
unfolding can_transition
still_prepared s t h p = ground arith

history_bound : {s t : OrderStatus} (h : History s t) → changes h + steps_left t ≤ steps_left s
unfolding changes
history_bound start = omega arith
history_bound (change h e) =
    let before = history_bound h in let less = less_steps _ _ e in omega arith

history_exact :
    {s t : OrderStatus} (h : History s t)
    → t ≢ OrderStatus.cancelled
    → changes h + steps_left t ≡ steps_left s
unfolding changes
history_exact start n = omega arith
history_exact (change h e) n =
    let before = history_exact h (never_from_cancelled _ _ e) in
    let one = one_step_less _ _ e n in omega arith

-- A history of allowed status changes is not longer than what its first status leaves (five from
-- DRAFT), and one that does not end in CANCELLED skips no status: it has just the changes between
-- its two ends.
pub History-changes :
    {s t : OrderStatus} (h : History s t)
    → (changes h + steps_left t ≤ steps_left s)
      × (t ≢ OrderStatus.cancelled → changes h + steps_left t ≡ steps_left s)
History-changes h = (history_bound h, history_exact h)

-- An order that is READY or COMPLETED is READY or COMPLETED after any history of allowed status
-- changes; it can no longer be cancelled.
pub History-has_been_prepared :
    {s t : OrderStatus} → History s t → has_been_prepared s ≡ true → has_been_prepared t ≡ true
History-has_been_prepared start p = p
History-has_been_prepared (change h e) p = still_prepared _ _ e (History-has_been_prepared h p)
