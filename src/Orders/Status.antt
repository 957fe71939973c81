-- ===== src/Orders/Status.antt =====
-- orders/order-status.ts: which status may follow which.
pub mod Histories
use restosync_api.Base.{ℕ, suc, ◌<◌, ◌≡◌, Bool, true, false, ◌||◌, List, [], ◌∷◌, arith}
use restosync_api.Schema.{OrderStatus, same_order_status}

-- ORDER_STATUS_TRANSITIONS
unfoldable pub transitions : OrderStatus → List OrderStatus
transitions OrderStatus.draft = OrderStatus.pending ∷ OrderStatus.cancelled ∷ []
transitions OrderStatus.pending = OrderStatus.confirmed ∷ OrderStatus.cancelled ∷ []
transitions OrderStatus.confirmed = OrderStatus.preparing ∷ OrderStatus.cancelled ∷ []
transitions OrderStatus.preparing = OrderStatus.ready ∷ OrderStatus.cancelled ∷ []
transitions OrderStatus.ready = OrderStatus.completed ∷ []
transitions OrderStatus.completed = []
transitions OrderStatus.cancelled = []

-- `statuses.includes(status)`
unfoldable pub includes_status : List OrderStatus → OrderStatus → Bool
includes_status [] status = false
includes_status (s ∷ rest) status = same_order_status s status || includes_status rest status

unfoldable pub can_transition : OrderStatus → OrderStatus → Bool
unfolding transitions includes_status
can_transition from to = includes_status (transitions from) to

-- A history of changes that the test lets through, from one status to another.
pub data History (from : OrderStatus) : OrderStatus → Type 0 where
  start : History from from
  change : {s t : OrderStatus} → History from s → can_transition s t ≡ true → History from t

-- The number of changes in a history
unfoldable pub changes : {s t : OrderStatus} → History s t → ℕ
changes start = 0
changes (change h e) = suc (changes h)

abbrev pub has_been_prepared : OrderStatus → Bool
has_been_prepared OrderStatus.ready = true
has_been_prepared OrderStatus.completed = true
has_been_prepared s = false

-- The changes that are left at most
abbrev pub steps_left : OrderStatus → ℕ
steps_left OrderStatus.draft = 5
steps_left OrderStatus.pending = 4
steps_left OrderStatus.confirmed = 3
steps_left OrderStatus.preparing = 2
steps_left OrderStatus.ready = 1
steps_left s = 0
