-- ===== src/Tests/Bookings.antt =====
-- The theorems on reservations at the small restaurant, and runs of the operations.
use restosync_api.Base.{◌≡◌, refl, none, some, List, [], ◌∷◌}
use restosync_api.Base.Int.{pos}
use restosync_api.Schema.{Reservation, ReservationType, ReservationStatus, Table, TableStatus}
use restosync_api.World.{World, Outcome, done, thrown}
use restosync_api.World.Atomic.{Atomic}
use restosync_api.Reservations.{confirm, terminate}
use restosync_api.Reservations.Steps.{Confirms, confirm-Confirms}
use restosync_api.Reservations.Endings.{Ends, terminate-Ends}
use restosync_api.Tests.Code.{code}
use restosync_api.Tests.{env, env-IsPrisma, ana, spare_table, window_table, world}

abbrev booking : Reservation
booking = record {
  id = 81;
  customer_name = "Rosa";
  customer_phone = "555";
  customer_email = none;
  party_size = 4;
  reserved_for = 5000;
  tolerance_minutes = 20;
  allergies = none;
  special_occasion = none;
  reservation_type = ReservationType.deposit_only;
  table_id = some 6;
  order_id = none;
  deposit_cents = pos 1000;
  deposit_confirmed_by = none;
  deposit_confirmed_at = none;
  status = ReservationStatus.pending;
  created_by = 3;
  restaurant_id = 1;
}

abbrev booked : World
booked = record world { reservations = booking ∷ [] }

-- The statuses of the tables that an outcome leaves
abbrev statuses : List Table → List TableStatus
statuses [] = []
statuses (t ∷ rest) = t.status ∷ statuses rest

abbrev tables_after : Outcome Reservation → List TableStatus
tables_after (done r w) = statuses w.tables
tables_after (thrown e w) = []

confirm_run :
    tables_after (confirm env 81 ana booked) ≡ TableStatus.occupied ∷ TableStatus.reserved ∷ []
unfolding code
confirm_run = refl

confirm-Confirms_example :
    Atomic (λ _ v. Confirms env 81 ana booked v) booked (confirm env 81 ana booked)
confirm-Confirms_example = confirm-Confirms env env-IsPrisma 81 ana booked

abbrev held : World
held = record world {
  reservations = record booking { status = ReservationStatus.confirmed } ∷ [];
  tables = window_table ∷ record spare_table { status = TableStatus.reserved } ∷ [];
}

terminate_run :
    tables_after (terminate env 81 ReservationStatus.cancelled ana held)
    ≡ TableStatus.occupied ∷ TableStatus.available ∷ []
unfolding code
terminate_run = refl

terminate-Ends_example :
    Atomic
      (λ _ v. Ends env 81 ReservationStatus.cancelled ana held v)
      held
      (terminate env 81 ReservationStatus.cancelled ana held)
terminate-Ends_example = terminate-Ends env env-IsPrisma 81 ana held ReservationStatus.cancelled
