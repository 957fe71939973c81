-- ===== src/Reservations/Reads.antt =====
-- Finding a reservation only reads, and what is found.
use restosync_api.Base.{◌≡◌, Option, none, some, arith}
use restosync_api.Schema.{Uuid, AuthUser, Reservation}
use restosync_api.World.{World, done, Env, ◌>>=◌}
use restosync_api.World.Reads.{Reads, reads}
use restosync_api.Reservations.{reservation_in_restaurant, find_reservation}

reservation_in_restaurant-Reads :
    (x : Option Reservation) (r : Uuid) → Reads (reservation_in_restaurant x r)
unfolding reservation_in_restaurant
reservation_in_restaurant-Reads none r = search reads
reservation_in_restaurant-Reads (some x) r = search reads

module _ (env : Env) (i : Uuid) (user : AuthUser) where
  pub find_reservation-Reads : Reads (find_reservation env i user)
  unfolding find_reservation
  find_reservation-Reads = search (reads, reservation_in_restaurant-Reads)

  pub find_reservation-eq :
      (w : World) (r : Reservation)
      → find_reservation env i user w ≡ done r w
      → (env.reservations.find_unique i w.reservations ≡ some r)
        × (r.restaurant_id ≡ user.restaurant_id)
  unfolding find_reservation reservation_in_restaurant ◌>>=◌
  find_reservation-eq w r h = ground arith
