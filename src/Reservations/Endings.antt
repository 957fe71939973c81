-- ===== src/Reservations/Endings.antt =====
-- reservations/reservations.service.ts: what `terminate` does, for a no-show or a cancellation.
use restosync_api.Base.{
  ◌≡◌, ◌≢◌, refl, ap, ◌∙◌, true, false, Option, none, some, ◌⊎◌, inl, inr, arith,
}
use restosync_api.Schema.{Uuid, AuthUser, Reservation, ReservationStatus, Table, TableStatus}
use restosync_api.World.{World, Env, IsPrisma}
use restosync_api.World.Atomic.{Atomic}
use restosync_api.World.Reads.{Atomic-read, Atomic-gets, Atomic-test}
use restosync_api.World.Writes.{Atomic-pure}
use restosync_api.Realtime.Quiet.{Atomic-notice}
use restosync_api.Reservations.{
  is_terminable, find_reservation, announce, is_reserved, held_table, give_up, terminate,
}
use restosync_api.Reservations.Reads.{find_reservation-Reads, find_reservation-eq}
use restosync_api.Reservations.Steps.{
  Steps, give_up-Steps, Steps-quiet, announce-returns, after_transaction,
}

-- The table that a reservation gives back: its own, if that is RESERVED, and otherwise none
abbrev pub Releases : Env → Option Uuid → World → Option Uuid → Type 0
Releases env table_id w released =
    ((j : Uuid) × (t : Table) × (table_id ≡ some j)
      × (env.tables.find_unique j w.tables ≡ some t)
      × (t.status ≡ TableStatus.reserved)
      × (released ≡ some j))
    ⊎ ((released ≡ none)
        × ((j : Uuid) (t : Table)
            → table_id ≡ some j
            → env.tables.find_unique j w.tables ≡ some t
            → t.status ≢ TableStatus.reserved))

-- What `terminate` does: the reservation was open, and its table is AVAILABLE if it was RESERVED.
pub record Ends (env : Env) (i : Uuid) (to : ReservationStatus) (user : AuthUser) (w v : World)
    : Type 0 where
  pub before : Reservation
  pub found : env.reservations.find_unique i w.reservations ≡ some before
  pub own : before.restaurant_id ≡ user.restaurant_id
  pub may :
      (before.status ≡ ReservationStatus.pending) ⊎ (before.status ≡ ReservationStatus.confirmed)
  pub released : Option Uuid
  pub releases : Releases env before.table_id w released
  pub kept : env.reservations.find_unique i v.reservations ≡ some (record before { status = to })
  pub step : Steps env i before to released TableStatus.available w v

is_terminable-cases :
    (s : ReservationStatus)
    → is_terminable s ≡ true
    → (s ≡ ReservationStatus.pending) ⊎ (s ≡ ReservationStatus.confirmed)
unfolding is_terminable
is_terminable-cases ReservationStatus.pending h = inl refl
is_terminable-cases ReservationStatus.confirmed h = inr refl
is_terminable-cases ReservationStatus.seated h = cc
is_terminable-cases ReservationStatus.no_show h = cc
is_terminable-cases ReservationStatus.cancelled h = cc

is_reserved-status :
    (x : Option Table)
    → ((t : Table) × (x ≡ some t) × (t.status ≡ TableStatus.reserved) × (is_reserved x ≡ true))
      ⊎ (((t : Table) → x ≡ some t → t.status ≢ TableStatus.reserved) × (is_reserved x ≡ false))
is_reserved-status none = inr (λ t e. cc, refl)
is_reserved-status (some t) = by_status t t.status refl
  where
    by_status :
        (t : Table) (s : TableStatus)
        → t.status ≡ s
        → ((u : Table) × (some t ≡ some u)
            × (u.status ≡ TableStatus.reserved)
            × (is_reserved (some t) ≡ true))
          ⊎ (((u : Table) → some t ≡ some u → u.status ≢ TableStatus.reserved)
              × (is_reserved (some t) ≡ false))
    by_status t TableStatus.available h = inr (λ u e same. ground arith, ground arith)
    by_status t TableStatus.reserved h = inl (t, refl, h, ground arith)
    by_status t TableStatus.occupied h = inr (λ u e same. ground arith, ground arith)

held_table-Releases :
    (env : Env) (table_id : Option Uuid) (w : World)
    → Releases env table_id w (held_table env table_id w)
unfolding held_table
held_table-Releases env none w = inr (refl, λ j t e f. cc)
held_table-Releases env (some j) w = elim (is_reserved-status (env.tables.find_unique j w.tables)) [
  | inl (t, found, reserved, test) ↦ inl (j, t, refl, found, reserved, rw test refl)
  | inr (not_reserved, test) ↦ inr (
    rw test refl,
    λ k t e f. not_reserved t (ap (λ i. env.tables.find_unique i w.tables) (cc) ∙ f),
  )
]

module _ (env : Env) (db : IsPrisma env) (i : Uuid) (user : AuthUser) (w : World) where
  -- In a database that keeps Prisma's laws, a no-show or a cancellation returns, or throws and
  -- leaves the state as it was. If it returns, the reservation was there, in the user's
  -- restaurant and PENDING or CONFIRMED; it has the given status and is otherwise as it was,
  -- its table, if that was RESERVED, is AVAILABLE and is otherwise as it was, other
  -- reservations and tables are as they were, and nothing else in the database has changed.
  pub terminate-Ends :
      (to : ReservationStatus)
      → Atomic (λ _ v. Ends env i to user w v) w (terminate env i to user w)
  unfolding terminate
  terminate-Ends to =
      Atomic-read _ (find_reservation env i user) _ w (find_reservation-Reads env i user) λ r e.
        let (found, own) = find_reservation-eq env i user w r e in
        Atomic-test _ _ _ _ w λ may. Atomic-gets _ _ _ w w (
          after_transaction env db _ _ (give_up env r i to) _ w
            (give_up-Steps env db i user w r to found)
            λ a u (h, same, kept).
              Atomic-notice _ (announce env a.0 r.restaurant_id TableStatus.available _) _ w u
                (announce-returns env db a.0 r.restaurant_id TableStatus.available _ u)
                λ v q.
                  Atomic-pure (λ _ v. Ends env i to user w v) a.1 w v
                    (record {
                      before = r;
                      found = found;
                      own = own;
                      may = is_terminable-cases r.status may;
                      released = held_table env r.table_id w;
                      releases = held_table-Releases env r.table_id w;
                      kept =
                          ap (λ (y : World). env.reservations.find_unique i y.reservations) q
                          ∙ kept;
                      step = Steps-quiet env db i r _ _ _ w u v q h;
                    }))
