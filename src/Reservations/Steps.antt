-- ===== src/Reservations/Steps.antt =====
-- reservations/reservations.service.ts: a step of a reservation, and what `confirm` does.
use restosync_api.Base.{◌≡◌, refl, ap, sym, ◌∙◌, Bool, true, false, Option, none, some, List, ◌==◌}
use restosync_api.Schema.{
  Uuid, AuthUser, Reservation, ReservationType, ReservationStatus, Table, TableStatus,
  same_reservation_status,
}
use restosync_api.Prisma.Laws.{update_self, update_ne}
use restosync_api.World.{World, Exec, Env, IsPrisma, quiet, pure, transaction, ◌>>=◌}
use restosync_api.World.Atomic.{Atomic, Atomic-next, Atomic-map, Atomic-transaction}
use restosync_api.World.Reads.{Atomic-read, Atomic-gets, Atomic-test}
use restosync_api.World.Writes.{Atomic-pure, Atomic-update_last}
use restosync_api.World.Ensures.{
  Ensures, Ensures-bind, Ensures-gets, Ensures-update, Ensures-update_last, Ensures-done,
}
use restosync_api.Realtime.Quiet.{table_notice, Atomic-notice, ReturnsQuietly}
use restosync_api.Orders.Totals.{put_tables}
use restosync_api.Reservations.{
  put_reservations, set_table_status, set_reservation_status, deposit_confirmed, find_reservation,
  set_table, announce, commit_table, confirm_deposit, confirm_typed, confirm, held_table, give_up,
}
use restosync_api.Reservations.Reads.{find_reservation-Reads, find_reservation-eq}

-- A table has been given a status, and the other tables are as they were; no table, no change.
abbrev pub IsTableSet : Env → Option Uuid → TableStatus → List Table → List Table → Type 0
IsTableSet env none status before after = after ≡ before
IsTableSet env (some i) status before after =
    ((t : Table) × (env.tables.find_unique i before ≡ some t)
      × (env.tables.find_unique i after ≡ some (record t { status = status })))
    × ((j : Uuid)
        → (i == j) ≡ false
        → env.tables.find_unique j after ≡ env.tables.find_unique j before)

-- The table that a confirmation reserves: none for an informal reservation
abbrev pub table_to_reserve : ReservationType → Option Uuid → Option Uuid
table_to_reserve ReservationType.informal table = none
table_to_reserve t table = table

-- Reservation `i` has taken a step: it has a new status, other reservations are as they were, one
-- table at most has a new status, and nothing else in the database has changed.
pub record Steps (env : Env) (i : Uuid) (r : Reservation) (next_status : ReservationStatus)
    (table : Option Uuid) (table_status : TableStatus) (w v : World) : Type 0 where
  pub after : Reservation
  pub stored : env.reservations.find_unique i v.reservations ≡ some after
  pub moved : after.status ≡ next_status
  pub same_table : after.table_id ≡ r.table_id
  pub others :
      (j : Uuid)
      → (i == j) ≡ false
      → env.reservations.find_unique j v.reservations
        ≡ env.reservations.find_unique j w.reservations
  pub tables : IsTableSet env table table_status w.tables v.tables
  pub rest : quiet v ≡ quiet (record w { reservations = v.reservations; tables = v.tables })

module _ (env : Env) (db : IsPrisma env) where
  set_table-IsTableSet :
      (i : Option Uuid) (s : TableStatus) (w : World)
      → Ensures
          (λ _ v. IsTableSet env i s w.tables v.tables × (v ≡ record w { tables = v.tables }))
          (set_table env i s w)
  unfolding pure set_table_status
  set_table-IsTableSet none s w = (refl, refl)
  set_table-IsTableSet (some i) s w =
      Ensures-update _ env.tables (λ u. u.tables) put_tables i (set_table_status s) _ w
        λ t f. (
          (
            (t, f, update_self db.tables i (set_table_status s) w.tables t (λ y. refl) f),
            λ j ne. update_ne db.tables i j (set_table_status s) w.tables (λ y. refl) ne,
          ),
          refl,
        )

  -- The step, where the table has been set and the reservation is then updated
  stepped :
      (i : Uuid) (r : Reservation) (to : ReservationStatus) (table : Option Uuid) (s : TableStatus)
      (f : Reservation → Reservation) (w u v : World)
      → ((x : Reservation) → (f x).id ≡ x.id)
      → (f r).status ≡ to
      → (f r).table_id ≡ r.table_id
      → env.reservations.find_unique i w.reservations ≡ some r
      → IsTableSet env table s w.tables u.tables
      → u ≡ record w { tables = u.tables }
      → quiet v ≡ quiet (put_reservations (env.reservations.update i f u.reservations) u)
      → Steps env i r to table s w v
  stepped i r to table s f w u v keep moved same_table found set e q =
      let same : v.reservations ≡ env.reservations.update i f w.reservations =
        ap (λ (x : World). x.reservations) q
        ∙ ap (λ (x : World). env.reservations.update i f x.reservations) e in
      let tables : v.tables ≡ u.tables = ap (λ (x : World). x.tables) q in
      record {
        after = f r;
        stored = rw same (update_self db.reservations i f w.reservations r keep found);
        moved = moved;
        same_table = same_table;
        others = λ j ne. rw same (update_ne db.reservations i j f w.reservations keep ne);
        tables = rw tables set;
        rest =
            q
            ∙ ap (λ x. quiet (put_reservations (env.reservations.update i f u.reservations) x)) e
            ∙ λ k. quiet (record w {
              tables = sym tables k;
              reservations = sym (ap (λ (x : World). x.reservations) q) k;
            });
      }

  module _ (i : Uuid) (user : AuthUser) (w : World) where
    commit_table-Steps :
        (r : Reservation)
        → env.reservations.find_unique i w.reservations ≡ some r
        → Ensures
            (λ _ v. Steps env i r ReservationStatus.confirmed r.table_id TableStatus.reserved w v)
            (commit_table env r i user w)
    unfolding commit_table deposit_confirmed
    commit_table-Steps r found =
        Ensures-bind _ _ (set_table env r.table_id TableStatus.reserved) _ w
          (set_table-IsTableSet r.table_id TableStatus.reserved w)
          λ _ u (set, e). Ensures-gets _ _ _ u (
            Ensures-update_last _ env.reservations (λ x. x.reservations) put_reservations i
              (deposit_confirmed user.id u.now) u
              λ x.
                stepped i r ReservationStatus.confirmed r.table_id TableStatus.reserved
                  (deposit_confirmed user.id u.now) w u _ (λ y. refl) refl refl found set e refl)

    pub give_up-Steps :
        (r : Reservation) (to : ReservationStatus)
        → env.reservations.find_unique i w.reservations ≡ some r
        → Ensures
            (λ a v.
              Steps env i r to (held_table env r.table_id w) TableStatus.available w v
              × (a.0 ≡ held_table env r.table_id w)
              × (env.reservations.find_unique i v.reservations ≡ some (record r { status = to })))
            (give_up env r i to w)
    unfolding give_up set_reservation_status pure
    give_up-Steps r to found = Ensures-gets _ (held_table env r.table_id) _ w (
        Ensures-bind _ _ (set_table env (held_table env r.table_id w) TableStatus.available) _ w
          (set_table-IsTableSet (held_table env r.table_id w) TableStatus.available w)
          λ _ u (set, e).
            Ensures-update _ env.reservations (λ x. x.reservations) put_reservations i
              (set_reservation_status to) _ u
              λ x f. (
                stepped i r to (held_table env r.table_id w) TableStatus.available
                    (set_reservation_status to) w u _ (λ y. refl) refl refl found set e refl,
                refl,
                rw (ap (λ (y : World). y.reservations) e) (
                    update_self db.reservations i (set_reservation_status to) w.reservations r
                      (λ y. refl) found),
              ))

  -- A step goes on holding after a notice.
  pub Steps-quiet :
      (i : Uuid) (r : Reservation) (to : ReservationStatus) (t : Option Uuid) (s : TableStatus)
      (w u v : World)
      → quiet v ≡ quiet u
      → Steps env i r to t s w u
      → Steps env i r to t s w v
  Steps-quiet i r to t s w u v q h =
      let rows : v.reservations ≡ u.reservations = ap (λ (x : World). x.reservations) q in
      let tables : v.tables ≡ u.tables = ap (λ (x : World). x.tables) q in
      record {
        after = h.after;
        stored = rw rows h.stored;
        moved = h.moved;
        same_table = h.same_table;
        others = λ j ne. rw rows (h.others j ne);
        tables = rw tables h.tables;
        rest =
            q ∙ h.rest ∙ λ k. quiet (record w { tables = sym tables k; reservations = sym rows k });
      }

  pub announce-returns :
      (t : Option Uuid) (r : Uuid) (s : TableStatus) (z : Option Uuid) (w : World)
      → ReturnsQuietly (announce env t r s z w) w
  unfolding pure
  announce-returns none r s z w = (w, refl, refl)
  announce-returns (some t) r s z w = table_notice env t _ w

  pub after_transaction :
      {A B : Type 0} (R : A → World → Type 0) (Q : B → World → Type 0) (m : Exec A) (k : A → Exec B)
      (w : World)
      → Ensures R (m w)
      → ((a : A) (u : World) → R a u → Atomic Q w (k a u))
      → Atomic Q w ((transaction m >>= k) w)
  unfolding ◌>>=◌
  after_transaction R Q m k w h f =
      Atomic-next R Q w _ k (Atomic-transaction R m w λ a v e. Ensures-done R _ a v h e) f

-- What a step that returned has started from and done
pub record Takes (env : Env) (i : Uuid) (user : AuthUser) (allowed : ReservationStatus → Bool)
    (next_status : ReservationStatus) (table : Reservation → Option Uuid)
    (table_status : TableStatus) (w v : World) : Type 0 where
  pub before : Reservation
  pub found : env.reservations.find_unique i w.reservations ≡ some before
  pub own : before.restaurant_id ≡ user.restaurant_id
  pub may : allowed before.status ≡ true
  pub step : Steps env i before next_status (table before) table_status w v

-- What `confirm` does
abbrev pub Confirms : Env → Uuid → AuthUser → World → World → Type 0
Confirms env i user w v =
    Takes env i user (λ s. same_reservation_status s ReservationStatus.pending)
      ReservationStatus.confirmed (λ r. table_to_reserve r.reservation_type r.table_id)
      TableStatus.reserved w v

module _ (env : Env) (db : IsPrisma env) (i : Uuid) (user : AuthUser) (w : World) where
  confirm_deposit-Steps :
      (r : Reservation)
      → env.reservations.find_unique i w.reservations ≡ some r
      → Atomic
          (λ _ v. Steps env i r ReservationStatus.confirmed r.table_id TableStatus.reserved w v)
          w
          (confirm_deposit env r i user w)
  unfolding confirm_deposit
  confirm_deposit-Steps r found = Atomic-gets _ _ _ w w (
      after_transaction env db
        (λ _ v. Steps env i r ReservationStatus.confirmed r.table_id TableStatus.reserved w v) _
        (commit_table env r i user) _ w (commit_table-Steps env db i user w r found)
        λ a u h.
          Atomic-notice _ (announce env r.table_id r.restaurant_id TableStatus.reserved _) _ w u
            (announce-returns env db r.table_id r.restaurant_id TableStatus.reserved _ u)
            λ v q. Atomic-pure _ a w v (Steps-quiet env db i r _ _ _ w u v q h))

  confirm_typed-Steps :
      (t : ReservationType) (r : Reservation)
      → env.reservations.find_unique i w.reservations ≡ some r
      → Atomic
          (λ _ v.
            Steps env i r ReservationStatus.confirmed
              (table_to_reserve t r.table_id)
              TableStatus.reserved
              w
              v)
          w
          (confirm_typed env t r i user w)
  unfolding confirm_typed set_reservation_status
  confirm_typed-Steps ReservationType.informal r found =
      Atomic-update_last _ env.reservations (λ x. x.reservations) put_reservations i
        (set_reservation_status ReservationStatus.confirmed) w w r found
        (stepped env db i r ReservationStatus.confirmed none TableStatus.reserved
          (set_reservation_status ReservationStatus.confirmed) w w _ (λ y. refl) refl refl found
          refl refl refl)
  confirm_typed-Steps ReservationType.with_preorder r found = confirm_deposit-Steps r found
  confirm_typed-Steps ReservationType.deposit_only r found = confirm_deposit-Steps r found

  -- In a database that keeps Prisma's laws, `confirm` returns, or throws and leaves the state
  -- as it was. If it returns, the reservation was there, in the user's restaurant and PENDING;
  -- it is now CONFIRMED, its table, if it has one and the reservation is not informal, is
  -- RESERVED, other reservations and tables are as they were, and nothing else in the database
  -- has changed.
  pub confirm-Confirms : Atomic (λ _ v. Confirms env i user w v) w (confirm env i user w)
  unfolding confirm
  confirm-Confirms =
      Atomic-read _ (find_reservation env i user) _ w (find_reservation-Reads env i user) λ r e.
        let (found, own) = find_reservation-eq env i user w r e in
        Atomic-test _ _ _ _ w λ may.
          Atomic-map _ (λ _ v. Confirms env i user w v) w _
            (confirm_typed-Steps r.reservation_type r found)
            λ _ v h. record { before = r; found = found; own = own; may = may; step = h }
