-- ===== src/Reservations.antt =====
-- reservations/reservations.service.ts: a reservation is created PENDING, confirmed (which reserves
-- its table), and then seated, or ends as a no-show or cancelled.
pub mod Reads
pub mod Steps
pub mod Endings
use restosync_api.Base.{
  ℕ, ◌/◌, Bool, true, false, not, ◌&&◌, ◌||◌, Option, none, some, List, [], ◌∷◌, String, ◌==◌,
  if◌then◌else◌,
}
use restosync_api.Base.Int.{ℤ, pos, negsuc, ltb_ℤ, ◌*ℤ◌, sum_by}
use restosync_api.Schema.{
  Uuid, AuthUser, Reservation, ReservationType, ReservationStatus, Table, TableStatus, Order,
  OrderItem, OrderType, DiscountType, same_reservation_status, same_table_status,
}
use restosync_api.World.{
  World, Exec, Env, table_not_found, table_not_available, informal_has_table_or_items,
  deposit_only_has_items, reservation_not_found, reservation_not_pending, reservation_not_confirmed,
  reservation_incomplete, reservation_without_table, table_required, reservation_not_terminable,
  pure, throw, gets, guard, or_throw, transaction, create_row, update_or_throw, ◌>>=◌, ◌>>◌,
}
use restosync_api.Realtime.{emit_realtime_event, emit_table_status_changed}
use restosync_api.Orders.Totals.{OrderWithItems, put_orders, put_tables, include_items}
use restosync_api.Orders.Creation.{OrderLineDto, CreateOrderDto, find_table, create as create_order}
use restosync_api.Orders.Editing.{ApplyDiscountDto, apply_discount}

-- dto/create-reservation.dto.ts
pub record CreateReservationDto : Type 0 where
  pub customer_name : String
  pub customer_phone : String
  pub customer_email : Option String
  pub party_size : ℕ
  pub reserved_for : String
  pub tolerance_minutes : Option ℕ
  pub allergies : Option String
  pub special_occasion : Option String
  pub reservation_type : ReservationType
  pub table_id : Option Uuid
  pub items : Option (List OrderLineDto)

-- dto/seat-reservation.dto.ts
pub record SeatReservationDto : Type 0 where
  pub table_id : Option Uuid

abbrev pub put_reservations : List Reservation → World → World
put_reservations rows w = record w { reservations = rows }

abbrev pub is_given {ℓ} : {A : Type ℓ} → Option A → Bool
is_given none = false
is_given (some a) = true

-- TERMINABLE_STATUSES
unfoldable pub is_terminable : ReservationStatus → Bool
is_terminable ReservationStatus.pending = true
is_terminable ReservationStatus.confirmed = true
is_terminable s = false

-- DEFAULT_TOLERANCE_BY_TYPE
unfoldable pub default_tolerance : ReservationType → ℕ
default_tolerance ReservationType.informal = 10
default_tolerance ReservationType.deposit_only = 20
default_tolerance ReservationType.with_preorder = 30

abbrev pub tolerance_or : Option ℕ → ℕ → ℕ
tolerance_or none minutes = minutes
tolerance_or (some given) minutes = given

-- `dto.items`, which the DTO's validation requires of a pre-order
abbrev pub lines_of : Option (List OrderLineDto) → List OrderLineDto
lines_of none = []
lines_of (some lines) = lines

-- `Math.floor(cents / 2)`
unfoldable pub half : ℤ → ℤ
half (pos n) = pos (n / 2)
half (negsuc n) = negsuc (n / 2)

abbrev pub set_table_status : TableStatus → Table → Table
set_table_status status t = record t { status = status }

unfoldable pub set_reservation_status : ReservationStatus → Reservation → Reservation
set_reservation_status status r = record r { status = status }

unfoldable pub deposit_confirmed : Uuid → ℕ → Reservation → Reservation
deposit_confirmed user_id now r = record r {
  status = ReservationStatus.confirmed;
  deposit_confirmed_by = some user_id;
  deposit_confirmed_at = some now;
}

-- `table?.status === RESERVED`
abbrev pub is_reserved : Option Table → Bool
is_reserved none = false
is_reserved (some t) = same_table_status t.status TableStatus.reserved

-- `items.reduce((sum, item) => sum + item.priceCents * item.quantity, 0)`
unfoldable pub base_subtotal : List OrderItem → ℤ
base_subtotal items = sum_by (λ (x : OrderItem). x.price_cents *ℤ pos x.quantity) (pos 0) items

unfoldable pub reservation_in_restaurant : Option Reservation → Uuid → Exec Reservation
reservation_in_restaurant none restaurant_id = throw reservation_not_found
reservation_in_restaurant (some r) restaurant_id =
    guard (r.restaurant_id == restaurant_id) reservation_not_found >> pure r

abbrev zone_of : Option Table → Option Uuid
zone_of none = none
zone_of (some t) = t.zone_id

module _ (env : Env) where
  -- The row of `prisma.reservation.create`, over `baseReservationData`
  unfoldable pub reservation_row :
      CreateReservationDto → AuthUser → Option Uuid → Option Uuid → ℤ → Uuid → Reservation
  reservation_row dto user table_id order_id deposit id = record {
    id = id;
    customer_name = dto.customer_name;
    customer_phone = dto.customer_phone;
    customer_email = dto.customer_email;
    party_size = dto.party_size;
    reserved_for = env.local_to_utc dto.reserved_for;
    tolerance_minutes = tolerance_or dto.tolerance_minutes (default_tolerance dto.reservation_type);
    allergies = dto.allergies;
    special_occasion = dto.special_occasion;
    reservation_type = dto.reservation_type;
    table_id = table_id;
    order_id = order_id;
    deposit_cents = deposit;
    deposit_confirmed_by = none;
    deposit_confirmed_at = none;
    status = ReservationStatus.pending;
    created_by = user.id;
    restaurant_id = user.restaurant_id;
  }

  abbrev store : (Uuid → Reservation) → Exec Reservation
  store row = create_row env.reservations (λ w. w.reservations) put_reservations row

  -- The table that a reservation with a deposit asks for
  unfoldable pub free_table : Option Uuid → Uuid → Exec Table
  free_table table_id restaurant_id = do
    found ← gets (find_table env table_id restaurant_id)
    table ← or_throw found table_not_found
    guard (same_table_status table.status TableStatus.available) table_not_available
    pure table

  unfoldable pub create : CreateReservationDto → AuthUser → Exec Reservation
  create dto user = elim dto.reservation_type [
    | ReservationType.informal ↦ do
      guard (not (is_given dto.table_id || is_given dto.items)) informal_has_table_or_items
      store (reservation_row dto user none none (pos 0))
    | ReservationType.with_preorder ↦ do
      table ← free_table dto.table_id user.restaurant_id
      order ←
          create_order env
            (record {
              type = OrderType.takeaway;
              table_id = none;
              items = lines_of dto.items;
              notes = none;
            })
            user.restaurant_id none
      store (reservation_row dto user dto.table_id (some order.id) (half order.total_cents))
    | ReservationType.deposit_only ↦ do
      table ← free_table dto.table_id user.restaurant_id
      guard (not (is_given dto.items)) deposit_only_has_items
      store (reservation_row dto user dto.table_id none env.deposit_cents)
  ]

  unfoldable pub find_reservation : Uuid → AuthUser → Exec Reservation
  find_reservation id user = do
    reservation ← gets (λ w. env.reservations.find_unique id w.reservations)
    reservation_in_restaurant reservation user.restaurant_id

  -- `include: { table: { select: { zoneId: true } } }`
  abbrev zone_of_table : Option Uuid → World → Option Uuid
  zone_of_table none w = none
  zone_of_table (some id) w = zone_of (env.tables.find_unique id w.tables)

  abbrev update_reservation : Uuid → (Reservation → Reservation) → Exec Reservation
  update_reservation id change =
      update_or_throw env.reservations (λ w. w.reservations) put_reservations id change

  abbrev set_table : Option Uuid → TableStatus → Exec (Unit {0})
  set_table none status = pure tt
  set_table (some id) status = do
    updated ← update_or_throw env.tables (λ w. w.tables) put_tables id (set_table_status status)
    pure tt

  abbrev announce : Option Uuid → Uuid → TableStatus → Option Uuid → Exec (Unit {0})
  announce none restaurant_id status zone_id = pure tt
  announce (some id) restaurant_id status zone_id = emit_realtime_event id (
      emit_table_status_changed env (record {
        table_id = id;
        restaurant_id = restaurant_id;
        status = status;
        zone_id = zone_id;
      }))

  -- The body of the `$transaction` of `confirm`
  unfoldable pub commit_table : Reservation → Uuid → AuthUser → Exec Reservation
  commit_table r id user = do
    set_table r.table_id TableStatus.reserved
    now ← gets (λ w. w.now)
    update_reservation id (deposit_confirmed user.id now)

  unfoldable pub confirm_deposit : Reservation → Uuid → AuthUser → Exec Reservation
  confirm_deposit r id user = do
    zone_id ← gets (zone_of_table r.table_id)
    updated ← transaction (commit_table r id user)
    announce r.table_id r.restaurant_id TableStatus.reserved zone_id
    pure updated

  -- What is left of `confirm` for each type: only an informal reservation commits no table.
  unfoldable pub confirm_typed : ReservationType → Reservation → Uuid → AuthUser → Exec Reservation
  confirm_typed ReservationType.informal r id user =
      update_reservation id (set_reservation_status ReservationStatus.confirmed)
  confirm_typed t r id user = confirm_deposit r id user

  unfoldable pub confirm : Uuid → AuthUser → Exec Reservation
  confirm id user = do
    r ← find_reservation id user
    guard (same_reservation_status r.status ReservationStatus.pending) reservation_not_pending
    confirm_typed r.reservation_type r id user

  -- The `$transaction` of `seatWithPreorder`
  unfoldable pub seat_party : Reservation → Uuid → Uuid → Exec OrderWithItems
  seat_party r order_id table_id = do
    set_table (some table_id) TableStatus.occupied
    seated ← update_reservation r.id (set_reservation_status ReservationStatus.seated)
    order ←
        update_or_throw env.orders (λ w. w.orders) put_orders order_id
          (λ o. record o { table_id = some table_id })
    gets (include_items env order)

  unfoldable pub seat_with_preorder : Reservation → Exec OrderWithItems
  seat_with_preorder r = do
    order_id ← or_throw r.order_id reservation_incomplete
    table_id ← or_throw r.table_id reservation_incomplete
    zone_id ← gets (zone_of_table r.table_id)
    order ← transaction (seat_party r order_id table_id)
    announce (some table_id) r.restaurant_id TableStatus.occupied zone_id
    pure order

  -- The order of a table that its guests sit down at: without items so far
  abbrev open_order : Uuid → Uuid → Exec OrderWithItems
  open_order table_id restaurant_id =
      create_order env
        (record { type = OrderType.dine_in; table_id = some table_id; items = []; notes = none })
        restaurant_id none

  -- The end of `seatDepositOnly`: the deposit is taken off an order that has something to pay.
  unfoldable pub apply_deposit : Reservation → OrderWithItems → AuthUser → Exec OrderWithItems
  apply_deposit r order user =
      if ltb_ℤ (pos 0) r.deposit_cents && ltb_ℤ (pos 0) (base_subtotal order.items)
      then apply_discount env order.id
          (record {
            discount_type = DiscountType.fixed;
            discount_cents = some r.deposit_cents;
            discount_percent = none;
            reason = some "Reservation deposit applied";
          })
          user
      else pure order

  unfoldable pub seat_deposit_only : Reservation → AuthUser → Exec OrderWithItems
  seat_deposit_only r user = do
    table_id ← or_throw r.table_id reservation_without_table
    order ← open_order table_id user.restaurant_id
    seated ←
        update_reservation r.id
          (λ x. record x { order_id = some order.id; status = ReservationStatus.seated })
    apply_deposit r order user

  unfoldable pub seat_informal : Reservation → SeatReservationDto → AuthUser → Exec OrderWithItems
  seat_informal r dto user = do
    table_id ← or_throw dto.table_id table_required
    order ← open_order table_id user.restaurant_id
    seated ← update_reservation r.id (λ x. record x {
      table_id = some table_id;
      order_id = some order.id;
      status = ReservationStatus.seated;
    })
    pure order

  unfoldable pub seat : Uuid → SeatReservationDto → AuthUser → Exec OrderWithItems
  seat id dto user = do
    r ← find_reservation id user
    guard (same_reservation_status r.status ReservationStatus.confirmed) reservation_not_confirmed
    elim r.reservation_type [
      | ReservationType.with_preorder ↦ seat_with_preorder r
      | ReservationType.deposit_only ↦ seat_deposit_only r user
      | ReservationType.informal ↦ seat_informal r dto user
    ]

  -- The table of a reservation, if it is RESERVED
  unfoldable pub held_table : Option Uuid → World → Option Uuid
  held_table none w = none
  held_table (some id) w =
      if is_reserved (env.tables.find_unique id w.tables) then some id else none

  -- The body of the `$transaction` of `terminate`: the table that it releases, and the row
  unfoldable pub give_up : Reservation → Uuid → ReservationStatus → Exec (Option Uuid × Reservation)
  give_up r id next_status = do
    released ← gets (held_table r.table_id)
    set_table released TableStatus.available
    updated ← update_reservation id (set_reservation_status next_status)
    pure (released, updated)

  unfoldable pub terminate : Uuid → ReservationStatus → AuthUser → Exec Reservation
  terminate id next_status user = do
    r ← find_reservation id user
    guard (is_terminable r.status) reservation_not_terminable
    zone_id ← gets (zone_of_table r.table_id)
    ended ← transaction (give_up r id next_status)
    announce ended.0 r.restaurant_id TableStatus.available zone_id
    pure ended.1

  unfoldable pub no_show : Uuid → AuthUser → Exec Reservation
  unfolding terminate
  no_show id user = terminate id ReservationStatus.no_show user

  unfoldable pub cancel : Uuid → AuthUser → Exec Reservation
  unfolding terminate
  cancel id user = terminate id ReservationStatus.cancelled user
