-- ===== src/World.antt =====
-- The state that the services share, and the effects of their methods. A method is an action on a
-- `World`: the database's tables, what was sent to the sockets, and what was logged as a warning.
-- What was written before a throw stays written, but for a `$transaction`, which rolls back.
pub mod Atomic
pub mod Reads
pub mod Writes
pub mod Ensures
pub mod Owned
pub mod Unique
pub mod Removal
use restosync_api.Base.{ℕ, String, Bool, true, false, ◌≡◌, refl, Option, none, some, List, [], ◌∷◌}
use restosync_api.Base.Int.{ℤ, pos, sum_by}
use restosync_api.Base.Text.{Text}
use restosync_api.Base.Number.{Floats}
use restosync_api.Schema.{
  Uuid, OrderStatus, TableStatus, Table, MenuItem, ModifierGroup, Modifier, Order, OrderItem,
  Reservation, Payment, CashRegisterSession, InventoryItem, StockAdjustment, AuditLog, Zone,
  Category, Subscription,
}
use restosync_api.Prisma.{Delegate, IsDatabase}

-- `staffRoom` and `customerRoom` of realtime/realtime.gateway.ts
pub data Room : Type 0 where
  staff_room customer_room : Uuid → Room

pub record StatusChangedPayload : Type 0 where
  pub order_id : Uuid
  pub status : OrderStatus
  pub previous_status : OrderStatus

pub record TotalsChangedPayload : Type 0 where
  pub order_id : Uuid
  pub subtotal_cents : ℤ
  pub tax_cents : ℤ
  pub discount_cents : ℤ
  pub total_cents : ℤ

pub record TableStatusChangedPayload : Type 0 where
  pub table_id : Uuid
  pub restaurant_id : Uuid
  pub status : TableStatus
  pub zone_id : Option Uuid

pub data Event : Type 0 where
  order_status_changed : StatusChangedPayload → Event
  order_totals_changed : TotalsChangedPayload → Event
  table_status_changed : TableStatusChangedPayload → Event

pub data Warning : Type 0 where
  emit_failed : Uuid → Warning
  inventory_failed : Uuid → Warning
  no_payment_for_intent : String → Warning
  no_subscription : String → Warning
  bad_signature : Warning

pub record World : Type 0 where
  pub orders : List Order
  pub order_items : List OrderItem
  pub tables : List Table
  pub zones : List Zone
  pub categories : List Category
  pub menu_items : List MenuItem
  pub modifier_groups : List ModifierGroup
  pub modifiers : List Modifier
  pub reservations : List Reservation
  pub payments : List Payment
  pub sessions : List CashRegisterSession
  pub inventory_items : List InventoryItem
  pub stock_adjustments : List StockAdjustment
  pub audit_logs : List AuditLog
  pub subscriptions : List Subscription
  pub sent : List (Room × Event)
  pub warnings : List Warning
  pub now : ℕ

-- The exceptions, one for each place that throws.
pub data Error : Type 0 where
  order_not_found order_forbidden table_not_found menu_item_not_found : Error
  menu_item_missing menu_item_unavailable order_item_not_found : Error
  empty_order discount_exceeds_subtotal no_active_session session_already_open : Error
  bad_transition : OrderStatus → OrderStatus → Error
  not_editable not_payable : OrderStatus → Error
  modifier_twice modifier_invalid modifier_unavailable : Error
  group_required group_below_minimum group_above_maximum min_above_max : Error
  modifier_group_not_found modifier_not_found : Error
  insufficient_payment session_not_found inventory_item_not_found : Error
  table_not_available table_not_editable informal_has_table_or_items deposit_only_has_items : Error
  reservation_not_found reservation_not_pending reservation_not_confirmed : Error
  reservation_incomplete reservation_without_table table_required reservation_not_terminable : Error
  zone_not_found zone_not_empty zone_code_taken table_name_taken : Error
  category_not_found menu_item_has_history still_referenced : Error
  invalid_signature socket_error record_not_found : Error

pub data Outcome {ℓ} (A : Type ℓ) : Type ℓ where
  done : A → World → Outcome A
  thrown : Error → World → Outcome A

abbrev pub Exec {ℓ} : Type ℓ → Type ℓ
Exec A = World → Outcome A

module _ {ℓ} {A : Type ℓ} where
  unfoldable pub pure : A → Exec A
  pure a w = done a w

  unfoldable pub throw : Error → Exec A
  throw e w = thrown e w

  unfoldable pub gets : (World → A) → Exec A
  gets f w = done (f w) w

  -- `prisma.$transaction(...)`
  unfoldable pub transaction : Exec A → Exec A
  transaction m w = elim (m w) [ done a w' ↦ done a w' | thrown e w' ↦ thrown e w ]

  -- `if (!x) throw e`
  unfoldable pub or_throw : Option A → Error → Exec A
  or_throw none e w = thrown e w
  or_throw (some a) e w = done a w

unfoldable pub modify : (World → World) → Exec (Unit {0})
modify f w = done tt (f w)

-- `if (!b) throw e`
unfoldable pub guard : Bool → Error → Exec (Unit {0})
guard true e w = done tt w
guard false e w = thrown e w

module _ {ℓ κ} {A : Type ℓ} {B : Type κ} where
  abbrev pub next : Outcome A → (A → Exec B) → Outcome B
  next (done a w) f = f a w
  next (thrown e w) f = thrown e w

  infixl 5 ◌>>=◌
  -- Opening this opens the simple actions too.
  unfoldable pub ◌>>=◌ : Exec A → (A → Exec B) → Exec B
  unfolding pure throw gets or_throw modify guard
  ◌>>=◌ m f w = next (m w) f

infixl 5 ◌>>◌
abbrev pub ◌>>◌ {ℓ} : {B : Type ℓ} → Exec (Unit {0}) → Exec B → Exec B
m >> k = m >>= λ _. k

-- `try { m } catch { log a warning }`
unfoldable pub attempt : Exec (Unit {0}) → Warning → Exec (Unit {0})
attempt m warning w = elim (m w) [
  | done a w' ↦ done tt w'
  | thrown e w' ↦ done tt (record w' { warnings = warning ∷ w'.warnings })
]

-- What the services are given: the database client, the configuration, the socket server (`delivers`
-- says whether an emit to a room goes through), and what is computed outside this code.
pub record Env : Type 0 where
  pub orders : Delegate Order
  pub order_items : Delegate OrderItem
  pub tables : Delegate Table
  pub zones : Delegate Zone
  pub categories : Delegate Category
  pub menu_items : Delegate MenuItem
  pub modifier_groups : Delegate ModifierGroup
  pub modifiers : Delegate Modifier
  pub reservations : Delegate Reservation
  pub payments : Delegate Payment
  pub sessions : Delegate CashRegisterSession
  pub inventory_items : Delegate InventoryItem
  pub stock_adjustments : Delegate StockAdjustment
  pub subscriptions : Delegate Subscription
  -- `prisma.payment.aggregate({ where, _sum: { amountCents: true } })`, `none` if no row matches
  pub sum_amounts : (Payment → Bool) → List Payment → Option ℤ
  -- `Math.round(subtotalCents * taxRate)`, a product of floats
  pub round_tax : ℤ → ℤ
  -- The arithmetic of the language on doubles
  pub floats : Floats
  -- `reservations.depositCents`, with its default 1000
  pub deposit_cents : ℤ
  -- `generateOrderNumber`, from the clock and two random bytes
  pub order_number : ℕ → String
  -- JavaScript's `toLowerCase` and `toUpperCase`
  pub to_lower_case : Text → Text
  pub to_upper_case : Text → Text
  -- `localToUtc` at the configured timezone
  pub local_to_utc : String → ℕ
  pub delivers : Room → Event → Bool

-- `cents ?? 0`
abbrev pub cents_or_zero : Option ℤ → ℤ
cents_or_zero none = pos 0
cents_or_zero (some cents) = cents

pub record IsPrisma (env : Env) : Type 0 where
  pub orders : IsDatabase Order (λ r. r.id) env.orders
  pub order_items : IsDatabase OrderItem (λ r. r.id) env.order_items
  pub tables : IsDatabase Table (λ r. r.id) env.tables
  pub zones : IsDatabase Zone (λ r. r.id) env.zones
  pub categories : IsDatabase Category (λ r. r.id) env.categories
  pub menu_items : IsDatabase MenuItem (λ r. r.id) env.menu_items
  pub modifier_groups : IsDatabase ModifierGroup (λ r. r.id) env.modifier_groups
  pub modifiers : IsDatabase Modifier (λ r. r.id) env.modifiers
  pub reservations : IsDatabase Reservation (λ r. r.id) env.reservations
  pub payments : IsDatabase Payment (λ r. r.id) env.payments
  pub sessions : IsDatabase CashRegisterSession (λ r. r.id) env.sessions
  pub inventory_items : IsDatabase InventoryItem (λ r. r.id) env.inventory_items
  pub stock_adjustments : IsDatabase StockAdjustment (λ r. r.id) env.stock_adjustments
  pub subscriptions : IsDatabase Subscription (λ r. r.id) env.subscriptions
  -- The aggregate adds up the rows that `findMany` returns.
  pub sum_amounts :
      (p : Payment → Bool) (rows : List Payment)
      → cents_or_zero (env.sum_amounts p rows)
        ≡ sum_by (λ r. r.amount_cents) (pos 0) (env.payments.find_many p [] rows)

-- `prisma.<model>.update({ where: { id }, data })`: a missing record is an error (P2025).
unfoldable pub update_or_throw :
    {Row : Type 0}
    → Delegate Row
    → (World → List Row)
    → (List Row → World → World)
    → Uuid
    → (Row → Row)
    → Exec Row
update_or_throw d rows put id f w = elim (d.find_unique id (rows w)) [
  | none ↦ thrown record_not_found w
  | some r ↦ done (f r) (put (d.update id f (rows w)) w)
]

-- `prisma.<model>.create({ data })`: the row under a new id.
unfoldable pub create_row :
    {Row : Type 0}
    → Delegate Row
    → (World → List Row)
    → (List Row → World → World)
    → (Uuid → Row)
    → Exec Row
create_row d rows put row w =
    let r = row (d.new_id (rows w)) in done r (put (d.create r (rows w)) w)

-- `prisma.<model>.delete({ where: { id } })`: a missing record is an error (P2025).
unfoldable pub delete_row :
    {Row : Type 0}
    → Delegate Row
    → (World → List Row)
    → (List Row → World → World)
    → Uuid
    → Exec Row
delete_row d rows put id w = elim (d.find_unique id (rows w)) [
  | none ↦ thrown record_not_found w
  | some r ↦ done r (put (d.delete id (rows w)) w)
]

-- The state without what was sent and logged: the database and the clock.
abbrev pub quiet : World → World
quiet w = record w { sent = []; warnings = [] }

-- What a method that returned has passed through.
pub next-eq-done {ℓ κ} :
    {A : Type ℓ} {B : Type κ} (o : Outcome A) (f : A → Exec B) {b : B} {w : World}
    → next o f ≡ done b w
    → (a : A) × (v : World) × (o ≡ done a v) × (f a v ≡ done b w)
next-eq-done (done a v) f h = (a, v, refl, h)
next-eq-done (thrown e v) f h = cc
