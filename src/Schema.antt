-- ===== src/Schema.antt =====
-- The enums and the rows of prisma/schema.prisma that the services read and write. A uuid is a
-- number of which only equality is used, a `Date` is a number of milliseconds, an amount of cents
-- is an integer, a `Float` is a double, and a missing (`null`) column is `none`.
use restosync_api.Base.{ℕ, String, Bool, Option, List, ◌==◌}
use restosync_api.Base.Int.{ℤ}
use restosync_api.Base.Text.{Text}
pub use restosync_api.Base.Number.{Float}

abbrev pub Uuid : Type 0
Uuid = ℕ

-- A JSON value that the code only moves is the text of it.
abbrev pub Json : Type 0
Json = String

pub data Role : Type 0 where
  admin waiter cashier manager staff kitchen customer : Role

pub data OrderType : Type 0 where
  dine_in takeaway : OrderType

pub data DiscountType : Type 0 where
  fixed percentage : DiscountType

pub data OrderStatus : Type 0 where
  draft pending confirmed preparing ready completed cancelled : OrderStatus

pub data TableStatus : Type 0 where
  available reserved occupied : TableStatus

pub data ReservationType : Type 0 where
  with_preorder deposit_only informal : ReservationType

pub data ReservationStatus : Type 0 where
  pending confirmed seated no_show cancelled : ReservationStatus

pub data PaymentMethod : Type 0 where
  cash card transfer stripe : PaymentMethod

pub data PaymentStatus : Type 0 where
  requires_payment processing succeeded failed refunded : PaymentStatus

pub data AdjustmentType : Type 0 where
  restock sale waste correction : AdjustmentType

pub record AuthUser : Type 0 where
  pub id : Uuid
  pub role : Role
  pub restaurant_id : Uuid

pub record Table : Type 0 where
  pub id : Uuid
  pub name : Text
  pub capacity : Option ℕ
  pub status : TableStatus
  pub restaurant_id : Uuid
  pub zone_id : Option Uuid
  pub position_x : Option Float
  pub position_y : Option Float
  pub width : Option Float
  pub height : Option Float
  pub shape : Option String

pub record Zone : Type 0 where
  pub id : Uuid
  pub restaurant_id : Uuid
  pub name : Text
  pub code : Text
  pub sort_order : ℕ

pub record Category : Type 0 where
  pub id : Uuid
  pub name : String
  pub sort_order : ℕ
  pub active : Bool
  pub restaurant_id : Uuid

-- A subscription of a restaurant to the service; the ids are Stripe's.
pub record Subscription : Type 0 where
  pub id : Uuid
  pub stripe_customer_id : String
  pub stripe_subscription_id : Option String
  pub status : String
  pub plan_name : String
  pub current_period_end : Option ℕ

pub record MenuItem : Type 0 where
  pub id : Uuid
  pub name : String
  pub description : Option String
  pub price_cents : ℤ
  pub currency : String
  pub image_url : Option String
  pub available : Bool
  pub category_id : Uuid
  pub restaurant_id : Uuid

pub record ModifierGroup : Type 0 where
  pub id : Uuid
  pub name : String
  pub required : Bool
  pub min_select : ℕ
  pub max_select : ℕ
  pub sort_order : ℕ
  pub menu_item_id : Uuid
  pub restaurant_id : Uuid

pub record Modifier : Type 0 where
  pub id : Uuid
  pub name : String
  pub price_delta_cents : ℤ
  pub sort_order : ℕ
  pub available : Bool
  pub group_id : Uuid
  pub restaurant_id : Uuid

-- `ResolvedModifierSelection` of menu/dto/modifier.dto.ts; an order item stores a list of them.
pub record ResolvedModifierSelection : Type 0 where
  pub id : Uuid
  pub group_id : Uuid
  pub group_name : String
  pub name : String
  pub price_delta_cents : ℤ

pub record Order : Type 0 where
  pub id : Uuid
  pub number : String
  pub customer_id : Option Uuid
  pub type : OrderType
  pub status : OrderStatus
  pub table_id : Option Uuid
  pub subtotal_cents : ℤ
  pub tax_cents : ℤ
  pub total_cents : ℤ
  pub discount_cents : ℤ
  pub discount_type : DiscountType
  pub discount_percent : Option ℕ
  pub discount_applied_by : Option Uuid
  pub discount_applied_at : Option ℕ
  pub discount_reason : Option String
  pub currency : String
  pub notes : Option String
  pub restaurant_id : Uuid
  pub created_at : ℕ

pub record OrderItem : Type 0 where
  pub id : Uuid
  pub order_id : Uuid
  pub menu_item_id : Uuid
  pub name_snapshot : String
  pub price_cents : ℤ
  pub quantity : ℕ
  pub modifiers : Option (List ResolvedModifierSelection)
  pub modifier_delta_cents : ℤ
  pub notes : Option String
  pub line_total_cents : ℤ
  pub restaurant_id : Uuid

pub record Reservation : Type 0 where
  pub id : Uuid
  pub customer_name : String
  pub customer_phone : String
  pub customer_email : Option String
  pub party_size : ℕ
  pub reserved_for : ℕ
  pub tolerance_minutes : ℕ
  pub allergies : Option String
  pub special_occasion : Option String
  pub reservation_type : ReservationType
  pub table_id : Option Uuid
  pub order_id : Option Uuid
  pub deposit_cents : ℤ
  pub deposit_confirmed_by : Option Uuid
  pub deposit_confirmed_at : Option ℕ
  pub status : ReservationStatus
  pub created_by : Uuid
  pub restaurant_id : Uuid

pub record Payment : Type 0 where
  pub id : Uuid
  pub order_id : Uuid
  pub method : PaymentMethod
  pub provider : String
  pub provider_ref : Option String
  pub amount_cents : ℤ
  pub paid_cents : ℤ
  pub change_cents : ℤ
  pub currency : String
  pub status : PaymentStatus
  pub last_event_id : Option String
  pub raw_event : Option Json
  pub session_id : Option Uuid
  pub restaurant_id : Uuid

pub record CashRegisterSession : Type 0 where
  pub id : Uuid
  pub opened_by_id : Uuid
  pub opened_at : ℕ
  pub closed_by_id : Option Uuid
  pub closed_at : Option ℕ
  pub opening_float_cents : ℤ
  pub expected_cents : Option ℤ
  pub counted_cents : Option ℤ
  pub difference_cents : Option ℤ
  pub notes : Option String
  pub restaurant_id : Uuid

pub record InventoryItem : Type 0 where
  pub id : Uuid
  pub name : String
  pub unit : String
  pub quantity_on_hand : Float
  pub low_stock_threshold : Float
  pub menu_item_id : Option Uuid
  pub restaurant_id : Uuid

pub record StockAdjustment : Type 0 where
  pub id : Uuid
  pub inventory_item_id : Uuid
  pub type : AdjustmentType
  pub quantity_delta : Float
  pub reason : Option String
  pub performed_by_id : Uuid
  pub restaurant_id : Uuid

-- The one action that the modelled services log, with its metadata as fields.
pub record AuditLog : Type 0 where
  pub entity_type : String
  pub entity_id : Uuid
  pub action : String
  pub user_id : Uuid
  pub restaurant_id : Uuid
  pub discount_type : DiscountType
  pub discount_cents : ℤ
  pub discount_percent : Option ℕ
  pub reason : Option String

-- The place of a constructor in its enum: `===` on enums compares these.
abbrev pub order_status_index : OrderStatus → ℕ
order_status_index OrderStatus.draft = 0
order_status_index OrderStatus.pending = 1
order_status_index OrderStatus.confirmed = 2
order_status_index OrderStatus.preparing = 3
order_status_index OrderStatus.ready = 4
order_status_index OrderStatus.completed = 5
order_status_index OrderStatus.cancelled = 6

abbrev pub same_order_status : OrderStatus → OrderStatus → Bool
same_order_status a b = order_status_index a == order_status_index b

abbrev pub reservation_status_index : ReservationStatus → ℕ
reservation_status_index ReservationStatus.pending = 0
reservation_status_index ReservationStatus.confirmed = 1
reservation_status_index ReservationStatus.seated = 2
reservation_status_index ReservationStatus.no_show = 3
reservation_status_index ReservationStatus.cancelled = 4

abbrev pub same_reservation_status : ReservationStatus → ReservationStatus → Bool
same_reservation_status a b = reservation_status_index a == reservation_status_index b

abbrev pub table_status_index : TableStatus → ℕ
table_status_index TableStatus.available = 0
table_status_index TableStatus.reserved = 1
table_status_index TableStatus.occupied = 2

abbrev pub same_table_status : TableStatus → TableStatus → Bool
same_table_status a b = table_status_index a == table_status_index b

abbrev pub payment_method_index : PaymentMethod → ℕ
payment_method_index PaymentMethod.cash = 0
payment_method_index PaymentMethod.card = 1
payment_method_index PaymentMethod.transfer = 2
payment_method_index PaymentMethod.stripe = 3

abbrev pub same_method : PaymentMethod → PaymentMethod → Bool
same_method a b = payment_method_index a == payment_method_index b

abbrev pub payment_status_index : PaymentStatus → ℕ
payment_status_index PaymentStatus.requires_payment = 0
payment_status_index PaymentStatus.processing = 1
payment_status_index PaymentStatus.succeeded = 2
payment_status_index PaymentStatus.failed = 3
payment_status_index PaymentStatus.refunded = 4

abbrev pub same_payment_status : PaymentStatus → PaymentStatus → Bool
same_payment_status a b = payment_status_index a == payment_status_index b
