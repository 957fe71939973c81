-- ===== src/Tests.antt =====
-- A small restaurant in a database in memory, on which the theorems are applied and the code runs.
mod Code
mod Orders
mod Register
mod Bookings
mod Places
mod Guards
mod Creations
mod Ledgers
use restosync_api.Base.Text.{codes}
use restosync_api.Base.{
  ℕ, ◌-◌, leb, ltb, ◌==◌, arith, ◌&&◌, if◌then◌else◌, map, refl, ◌+◌, ◌*◌, ◌/◌, true, false, none,
  some, [], ◌∷◌,
}
use restosync_api.Base.Number.{Floats, IsFloats}
use restosync_api.Base.Int.{ℤ, pos, negsuc, pos_part, sum_by}
use restosync_api.Schema.{
  AuthUser, Role, Zone, Table, TableStatus, MenuItem, ModifierGroup, Modifier, Order, OrderType,
  OrderStatus, OrderItem, DiscountType, CashRegisterSession, InventoryItem,
}
use restosync_api.World.{World, Env, IsPrisma}
use restosync_api.Memory.{memory, memory-IsDatabase}

-- A tax of 18 %, rounded to the nearest cent
abbrev pub tax_18 : ℤ → ℤ
tax_18 subtotal = pos ((pos_part subtotal * 18 + 50) / 100)

-- The case mappings of ASCII
abbrev pub ascii_lower : ℕ → ℕ
ascii_lower c = if leb 65 c && leb c 90 then c + 32 else c

abbrev pub ascii_upper : ℕ → ℕ
ascii_upper c = if leb 97 c && leb c 122 then c - 32 else c

-- Whole numbers for doubles, kept with 1000 added
abbrev pub offset_floats : Floats
offset_floats = record {
  number = λ n. n + 1000;
  add = λ x y. x + y - 1000;
  negated = λ x. 2000 - x;
  max = λ x y. if ltb x y then y else x;
  less = ltb;
  at_most = leb;
  same = ◌==◌;
}

pub offset_floats-IsFloats : IsFloats offset_floats
offset_floats-IsFloats = record {
  max_second = λ x y h. ground arith;
  max_first = λ x y h. ground arith;
  max_not_less = λ x y. ground arith;
}

abbrev pub env : Env
env = record {
  orders = memory (λ r. r.id);
  order_items = memory (λ r. r.id);
  tables = memory (λ r. r.id);
  subscriptions = memory (λ r. r.id);
  categories = memory (λ r. r.id);
  zones = memory (λ r. r.id);
  menu_items = memory (λ r. r.id);
  modifier_groups = memory (λ r. r.id);
  modifiers = memory (λ r. r.id);
  reservations = memory (λ r. r.id);
  payments = memory (λ r. r.id);
  sessions = memory (λ r. r.id);
  inventory_items = memory (λ r. r.id);
  stock_adjustments = memory (λ r. r.id);
  sum_amounts = λ p rows.
      some (sum_by (λ r. r.amount_cents) (pos 0) ((memory (λ r. r.id)).find_many p [] rows));
  round_tax = tax_18;
  floats = offset_floats;
  deposit_cents = pos 1000;
  order_number = λ now. "ORD-1";
  to_lower_case = map ascii_lower;
  to_upper_case = map ascii_upper;
  local_to_utc = λ text. 0;
  delivers = λ room event. true;
}

pub env-IsPrisma : IsPrisma env
env-IsPrisma = record {
  orders = memory-IsDatabase (λ r. r.id);
  order_items = memory-IsDatabase (λ r. r.id);
  tables = memory-IsDatabase (λ r. r.id);
  subscriptions = memory-IsDatabase (λ r. r.id);
  categories = memory-IsDatabase (λ r. r.id);
  zones = memory-IsDatabase (λ r. r.id);
  menu_items = memory-IsDatabase (λ r. r.id);
  modifier_groups = memory-IsDatabase (λ r. r.id);
  modifiers = memory-IsDatabase (λ r. r.id);
  reservations = memory-IsDatabase (λ r. r.id);
  payments = memory-IsDatabase (λ r. r.id);
  sessions = memory-IsDatabase (λ r. r.id);
  inventory_items = memory-IsDatabase (λ r. r.id);
  stock_adjustments = memory-IsDatabase (λ r. r.id);
  sum_amounts = λ p rows. refl;
}

abbrev pub ana : AuthUser
ana = record { id = 3; role = Role.cashier; restaurant_id = 1 }

abbrev pub window_table : Table
window_table = record {
  id = 5;
  name = codes "T01";
  capacity = some 4;
  status = TableStatus.occupied;
  restaurant_id = 1;
  zone_id = some 2;
  position_x = none;
  position_y = none;
  width = none;
  height = none;
  shape = some "rounded";
}

abbrev pub spare_table : Table
spare_table = record {
  id = 6;
  name = codes "T02";
  capacity = none;
  status = TableStatus.available;
  restaurant_id = 1;
  zone_id = none;
  position_x = none;
  position_y = none;
  width = none;
  height = none;
  shape = some "rounded";
}

abbrev pub terrace : Zone
terrace = record {
  id = 2;
  restaurant_id = 1;
  name = codes "Terrace";
  code = codes "T";
  sort_order = 0;
}

abbrev pub soup : MenuItem
soup = record {
  id = 11;
  name = "Soup";
  description = none;
  price_cents = pos 900;
  currency = "usd";
  image_url = none;
  available = true;
  category_id = 9;
  restaurant_id = 1;
}

abbrev pub size : ModifierGroup
size = record {
  id = 21;
  name = "Size";
  required = true;
  min_select = 0;
  max_select = 1;
  sort_order = 0;
  menu_item_id = 11;
  restaurant_id = 1;
}

abbrev pub large : Modifier
large = record {
  id = 31;
  name = "Large";
  price_delta_cents = pos 200;
  sort_order = 0;
  available = true;
  group_id = 21;
  restaurant_id = 1;
}

abbrev pub small : Modifier
small = record {
  id = 32;
  name = "Small";
  price_delta_cents = negsuc 99;
  sort_order = 1;
  available = true;
  group_id = 21;
  restaurant_id = 1;
}

abbrev pub open_order : Order
open_order = record {
  id = 7;
  number = "ORD-0";
  customer_id = none;
  type = OrderType.dine_in;
  status = OrderStatus.pending;
  table_id = some 5;
  subtotal_cents = pos 1800;
  tax_cents = pos 324;
  total_cents = pos 2124;
  discount_cents = pos 0;
  discount_type = DiscountType.fixed;
  discount_percent = none;
  discount_applied_by = none;
  discount_applied_at = none;
  discount_reason = none;
  currency = "usd";
  notes = none;
  restaurant_id = 1;
  created_at = 100;
}

abbrev pub two_soups : OrderItem
two_soups = record {
  id = 41;
  order_id = 7;
  menu_item_id = 11;
  name_snapshot = "Soup";
  price_cents = pos 900;
  quantity = 2;
  modifiers = none;
  modifier_delta_cents = pos 0;
  notes = none;
  line_total_cents = pos 1800;
  restaurant_id = 1;
}

abbrev pub till : CashRegisterSession
till = record {
  id = 51;
  opened_by_id = 3;
  opened_at = 90;
  closed_by_id = none;
  closed_at = none;
  opening_float_cents = pos 5000;
  expected_cents = none;
  counted_cents = none;
  difference_cents = none;
  notes = none;
  restaurant_id = 1;
}

abbrev pub soup_stock : InventoryItem
soup_stock = record {
  id = 61;
  name = "Soup";
  unit = "bowl";
  quantity_on_hand = 1010;
  low_stock_threshold = 1004;
  menu_item_id = some 11;
  restaurant_id = 1;
}

abbrev pub world : World
world = record {
  orders = open_order ∷ [];
  order_items = two_soups ∷ [];
  tables = window_table ∷ spare_table ∷ [];
  zones = terrace ∷ [];
  categories = [];
  subscriptions = [];
  menu_items = soup ∷ [];
  modifier_groups = size ∷ [];
  modifiers = large ∷ small ∷ [];
  reservations = [];
  payments = [];
  sessions = till ∷ [];
  inventory_items = soup_stock ∷ [];
  stock_adjustments = [];
  audit_logs = [];
  sent = [];
  warnings = [];
  now = 200;
}
