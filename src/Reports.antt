-- ===== src/Reports.antt =====
-- reports/reports.service.ts: what was sold in a day or in a range of days.
pub mod Days
pub mod Agreement
use restosync_api.Base.{
  ℕ, zero, suc, String, ◌+◌, ◌-◌, ◌*◌, ◌/◌, ◌≡◌, Bool, true, false, ◌&&◌, ◌||◌, Option, none, some,
  List, [], ◌∷◌, map, ◌==◌, ltb, leb, length, find_by, if◌then◌else◌,
}
use restosync_api.Base.Int.{ℤ, pos, ◌+ℤ◌, ltb_ℤ, sum_by}
use restosync_api.Base.Dict.{lookup, insert}
use restosync_api.Schema.{
  Uuid, Order, OrderItem, OrderStatus, Payment, PaymentMethod, same_order_status, same_method,
}
use restosync_api.Prisma.{asc}
use restosync_api.World.{World, Exec, Env, cents_or_zero, gets}

-- `gte` and `lt` of `dayRange`, in milliseconds
pub record DayRange : Type 0 where
  pub gte : ℕ
  pub lt : ℕ

-- What the aggregations of the client and `Math.round` return. The clause of a payment or an item is
-- the restaurant, the range and, for the payments, their success.
pub record Queries : Type 0 where
  -- `aggregate({ where, _sum: { totalCents: true }, _count: true })`
  pub sum_totals : (Order → Bool) → List Order → Option ℤ
  pub count_orders : (Order → Bool) → List Order → ℕ
  -- `_count: { select: { items: true } }`
  pub count_items : Uuid → List OrderItem → ℕ
  -- `payment.groupBy({ by: ['method'], _sum: { amountCents: true } })`
  pub amounts_by_method : Uuid → DayRange → List Payment → List (PaymentMethod × Option ℤ)
  -- `orderItem.groupBy({ by: ['menuItemId', 'nameSnapshot'], take })`, with both sums
  pub items_by_product :
      Uuid → DayRange → ℕ → List Order → List OrderItem → List (Uuid × String × Option ℕ × Option ℤ)
  -- `Math.round(totalCents / count)`, a quotient of floats
  pub average : ℤ → ℕ → ℤ

-- The aggregates are those of the rows that `findMany` returns.
pub record IsAggregate (env : Env) (q : Queries) : Type 0 where
  pub sum_totals :
      (p : Order → Bool) (rows : List Order)
      → cents_or_zero (q.sum_totals p rows)
        ≡ sum_by (λ o. o.total_cents) (pos 0) (env.orders.find_many p [] rows)
  pub count_orders :
      (p : Order → Bool) (rows : List Order)
      → q.count_orders p rows ≡ length (env.orders.find_many p [] rows)

pub record DailySummary : Type 0 where
  pub total_sales_cents : ℤ
  pub ticket_count : ℕ
  pub average_ticket_cents : ℤ

-- The day is its number from 1970 on, of which `YYYY-MM-DD` is the notation.
pub record DaySummary : Type 0 where
  pub date : ℕ
  pub total_sales_cents : ℤ
  pub ticket_count : ℕ
  pub average_ticket_cents : ℤ

pub record DayCount : Type 0 where
  pub date : ℕ
  pub ticket_count : ℕ

pub record DayTotal : Type 0 where
  pub total_cents : ℤ
  pub count : ℕ

pub record ClosedTicket : Type 0 where
  pub id : Uuid
  pub number : String
  pub total_cents : ℤ
  pub status : OrderStatus
  pub created_at : ℕ
  pub item_count : ℕ

pub record SoldProduct : Type 0 where
  pub menu_item_id : Uuid
  pub name : String
  pub quantity_sold : ℕ
  pub revenue_cents : ℤ

abbrev pub milliseconds_of_day : ℕ
milliseconds_of_day = 86400000

-- `dayRange`: from 00:00:00.000 to 23:59:59.999, which is left out; the time zone is not read.
unfoldable pub day_range : ℕ → DayRange
day_range date = record {
  gte = date * milliseconds_of_day;
  lt = date * milliseconds_of_day + (milliseconds_of_day - 1);
}

-- `{ gte, lt }` of two days
unfoldable pub days_range : ℕ → ℕ → DayRange
unfolding day_range
days_range start_date end_date = record {
  gte = (day_range start_date).gte;
  lt = (day_range end_date).lt;
}

-- `SALE_STATUSES`
unfoldable pub is_sale : OrderStatus → Bool
is_sale s = same_order_status s OrderStatus.completed || same_order_status s OrderStatus.confirmed

-- The clause of the orders
unfoldable pub is_sold_in : Uuid → DayRange → Order → Bool
is_sold_in restaurant_id range o =
    o.restaurant_id == restaurant_id
    && is_sale o.status
    && leb range.gte o.created_at
    && ltb o.created_at range.lt

-- `order.createdAt.toISOString().slice(0, 10)`
unfoldable pub day_of : Order → ℕ
day_of o = o.created_at / milliseconds_of_day

abbrev pub total_or_zero : Option DayTotal → DayTotal
total_or_zero none = record { total_cents = pos 0; count = 0 }
total_or_zero (some entry) = entry

abbrev pub count_or_zero : Option ℕ → ℕ
count_or_zero none = 0
count_or_zero (some count) = count

abbrev pub add_order : Order → DayTotal → DayTotal
add_order o entry = record {
  total_cents = entry.total_cents +ℤ o.total_cents;
  count = entry.count + 1;
}

-- The loop that fills `byDay` of the summaries
unfoldable pub totals_by_day : List (ℕ × DayTotal) → List Order → List (ℕ × DayTotal)
unfolding day_of
totals_by_day by_day [] = by_day
totals_by_day by_day (o ∷ orders) =
    totals_by_day
      (insert (day_of o) (add_order o (total_or_zero (lookup (day_of o) by_day))) by_day) orders

-- The loop that fills `byDay` of the counts
unfoldable pub counts_by_day : List (ℕ × ℕ) → List Order → List (ℕ × ℕ)
unfolding day_of
counts_by_day by_day [] = by_day
counts_by_day by_day (o ∷ orders) =
    counts_by_day (insert (day_of o) (count_or_zero (lookup (day_of o) by_day) + 1) by_day) orders

-- `result.sort((a, b) => a.date.localeCompare(b.date))`, a stable sort
abbrev pub put_by {ℓ} : {A : Type ℓ} → (A → ℕ) → A → List A → List A
put_by date a [] = a ∷ []
put_by date a (b ∷ rest) =
    let later = put_by date a rest in if leb (date a) (date b) then a ∷ b ∷ rest else b ∷ later

unfoldable pub sort_by {ℓ} : {A : Type ℓ} → (A → ℕ) → List A → List A
sort_by date [] = []
sort_by date (a ∷ rest) = put_by date a (sort_by date rest)

-- `grouped.find((g) => g.method === method)?._sum.amountCents ?? 0`
unfoldable pub amount_of : PaymentMethod → List (PaymentMethod × Option ℤ) → ℤ
amount_of method [] = pos 0
amount_of method ((m, sum) ∷ rest) =
    let later = amount_of method rest in if same_method m method then cents_or_zero sum else later

-- `Object.values(PaymentMethod)`
abbrev pub payment_methods : List PaymentMethod
payment_methods =
    PaymentMethod.cash ∷ PaymentMethod.card ∷ PaymentMethod.transfer ∷ PaymentMethod.stripe ∷ []

-- The loop that fills `byMethod`
unfoldable pub positive_amounts :
    List (PaymentMethod × Option ℤ) → List PaymentMethod → List (PaymentMethod × ℤ)
positive_amounts grouped [] = []
positive_amounts grouped (method ∷ methods) =
    let amount = amount_of method grouped in
    let rest = positive_amounts grouped methods in
    if ltb_ℤ (pos 0) amount then (method, amount) ∷ rest else rest

unfoldable pub orders_in : Env → DayRange → Uuid → World → List Order
orders_in env range restaurant_id w =
    env.orders.find_many (is_sold_in restaurant_id range) [] w.orders

module _ (env : Env) (q : Queries) where
  unfoldable pub get_daily_summary : ℕ → Uuid → Exec DailySummary
  get_daily_summary date restaurant_id = gets (λ w.
      let clause = is_sold_in restaurant_id (day_range date) in
      let total = cents_or_zero (q.sum_totals clause w.orders) in
      let count = q.count_orders clause w.orders in
      record {
        total_sales_cents = total;
        ticket_count = count;
        average_ticket_cents = if ltb 0 count then q.average total count else pos 0;
      })

  abbrev amounts_in : DayRange → Uuid → Exec (List (PaymentMethod × ℤ))
  amounts_in range restaurant_id =
      gets
        (λ w. positive_amounts (q.amounts_by_method restaurant_id range w.payments) payment_methods)

  unfoldable pub get_payment_method_breakdown : ℕ → Uuid → Exec (List (PaymentMethod × ℤ))
  get_payment_method_breakdown date restaurant_id = amounts_in (day_range date) restaurant_id

  unfoldable pub get_payment_method_breakdown_range : ℕ → ℕ → Uuid → Exec (List (PaymentMethod × ℤ))
  get_payment_method_breakdown_range start_date end_date restaurant_id =
      amounts_in (days_range start_date end_date) restaurant_id

  abbrev sold_product : Uuid × String × Option ℕ × Option ℤ → SoldProduct
  sold_product (menu_item_id, name, quantity, line_total) = record {
    menu_item_id = menu_item_id;
    name = name;
    quantity_sold = count_or_zero quantity;
    revenue_cents = cents_or_zero line_total;
  }

  -- `limit` is 10 where the caller gives none.
  unfoldable pub get_best_selling_products : ℕ → Uuid → Option ℕ → Exec (List SoldProduct)
  get_best_selling_products date restaurant_id limit = gets (λ w. map sold_product (
      q.items_by_product restaurant_id (day_range date) (elim limit [ none ↦ 10 | some n ↦ n ])
        w.orders w.order_items))

  abbrev closed_ticket : World → Order → ClosedTicket
  closed_ticket w o = record {
    id = o.id;
    number = o.number;
    total_cents = o.total_cents;
    status = o.status;
    created_at = o.created_at;
    item_count = q.count_items o.id w.order_items;
  }

  unfoldable pub get_closed_tickets : ℕ → ℕ → Uuid → Exec (List ClosedTicket)
  get_closed_tickets start_date end_date restaurant_id = gets (λ w. map (closed_ticket w) (
      env.orders.find_many (is_sold_in restaurant_id (days_range start_date end_date))
        (asc (λ o. o.created_at) ∷ []) w.orders))

  abbrev pub day_summary : ℕ × DayTotal → DaySummary
  day_summary (date, entry) = record {
    date = date;
    total_sales_cents = entry.total_cents;
    ticket_count = entry.count;
    average_ticket_cents = q.average entry.total_cents entry.count;
  }

  unfoldable pub get_daily_summary_range : ℕ → ℕ → Uuid → Exec (List DaySummary)
  get_daily_summary_range start_date end_date restaurant_id = gets (λ w.
      sort_by (λ d. d.date)
        (map day_summary
          (totals_by_day [] (orders_in env (days_range start_date end_date) restaurant_id w))))

  abbrev pub day_count : ℕ × ℕ → DayCount
  day_count (date, count) = record { date = date; ticket_count = count }

  unfoldable pub get_ticket_count_by_day : ℕ → ℕ → Uuid → Exec (List DayCount)
  get_ticket_count_by_day start_date end_date restaurant_id = gets (λ w.
      sort_by (λ d. d.date)
        (map day_count
          (counts_by_day [] (orders_in env (days_range start_date end_date) restaurant_id w))))
