-- ===== src/Tests/Ledgers.antt =====
-- The theorems on the till, the reports, the files of the reports and the subscriptions at the small
-- restaurant.
use restosync_api.Base.{
  ◌/◌, ◌≡◌, ◌≢◌, refl, ◌⊎◌, Option, none, some, List, [], ◌∷◌, map, filter_by, length, ◌==◌,
}
use restosync_api.Base.Int.{pos, pos_part, sum_by}
use restosync_api.Base.Text.{Text, codes}
use restosync_api.Schema.{Order, OrderStatus, Subscription}
use restosync_api.World.{World, done}
use restosync_api.CashRegister.{OpenSessionDto, CloseSessionDto}
use restosync_api.CashRegister.Till.{
  Till, shut, Request, open_request, close_request, TillRun, Shows, handle_all, handle_all-Shows,
}
use restosync_api.Csv.{Row, headers, value_at, to_csv}
use restosync_api.Csv.Parser.{text_of, parse_csv, parse_csv-to_csv}
use restosync_api.Reports.{
  Queries, IsAggregate, DailySummary, DaySummary, days_range, orders_in, get_daily_summary,
  get_daily_summary_range,
}
use restosync_api.Reports.Days.{IsIncreasing, get_daily_summary_range-sums}
use restosync_api.Reports.Agreement.{lines_of, one_day_agrees}
use restosync_api.Billing.{subscription_created, handle_billing_event, update_subscription_status}
use restosync_api.Billing.Events.{
  SetsStatus, Warns, update_subscription_status-returns, subscription_created-twice,
}
use restosync_api.Tests.Code.{code}
use restosync_api.Tests.{env, env-IsPrisma, ana, open_order, world}

abbrev shut_world : World
shut_world = record world { sessions = [] }

shut_world-Shows : Shows env 1 shut_world shut
shut_world-Shows i s h = cc

abbrev morning : OpenSessionDto
morning = record { opening_float_cents = pos 5000; notes = none }

abbrev evening : CloseSessionDto
evening = record { counted_cents = pos 5100; notes = none }

abbrev requests : List Request
requests = open_request morning ∷ open_request morning ∷ close_request evening ∷ []

handle_all-Shows_example :
    (u : Till) × TillRun requests shut u × Shows env 1 (handle_all env ana requests shut_world) u
handle_all-Shows_example =
    handle_all-Shows env env-IsPrisma ana requests shut_world shut shut_world-Shows

abbrev csv_rows : List Row
csv_rows =
    ((codes "name", some (codes "Soup, \"hot\"")) ∷ (codes "sold", some (codes "2")) ∷ [])
    ∷ ((codes "name", none) ∷ [])
    ∷ []

abbrev name_of_csv : Text
name_of_csv = codes "name"

headers_are_there : headers csv_rows none ≢ []
unfolding code
headers_are_there = λ e. cc

parse_csv-to_csv_example :
    parse_csv (to_csv csv_rows none)
    ≡ headers csv_rows none
      ∷ map (λ row. map (λ key. text_of (value_at key row)) (headers csv_rows none)) csv_rows
parse_csv-to_csv_example = parse_csv-to_csv csv_rows none headers_are_there

abbrev queries : Queries
queries = record {
  sum_totals = λ p rows. some (sum_by (λ o. o.total_cents) (pos 0) (filter_by p rows));
  count_orders = λ p rows. length (filter_by p rows);
  count_items = λ id items. length (filter_by (λ i. i.order_id == id) items);
  amounts_by_method = λ r range payments. [];
  items_by_product = λ r range limit orders items. [];
  average = λ total count. pos (pos_part total / count);
}

queries-IsAggregate : IsAggregate env queries
queries-IsAggregate = record { sum_totals = λ p rows. refl; count_orders = λ p rows. refl }

abbrev sold_order : Order
sold_order = record open_order { status = OrderStatus.completed }

abbrev sold_world : World
sold_world = record world { orders = sold_order ∷ sold_order ∷ [] }

abbrev first_day : DailySummary
first_day = record {
  total_sales_cents = pos 4248;
  ticket_count = 2;
  average_ticket_cents = pos 2124;
}

first_day_run : get_daily_summary env queries 0 1 sold_world ≡ done first_day sold_world
unfolding code
first_day_run = refl

get_daily_summary_range-sums_example :
    (days : List DaySummary) × (get_daily_summary_range env queries 0 1 1 sold_world
      ≡ done days sold_world)
    × IsIncreasing (λ d. d.date) days
    × (sum_by (λ d. d.total_sales_cents) (pos 0) days
        ≡ sum_by (λ o. o.total_cents) (pos 0) (orders_in env (days_range 0 1) 1 sold_world))
    × (sum_by (λ d. pos d.ticket_count) (pos 0) days
        ≡ pos (length (orders_in env (days_range 0 1) 1 sold_world)))
get_daily_summary_range-sums_example = get_daily_summary_range-sums env queries 0 1 1 sold_world

one_day_agrees_example :
    get_daily_summary_range env queries 0 0 1 sold_world ≡ done (lines_of 0 first_day) sold_world
one_day_agrees_example =
    one_day_agrees 0 env queries 1 sold_world first_day env-IsPrisma queries-IsAggregate
      first_day_run

abbrev starter : Subscription
starter = record {
  id = 1;
  stripe_customer_id = "cus_1";
  stripe_subscription_id = some "sub_1";
  status = "active";
  plan_name = "default";
  current_period_end = none;
}

abbrev subscribed_world : World
subscribed_world = record world { subscriptions = starter ∷ [] }

update_subscription_status-returns_example :
    (r : Option Subscription) × (v : World) × (update_subscription_status env "sub_1" "past_due"
        none subscribed_world
      ≡ done r v)
    × (SetsStatus env env-IsPrisma "sub_1" "past_due" none subscribed_world v
        ⊎ Warns env env-IsPrisma "sub_1" subscribed_world v)
update_subscription_status-returns_example =
    update_subscription_status-returns env env-IsPrisma "sub_1" "past_due" none subscribed_world

created_run :
    handle_billing_event env (subscription_created "cus_1" "sub_1" none) world
    ≡ done tt subscribed_world
unfolding code
created_run = refl

subscription_created-twice_example :
    handle_billing_event env (subscription_created "cus_1" "sub_1" none) subscribed_world
    ≡ done tt subscribed_world
subscription_created-twice_example =
    subscription_created-twice env env-IsPrisma "cus_1" "sub_1" none world subscribed_world
      created_run
