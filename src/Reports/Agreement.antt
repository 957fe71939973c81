-- ===== src/Reports/Agreement.antt =====
-- reports/reports.service.ts: reports that count the same orders agree.
use restosync_api.Base.{
  ℕ, suc, ◌+◌, ◌-◌, ◌*◌, ◌≤◌, ◌<◌, ◌≡◌, refl, sym, ap, ◌∙◌, true, none, List, [], ◌∷◌, map, arith,
  ◌==◌, leb, ltb, All, length, if◌then◌else◌, Bool-cases, inl, inr,
}
use restosync_api.Base.Int.{ℤ, pos, ◌+ℤ◌, sum_by, sum_nil, sum_cons, int_laws}
use restosync_api.Base.Dict.{lookup, insert}
use restosync_api.Schema.{Uuid, Order}
use restosync_api.Prisma.Laws.{==-refl}
use restosync_api.World.{World, Env, IsPrisma, done, gets, cents_or_zero}
use restosync_api.Reports.{
  Queries, IsAggregate, DailySummary, DaySummary, DayCount, DayTotal, milliseconds_of_day,
  day_range, days_range, is_sold_in, day_of, total_or_zero, count_or_zero, add_order, totals_by_day,
  counts_by_day, put_by, sort_by, orders_in, day_summary, day_count, get_daily_summary,
  get_daily_summary_range, get_ticket_count_by_day,
}

abbrev count_entry : ℕ × DayTotal → ℕ × ℕ
count_entry (k, e) = (k, e.count)

lookup-count :
    (k : ℕ) (dict : List (ℕ × DayTotal))
    → count_or_zero (lookup k (map count_entry dict)) ≡ (total_or_zero (lookup k dict)).count
unfolding lookup
lookup-count k [] = refl
lookup-count k (entry ∷ rest) = elim (Bool-cases (entry.0 == k)) [
  | inl e ↦ rw e refl
  | inr e ↦ rw e (lookup-count k rest)
]

insert-count :
    (k : ℕ) (a : DayTotal) (dict : List (ℕ × DayTotal))
    → insert k a.count (map count_entry dict) ≡ map count_entry (insert k a dict)
unfolding insert
insert-count k a [] = refl
insert-count k a (entry ∷ rest) = elim (Bool-cases (entry.0 == k)) [
  | inl e ↦ rw e refl
  | inr e ↦ rw e (ap (λ d. count_entry entry ∷ d) (insert-count k a rest))
]

counts-totals :
    (dict : List (ℕ × DayTotal)) (orders : List Order)
    → counts_by_day (map count_entry dict) orders ≡ map count_entry (totals_by_day dict orders)
unfolding counts_by_day totals_by_day
counts-totals dict [] = refl
counts-totals dict (o ∷ orders) =
    let a = add_order o (total_or_zero (lookup (day_of o) dict)) in
    rw (lookup-count (day_of o) dict, insert-count (day_of o) a dict)
      (counts-totals (insert (day_of o) a dict) orders)

module _ {A B : Type 0} (g : A → B) (date : A → ℕ) where
  put_by-map :
      (day : B → ℕ)
      → ((x : A) → day (g x) ≡ date x)
      → (a : A) (xs : List A) → put_by day (g a) (map g xs) ≡ map g (put_by date a xs)
  put_by-map day same a [] = refl
  put_by-map day same a (x ∷ xs) = elim (Bool-cases (leb (date a) (date x))) [
    | inl e ↦ rw (same a, same x, e) refl
    | inr e ↦ rw (same a, same x, e) (ap (λ ys. g x ∷ ys) (put_by-map day same a xs))
  ]

  sort_by-map :
      (day : B → ℕ)
      → ((x : A) → day (g x) ≡ date x)
      → (xs : List A) → sort_by day (map g xs) ≡ map g (sort_by date xs)
  unfolding sort_by
  sort_by-map day same [] = refl
  sort_by-map day same (x ∷ xs) =
      rw (sort_by-map day same xs) (put_by-map day same x (sort_by date xs))

-- The line of the counts for a line of the summaries
abbrev pub count_of : DaySummary → DayCount
count_of d = record { date = d.date; ticket_count = d.ticket_count }

map-map :
    {A B C : Type 0} (f : B → C) (g : A → B) (xs : List A)
    → map f (map g xs) ≡ map (λ x. f (g x)) xs
map-map f g [] = refl
map-map f g (x ∷ xs) = ap (λ ys. f (g x) ∷ ys) (map-map f g xs)

-- If `getDailySummaryRange` returns some days, `getTicketCountByDay` for the same range returns
-- their dates and counts, in the same order.
pub ticket_counts_agree :
    (env : Env) (q : Queries) (start_date end_date : ℕ) (restaurant_id : Uuid) (w : World)
    (days : List DaySummary)
    → get_daily_summary_range env q start_date end_date restaurant_id w ≡ done days w
    → get_ticket_count_by_day env q start_date end_date restaurant_id w ≡ done (map count_of days) w
unfolding get_daily_summary_range get_ticket_count_by_day gets
ticket_counts_agree env q start_date end_date restaurant_id w days h =
    let orders = orders_in env (days_range start_date end_date) restaurant_id w in
    let by_day = totals_by_day [] orders in
    let e : days ≡ sort_by (λ (d : DaySummary). d.date) (map (day_summary env q) by_day) = cc in
    rw (e) (
      ap (λ r. done r w)
        (ap (λ r. sort_by (λ (d : DayCount). d.date) (map (day_count env q) r))
            (counts-totals [] orders)
          ∙ ap (sort_by (λ (d : DayCount). d.date)) (
              map-map (day_count env q) count_entry by_day
              ∙ sym (map-map count_of (day_summary env q) by_day))
          ∙ sort_by-map count_of (λ (d : DaySummary). d.date) (λ (d : DayCount). d.date) (λ x. refl)
              (map (day_summary env q) by_day)))

module _ (day : ℕ) where
  same_day :
      (o : Order)
      → day * milliseconds_of_day ≤ o.created_at
      → o.created_at < day * milliseconds_of_day + (milliseconds_of_day - 1)
      → day_of o ≡ day
  unfolding day_of
  same_day o low high = omega arith

  in_day : (r : Uuid) (o : Order) → is_sold_in r (day_range day) o ≡ true → day_of o ≡ day
  unfolding is_sold_in day_range
  in_day r o h = same_day o (ground arith) (ground arith)

  sold_that_day :
      (r : Uuid) (orders : List Order)
      → All (λ o. is_sold_in r (day_range day) o ≡ true) orders
      → All (λ o. day_of o ≡ day) orders
  sold_that_day r [] h = tt
  sold_that_day r (o ∷ orders) (h, rest) = (in_day r o h, sold_that_day r orders rest)

  abbrev entry_of : ℤ → ℕ → ℕ × DayTotal
  entry_of total count = (day, record { total_cents = total; count = count })

  one_entry :
      (e : DayTotal) (orders : List Order)
      → All (λ o. day_of o ≡ day) orders
      → totals_by_day ((day, e) ∷ []) orders
        ≡ entry_of
            (e.total_cents +ℤ sum_by (λ o. o.total_cents) (pos 0) orders)
            (e.count + length orders)
          ∷ []
  unfolding totals_by_day insert lookup
  one_entry e [] h =
      let a : e.total_cents ≡ e.total_cents +ℤ sum_by (λ o. o.total_cents) (pos 0) [] =
        rw (sum_nil (λ (o : Order). o.total_cents)) (omega int_laws) in
      let b : e.count ≡ e.count + 0 = omega arith in
      ap (λ t. entry_of t e.count ∷ []) a
      ∙ ap
          (λ c. entry_of (e.total_cents +ℤ sum_by (λ (o : Order). o.total_cents) (pos 0) []) c ∷ [])
          b
  one_entry e (o ∷ orders) (h, rest) =
      let sum = sum_by (λ o. o.total_cents) (pos 0) orders in
      let a : e.total_cents +ℤ o.total_cents +ℤ sum
          ≡ e.total_cents +ℤ sum_by (λ o. o.total_cents) (pos 0) (o ∷ orders) =
        rw (sum_cons (λ (o : Order). o.total_cents) o orders) (omega int_laws) in
      let b : e.count + 1 + length orders ≡ e.count + suc (length orders) = omega arith in
      rw (h, ==-refl day)
        (one_entry (add_order o e) orders rest
          ∙ ap (λ t. entry_of t (e.count + 1 + length orders) ∷ []) a
          ∙ ap
              (λ c.
                entry_of (e.total_cents +ℤ sum_by (λ o. o.total_cents) (pos 0) (o ∷ orders)) c ∷ [])
              b)

  -- The days of a range of one day
  abbrev pub lines_of : DailySummary → List DaySummary
  lines_of s =
      if ltb 0 s.ticket_count
      then record {
        date = day;
        total_sales_cents = s.total_sales_cents;
        ticket_count = s.ticket_count;
        average_ticket_cents = s.average_ticket_cents;
      }
        ∷ []
      else []

  lines :
      (env : Env) (q : Queries) (orders : List Order) (total : ℤ)
      → All (λ o. day_of o ≡ day) orders
      → total ≡ sum_by (λ o. o.total_cents) (pos 0) orders
      → sort_by (λ d. d.date) (map (day_summary env q) (totals_by_day [] orders))
        ≡ lines_of (record {
          total_sales_cents = total;
          ticket_count = length orders;
          average_ticket_cents =
              if ltb 0 (length orders) then q.average total (length orders) else pos 0;
        })
  unfolding totals_by_day insert lookup sort_by
  lines env q [] total h e = refl
  lines env q (o ∷ orders) total (h, rest) e =
      let first = add_order o (total_or_zero none) in
      let sum = sum_by (λ o. o.total_cents) (pos 0) orders in
      let a : pos 0 +ℤ o.total_cents +ℤ sum ≡ total =
        rw (e, sum_cons (λ (o : Order). o.total_cents) o orders) (omega int_laws) in
      let b : 0 + 1 + length orders ≡ suc (length orders) = omega arith in
      let one : totals_by_day ((day, first) ∷ []) orders
          ≡ entry_of total (suc (length orders)) ∷ [] =
        one_entry first orders rest
        ∙ ap (λ t. entry_of t (0 + 1 + length orders) ∷ []) a
        ∙ ap (λ c. entry_of total c ∷ []) b in
      let positive : ltb 0 (suc (length orders)) ≡ true = ground arith in rw (h, one, positive) refl

  -- In a database that keeps Prisma's laws, if its aggregates are those of the rows that it
  -- finds, the summary of a range of one day is that of `getDailySummary` for this day, or no
  -- line at all if that counts no order.
  pub one_day_agrees :
      (env : Env) (q : Queries) (restaurant_id : Uuid) (w : World) (s : DailySummary)
      → IsPrisma env
      → IsAggregate env q
      → get_daily_summary env q day restaurant_id w ≡ done s w
      → get_daily_summary_range env q day day restaurant_id w ≡ done (lines_of s) w
  unfolding get_daily_summary get_daily_summary_range days_range orders_in gets
  one_day_agrees env q restaurant_id w s db agg h =
      let clause = is_sold_in restaurant_id (day_range day) in
      let orders = env.orders.find_many clause [] w.orders in
      let counted = agg.count_orders clause w.orders in
      let summed = agg.sum_totals clause w.orders in
      let days = sold_that_day restaurant_id orders (db.orders.many_where clause [] w.orders) in
      let total = cents_or_zero (q.sum_totals clause w.orders) in
      let summary : ℕ → DailySummary = λ count. record {
        total_sales_cents = total;
        ticket_count = count;
        average_ticket_cents = if ltb 0 count then q.average total count else pos 0;
      } in
      let same : s ≡ summary (q.count_orders clause w.orders) = cc in
      rw same (
        ap (λ r. done r w)
          (lines env q orders total days summed ∙ ap (λ c. lines_of (summary c)) (sym counted)))
