-- ===== src/Reports/Days.antt =====
-- reports/reports.service.ts: the sums of the days of a range, and their order.
use restosync_api.Base.{
  ℕ, suc, ◌+◌, ◌<◌, ◌≡◌, ◌≢◌, refl, sym, ◌∙◌, subst, none, some, List, [], ◌∷◌, map, arith, ◌==◌,
  ==_iff, leb, All, length, Bool-cases, inl, inr,
}
use restosync_api.Base.Int.{ℤ, pos, ◌+ℤ◌, sum_by, sum_nil, sum_cons, int_laws}
use restosync_api.Base.Dict.{lookup, insert}
use restosync_api.Schema.{Uuid, Order}
use restosync_api.World.{World, Env, done, gets}
use restosync_api.Reports.{
  Queries, DaySummary, DayTotal, day_of, total_or_zero, add_order, totals_by_day, put_by, sort_by,
  days_range, orders_in, day_summary, get_daily_summary_range,
}

-- The dates go up, so each day stands there once.
abbrev pub IsIncreasing {ℓ} : {A : Type ℓ} → (A → ℕ) → List A → Type 0
IsIncreasing date [] = Unit
IsIncreasing date (x ∷ xs) = All (λ y. date x < date y) xs × IsIncreasing date xs

abbrev HasDistinct {ℓ} : {A : Type ℓ} → (A → ℕ) → List A → Type 0
HasDistinct date [] = Unit
HasDistinct date (x ∷ xs) = All (λ y. date y ≢ date x) xs × HasDistinct date xs

All-map :
    {A : Type 0} {P Q : A → Type 0} (xs : List A) → ((x : A) → P x → Q x) → All P xs → All Q xs
All-map [] f h = tt
All-map (x ∷ xs) f (h, rest) = (f x h, All-map xs f rest)

module _ {A : Type 0} (date : A → ℕ) where
  All-put_by : (P : A → Type 0) (a : A) (xs : List A) → P a → All P xs → All P (put_by date a xs)
  All-put_by P a [] p h = (p, tt)
  All-put_by P a (x ∷ xs) p (h, rest) =
      let later = All-put_by P a xs p rest in
      elim (Bool-cases (leb (date a) (date x))) [
        | inl e ↦ rw e (p, (h, rest))
        | inr e ↦ rw e (h, later)
      ]

  All-sort_by : (P : A → Type 0) (xs : List A) → All P xs → All P (sort_by date xs)
  unfolding sort_by
  All-sort_by P [] h = tt
  All-sort_by P (x ∷ xs) (h, rest) = All-put_by P x (sort_by date xs) h (All-sort_by P xs rest)

  put_by-IsIncreasing :
      (a : A) (xs : List A)
      → All (λ y. date y ≢ date a) xs
      → IsIncreasing date xs
      → IsIncreasing date (put_by date a xs)
  put_by-IsIncreasing a [] h up = (tt, tt)
  put_by-IsIncreasing a (x ∷ xs) (ne, h) (low, up) =
      let later = put_by-IsIncreasing a xs h up in
      elim (Bool-cases (leb (date a) (date x))) [
        | inl e ↦
            let lt : date a < date x = ground arith in
            rw e ((lt, All-map xs (λ y g. omega arith) low), (low, up))
        | inr e ↦
            let lt : date x < date a = ground arith in
            rw e (All-put_by (λ y. date x < date y) a xs lt low, later)
      ]

  sort_by-IsIncreasing : (xs : List A) → HasDistinct date xs → IsIncreasing date (sort_by date xs)
  unfolding sort_by
  sort_by-IsIncreasing [] h = tt
  sort_by-IsIncreasing (x ∷ xs) (ne, h) =
      put_by-IsIncreasing x (sort_by date xs) (All-sort_by (λ y. date y ≢ date x) xs ne)
        (sort_by-IsIncreasing xs h)

  sum-put_by :
      (f : A → ℤ) (a : A) (xs : List A)
      → sum_by f (pos 0) (put_by date a xs) ≡ f a +ℤ sum_by f (pos 0) xs
  sum-put_by f a [] = sum_cons f a []
  sum-put_by f a (x ∷ xs) = elim (Bool-cases (leb (date a) (date x))) [
    | inl e ↦ rw e (sum_cons f a (x ∷ xs))
    | inr e ↦
        rw (e, sum_cons f x (put_by date a xs), sum-put_by f a xs, sum_cons f x xs) (omega int_laws)
  ]

  sum-sort_by : (f : A → ℤ) (xs : List A) → sum_by f (pos 0) (sort_by date xs) ≡ sum_by f (pos 0) xs
  unfolding sort_by
  sum-sort_by f [] = refl
  sum-sort_by f (x ∷ xs) =
      rw (sum-put_by f x (sort_by date xs), sum-sort_by f xs, sum_cons f x xs) refl

module _ {A : Type 0} where
  abbrev key : ℕ × A → ℕ
  key entry = entry.0

  All-insert :
      (k m : ℕ) (a : A) (dict : List (ℕ × A))
      → m ≢ k
      → All (λ e. key e ≢ k) dict
      → All (λ e. key e ≢ k) (insert m a dict)
  unfolding insert
  All-insert k m a [] ne h = (ne, tt)
  All-insert k m a (entry ∷ rest) ne (h, others) =
      let later = All-insert k m a rest ne others in
      elim (Bool-cases (entry.0 == m)) [ inl e ↦ rw e (ne, others) | inr e ↦ rw e (h, later) ]

  insert-HasDistinct :
      (m : ℕ) (a : A) (dict : List (ℕ × A))
      → HasDistinct key dict
      → HasDistinct key (insert m a dict)
  unfolding insert
  insert-HasDistinct m a [] h = (tt, tt)
  insert-HasDistinct m a (entry ∷ rest) (ne, h) =
      let later = insert-HasDistinct m a rest h in
      elim (Bool-cases (entry.0 == m)) [
        | inl e ↦
            let q : entry.0 ≡ m = (==_iff entry.0 m).0 e in
            rw e (All-map rest (λ x g. λ p. g (p ∙ sym q)) ne, h)
        | inr e ↦
            let q : m ≢ entry.0 = ground arith in rw e (All-insert entry.0 m a rest q ne, later)
      ]

  All-key-map :
      {B : Type 0} (g : ℕ × A → B) (date : B → ℕ) (same : (x : ℕ × A) → date (g x) ≡ key x) (k : ℕ)
      (xs : List (ℕ × A))
      → All (λ e. key e ≢ k) xs
      → All (λ b. date b ≢ k) (map g xs)
  All-key-map g date same k [] h = tt
  All-key-map g date same k (x ∷ xs) (h, rest) =
      ((λ p. h (sym (same x) ∙ p)), All-key-map g date same k xs rest)

  map-HasDistinct :
      {B : Type 0} (g : ℕ × A → B) (date : B → ℕ) (same : (x : ℕ × A) → date (g x) ≡ key x)
      (xs : List (ℕ × A))
      → HasDistinct key xs
      → HasDistinct date (map g xs)
  map-HasDistinct g date same [] h = tt
  map-HasDistinct g date same (x ∷ xs) (ne, h) =
      (rw (same x) (All-key-map g date same (key x) xs ne), map-HasDistinct g date same xs h)

totals_by_day-HasDistinct :
    (dict : List (ℕ × DayTotal)) (orders : List Order)
    → HasDistinct key dict
    → HasDistinct key (totals_by_day dict orders)
unfolding totals_by_day
totals_by_day-HasDistinct dict [] h = h
totals_by_day-HasDistinct dict (o ∷ orders) h =
    totals_by_day-HasDistinct
      (insert (day_of o) (add_order o (total_or_zero (lookup (day_of o) dict))) dict) orders
      (insert-HasDistinct (day_of o) (add_order o (total_or_zero (lookup (day_of o) dict))) dict h)

-- A measure of a day's total to which an order adds a number of its own
module _ (f : DayTotal → ℤ) (g : Order → ℤ)
    (adds : (o : Order) (e : DayTotal) → f (add_order o e) ≡ f e +ℤ g o)
    (start : f (total_or_zero none) ≡ pos 0) where
  abbrev measure : ℕ × DayTotal → ℤ
  measure entry = f (entry.1)

  sum-insert :
      (k : ℕ) (a : DayTotal) (n : ℤ) (dict : List (ℕ × DayTotal))
      → f a ≡ f (total_or_zero (lookup k dict)) +ℤ n
      → sum_by measure (pos 0) (insert k a dict) ≡ sum_by measure (pos 0) dict +ℤ n
  unfolding insert lookup
  sum-insert k a n [] h =
      rw (sum_cons measure (k, a) [], sum_nil measure, h, start) (omega int_laws)
  sum-insert k a n (entry ∷ rest) h = elim (Bool-cases (entry.0 == k)) [
    | inl e ↦
        let found : lookup k (entry ∷ rest) ≡ some (entry.1) = rw e refl in
        let h' : f a ≡ f (entry.1) +ℤ n = subst (λ o. f a ≡ f (total_or_zero o) +ℤ n) found h in
        rw (e, sum_cons measure (k, a) rest, sum_cons measure entry rest, h') (omega int_laws)
    | inr e ↦
        let found : lookup k (entry ∷ rest) ≡ lookup k rest = rw e refl in
        let h' = subst (λ o. f a ≡ f (total_or_zero o) +ℤ n) found h in
        let later = sum-insert k a n rest h' in
        rw (e, sum_cons measure entry (insert k a rest), sum_cons measure entry rest, later)
          (omega int_laws)
  ]

  sum-totals_by_day :
      (dict : List (ℕ × DayTotal)) (orders : List Order)
      → sum_by measure (pos 0) (totals_by_day dict orders)
        ≡ sum_by measure (pos 0) dict +ℤ sum_by g (pos 0) orders
  unfolding totals_by_day
  sum-totals_by_day dict [] = rw (sum_nil g) (omega int_laws)
  sum-totals_by_day dict (o ∷ orders) =
      let a = add_order o (total_or_zero (lookup (day_of o) dict)) in
      rw
        (
          sum-totals_by_day (insert (day_of o) a dict) orders,
          sum-insert (day_of o) a (g o) dict (adds o (total_or_zero (lookup (day_of o) dict))),
          sum_cons g o orders,
        )
        (omega int_laws)

sum_map :
    {A B : Type 0} (h : A → B) (f : B → ℤ) (xs : List A)
    → sum_by f (pos 0) (map h xs) ≡ sum_by (λ x. f (h x)) (pos 0) xs
sum_map {A} {B} h f [] = rw (sum_nil f, sum_nil (λ (x : A). f (h x))) refl
sum_map {A} {B} h f (x ∷ xs) =
    rw (sum_cons f (h x) (map h xs), sum_cons (λ (x : A). f (h x)) x xs, sum_map h f xs) refl

count_of_ones : {A : Type 0} (xs : List A) → sum_by (λ x. pos 1) (pos 0) xs ≡ pos (length xs)
count_of_ones {A} [] = sum_nil (λ (x : A). pos 1)
count_of_ones {A} (x ∷ xs) =
    rw (sum_cons (λ (y : A). pos 1) x xs, count_of_ones xs) (one_more (length xs))
  where
    one_more : (n : ℕ) → pos 1 +ℤ pos n ≡ pos (suc n)
    one_more n = omega int_laws

-- `getDailySummaryRange` returns days with dates that go up, so none twice; their totals add up
-- to the totals of the sold orders that the client finds in the range, and their counts to the
-- number of these orders.
pub get_daily_summary_range-sums :
    (env : Env) (q : Queries) (start_date end_date : ℕ) (restaurant_id : Uuid) (w : World)
    → (days : List DaySummary) × (get_daily_summary_range env q start_date end_date restaurant_id w
        ≡ done days w)
      × IsIncreasing (λ d. d.date) days
      × (sum_by (λ d. d.total_sales_cents) (pos 0) days
          ≡ sum_by
              (λ o. o.total_cents)
              (pos 0)
              (orders_in env (days_range start_date end_date) restaurant_id w))
      × (sum_by (λ d. pos d.ticket_count) (pos 0) days
          ≡ pos (length (orders_in env (days_range start_date end_date) restaurant_id w)))
unfolding get_daily_summary_range gets
get_daily_summary_range-sums env q start_date end_date restaurant_id w =
    let orders = orders_in env (days_range start_date end_date) restaurant_id w in
    let by_day = totals_by_day [] orders in
    let days = map (day_summary env q) by_day in
    let date = λ (d : DaySummary). d.date in
    (
      sort_by date days,
      refl,
      sort_by-IsIncreasing date days (
          map-HasDistinct (day_summary env q) date (λ x. refl) by_day
            (totals_by_day-HasDistinct [] orders tt)),
      sum-sort_by date (λ (d : DaySummary). d.total_sales_cents) days
          ∙ sum_map (day_summary env q) (λ (d : DaySummary). d.total_sales_cents) by_day
          ∙ sum-totals_by_day (λ (e : DayTotal). e.total_cents) (λ (o : Order). o.total_cents)
              (λ o e. refl) refl [] orders
          ∙ from_zero (λ (e : DayTotal). e.total_cents)
              (sum_by (λ (o : Order). o.total_cents) (pos 0) orders),
      sum-sort_by date (λ (d : DaySummary). pos d.ticket_count) days
          ∙ sum_map (day_summary env q) (λ (d : DaySummary). pos d.ticket_count) by_day
          ∙ sum-totals_by_day (λ (e : DayTotal). pos e.count) (λ (o : Order). pos 1)
              (λ o e. more e.count) refl [] orders
          ∙ from_zero (λ (e : DayTotal). pos e.count) (sum_by (λ (o : Order). pos 1) (pos 0) orders)
          ∙ count_of_ones orders,
    )
  where
    from_zero :
        (f : DayTotal → ℤ) (n : ℤ) → sum_by (λ (e : ℕ × DayTotal). f (e.1)) (pos 0) [] +ℤ n ≡ n
    from_zero f n = rw (sum_nil (λ (e : ℕ × DayTotal). f (e.1))) (omega int_laws)

    more : (n : ℕ) → pos (n + 1) ≡ pos n +ℤ pos 1
    more n = omega int_laws
