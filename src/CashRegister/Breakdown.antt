-- ===== src/CashRegister/Breakdown.antt =====
-- cash-register/cash-register.service.ts: the breakdown of a summary by payment method.
use restosync_api.Base.{
  ℕ, ◌≡◌, refl, ap, sym, ◌∙◌, false, Option, none, some, List, [], ◌∷◌, arith, All, Bool-cases, inl,
  inr,
}
use restosync_api.Base.Dict.{lookup, insert, lookup-insert}
use restosync_api.Base.Int.{ℤ, pos, ltb_ℤ, ◌≤ℤ◌, ◌+ℤ◌, sum_by, sum_by-acc, +ℤ_parts, int_laws}
use restosync_api.Schema.{Payment, PaymentMethod, payment_method_index}
use restosync_api.World.{cents_or_zero}
use restosync_api.CashRegister.{
  by_method_raw, keep_positive, by_method_of, by_method, payment_methods,
}

-- The raw amount of a method
abbrev amount_at : ℕ → List (ℕ × ℤ) → ℤ
amount_at k raw = cents_or_zero (lookup k raw)

-- The amounts of the four methods together
abbrev total : List (ℕ × ℤ) → ℤ
total raw = amount_at 0 raw +ℤ amount_at 1 raw +ℤ amount_at 2 raw +ℤ amount_at 3 raw

total-insert :
    (m : PaymentMethod) (a : ℤ) (raw : List (ℕ × ℤ))
    → let k = payment_method_index m in total (insert k (amount_at k raw +ℤ a) raw) ≡ total raw +ℤ a
total-insert PaymentMethod.cash a raw = simp lookup-insert (omega int_laws)
total-insert PaymentMethod.card a raw = simp lookup-insert (omega int_laws)
total-insert PaymentMethod.transfer a raw = simp lookup-insert (omega int_laws)
total-insert PaymentMethod.stripe a raw = simp lookup-insert (omega int_laws)

total-by_method_raw :
    (payments : List Payment) (raw : List (ℕ × ℤ))
    → total (by_method_raw payments raw) ≡ sum_by (λ p. p.amount_cents) (total raw) payments
unfolding by_method_raw sum_by
total-by_method_raw [] raw = refl
total-by_method_raw (p ∷ rest) raw =
    let k = payment_method_index p.method in
    total-by_method_raw rest (insert k (amount_at k raw +ℤ p.amount_cents) raw)
    ∙ ap (λ t. sum_by (λ (q : Payment). q.amount_cents) t rest)
        (total-insert p.method p.amount_cents raw)

-- No method has a negative amount.
abbrev IsNonnegative : List (ℕ × ℤ) → Type 0
IsNonnegative raw = (k : ℕ) → pos 0 ≤ℤ amount_at k raw

insert-IsNonnegative :
    (m : ℕ) (a : ℤ) (raw : List (ℕ × ℤ))
    → pos 0 ≤ℤ a
    → IsNonnegative raw
    → IsNonnegative (insert m (amount_at m raw +ℤ a) raw)
insert-IsNonnegative m a raw h n k =
    ground
      (arith, lookup-insert m k (amount_at m raw +ℤ a) raw, n k, n m, +ℤ_parts (amount_at m raw) a)

by_method_raw-IsNonnegative :
    (payments : List Payment) (raw : List (ℕ × ℤ))
    → All (λ (p : Payment). pos 0 ≤ℤ p.amount_cents) payments
    → IsNonnegative raw
    → IsNonnegative (by_method_raw payments raw)
unfolding by_method_raw
by_method_raw-IsNonnegative [] raw h n = n
by_method_raw-IsNonnegative (p ∷ rest) raw h n =
    by_method_raw-IsNonnegative rest _ h.1
      (insert-IsNonnegative (payment_method_index p.method) p.amount_cents raw h.0 n)

abbrev total_of_methods : List (PaymentMethod × ℤ) → ℤ
total_of_methods = sum_by (λ e. e.1) (pos 0)

zero_add : (a : ℤ) → pos 0 +ℤ a ≡ a
zero_add a = omega int_laws

zero_of : (a : ℤ) → ltb_ℤ (pos 0) a ≡ false → pos 0 ≤ℤ a → a ≡ pos 0
zero_of a e h = ground arith

total-keep_positive :
    (m : PaymentMethod) (o : Option ℤ) (rest : List (PaymentMethod × ℤ))
    → pos 0 ≤ℤ cents_or_zero o
    → total_of_methods (keep_positive m o rest) ≡ cents_or_zero o +ℤ total_of_methods rest
unfolding keep_positive sum_by
total-keep_positive m none rest h = omega int_laws
total-keep_positive m (some a) rest h = elim (Bool-cases (ltb_ℤ (pos 0) a)) [
  | inl e ↦ rw e (
      sum_by-acc (λ (x : PaymentMethod × ℤ). x.1) (pos 0 +ℤ a) rest
      ∙ ap (λ z. z +ℤ total_of_methods rest) (zero_add a))
  | inr e ↦ rw (e, zero_of a e h) (sym (zero_add (total_of_methods rest)))
]

total-by_method_of :
    (raw : List (ℕ × ℤ)) (methods : List PaymentMethod)
    → IsNonnegative raw
    → total_of_methods (by_method_of raw methods)
      ≡ sum_by (λ m. amount_at (payment_method_index m) raw) (pos 0) methods
unfolding by_method_of sum_by
total-by_method_of raw [] n = refl
total-by_method_of raw (m ∷ rest) n =
    let k = payment_method_index m in
    total-keep_positive m (lookup k raw) (by_method_of raw rest) (n k)
    ∙ ap (λ z. amount_at k raw +ℤ z) (total-by_method_of raw rest n)
    ∙ sym (
        sum_by-acc (λ (x : PaymentMethod). amount_at (payment_method_index x) raw)
          (pos 0 +ℤ amount_at k raw) rest
        ∙ ap
            (λ z.
              z
              +ℤ sum_by (λ (x : PaymentMethod). amount_at (payment_method_index x) raw) (pos 0)
                  rest)
            (zero_add (amount_at k raw)))

-- If no payment has a negative amount, the amounts of the summary by method add up to the sum of
-- the payments' amounts.
pub by_method_total :
    (payments : List Payment)
    → All (λ (p : Payment). pos 0 ≤ℤ p.amount_cents) payments
    → sum_by (λ e. e.1) (pos 0) (by_method payments) ≡ sum_by (λ p. p.amount_cents) (pos 0) payments
unfolding by_method sum_by lookup ◌+ℤ◌
by_method_total payments h =
    total-by_method_of (by_method_raw payments []) payment_methods
      (by_method_raw-IsNonnegative payments [] h (λ k. omega arith))
    ∙ four (by_method_raw payments [])
    ∙ total-by_method_raw payments []
  where
    four :
        (raw : List (ℕ × ℤ))
        → pos 0 +ℤ amount_at 0 raw +ℤ amount_at 1 raw +ℤ amount_at 2 raw +ℤ amount_at 3 raw
          ≡ total raw
    four raw =
        ap (λ z. z +ℤ amount_at 1 raw +ℤ amount_at 2 raw +ℤ amount_at 3 raw)
          (zero_add (amount_at 0 raw))
