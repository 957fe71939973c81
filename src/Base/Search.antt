-- ===== src/Base/Search.antt =====
-- The loop `while (used.has(key(n))) n += 1`: with as many rounds as there are keys in use and one
-- more, it stops by its test.
use restosync_api.Base.{
  ℕ, zero, suc, ◌+◌, ◌≤◌, ◌<◌, ◌≡◌, refl, Bool, true, false, List, [], ◌∷◌, arith, ◌⊎◌, inl, inr,
  if◌then◌else◌, length, some_by, Bool-cases, subst, ◌==◌,
}

unfoldable pub first_free : (ℕ → Bool) → ℕ → ℕ → ℕ
first_free taken zero n = n
first_free taken (suc rounds) n =
    let later = first_free taken rounds (n + 1) in if taken n then later else n

-- How many of the `rounds` numbers from `n` on are taken
hits : (ℕ → Bool) → ℕ → ℕ → ℕ
hits taken zero n = 0
hits taken (suc rounds) n =
    let later = hits taken rounds (n + 1) in if taken n then suc later else later

stops_or_full :
    (taken : ℕ → Bool) (rounds n : ℕ)
    → (taken (first_free taken rounds n) ≡ false) ⊎ (hits taken rounds n ≡ rounds)
unfolding first_free hits
stops_or_full taken zero n = inr refl
stops_or_full taken (suc rounds) n = elim (Bool-cases (taken n)) [
  | inr e ↦ inl (rw (e, e) refl)
  | inl e ↦ elim (stops_or_full taken rounds (n + 1)) [
    | inl stops ↦ inl (rw e stops)
    | inr full ↦ inr (rw (e, full) refl)
  ]
]

-- What the loop passes over is taken.
pub first_free-passes :
    (taken : ℕ → Bool) (rounds n j : ℕ) → n ≤ j → j < first_free taken rounds n → taken j ≡ true
unfolding first_free
first_free-passes taken zero n j low high = absurd (omega arith)
first_free-passes taken (suc rounds) n j low high =
    let later = first_free-passes taken rounds (n + 1) j in
    elim (Bool-cases (taken n)) [
      | inr e ↦ let high' : j < n = ground arith in absurd (omega arith)
      | inl e ↦
          let high' : j < first_free taken rounds (n + 1) = ground arith in
          elim (Bool-cases (n == j)) [
            | inl same ↦ let q : n ≡ j = ground arith in subst (λ i. taken i ≡ true) q e
            | inr other ↦ later (ground arith) high'
          ]
    ]

pub first_free-le : (taken : ℕ → Bool) (rounds n : ℕ) → n ≤ first_free taken rounds n
unfolding first_free
first_free-le taken zero n = omega arith
first_free-le taken (suc rounds) n = ground (arith, first_free-le taken rounds (n + 1))

module _ {A : Type 0} (eq : A → A → Bool) (key : ℕ → A)
    (one : (x : A) (i j : ℕ) → eq (key i) x ≡ true → eq (key j) x ≡ true → i ≡ j) where
  none_later :
      (x : A) (i rounds n : ℕ) → eq (key i) x ≡ true → i < n → hits (λ m. eq (key m) x) rounds n ≡ 0
  unfolding hits
  none_later x i zero n e h = refl
  none_later x i (suc rounds) n e h =
      let later = none_later x i rounds (n + 1) e (omega arith) in
      elim (Bool-cases (eq (key n) x)) [
        | inl f ↦ let same = one x i n e f in absurd (omega arith)
        | inr f ↦ rw f later
      ]

  at_most_one : (x : A) (rounds n : ℕ) → hits (λ m. eq (key m) x) rounds n ≤ 1
  unfolding hits
  at_most_one x zero n = omega arith
  at_most_one x (suc rounds) n = elim (Bool-cases (eq (key n) x)) [
    | inl f ↦ let none = none_later x n rounds (n + 1) f (omega arith) in rw (f, none) (omega arith)
    | inr f ↦ rw f (at_most_one x rounds (n + 1))
  ]

  hits-cons :
      (x : A) (used : List A) (rounds n : ℕ)
      → hits (λ m. some_by (eq (key m)) (x ∷ used)) rounds n
        ≤ hits (λ m. eq (key m) x) rounds n + hits (λ m. some_by (eq (key m)) used) rounds n
  unfolding hits
  hits-cons x used zero n = omega arith
  hits-cons x used (suc rounds) n = let later = hits-cons x used rounds (n + 1) in ground arith

  hits-nil : (rounds n : ℕ) → hits (λ m. some_by (eq (key m)) []) rounds n ≡ 0
  unfolding hits
  hits-nil zero n = refl
  hits-nil (suc rounds) n = hits-nil rounds (n + 1)

  hits-length :
      (used : List A) (rounds n : ℕ) → hits (λ m. some_by (eq (key m)) used) rounds n ≤ length used
  hits-length [] rounds n = let e = hits-nil rounds n in omega arith
  hits-length (x ∷ used) rounds n =
      let a = hits-cons x used rounds n in
      let b = at_most_one x rounds n in let c = hits-length used rounds n in omega arith

  -- Distinct numbers have distinct keys, so one more round than there are keys is enough.
  pub first_free-stops :
      (used : List A) (n : ℕ)
      → some_by (eq (key (first_free (λ m. some_by (eq (key m)) used) (suc (length used)) n))) used
        ≡ false
  first_free-stops used n =
      elim (stops_or_full (λ m. some_by (eq (key m)) used) (suc (length used)) n) [
        | inl stops ↦ stops
        | inr full ↦ let le = hits-length used (suc (length used)) n in absurd (omega arith)
      ]
