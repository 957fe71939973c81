-- ===== src/Zones/Codes.antt =====
-- zones/zones.service.ts: the numbers that `computeZoneCode` and `getNextTableName` choose.
use restosync_api.Base.{
  ℕ, zero, suc, ◌+◌, ◌*◌, ◌/◌, ◌%◌, ◌≤◌, ◌<◌, ◌≡◌, refl, sym, ap, ◌∙◌, true, false, some, List, [],
  ◌∷◌, ◌++◌, arith, ◌==◌, ==_iff, length, some_by, Any, inl, inr, ltb, Bool-cases,
}
use restosync_api.Base.Text.{
  Text, same_text, same_text_iff, decimal, decimal_onto, is_digit, parse_decimal,
}
use restosync_api.Base.Search.{first_free-stops, first_free-passes, first_free-le}
use restosync_api.Schema.{Zone}
use restosync_api.World.{Env}
use restosync_api.Names.{normalize_name}
use restosync_api.Names.Digits.{IsCaseMapping, same_name_decimal}
use restosync_api.Zones.{
  strip_prefix, two_digits, used_suffixes, next_suffix, pad_two, table_name, prefix_of, used_codes,
  is_code_used, code_number, compute_zone_code,
}

-- The code with the number `n` is not that of a zone, and each with a smaller number, from 1 on, is.
abbrev pub IsLeastFree : Env → Text → List Zone → ℕ → Type 0
IsLeastFree env name existing n =
    (1 ≤ n)
    × (some_by (same_text (normalize_name env (prefix_of env name ++ decimal n)))
          (used_codes env name existing)
        ≡ false)
    × ((m : ℕ)
        → 1 ≤ m
        → m < n
        → some_by (same_text (normalize_name env (prefix_of env name ++ decimal m)))
            (used_codes env name existing)
          ≡ true)

module _ (env : Env) (case : IsCaseMapping env) where
  one_number :
      (prefix x : Text) (i j : ℕ)
      → same_text (normalize_name env (prefix ++ decimal i)) x ≡ true
      → same_text (normalize_name env (prefix ++ decimal j)) x ≡ true
      → i ≡ j
  one_number prefix x i j h k = same_name_decimal env case prefix i j (
      (same_text_iff (normalize_name env (prefix ++ decimal i)) x).0 h
      ∙ sym ((same_text_iff (normalize_name env (prefix ++ decimal j)) x).0 k))

  -- If `toLowerCase` leaves the digits at a text's end as they are, the loop of
  -- `computeZoneCode` ends by its test: the code is the prefix with a number from 1 on,
  -- normalized it is none of the normalized codes that the method looks at, and with each
  -- smaller number it is one of them.
  pub compute_zone_code-free :
      (name : Text) (existing : List Zone)
      → (n : ℕ) × (compute_zone_code env name existing ≡ prefix_of env name ++ decimal n)
        × IsLeastFree env name existing n
  unfolding compute_zone_code code_number is_code_used
  compute_zone_code-free name existing =
      let prefix = prefix_of env name in
      let used = used_codes env name existing in
      let key : ℕ → Text = λ n. normalize_name env (prefix ++ decimal n) in
      (
        code_number env prefix used,
        refl,
        (
          first_free-le (λ n. some_by (same_text (key n)) used) (suc (length used)) 1,
          first_free-stops same_text key (one_number prefix) used 1,
          λ m low high.
              first_free-passes (λ n. some_by (same_text (key n)) used) (suc (length used)) 1 m low
                high,
        ),
      )

next_suffix-free : (used : List ℕ) → some_by (◌==◌ (next_suffix used)) used ≡ false
unfolding next_suffix
next_suffix-free used =
    first_free-stops ◌==◌ (λ n. n) (λ x i j h k. (==_iff i x).0 h ∙ sym ((==_iff j x).0 k)) used 1

pub next_suffix-least :
    (used : List ℕ)
    → (1 ≤ next_suffix used)
      × ((m : ℕ) → 1 ≤ m → m < next_suffix used → some_by (◌==◌ m) used ≡ true)
unfolding next_suffix
next_suffix-least used = (
  first_free-le (λ n. some_by (◌==◌ n) used) (suc (length used)) 1,
  first_free-passes (λ n. some_by (◌==◌ n) used) (suc (length used)) 1,
)

strip_prefix-append : (code s : Text) → strip_prefix code (code ++ s) ≡ some s
strip_prefix-append [] s = refl
strip_prefix-append (c ∷ code) s = ground (arith, strip_prefix-append code s)

two_of :
    (m : ℕ)
    → 10 ≤ suc m
    → suc m < 100
    → decimal (suc m) ≡ (48 + suc m / 10) ∷ (48 + suc m % 10) ∷ []
unfolding decimal decimal_onto
two_of m low high = ground arith

one_of : (n : ℕ) → n < 10 → decimal n ≡ (48 + n) ∷ []
unfolding decimal decimal_onto
one_of n h = ground arith

small_digit : (d : ℕ) → d < 10 → is_digit (48 + d) ≡ true
unfolding is_digit
small_digit d h = ground arith

parse_two : (a b : ℕ) → parse_decimal ((48 + a) ∷ (48 + b) ∷ []) ≡ a * 10 + b
unfolding parse_decimal
parse_two a b = omega arith

two_digits_of :
    (a b : ℕ) → a < 10 → b < 10 → two_digits (some ((48 + a) ∷ (48 + b) ∷ [])) ≡ (a * 10 + b) ∷ []
two_digits_of a b h k = rw (small_digit a h, small_digit b k, parse_two a b)

two_digits-pad : (n : ℕ) → n < 100 → two_digits (some (pad_two (decimal n))) ≡ n ∷ []
two_digits-pad zero h = rw (one_of 0 (omega arith)) (two_digits_of 0 0 (omega arith) (omega arith))
two_digits-pad (suc m) h = elim (Bool-cases (ltb (suc m) 10)) [
  | inl e ↦
      let q : 0 * 10 + suc m ≡ suc m = omega arith in
      rw (one_of (suc m) (ground arith))
        (two_digits_of 0 (suc m) (omega arith) (ground arith) ∙ ap (λ n. n ∷ []) q)
  | inr e ↦
      let low : 10 ≤ suc m = ground arith in
      let q : suc m / 10 * 10 + suc m % 10 ≡ suc m = omega arith in
      rw (two_of m low h)
        (two_digits_of (suc m / 10) (suc m % 10) (omega arith) (omega arith) ∙ ap (λ n. n ∷ []) q)
]

some_append_left :
    (n : ℕ) (xs ys : List ℕ) → some_by (◌==◌ n) xs ≡ true → some_by (◌==◌ n) (xs ++ ys) ≡ true
some_append_left n [] ys h = cc
some_append_left n (x ∷ xs) ys h = ground (arith, some_append_left n xs ys)

some_append_right :
    (n : ℕ) (xs ys : List ℕ) → some_by (◌==◌ n) ys ≡ true → some_by (◌==◌ n) (xs ++ ys) ≡ true
some_append_right n [] ys h = h
some_append_right n (x ∷ xs) ys h = ground (arith, some_append_right n xs ys h)

-- A name of two digits after the code uses its number up.
suffix_used :
    (code : Text) (names : List Text) (n : ℕ)
    → n < 100
    → Any (λ name. name ≡ table_name code n) names
    → some_by (◌==◌ n) (used_suffixes code names) ≡ true
unfolding used_suffixes table_name
suffix_used code [] n h a = elim a [ ]
suffix_used code (name ∷ rest) n h (inl e) =
    some_append_left n (two_digits (strip_prefix code name)) (used_suffixes code rest)
      (rw (e, strip_prefix-append code (pad_two (decimal n)), two_digits-pad n h) (ground arith))
suffix_used code (name ∷ rest) n h (inr later) =
    some_append_right n (two_digits (strip_prefix code name)) (used_suffixes code rest)
      (suffix_used code rest n h later)

pub next_suffix-unused :
    (code : Text) (names : List Text)
    → next_suffix (used_suffixes code names) < 100
    → ¬ Any (λ name. name ≡ table_name code (next_suffix (used_suffixes code names))) names
next_suffix-unused code names h taken =
    let n = next_suffix (used_suffixes code names) in
    let free = next_suffix-free (used_suffixes code names) in
    let used = suffix_used code names n h taken in cc
