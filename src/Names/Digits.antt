-- ===== src/Names/Digits.antt =====
-- common/utils/normalize-name.ts: names that end in a number, as `normalizeName` leaves them.
use mathlib.Core.List.{append_cancel_left}
use restosync_api.Base.{
  ℕ, zero, suc, ◌+◌, ◌/◌, ◌%◌, ◌<◌, ◌≡◌, refl, sym, ap, ◌∙◌, Bool, true, false, [], ◌∷◌, ◌++◌,
  arith, All, ltb, Bool-cases, inl, inr,
}
use restosync_api.Base.Text.{Text, is_space, decimal_onto, decimal, decimal_injective}
use restosync_api.World.{Env}
use restosync_api.Names.{trim_start, trim_end, trim, is_empty, collapse, normalize_name}

-- `toLowerCase` leaves digits at the end of a text as they are.
pub record IsCaseMapping (env : Env) : Type 0 where
  pub lower_decimal :
      (s : Text) (n : ℕ) → env.to_lower_case (s ++ decimal n) ≡ env.to_lower_case s ++ decimal n

abbrev IsSolid : Text → Type 0
IsSolid = All (λ c. is_space c ≡ false)

digit-solid : (n : ℕ) → n < 10 → is_space (48 + n) ≡ false
unfolding is_space
digit-solid n h = ground arith

decimal_onto-IsSolid :
    (fuel n : ℕ) (after : Text) → IsSolid after → IsSolid (decimal_onto fuel n after)
unfolding decimal_onto
decimal_onto-IsSolid zero n after h = h
decimal_onto-IsSolid (suc fuel) n after h =
    let here = digit-solid (n % 10) (omega arith) in
    elim (Bool-cases (ltb n 10)) [
      | inl e ↦ rw e (here, h)
      | inr e ↦ rw e (decimal_onto-IsSolid fuel (n / 10) ((48 + n % 10) ∷ after) (here, h))
    ]

decimal-IsSolid : (n : ℕ) → IsSolid (decimal n)
unfolding decimal
decimal-IsSolid n = decimal_onto-IsSolid (suc n) n [] tt

onto-nonempty :
    (fuel n : ℕ) (c : ℕ) (after : Text) → is_empty (decimal_onto fuel n (c ∷ after)) ≡ false
unfolding decimal_onto
onto-nonempty zero n c after = refl
onto-nonempty (suc fuel) n c after = elim (Bool-cases (ltb n 10)) [
  | inl e ↦ rw e refl
  | inr e ↦ rw e (onto-nonempty fuel (n / 10) (48 + n % 10) (c ∷ after))
]

decimal-nonempty : (n : ℕ) → is_empty (decimal n) ≡ false
unfolding decimal decimal_onto
decimal-nonempty n = elim (Bool-cases (ltb n 10)) [
  | inl e ↦ rw e refl
  | inr e ↦ rw e (onto-nonempty n (n / 10) (48 + n % 10) [])
]

module _ (ds : Text) (solid : IsSolid ds) where
  collapse_solid : (b : Bool) (xs : Text) → IsSolid xs → collapse b xs ≡ xs
  unfolding collapse
  collapse_solid b [] h = refl
  collapse_solid b (c ∷ xs) (h, rest) = rw (h, collapse_solid false xs rest)

  trim_end_solid : (xs : Text) → IsSolid xs → trim_end xs ≡ xs
  unfolding trim_end
  trim_end_solid [] h = refl
  trim_end_solid (c ∷ xs) (h, rest) = rw (h, trim_end_solid xs rest)

  trim_start_solid : (xs : Text) → IsSolid xs → trim_start xs ≡ xs
  unfolding trim_start
  trim_start_solid [] h = refl
  trim_start_solid (c ∷ xs) (h, rest) = rw h

  collapse-append : (b : Bool) (s : Text) → collapse b (s ++ ds) ≡ collapse b s ++ ds
  unfolding collapse
  collapse-append b [] = collapse_solid b ds solid
  collapse-append b (c ∷ s) =
      let in_space = collapse-append true s in
      let in_word = collapse-append false s in
      elim (Bool-cases (is_space c)) [
        | inl e ↦ elim (Bool-cases b) [ inl f ↦ rw (e, f, in_space) | inr f ↦ rw (e, f, in_space) ]
        | inr e ↦ rw (e, in_word)
      ]

  trim_start-append : (s : Text) → trim_start (s ++ ds) ≡ trim_start s ++ ds
  unfolding trim_start
  trim_start-append [] = trim_start_solid ds solid
  trim_start-append (c ∷ s) = elim (Bool-cases (is_space c)) [
    | inl e ↦ rw e (trim_start-append s)
    | inr e ↦ rw e
  ]

  append-nonempty : (s : Text) → is_empty ds ≡ false → is_empty (s ++ ds) ≡ false
  append-nonempty [] h = h
  append-nonempty (c ∷ s) h = refl

  trim_end-append : (s : Text) → is_empty ds ≡ false → trim_end (s ++ ds) ≡ s ++ ds
  unfolding trim_end
  trim_end-append [] h = trim_end_solid ds solid
  trim_end-append (c ∷ s) h =
      let rest = trim_end-append s h in
      let more = append-nonempty s h in
      elim (Bool-cases (is_space c)) [ inl e ↦ rw (e, rest, more) | inr e ↦ rw (e, rest) ]

module _ (env : Env) (case : IsCaseMapping env) where
  normalize_name-decimal :
      (s : Text) (n : ℕ)
      → normalize_name env (s ++ decimal n)
        ≡ env.to_lower_case (collapse false (trim_start s)) ++ decimal n
  unfolding normalize_name trim
  normalize_name-decimal s n =
      let solid = decimal-IsSolid n in
      ap env.to_lower_case (
        rw (
          trim_start-append (decimal n) solid s,
          trim_end-append (decimal n) solid (trim_start s) (decimal-nonempty n),
          collapse-append (decimal n) solid false (trim_start s),
        ))
      ∙ case.lower_decimal (collapse false (trim_start s)) n

  -- The same prefix with two numbers makes the same name only if the numbers are the same.
  pub same_name_decimal :
      (s : Text) (m n : ℕ)
      → normalize_name env (s ++ decimal m) ≡ normalize_name env (s ++ decimal n)
      → m ≡ n
  same_name_decimal s m n e = decimal_injective m n (
      append_cancel_left (env.to_lower_case (collapse false (trim_start s))) (decimal m) (decimal n)
        (sym (normalize_name-decimal s m) ∙ e ∙ normalize_name-decimal s n))
