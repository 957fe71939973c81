-- ===== src/Base/Text.antt =====
-- JavaScript's strings as lists of UTF-16 code units: their equality, white space, and decimals.
use Prim.Native.Char.{code}
use Prim.Native.String.{String}
use restosync_api.Base.{
  ℕ, zero, suc, ◌+◌, ◌-◌, ◌*◌, ◌/◌, ◌%◌, ◌<◌, ◌≡◌, ◌↔◌, refl, sym, ap, ◌∙◌, Bool, true, false, ◌&&◌,
  ◌||◌, List, [], ◌∷◌, arith, ◌==◌, ltb, leb, if◌then◌else◌,
}

abbrev pub Text : Type 0
Text = List ℕ

-- The code units of a literal, which are its code points in the plane of ASCII
abbrev pub codes : String → Text
codes String.[] = []
codes (String.◌∷◌ c s) = code c ∷ codes s

-- `s === t`
abbrev pub same_text : Text → Text → Bool
same_text [] [] = true
same_text (a ∷ s) (b ∷ t) = a == b && same_text s t
same_text [] (b ∷ t) = false
same_text (a ∷ s) [] = false

pub same_text_iff : (s t : Text) → (same_text s t ≡ true) ↔ (s ≡ t)
same_text_iff [] [] = ground arith
same_text_iff (a ∷ s) (b ∷ t) = ground (arith, same_text_iff s t)
same_text_iff [] (b ∷ t) = ground arith
same_text_iff (a ∷ s) [] = ground arith

pub same_text_comm : (s t : Text) → same_text s t ≡ same_text t s
same_text_comm [] [] = refl
same_text_comm (a ∷ s) (b ∷ t) = ground (arith, same_text_comm s t)
same_text_comm [] (b ∷ t) = refl
same_text_comm (a ∷ s) [] = refl

-- The class `\s` of regular expressions, which is also what `trim` takes off.
unfoldable pub is_space : ℕ → Bool
is_space c =
    (leb 9 c && leb c 13)
    || c == 32
    || c == 160
    || c == 5760
    || (leb 8192 c && leb c 8202)
    || c == 8232
    || c == 8233
    || c == 8239
    || c == 8287
    || c == 12288
    || c == 65279

unfoldable pub is_digit : ℕ → Bool
is_digit c = leb 48 c && leb c 57

-- `String(n)`: the last digit goes in front of those that follow.
unfoldable pub decimal_onto : ℕ → ℕ → Text → Text
decimal_onto zero n after = after
decimal_onto (suc fuel) n after =
    let digit = 48 + n % 10 in
    let rest = decimal_onto fuel (n / 10) (digit ∷ after) in
    if ltb n 10 then digit ∷ after else rest

unfoldable pub decimal : ℕ → Text
unfolding decimal_onto
decimal n = decimal_onto (suc n) n []

-- `parseInt` of decimal digits
unfoldable pub parse_onto : ℕ → Text → ℕ
parse_onto n [] = n
parse_onto n (c ∷ rest) = parse_onto (n * 10 + (c - 48)) rest

unfoldable pub parse_decimal : Text → ℕ
unfolding parse_onto
parse_decimal s = parse_onto 0 s

parse_onto-decimal_onto :
    (fuel n : ℕ) (after : Text)
    → n < fuel
    → parse_onto 0 (decimal_onto fuel n after) ≡ parse_onto n after
unfolding parse_onto decimal_onto
parse_onto-decimal_onto zero n after h = absurd (omega arith)
parse_onto-decimal_onto (suc fuel) n after h =
    ground (arith, parse_onto-decimal_onto fuel (n / 10) ((48 + n % 10) ∷ after))

-- A number is read back from its decimal digits.
pub parse_decimal-decimal : (n : ℕ) → parse_decimal (decimal n) ≡ n
unfolding parse_decimal decimal
parse_decimal-decimal n = parse_onto-decimal_onto (suc n) n [] (omega arith)

pub decimal_injective : (m n : ℕ) → decimal m ≡ decimal n → m ≡ n
decimal_injective m n e =
    sym (parse_decimal-decimal m) ∙ ap parse_decimal e ∙ parse_decimal-decimal n
