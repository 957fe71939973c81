-- ===== src/Base/Number.antt =====
-- JavaScript's numbers, the doubles of IEEE 754, which a `Float` column stores too. A double is its
-- 64 bits, read as a natural number. What the language computes with doubles is a parameter, since
-- it rounds, and `IsFloats` states the documented behaviour of `Math.max` that the services rely on;
-- it is true of infinities and of NaN, too.
use restosync_api.Base.{ℕ, Bool, true, false, ◌≡◌}

abbrev pub Float : Type 0
Float = ℕ

pub record Floats : Type 0 where
  -- The double of a whole number
  pub number : ℕ → Float
  pub add : Float → Float → Float
  pub negated : Float → Float
  -- `Math.max`
  pub max : Float → Float → Float
  -- `<`, `<=` and `===`
  pub less : Float → Float → Bool
  pub at_most : Float → Float → Bool
  pub same : Float → Float → Bool

-- `Math.max` gives the greater of two numbers, and is never less than its first argument.
pub record IsFloats (f : Floats) : Type 0 where
  pub max_second : (x y : Float) → f.less x y ≡ true → f.max x y ≡ y
  pub max_first : (x y : Float) → f.less y x ≡ true → f.max x y ≡ x
  pub max_not_less : (x y : Float) → f.less (f.max x y) x ≡ false
