-- ===== src/Base/Dict.antt =====
-- JavaScript's `Map` with numbers for keys: the entries in the order of their first insertion.
use restosync_api.Base.{◌≡◌, arith, if◌then◌else◌, ◌==◌, List, ◌∷◌, [], some, none, Option, refl, ℕ}

-- `m.get(key)`
unfoldable pub lookup {ℓ} : {A : Type ℓ} → ℕ → List (ℕ × A) → Option A
lookup key [] = none
lookup key (entry ∷ others) =
    let found = lookup key others in if entry.0 == key then some entry.1 else found

-- `m.set(key, a)`: a key that is there keeps its place.
unfoldable pub insert {ℓ} : {A : Type ℓ} → ℕ → A → List (ℕ × A) → List (ℕ × A)
insert key a [] = (key, a) ∷ []
insert key a (entry ∷ others) =
    let changed = insert key a others in
    if entry.0 == key then (key, a) ∷ others else entry ∷ changed

-- `m.get(key) ?? 0`
unfoldable pub get_or_zero : Option ℕ → ℕ
get_or_zero none = 0
get_or_zero (some n) = n

-- What is read after a write: what was written under that key, and the old value under another.
pub lookup-insert {ℓ} :
    {A : Type ℓ} (written read : ℕ) (a : A) (dict : List (ℕ × A))
    → lookup read (insert written a dict) ≡ (if written == read then some a else lookup read dict)
unfolding lookup insert
lookup-insert written read a [] = refl
lookup-insert written read a (entry ∷ others) = ground (arith, lookup-insert written read a others)
