-- ===== src/Memory.antt =====
-- A database in memory, for the tests: the operations of `Delegate` on a list of rows, which show
-- that the laws of `IsDatabase` can hold. Rows come back in the order in which they are stored.
use mathlib.Core.Option
use Prim.Native.Nat.{max}
use restosync_api.Base.{
  ℕ, suc, ◌<◌, ◌≡◌, refl, Bool, Bool-cases, ==_iff, ◌⊎◌, sym, subst, inl, inr, true, false, not,
  Option, none, some, List, [], ◌∷◌, map, arith, ◌==◌, if◌then◌else◌, filter_by, find_by, All, Any,
  ◌∙◌, ap,
}
use restosync_api.Schema.{Uuid}
use restosync_api.Prisma.{Delegate, IsDatabase, unless}

module _ {Row : Type 0} where
  abbrev pub rewrite : (Row → Uuid) → Uuid → (Row → Row) → List Row → List Row
  rewrite id i f [] = []
  rewrite id i f (r ∷ rows) = (if id r == i then f r else r) ∷ rewrite id i f rows

  abbrev pub highest : (Row → Uuid) → List Row → ℕ
  highest id [] = 0
  highest id (r ∷ rows) = max (id r) (highest id rows)

  abbrev pub pick : (Row → Bool) → Option Row → Option Row → Option Row
  pick p none rest = rest
  pick p (some r) rest = if p r then some r else rest

  pick-some :
      (p : Row → Bool) (o rest : Option Row) (r : Row)
      → pick p o rest ≡ some r
      → ((o ≡ some r) × (p r ≡ true)) ⊎ (rest ≡ some r)
  pick-some p none rest r h = inr h
  pick-some p (some y) rest r h = elim (Bool-cases (p y)) [
    | inl e ↦ inl (ground arith, ground arith)
    | inr e ↦ inr (ground arith)
  ]

  pick-none :
      (p : Row → Bool) (o rest : Option Row)
      → pick p o rest ≡ none
      → (rest ≡ none) × ((r : Row) → o ≡ some r → p r ≡ false)
  pick-none p none rest h = (h, λ r e. cc)
  pick-none p (some y) rest h = (ground arith, λ r e. ground arith)

  -- The first row that satisfies `p`, each row read by its id.
  abbrev pub first_stored : (Row → Uuid) → (Row → Bool) → List Row → List Row → Option Row
  first_stored id p table [] = none
  first_stored id p table (x ∷ rows) =
      let rest = first_stored id p table rows in pick p (find_by (λ r. id r == id x) table) rest

  -- Whether a row, as it is read by its id, stays.
  abbrev pub survives : (Row → Bool) → Option Row → Bool
  survives p none = true
  survives p (some r) = not (p r)

  abbrev pub memory : (Row → Uuid) → Delegate Row
  memory id = record {
    find_unique = λ i rows. find_by (λ r. id r == i) rows;
    find_first = λ p o rows. first_stored id p rows rows;
    find_many = λ p o rows. filter_by p rows;
    create = λ r rows. r ∷ rows;
    update = rewrite id;
    delete = λ i rows. filter_by (λ r. not (id r == i)) rows;
    delete_many = λ p rows. filter_by (λ r. survives p (find_by (λ x. id x == id r) rows)) rows;
    set_null = map;
    new_id = λ rows. suc (highest id rows);
  }

  found_id :
      (id : Row → Uuid) (i : Uuid) (rows : List Row) (r : Row)
      → find_by (λ x. id x == i) rows ≡ some r
      → id r ≡ i
  found_id id i [] r h = cc
  found_id id i (x ∷ rows) r h = ground (arith, found_id id i rows r)

  found_update :
      (id : Row → Uuid) (i j : Uuid) (f : Row → Row) (rows : List Row)
      → ((r : Row) → id (f r) ≡ id r)
      → find_by (λ r. id r == j) (rewrite id i f rows) ≡ (
          if i == j
          then Option.map f (find_by (λ r. id r == j) rows)
          else find_by (λ r. id r == j) rows)
  found_update id i j f [] keep = ground arith
  found_update id i j f (x ∷ rows) keep = ground (arith, found_update id i j f rows keep, keep x)

  found_delete :
      (id : Row → Uuid) (i j : Uuid) (rows : List Row)
      → find_by (λ r. id r == j) (filter_by (λ r. not (id r == i)) rows)
        ≡ (if i == j then none else find_by (λ r. id r == j) rows)
  found_delete id i j [] = ground arith
  found_delete id i j (x ∷ rows) = ground (arith, found_delete id i j rows)

  found_kept :
      (id : Row → Uuid) (stays : Uuid → Bool) (j : Uuid) (rows : List Row)
      → find_by (λ r. id r == j) (filter_by (λ r. stays (id r)) rows)
        ≡ (if stays j then find_by (λ r. id r == j) rows else none)
  found_kept id stays j [] = ground arith
  found_kept id stays j (x ∷ rows) = ground (arith, found_kept id stays j rows)

  survives-unless :
      (p : Row → Bool) (o : Option Row) → (if survives p o then o else none) ≡ unless p o
  survives-unless p none = refl
  survives-unless p (some r) = ground arith

  found_set_null :
      (id : Row → Uuid) (j : Uuid) (f : Row → Row) (rows : List Row)
      → ((r : Row) → id (f r) ≡ id r)
      → find_by (λ r. id r == j) (map f rows) ≡ Option.map f (find_by (λ r. id r == j) rows)
  found_set_null id j f [] keep = refl
  found_set_null id j f (x ∷ rows) keep = ground (arith, found_set_null id j f rows keep, keep x)

  many_found :
      (id : Row → Uuid) (p : Row → Bool) (i : Uuid) (rows : List Row) (r : Row)
      → find_by (λ x. id x == i) rows ≡ some r
      → p r ≡ true
      → Any (λ x. x ≡ r) (filter_by p rows)
  many_found id p i [] r h k = cc
  many_found id p i (x ∷ rows) r h k =
      let later = many_found id p i rows r in
      elim (Bool-cases (id x == i)) [
        | inl e ↦ let same : x ≡ r = ground arith in rw (ap p same ∙ k) (inl same)
        | inr e ↦
            let h' : find_by (λ y. id y == i) rows ≡ some r = ground arith in
            elim (Bool-cases (p x)) [ inl q ↦ rw q (inr (later h' k)) | inr q ↦ rw q (later h' k) ]
      ]

  above_highest :
      (id : Row → Uuid) (n : ℕ) (rows : List Row)
      → highest id rows < n
      → find_by (λ r. id r == n) rows ≡ none
  above_highest id n [] h = refl
  above_highest id n (x ∷ rows) h = ground (arith, above_highest id n rows (omega arith))

  first_where :
      (id : Row → Uuid) (p : Row → Bool) (table rows : List Row) (r : Row)
      → first_stored id p table rows ≡ some r
      → p r ≡ true
  first_where id p table [] r h = cc
  first_where id p table (x ∷ rows) r h = elim (pick-some p _ (first_stored id p table rows) r h) [
    | inl hit ↦ hit.1
    | inr later ↦ first_where id p table rows r later
  ]

  first_found :
      (id : Row → Uuid) (p : Row → Bool) (table rows : List Row) (r : Row)
      → first_stored id p table rows ≡ some r
      → find_by (λ x. id x == id r) table ≡ some r
  first_found id p table [] r h = cc
  first_found id p table (x ∷ rows) r h = elim (pick-some p _ (first_stored id p table rows) r h) [
    | inl hit ↦
        subst (λ i. find_by (λ y. id y == i) table ≡ some r)
          (sym (found_id id (id x) table r hit.0)) hit.0
    | inr later ↦ first_found id p table rows r later
  ]

  first_none :
      (id : Row → Uuid) (p : Row → Bool) (i : Uuid) (table rows : List Row) (r s : Row)
      → first_stored id p table rows ≡ none
      → find_by (λ x. id x == i) table ≡ some r
      → find_by (λ x. id x == i) rows ≡ some s
      → p r ≡ false
  first_none id p i table [] r s h k m = cc
  first_none id p i table (x ∷ rows) r s h k m =
      let (later, here) = pick-none p _ (first_stored id p table rows) h in
      elim (Bool-cases (id x == i)) [
        | inl e ↦
            here r
              (subst (λ j. find_by (λ y. id y == j) table ≡ some r) (sym ((==_iff (id x) i).0 e)) k)
        | inr e ↦ first_none id p i table rows r s later k (ground arith)
      ]

  many_where : (p : Row → Bool) (rows : List Row) → All (λ r. p r ≡ true) (filter_by p rows)
  many_where p [] = tt
  many_where p (x ∷ rows) = elim (Bool-cases (p x)) [
    | inl e ↦ rw e (e, many_where p rows)
    | inr e ↦ rw e (many_where p rows)
  ]

  -- The laws hold of it.
  pub memory-IsDatabase : (id : Row → Uuid) → IsDatabase Row id (memory id)
  memory-IsDatabase id = record {
    found_id = found_id id;
    found_update = found_update id;
    found_create = λ r j rows _. refl;
    found_delete = found_delete id;
    found_delete_many = λ p j rows.
        found_kept id (λ i. survives p (find_by (λ x. id x == i) rows)) j rows
        ∙ survives-unless p (find_by (λ x. id x == j) rows);
    found_set_null = found_set_null id;
    found_new_id = λ rows. above_highest id (suc (highest id rows)) rows (omega arith);
    first_where = λ p o rows. first_where id p rows rows;
    first_found = λ p o rows. first_found id p rows rows;
    first_none = λ p o rows i r h k. first_none id p i rows rows r r h k k;
    many_where = λ p o. many_where p;
    many_found = λ p o rows i. many_found id p i rows;
  }
