-- ===== src/World/Unique.antt =====
-- Names that are unique in a restaurant: the checks `assertNameUnique` and `assertCodeUnique` of the
-- services read the rows of the restaurant and compare normalized names, with no help of the database.
use restosync_api.Base.{
  ◌≡◌, ◌≢◌, refl, sym, ap, ◌∙◌, subst, Bool, true, false, not, some, List, [], ◌∷◌, arith, Any, inl,
  inr, ◌==◌, ==_iff, some_by, Bool-cases,
}
use restosync_api.Base.Text.{Text, same_text, same_text_iff}
use restosync_api.Schema.{Uuid}
use restosync_api.World.{World, Error, Exec, done, gets, guard, ◌>>=◌}
use restosync_api.World.Reads.{Reads, reads}
use restosync_api.Prisma.{Delegate, IsDatabase, OrderBy}
use restosync_api.Prisma.Laws.{create_self, create_ne, update_self, update_ne}

-- `if (existing.some((x) => key(x) === k)) throw e`, for the rows of a clause
unfoldable pub assert_unique :
    {Row : Type 0}
    → Delegate Row
    → (World → List Row)
    → (Row → Bool)
    → (Row → Text)
    → Text
    → Error
    → Exec (Unit {0})
assert_unique d rows p key k e = do
  existing ← gets (λ w. d.find_many p [] (rows w))
  guard (not (some_by (λ x. same_text (key x) k) existing)) e

guard-eq : (b : Bool) (e : Error) (w : World) → guard b e w ≡ done tt w → b ≡ true
unfolding guard
guard-eq true e w h = refl
guard-eq false e w h = cc

module _ {Row : Type 0} (d : Delegate Row) (rows : World → List Row) (p : Row → Bool)
    (key : Row → Text) (k : Text) (e : Error) where
  pub assert_unique-Reads : Reads (assert_unique d rows p key k e)
  unfolding assert_unique
  assert_unique-Reads = search reads

  pub assert_unique-eq :
      (w : World)
      → assert_unique d rows p key k e w ≡ done tt w
      → not (some_by (λ x. same_text (key x) k) (d.find_many p [] (rows w))) ≡ true
  unfolding assert_unique ◌>>=◌
  assert_unique-eq w h =
      guard-eq (not (some_by (λ x. same_text (key x) k) (d.find_many p [] (rows w)))) e w h

-- No two rows of a restaurant have the same key.
abbrev pub HasUniqueKeys :
    {Row : Type 0} → Delegate Row → (Row → Uuid) → (Row → Text) → Uuid → List Row → Type 0
HasUniqueKeys {Row} d restaurant key r rows =
    (i j : Uuid) (y z : Row)
    → d.find_unique i rows ≡ some y
    → d.find_unique j rows ≡ some z
    → restaurant y ≡ r
    → restaurant z ≡ r
    → key y ≡ key z
    → i ≡ j

module _ {Row : Type 0} {id : Row → Uuid} {d : Delegate Row} (db : IsDatabase Row id d)
    (restaurant : Row → Uuid) (key : Row → Text) (r : Uuid) (rows : List Row) where
  none_same :
      (k : Text) (y : Row) (xs : List Row)
      → Any (λ x. x ≡ y) xs
      → some_by (λ x. same_text (key x) k) xs ≡ false
      → key y ≢ k
  none_same k y [] h e = elim h [ ]
  none_same k y (x ∷ xs) (inl same) e =
      λ q. let yes = (same_text_iff (key x) k).1 (ap key same ∙ q) in ground arith
  none_same k y (x ∷ xs) (inr h) e = none_same k y xs h (ground arith)

  -- The check of a service has compared the name with that of every row of its clause.
  pub listed_not_same :
      (p : Row → Bool) (o : List (OrderBy Row)) (k : Text) (j : Uuid) (y : Row)
      → not (some_by (λ x. same_text (key x) k) (d.find_many p o rows)) ≡ true
      → d.find_unique j rows ≡ some y
      → p y ≡ true
      → key y ≢ k
  listed_not_same p o k j y e found pass =
      none_same k y (d.find_many p o rows) (db.many_found p o rows j y found pass) (ground arith)

  pub create_unique :
      (x : Row)
      → id x ≡ d.new_id rows
      → HasUniqueKeys d restaurant key r rows
      → ((j : Uuid) (y : Row) → d.find_unique j rows ≡ some y → restaurant y ≡ r → key y ≢ key x)
      → HasUniqueKeys d restaurant key r (d.create x rows)
  create_unique x new unique fresh i j y z found_y found_z own_y own_z same =
      elim (Bool-cases (id x == i)) [
        | inl a ↦ elim (Bool-cases (id x == j)) [
          | inl b ↦ ground arith
          | inr b ↦
              absurd (fresh j z (old j z b found_z) own_z (sym same ∙ ap key (self i y a found_y)))
        ]
        | inr a ↦ elim (Bool-cases (id x == j)) [
          | inl b ↦
              absurd (fresh i y (old i y a found_y) own_y (same ∙ ap key (self j z b found_z)))
          | inr b ↦ unique i j y z (old i y a found_y) (old j z b found_z) own_y own_z same
        ]
      ]
    where
      old :
          (k : Uuid) (v : Row)
          → (id x == k) ≡ false
          → d.find_unique k (d.create x rows) ≡ some v
          → d.find_unique k rows ≡ some v
      old k v ne e = sym (create_ne db x k rows new ne) ∙ e

      self :
          (k : Uuid) (v : Row)
          → (id x == k) ≡ true
          → d.find_unique k (d.create x rows) ≡ some v
          → v ≡ x
      self k v same_id e =
          let q = (==_iff (id x) k).0 same_id in
          let it = create_self db x rows new in
          let stored = subst (λ n. d.find_unique n (d.create x rows) ≡ some x) q it in cc

  module _ (i : Uuid) (f : Row → Row) (keep : (x : Row) → id (f x) ≡ id x)
      (own : (x : Row) → restaurant (f x) ≡ restaurant x) (x : Row)
      (found : d.find_unique i rows ≡ some x) where
    pub update_unique :
        HasUniqueKeys d restaurant key r rows
        → ((j : Uuid) (y : Row)
            → (j == i) ≡ false
            → d.find_unique j rows ≡ some y
            → restaurant y ≡ r
            → key y ≢ key (f x))
        → HasUniqueKeys d restaurant key r (d.update i f rows)
    update_unique unique fresh a b y z found_y found_z own_y own_z same =
        elim (Bool-cases (i == a)) [
          | inl p ↦ elim (Bool-cases (i == b)) [
            | inl q ↦ ground arith
            | inr q ↦ absurd (
                fresh b z (ground arith) (old b z q found_z) own_z
                  (sym same ∙ ap key (self a y p found_y)))
          ]
          | inr p ↦ elim (Bool-cases (i == b)) [
            | inl q ↦ absurd (
                fresh a y (ground arith) (old a y p found_y) own_y
                  (same ∙ ap key (self b z q found_z)))
            | inr q ↦ unique a b y z (old a y p found_y) (old b z q found_z) own_y own_z same
          ]
        ]
      where
        old :
            (k : Uuid) (v : Row)
            → (i == k) ≡ false
            → d.find_unique k (d.update i f rows) ≡ some v
            → d.find_unique k rows ≡ some v
        old k v ne e = sym (update_ne db i k f rows keep ne) ∙ e

        self :
            (k : Uuid) (v : Row)
            → (i == k) ≡ true
            → d.find_unique k (d.update i f rows) ≡ some v
            → v ≡ f x
        self k v same_id e =
            let q = (==_iff i k).0 same_id in
            let it = update_self db i f rows x keep found in
            let stored = subst (λ n. d.find_unique n (d.update i f rows) ≡ some (f x)) q it in cc

    -- With the key as it was
    pub same_key_unique :
        key (f x) ≡ key x
        → restaurant x ≡ r
        → HasUniqueKeys d restaurant key r rows
        → HasUniqueKeys d restaurant key r (d.update i f rows)
    same_key_unique e mine unique = update_unique unique λ j y ne found_y own_y same.
        let q = unique j i y x found_y found own_y mine (same ∙ e) in ground arith
