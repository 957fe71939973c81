-- ===== src/World/Ensures.antt =====
-- What holds of a method that returned, where nothing is claimed of one that threw: the rules for
-- the inside of a transaction.
use restosync_api.Base.{◌≡◌, refl, true, false, Bool, some, List, Option-cases, inl, inr, subst}
use restosync_api.Schema.{Uuid}
use restosync_api.Prisma.{Delegate}
use restosync_api.World.{
  World, Error, Outcome, done, thrown, Exec, gets, next, guard, update_or_throw, ◌>>=◌,
}

abbrev pub Ensures : {A : Type 0} → (A → World → Type 0) → Outcome A → Type 0
Ensures Q (done a v) = Q a v
Ensures Q (thrown e v) = Unit

pub Ensures-done :
    {A : Type 0} (Q : A → World → Type 0) (o : Outcome A) (a : A) (v : World)
    → Ensures Q o
    → o ≡ done a v
    → Q a v
Ensures-done Q (done b u) a v h e = subst (Ensures Q) e h
Ensures-done Q (thrown x u) a v h e = cc

next-Ensures :
    {A B : Type 0} (R : A → World → Type 0) (Q : B → World → Type 0) (o : Outcome A)
    (f : A → Exec B)
    → Ensures R o
    → ((a : A) (v : World) → R a v → Ensures Q (f a v))
    → Ensures Q (next o f)
next-Ensures R Q (done a v) f h k = k a v h
next-Ensures R Q (thrown e v) f h k = tt

pub Ensures-bind :
    {A B : Type 0} (R : A → World → Type 0) (Q : B → World → Type 0) (m : Exec A) (f : A → Exec B)
    (w : World)
    → Ensures R (m w)
    → ((a : A) (v : World) → R a v → Ensures Q (f a v))
    → Ensures Q ((m >>= f) w)
unfolding ◌>>=◌
Ensures-bind R Q m f w h k = next-Ensures R Q (m w) f h k

pub Ensures-guard :
    {B : Type 0} (Q : B → World → Type 0) (b : Bool) (e : Error) (k : Unit {0} → Exec B) (w : World)
    → (b ≡ true → Ensures Q (k tt w))
    → Ensures Q ((guard b e >>= k) w)
unfolding ◌>>=◌
Ensures-guard Q true e k w h = h refl
Ensures-guard Q false e k w h = tt

module _ {Row B : Type 0} (Q : B → World → Type 0) (d : Delegate Row) (rows : World → List Row)
    (put : List Row → World → World) (i : Uuid) (f : Row → Row) (k : Row → Exec B) where
  pub Ensures-update :
      (w : World)
      → ((r : Row)
          → d.find_unique i (rows w) ≡ some r
          → Ensures Q (k (f r) (put (d.update i f (rows w)) w)))
      → Ensures Q ((update_or_throw d rows put i f >>= k) w)
  unfolding ◌>>=◌ update_or_throw
  Ensures-update w h = elim (Option-cases (d.find_unique i (rows w))) [
    | inl e ↦ rw (update_or_throw, e) tt
    | inr (r, e) ↦ rw (update_or_throw, e) (h r e)
  ]

pub Ensures-gets :
    {A B : Type 0} (Q : B → World → Type 0) (f : World → A) (k : A → Exec B) (w : World)
    → Ensures Q (k (f w) w)
    → Ensures Q ((gets f >>= k) w)
unfolding ◌>>=◌
Ensures-gets Q f k w h = h

pub Ensures-update_last :
    {Row : Type 0} (Q : Row → World → Type 0) (d : Delegate Row) (rows : World → List Row)
    (put : List Row → World → World) (i : Uuid) (f : Row → Row) (w : World)
    → ((r : Row) → Q (f r) (put (d.update i f (rows w)) w))
    → Ensures Q (update_or_throw d rows put i f w)
unfolding update_or_throw
Ensures-update_last Q d rows put i f w h = elim (Option-cases (d.find_unique i (rows w))) [
  | inl e ↦ rw (update_or_throw, e) tt
  | inr (r, e) ↦ rw (update_or_throw, e) (h r)
]
