-- ===== src/World/Atomic.antt =====
-- Postconditions of methods. `Atomic Q w o`: an outcome that returned satisfies `Q`, and one that
-- threw left the world `w` as it was. There is a rule for each way to build a method.
use restosync_api.Base.{◌≡◌, refl, sym, subst, Bool, true, false, Option, none, some}
use restosync_api.World.{
  World, Error, Outcome, done, thrown, Exec, next, guard, or_throw, transaction, ◌>>=◌,
}

abbrev pub Atomic : {A : Type 0} → (A → World → Type 0) → World → Outcome A → Type 0
Atomic Q w (done a v) = Q a v
Atomic Q w (thrown e v) = v ≡ w

pub Atomic-next :
    {A B : Type 0} (R : A → World → Type 0) (Q : B → World → Type 0) (w : World) (o : Outcome A)
    (f : A → Exec B)
    → Atomic R w o
    → ((a : A) (v : World) → R a v → Atomic Q w (f a v))
    → Atomic Q w (next o f)
Atomic-next R Q w (done a v) f h k = k a v h
Atomic-next R Q w (thrown e v) f h k = h

pub Atomic-bind :
    {A B : Type 0} (R : A → World → Type 0) (Q : B → World → Type 0) (m : Exec A) (f : A → Exec B)
    (w : World)
    → Atomic R w (m w)
    → ((a : A) (v : World) → R a v → Atomic Q w (f a v))
    → Atomic Q w ((m >>= f) w)
unfolding ◌>>=◌
Atomic-bind R Q m f w h k = Atomic-next R Q w (m w) f h k

-- A step of which the outcome is known
pub Atomic-run :
    {A B : Type 0} (Q : B → World → Type 0) (m : Exec A) (f : A → Exec B) (w u v : World) (a : A)
    → m u ≡ done a v
    → Atomic Q w (f a v)
    → Atomic Q w ((m >>= f) u)
unfolding ◌>>=◌
Atomic-run Q m f w u v a e h = subst (λ o. Atomic Q w (next o f)) (sym e) h

-- A guard passes only if its test holds, and changes nothing.
pub Atomic-guard :
    {B : Type 0} (Q : B → World → Type 0) (w v : World) (b : Bool) (e : Error)
    (f : Unit {0} → Exec B)
    → v ≡ w
    → (b ≡ true → Atomic Q w (f tt v))
    → Atomic Q w (next (guard b e v) f)
unfolding guard
Atomic-guard Q w v true e f h k = k refl
Atomic-guard Q w v false e f h k = h

pub Atomic-or_throw :
    {A B : Type 0} (Q : B → World → Type 0) (w v : World) (x : Option A) (e : Error)
    (f : A → Exec B)
    → v ≡ w
    → ((a : A) → x ≡ some a → Atomic Q w (f a v))
    → Atomic Q w (next (or_throw x e v) f)
unfolding or_throw
Atomic-or_throw Q w v none e f h k = h
Atomic-or_throw Q w v (some a) e f h k = k a refl

-- A transaction that throws leaves the world in which it began.
pub Atomic-transaction :
    {A : Type 0} (Q : A → World → Type 0) (m : Exec A) (w : World)
    → ((a : A) (v : World) → m w ≡ done a v → Q a v)
    → Atomic Q w (transaction m w)
unfolding transaction
Atomic-transaction Q m w k = cases (m w) k
  where
    cases :
        (o : Outcome _)
        → ((a : _) (v : World) → o ≡ done a v → Q a v)
        → Atomic Q w (elim o [ done a v ↦ done a v | thrown e v ↦ thrown e w ])
    cases (done a v) h = h a v refl
    cases (thrown e v) h = refl

pub Atomic-map :
    {A : Type 0} (P Q : A → World → Type 0) (w : World) (o : Outcome A)
    → Atomic P w o
    → ((a : A) (v : World) → P a v → Q a v)
    → Atomic Q w o
Atomic-map P Q w (done a v) h k = k a v h
Atomic-map P Q w (thrown e v) h k = h

-- The reading of a postcondition
pub Atomic-done :
    {A : Type 0} (Q : A → World → Type 0) (w : World) (o : Outcome A) (a : A) (v : World)
    → Atomic Q w o
    → o ≡ done a v
    → Q a v
Atomic-done Q w (done b u) a v h e = subst (λ o. Atomic Q w o) e h
Atomic-done Q w (thrown x u) a v h e = cc

pub Atomic-thrown :
    {A : Type 0} (Q : A → World → Type 0) (w : World) (o : Outcome A) (x : Error) (v : World)
    → Atomic Q w o
    → o ≡ thrown x v
    → v ≡ w
Atomic-thrown Q w (done b u) x v h e = cc
Atomic-thrown Q w (thrown y u) x v h e = cc
