-- ===== src/World/Reads.antt =====
-- Methods that only read: they return or throw, and leave the world as it was.
use restosync_api.Base.{
  ◌≡◌, refl, sym, ap, subst, ◌∙◌, Bool, true, false, not, arith, Option, none, some,
}
use restosync_api.World.{
  World, Error, Outcome, done, thrown, Exec, next, pure, throw, guard, gets, or_throw, ◌>>=◌,
}
use restosync_api.World.Atomic.{Atomic}

pub record Reads {A : Type 0} (m : Exec A) : Type 0 where
  pub at : (w : World) → Atomic (λ _ v. v ≡ w) w (m w)

pub Reads-pure : {A : Type 0} (a : A) → Reads (pure a)
unfolding pure
Reads-pure a = record { at = λ w. refl }

pub Reads-throw : {A : Type 0} (e : Error) → Reads (throw {A = A} e)
unfolding throw
Reads-throw e = record { at = λ w. refl }

pub Reads-gets : {A : Type 0} (f : World → A) → Reads (gets f)
unfolding gets
Reads-gets f = record { at = λ w. refl }

pub Reads-guard : (b : Bool) (e : Error) → Reads (guard b e)
unfolding guard
Reads-guard true e = record { at = λ w. refl }
Reads-guard false e = record { at = λ w. refl }

pub Reads-or_throw : {A : Type 0} (x : Option A) (e : Error) → Reads (or_throw x e)
unfolding or_throw
Reads-or_throw none e = record { at = λ w. refl }
Reads-or_throw (some a) e = record { at = λ w. refl }

later-Reads :
    {A : Type 0} (w v : World) (o : Outcome A)
    → v ≡ w
    → Atomic (λ _ u. u ≡ v) v o
    → Atomic (λ _ u. u ≡ w) w o
later-Reads w v (done b u) p q = q ∙ p
later-Reads w v (thrown e u) p q = q ∙ p

next-Reads :
    {A B : Type 0} (w : World) (o : Outcome A) (f : A → Exec B)
    → Atomic (λ _ v. v ≡ w) w o
    → ((a : A) → Reads (f a))
    → Atomic (λ _ v. v ≡ w) w (next o f)
next-Reads w (done a v) f h k = later-Reads w v (f a v) h ((k a).at v)
next-Reads w (thrown e v) f h k = h

pub Reads-bind :
    {A B : Type 0} (m : Exec A) (f : A → Exec B)
    → Reads m
    → ((a : A) → Reads (f a))
    → Reads (m >>= f)
unfolding ◌>>=◌
Reads-bind m f h k = record { at = λ w. next-Reads w (m w) f (h.at w) k }

-- After a step that only reads, the rest of the method runs in the same world.
pub Atomic-read :
    {A B : Type 0} (Q : B → World → Type 0) (m : Exec A) (f : A → Exec B) (w : World)
    → Reads m
    → ((a : A) → m w ≡ done a w → Atomic Q w (f a w))
    → Atomic Q w ((m >>= f) w)
unfolding ◌>>=◌
Atomic-read {A} Q m f w h k = cases (m w) (h.at w) k
  where
    cases :
        (o : Outcome A)
        → Atomic (λ _ v. v ≡ w) w o
        → ((a : A) → o ≡ done a w → Atomic Q w (f a w))
        → Atomic Q w (next o f)
    cases (done a v) e g = subst (λ u. Atomic Q w (f a u)) (sym e) (g a (ap (done a) e))
    cases (thrown x v) e g = e

pub Atomic-gets :
    {A B : Type 0} (Q : B → World → Type 0) (f : World → A) (k : A → Exec B) (w v : World)
    → Atomic Q w (k (f v) v)
    → Atomic Q w ((gets f >>= k) v)
unfolding ◌>>=◌
Atomic-gets Q f k w v h = h

pub Atomic-test :
    {B : Type 0} (Q : B → World → Type 0) (b : Bool) (e : Error) (k : Unit {0} → Exec B) (w : World)
    → (b ≡ true → Atomic Q w (k tt w))
    → Atomic Q w ((guard b e >>= k) w)
unfolding ◌>>=◌
Atomic-test Q true e k w h = h refl
Atomic-test Q false e k w h = refl

pub Atomic-or_throw_here :
    {A B : Type 0} (Q : B → World → Type 0) (x : Option A) (e : Error) (k : A → Exec B) (w : World)
    → ((a : A) → x ≡ some a → Atomic Q w (k a w))
    → Atomic Q w ((or_throw x e >>= k) w)
unfolding ◌>>=◌
Atomic-or_throw_here Q none e k w h = refl
Atomic-or_throw_here Q (some a) e k w h = h a refl

pub not-true : (b : Bool) → not b ≡ true → b ≡ false
not-true b h = ground arith

pub ruleset reads = (Reads-pure, Reads-throw, Reads-gets, Reads-guard, Reads-or_throw, Reads-bind)
