-- ===== src/Engine/Keeps.antt =====
-- Rules for invariants of actions on the world, one for each way to build an action.
use whaleshell_driver.Base.{
  Str, Bool, true, false, List, [], Option, none, some, Result, ok, err, if◌then◌else◌, ◌≡◌, refl,
}
use whaleshell_driver.Engine.{
  Request, Event, Daemon, World, M, pure, fail, lift, lift_as, log, accepts, attempt, call, send,
  demand, require, try, make, as_unit, continue, inspect_container, or_fail, settle, made_by, ◌>>=◌,
}
use whaleshell_driver.Errors.{Error}

-- What holds after a result, and after an error.
abbrev pub Post :
    {A : Type 0} → (A → World → Type 0) → (World → Type 0) → Result Error A × World → Type 0
Post Q E (ok a, w) = Q a w
Post Q E (err e, w) = E w

-- From P the action ends with Q at its result, or fails with E.
pub record Triple {A : Type 0} (P : World → Type 0) (m : M A) (Q : A → World → Type 0)
    (E : World → Type 0) : Type 0 where
  pub at : (w : World) → P w → Post Q E (m w)

-- An action that cannot fail returns.
pub Post-ok :
    {Q : World → Type 0} (r : Result Error (Unit {0}) × World)
    → Post (λ _. Q) (λ _. ⊥) r
    → (w : World) × (r ≡ (ok tt, w)) × Q w
Post-ok (ok u, w) h = (w, refl, h)
Post-ok (err e, w) h = elim h [ ]

-- The action keeps P whether it returns or fails.
abbrev pub Keeps : {A : Type 0} → (World → Type 0) → M A → Type 0
Keeps P m = Triple P m (λ _. P) P

module _ {A B : Type 0} {Q : A → World → Type 0} {R : B → World → Type 0} {E : World → Type 0} where
  Post-continue :
      (f : A → M B) (r : Result Error A) (w : World)
      → Post Q E (r, w)
      → ((a : A) → Triple (Q a) (f a) R E)
      → Post R E (continue r f w)
  Post-continue f (ok a) w h t = (t a).at w h
  Post-continue f (err e) w h t = h

module _ {A B : Type 0} {P : World → Type 0} {Q : A → World → Type 0} {R : B → World → Type 0}
    {E : World → Type 0} where
  pub Triple-bind :
      (m : M A) (f : A → M B)
      → Triple P m Q E
      → ((a : A) → Triple (Q a) (f a) R E)
      → Triple P (m >>= f) R E
  unfolding ◌>>=◌
  Triple-bind m f t u = record { at = λ w h. Post-continue f (m w).0 (m w).1 (t.at w h) u }

module _ {A : Type 0} {Q Q' : A → World → Type 0} {E E' : World → Type 0} where
  Post-weaken :
      (r : Result Error A × World)
      → ((a : A) (w : World) → Q a w → Q' a w)
      → ((w : World) → E w → E' w)
      → Post Q E r
      → Post Q' E' r
  Post-weaken (ok a, w) f g h = f a w h
  Post-weaken (err e, w) f g h = g w h

module _ {A : Type 0} {P P' : World → Type 0} {Q Q' : A → World → Type 0}
    {E E' : World → Type 0} where
  pub Triple-weaken :
      (m : M A)
      → ((w : World) → P' w → P w)
      → ((a : A) (w : World) → Q a w → Q' a w)
      → ((w : World) → E w → E' w)
      → Triple P m Q E
      → Triple P' m Q' E'
  Triple-weaken m before after failed t = record {
    at = λ w h. Post-weaken (m w) after failed (t.at w (before w h));
  }

module _ {A B : Type 0} {P : World → Type 0} {Q : A → World → Type 0} {R : B → World → Type 0}
    {E E' : World → Type 0} where
  -- The first action fails with less.
  pub Triple-then :
      (m : M A) (f : A → M B)
      → ((w : World) → E w → E' w)
      → Triple P m Q E
      → ((a : A) → Triple (Q a) (f a) R E')
      → Triple P (m >>= f) R E'
  Triple-then m f failed t u = Triple-bind m f (Triple-weaken m (λ w h. h) (λ a w h. h) failed t) u

module _ {P Q E : World → Type 0} where
  pub Triple-send :
      (dm : Daemon) (req : Request)
      → ((accepted : Bool) (w : World) → P w → Q (log req accepted [] w))
      → Triple P (send dm req) (λ _. Q) E
  unfolding send attempt
  Triple-send dm req f = record { at = λ w h. f _ w h }

  pub Triple-demand :
      (dm : Daemon) (req : Request) (e : Error)
      → ((w : World) → P w → Q (log req true [] w))
      → ((w : World) → P w → E (log req false [] w))
      → Triple P (demand dm req e) (λ _. Q) E
  unfolding demand call attempt ◌>>=◌ pure fail
  Triple-demand dm req e f g = record { at = λ w h. answered w h (dm.done w.events req) }
    where
      answered :
          (w : World)
          → P w
          → (b : Bool)
          → Post
              (λ _. Q)
              E
              (continue (ok (as_unit b)) (or_fail e) (log req (accepts (as_unit b)) [] w))
      answered w h true = f w h
      answered w h false = g w h

module _ {P E : World → Type 0} where
  pub Triple-require :
      (b : Bool) (e : Error)
      → ((w : World) → P w → E w)
      → Triple P (require b e) (λ _ w. P w × (b ≡ true)) E
  unfolding require pure fail
  Triple-require true e f = record { at = λ w h. (h, refl) }
  Triple-require false e f = record { at = f }

module _ {A : Type 0} {P E : World → Type 0} {Q : Option A → World → Type 0} where
  pub Triple-attempt :
      (req : Request) (answer : List Event → Option A)
      → ((w : World) → P w → Q (answer w.events) (log req (accepts (answer w.events)) [] w))
      → Triple P (attempt req answer) Q E
  unfolding attempt
  Triple-attempt req answer f = record { at = f }

module _ {P E : World → Type 0} {Q : Str → World → Type 0} where
  pub Triple-make :
      (dm : Daemon) (req : Request) (e : Error)
      → ((id : Str) (w : World) → P w → Q id (log req true id w))
      → ((w : World) → P w → E (log req false [] w))
      → Triple P (make dm req e) Q E
  unfolding make made_by
  Triple-make dm req e f g = record { at = λ w h. made (dm.created w.events req) w h }
    where
      made : (o : Option Str) (w : World) → P w → Post Q E (made_by req e o w)
      made none w h = g w h
      made (some id) w h = f id w h

module _ {A : Type 0} {P : World → Type 0} {Q : A → World → Type 0} {E : World → Type 0} where
  pub Triple-pure : (a : A) → ((w : World) → P w → Q a w) → Triple P (pure a) Q E
  unfolding pure
  Triple-pure a f = record { at = f }

  pub Triple-fail : (e : Error) → ((w : World) → P w → E w) → Triple P (fail e) Q E
  unfolding fail
  Triple-fail e f = record { at = f }

  pub Triple-if :
      (b : Bool) (m n : M A) → Triple P m Q E → Triple P n Q E → Triple P (if b then m else n) Q E
  Triple-if true m n km kn = km
  Triple-if false m n km kn = kn

module _ {A B : Type 0} {P : World → Type 0} where
  pub Keeps-bind :
      (m : M A) (f : A → M B) → Keeps P m → ((a : A) → Keeps P (f a)) → Keeps P (m >>= f)
  Keeps-bind m f t u = Triple-bind m f t u

module _ {A : Type 0} {P : World → Type 0} where
  pub Keeps-pure : (a : A) → Keeps P (pure a)
  Keeps-pure a = Triple-pure a (λ w kept. kept)

  pub Keeps-fail : (e : Error) → Keeps P (fail {A = A} e)
  Keeps-fail e = Triple-fail e (λ w kept. kept)

  pub Keeps-lift : (r : Result Error A) → Keeps P (lift r)
  unfolding lift
  Keeps-lift (ok a) = record { at = λ w h. h }
  Keeps-lift (err e) = record { at = λ w h. h }

  pub Keeps-if : (b : Bool) (m n : M A) → Keeps P m → Keeps P n → Keeps P (if b then m else n)
  Keeps-if b m n km kn = Triple-if b m n km kn

  pub Keeps-or_fail : (e : Error) (o : Option A) → Keeps P (or_fail e o)
  Keeps-or_fail e none = Keeps-fail e
  Keeps-or_fail e (some a) = Keeps-pure a

  pub Keeps-lift_as : {X : Type 0} (f : X → Error) (r : Result X A) → Keeps P (lift_as f r)
  Keeps-lift_as f (ok a) = Keeps-pure a
  Keeps-lift_as f (err e) = Keeps-fail (f e)

  pub Keeps-try : (m : M A) → Keeps P m → Keeps P (try m)
  unfolding try
  Keeps-try m k = record { at = λ w h. settled (m w) (k.at w h) }
    where
      settled :
          (r : Result Error A × World) → Post (λ _. P) P r → Post (λ (_ : Option A). P) P (settle r)
      settled (ok a, w) h = h
      settled (err e, w) h = h

module _ {A : Type 0} {E : World → Type 0} where
  -- Nothing is known of the world after it, but it does not fail.
  pub Triple-try_any : (m : M A) → Triple (λ _. Unit {0}) (try m) (λ _ _. Unit {0}) E
  unfolding try
  Triple-try_any m = record { at = λ w h. settled (m w) }
    where
      settled : (r : Result Error A × World) → Post (λ (_ : Option A) _. Unit {0}) E (settle r)
      settled (ok a, w) = tt
      settled (err e, w) = tt

module _ {P : World → Type 0} where
  pub Keeps-require : (b : Bool) (e : Error) → Keeps P (require b e)
  unfolding require
  Keeps-require true e = Keeps-pure tt
  Keeps-require false e = Keeps-fail e

-- The request leaves the invariant alone, accepted or not.
abbrev pub IsNeutral : (World → Type 0) → Request → Type 0
IsNeutral P req = (accepted : Bool) (made : Str) (w : World) → P w → P (log req accepted made w)

module _ {A : Type 0} {P : World → Type 0} where
  pub Keeps-attempt :
      (req : Request) (answer : List Event → Option A)
      → IsNeutral P req
      → Keeps P (attempt req answer)
  unfolding attempt
  Keeps-attempt req answer n = record { at = λ w h. n (accepts (answer w.events)) [] w h }

  pub Keeps-call :
      (req : Request) (answer : List Event → Option A) (e : Error)
      → IsNeutral P req
      → Keeps P (call req answer e)
  unfolding call
  Keeps-call req answer e n = Keeps-bind _ _ (Keeps-attempt req answer n) (Keeps-or_fail e)

module _ {P : World → Type 0} where
  pub Keeps-send : (dm : Daemon) (req : Request) → IsNeutral P req → Keeps P (send dm req)
  unfolding send
  Keeps-send dm req n = Keeps-attempt req _ n

  pub Keeps-demand :
      (dm : Daemon) (req : Request) (e : Error) → IsNeutral P req → Keeps P (demand dm req e)
  unfolding demand
  Keeps-demand dm req e n = Keeps-call req _ e n

  pub Keeps-make :
      (dm : Daemon) (req : Request) (e : Error) → IsNeutral P req → Keeps P (make dm req e)
  unfolding make
  Keeps-make dm req e n = record { at = λ w h. made (dm.created w.events req) w h }
    where
      made : (o : Option Str) (w : World) → P w → Post (λ _. P) P (made_by req e o w)
      made none w h = n false [] w h
      made (some id) w h = n true id w h

  pub Keeps-inspect_container :
      (dm : Daemon) (id : Str) (e : Error)
      → IsNeutral P (Request.container_inspect id)
      → Keeps P (inspect_container dm id e)
  unfolding inspect_container
  Keeps-inspect_container dm id e n = Keeps-call _ _ e n
