-- ===== src/Docker/Copy/Ends.antt =====
-- Rules for what holds after the actions of `CopyFrom`, where they succeed.
use whaleshell_driver.Base.{
  Str, split, List, [], ◌∷◌, ◌≡◌, refl, inl, inr, Result, ok, err, Result-cases, Bool-cases,
}
use whaleshell_driver.Docker.Copy.{
  Change, CopyError, Disk, M, pure, fail, lift, continue, change, ◌>>=◌, check_components,
  reject_existing_symlink,
}
use whaleshell_driver.GoPath.{clean}

abbrev pub Holds :
    {A : Type 0} → (A → List Change → Type 0) → Result CopyError A × List Change → Type 0
Holds Q (ok a, h) = Q a h
Holds Q (err why, h) = Unit {0}

-- What holds where an action succeeds.
pub record Ends {A : Type 0} (Q : A → List Change → Type 0) (m : M A) (h : List Change)
    : Type 0 where
  pub at : Holds Q (m h)

module _ {A B : Type 0} {Q : A → List Change → Type 0} {R : B → List Change → Type 0} where
  Holds-continue :
      (f : A → M B) (r : Result CopyError A) (h : List Change)
      → Holds Q (r, h)
      → ((a : A) (h' : List Change) → Q a h' → Ends R (f a) h')
      → Holds R (continue r f h)
  Holds-continue f (ok a) h e next = (next a h e).at
  Holds-continue f (err why) h e next = tt

  pub Ends-bind :
      (m : M A) (f : A → M B) (h : List Change)
      → Ends Q m h
      → ((a : A) (h' : List Change) → Q a h' → Ends R (f a) h')
      → Ends R (m >>= f) h
  unfolding ◌>>=◌
  Ends-bind m f h e next = record { at = Holds-continue f ((m h).0) ((m h).1) e.at next }

-- The calls of an entry, where all of them succeed.
module _ (disk : Disk) {B : Type 0} {R : B → List Change → Type 0} where
  pub Ends-check :
      (target : Str) (f : Unit {0} → M B) (h : List Change)
      → Ends R (f tt) h
      → Ends R (reject_existing_symlink disk target >>= f) h
  unfolding reject_existing_symlink ◌>>=◌
  Ends-check target f h e = record {
    at = elim (Result-cases (check_components disk h [] (split (clean target) b'/'))) [
      | inl (u, fine) ↦ rw fine e.at
      | inr (why, bad) ↦ rw bad tt
    ];
  }

  pub Ends-change :
      (c : Change) (f : Unit {0} → M B) (h : List Change)
      → Ends R (f tt) (c ∷ h)
      → Ends R (change disk c >>= f) h
  unfolding change ◌>>=◌
  Ends-change c f h e = record {
    at = elim (Bool-cases (disk.accepts h c)) [ inl yes_ ↦ rw yes_ e.at | inr no_ ↦ rw no_ tt ];
  }

module _ {A : Type 0} {Q : A → List Change → Type 0} where
  pub Ends-pure : (a : A) (h : List Change) → Q a h → Ends Q (pure a) h
  unfolding pure
  Ends-pure a h q = record { at = q }

  pub Ends-lift :
      {B : Type 0} (r : Result CopyError B) (f : B → M A) (h : List Change)
      → ((b : B) → r ≡ ok b → Ends Q (f b) h)
      → Ends Q (lift r >>= f) h
  unfolding lift ◌>>=◌
  Ends-lift (ok b) f h next = record { at = (next b refl).at }
  Ends-lift (err why) f h next = record { at = tt }

  pub Ends-fail : (why : CopyError) (h : List Change) → Ends Q (fail why) h
  unfolding fail
  Ends-fail why h = record { at = tt }

pub Ends-last :
    (disk : Disk) {Q : Unit {0} → List Change → Type 0} (c : Change) (h : List Change)
    → Q tt (c ∷ h)
    → Ends Q (change disk c) h
unfolding change
Ends-last disk c h q = record {
  at = elim (Bool-cases (disk.accepts h c)) [ inl yes_ ↦ rw yes_ q | inr no_ ↦ rw no_ tt ];
}
