-- ===== src/Controller/Keeps.antt =====
-- Invariants of the actions of the reconciler: a predicate on the state that holds before an action
-- holds after it, whether the action goes on, returns early or panics.
use aperture_ai.Prelude.{◌≡◌, refl, Bool, true, false, if◌then◌else◌}
use aperture_ai.Kube.{Kube}
use aperture_ai.Controller.Flow.{Flow, next, return, panic, Action, continue, ◌>>=◌}

module _ {K : Kube} {S A : Type 0} (I : S → Type 0) where
  abbrev pub Keeps : Action K S A → Type 0
  Keeps m = (s : S) → I s → I (m s).1

module _ {K : Kube} {S A B : Type 0} (I : S → Type 0) (G : A → Type 0) where
  -- The rest of a `do` block may use what `m` has found out when it goes on.
  Keeps-continue :
      (r : Flow K A) (f : A → Action K S B)
      → ((a : A) → r ≡ next a → G a)
      → ((a : A) → G a → Keeps I (f a))
      → Keeps I (continue r f)
  Keeps-continue (next a) f found kf s h = kf a (found a refl) s h
  Keeps-continue (return x) f found kf s h = h
  Keeps-continue panic f found kf s h = h

  pub Keeps-bind :
      (m : Action K S A) (f : A → Action K S B)
      → Keeps I m
      → ((s : S) (a : A) → (m s).0 ≡ next a → G a)
      → ((a : A) → G a → Keeps I (f a))
      → Keeps I (m >>= f)
  Keeps-bind m f km found kf s h = Keeps-continue (m s).0 f (found s) kf (m s).1 (km s h)

-- Both branches of a test end in a state that meets a predicate.
pub if_keeps :
    {A S : Type 0} (I : S → Type 0) (b : Bool) (x y : A × S)
    → I x.1
    → I y.1
    → I (if b then x else y).1
if_keeps I true x y hx hy = hx
if_keeps I false x y hx hy = hy
