-- ===== src/Prelude/State.antt =====
-- Code that changes a store and may fault. `none` is a fault: a dereference of an address that
-- holds no object, or a failed assertion.
use mathlib.Core.Path.{◌≡◌, refl}
use mathlib.Core.Option.{Option, none, some}
use native.Mathlib.Omega.{arith}

abbrev pub M : Type 0 → Type 0 → Type 0
M S A = S → Option (A × S)

module _ {S A B : Type 0} where
  infixl 5 ◌>>=◌
  abbrev pub ◌>>=◌ : M S A → (A → M S B) → M S B
  ◌>>=◌ m f s = elim (m s) [ none ↦ none | some (a, t) ↦ f a t ]

module _ {S B : Type 0} where
  infixl 5 ◌>>◌
  abbrev pub ◌>>◌ : M S (Unit {0}) → M S B → M S B
  ◌>>◌ m k s = elim (m s) [ none ↦ none | some (_, t) ↦ k t ]

module _ {S A : Type 0} where
  abbrev pub pure : A → M S A
  pure a s = some (a, s)

  abbrev pub fault : M S A
  fault s = none

module _ {S A B : Type 0} (m : M S A) (f : A → M S B) (s : S) where
  -- A step that returns is followed by the rest.
  pub >>=-some : {a : A} {t : S} → m s ≡ some (a, t) → (m >>= f) s ≡ f a t
  >>=-some e = ground (arith, e)

module _ {S B : Type 0} (m : M S (Unit {0})) (f : M S B) (s : S) where
  pub >>-some : {t : S} → m s ≡ some (tt, t) → (m >> f) s ≡ f t
  >>-some e = ground (arith, e)

  -- What two steps return, the second returns from where the first one ends.
  pub >>-inversion :
      {b : B} {t : S}
      → (m >> f) s ≡ some (b, t)
      → (r : S) × (m s ≡ some (tt, r)) × (f r ≡ some (b, t))
  >>-inversion {b} {t} e = go (m s) refl
    where
      go :
          (o : Option (Unit {0} × S))
          → m s ≡ o
          → (r : S) × (m s ≡ some (tt, r)) × (f r ≡ some (b, t))
      go none q = ground (arith, e, q)
      go (some (u, r)) q = (r, ground (arith, q), ground (arith, e, q))
