-- ===== src/Prelude/Lists.antt =====
-- Lists measured by native numbers, membership as a Boolean test, and point updates of a function.
use Prim.Native.Nat.{ℕ, zero, suc, ◌+◌, ◌≤◌}
use mathlib.Core.Path.{◌≡◌, refl}
use mathlib.Core.Bool.{Bool, true, false, ◌||◌, or_assoc}
use mathlib.Core.Option.{Option, none, some}
use mathlib.Core.List.{List, [], ◌∷◌, ◌++◌}
use native.Mathlib.Omega.{arith}
use native.Mathlib.Nat.{suc-add}
use dpdk_tcp.Prelude.Tests.{◌==◌, if◌then◌else◌}

module _ {ℓ} {A : Type ℓ} where
  abbrev pub length : List A → ℕ
  length [] = 0
  length (_ ∷ xs) = suc (length xs)

  abbrev pub drop : ℕ → List A → List A
  drop zero xs = xs
  drop (suc n) [] = []
  drop (suc n) (x ∷ xs) = drop n xs

  pub length-append : (xs ys : List A) → length (xs ++ ys) ≡ length xs + length ys
  length-append [] ys = omega arith
  length-append (x ∷ xs) ys = omega (arith, length-append xs ys)

  -- An array, or a store, is a function of the index; this is a write at one index.
  abbrev pub update : (ℕ → A) → ℕ → A → ℕ → A
  update f i v j = if i == j then v else f j

module _ {ℓ} {A : Type ℓ} where
  abbrev pub is_some : Option A → Bool
  is_some none = false
  is_some (some _) = true

abbrev pub has : ℕ → List ℕ → Bool
has a [] = false
has a (x ∷ xs) = (a == x) || has a xs

infix 40 ◌∈◌ ◌∉◌
abbrev pub ◌∈◌ : ℕ → List ℕ → Type 0
a ∈ xs = has a xs ≡ true

abbrev pub ◌∉◌ : ℕ → List ℕ → Type 0
a ∉ xs = has a xs ≡ false

-- No number occurs twice.
abbrev pub Distinct : List ℕ → Type 0
Distinct [] = Unit
Distinct (x ∷ xs) = (x ∉ xs) × Distinct xs

pub has-append : (a : ℕ) (xs ys : List ℕ) → has a (xs ++ ys) ≡ (has a xs || has a ys)
has-append a [] ys = refl
has-append a (x ∷ xs) ys = rw (has-append a xs ys, or_assoc)

module _ {ℓ} {A : Type ℓ} where
  pub drop-append : (k : ℕ) (xs ys : List A) → k ≤ length xs → drop k (xs ++ ys) ≡ drop k xs ++ ys
  drop-append zero xs ys h = refl
  drop-append (suc k) [] ys h = absurd (omega arith)
  drop-append (suc k) (x ∷ xs) ys h = drop-append k xs ys (omega arith)

  drop-nil : (k : ℕ) → drop {A = A} k [] ≡ []
  drop-nil zero = refl
  drop-nil (suc k) = refl

  pub drop-drop : (j k : ℕ) (xs : List A) → drop k (drop j xs) ≡ drop (j + k) xs
  drop-drop zero k xs = ground arith
  drop-drop (suc j) k [] = ground (arith, drop-nil k, drop-nil (suc j + k))
  drop-drop (suc j) k (x ∷ xs) = rw suc-add (drop-drop j k xs)
