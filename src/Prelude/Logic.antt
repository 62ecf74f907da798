-- ===== src/Prelude/Logic.antt =====
-- What holds after code that returns, from what held before it.
use mathlib.Core.Path.{◌≡◌, refl, sym}
use mathlib.Core.Bool.{Bool, true, false}
use mathlib.Core.Option.{Option, none, some}
use native.Mathlib.Omega.{arith}
use dpdk_tcp.Prelude.State.{M, ◌>>=◌, ◌>>◌, pure, fault}
use dpdk_tcp.Prelude.Tests.{if◌then◌else◌}

-- If `m` returns from a store where `P` holds, then `Q` holds of its value and the store it leaves.
pub record Triple {S A : Type 0} (P : S → Type 0) (m : M S A) (Q : A → S → Type 0) : Type 0 where
  pub after : (s : S) → P s → (a : A) (t : S) → m s ≡ some (a, t) → Q a t

module _ {S A B : Type 0} {P : S → Type 0} {Q : A → S → Type 0} {R : B → S → Type 0} where
  pub triple_bind :
      (m : M S A) (f : A → M S B)
      → Triple P m Q
      → ((a : A) → Triple (Q a) (f a) R)
      → Triple P (m >>= f) R
  triple_bind m f first rest = record { after = λ s holds b t e. go s holds b t e (m s) refl }
    where
      go :
          (s : S)
          → P s
          → (b : B) (t : S) → (m >>= f) s ≡ some (b, t)
          → (o : Option (A × S)) → m s ≡ o
          → R b t
      go s holds b t e none q = absurd (ground (arith, e, q))
      go s holds b t e (some (a, r)) q =
          (rest a).after r (first.after s holds a r q) b t (ground (arith, e, q))

module _ {S B : Type 0} {P Q : S → Type 0} {R : B → S → Type 0} where
  pub triple_seq :
      (m : M S (Unit {0})) (k : M S B) → Triple P m (λ _. Q) → Triple Q k R → Triple P (m >> k) R
  triple_seq m k first rest = triple_bind m (λ _. k) first (λ _. rest)

module _ {S A : Type 0} {P : S → Type 0} {Q : A → S → Type 0} where
  pub triple_pure : (a : A) → ((s : S) → P s → Q a s) → Triple P (pure a) Q
  triple_pure a holds = record {
    after = λ s p b t e. (let q = e in pure_result s p b t (holds s p) q);
  }
    where
      pure_result : (s : S) → P s → (b : A) (t : S) → Q a s → pure a s ≡ some (b, t) → Q b t
      pure_result s p b t q e =
          let same : a ≡ b = ground (arith, e) in
          let same' : s ≡ t = ground (arith, e) in rw (sym same, sym same') q

  pub triple_fault : Triple P fault Q
  triple_fault = record { after = λ s p b t e. absurd (ground (arith, e)) }

  pub triple_if :
      (c : Bool) (m n : M S A)
      → (c ≡ true → Triple P m Q)
      → (c ≡ false → Triple P n Q)
      → Triple P (if c then m else n) Q
  triple_if true m n = λ yes no. yes refl
  triple_if false m n = λ yes no. no refl

-- A fact that holds beside the store's condition may be used.
module _ {S A C : Type 0} {P : S → Type 0} {Q : A → S → Type 0} where
  pub triple_fact : (m : M S A) → (C → Triple P m Q) → Triple (λ s. P s × C) m Q
  triple_fact m h = record { after = λ s (p, c) a t e. (h c).after s p a t e }
