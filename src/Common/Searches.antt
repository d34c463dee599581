-- ===== src/Common/Searches.antt =====
-- What the first element that passes a test is, where one does.
use Prim.Native.Nat.{ℕ, zero, suc, ◌+◌}
use mathlib.Core.Path.{◌≡◌}
use mathlib.Core.Bool.{Bool, true, false}
use mathlib.Core.Option.{none, some}
use mathlib.Core.List.{List, [], ◌∷◌}
use native.Mathlib.Omega.{arith}
use mathlib.Core.Logic.{inl, inr}
use bek.Common.Tests.{Bool-cases}
use bek.Common.Lists.{get_elem?, set, find_from, find_index, All}

module _ {ℓ} {A : Type ℓ} (p : A → Bool) where
  -- What `find_from` returns stands at its index, counted from the start, and passes the test.
  pub find_from-some :
      (xs : List A) (start i : ℕ) {x : A}
      → find_from start p xs ≡ some (i, x)
      → (k : ℕ) × (i ≡ start + k) × (get_elem? xs k ≡ some x) × (p x ≡ true)
  unfolding find_from
  find_from-some [] start i e = cc
  find_from-some (y ∷ ys) start i {x} e = elim (Bool-cases (p y)) [
    | inl hit ↦ (0, ground arith, ground arith, ground arith)
    | inr miss ↦
        let (k, at, here, passes) = find_from-some ys (suc start) i (rw miss at e) in
        (suc k, omega arith, here, passes)
  ]

  pub find_index-some :
      (xs : List A) (i : ℕ) {x : A}
      → find_index p xs ≡ some (i, x)
      → (get_elem? xs i ≡ some x) × (p x ≡ true)
  unfolding find_index
  find_index-some xs i {x} e =
      let (k, at, here, passes) = find_from-some xs 0 i e in
      let same : i ≡ k = omega arith in (rw same here, passes)

  find_from-set :
      (xs : List A) (start i k : ℕ) {x : A} (y : A)
      → find_from start p xs ≡ some (i, x)
      → i ≡ start + k
      → p y ≡ true
      → find_from start p (set xs k y) ≡ some (i, y)
  unfolding find_from
  find_from-set [] start i k y e at hit = absurd (ground arith)
  find_from-set (z ∷ zs) start i zero y e at hit = elim (Bool-cases (p z)) [
    | inl first ↦ ground arith
    | inr miss ↦
        let (k, later, _, _) = find_from-some zs (suc start) i (rw miss at e) in
        absurd (omega (arith, at, later))
  ]
  find_from-set (z ∷ zs) start i (suc k) y e at hit = elim (Bool-cases (p z)) [
    | inl first ↦ absurd (ground arith)
    | inr miss ↦ rw miss (find_from-set zs (suc start) i k y (rw miss at e) (omega (arith, at)) hit)
  ]

  -- What is found is found again once it is replaced by what passes too.
  pub find_index-set :
      (xs : List A) (i : ℕ) {x : A} (y : A)
      → find_index p xs ≡ some (i, x)
      → p y ≡ true
      → find_index p (set xs i y) ≡ some (i, y)
  unfolding find_index
  find_index-set xs i y e hit = find_from-set xs 0 i i y e (omega arith) hit

  pub find_from-none :
      (xs : List A) (start : ℕ) → find_from start p xs ≡ none → All (λ x. p x ≡ false) xs
  unfolding find_from
  find_from-none [] start e = tt
  find_from-none (y ∷ ys) start e = elim (Bool-cases (p y)) [
    | inl hit ↦ absurd (ground arith)
    | inr miss ↦ (miss, find_from-none ys (suc start) (rw miss at e))
  ]

  -- Nothing is found exactly when nothing passes.
  pub find_index-none : (xs : List A) → find_index p xs ≡ none → All (λ x. p x ≡ false) xs
  unfolding find_index
  find_index-none xs e = find_from-none xs 0 e
