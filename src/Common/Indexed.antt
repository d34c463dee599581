-- ===== src/Common/Indexed.antt =====
-- Arrays with the indices of their objects.
use Prim.Native.Nat.{ℕ, zero, suc, ◌+◌}
use mathlib.Core.Path.{◌≡◌, refl, subst, subst₂}
use mathlib.Core.Option.{some}
use mathlib.Core.List.{List, [], ◌∷◌}
use native.Mathlib.Omega.{arith}
use bek.Common.Lists.{get_elem?, indexed_from, All, All-imp}
use bek.Common.Sorting.{head?}

module _ {A : Type 0} where
  -- The object stands at its index, counted from `start`.
  abbrev StandsFrom : ℕ → List A → ℕ × A → Type 0
  StandsFrom start xs c = (k : ℕ) × (c.0 ≡ start + k) × (get_elem? xs k ≡ some c.1)

  shift-StandsFrom :
      (start : ℕ) (x : A) (xs : List A) (c : ℕ × A)
      → StandsFrom (suc start) xs c
      → StandsFrom start (x ∷ xs) c
  shift-StandsFrom start x xs c (k, at, here) = (suc k, omega arith, here)

  indexed_from-StandsFrom :
      (start : ℕ) (xs : List A) → All (StandsFrom start xs) (indexed_from start xs)
  unfolding indexed_from
  indexed_from-StandsFrom start [] = tt
  indexed_from-StandsFrom start (x ∷ xs) = (
    (0, omega arith, refl),
    All-imp (StandsFrom (suc start) xs) (indexed_from (suc start) xs) (shift-StandsFrom start x xs)
        (indexed_from-StandsFrom (suc start) xs),
  )

  StandsFrom-zero : (xs : List A) (c : ℕ × A) → StandsFrom 0 xs c → get_elem? xs c.0 ≡ some c.1
  StandsFrom-zero xs c (k, at, here) = let e : c.0 ≡ k = omega arith in rw e here

  pub indexed_from-stands :
      (xs : List A) → All (λ c. get_elem? xs c.0 ≡ some c.1) (indexed_from 0 xs)
  indexed_from-stands xs =
      All-imp (StandsFrom 0 xs) (indexed_from 0 xs) (StandsFrom-zero xs)
        (indexed_from-StandsFrom 0 xs)

  pub All-head {κ} : (P : A → Type κ) (xs : List A) {a : A} → All P xs → head? xs ≡ some a → P a
  All-head P [] h e = absurd (ground arith)
  All-head P (x ∷ xs) h e = ground arith

  -- What holds of all the indexed objects holds of each object at its index.
  pub All-of_indexed :
      (P : ℕ × A → Type 0) (start : ℕ) (xs : List A)
      → All P (indexed_from start xs)
      → (k : ℕ) {x : A} → get_elem? xs k ≡ some x
      → P (start + k, x)
  unfolding indexed_from
  All-of_indexed P start [] h k e = absurd (ground arith)
  All-of_indexed P start (y ∷ ys) h zero {x} e =
      let at : start ≡ start + 0 = omega arith in
      let same : y ≡ x = ground arith in subst₂ (λ i a. P (i, a)) at same h.0
  All-of_indexed P start (y ∷ ys) h (suc k) {x} e =
      let at : suc start + k ≡ start + suc k = omega arith in
      subst (λ i. P (i, x)) at (All-of_indexed P (suc start) ys h.1 k e)
