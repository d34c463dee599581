-- ===== src/Common/Finds.antt =====
-- What is found in an array that is written to.
use Prim.Native.Nat.{ℕ, zero, suc, ◌+◌}
use mathlib.Core.Path.{◌≡◌, refl}
use mathlib.Core.Bool.{Bool, true, false}
use mathlib.Core.Logic.{inl, inr}
use mathlib.Core.Option.{some, none}
use mathlib.Core.List.{List, [], ◌∷◌}
use native.Mathlib.Omega.{arith}
use bek.Common.Tests.{Bool-cases}
use bek.Common.Lists.{get_elem?, set, find, find_from, find_index, keep, All}

module _ {ℓ} {A : Type ℓ} (p : A → Bool) where
  find-set_from :
      (xs : List A) (start i k : ℕ) {x : A} (y : A)
      → find_from start p xs ≡ some (i, x)
      → i ≡ start + k
      → p y ≡ true
      → find p (set xs k y) ≡ some y
  unfolding find find_from
  find-set_from [] start i k y e at hit = absurd (ground arith)
  find-set_from (z ∷ zs) start i zero y e at hit = rw hit refl
  find-set_from (z ∷ zs) start i (suc k) y e at hit = elim (Bool-cases (p z)) [
    | inl first ↦ absurd (ground arith)
    | inr miss ↦ rw miss (find-set_from zs (suc start) i k y (rw miss at e) (omega (arith, at)) hit)
  ]

  -- What replaces the object that is found is found in its place.
  pub find-set_found :
      (xs : List A) (i : ℕ) {x : A} (y : A)
      → find_index p xs ≡ some (i, x)
      → p y ≡ true
      → find p (set xs i y) ≡ some y
  unfolding find_index
  find-set_found xs i y e hit = find-set_from xs 0 i i y e (omega arith) hit

  -- A write that neither the old nor the new object passes is not seen.
  pub find-set_other :
      (xs : List A) (i : ℕ) {x : A} (y : A)
      → get_elem? xs i ≡ some x
      → p x ≡ false
      → p y ≡ false
      → find p (set xs i y) ≡ find p xs
  unfolding find
  find-set_other [] i y at old new = refl
  find-set_other (z ∷ zs) zero y at old new = ground (arith, at)
  find-set_other (z ∷ zs) (suc i) y at old new = elim (Bool-cases (p z)) [
    | inl hit ↦ rw hit refl
    | inr miss ↦ rw miss (find-set_other zs i y at old new)
  ]

  -- A filter that drops all that passes leaves nothing to find.
  pub find-none : (xs : List A) → All (λ x. p x ≡ false) xs → find p xs ≡ none
  unfolding find
  find-none [] h = refl
  find-none (x ∷ xs) h = rw h.0 (find-none xs h.1)

  -- A filter that keeps all that passes does not change what is found.
  pub find-keep :
      (q : A → Bool) (xs : List A)
      → ((x : A) → p x ≡ true → q x ≡ true)
      → find p (keep q xs) ≡ find p xs
  unfolding find keep
  find-keep q [] h = refl
  find-keep q (x ∷ xs) h = elim (Bool-cases (p x)) [
    | inl hit ↦ rw (h x hit, hit) refl
    | inr miss ↦ elim (Bool-cases (q x)) [
      | inl kept ↦ rw (kept, miss) (find-keep q xs h)
      | inr dropped ↦ rw (dropped, miss) (find-keep q xs h)
    ]
  ]
