-- ===== src/Common/Scans.antt =====
-- What a loop over the indices of an array has established of the objects it has passed.
use Prim.Native.Nat.{ℕ, suc, ◌<◌, ◌≤◌}
use mathlib.Core.Path.{◌≡◌, sym, ap, ◌∙◌, subst}
use mathlib.Core.Logic.{inl, inr}
use mathlib.Core.Option.{some}
use mathlib.Core.List.{List}
use native.Mathlib.Omega.{arith}
use bek.Common.Tests.{eqb, Bool-cases}
use bek.Common.Lists.{length, get_elem?, set, get_elem?-set_self, get_elem?-set_ne, get_elem?-lt}

module _ {ℓ κ} {A : Type ℓ} (P : A → Type κ) where
  abbrev pub UpTo : ℕ → List A → Type (ℓ ⊔ κ)
  UpTo i xs = (j : ℕ) (x : A) → j < i → get_elem? xs j ≡ some x → P x

  -- The object at the index is left as it is.
  pub UpTo-next :
      (i : ℕ) (x : A) (xs : List A) → get_elem? xs i ≡ some x → P x → UpTo i xs → UpTo (suc i) xs
  UpTo-next i x xs at p before j y lt there = elim (Bool-cases (eqb j i)) [
    | inl here ↦
        let j≡i : j ≡ i = ground arith in
        let same : some x ≡ some y = sym at ∙ ap (get_elem? xs) (sym j≡i) ∙ there in
        let x≡y : x ≡ y = cc in subst P x≡y p
    | inr else ↦ before j y (ground arith) there
  ]

  -- The object at the index is replaced.
  pub UpTo-set :
      (i : ℕ) (old new : A) (xs ys : List A)
      → ys ≡ set xs i new
      → get_elem? xs i ≡ some old
      → P new
      → UpTo i xs
      → UpTo (suc i) ys
  UpTo-set i old new xs ys e at p before = subst (UpTo (suc i)) (sym e) (
      UpTo-next i new (set xs i new) (get_elem?-set_self xs i old new at) p (λ j y lt there.
        before j y lt (sym (get_elem?-set_ne xs i j new (λ k. omega (arith, k))) ∙ there)))

  -- The loop has passed all objects.
  pub UpTo-end :
      (i : ℕ) (xs : List A)
      → length xs ≤ i
      → UpTo i xs
      → (j : ℕ) (x : A) → get_elem? xs j ≡ some x
      → P x
  UpTo-end i xs le before j x at = before j x (omega (arith, get_elem?-lt xs j at)) at
