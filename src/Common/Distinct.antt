-- ===== src/Common/Distinct.antt =====
-- Lists whose elements are told apart by a symmetric relation.
use Prim.Native.Nat.{ℕ, zero, suc}
use mathlib.Core.Path.{◌≡◌, subst}
use mathlib.Core.Bool.{Bool}
use mathlib.Core.Logic.{inl, inr}
use mathlib.Core.Option.{some}
use mathlib.Core.List.{List, [], ◌∷◌}
use native.Mathlib.Omega.{arith}
use bek.Common.Tests.{Bool-cases}
use bek.Common.Lists.{
  get_elem?, set, keep, All, All-keep, All-set, All-get_elem?, All-imp, All-both,
}

module _ {ℓ} {A : Type ℓ} (R : A → A → Type 0) where
  -- Each element is related to all that follow.
  abbrev pub Apart : List A → Type 0
  Apart [] = Unit
  Apart (x ∷ xs) = All (R x) xs × Apart xs

  pub Apart-keep : (p : A → Bool) (xs : List A) → Apart xs → Apart (keep p xs)
  unfolding keep
  Apart-keep p [] h = tt
  Apart-keep p (x ∷ xs) h = elim (Bool-cases (p x)) [
    | inl hit ↦ rw hit (All-keep (R x) p xs h.0, Apart-keep p xs h.1)
    | inr miss ↦ rw miss (Apart-keep p xs h.1)
  ]

  -- What is apart from all that the old element is apart from may take its place.
  pub Apart-set :
      (swap : (x y : A) → R x y → R y x)
      → (xs : List A) (i : ℕ) {old : A} (new : A) → get_elem? xs i ≡ some old
      → All (λ x. R old x → R new x) xs
      → Apart xs
      → Apart (set xs i new)
  Apart-set swap [] i new at next h = tt
  Apart-set swap (x ∷ xs) zero {old} new at next h =
      let same : x ≡ old = ground arith in
      let rest = subst (λ y. All (R y) xs) same h.0 in
      (
        All-imp _ xs (λ y (go, r). go r) (All-both (λ y. R old y → R new y) (R old) xs next.1 rest),
        h.1,
      )
  Apart-set swap (x ∷ xs) (suc i) {old} new at next h =
      let r = All-get_elem? (R x) xs i h.0 at in
      (
        All-set (R x) xs i new h.0 (swap new x (next.0 (swap x old r))),
        Apart-set swap xs i new at next.1 h.1,
      )
