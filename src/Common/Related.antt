-- ===== src/Common/Related.antt =====
-- Two lists of one length whose elements are related one by one.
use Prim.Native.Nat.{ℕ, zero, suc}
use mathlib.Core.Path.{◌≡◌, refl, subst}
use mathlib.Core.Logic.{◌⊎◌, inl, inr}
use mathlib.Core.Bool.{Bool, true, false}
use mathlib.Core.Option.{none, some}
use mathlib.Core.List.{List, [], ◌∷◌, ◌++◌}
use native.Mathlib.Omega.{arith}
use bek.Common.Tests.{Bool-cases}
use bek.Common.Lists.{get_elem?, set, find_from, find_index}

module _ {ℓ κ} {A : Type ℓ} {B : Type κ} (R : A → B → Type 0) where
  abbrev pub Pairwise : List A → List B → Type 0
  Pairwise [] [] = Unit
  Pairwise [] (_ ∷ _) = ⊥
  Pairwise (_ ∷ _) [] = ⊥
  Pairwise (x ∷ xs) (y ∷ ys) = R x y × Pairwise xs ys

  pub Pairwise-set :
      (xs : List A) (ys : List B) (i : ℕ) {x : A} {y : B}
      → Pairwise xs ys
      → R x y
      → Pairwise (set xs i x) (set ys i y)
  Pairwise-set [] [] i h r = tt
  Pairwise-set [] (_ ∷ _) i h r = absurd h
  Pairwise-set (_ ∷ _) [] i h r = absurd h
  Pairwise-set (_ ∷ xs) (_ ∷ ys) zero h r = (r, h.1)
  Pairwise-set (_ ∷ xs) (_ ∷ ys) (suc i) h r = (h.0, Pairwise-set xs ys i h.1 r)

  -- A write on one side of what is related to the other side as it is.
  pub Pairwise-set_left :
      (xs : List A) (ys : List B) (i : ℕ) {x : A} {y : B}
      → Pairwise xs ys
      → get_elem? ys i ≡ some y
      → R x y
      → Pairwise (set xs i x) ys
  Pairwise-set_left [] [] i h at r = tt
  Pairwise-set_left [] (_ ∷ _) i h at r = absurd h
  Pairwise-set_left (_ ∷ _) [] i h at r = absurd h
  Pairwise-set_left (_ ∷ xs) (y ∷ ys) zero {x} {y = z} h at r =
      let same : z ≡ y = ground arith in (subst (R x) same r, h.1)
  Pairwise-set_left (_ ∷ xs) (_ ∷ ys) (suc i) h at r = (h.0, Pairwise-set_left xs ys i h.1 at r)

  pub Pairwise-snoc :
      (xs : List A) (ys : List B) {x : A} {y : B}
      → Pairwise xs ys
      → R x y
      → Pairwise (xs ++ x ∷ []) (ys ++ y ∷ [])
  Pairwise-snoc [] [] h r = (r, tt)
  Pairwise-snoc [] (_ ∷ _) h r = absurd h
  Pairwise-snoc (_ ∷ _) [] h r = absurd h
  Pairwise-snoc (_ ∷ xs) (_ ∷ ys) h r = (h.0, Pairwise-snoc xs ys h.1 r)

  module _ (p : A → Bool) (q : B → Bool) (agree : (x : A) (y : B) → R x y → p x ≡ q y) where
    find_from-Pairwise :
        (xs : List A) (ys : List B) (start : ℕ)
        → Pairwise xs ys
        → (find_from start p xs ≡ none) × (find_from start q ys ≡ none)
          ⊎ (i : ℕ) × (x : A) × (y : B) × (find_from start p xs ≡ some (i, x))
            × (find_from start q ys ≡ some (i, y))
            × R x y
    unfolding find_from
    find_from-Pairwise [] [] start h = inl (refl, refl)
    find_from-Pairwise [] (_ ∷ _) start h = absurd h
    find_from-Pairwise (_ ∷ _) [] start h = absurd h
    find_from-Pairwise (x ∷ xs) (y ∷ ys) start h = elim (Bool-cases (p x)) [
      | inl hit ↦
          let hit' : q y ≡ true = rw (agree x y h.0) at hit in
          rw (hit, hit') (inr (start, x, y, refl, refl, h.0))
      | inr miss ↦
          let miss' : q y ≡ false = rw (agree x y h.0) at miss in
          rw (miss, miss') (find_from-Pairwise xs ys (suc start) h.1)
    ]

    -- A test that related elements pass alike finds related elements at one index.
    pub find_index-Pairwise :
        (xs : List A) (ys : List B)
        → Pairwise xs ys
        → (find_index p xs ≡ none) × (find_index q ys ≡ none)
          ⊎ (i : ℕ) × (x : A) × (y : B) × (find_index p xs ≡ some (i, x))
            × (find_index q ys ≡ some (i, y))
            × R x y
    unfolding find_index
    find_index-Pairwise xs ys h = find_from-Pairwise xs ys 0 h
