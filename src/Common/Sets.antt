-- ===== src/Common/Sets.antt =====
-- `includes`, and a `Set` of texts as the list of its members in the order of insertion.
use Prim.Native.String.{String}
use Prim.Native.Nat.{ℕ, zero, suc}
use mathlib.Core.Path.{◌≡◌, refl}
use mathlib.Core.Bool.{Bool, true, false, not}
use mathlib.Core.Logic.{◌↔◌, ◌⊎◌, inl, inr}
use mathlib.Core.Option.{some}
use mathlib.Core.List.{List, [], ◌∷◌, ◌++◌}
use native.Mathlib.Omega.{arith}
use text.Mathlib.Text.{◌==◌}
use text.Mathlib.TextEquality.{eq_iff}
use bek.Common.Tests.{Bool-cases}
use bek.Common.Lists.{
  get_elem?, keep, any, All, All-both, All-keep, All-stand, All-get_elem?, keep-passes,
}

-- `includes`, of an array, and `has`, of a set.
unfoldable pub includes : List String → String → Bool
includes xs x = any (λ y. y == x) xs

-- `[...new Set(values)]`
unfoldable pub unique : List String → List String
unique [] = []
unique (x ∷ xs) = x ∷ keep (λ y. not (y == x)) (unique xs)

-- The element stands in the list.
abbrev pub Among {ℓ} : {A : Type ℓ} → A → List A → Type ℓ
Among x xs = (i : ℕ) × (get_elem? xs i ≡ some x)

module _ {ℓ} {A : Type ℓ} (p : A → Bool) where
  pub any-Among : (xs : List A) → any p xs ≡ true → (x : A) × Among x xs × (p x ≡ true)
  unfolding any
  any-Among [] h = absurd (ground arith)
  any-Among (x ∷ xs) h = elim (Bool-cases (p x)) [
    | inl hit ↦ (x, (0, refl), hit)
    | inr miss ↦ let (y, (i, at), q) = any-Among xs (rw miss at h) in (y, (suc i, at), q)
  ]

  pub Among-any :
      (xs : List A) (i : ℕ) {x : A} → get_elem? xs i ≡ some x → p x ≡ true → any p xs ≡ true
  unfolding any
  Among-any [] i at h = absurd (ground arith)
  Among-any (y ∷ ys) zero at h = ground arith
  Among-any (y ∷ ys) (suc i) at h = elim (Bool-cases (p y)) [
    | inl hit ↦ rw hit refl
    | inr miss ↦ rw miss (Among-any ys i at h)
  ]

  pub keep-Among :
      (xs : List A) (i : ℕ) {x : A} → get_elem? (keep p xs) i ≡ some x → Among x xs × (p x ≡ true)
  keep-Among xs i at =
      All-get_elem? _ (keep p xs) i
        (All-both _ _ (keep p xs) (All-keep _ p xs (All-stand xs)) (keep-passes p xs)) at

pub includes_iff : (xs : List String) (x : String) → (includes xs x ≡ true) ↔ Among x xs
unfolding includes
includes_iff xs x = (
  λ h. let (y, (i, at), same) = any-Among (λ y. y == x) xs h in (i, ground (arith, at, eq_iff y x)),
  λ (i, at). Among-any (λ y. y == x) xs i at ((eq_iff x x).1 refl),
)

-- A set has no member that was not inserted.
pub unique-Among :
    (xs : List String) (i : ℕ) {x : String} → get_elem? (unique xs) i ≡ some x → Among x xs
unfolding unique
unique-Among [] i at = absurd (ground arith)
unique-Among (y ∷ ys) zero at = (0, at)
unique-Among (y ∷ ys) (suc i) at =
    let ((j, there), _) = keep-Among (λ z. not (z == y)) (unique ys) i at in
    let (k, here) = unique-Among ys j there in (suc k, here)

module _ {ℓ} {A : Type ℓ} where
  pub append-Among :
      (xs ys : List A) (i : ℕ) {x : A} → get_elem? (xs ++ ys) i ≡ some x → Among x xs ⊎ Among x ys
  append-Among [] ys i at = inr (i, at)
  append-Among (z ∷ xs) ys zero at = inl (0, at)
  append-Among (z ∷ xs) ys (suc i) at = elim (append-Among xs ys i at) [
    | inl (j, there) ↦ inl (suc j, there)
    | inr there ↦ inr there
  ]

pub any-none {ℓ} :
    {A : Type ℓ} (p : A → Bool) (xs : List A) → any p xs ≡ false → All (λ x. p x ≡ false) xs
unfolding any
any-none p [] h = tt
any-none p (x ∷ xs) h = (ground arith, any-none p xs (ground arith))
