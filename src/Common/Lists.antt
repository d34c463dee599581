-- ===== src/Common/Lists.antt =====
-- Arrays as lists, measured and indexed by native numbers; the array methods of the source.
use Prim.Native.Nat.{ℕ, zero, suc, ◌<◌, ◌≤◌}
use mathlib.Core.Path.{◌≡◌, refl, ap}
use mathlib.Core.Bool.{Bool, true, false}
use mathlib.Core.Option.{Option, none, some}
use mathlib.Core.List.{List, [], ◌∷◌, ◌++◌, map}
use native.Mathlib.Omega.{arith}
use mathlib.Core.Logic.{◌≢◌, inl, inr}
use bek.Common.Tests.{if◌then◌else◌, if-cases, Bool-cases}

module _ {ℓ} {A : Type ℓ} where
  abbrev pub length : List A → ℕ
  length [] = 0
  length (x ∷ xs) = suc (length xs)

  abbrev pub get_elem? : List A → ℕ → Option A
  get_elem? [] i = none
  get_elem? (x ∷ xs) zero = some x
  get_elem? (x ∷ xs) (suc i) = get_elem? xs i

  -- A write through a reference to the i-th object; out of bounds it changes nothing.
  abbrev pub set : List A → ℕ → A → List A
  set [] i v = []
  set (x ∷ xs) zero v = v ∷ xs
  set (x ∷ xs) (suc i) v = x ∷ set xs i v

  -- `findIndex`, with the element.
  unfoldable pub find_from : ℕ → (A → Bool) → List A → Option (ℕ × A)
  find_from i p [] = none
  find_from i p (x ∷ xs) = if p x then some (i, x) else find_from (suc i) p xs

  unfoldable pub find_index : (A → Bool) → List A → Option (ℕ × A)
  unfolding find_from
  find_index p xs = find_from 0 p xs

  -- `find`.
  unfoldable pub find : (A → Bool) → List A → Option A
  find p [] = none
  find p (x ∷ xs) = let rest = find p xs in if p x then some x else rest

  -- The objects of an array with their indices, from `i` on.
  unfoldable pub indexed_from : ℕ → List A → List (ℕ × A)
  indexed_from i [] = []
  indexed_from i (x ∷ xs) = (i, x) ∷ indexed_from (suc i) xs

  -- `slice(0, n)`.
  abbrev pub take : ℕ → List A → List A
  take zero xs = []
  take (suc n) [] = []
  take (suc n) (x ∷ xs) = x ∷ take n xs

  -- `filter`.
  unfoldable pub keep : (A → Bool) → List A → List A
  keep p [] = []
  keep p (x ∷ xs) = let rest = keep p xs in if p x then x ∷ rest else rest

  -- `some`.
  unfoldable pub any : (A → Bool) → List A → Bool
  any p [] = false
  any p (x ∷ xs) = let rest = any p xs in if p x then true else rest

module _ {ℓ κ} {A : Type ℓ} (P : A → Type κ) where
  abbrev pub All : List A → Type κ
  All [] = Unit
  All (x ∷ xs) = P x × All xs

module _ {ℓ κ} {A : Type ℓ} (P : A → Type κ) where
  pub All-keep : (p : A → Bool) (xs : List A) → All P xs → All P (keep p xs)
  unfolding keep
  All-keep p [] h = tt
  All-keep p (x ∷ xs) h =
      if-cases (All P) (p x) (x ∷ keep p xs) (keep p xs) (λ _. (h.0, All-keep p xs h.1))
        (λ _. All-keep p xs h.1)

  pub All-snoc : (xs : List A) (x : A) → All P xs → P x → All P (xs ++ x ∷ [])
  All-snoc [] x h p = (p, tt)
  All-snoc (y ∷ xs) x h p = (h.0, All-snoc xs x h.1 p)

  pub All-imp {μ} : {Q : A → Type μ} (xs : List A) → ((x : A) → P x → Q x) → All P xs → All Q xs
  All-imp [] f h = tt
  All-imp (x ∷ xs) f h = (f x h.0, All-imp xs f h.1)

  pub All-both {μ} : (Q : A → Type μ) (xs : List A) → All P xs → All Q xs → All (λ x. P x × Q x) xs
  All-both Q [] h k = tt
  All-both Q (x ∷ xs) h k = ((h.0, k.0), All-both Q xs h.1 k.1)

  pub All-set : (xs : List A) (i : ℕ) (x : A) → All P xs → P x → All P (set xs i x)
  All-set [] i x h p = tt
  All-set (y ∷ xs) zero x h p = (p, h.1)
  All-set (y ∷ xs) (suc i) x h p = (h.0, All-set xs i x h.1 p)

  pub All-get_elem? : (xs : List A) (i : ℕ) {x : A} → All P xs → get_elem? xs i ≡ some x → P x
  All-get_elem? [] i h e = ground arith
  All-get_elem? (y ∷ xs) zero h e = ground arith
  All-get_elem? (y ∷ xs) (suc i) h e = All-get_elem? xs i h.1 e

module _ {ℓ} {A : Type ℓ} where
  pub get_elem?-set_self :
      (xs : List A) (i : ℕ) (old new : A)
      → get_elem? xs i ≡ some old
      → get_elem? (set xs i new) i ≡ some new
  get_elem?-set_self [] i old new e = absurd (ground arith)
  get_elem?-set_self (x ∷ xs) zero old new e = refl
  get_elem?-set_self (x ∷ xs) (suc i) old new e = get_elem?-set_self xs i old new e

  pub get_elem?-set_ne :
      (xs : List A) (i j : ℕ) (v : A) → i ≢ j → get_elem? (set xs i v) j ≡ get_elem? xs j
  get_elem?-set_ne [] i j v h = refl
  get_elem?-set_ne (x ∷ xs) zero zero v h = absurd (h refl)
  get_elem?-set_ne (x ∷ xs) zero (suc j) v h = refl
  get_elem?-set_ne (x ∷ xs) (suc i) zero v h = refl
  get_elem?-set_ne (x ∷ xs) (suc i) (suc j) v h = get_elem?-set_ne xs i j v (λ e. h (ap suc e))

  pub get_elem?-append :
      (xs ys : List A) (i : ℕ) {x : A} → get_elem? xs i ≡ some x → get_elem? (xs ++ ys) i ≡ some x
  get_elem?-append [] ys i e = absurd (ground arith)
  get_elem?-append (y ∷ xs) ys zero e = e
  get_elem?-append (y ∷ xs) ys (suc i) e = get_elem?-append xs ys i e

  pub length-set : (xs : List A) (i : ℕ) (v : A) → length (set xs i v) ≡ length xs
  length-set [] i v = refl
  length-set (x ∷ xs) zero v = refl
  length-set (x ∷ xs) (suc i) v = ap suc (length-set xs i v)

  pub get_elem?-lt : (xs : List A) (i : ℕ) {x : A} → get_elem? xs i ≡ some x → i < length xs
  get_elem?-lt [] i e = absurd (ground arith)
  get_elem?-lt (y ∷ xs) zero e = ground arith
  get_elem?-lt (y ∷ xs) (suc i) e = omega (arith, get_elem?-lt xs i e)

  pub get_elem?-none : (xs : List A) (i : ℕ) → get_elem? xs i ≡ none → length xs ≤ i
  get_elem?-none [] i e = omega arith
  get_elem?-none (y ∷ xs) zero e = absurd (ground arith)
  get_elem?-none (y ∷ xs) (suc i) e = omega (arith, get_elem?-none xs i e)

  -- Every element stands at some index.
  pub All-stand : (xs : List A) → All (λ x. (i : ℕ) × (get_elem? xs i ≡ some x)) xs
  All-stand [] = tt
  All-stand (y ∷ ys) = (
    (0, refl),
    All-imp (λ x. (i : ℕ) × (get_elem? ys i ≡ some x)) ys (λ x (i, at). (suc i, at)) (All-stand ys),
  )

  pub get_elem?-prepend :
      (ys xs : List A) (i : ℕ) {x : A}
      → get_elem? xs i ≡ some x
      → (j : ℕ) × (get_elem? (ys ++ xs) j ≡ some x)
  get_elem?-prepend [] xs i e = (i, e)
  get_elem?-prepend (y ∷ ys) xs i e = let (j, at) = get_elem?-prepend ys xs i e in (suc j, at)

  pub set-set : (xs : List A) (i : ℕ) (v w : A) → set (set xs i v) i w ≡ set xs i w
  set-set [] i v w = refl
  set-set (x ∷ xs) zero v w = refl
  set-set (x ∷ xs) (suc i) v w = ap (λ ys. x ∷ ys) (set-set xs i v w)

module _ {ℓ κ} {A : Type ℓ} {B : Type κ} (f : A → B) where
  -- A write that keeps a component keeps the list of components.
  pub map-set :
      (xs : List A) (i : ℕ) (old new : A)
      → get_elem? xs i ≡ some old
      → f new ≡ f old
      → map f (set xs i new) ≡ map f xs
  map-set [] i old new e h = refl
  map-set (x ∷ xs) zero old new e h = cc
  map-set (x ∷ xs) (suc i) old new e h = ap (λ ys. f x ∷ ys) (map-set xs i old new e h)

module _ {ℓ} {A : Type ℓ} (p : A → Bool) where
  pub keep-passes : (xs : List A) → All (λ x. p x ≡ true) (keep p xs)
  unfolding keep
  keep-passes [] = tt
  keep-passes (x ∷ xs) =
      if-cases (All (λ y. p y ≡ true)) (p x) (x ∷ keep p xs) (keep p xs) (λ h. (h, keep-passes xs))
        (λ _. keep-passes xs)

  -- What holds of all that is kept holds of every element that passes.
  pub All-of_keep {κ} :
      (P : A → Type κ) (xs : List A) → All P (keep p xs) → All (λ x. p x ≡ true → P x) xs
  unfolding keep
  All-of_keep P [] h = tt
  All-of_keep P (x ∷ xs) h = elim (Bool-cases (p x)) [
    | inl hit ↦ let k : P x × All P (keep p xs) = rw hit at h in (λ _. k.0, All-of_keep P xs k.1)
    | inr miss ↦ (λ q. ground arith, All-of_keep P xs (rw miss at h))
  ]
