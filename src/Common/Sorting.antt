-- ===== src/Common/Sorting.antt =====
-- `sort` with a comparator: a stable insertion sort. `before x y` says that the comparator is
-- negative.
use Prim.Native.Nat.{ℕ, suc, ◌<◌}
use mathlib.Core.Path.{◌≡◌, refl, ap, subst}
use mathlib.Core.Bool.{Bool, true, false}
use mathlib.Core.Logic.{inl, inr}
use mathlib.Core.Option.{Option, none, some}
use mathlib.Core.List.{List, [], ◌∷◌, map}
use native.Mathlib.Omega.{arith}
use bek.Common.Tests.{ltb, if◌then◌else◌, if-cases, Bool-cases}
use bek.Common.Lists.{All, All-imp}
use bek.Common.Ascending.{Ascends}

module _ {ℓ} {A : Type ℓ} where
  abbrev pub head? : List A → Option A
  head? [] = none
  head? (x ∷ xs) = some x

  module _ (before : A → A → Bool) where
    unfoldable pub insert_with : A → List A → List A
    insert_with a [] = a ∷ []
    insert_with a (x ∷ xs) =
        let rest = insert_with a xs in if before x a then x ∷ rest else a ∷ x ∷ xs

    unfoldable pub sort_with : List A → List A
    unfolding insert_with
    sort_with [] = []
    sort_with (x ∷ xs) = insert_with x (sort_with xs)

-- `sort((left, right) => key(left) - key(right))`.
abbrev pub by_key {ℓ} : {A : Type ℓ} → (A → ℕ) → A → A → Bool
by_key key x y = ltb (key x) (key y)

module _ {ℓ} {A : Type ℓ} (key : A → ℕ) where
  insert_with_first :
      (a : A) (lo hi : ℕ) (xs : List A)
      → key a < lo
      → Ascends lo hi (map key xs)
      → insert_with (by_key key) a xs ≡ a ∷ xs
  unfolding insert_with
  insert_with_first a lo hi [] h s = refl
  insert_with_first a lo hi (x ∷ xs) h s = ground arith

  -- A list that ascends is sorted already.
  pub sort_with_of_Ascends :
      (lo hi : ℕ) (xs : List A) → Ascends lo hi (map key xs) → sort_with (by_key key) xs ≡ xs
  unfolding sort_with
  sort_with_of_Ascends lo hi [] s = refl
  sort_with_of_Ascends lo hi (x ∷ xs) s =
      rw (sort_with_of_Ascends (suc (key x)) hi xs s.1)
        (insert_with_first x (suc (key x)) hi xs (omega arith) s.1)

-- What holds of every element holds after sorting.
module _ {ℓ κ} {A : Type ℓ} (P : A → Type κ) (before : A → A → Bool) where
  All-insert_with : (a : A) (xs : List A) → P a → All P xs → All P (insert_with before a xs)
  unfolding insert_with
  All-insert_with a [] p h = (p, tt)
  All-insert_with a (x ∷ xs) p h =
      if-cases (All P) (before x a) (x ∷ insert_with before a xs) (a ∷ x ∷ xs)
        (λ _. (h.0, All-insert_with a xs p h.1)) (λ _. (p, h))

  pub All-sort_with : (xs : List A) → All P xs → All P (sort_with before xs)
  unfolding sort_with
  All-sort_with [] h = tt
  All-sort_with (x ∷ xs) h = All-insert_with x (sort_with before xs) h.0 (All-sort_with xs h.1)

  All-of_insert_with : (a : A) (xs : List A) → All P (insert_with before a xs) → P a × All P xs
  unfolding insert_with
  All-of_insert_with a [] h = h
  All-of_insert_with a (x ∷ xs) h = elim (Bool-cases (before x a)) [
    | inl later ↦
        let k : P x × All P (insert_with before a xs) = rw later at h in
        let (p, rest) = All-of_insert_with a xs k.1 in (p, (k.0, rest))
    | inr first ↦ let k : P a × All P (x ∷ xs) = rw first at h in (k.0, k.1)
  ]

  -- Sorting drops nothing.
  pub All-of_sort_with : (xs : List A) → All P (sort_with before xs) → All P xs
  unfolding sort_with
  All-of_sort_with [] h = tt
  All-of_sort_with (x ∷ xs) h =
      let (p, rest) = All-of_insert_with x (sort_with before xs) h in (p, All-of_sort_with xs rest)

-- The first of a sorted list, for a comparator that is a strict weak order.
module _ {A : Type 0} (before : A → A → Bool) (irrefl : (x : A) → before x x ≡ false)
    (asym : (x y : A) → before x y ≡ true → before y x ≡ false)
    (cotrans : (x y z : A) → before x y ≡ false → before y z ≡ false → before x z ≡ false) where
  abbrev Leads : List A → List A → Type 0
  Leads [] zs = zs ≡ []
  Leads (y ∷ _) zs = All (λ x. before x y ≡ false) zs

  Leads-insert_with :
      (a : A) (ys zs : List A) → Leads ys zs → Leads (insert_with before a ys) (a ∷ zs)
  unfolding insert_with
  Leads-insert_with a [] zs h = rw h (irrefl a, tt)
  Leads-insert_with a (y ∷ ys) zs h = elim (Bool-cases (before y a)) [
    | inl first ↦ rw first (asym y a first, h)
    | inr later ↦
        rw later (irrefl a, All-imp (λ x. before x y ≡ false) zs (λ x le. cotrans x y a le later) h)
  ]

  Leads-sort_with : (xs : List A) → Leads (sort_with before xs) xs
  unfolding sort_with
  Leads-sort_with [] = refl
  Leads-sort_with (x ∷ xs) = Leads-insert_with x (sort_with before xs) xs (Leads-sort_with xs)

  head-Leads :
      (ys zs : List A) {m : A} → head? ys ≡ some m → Leads ys zs → All (λ x. before x m ≡ false) zs
  head-Leads [] zs e h = absurd (ground arith)
  head-Leads (y ∷ ys) zs {m} e h =
      let same : y ≡ m = cc in subst (λ n. All (λ x. before x n ≡ false) zs) same h

  -- Nothing comes before the first of the sorted list.
  pub head-sort_with :
      (xs : List A) {m : A}
      → head? (sort_with before xs) ≡ some m
      → All (λ x. before x m ≡ false) xs
  head-sort_with xs e = head-Leads (sort_with before xs) xs e (Leads-sort_with xs)

  nil-Leads : (ys zs : List A) → head? ys ≡ none → Leads ys zs → zs ≡ []
  nil-Leads [] zs e h = h
  nil-Leads (y ∷ ys) zs e h = absurd (ground arith)

  pub nil-sort_with : (xs : List A) → head? (sort_with before xs) ≡ none → xs ≡ []
  nil-sort_with xs e = nil-Leads (sort_with before xs) xs e (Leads-sort_with xs)

-- Where a comparator orders two elements, the order in which they are inserted does not matter.
module _ {ℓ} {A : Type ℓ} (before : A → A → Bool)
    (asym : (x y : A) → before x y ≡ true → before y x ≡ false)
    (trans : (x y z : A) → before x y ≡ true → before y z ≡ true → before x z ≡ true) where
  pub insert-insert_with :
      (x y : A) (zs : List A)
      → before x y ≡ true
      → insert_with before x (insert_with before y zs)
        ≡ insert_with before y (insert_with before x zs)
  unfolding insert_with
  insert-insert_with x y [] lt = rw (lt, asym x y lt) refl
  insert-insert_with x y (z ∷ zs) lt = elim (Bool-cases (before z x)) [
    | inl first ↦
        rw (trans z x y first lt, first, trans z x y first lt)
          (ap (◌∷◌ z) (insert-insert_with x y zs lt))
    | inr later ↦ elim (Bool-cases (before z y)) [
      | inl between ↦ rw (between, later, lt, between) refl
      | inr last ↦ rw (last, later, asym x y lt, lt, last) refl
    ]
  ]
