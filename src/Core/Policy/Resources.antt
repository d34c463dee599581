-- ===== src/Core/Policy/Resources.antt =====
-- Which resources a grant covers: `resourceMatches` of packages/core/src/policy.ts.
use Prim.Native.Char.{Char}
use Prim.Native.String
use Prim.Native.String.append
use text.Mathlib.TextBridge.{IsPrefix}
use text.Mathlib.Text.{starts_with}
use text.Mathlib.TextEquality.{Char-path, starts_with_iff}
use bek.Common.{
  String, ◌≡◌, ◌≢◌, refl, sym, ap, ◌∙◌, ◌⊎◌, inl, inr, true, Bool-cases, Option, none, some, ◌==◌,
  eq_iff, arith,
}
use bek.Core.Policy.{last_is_star, ends_with_star, drop_last_from, drop_last, resource_matches}

-- What a grant's resource covers: itself, and where it ends with a star all that begins with what
-- is before the star. No resource, and the empty one, are covered by the star alone.
abbrev pub Covers : String → Option String → Type 0
Covers grant none = grant ≡ "*"
Covers grant (some requested) =
    (requested ≡ "") × (grant ≡ "*")
    ⊎ (requested ≢ "")
      × ((grant ≡ requested) ⊎ ((p : String) × (grant ≡ String.◌++◌ p "*") × IsPrefix p requested))

last_is_star-split :
    (c : Char) (s : String)
    → last_is_star c s ≡ true
    → String.◌∷◌ c s ≡ String.◌++◌ (drop_last_from c s) "*"
last_is_star-split c String.[] h = ap (λ d. String.◌∷◌ d "") (Char-path c "*" (ground arith))
last_is_star-split c (String.◌∷◌ d s) h =
    ap (λ t. String.◌∷◌ c t) (last_is_star-split d s h) ∙ sym (append.cons c _ "*")

last_is_star-append : (c : Char) (p : String) → last_is_star c (String.◌++◌ p "*") ≡ true
last_is_star-append c String.[] = refl
last_is_star-append c (String.◌∷◌ d p) = rw (append.cons d p "*") (last_is_star-append d p)

drop_last_from-append :
    (c : Char) (p : String) → drop_last_from c (String.◌++◌ p "*") ≡ String.◌∷◌ c p
drop_last_from-append c String.[] = refl
drop_last_from-append c (String.◌∷◌ d p) =
    rw (append.cons d p "*") (ap (λ t. String.◌∷◌ c t) (drop_last_from-append d p))

-- A text that ends with a star is what is before it, and the star.
pub ends_with_star-split :
    (g : String) → ends_with_star g ≡ true → g ≡ String.◌++◌ (drop_last g) "*"
ends_with_star-split String.[] h = absurd (ground arith)
ends_with_star-split (String.◌∷◌ c s) h = last_is_star-split c s h

pub ends_with_star-append :
    (p : String) → (ends_with_star (String.◌++◌ p "*") ≡ true) × (drop_last (String.◌++◌ p "*") ≡ p)
ends_with_star-append String.[] = (refl, refl)
ends_with_star-append (String.◌∷◌ c p) =
    rw (append.cons c p "*") (last_is_star-append c p, drop_last_from-append c p)

pub resource_matches-Covers :
    (grant : String) (requested : Option String)
    → resource_matches grant requested ≡ true
    → Covers grant requested
unfolding resource_matches
resource_matches-Covers grant none h = (eq_iff grant "*").0 h
resource_matches-Covers grant (some requested) h = elim (Bool-cases (requested == "")) [
  | inl missing ↦ inl ((eq_iff requested "").0 missing, (eq_iff grant "*").0 (rw missing at h))
  | inr asked ↦ inr (
    λ e. ground (arith, eq_iff requested ""),
    elim (Bool-cases (grant == requested)) [
      | inl exact ↦ inl ((eq_iff grant requested).0 exact)
      | inr other ↦ elim (Bool-cases (grant == "*")) [
        | inl star ↦ inr ("", (eq_iff grant "*").0 star, (requested, append.nil requested))
        | inr wild ↦ elim (Bool-cases (ends_with_star grant)) [
          | inl ends ↦ inr (
            drop_last grant,
            ends_with_star-split grant ends,
            (starts_with_iff requested (drop_last grant)).0 (rw (asked, other, wild, ends) at h),
          )
          | inr plain ↦ absurd (ground arith)
        ]
      ]
    ],
  )
]

matches_by_parts :
    (grant requested : String)
    → requested ≢ ""
    → ends_with_star grant ≡ true
    → starts_with requested (drop_last grant) ≡ true
    → resource_matches grant (some requested) ≡ true
unfolding resource_matches
matches_by_parts grant requested asked ends starts = ground (arith, eq_iff requested "")

pub Covers-resource_matches :
    (grant : String) (requested : Option String)
    → Covers grant requested
    → resource_matches grant requested ≡ true
unfolding resource_matches
Covers-resource_matches grant none h = (eq_iff grant "*").1 h
Covers-resource_matches grant (some requested) (inl (missing, star)) =
    rw ((eq_iff requested "").1 missing, (eq_iff grant "*").1 star) refl
Covers-resource_matches grant (some requested) (inr (asked, inl exact)) =
    ground (arith, eq_iff requested "", eq_iff grant requested)
Covers-resource_matches grant (some requested) (inr (asked, inr (p, split, begins))) =
    let (ends, before) = ends_with_star-append p in
    let starts : starts_with requested p ≡ true = (starts_with_iff requested p).1 begins in
    let ends' : ends_with_star grant ≡ true = rw split ends in
    let before' : drop_last grant ≡ p = rw split before in
    let starts' : starts_with requested (drop_last grant) ≡ true = rw before' starts in
    matches_by_parts grant requested asked ends' starts'
