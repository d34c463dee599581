-- ===== src/Common/Ascending.antt =====
-- Strictly ascending sequence numbers within bounds.
use Prim.Native.Nat.{ℕ, suc, ◌≤◌}
use mathlib.Core.List.{List, [], ◌∷◌, ◌++◌}
use native.Mathlib.Omega.{arith}

-- From `lo` on, strictly ascending, and below `hi`.
abbrev pub Ascends : ℕ → ℕ → List ℕ → Type 0
Ascends lo hi [] = lo ≤ hi
Ascends lo hi (n ∷ ns) = (lo ≤ n) × Ascends (suc n) hi ns

pub Ascends-le : (lo hi : ℕ) (ns : List ℕ) → Ascends lo hi ns → lo ≤ hi
Ascends-le lo hi [] h = h
Ascends-le lo hi (n ∷ ns) h = omega (arith, h.0, Ascends-le (suc n) hi ns h.1)

-- The bound may rise.
pub Ascends-mono : (lo hi hi' : ℕ) (ns : List ℕ) → hi ≤ hi' → Ascends lo hi ns → Ascends lo hi' ns
Ascends-mono lo hi hi' [] le h = omega arith
Ascends-mono lo hi hi' (n ∷ ns) le h = (h.0, Ascends-mono (suc n) hi hi' ns le h.1)

-- The next number may be put at the end.
pub Ascends-snoc :
    (lo hi : ℕ) (ns : List ℕ) → Ascends lo hi ns → Ascends lo (suc hi) (ns ++ hi ∷ [])
Ascends-snoc lo hi [] h = (h, omega arith)
Ascends-snoc lo hi (n ∷ ns) h = (h.0, Ascends-snoc (suc n) hi ns h.1)
