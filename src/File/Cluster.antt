-- ===== src/File/Cluster.antt =====
-- Positions and the clusters of a chain: what the next link of a chain is, and where a position
-- enters a new cluster.
use sd_fat.Base.{
  ℕ, zero, suc, ◌+◌, ◌-◌, ◌*◌, ◌/◌, ◌%◌, ◌≤◌, ◌<◌, ◌≡◌, sym, ◌∙◌, ap, arith, List, [], ◌∷◌,
}
use native.Mathlib.Nat.{div-add-mod', mod-lt, mul-add-div_right, div-eq_of_lt}
use sd_fat.Base.Lists.{length, get_or, All}
use sd_fat.Alloc.Chain.{IsChain}

pub IsChain-first : (e : ℕ → ℕ) (last c : ℕ) (cs : List ℕ) → IsChain e last c cs → get_or cs 0 0 ≡ c
IsChain-first e last c [] h = absurd h
IsChain-first e last c (x ∷ []) h = h.0
IsChain-first e last c (x ∷ y ∷ r) h = h.0

-- The entry of a cluster is the next one of the chain.
pub IsChain-next :
    (e : ℕ → ℕ) (last c : ℕ) (cs : List ℕ) (i : ℕ)
    → IsChain e last c cs
    → suc i < length cs
    → (e (get_or cs i 0) ≡ get_or cs (suc i) 0) × (e (get_or cs i 0) ≤ last)
IsChain-next e last c [] i h lt = absurd h
IsChain-next e last c (x ∷ []) i h lt = absurd (omega arith)
IsChain-next e last c (x ∷ y ∷ r) zero h lt =
    (ap e h.0 ∙ sym (IsChain-first e last (e c) (y ∷ r) h.3), rw h.0 h.1)
IsChain-next e last c (x ∷ y ∷ r) (suc i) h lt =
    IsChain-next e last (e c) (y ∷ r) i h.3 (omega arith)

pub All-get : (P : ℕ → Type 0) (cs : List ℕ) (i : ℕ) → All P cs → i < length cs → P (get_or cs i 0)
All-get P [] i h lt = absurd (omega arith)
All-get P (x ∷ cs) zero h lt = h.0
All-get P (x ∷ cs) (suc i) h lt = All-get P cs i h.1 (omega arith)

-- The row of place `a * w + s`.
pub row_of : (a w s : ℕ) → s < w → (a * w + s) / w ≡ a
row_of a w s lt = mul-add-div_right {m = w} (omega arith) a s ∙ omega (arith, div-eq_of_lt lt)

-- A position behind a sector's start is in the sector of the byte before it, and one at a sector's
-- start in the next.
pub row_inside : (q w : ℕ) → 0 < q % w → 0 < w → (q - 1) / w ≡ q / w
row_inside q w p pos =
    ap (λ t. t / w) (omega (arith, div-add-mod' q w, mod-lt q {m = w} pos))
    ∙ row_of (q / w) w (q % w - 1) (omega (arith, mod-lt q {m = w} pos))

pub row_start : (q w : ℕ) → q % w ≡ 0 → 0 < q → 0 < w → (q - 1) / w + 1 ≡ q / w
row_start q w z p pos = at (q / w) (omega (arith, div-add-mod' q w))
  where
    at : (a : ℕ) → q ≡ a * w → (q - 1) / w + 1 ≡ q / w
    at zero e = absurd (omega arith)
    at (suc b) e =
        let x : (q - 1) / w ≡ b =
          ap (λ t. t / w) (omega arith) ∙ row_of b w (w - 1) (omega arith) in
        let y : q / w ≡ suc b = ap (λ t. t / w) (omega arith) ∙ row_of (suc b) w 0 pos in
        omega (arith, x, y)
