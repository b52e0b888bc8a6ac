-- ===== src/Alloc/Chain.antt =====
-- Cluster chains as lists: what `freeChain` and the file positions walk along.
use sd_fat.Base.{
  ℕ, ◌+◌, ◌-◌, ◌≤◌, ◌<◌, ◌≡◌, ◌≢◌, Option, none, some, ltb, if◌then◌else◌, sym, ◌∙◌, ap, subst,
  arith, List, [], ◌∷◌,
}
use sd_fat.Base.Lists.{All}

-- The clusters from `c` on, each entry the next cluster and the last entry past `last`, none twice.
abbrev pub IsChain : (ℕ → ℕ) → ℕ → ℕ → List ℕ → Type 0
IsChain e last c [] = ⊥
IsChain e last c (x ∷ []) = (x ≡ c) × (last < e c)
IsChain e last c (x ∷ y ∷ r) =
    (x ≡ c) × (e c ≤ last) × All (λ i. i ≢ c) (y ∷ r) × IsChain e last (e c) (y ∷ r)

abbrev pub IsAbsent : ℕ → List ℕ → Type 0
IsAbsent i cs = All (λ x. x ≢ i) cs

-- A chain stays one when its entries stay.
pub IsChain-same :
    (e e' : ℕ → ℕ) (last c : ℕ) (cs : List ℕ)
    → All (λ i. e' i ≡ e i) cs
    → IsChain e last c cs
    → IsChain e' last c cs
IsChain-same e e' last c [] same h = h
IsChain-same e e' last c (x ∷ []) same h = (h.0, ground (arith, h.0, h.1, same.0))
IsChain-same e e' last c (x ∷ y ∷ r) same h =
    let k : e c ≡ e' c = ap e (sym h.0) ∙ sym same.0 ∙ ap e' h.0 in
    (
      h.0,
      subst (λ t. t ≤ last) k h.1,
      h.2,
      subst (λ t. IsChain e' last t (y ∷ r)) k (IsChain-same e e' last (e c) (y ∷ r) same.1 h.3),
    )

pub IsChain-bounded :
    (e : ℕ → ℕ) (last c : ℕ) (cs : List ℕ) → c ≤ last → IsChain e last c cs → All (λ i. i ≤ last) cs
IsChain-bounded e last c [] le h = tt
IsChain-bounded e last c (x ∷ []) le h = (omega (arith, h.0), tt)
IsChain-bounded e last c (x ∷ y ∷ r) le h =
    (omega (arith, h.0), IsChain-bounded e last (e c) (y ∷ r) h.1 h.3)

pub All-zip :
    {P Q R : ℕ → Type 0} (cs : List ℕ)
    → ((i : ℕ) → P i → Q i → R i)
    → All P cs
    → All Q cs
    → All R cs
All-zip [] f p q = tt
All-zip (x ∷ cs) f p q = (f x p.0 q.0, All-zip cs f p.1 q.1)

-- A free count that is `n` larger; an unknown one stays unknown.
abbrev pub raised : ℕ → Option ℕ → Option ℕ
raised n none = none
raised n (some k) = some (k + n)

-- A free count that is `n` less; it is unknown if there is no such number.
abbrev pub lowered : ℕ → Option ℕ → Option ℕ
lowered n none = none
lowered n (some k) = if ltb k n then none else some (k - n)
