-- ===== src/Alloc/Cut.antt =====
-- A chain cut in two: the front, which ends at a cluster, and what is behind it.
use sd_fat.Base.{ℕ, zero, suc, ◌≤◌, ◌<◌, ◌≡◌, ◌≢◌, refl, sym, ◌∙◌, ap, subst, arith, List, [], ◌∷◌}
use sd_fat.Base.Lists.{length, get_or, take, drop, All}
use sd_fat.Alloc.Chain.{IsChain, IsAbsent}

pub All-take : (P : ℕ → Type 0) (n : ℕ) (cs : List ℕ) → All P cs → All P (take n cs)
All-take P zero cs h = tt
All-take P (suc n) [] h = tt
All-take P (suc n) (x ∷ cs) h = (h.0, All-take P n cs h.1)

pub All-drop : (P : ℕ → Type 0) (n : ℕ) (cs : List ℕ) → All P cs → All P (drop n cs)
All-drop P zero cs h = h
All-drop P (suc n) [] h = tt
All-drop P (suc n) (x ∷ cs) h = All-drop P n cs h.1

pub length-take : (n : ℕ) (cs : List ℕ) → n ≤ length cs → length (take n cs) ≡ n
length-take zero cs h = refl
length-take (suc n) [] h = absurd (omega arith)
length-take (suc n) (x ∷ cs) h = ap suc (length-take n cs (omega arith))

-- The part behind a cluster is a chain.
pub IsChain-drop :
    (e : ℕ → ℕ) (last c : ℕ) (cs : List ℕ) (i : ℕ)
    → IsChain e last c cs
    → suc i < length cs
    → IsChain e last (get_or cs (suc i) 0) (drop (suc i) cs)
IsChain-drop e last c [] i h lt = absurd h
IsChain-drop e last c (x ∷ []) i h lt = absurd (omega arith)
IsChain-drop e last c (x ∷ y ∷ r) zero h lt =
    subst (λ t. IsChain e last t (y ∷ r)) (sym (first (y ∷ r) h.3)) h.3
  where
    first : (l : List ℕ) → IsChain e last (e c) l → get_or l 0 0 ≡ e c
    first [] k = absurd k
    first (a ∷ []) k = k.0
    first (a ∷ b ∷ l) k = k.0
IsChain-drop e last c (x ∷ y ∷ r) (suc i) h lt =
    IsChain-drop e last (e c) (y ∷ r) i h.3 (omega arith)

-- The front is a chain in a table whose entry of its last cluster is an end.
pub IsChain-cut :
    (e e' : ℕ → ℕ) (last c : ℕ) (cs : List ℕ) (i : ℕ)
    → IsChain e last c cs
    → i < length cs
    → All (λ x. e' x ≡ e x) (take i cs)
    → last < e' (get_or cs i 0)
    → IsChain e' last c (take (suc i) cs)
IsChain-cut e e' last c [] i h lt same z = absurd h
IsChain-cut e e' last c (x ∷ []) zero h lt same z = (h.0, subst (λ t. last < e' t) h.0 z)
IsChain-cut e e' last c (x ∷ []) (suc i) h lt same z = absurd (omega arith)
IsChain-cut e e' last c (x ∷ y ∷ r) zero h lt same z = (h.0, subst (λ t. last < e' t) h.0 z)
IsChain-cut e e' last c (x ∷ y ∷ r) (suc i) h lt same z =
    let k : e c ≡ e' c = ap e (sym h.0) ∙ sym same.0 ∙ ap e' h.0 in
    (
      h.0,
      subst (λ t. t ≤ last) k h.1,
      All-take (λ t. t ≢ c) (suc i) (y ∷ r) h.2,
      subst (λ t. IsChain e' last t (take (suc i) (y ∷ r))) k
          (IsChain-cut e e' last (e c) (y ∷ r) i h.3 (omega arith) same.1 z),
    )

-- The cluster at the cut and those in front of it are not behind it.
pub IsChain-apart :
    (e : ℕ → ℕ) (last c : ℕ) (cs : List ℕ) (i : ℕ)
    → IsChain e last c cs
    → i < length cs
    → All (λ x. IsAbsent x (drop (suc i) cs) × (x ≢ get_or cs i 0)) (take i cs)
      × IsAbsent (get_or cs i 0) (drop (suc i) cs)
IsChain-apart e last c [] i h lt = absurd h
IsChain-apart e last c (x ∷ []) zero h lt = (tt, tt)
IsChain-apart e last c (x ∷ []) (suc i) h lt = absurd (omega arith)
IsChain-apart e last c (x ∷ y ∷ r) zero h lt = (tt, subst (λ t. IsAbsent t (y ∷ r)) (sym h.0) h.2)
IsChain-apart e last c (x ∷ y ∷ r) (suc i) h lt =
    let (a, b) = IsChain-apart e last (e c) (y ∷ r) i h.3 (omega arith) in
    (
      (
        (
          subst (λ t. IsAbsent t (drop (suc i) (y ∷ r))) (sym h.0)
              (All-drop (λ t. t ≢ c) (suc i) (y ∷ r) h.2),
          λ z. All-at (y ∷ r) i h.2 (omega arith) (sym z ∙ h.0),
        ),
        a,
      ),
      b,
    )
  where
    All-at : (l : List ℕ) (i : ℕ) → All (λ t. t ≢ c) l → i < length l → get_or l i 0 ≢ c
    All-at [] i h lt = absurd (omega arith)
    All-at (a ∷ l) zero h lt = h.0
    All-at (a ∷ l) (suc i) h lt = All-at l i h.1 (omega arith)

-- The entry of the last cluster is an end.
pub IsChain-last :
    (e : ℕ → ℕ) (last c : ℕ) (cs : List ℕ) (i : ℕ)
    → IsChain e last c cs
    → suc i ≡ length cs
    → last < e (get_or cs i 0)
IsChain-last e last c [] i h z = absurd h
IsChain-last e last c (x ∷ []) zero h z = subst (λ t. last < e t) (sym h.0) h.1
IsChain-last e last c (x ∷ []) (suc i) h z = absurd (omega arith)
IsChain-last e last c (x ∷ y ∷ r) zero h z = absurd (omega arith)
IsChain-last e last c (x ∷ y ∷ r) (suc i) h z =
    IsChain-last e last (e c) (y ∷ r) i h.3 (omega arith)

pub take_all : (n : ℕ) (cs : List ℕ) → length cs ≤ n → take n cs ≡ cs
take_all zero [] h = refl
take_all zero (x ∷ cs) h = absurd (omega arith)
take_all (suc n) [] h = refl
take_all (suc n) (x ∷ cs) h = ap (λ t. x ∷ t) (take_all n cs (omega arith))

pub drop_all : (n : ℕ) (cs : List ℕ) → length cs ≤ n → drop n cs ≡ []
drop_all zero [] h = refl
drop_all zero (x ∷ cs) h = absurd (omega arith)
drop_all (suc n) [] h = refl
drop_all (suc n) (x ∷ cs) h = drop_all n cs (omega arith)

pub get_or-take : (n i : ℕ) (cs : List ℕ) → i < n → get_or (take n cs) i 0 ≡ get_or cs i 0
get_or-take zero i cs h = absurd (omega arith)
get_or-take (suc n) i [] h = refl
get_or-take (suc n) zero (x ∷ cs) h = refl
get_or-take (suc n) (suc i) (x ∷ cs) h = get_or-take n i cs (omega arith)

pub IsChain-nonempty : (e : ℕ → ℕ) (last c : ℕ) (cs : List ℕ) → IsChain e last c cs → 0 < length cs
IsChain-nonempty e last c [] h = absurd h
IsChain-nonempty e last c (x ∷ cs) h = omega arith
