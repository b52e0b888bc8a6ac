-- ===== src/Fat/MountShift.antt =====
-- The loop of `init` that finds the shift of the cluster size.
use sd_fat.Base.{
  ℕ, zero, suc, ◌+◌, ◌%◌, ◌^◌, ◌≤◌, ◌<◌, ◌≡◌, ◌≢◌, ◌⊎◌, inl, inr, sym, subst, ◌∙◌, arith, true,
  false, Outcome, done, stuck, done-injective, Bool-cases, ap, ℕ_discrete, ◌==◌, u8, ◌<<<◌,
}
use native.Mathlib.Nat.{pow-suc, mod-eq_of_lt, pow-le-pow_right}
use sd_fat.Fat.Mount.{Mount, set_geometry, shift_rounds}

doubled : (k : ℕ) → u8 ((2 ^ k % 256) <<< 1) ≡ 2 ^ suc k % 256
doubled k = omega (arith, pow-suc 2 k)

-- A power of two that fits a byte, or 256 cut to a byte.
abbrev pub IsPower : ℕ → ℕ → Type 0
IsPower size j = ((size ≡ 2 ^ j) × (j ≤ 7)) ⊎ ((size ≡ 0) × (j ≡ 8))

IsPower-cut : (size j : ℕ) → j ≤ 8 → size ≡ 2 ^ j % 256 → IsPower size j
IsPower-cut size j le e = elim (ℕ_discrete j 8) [
  | yes q ↦ inr (e ∙ ap (λ t. 2 ^ t % 256) q, q)
  | no q ↦ inl (e ∙ mod-eq_of_lt (below j (omega arith)), omega arith)
]
  where
    below : (j : ℕ) → j ≤ 7 → 2 ^ j < 256
    below j le = omega (arith, pow-le-pow_right {n = 2} (omega arith) {i = j} {j = 7} le)

module _ {D : Type 0} where
  abbrev pub with_shift : ℕ → Mount D → Mount D
  with_shift j = set_geometry (λ g. record g { sectors_per_cluster_shift = j })

  -- The rounds behind `k` doublings.
  shift_rounds-at :
      (fuel k : ℕ) (v : Mount D) {w : Mount D}
      → k ≤ 8
      → shift_rounds fuel (2 ^ k % 256) (with_shift k v) ≡ done tt w
      → (j : ℕ) × (j ≤ 8) × (v.geometry.sectors_per_cluster ≡ 2 ^ j % 256) × (w ≡ with_shift j v)
  unfolding shift_rounds
  shift_rounds-at zero k v {w} le e = absurd cc
  shift_rounds-at (suc fuel) k v {w} le e =
      elim (Bool-cases (v.geometry.sectors_per_cluster == 2 ^ k % 256)) [
        | inl here ↦ (k, le, ground arith, sym (done-injective (stops here)).1)
        | inr on ↦ elim (Bool-cases (2 ^ k % 256 == 0)) [
          | inl z ↦ absurd (ground arith)
          | inr more ↦ shift_rounds-at fuel (suc k) v (below more) (
              subst (λ t. shift_rounds fuel (2 ^ suc k % 256) (with_shift t v) ≡ done tt w)
                {x = u8 (k + 1)} {y = suc k} (omega arith)
                (subst (λ t. shift_rounds fuel t (with_shift (u8 (k + 1)) v) ≡ done tt w)
                  (doubled k) (goes on more)))
        ]
      ]
    where
      stops :
          (v.geometry.sectors_per_cluster == 2 ^ k % 256) ≡ true
          → ◌≡◌ {A = Outcome (Mount D) Unit} (done tt (with_shift k v)) (done tt w)
      stops here = ground arith

      below : (2 ^ k % 256 == 0) ≡ false → suc k ≤ 8
      below more = elim (ℕ_discrete k 8) [
        | yes q ↦ absurd (ground (arith, ap (λ t. 2 ^ t % 256) q))
        | no q ↦ omega arith
      ]

      goes :
          (v.geometry.sectors_per_cluster == 2 ^ k % 256) ≡ false
          → (2 ^ k % 256 == 0) ≡ false
          → shift_rounds fuel (u8 ((2 ^ k % 256) <<< 1)) (with_shift (u8 (k + 1)) v) ≡ done tt w
      goes on more = ground arith

  shift_rounds-ne-stuck :
      (fuel k : ℕ) (v : Mount D) → k ≤ 8 → 8 < k + fuel → shift_rounds fuel (2 ^ k % 256) v ≢ stuck
  unfolding shift_rounds
  shift_rounds-ne-stuck zero k v le lt = absurd (omega arith)
  shift_rounds-ne-stuck (suc fuel) k v le lt = elim (ℕ_discrete k 8) [
    | yes q ↦ ground (arith, ap (λ t. 2 ^ t % 256) q)
    | no q ↦
        let w =
          set_geometry
            (λ g. record g { sectors_per_cluster_shift = u8 (g.sectors_per_cluster_shift + 1) })
            v in
        let rest =
          subst (λ t. shift_rounds fuel t w ≢ stuck) (sym (doubled k))
            (shift_rounds-ne-stuck fuel (suc k) w (omega arith) (omega arith)) in
        ground (arith, rest)
  ]

  -- The shift that the loop finds, and the size of a cluster that it was found for.
  pub shift_rounds-shift :
      (v : Mount D) {w : Mount D}
      → v.geometry.sectors_per_cluster < 256
      → v.geometry.sectors_per_cluster_shift ≡ 0
      → shift_rounds 10 1 v ≡ done tt w
      → (j : ℕ) × IsPower v.geometry.sectors_per_cluster j × (w ≡ with_shift j v)
  shift_rounds-shift v {w} lt z e =
      let (j, le, size, end) =
        shift_rounds-at 10 0 v (omega arith)
          (subst (λ t. shift_rounds 10 1 (with_shift t v) ≡ done tt w) z e) in
      (j, IsPower-cut v.geometry.sectors_per_cluster j le size, end)

  pub shift_rounds-ends : (v : Mount D) → shift_rounds 10 1 v ≢ stuck
  shift_rounds-ends v = shift_rounds-ne-stuck 10 0 v (omega arith) (omega arith)
