-- ===== src/ExFat/Scan.antt =====
-- The search of `bitmapFind` in one sector of the allocation bitmap.
use sd_fat.Base.{
  ℕ, zero, suc, ◌+◌, ◌-◌, ◌*◌, ◌/◌, ◌%◌, ◌^◌, ◌≤◌, ◌<◌, ◌≡◌, ◌≢◌, ◌⊎◌, inl, inr, refl, sym, ◌∙◌, ap,
  arith, ◌&&◌, ◌==◌, leb, if◌then◌else◌, Bool-cases, ==→eq, u32, sub32, bit_and,
}
use native.Mathlib.Nat.{one-le-pow}
use sd_fat.Base.Digit.{digit, digit-and}
use sd_fat.Endian.{Bytes}
use sd_fat.ExFat.{Layout}
use sd_fat.ExFat.Bitmap.{Scan, found, no_space, more, scan_bits}

-- A mask of one digit times a number is 0 when the number is.
pub mask_test : (k x : ℕ) → (bit_and (2 ^ k) x == 0) ≡ (digit x k == 0)
mask_test k x = elim (Bool-cases (digit x k == 0)) [
  | inl z ↦
      rw z
        (ground (arith, digit-and k x, ap (λ t. t * 2 ^ k) {x = digit x k} {y = 0} (ground arith)))
  | inr n ↦
      let one : digit x k ≡ 1 = ground arith in
      let e : digit x k * 2 ^ k ≡ 2 ^ k = ap (λ t. t * 2 ^ k) one ∙ omega arith in
      rw n (ground (arith, digit-and k x, e, one-le-pow k 2))
]

-- The bits are numbers below 2, `used` for each cluster less 2.
module _ (v : Layout) (used : ℕ → ℕ) (start count : ℕ) where
  -- Enough free clusters from `b` on.
  abbrev pub IsRun : ℕ → Type 0
  IsRun b = (b + count ≤ v.cluster_count) × ((i : ℕ) → b ≤ i → i < b + count → used i ≡ 0)

  abbrev pub AllUsed : Type 0
  AllUsed = (i : ℕ) → i < v.cluster_count → used i ≢ 0

  -- The clusters that the search has passed at `e`: it begins at `start` and wraps.
  abbrev IsPassed : ℕ → ℕ → Type 0
  IsPassed e i =
      (i < v.cluster_count)
      × (((start ≤ e) × (start ≤ i) × (i < e)) ⊎ ((e < start) × ((start ≤ i) ⊎ (i < e))))

  -- `endAlloc` is `e` and `bgnAlloc` is `b`: the clusters between them are free.
  pub record Search (e b : ℕ) : Type 0 where
    pub inside : e < v.cluster_count
    pub ordered : b ≤ e
    pub run : (i : ℕ) → b ≤ i → i < e → used i ≡ 0
    pub single : count ≡ 1 → b ≡ e
    pub passed : count ≡ 1 → (i : ℕ) → IsPassed e i → used i ≢ 0

  -- How far the search is from its end.
  abbrev pub to_go : ℕ → ℕ
  to_go e = if leb start e then v.cluster_count - e + start else start - e

  abbrev pub Scanned : ℕ → Scan → Type 0
  Scanned m s = elim s [
    | found b ↦ IsRun b
    | no_space ↦ (0 < start) × (count ≡ 1 → AllUsed)
    | more e b ↦ Search e b × (e % 4096 ≡ 0) × (0 < start → to_go e ≤ m)
  ]

  module _ (cache : Bytes) (base : ℕ)
      (cached : (k : ℕ) → k < 4096 → digit (cache (k / 8)) (k % 8) ≡ used (base + k))
      (aligned : base % 4096 ≡ 0) (below : start < v.cluster_count)
      (small : v.cluster_count < 2 ^ 32) (some : 0 < count) where
    -- A free cluster more.
    free_step :
        (e b : ℕ)
        → Search e b
        → used e ≡ 0
        → count ≢ e + 1 - b
        → suc e ≢ start
        → suc e < v.cluster_count
        → Search (suc e) b
    free_step e b s z ne nst lt = record {
      inside = lt;
      ordered = omega (arith, s.ordered);
      run = λ i lo hi. ground (arith, s.run i lo, ap used {x = i} {y = e}, z);
      single = λ one. absurd (ne (omega (arith, one, s.single one)));
      passed = λ one. absurd (ne (omega (arith, one, s.single one)));
    }

    -- One cluster more is passed.
    IsPassed-step : (e i : ℕ) → IsPassed (suc e) i → suc e ≢ start → i ≢ e → IsPassed e i
    IsPassed-step e i p nst ne = ground arith

    IsPassed-wrap :
        (e i : ℕ) → IsPassed 0 i → v.cluster_count ≡ suc e → suc e ≢ start → i ≢ e → IsPassed e i
    IsPassed-wrap e i p last nst ne = ground arith

    -- A used cluster, or a free one, that ends a run at `e`.
    ended_passed :
        (e b : ℕ)
        → Search e b
        → used e ≢ 0
        → (i : ℕ) → count ≡ 1
        → ((i ≢ e) → IsPassed e i)
        → used i ≢ 0
    ended_passed e b s z i one p y = elim (Bool-cases (i == e)) [
      | inl ie ↦ z (ap used {x = e} {y = i} (ground arith) ∙ y)
      | inr ie ↦ s.passed one i (p (ground arith)) y
    ]

    used_step :
        (e b : ℕ)
        → Search e b
        → used e ≢ 0
        → suc e ≢ start
        → suc e < v.cluster_count
        → Search (suc e) (suc e)
    used_step e b s z nst lt = record {
      inside = lt;
      ordered = omega arith;
      run = λ i lo hi. absurd (omega arith);
      single = λ _. refl;
      passed = λ one i p. ended_passed e b s z i one (IsPassed-step e i p nst);
    }

    -- A single free cluster would have been found.
    not_free : (e b : ℕ) → Search e b → count ≡ 1 → count ≢ e + 1 - b → used e ≢ 0
    not_free e b s one ne z = ne (omega (arith, one, s.single one))

    wrapped :
        (e b : ℕ)
        → Search e b
        → (used e ≡ 0 → count ≢ e + 1 - b)
        → v.cluster_count ≡ suc e
        → suc e ≢ start
        → Search 0 0
    wrapped e b s ne last nst = record {
      inside = omega arith;
      ordered = omega arith;
      run = λ i lo hi. absurd (omega arith);
      single = λ _. refl;
      passed = λ one i p.
          ended_passed e b s (λ z. not_free e b s one (ne z) z) i one
            (IsPassed-wrap e i p last nst);
    }

    all_passed :
        (e b : ℕ)
        → Search e b
        → (used e ≡ 0 → count ≢ e + 1 - b)
        → suc e ≡ start
        → count ≡ 1
        → AllUsed
    all_passed e b s ne at one i lt =
        ended_passed e b s (λ z. not_free e b s one (ne z) z) i one (λ d. ground arith)

    near_step :
        (e m : ℕ) → e < v.cluster_count → suc e ≢ start → to_go e ≤ suc m → to_go (suc e) ≤ m
    near_step e m lt nst h = ground arith

    near_wrap :
        (e m : ℕ)
        → v.cluster_count ≡ suc e
        → suc e ≢ start
        → 0 < start
        → to_go e ≤ suc m
        → to_go 0 ≤ m
    near_wrap e m last nst pos h = ground arith

    -- One bit, and the bits behind it.
    step :
        (n j e b m : ℕ)
        → Search e b
        → e ≡ base + j
        → j < 4096
        → (0 < start → to_go e ≤ suc m)
        → ((b' : ℕ)
            → Search (suc e) b'
            → (0 < start → to_go (suc e) ≤ m)
            → Scanned m (scan_bits v start count cache n (j + 1) (suc e) b'))
        → Scanned m (scan_bits v start count cache (suc n) j e b)
    unfolding scan_bits
    step n j e b m s at lt near rest =
        let next : u32 (e + 1) ≡ suc e = omega (arith, s.inside, small) in
        let size : sub32 (suc e) b ≡ e + 1 - b = omega (arith, s.inside, s.ordered, small) in
        let bit : digit (cache (j / 8)) (j % 8) ≡ used e = cached j lt ∙ ap used (sym at) in
        rw (next, size, mask_test (j % 8) (cache (j / 8)), bit)
          (elim (Bool-cases (used e == 0 && e + 1 - b == count)) [
            | inl y ↦ rw y (found_run (ground arith) (ground arith))
            | inr y ↦ rw y (elim (Bool-cases (suc e == start)) [
              | inl z ↦ rw z (
                omega (arith, ==→eq (suc e) start z),
                all_passed e b s (λ u. ground arith) (==→eq (suc e) start z),
              )
              | inr z ↦ rw z (elim (Bool-cases (leb v.cluster_count (suc e))) [
                | inl w ↦ rw w (
                  wrapped e b s (λ u. ground arith) (last (ground arith)) (ground arith),
                  refl,
                  λ pos. near_wrap e m (last (ground arith)) (ground arith) pos (near pos),
                )
                | inr w ↦ rw w (elim (Bool-cases (used e == 0)) [
                  | inl u ↦ rw u (
                      rest b
                        (free_step e b s (ground arith) (ground arith) (ground arith)
                          (ground arith))
                        (λ pos. near_step e m s.inside (ground arith) (near pos)))
                  | inr u ↦ rw u (
                      rest (suc e) (used_step e b s (ground arith) (ground arith) (ground arith))
                        (λ pos. near_step e m s.inside (ground arith) (near pos)))
                ])
              ])
            ])
          ])
      where
        last : v.cluster_count ≤ suc e → v.cluster_count ≡ suc e
        last h = omega (arith, s.inside)

        found_run : used e ≡ 0 → e + 1 - b ≡ count → IsRun b
        found_run z c = (
          omega (arith, s.inside, s.ordered),
          λ i lo hi. elim (Bool-cases (i == e)) [
            | inl ie ↦ ap used {x = i} {y = e} (ground arith) ∙ z
            | inr ie ↦ s.run i lo (ground arith)
          ],
        )

    -- The rest of a sector that is not empty.
    pub scan_bits-Scanned :
        (n j e b m : ℕ)
        → Search e b
        → e ≡ base + j
        → j + suc n ≡ 4096
        → (0 < start → to_go e ≤ suc m)
        → Scanned m (scan_bits v start count cache (suc n) j e b)
    scan_bits-Scanned zero j e b m s at len near =
        step zero j e b m s at (omega arith) near
          (λ b' s' near'. unfold scan_bits in (s', omega (arith, at, len, aligned), near'))
    scan_bits-Scanned (suc n) j e b m s at len near =
        step (suc n) j e b m s at (omega arith) near (λ b' s' near'.
          scan_bits-Scanned n (j + 1) (suc e) b' m s' (omega arith) (omega arith)
            (λ pos. omega (arith, near' pos)))
