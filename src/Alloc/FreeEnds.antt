-- ===== src/Alloc/FreeEnds.antt =====
-- `freeChain` ends even on a damaged table: each round frees a cluster that was in use, and a
-- cluster that is free already leads to cluster 0, which `fatGet` refuses.
use sd_fat.Base.{
  ℕ, zero, suc, ◌+◌, ◌-◌, ◌≤◌, ◌<◌, ◌≡◌, ◌≢◌, refl, inl, inr, ap, subst, ℕ_discrete, arith, ◌||◌,
  done, stuck, bind, bind-ne-stuck, Bool-cases, ltb, ◌==◌, ==→eq, if◌then◌else◌,
}
use sd_fat.Fat.{Link, eoc, next}
use sd_fat.Alloc.{FatTable, Partition, on_table, count_up, free_one, free_rounds, free_chain}
use sd_fat.Alloc.Ends.{on_table-ne-stuck}
use sd_fat.Alloc.Free.{Freed, free_one-Freed, lower}

-- How many of the entries 2 to `n - 1` are in use.
in_use : (ℕ → ℕ) → ℕ → ℕ
in_use e zero = 0
in_use e (suc n) = in_use e n + (if ltb n 2 || e n == 0 then 0 else 1)

in_use-le : (e : ℕ → ℕ) (n : ℕ) → in_use e n ≤ n - 2
unfolding in_use
in_use-le e zero = omega arith
in_use-le e (suc n) = ground (arith, in_use-le e n)

in_use-same : (e e' : ℕ → ℕ) (n : ℕ) → ((i : ℕ) → i < n → e' i ≡ e i) → in_use e' n ≡ in_use e n
unfolding in_use
in_use-same e e' zero h = refl
in_use-same e e' (suc n) h =
    ground (arith, in_use-same e e' n (λ i lt. h i (omega arith)), h n (omega arith))

in_use-freed :
    (e e' : ℕ → ℕ) (c n : ℕ)
    → 2 ≤ c
    → c < n
    → e c ≢ 0
    → e' c ≡ 0
    → ((i : ℕ) → i ≢ c → i < n → e' i ≡ e i)
    → in_use e' n + 1 ≡ in_use e n
unfolding in_use
in_use-freed e e' c zero lo lt ne z h = absurd (omega arith)
in_use-freed e e' c (suc n) lo lt ne z h = elim (Bool-cases (c == n)) [
  | inl y ↦ ground (
    arith,
    ==→eq c n y,
    ap e (==→eq c n y),
    ap e' (==→eq c n y),
    in_use-same e e' n (λ i l. h i (ground arith) (omega arith)),
  )
  | inr y ↦ ground (
    arith,
    in_use-freed e e' c n lo (ground arith) ne z (λ i d l. h i d (omega arith)),
    h n (ground arith) (omega arith),
  )
]

module _ (T : FatTable) where
  open T use {State, last_cluster, get, put, IsReady, entry, get_returns, put_returns}

  free_one-ends : (c : ℕ) (p : Partition State) → free_one T c p ≢ stuck
  unfolding free_one
  free_one-ends c p =
      bind-ne-stuck (on_table (get c) p)
        (λ l x. bind (on_table (put c 0) x) (λ _ y. done l (lower T c (count_up 1 y))))
        (on_table-ne-stuck (get c) p (get_returns c p.table))
        (λ l x _.
          bind-ne-stuck (on_table (put c 0) x) (λ _ y. done l (lower T c (count_up 1 y)))
            (on_table-ne-stuck (put c 0) x (put_returns c 0 x.table)) (λ _ y _ e. cc))

  -- Cluster 0 is refused at once.
  round_zero :
      (fuel : ℕ) (q : Partition State) → IsReady q.table → 0 < fuel → free_rounds T fuel 0 q ≢ stuck
  unfolding free_rounds
  round_zero zero q m lt = absurd (omega arith)
  round_zero (suc fuel) q m lt =
      bind-ne-stuck (free_one T 0 q)
        (λ l r. elim l [ eoc ↦ done tt r | next n ↦ free_rounds T fuel n r ]) (free_one-ends 0 q)
        (λ l r y. absurd (omega (arith, (free_one-Freed T 0 q m y).low)))

  abbrev used : Partition State → ℕ
  used p = in_use (entry p.table) (last_cluster + 1)

  Freed-used :
      {c : ℕ} {l : Link} {p q : Partition State}
      → Freed T c l p q
      → entry p.table c ≢ 0
      → used q + 1 ≡ used p
  Freed-used {c} {l} {p} {q} f ne =
      in_use-freed (entry p.table) (entry q.table) c (last_cluster + 1) f.low
        (omega (arith, f.high)) ne f.free (λ i d lt. f.others i d (omega arith))

  -- A round and what follows it, if the later rounds end.
  round_ends :
      (fuel c : ℕ) (p : Partition State)
      → IsReady p.table
      → used p + 1 < suc fuel
      → ((n : ℕ) (q : Partition State)
          → IsReady q.table
          → used q + 1 < fuel
          → free_rounds T fuel n q ≢ stuck)
      → free_rounds T (suc fuel) c p ≢ stuck
  unfolding free_rounds
  round_ends fuel c p m lt ih =
      bind-ne-stuck (free_one T c p)
        (λ l q. elim l [ eoc ↦ done tt q | next n ↦ free_rounds T fuel n q ]) (free_one-ends c p)
        after
    where
      after :
          (l : Link) (q : Partition State)
          → free_one T c p ≡ done l q
          → (elim l [ eoc ↦ done tt q | next n ↦ free_rounds T fuel n q ]) ≢ stuck
      after eoc q y = λ e. cc
      after (next n) q y =
          let f = free_one-Freed T c p m y in
          elim (ℕ_discrete (entry p.table c) 0) [
            | yes z ↦
                subst (λ t. free_rounds T fuel t q ≢ stuck) (ground (arith, f.link))
                  (round_zero fuel q f.ready (omega arith))
            | no ne ↦ ih n q f.ready (omega (arith, Freed-used f ne))
          ]

  free_rounds-ends :
      (fuel c : ℕ) (p : Partition State)
      → IsReady p.table
      → used p + 1 < fuel
      → free_rounds T fuel c p ≢ stuck
  free_rounds-ends zero c p m lt = absurd (omega arith)
  free_rounds-ends (suc fuel) c p m lt =
      round_ends fuel c p m lt (λ n q r k. free_rounds-ends fuel n q r k)

  -- `freeChain` returns on every table that is ready, also on one whose chain is a cycle.
  pub free_chain-ends : (c : ℕ) (p : Partition State) → IsReady p.table → free_chain T c p ≢ stuck
  unfolding free_chain
  free_chain-ends c p m =
      free_rounds-ends (last_cluster + 2) c p m
        (omega (arith, in_use-le (entry p.table) (last_cluster + 1)))
