-- ===== src/Alloc/Ends.antt =====
-- The search of `allocateCluster` ends: its rounds are enough for both passes over the volume.
use sd_fat.Base.{
  ℕ, zero, suc, ◌+◌, ◌-◌, ◌^◌, ◌<◌, ◌≢◌, inl, inr, arith, Bool, true, false, Outcome, Method, done,
  stuck, bind, bind-ne-stuck, Bool-cases, ltb, if◌then◌else◌, u32, tests,
}
use sd_fat.Fat.{Link, eoc, next, eoc_mark}
use sd_fat.Alloc.{
  FatTable, Partition, on_table, link_cluster, count_down, find_free, look, search_rounds,
  take_cluster, allocate_cluster,
}

pub on_table-ne-stuck :
    {S A : Type 0} (m : Method S A) (p : Partition S) → m p.table ≢ stuck → on_table m p ≢ stuck
on_table-ne-stuck m p h = ground (arith, h)

module _ (T : FatTable) where
  open T use {State, last_cluster, get, get_returns, put, put_returns, last_small}

  look-ne-stuck :
      (f : ℕ) (b : Bool) (on : State → Outcome State (ℕ × Bool))
      → ((s : State) → on s ≢ stuck)
      → (l : Link) (s : State) → look T f b on l s ≢ stuck
  unfolding look
  look-ne-stuck f b on h eoc s = h s
  look-ne-stuck f b on h (next v) s = ground (arith, h s)

  -- How many rounds may follow.
  abbrev rounds_left : ℕ → ℕ → Bool → ℕ
  rounds_left start find b =
      (last_cluster + 1 - find) + (if b then 0 else suc (last_cluster + 1 - start))

  pub find_free-ends :
      (fuel current start find : ℕ) (b : Bool) (s : State)
      → start < 2 ^ 32 - 1
      → find < 2 ^ 32 - 1
      → rounds_left start find b < fuel
      → find_free T fuel current start find b s ≢ stuck
  unfolding find_free
  find_free-ends zero current start find b s hs hf lt = absurd (omega arith)
  find_free-ends (suc fuel) current start find b s hs hf lt =
      elim (Bool-cases (ltb last_cluster f)) [
        | inl past ↦ elim (Bool-cases b) [
          | inl yes_b ↦ ground arith
          | inr no_b ↦
              let rest = find_free-ends fuel current start start true s hs hs (ground arith) in
              ground (arith, rest)
        ]
        | inr inside ↦
            let rest =
              bind-ne-stuck (get f s) (look T f b (find_free T fuel current start f b))
                (get_returns f s)
                (λ l x _.
                  look-ne-stuck f b (find_free T fuel current start f b)
                    (λ q.
                      find_free-ends fuel current start f b q hs (omega (tests, last_small))
                        (ground (arith, last_small)))
                    l x) in
            ground (arith, rest)
      ]
    where
      f : ℕ
      f = u32 (find + 1)

  link_cluster-ends : (current f : ℕ) (p : Partition State) → link_cluster T current f p ≢ stuck
  unfolding link_cluster
  link_cluster-ends current f p =
      ground (arith, on_table-ne-stuck (put current f) p (put_returns current f p.table))

  take_cluster-ends :
      (current : ℕ) (r : ℕ × Bool) (p : Partition State) → take_cluster T current r p ≢ stuck
  unfolding take_cluster
  take_cluster-ends current (f, b) p =
      let p1 = if b then record p { alloc_search_start = f } else p in
      bind-ne-stuck (on_table (put f eoc_mark) p1)
        (λ _ q. bind (link_cluster T current f q) (λ _ r. done f (count_down 1 r)))
        (on_table-ne-stuck (put f eoc_mark) p1 (put_returns f eoc_mark p1.table))
        (λ _ q _.
          bind-ne-stuck (link_cluster T current f q) (λ _ r. done f (count_down 1 r))
            (link_cluster-ends current f q) (λ _ r _ e. cc))

  -- `allocateCluster` returns on every table, when the current cluster and the search start are
  -- below 2 ^ 32 - 1.
  pub allocate_cluster-ends :
      (current : ℕ) (p : Partition State)
      → current < 2 ^ 32 - 1
      → p.alloc_search_start < 2 ^ 32 - 1
      → allocate_cluster T current p ≢ stuck
  unfolding allocate_cluster
  allocate_cluster-ends current p hc hs =
      bind-ne-stuck
        (if ltb start current
          then on_table (find_free T (search_rounds T) current start current false) p
          else on_table (find_free T (search_rounds T) current start start true) p)
        (take_cluster T current)
        (ground (
          arith,
          on_table-ne-stuck (find_free T (search_rounds T) current start current false) p (
              find_free-ends (search_rounds T) current start current false p.table hs hc
                (omega arith)),
          on_table-ne-stuck (find_free T (search_rounds T) current start start true) p (
              find_free-ends (search_rounds T) current start start true p.table hs hs
                (omega arith)),
        ))
        (λ r q _. take_cluster-ends current r q)
    where
      start : ℕ
      start = p.alloc_search_start
