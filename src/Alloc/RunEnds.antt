-- ===== src/Alloc/RunEnds.antt =====
-- `allocContiguous` returns on every table.
use sd_fat.Base.{
  ℕ, zero, suc, ◌+◌, ◌-◌, ◌<◌, ◌≡◌, ◌≢◌, inl, inr, arith, true, false, done, stuck, bind,
  bind-ne-stuck, Bool-cases, ltb, if◌then◌else◌, u32,
}
use sd_fat.Fat.{eoc_mark}
use sd_fat.Alloc.{FatTable, Partition, on_table, count_down}
use sd_fat.Alloc.Ends.{on_table-ne-stuck}
use sd_fat.Alloc.Run.{Search, find_run, run_rounds, link_down, take_run, alloc_contiguous}
use sd_fat.Alloc.RunFound.{after, used, on}

module _ (T : FatTable) where
  open T use {State, last_cluster, get, get_returns, put, put_returns, last_small}

  find_run-ends :
      (fuel count : ℕ) (r : Search) (s : State)
      → last_cluster + 1 - r.end_cluster < fuel
      → find_run T fuel count r s ≢ stuck
  unfolding find_run
  find_run-ends zero count r s lt = absurd (omega arith)
  find_run-ends (suc fuel) count r s lt = elim (Bool-cases (ltb last_cluster r.end_cluster)) [
    | inl past ↦ ground arith
    | inr inside ↦
        let rest =
          bind-ne-stuck (get r.end_cluster s) (after T fuel count r) (get_returns r.end_cluster s)
            (λ l t _.
              let u = find_run-ends fuel count (used T r) t (omega (arith, step inside)) in
              let v = find_run-ends fuel count (on T r) t (omega (arith, step inside)) in
              ground (arith, u, v)) in
        ground (arith, rest)
  ]
    where
      step :
          ltb last_cluster r.end_cluster ≡ false → last_cluster + 1 - u32 (r.end_cluster + 1) < fuel
      step inside = ground (arith, last_small)

  link_down-ends : (n f : ℕ) (s : State) → link_down T n f s ≢ stuck
  unfolding link_down
  link_down-ends zero f s = λ e. absurd cc
  link_down-ends (suc n) f s =
      bind-ne-stuck (put (f - 1) f s) (λ _. link_down T n (f - 1)) (put_returns (f - 1) f s)
        (λ _ t _. link_down-ends n (f - 1) t)

  take_run-ends : (count : ℕ) (r : Search) (p : Partition State) → take_run T count r p ≢ stuck
  unfolding take_run
  take_run-ends count r p =
      let p1 = if r.set_start then record p { alloc_search_start = r.end_cluster } else p in
      let f = r.end_cluster in
      let n = f - r.bgn_cluster in
      bind-ne-stuck (on_table (put f eoc_mark) p1)
        (λ _ q.
          bind (on_table (link_down T n f) q) (λ _ r'. done r.bgn_cluster (count_down count r')))
        (on_table-ne-stuck (put f eoc_mark) p1 (put_returns f eoc_mark p1.table))
        (λ _ q _.
          bind-ne-stuck (on_table (link_down T n f) q)
            (λ _ r'. done r.bgn_cluster (count_down count r'))
            (on_table-ne-stuck (link_down T n f) q (link_down-ends n f q.table)) (λ _ r _ e. cc))

  -- `allocContiguous` returns on every table.
  pub alloc_contiguous-ends : (count : ℕ) (p : Partition State) → alloc_contiguous T count p ≢ stuck
  unfolding alloc_contiguous
  alloc_contiguous-ends count p =
      let r : Search = record {
        bgn_cluster = u32 (p.alloc_search_start + 1);
        end_cluster = u32 (p.alloc_search_start + 1);
        set_start = true;
      } in
      bind-ne-stuck (on_table (find_run T (run_rounds T) count r) p) (take_run T count)
        (on_table-ne-stuck (find_run T (run_rounds T) count r) p
          (find_run-ends (run_rounds T) count r p.table (omega arith)))
        (λ r q _. take_run-ends count r q)
