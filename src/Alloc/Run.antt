-- ===== src/Alloc/Run.antt =====
-- src/FatLib/FatPartition.cpp: `allocContiguous`, which takes a run of free clusters and links them
-- to a chain.
use sd_fat.Base.{
  ℕ, zero, suc, ◌+◌, ◌-◌, Bool, true, false, not, Method, ◌>>◌, pure, modify, done, fail, stuck,
  bind, ltb, ◌==◌, if◌then◌else◌, u32, sub32,
}
use sd_fat.Fat.{Link, eoc, next}
use sd_fat.Alloc.{FatTable, Partition, on_table, count_down, fat_put_eoc}

-- `bgnCluster`, `endCluster` and `setStart`.
pub record Search : Type 0 where
  pub bgn_cluster : ℕ
  pub end_cluster : ℕ
  pub set_start : Bool

module _ (T : FatTable) where
  open T use {State, last_cluster, get, put}

  -- A cluster that `fatGet` finds free: the link 0.
  abbrev pub is_free : Link → Bool
  is_free eoc = false
  is_free (next v) = v == 0

  -- The search, with rounds for fuel.
  unfoldable pub find_run : ℕ → ℕ → Search → Method State Search
  find_run zero count r s = stuck
  find_run (suc fuel) count r s =
      let b = r.bgn_cluster in
      let f = r.end_cluster in
      let used = find_run fuel count (record {
        bgn_cluster = u32 (f + 1);
        end_cluster = u32 (f + 1);
        set_start = if b == f then r.set_start else false;
      }) in
      let on = find_run fuel count (record r { end_cluster = u32 (f + 1) }) in
      if ltb last_cluster f
      then fail s
      else bind (get f s) (λ l t.
        if not (is_free l) then used t else if u32 (sub32 f b + 1) == count then done r t else on t)

  -- The loop that links the clusters, from the last one down: `n` is `endCluster - bgnCluster`.
  unfoldable pub link_down : ℕ → ℕ → Method State (Unit {0})
  link_down zero f s = done tt s
  link_down (suc n) f s = bind (put (f - 1) f s) (λ _. link_down n (f - 1))

  abbrev pub run_rounds : ℕ
  run_rounds = last_cluster + 2

  -- The tail, from the run found.
  unfoldable pub take_run : ℕ → Search → Method (Partition State) ℕ
  unfolding link_down
  take_run count r = do
    modify (λ p. if r.set_start then record p { alloc_search_start = r.end_cluster } else p)
    on_table (fat_put_eoc T r.end_cluster)
    on_table (link_down (r.end_cluster - r.bgn_cluster) r.end_cluster)
    modify (count_down count)
    pure r.bgn_cluster

  unfoldable pub alloc_contiguous : ℕ → Method (Partition State) ℕ
  unfolding find_run take_run
  alloc_contiguous count p =
      let first = u32 (p.alloc_search_start + 1) in
      bind
        (on_table
          (find_run run_rounds count
            (record { bgn_cluster = first; end_cluster = first; set_start = true }))
          p)
        (take_run count)
