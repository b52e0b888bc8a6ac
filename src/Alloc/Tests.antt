-- ===== src/Alloc/Tests.antt =====
-- Runs of the allocation on a small table.
use sd_fat.Base.{ℕ, ◌<◌, ◌≡◌, ◌≢◌, refl, arith, Outcome, done, fail, stuck, [], ◌∷◌}
use sd_fat.Alloc.{
  Partition, allocate_cluster, take_cluster, link_cluster, find_free, look, free_chain, free_rounds,
  free_one,
}
use sd_fat.Alloc.Allocate.{Allocated, allocate_cluster-Allocated}
use sd_fat.Alloc.Free.{Released, free_chain-Released}
use sd_fat.Alloc.FreeEnds.{free_chain-ends}
use sd_fat.Base.Lists.{All}
use sd_fat.Alloc.Reuse.{freed_start_lost}
use sd_fat.Alloc.Run.{find_run, link_down, take_run, alloc_contiguous}
use sd_fat.Alloc.RunLinked.{LinkedRun, alloc_contiguous-LinkedRun}
use sd_fat.Alloc.Plain.{plain_table, volume}

abbrev state_of : {A : Type 0} → Outcome (Partition (ℕ → ℕ)) A → Partition (ℕ → ℕ)
state_of (done a p) = p
state_of (fail p) = p
state_of stuck = volume

-- The chain of 2 and 4 is extended: cluster 5 is the first free one behind cluster 4.
extended : Partition (ℕ → ℕ)
extended = state_of (allocate_cluster plain_table 4 volume)

allocate_cluster-Allocated_example : Allocated plain_table 4 5 volume extended
unfolding allocate_cluster take_cluster link_cluster find_free look extended
allocate_cluster-Allocated_example = allocate_cluster-Allocated plain_table 4 volume tt refl

freed : Partition (ℕ → ℕ)
freed = state_of (free_chain plain_table 2 volume)

free_chain-Released_example : Released plain_table (2 ∷ 4 ∷ []) volume freed
unfolding free_chain free_rounds free_one freed
free_chain-Released_example =
    free_chain-Released plain_table 2 (2 ∷ 4 ∷ []) volume freed tt
      (refl, omega arith, (omega arith, tt), (refl, omega arith)) refl

free_chain-ends_example : free_chain plain_table 2 volume ≢ stuck
free_chain-ends_example = free_chain-ends plain_table 2 volume tt

-- The search starts at cluster 4, a chain of its own, which is freed; the next one allocated is 5.
at_start : Partition (ℕ → ℕ)
at_start = record volume { alloc_search_start = 4 }

after_free : Partition (ℕ → ℕ)
after_free = state_of (free_chain plain_table 4 at_start)

freed_start_lost_example : All (λ i. after_free.table i ≡ 0) (4 ∷ []) × (4 < 5)
unfolding free_chain free_rounds free_one allocate_cluster take_cluster link_cluster find_free look
    at_start after_free
freed_start_lost_example =
    freed_start_lost plain_table 4 (4 ∷ []) at_start after_free tt (refl, omega arith)
      (omega arith, tt) (omega arith) refl refl

-- Clusters 5 and 6 are the first two free ones in a row behind cluster 3.
run_taken : Partition (ℕ → ℕ)
run_taken = state_of (alloc_contiguous plain_table 2 volume)

alloc_contiguous-LinkedRun_example : LinkedRun plain_table 2 5 volume run_taken
unfolding alloc_contiguous find_run take_run link_down run_taken
alloc_contiguous-LinkedRun_example = alloc_contiguous-LinkedRun plain_table 2 volume tt refl
