-- ===== src/Alloc/Reuse.antt =====
-- A freed cluster that is the search start itself: `freeChain` lowers the start only for clusters
-- below it, and a search from the start begins one behind it.
use sd_fat.Base.{
  ℕ, zero, suc, ◌+◌, ◌-◌, ◌^◌, ◌≤◌, ◌<◌, ◌≡◌, ◌≢◌, inl, inr, sym, subst, arith, Bool, true, false,
  Outcome, done, bind, bind-done, done-injective, Bool-cases, List, ltb, ◌==◌, u32,
}
use sd_fat.Fat.{Link, eoc, next}
use sd_fat.Alloc.{
  FatTable, Partition, on_table, find_free, look, search_rounds, take_cluster, link_cluster,
  allocate_cluster, free_chain,
}
use sd_fat.Alloc.Find.{probed}
use sd_fat.Alloc.Allocate.{on_table-done}
use sd_fat.Alloc.Chain.{IsChain}
use sd_fat.Alloc.Free.{free_chain-Released, free_chain-start}
use sd_fat.Base.Lists.{All}

module _ (T : FatTable) where
  open T use {State, last_cluster, get, put, IsReady, entry, last_small}

  past-end :
      (fuel current start find : ℕ) (r : ℕ × Bool) (s s' : State)
      → ltb last_cluster (u32 (find + 1)) ≡ true
      → find_free T (suc fuel) current start find true s ≢ done r s'
  unfolding find_free
  past-end fuel current start find r s s' p e = ground arith

  look-after :
      (start f : ℕ) (on : State → Outcome State (ℕ × Bool)) (l : Link) (r : ℕ × Bool) (s s' : State)
      → start < f
      → (on s ≡ done r s' → start < r.0)
      → look T f true on l s ≡ done r s'
      → start < r.0
  unfolding look
  look-after start f on eoc r s s' lt ih e = ih e
  look-after start f on (next v) r s s' lt ih e = elim (Bool-cases (v == 0)) [
    | inl z ↦ subst (λ x. start < x.0) (done-injective (hit z)).0 lt
    | inr z ↦ ih (miss z)
  ]
    where
      hit : (v == 0) ≡ true → done (f, true) s ≡ done r s'
      hit z = ground arith

      miss : (v == 0) ≡ false → on s ≡ done r s'
      miss z = ground arith

  -- A search that may not wrap any more finds a cluster behind its start.
  find_free-after :
      (fuel current start find : ℕ) (r : ℕ × Bool) (s s' : State)
      → start ≤ find
      → find < 2 ^ 32 - 1
      → find_free T fuel current start find true s ≡ done r s'
      → start < r.0
  find_free-after zero current start find r s s' le lt e = unfold find_free in cc
  find_free-after (suc fuel) current start find r s s' le lt e =
      elim (Bool-cases (ltb last_cluster (u32 (find + 1)))) [
        | inl past ↦ absurd (past-end fuel current start find r s s' past e)
        | inr inside ↦
            let (_, q) = probed T fuel current start find true r s s' e inside in
            let (l, s1, p, x) =
              bind-done (get (u32 (find + 1)) s)
                (look T (u32 (find + 1)) true
                  (find_free T fuel current start (u32 (find + 1)) true))
                q in
            look-after start (u32 (find + 1)) (find_free T fuel current start (u32 (find + 1)) true)
              l r s1 s' (omega arith)
              (λ y.
                find_free-after fuel current start (u32 (find + 1)) r s1 s' (omega arith)
                  (ground (arith, last_small)) y)
              x
      ]

  -- The value of the tail of `allocateCluster` is the cluster that the search found.
  take_cluster-value :
      (current : ℕ) (r : ℕ × Bool) (p : Partition State) {f : ℕ} {p' : Partition State}
      → take_cluster T current r p ≡ done f p'
      → f ≡ r.0
  unfolding take_cluster link_cluster
  take_cluster-value current (find, b) p e = ground arith

  -- `allocateCluster` for a new chain returns a cluster behind the search start.
  allocate_cluster-after :
      (p : Partition State) {f : ℕ} {p' : Partition State}
      → p.alloc_search_start < 2 ^ 32 - 1
      → allocate_cluster T 0 p ≡ done f p'
      → p.alloc_search_start < f
  unfolding allocate_cluster
  allocate_cluster-after p {f} {p'} lt e =
      let start = p.alloc_search_start in
      let (r, q, a, b) =
        bind-done (on_table (find_free T (search_rounds T) 0 start start true) p) (take_cluster T 0)
          called in
      let (s, x, y) = on_table-done (find_free T (search_rounds T) 0 start start true) p a in
      subst (λ t. start < t) (sym (take_cluster-value 0 r q b))
        (find_free-after (search_rounds T) 0 start start r p.table s (omega arith) lt x)
    where
      called :
          bind
            (on_table
              (find_free T (search_rounds T) 0 p.alloc_search_start p.alloc_search_start true)
              p)
            (take_cluster T 0)
          ≡ done f p'
      called = ground arith

  -- On a table that is ready, when `freeChain` succeeds on a chain of clusters, none twice and
  -- none below the search start, which is below 2 ^ 32 - 1, each of them is free, the search
  -- start itself if it is one, but the next allocation of a new chain that succeeds returns a
  -- cluster above the search start.
  pub freed_start_lost :
      (c : ℕ) (cs : List ℕ) (p q : Partition State) {f : ℕ} {p' : Partition State}
      → IsReady p.table
      → IsChain (entry p.table) last_cluster c cs
      → All (λ i. p.alloc_search_start ≤ i) cs
      → p.alloc_search_start < 2 ^ 32 - 1
      → free_chain T c p ≡ done tt q
      → allocate_cluster T 0 q ≡ done f p'
      → All (λ i. entry q.table i ≡ 0) cs × (p.alloc_search_start < f)
  freed_start_lost c cs p q {f} m ch low small e a =
      let k = free_chain-start T c cs p q m ch low e in
      (
        (free_chain-Released T c cs p q m ch e).free,
        subst (λ t. t < f) k (allocate_cluster-after q (omega (arith, k, small)) a),
      )
