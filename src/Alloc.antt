-- ===== src/Alloc.antt =====
-- src/FatLib/FatPartition.cpp: allocation of clusters and freeing of chains, above the table of
-- the volume. The table is an interface, which `Alloc.Mounted` fills with `fatGet` and `fatPut`.
-- The members that these functions change are the record Partition, with
-- MAINTAIN_FREE_CLUSTER_COUNT = 1; a negative `m_freeClusterCount` is `none`.
pub mod Find
pub mod Ends
pub mod Allocate
pub mod Chain
pub mod Cut
pub mod Free
pub mod FreeEnds
pub mod Reuse
pub mod Mounted
pub mod Run
pub mod RunFound
pub mod RunLinked
pub mod RunEnds
pub mod Plain
mod Tests
use sd_fat.Base.{
  ℕ, zero, suc, ◌+◌, ◌-◌, ◌*◌, ◌%◌, ◌^◌, ◌≤◌, ◌<◌, ◌≡◌, ◌≢◌, Bool, true, false, Option, none, some,
  Outcome, Method, ◌>>=◌, ◌>>◌, pure, this, modify, done, fail, stuck, bind, ltb, leb, ◌==◌,
  if◌then◌else◌, u32,
}
use sd_fat.Fat.{Link, eoc, next, eoc_mark}

-- `get` and `put` that return promise what a table of numbers does; `entry` is what is stored.
pub record FatTable : Type 1 where
  pub State : Type 0
  pub last_cluster : ℕ
  pub limit : ℕ
  pub get : ℕ → Method State Link
  pub put : ℕ → ℕ → Method State (Unit {0})
  pub IsReady : State → Type 0
  pub entry : State → ℕ → ℕ
  pub last_fits : last_cluster < limit
  pub last_small : last_cluster < 2 ^ 28 - 1
  pub mark_fits : last_cluster < eoc_mark % limit
  pub get_ok :
      (n : ℕ) {l : Link} {s s' : State}
      → IsReady s
      → get n s ≡ done l s'
      → (2 ≤ n)
        × (n ≤ last_cluster)
        × (l ≡ (if ltb last_cluster (entry s n) then eoc else next (entry s n)))
        × IsReady s'
        × ((i : ℕ) → i ≤ last_cluster → entry s' i ≡ entry s i)
  pub put_ok :
      (n v : ℕ) {s s' : State}
      → IsReady s
      → put n v s ≡ done tt s'
      → (2 ≤ n)
        × (n ≤ last_cluster)
        × (entry s' n ≡ v % limit)
        × IsReady s'
        × ((i : ℕ) → i ≢ n → i ≤ last_cluster → entry s' i ≡ entry s i)
  pub get_returns : (n : ℕ) (s : State) → get n s ≢ stuck
  pub put_returns : (n v : ℕ) (s : State) → put n v s ≢ stuck

pub record Partition (S : Type 0) : Type 0 where
  pub alloc_search_start : ℕ
  pub free_cluster_count : Option ℕ
  pub table : S

-- A call that works on the table alone.
abbrev pub on_table : {S A : Type 0} → Method S A → Method (Partition S) A
on_table m p = elim (m p.table) [
  | done a s ↦ done a (record p { table = s })
  | fail s ↦ fail (record p { table = s })
  | stuck ↦ stuck
]

-- `updateFreeClusterCount` of a positive and of a negative change.
abbrev pub count_up : {S : Type 0} → ℕ → Partition S → Partition S
count_up n p = record p {
  free_cluster_count = elim p.free_cluster_count [ none ↦ none | some k ↦ some (k + n) ];
}

abbrev pub count_down : {S : Type 0} → ℕ → Partition S → Partition S
count_down n p = record p {
  free_cluster_count = elim p.free_cluster_count [
    | none ↦ none
    | some k ↦ if ltb k n then none else some (k - n)
  ];
}

module _ (T : FatTable) where
  open T use {State, last_cluster, get, put}

  -- The rest of a round of the search, from what `fatGet` says of cluster `f`: `on` is the next
  -- round.
  unfoldable pub look : ℕ → Bool → Method State (ℕ × Bool) → Link → Method State (ℕ × Bool)
  look f set_start on eoc s = on s
  look f set_start on (next v) s = elim (v == 0) [ true ↦ done (f, set_start) s | false ↦ on s ]

  -- The search of `allocateCluster`, with rounds for fuel: `find` and `setStart` at the head of the
  -- loop, and `m_allocSearchStart`. The value is the cluster found and `setStart`.
  unfoldable pub find_free : ℕ → ℕ → ℕ → ℕ → Bool → Method State (ℕ × Bool)
  unfolding look
  find_free zero current start find set_start s = stuck
  find_free (suc fuel) current start find set_start s =
      let f = u32 (find + 1) in
      let again = find_free fuel current start start true s in
      let step = bind (get f s) (look f set_start (find_free fuel current start f set_start)) in
      if ltb last_cluster f
      then (if set_start then fail s else again)
      else if f == current
      then fail s
      else step

  abbrev pub search_rounds : ℕ
  search_rounds = 2 * last_cluster + 4

  abbrev pub fat_put_eoc : ℕ → Method State (Unit {0})
  fat_put_eoc n = put n eoc_mark

  -- `if (current)`: the chain that the new cluster extends.
  unfoldable pub link_cluster : ℕ → ℕ → Method (Partition State) (Unit {0})
  link_cluster current find p = if current == 0 then done tt p else on_table (put current find) p

  -- The tail of `allocateCluster`, from the cluster found.
  unfoldable pub take_cluster : ℕ → ℕ × Bool → Method (Partition State) ℕ
  take_cluster current (find, set_start) = do
    modify (λ p. if set_start then record p { alloc_search_start = find } else p)
    on_table (fat_put_eoc find)
    link_cluster current find
    modify (count_down 1)
    pure find

  unfoldable pub allocate_cluster : ℕ → Method (Partition State) ℕ
  allocate_cluster current p =
      let start = p.alloc_search_start in
      bind
        (if ltb start current
          then on_table (find_free search_rounds current start current false) p
          else on_table (find_free search_rounds current start start true) p)
        (take_cluster current)

  -- One round of `freeChain`: the value is the link that the cluster had.
  unfoldable pub free_one : ℕ → Method (Partition State) Link
  free_one cluster = do
    l ← on_table (get cluster)
    on_table (put cluster 0)
    modify (count_up 1)
    modify (λ p.
        if ltb cluster p.alloc_search_start
        then record p { alloc_search_start = cluster - 1 }
        else p)
    pure l

  -- `do … while` of `freeChain`, with rounds for fuel.
  unfoldable pub free_rounds : ℕ → ℕ → Method (Partition State) (Unit {0})
  free_rounds zero cluster p = stuck
  free_rounds (suc fuel) cluster p =
      bind (free_one cluster p) (λ l q. elim l [ eoc ↦ done tt q | next n ↦ free_rounds fuel n q ])

  unfoldable pub free_chain : ℕ → Method (Partition State) (Unit {0})
  unfolding free_rounds
  free_chain cluster p = free_rounds (last_cluster + 2) cluster p
