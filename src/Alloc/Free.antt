-- ===== src/Alloc/Free.antt =====
-- `freeChain`: it frees the clusters of a chain, all of them and no other.
use sd_fat.Base.{
  ℕ, zero, suc, ◌+◌, ◌-◌, ◌≤◌, ◌<◌, ◌≡◌, ◌≢◌, sym, ◌∙◌, ap, subst, arith, List, [], ◌∷◌, done, bind,
  bind-done, done-injective, ltb, if◌then◌else◌,
}
use native.Mathlib.Nat.{mod-eq_of_lt}
use sd_fat.Base.Lists.{All, length}
use sd_fat.Fat.{Link, eoc, next}
use sd_fat.Alloc.{FatTable, Partition, on_table, count_up, free_one, free_rounds, free_chain}
use sd_fat.Alloc.Allocate.{on_table-done}
use sd_fat.Alloc.Chain.{raised, IsChain, IsAbsent, IsChain-same, IsChain-bounded, All-zip}

module _ (T : FatTable) where
  open T use {State, last_cluster, limit, get, put, IsReady, entry, get_ok, put_ok, last_fits}

  abbrev pub lower : ℕ → Partition State → Partition State
  lower c p = if ltb c p.alloc_search_start then record p { alloc_search_start = c - 1 } else p

  -- One round: cluster `c` is free now, and the link that it had is known.
  pub record Freed (c : ℕ) (l : Link) (p q : Partition State) : Type 0 where
    pub low : 2 ≤ c
    pub high : c ≤ last_cluster
    pub link : l ≡ (if ltb last_cluster (entry p.table c) then eoc else next (entry p.table c))
    pub ready : IsReady q.table
    pub free : entry q.table c ≡ 0
    pub others : (i : ℕ) → i ≢ c → i ≤ last_cluster → entry q.table i ≡ entry p.table i
    pub counted : q.free_cluster_count ≡ raised 1 p.free_cluster_count
    pub start : q.alloc_search_start ≡ (lower c p).alloc_search_start

  lower-table : (c : ℕ) (p : Partition State) → (lower c p).table ≡ p.table
  lower-table c p = ground arith

  pub free_one-Freed :
      (c : ℕ) (p : Partition State) {l : Link} {q : Partition State}
      → IsReady p.table
      → free_one T c p ≡ done l q
      → Freed c l p q
  unfolding free_one
  free_one-Freed c p {l} {q} m e = got (
      bind-done (on_table (get c) p)
        (λ l x. bind (on_table (put c 0) x) (λ _ y. done l (lower c (count_up 1 y)))) e)
    where
      stored :
          (k : Link) (s s2 : State)
          → get c p.table ≡ done k s
          → put c 0 s ≡ done tt s2
          → done k (lower c (count_up 1 (record p { table = s2 }))) ≡ done l q
          → Freed c l p q
      stored k s s2 a b z =
          let (lo, hi, link, ready, same) = get_ok c m a in
          let (_, _, here, ready', rest) = put_ok c 0 ready b in
          subst (λ x. Freed c x p q) (done-injective z).0
            (subst (Freed c k p) (done-injective z).1 (record {
              low = lo;
              high = hi;
              link = link;
              ready = rw (lower-table c (count_up 1 (record p { table = s2 }))) ready';
              free =
                  rw (lower-table c (count_up 1 (record p { table = s2 })))
                    (here ∙ mod-eq_of_lt (omega (arith, last_fits)));
              others = λ i ne le.
                  rw (lower-table c (count_up 1 (record p { table = s2 })))
                    (rest i ne le ∙ same i le);
              counted = ground arith;
              start = ground arith;
            }))

      got :
          (k : Link) × (x : Partition State) × (on_table (get c) p ≡ done k x)
            × (bind (on_table (put c 0) x) (λ _ y. done k (lower c (count_up 1 y))) ≡ done l q)
          → Freed c l p q
      got (k, x, a, z) =
          let (s, a', w) = on_table-done (get c) p a in
          let (_, y, b, z') =
            bind-done (on_table (put c 0) (record p { table = s }))
              (λ _ y. done k (lower c (count_up 1 y))) (rw (sym w) at z) in
          let (s2, b', w') = on_table-done (put c 0) (record p { table = s }) b in
          stored k s s2 a' b' (rw (sym w') at z')

  -- The clusters `cs` are free, no other entry has changed, and they are counted.
  pub record Released (cs : List ℕ) (p q : Partition State) : Type 0 where
    pub ready : IsReady q.table
    pub free : All (λ i. entry q.table i ≡ 0) cs
    pub others : (i : ℕ) → i ≤ last_cluster → IsAbsent i cs → entry q.table i ≡ entry p.table i
    pub counted : q.free_cluster_count ≡ raised (length cs) p.free_cluster_count

  -- The rounds after the one that freed `c`, which had a successor.
  extend :
      {c y : ℕ} {l : Link} {r : List ℕ} {p q p' : Partition State} (x : ℕ)
      → x ≡ c
      → All (λ i. i ≢ c) (y ∷ r)
      → Freed c l p q
      → Released (y ∷ r) q p'
      → Released (x ∷ y ∷ r) p p'
  extend {c} {y} {l} {r} {p} {q} {p'} x e ab f rel = record {
    ready = rel.ready;
    free = (ap (entry p'.table) e ∙ rel.others c f.high ab ∙ f.free, rel.free);
    others = λ i le a. rel.others i le a.1 ∙ f.others i (λ z. a.0 (e ∙ sym z)) le;
    counted = ground (arith, rel.counted, f.counted);
  }

  abbrev AfterRound : ℕ → ℕ → Partition State → Partition State → Type 0
  AfterRound fuel c p p' =
      (l : Link) × (q : Partition State) × (free_one T c p ≡ done l q)
      × ((elim l [ eoc ↦ done tt q | next n ↦ free_rounds T fuel n q ]) ≡ done tt p')

  after_round :
      (fuel c : ℕ) (p p' : Partition State)
      → free_rounds T (suc fuel) c p ≡ done tt p'
      → AfterRound fuel c p p'
  unfolding free_rounds
  after_round fuel c p p' e =
      bind-done (free_one T c p)
        (λ l q. elim l [ eoc ↦ done tt q | next n ↦ free_rounds T fuel n q ]) e

  -- A round that goes on, and the last one.
  round_on :
      (fuel c : ℕ) (p p' : Partition State)
      → IsReady p.table
      → entry p.table c ≤ last_cluster
      → AfterRound fuel c p p'
      → (l : Link) × (q : Partition State) × Freed c l p q
        × (free_rounds T fuel (entry p.table c) q ≡ done tt p')
  round_on fuel c p p' m le (eoc, q, a, z) =
      let f = free_one-Freed c p m a in absurd (ground (arith, f.link))
  round_on fuel c p p' m le (next n, q, a, z) =
      let f = free_one-Freed c p m a in
      let k : entry p.table c ≡ n = ground (arith, f.link) in
      (next n, q, f, subst (λ t. free_rounds T fuel t q ≡ done tt p') (sym k) z)

  round_last :
      (fuel c : ℕ) (p p' : Partition State)
      → IsReady p.table
      → last_cluster < entry p.table c
      → AfterRound fuel c p p'
      → (l : Link) × Freed c l p p'
  round_last fuel c p p' m le (eoc, q, a, z) =
      (eoc, subst (Freed c eoc p) (done-injective z).1 (free_one-Freed c p m a))
  round_last fuel c p p' m le (next n, q, a, z) =
      let f = free_one-Freed c p m a in absurd (ground (arith, f.link))

  single :
      {c : ℕ} {l : Link} {p p' : Partition State} (x : ℕ)
      → x ≡ c
      → Freed c l p p'
      → Released (x ∷ []) p p'
  single {c} {l} {p} {p'} x e f = record {
    ready = f.ready;
    free = (ap (entry p'.table) e ∙ f.free, tt);
    others = λ i le a. f.others i (λ z. a.0 (e ∙ sym z)) le;
    counted = f.counted;
  }

  -- What is left of the chain behind the cluster of a round.
  rest_of :
      {c : ℕ} (x y : ℕ) (r : List ℕ) {l : Link} {p q : Partition State}
      → Freed c l p q
      → IsChain (entry p.table) last_cluster c (x ∷ y ∷ r)
      → IsChain (entry q.table) last_cluster (entry p.table c) (y ∷ r)
  rest_of {c} x y r {l} {p} {q} f ch =
      IsChain-same (entry p.table) (entry q.table) last_cluster (entry p.table c) (y ∷ r)
        (All-zip (y ∷ r) (λ i ne le. f.others i ne le) ch.2
          (IsChain-bounded (entry p.table) last_cluster (entry p.table c) (y ∷ r) ch.1 ch.3))
        ch.3

  free_rounds-Released :
      (fuel c : ℕ) (cs : List ℕ) (p p' : Partition State)
      → IsReady p.table
      → IsChain (entry p.table) last_cluster c cs
      → free_rounds T fuel c p ≡ done tt p'
      → Released cs p p'
  free_rounds-Released zero c cs p p' m ch e = unfold free_rounds in cc
  free_rounds-Released (suc fuel) c [] p p' m ch e = absurd ch
  free_rounds-Released (suc fuel) c (x ∷ []) p p' m ch e =
      single x ch.0 (round_last fuel c p p' m ch.1 (after_round fuel c p p' e)).1
  free_rounds-Released (suc fuel) c (x ∷ y ∷ r) p p' m ch e =
      let (l, q, f, z) = round_on fuel c p p' m ch.1 (after_round fuel c p p' e) in
      extend x ch.0 ch.2 f
        (free_rounds-Released fuel (entry p.table c) (y ∷ r) q p' f.ready (rest_of x y r f ch) z)

  -- A search start that is below no cluster of the chain stays.
  free_rounds-start :
      (fuel c : ℕ) (cs : List ℕ) (p p' : Partition State)
      → IsReady p.table
      → IsChain (entry p.table) last_cluster c cs
      → All (λ i. p.alloc_search_start ≤ i) cs
      → free_rounds T fuel c p ≡ done tt p'
      → p'.alloc_search_start ≡ p.alloc_search_start
  free_rounds-start zero c cs p p' m ch low e = unfold free_rounds in cc
  free_rounds-start (suc fuel) c [] p p' m ch low e = absurd ch
  free_rounds-start (suc fuel) c (x ∷ []) p p' m ch low e =
      let f = (round_last fuel c p p' m ch.1 (after_round fuel c p p' e)).1 in
      f.start ∙ ground (arith, ch.0, low.0)
  free_rounds-start (suc fuel) c (x ∷ y ∷ r) p p' m ch low e =
      let (l, q, f, z) = round_on fuel c p p' m ch.1 (after_round fuel c p p' e) in
      let same : q.alloc_search_start ≡ p.alloc_search_start =
        f.start ∙ ground (arith, ch.0, low.0) in
      free_rounds-start fuel (entry p.table c) (y ∷ r) q p' f.ready (rest_of x y r f ch)
        (subst (λ t. All (λ i. t ≤ i) (y ∷ r)) (sym same) low.1) z
      ∙ same

  pub free_chain-start :
      (c : ℕ) (cs : List ℕ) (p p' : Partition State)
      → IsReady p.table
      → IsChain (entry p.table) last_cluster c cs
      → All (λ i. p.alloc_search_start ≤ i) cs
      → free_chain T c p ≡ done tt p'
      → p'.alloc_search_start ≡ p.alloc_search_start
  free_chain-start c cs p p' m ch low e =
      free_rounds-start (last_cluster + 2) c cs p p' m ch low (unfold free_chain in e)

  -- On a table that is ready, `freeChain` that succeeds on a chain of clusters, none twice,
  -- leaves each of them free, no other entry changed, and the free count larger by the length of
  -- the chain (an unknown one stays unknown).
  pub free_chain-Released :
      (c : ℕ) (cs : List ℕ) (p p' : Partition State)
      → IsReady p.table
      → IsChain (entry p.table) last_cluster c cs
      → free_chain T c p ≡ done tt p'
      → Released cs p p'
  free_chain-Released c cs p p' m ch e =
      free_rounds-Released (last_cluster + 2) c cs p p' m ch (unfold free_chain in e)
