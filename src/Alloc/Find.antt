-- ===== src/Alloc/Find.antt =====
-- The search of `allocateCluster`: what it finds.
use sd_fat.Base.{
  ℕ, zero, suc, ◌+◌, ◌≤◌, ◌≡◌, ◌≢◌, inl, inr, sym, ◌∙◌, subst, arith, Bool, true, false, Outcome,
  done, bind, bind-done, done-injective, Bool-cases, ltb, ◌==◌, u32,
}
use sd_fat.Fat.{Link, eoc, next}
use sd_fat.Alloc.{FatTable, find_free, look}

module _ (T : FatTable) where
  open T use {State, last_cluster, get, put, IsReady, entry, get_ok, get_returns, last_small}

  -- A free cluster of the volume other than `current`, with the table as it was.
  pub record Found (current f : ℕ) (s s' : State) : Type 0 where
    pub low : 2 ≤ f
    pub high : f ≤ last_cluster
    pub free : entry s f ≡ 0
    pub other : f ≢ current
    pub ready : IsReady s'
    pub same : (i : ℕ) → i ≤ last_cluster → entry s' i ≡ entry s i

  later :
      {current f : ℕ} {s s1 s' : State}
      → ((i : ℕ) → i ≤ last_cluster → entry s1 i ≡ entry s i)
      → Found current f s1 s'
      → Found current f s s'
  later {current} {f} same x = record {
    low = x.low;
    high = x.high;
    free = sym (same f x.high) ∙ x.free;
    other = x.other;
    ready = x.ready;
    same = λ i le. x.same i le ∙ same i le;
  }

  -- The two ways in which a round can go on.
  module _ (fuel current start find : ℕ) (b : Bool) (r : ℕ × Bool) (s s' : State) where
    wrapped :
        find_free T (suc fuel) current start find b s ≡ done r s'
        → ltb last_cluster (u32 (find + 1)) ≡ true
        → find_free T fuel current start start true s ≡ done r s'
    unfolding find_free
    wrapped e past = ground arith

    pub probed :
        find_free T (suc fuel) current start find b s ≡ done r s'
        → ltb last_cluster (u32 (find + 1)) ≡ false
        → (u32 (find + 1) ≢ current)
          × (bind
                (get (u32 (find + 1)) s)
                (look T (u32 (find + 1)) b (find_free T fuel current start (u32 (find + 1)) b))
              ≡ done r s')
    unfolding find_free
    probed e inside = ground arith

  -- What the probe of cluster `f` leads to, from what the later rounds do.
  look-Found :
      (current f : ℕ) (b : Bool) (on : State → Outcome State (ℕ × Bool)) (l : Link) (r : ℕ × Bool)
      (s s1 s' : State)
      → ((q : State) → IsReady q → on q ≡ done r s' → Found current r.0 q s')
      → f ≢ current
      → IsReady s
      → get f s ≡ done l s1
      → look T f b on l s1 ≡ done r s'
      → Found current r.0 s s'
  unfolding look
  look-Found current f b on eoc r s s1 s' ih ne m p q =
      later (get_ok f m p).4 (ih s1 (get_ok f m p).3 q)
  look-Found current f b on (next v) r s s1 s' ih ne m p q = elim (Bool-cases (v == 0)) [
    | inl free ↦
        subst (λ x. Found current x.0 s s') (done-injective (hit free)).0
          (subst (Found current f s) (done-injective (hit free)).1 (found free))
    | inr used ↦ later (get_ok f m p).4 (ih s1 (get_ok f m p).3 (miss used))
  ]
    where
      hit : (v == 0) ≡ true → done (f, b) s1 ≡ done r s'
      hit y = ground arith

      miss : (v == 0) ≡ false → on s1 ≡ done r s'
      miss y = ground arith

      found : (v == 0) ≡ true → Found current f s s1
      found y =
          let (lo, hi, link, ready, same) = get_ok f m p in
          record {
            low = lo;
            high = hi;
            free = ground (arith, link);
            other = ne;
            ready = ready;
            same = same;
          }

  pub find_free-Found :
      (fuel current start find : ℕ) (b : Bool) (r : ℕ × Bool) (s s' : State)
      → IsReady s
      → find_free T fuel current start find b s ≡ done r s'
      → Found current r.0 s s'
  find_free-Found zero current start find b r s s' m e = unfold find_free in cc
  find_free-Found (suc fuel) current start find b r s s' m e =
      elim (Bool-cases (ltb last_cluster f)) [
        | inl past ↦
            find_free-Found fuel current start start true r s s' m
              (wrapped fuel current start find b r s s' e past)
        | inr inside ↦
            let (ne, q) = probed fuel current start find b r s s' e inside in
            let (l, s1, p, x) = bind-done (get f s) (look T f b on) q in
            look-Found current f b on l r s s1 s'
              (λ q y z. find_free-Found fuel current start f b r q s' y z) ne m p x
      ]
    where
      f : ℕ
      f = u32 (find + 1)

      on : State → Outcome State (ℕ × Bool)
      on = find_free T fuel current start (u32 (find + 1)) b
