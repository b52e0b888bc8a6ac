-- ===== src/Alloc/RunFound.antt =====
-- The search of `allocContiguous`: what it finds.
use sd_fat.Base.{
  ℕ, zero, suc, ◌+◌, ◌≤◌, ◌<◌, ◌≡◌, inl, inr, sym, ◌∙◌, subst, arith, true, false, not, Outcome,
  Method, done, bind, bind-done, done-injective, Bool-cases, ltb, ◌==◌, if◌then◌else◌, u32, sub32,
  ℕ_discrete,
}
use sd_fat.Fat.{Link, eoc, next}
use sd_fat.Alloc.{FatTable}
use sd_fat.Alloc.Run.{Search, is_free, find_run}

module _ (T : FatTable) where
  open T use {State, last_cluster, get, IsReady, entry, get_ok, last_small}

  -- The clusters from `b` up to, and without, `f` are free clusters of the volume in `s0`.
  abbrev pub FreeFrom : State → ℕ → ℕ → Type 0
  FreeFrom s0 b f = (i : ℕ) → b ≤ i → i < f → (2 ≤ i) × (i ≤ last_cluster) × (entry s0 i ≡ 0)

  -- The table is ready and holds the entries of `s0`.
  abbrev pub SameTable : State → State → Type 0
  SameTable s0 s = IsReady s × ((i : ℕ) → i ≤ last_cluster → entry s i ≡ entry s0 i)

  -- A run of `count` free clusters of the volume, with the table as it was.
  pub record RunOf (s0 : State) (count : ℕ) (r : Search) (s : State) : Type 0 where
    pub size : r.end_cluster + 1 ≡ r.bgn_cluster + count
    pub order : r.bgn_cluster ≤ r.end_cluster
    pub free : FreeFrom s0 r.bgn_cluster (suc r.end_cluster)
    pub table : SameTable s0 s

  abbrev pub used : Search → Search
  used r = record {
    bgn_cluster = u32 (r.end_cluster + 1);
    end_cluster = u32 (r.end_cluster + 1);
    set_start = if r.bgn_cluster == r.end_cluster then r.set_start else false;
  }

  abbrev pub on : Search → Search
  on r = record r { end_cluster = u32 (r.end_cluster + 1) }

  -- The rest of a round, behind `fatGet`.
  abbrev pub after : ℕ → ℕ → Search → Link → Method State Search
  after fuel count r l t =
      if not (is_free T l)
      then find_run T fuel count (used r) t
      else if u32 (sub32 r.end_cluster r.bgn_cluster + 1) == count
      then done r t
      else find_run T fuel count (on r) t

  after-used :
      (fuel count : ℕ) (r : Search) (l : Link) (t : State) {o : Outcome State Search}
      → after fuel count r l t ≡ o
      → is_free T l ≡ false
      → find_run T fuel count (used r) t ≡ o
  after-used fuel count r l t e u = ground arith

  after-done :
      (fuel count : ℕ) (r : Search) (l : Link) (t : State) {o : Outcome State Search}
      → after fuel count r l t ≡ o
      → is_free T l ≡ true
      → (u32 (sub32 r.end_cluster r.bgn_cluster + 1) == count) ≡ true
      → done r t ≡ o
  after-done fuel count r l t e u c = ground arith

  after-on :
      (fuel count : ℕ) (r : Search) (l : Link) (t : State) {o : Outcome State Search}
      → after fuel count r l t ≡ o
      → is_free T l ≡ true
      → (u32 (sub32 r.end_cluster r.bgn_cluster + 1) == count) ≡ false
      → find_run T fuel count (on r) t ≡ o
  after-on fuel count r l t e u c = ground arith

  pub find_run-RunOf :
      (s0 : State) (fuel count : ℕ) (r : Search) (s : State) {r' : Search} {s' : State}
      → r.bgn_cluster ≤ r.end_cluster
      → FreeFrom s0 r.bgn_cluster r.end_cluster
      → SameTable s0 s
      → find_run T fuel count r s ≡ done r' s'
      → RunOf s0 count r' s'
  unfolding find_run
  find_run-RunOf s0 zero count r s {r'} {s'} o h m e = absurd cc
  find_run-RunOf s0 (suc fuel) count r s {r'} {s'} o h m e =
      let (l, t, x, y) = bind-done (get f s) (after fuel count r) probed in
      let (lo, hi, link, ready, same) = get_ok f m.0 x in
      let m' : SameTable s0 t = (ready, λ i le. same i le ∙ m.1 i le) in
      let step : u32 (f + 1) ≡ f + 1 = omega (arith, last_small) in
      elim (Bool-cases (is_free T l)) [
        | inr u ↦
            find_run-RunOf s0 fuel count (used r) t (omega arith) (λ i a b. absurd (omega arith)) m'
              (after-used fuel count r l t y u)
        | inl u ↦
            let zero_at : entry s0 f ≡ 0 = sym (m.1 f hi) ∙ unlinked l u link in
            let more : FreeFrom s0 r.bgn_cluster (suc f) = λ i a b. elim (ℕ_discrete i f) [
              | yes q ↦ ground (arith, lo, hi, zero_at)
              | no q ↦ h i a (omega arith)
            ] in
            elim (Bool-cases (u32 (sub32 f r.bgn_cluster + 1) == count)) [
              | inl c ↦
                  let (p, q) = done-injective (after-done fuel count r l t y u c) in
                  subst (λ z. RunOf s0 count z s') p
                    (subst (RunOf s0 count r) q (record {
                      size = ground (arith, last_small);
                      order = o;
                      free = more;
                      table = m';
                    }))
              | inr c ↦
                  find_run-RunOf s0 fuel count (on r) t (omega arith)
                    (λ i a b. more i a (omega arith)) m' (after-on fuel count r l t y u c)
            ]
      ]
    where
      f : ℕ
      f = r.end_cluster

      probed : bind (get f s) (after fuel count r) ≡ done r' s'
      probed = ground arith

      unlinked :
          (l : Link)
          → is_free T l ≡ true
          → l ≡ (if ltb last_cluster (entry s f) then eoc else next (entry s f))
          → entry s f ≡ 0
      unlinked eoc u k = absurd cc
      unlinked (next v) u k = ground arith
