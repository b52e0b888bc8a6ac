-- ===== src/File/Enter.antt =====
-- The start of a round of `readPrivate`: the current cluster becomes the one of the position.
use sd_fat.Base.{
  ℕ, ◌+◌, ◌/◌, ◌%◌, ◌<◌, ◌≡◌, inl, inr, refl, sym, ◌∙◌, ap, subst, arith, Bool, true, false, ◌&&◌,
  List, ◌==◌, if◌then◌else◌, Outcome, done, fail, bind, bind-done, done-injective, Bool-cases, u32,
}
use native.Mathlib.Nat.{div-eq_of_lt}
use sd_fat.Base.Lists.{get_or}
use sd_fat.Base.Bits.{and_low}
use sd_fat.Device.{BlockDevice}
use sd_fat.Cache.{FsCache}
use sd_fat.Fat.{Geometry, Link, eoc, next, fat_get}
use sd_fat.Fat.Layout.{IsGeometry, entry}
use sd_fat.Fat.Stored.{table}
use sd_fat.File.{FatFile, Handle, on_fat, set_file, is_dir, sector_of_cluster}
use sd_fat.File.Sectors.{Kept}
use sd_fat.File.Place.{IsLayout, IsPlaced, cluster_at, cluster_pos, sector_of_cluster-mod}
use sd_fat.File.Cluster.{IsChain-first}
use sd_fat.File.Read.{next_cluster, enter_cluster, position_offset}
use sd_fat.File.Calls.{on_fat-done}
use sd_fat.File.Follow.{IsFile, Starts, followed, row_step, same_cluster}

module _ (B : BlockDevice) (g : Geometry) (hg : IsGeometry g) (d : IsLayout g) (cs : List ℕ)
    (c0 : FsCache (B.Dev)) where
  open B use {Dev}

  -- The current cluster is `k` now, nothing else of the file has changed, and a client sees the
  -- volume as it was at `c0`.
  abbrev pub Entered : ℕ → FatFile → Handle (FsCache Dev) → Type 0
  Entered k f q = (q.file ≡ record f { cur_cluster = k }) × Kept B g hg c0 q.vol.table

  finish :
      (k : ℕ) (f : FatFile) (r q : Handle (FsCache Dev)) (more : Bool)
      → ◌≡◌ {A = Outcome (Handle (FsCache Dev)) Bool} (done true r) (done more q)
      → Entered k f r
      → (more ≡ true) × Entered k f q
  finish k f r q more e en = (sym (done-injective e).0, subst (Entered k f) (done-injective e).1 en)

  abbrev with_cluster : ℕ → Handle (FsCache Dev) → Handle (FsCache Dev)
  with_cluster k h = set_file (λ f. record f { cur_cluster = k }) h

  -- The cluster of the position, at the start of a cluster.
  next_cluster-Entered :
      (h q : Handle (FsCache Dev)) (more : Bool)
      → IsFile B g hg d cs c0 h.file
      → IsPlaced g cs h.file
      → h.file.cur_position < h.file.file_size
      → Starts B g hg d cs c0 h.file
      → Kept B g hg c0 h.vol.table
      → next_cluster B g h ≡ done more q
      → (more ≡ true) × Entered (cluster_at g cs (h.file.cur_position / 512)) h.file q
  next_cluster-Entered h q more i p lt st k e = elim (Bool-cases (f.cur_position == 0)) [
    | inl z ↦
        let x =
          IsChain-first (λ t. entry g (table B g c0) t) g.last_cluster f.first_cluster cs
            i.1.chain in
        let n : 0 ≡ f.cur_position / 512 / g.sectors_per_cluster =
          sym (div-eq_of_lt (cluster_pos g d))
          ∙ ap (λ t. t / g.sectors_per_cluster) {x = 0} {y = f.cur_position / 512} (ground arith) in
        finish goal f (with_cluster f.first_cluster h) q more (at_zero z)
          (ap (λ t. record f { cur_cluster = t }) (sym x ∙ ap (λ t. get_or cs t 0) n), k)
    | inr pos ↦ elim (Bool-cases f.contiguous) [
      | inl row ↦ finish goal f (with_cluster (u32 (f.cur_cluster + 1)) h) q more (in_row pos row) (
        ap (λ t. record f { cur_cluster = t })
            (row_step B g hg d cs c0 f i p lt st (ground arith) row),
        k,
      )
      | inr chain ↦
          let (l, r, a, b) =
            bind-done (on_fat (fat_get B g f.cur_cluster) h) after (by_chain pos chain) in
          let (c', z, y) = on_fat-done (fat_get B g f.cur_cluster) h a in
          let (lk, kept) =
            followed B g hg d cs c0 f l h.vol.table c' i p lt (ground arith) st k z in
          finish goal f (with_cluster goal r) q more (subst (λ t. after t r ≡ done more q) lk b)
            (rw (sym y) (refl, kept))
    ]
  ]
    where
      f : FatFile
      f = h.file

      goal : ℕ
      goal = cluster_at g cs (f.cur_position / 512)

      after : Link → Handle (FsCache Dev) → Outcome (Handle (FsCache Dev)) Bool
      after l r = elim l [
        | eoc ↦ if is_dir f.kind then done false r else fail r
        | next k ↦ done true (with_cluster k r)
      ]

      at_zero :
          (f.cur_position == 0) ≡ true
          → ◌≡◌ {A = Outcome (Handle (FsCache Dev)) Bool}
              (done true (with_cluster f.first_cluster h))
              (done more q)
      at_zero z = unfold next_cluster in ground (arith, i.0)

      in_row :
          (f.cur_position == 0) ≡ false
          → f.contiguous ≡ true
          → ◌≡◌ {A = Outcome (Handle (FsCache Dev)) Bool}
              (done true (with_cluster (u32 (f.cur_cluster + 1)) h))
              (done more q)
      in_row z r = unfold next_cluster in ground (arith, i.0)

      by_chain :
          (f.cur_position == 0) ≡ false
          → f.contiguous ≡ false
          → bind (on_fat (fat_get B g f.cur_cluster) h) after ≡ done more q
      by_chain z r = unfold next_cluster in ground (arith, i.0)

  -- `enter_cluster` that succeeds makes the cluster of the position the current one.
  pub enter_cluster-Entered :
      (h q : Handle (FsCache Dev)) (more : Bool)
      → IsFile B g hg d cs c0 h.file
      → IsPlaced g cs h.file
      → h.file.cur_position < h.file.file_size
      → Kept B g hg c0 h.vol.table
      → enter_cluster B g h ≡ done more q
      → (more ≡ true) × Entered (cluster_at g cs (h.file.cur_position / 512)) h.file q
  enter_cluster-Entered h q more i p lt k e = elim (Bool-cases (entering f)) [
    | inl y ↦ next_cluster-Entered h q more i p lt (ground (arith, a, b)) k (go y)
    | inr n ↦ finish (cluster_at g cs (f.cur_position / 512)) f h q more (stay n) (
      ap (λ t. record f { cur_cluster = t })
          (same_cluster B g hg d cs c0 f p (λ st. ground (arith, a, b))),
      k,
    )
  ]
    where
      f : FatFile
      f = h.file

      entering : FatFile → Bool
      entering x = position_offset B g x == 0 && sector_of_cluster g x.cur_position == 0

      a : position_offset B g f ≡ f.cur_position % 512
      a = and_low 9 f.cur_position

      b : sector_of_cluster g f.cur_position ≡ f.cur_position / 512 % g.sectors_per_cluster
      b = sector_of_cluster-mod g d f.cur_position

      go : entering f ≡ true → next_cluster B g h ≡ done more q
      go y = unfold enter_cluster in ground (arith, i.0)

      stay :
          entering f ≡ false
          → ◌≡◌ {A = Outcome (Handle (FsCache Dev)) Bool} (done true h) (done more q)
      stay y = unfold enter_cluster in ground (arith, i.0)
