-- ===== src/File/SeekEnds.antt =====
-- `seekSet` returns, and leaves the file as it was when it fails.
use sd_fat.Base.{
  ℕ, zero, suc, ◌-◌, ◌*◌, ◌≡◌, ◌≢◌, refl, subst, Bool, true, false, not, ◌&&◌, ◌==◌, ltb, leb,
  if◌then◌else◌, Outcome, Method, done, fail, stuck, bind, bind-ne-stuck, ◌>>>◌,
}
use sd_fat.Fat.{Geometry, Link, eoc, next}
use sd_fat.Alloc.{FatTable}
use sd_fat.File.{
  FatFile, Handle, on_fat, bytes_per_cluster_shift, walk, seek_done, seek_chain, seek_set, dir_size,
  is_open, is_file, is_root_fixed,
}

module _ (T : FatTable) (g : Geometry) where
  open T use {State, get, get_returns}

  abbrev after : ℕ → Link → Method State ℕ
  after n l t = elim l [ eoc ↦ fail t | next d ↦ walk T g n d t ]

  after-ne-stuck :
      (n : ℕ) (t : State) → ((d : ℕ) → walk T g n d t ≢ stuck) → (l : Link) → after n l t ≢ stuck
  after-ne-stuck n t w eoc = λ e. absurd cc
  after-ne-stuck n t w (next d) = w d

  walk-ne-stuck : (n c : ℕ) (s : State) → walk T g n c s ≢ stuck
  unfolding walk
  walk-ne-stuck zero c s = λ e. absurd cc
  walk-ne-stuck (suc n) c s =
      bind-ne-stuck (get c s) (after n) (get_returns c s)
        (λ l t _. after-ne-stuck n t (λ d. walk-ne-stuck n d t) l)

  -- The file after a call that fails.
  abbrev Untouched : FatFile → Outcome (Handle State) Unit → Type 0
  Untouched f o = elim o [ done a q ↦ Unit | fail q ↦ q.file ≡ f | stuck ↦ ⊥ ]

  chain-Untouched :
      (n c pos : ℕ) (h : Handle State)
      → Untouched h.file (bind (on_fat (walk T g n c) h) (seek_done T g pos))
  chain-Untouched n c pos h = go (walk T g n c h.vol.table) (walk-ne-stuck n c h.vol.table)
    where
      go :
          (o : Outcome State ℕ)
          → o ≢ stuck
          → Untouched h.file (bind (on_fat (λ _. o) h) (seek_done T g pos))
      go (done a s) ne = tt
      go (fail s) ne = refl
      go stuck ne = ne refl

  seek_chain-Untouched :
      (pos new : ℕ) (h : Handle State) → Untouched h.file (seek_chain T g pos new h)
  unfolding seek_chain
  seek_chain-Untouched pos new h = chain-Untouched _ _ pos h

  if-Untouched :
      (f : FatFile) (x y : Outcome (Handle State) Unit) (b : Bool)
      → Untouched f x
      → Untouched f y
      → Untouched f (if b then x else y)
  if-Untouched f x y true u v = u
  if-Untouched f x y false u v = v

  seek_set-Untouched : (pos : ℕ) (h : Handle State) → Untouched h.file (seek_set T g pos h)
  unfolding seek_set
  seek_set-Untouched pos h = if-Untouched f _ _ (not (is_open f.kind)) refl (
      if-Untouched f _ _ (pos == f.cur_position) tt (
        if-Untouched f _ _ (pos == 0) tt (
          if-Untouched f _ _ (is_file f.kind && ltb f.file_size pos) refl (
            if-Untouched f _ _ (is_root_fixed f.kind)
              (if-Untouched f _ _ (leb pos (dir_size * g.root_dir_entry_count)) tt refl)
              (if-Untouched f _ _ f.contiguous tt
                (seek_chain-Untouched pos ((pos - 1) >>> bytes_per_cluster_shift g) h))))))
    where
      f : FatFile
      f = h.file

  -- `seekSet` returns on every table, and leaves every member of the file as it was when it
  -- fails.
  pub seek_set_failed :
      (pos : ℕ) (h : Handle State)
      → (seek_set T g pos h ≢ stuck)
        × ((q : Handle State) → seek_set T g pos h ≡ fail q → q.file ≡ h.file)
  seek_set_failed pos h = (
    λ e. subst (Untouched h.file) e (seek_set-Untouched pos h),
    λ q e. subst (Untouched h.file) e (seek_set-Untouched pos h),
  )
