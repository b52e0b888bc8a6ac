-- ===== src/File/DirCluster.antt =====
-- `addDirCluster` on a volume with clusters of 64 KB.
use sd_fat.Base.{
  ℕ, zero, suc, ◌+◌, ◌*◌, ◌%◌, ◌<◌, ◌≡◌, ◌^◌, sym, ap, ◌∙◌, arith, true, false, Method, done, bind,
  bind-done, done-injective, ◌==◌, if◌then◌else◌, u32,
}
use sd_fat.Device.{BlockDevice}
use sd_fat.Cache.{FsCache, reserve_for_write, prepare}
use sd_fat.Fat.{Geometry}
use sd_fat.Fat.Layout.{IsGeometry}
use sd_fat.Alloc.{FatTable, allocate_cluster}
use sd_fat.File.{Handle, on_volume, on_fat, set_file, cluster_start_sector, add_cluster}
use sd_fat.File.Calls.{on_volume-done, on_fat-done}
use sd_fat.File.Entry.{on_buffer}
use sd_fat.File.Chains.{vol_table, bytes_per_cluster, clear_sectors, add_dir_cluster}

add_cluster-cur_position :
    (T : FatTable) (g : Geometry) (h : Handle (T.State)) {q : Handle (T.State)}
    → add_cluster T g h ≡ done tt q
    → q.file.cur_position ≡ h.file.cur_position
unfolding add_cluster
add_cluster-cur_position T g h {q} e =
    let (n, p, x, y) = bind-done (on_volume (allocate_cluster T h.file.cur_cluster) h) after e in
    let (v, z, w) = on_volume-done (allocate_cluster T h.file.cur_cluster) h x in
    ap (λ t. t.file.cur_position) (sym (done-injective y).1) ∙ ap (λ t. t.file.cur_position) (sym w)
  where
    after : ℕ → Method (Handle (T.State)) (Unit {0})
    after n q = done tt (
        set_file
          (λ f. record f {
            cur_cluster = n;
            dir_dirty = true;
            contiguous =
                if h.file.cur_cluster == 0
                then true
                else if n == u32 (h.file.cur_cluster + 1)
                then f.contiguous
                else false;
          })
          q)

module _ (B : BlockDevice) (g : Geometry) (hg : IsGeometry g) where
  open B use {Dev}

  clear_sectors-file :
      (n s : ℕ) (h : Handle (FsCache Dev)) {q : Handle (FsCache Dev)}
      → clear_sectors B g hg n s h ≡ done tt q
      → q.file ≡ h.file
  unfolding clear_sectors
  clear_sectors-file zero s h {q} e = ap (λ t. t.file) (sym (done-injective e).1)
  clear_sectors-file (suc n) s h {q} e =
      let (_, p, x, y) =
        bind-done (on_fat (prepare B (u32 s) reserve_for_write) h)
          (λ _ q. clear_sectors B g hg n (s + 1) (on_buffer B (λ _ _. 0) q)) e in
      let (c, z, w) = on_fat-done (prepare B (u32 s) reserve_for_write) h x in
      clear_sectors-file n (s + 1) (on_buffer B (λ _ _. 0) p) y ∙ ap (λ t. t.file) (sym w)

  -- On a volume with clusters of 64 KB, `addDirCluster` that succeeds leaves the position of the
  -- directory as it was.
  pub add_dir_cluster-cur_position :
      (h : Handle (FsCache Dev)) {q : Handle (FsCache Dev)}
      → g.sectors_per_cluster_shift ≡ 7
      → add_dir_cluster B g hg h ≡ done tt q
      → q.file.cur_position ≡ h.file.cur_position
  unfolding add_dir_cluster
  add_dir_cluster-cur_position h {q} e r =
      let (_, p, x, y) = bind-done (add_cluster (vol_table B g hg) g h) clear called in
      let (_, u, z, w) =
        bind-done
          (clear_sectors B g hg g.sectors_per_cluster (cluster_start_sector g p.file.cur_cluster) p)
          move y in
      let c =
        clear_sectors-file g.sectors_per_cluster (cluster_start_sector g p.file.cur_cluster) p z in
      let a = add_cluster-cur_position (vol_table B g hg) g h x in
      let none : bytes_per_cluster B g hg ≡ 0 = ap (λ t. 512 * 2 ^ t % 2 ^ 16) e in
      ap (λ t. t.file.cur_position) (sym (done-injective w).1)
      ∙ omega (arith, none, ap (λ t. t.cur_position) c, a, below)
    where
      move : Unit {0} → Method (Handle (FsCache Dev)) (Unit {0})
      move _ p = done tt (
          set_file
            (λ f. record f { cur_position = u32 (f.cur_position + bytes_per_cluster B g hg) }) p)

      clear : Unit {0} → Method (Handle (FsCache Dev)) (Unit {0})
      clear _ q =
          bind
            (clear_sectors B g hg g.sectors_per_cluster (cluster_start_sector g q.file.cur_cluster)
              q)
            move

      called : bind (add_cluster (vol_table B g hg) g h) clear ≡ done tt q
      called = ground arith

      below : h.file.cur_position < 512 * 4095
      below = ground arith
