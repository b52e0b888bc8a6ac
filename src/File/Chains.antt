-- ===== src/File/Chains.antt =====
-- src/FatLib/FatFile.cpp: the methods that give a file its clusters or take them away, and those
-- that measure its chain.
use sd_fat.Base.{
  ℕ, zero, suc, ◌+◌, ◌-◌, ◌*◌, true, not, ◌||◌, Outcome, Method, done, fail, stuck, bind, ltb, leb,
  ◌==◌, if◌then◌else◌, u16, u32, sub32, ◌<<<◌, ◌>>>◌,
}
use sd_fat.Device.{BlockDevice}
use sd_fat.Cache.{FsCache, reserve_for_write, prepare}
use sd_fat.Fat.{Geometry, eoc, next}
use sd_fat.Fat.Layout.{IsGeometry}
use sd_fat.Alloc.{FatTable, free_chain, fat_put_eoc}
use sd_fat.Alloc.Run.{alloc_contiguous}
use sd_fat.Alloc.Mounted.{mounted_table}
use sd_fat.File.{
  Handle, on_volume, on_fat, set_file, is_file, is_dir, is_root_fixed, is_root32, dir_size,
  bytes_per_cluster_shift, cluster_start_sector, add_cluster,
}
use sd_fat.File.Entry.{Clock, file_sync, on_buffer}

module _ (T : FatTable) (g : Geometry) where
  open T use {State, last_cluster, get, put}

  -- The chain behind the current position, cut off; the value is where it begins, or 0.
  unfoldable pub cut_chain : Method (Handle State) ℕ
  cut_chain h =
      let f = h.file in
      let cut = bind (on_fat (get f.cur_cluster) h) (λ l q. elim l [
        | eoc ↦ done 0 q
        | next d ↦ bind (on_fat (fat_put_eoc T f.cur_cluster) q) (λ _. done d)
      ]) in
      if not (f.cur_cluster == 0)
      then cut
      else done f.first_cluster (set_file (λ f. record f { first_cluster = 0 }) h)

  -- `truncate` up to the call of `sync`.
  unfoldable pub release_rest : Method (Handle State) (Unit {0})
  unfolding cut_chain
  release_rest h = bind (cut_chain h) (λ to_free q.
      let free = on_volume (free_chain T to_free) q in
      bind (if to_free == 0 then done tt q else free) (λ _ p.
        done tt (set_file (λ f. record f { file_size = f.cur_position; dir_dirty = true }) p)))

  -- `preAllocate` up to the call of `sync`.
  unfoldable pub take_clusters : ℕ → Method (Handle State) (Unit {0})
  take_clusters length h =
      let need = u32 (1 + (length - 1) >>> bytes_per_cluster_shift g) in
      bind (on_volume (alloc_contiguous T need) h) (λ b q. done tt (
        set_file
          (λ f. record f {
            first_cluster = b;
            file_size = length;
            preallocated = true;
            contiguous = true;
            dir_dirty = true;
          })
          q))

  -- The loop of `contiguousRange` from cluster `c` on, with rounds for fuel: the last cluster.
  unfoldable pub range_end : ℕ → ℕ → Method State ℕ
  range_end zero c s = stuck
  range_end (suc fuel) c s =
      let on = range_end fuel (u32 (c + 1)) in
      bind (get c s)
        (λ l t. elim l [ eoc ↦ done c t | next d ↦ if d == u32 (c + 1) then on t else fail t ])

  -- The first and the last sector.
  unfoldable pub contiguous_range : Method (Handle State) (ℕ × ℕ)
  unfolding range_end
  contiguous_range h =
      let f = h.file in
      if not (is_file f.kind) || f.first_cluster == 0
      then fail h
      else bind (on_fat (range_end (last_cluster + 2) f.first_cluster) h) (λ c q.
        done
          (
            cluster_start_sector g f.first_cluster,
            sub32 (u32 (cluster_start_sector g c + g.sectors_per_cluster)) 1,
          )
          (set_file (λ f. record f { contiguous = true }) q))

  -- The loop of `dirSize`: sectors counted up to the cluster `c`, with rounds for fuel. Here a
  -- failing `fatGet` is no failure of the method.
  unfoldable pub size_rounds : ℕ → ℕ → ℕ → State → Outcome State ℕ
  size_rounds zero n c s = stuck
  size_rounds (suc fuel) n c s =
      let m = u16 (n + g.sectors_per_cluster) in
      elim (get c s) [
        | done l t ↦
            if ltb 4095 n
            then done 0 t
            else elim l [ eoc ↦ done (512 * m) t | next d ↦ size_rounds fuel m d t ]
        | fail t ↦ done 0 t
        | stuck ↦ stuck
      ]

  unfoldable pub directory_size : Method (Handle State) ℕ
  unfolding size_rounds
  directory_size h =
      let f = h.file in
      if not (is_dir f.kind)
      then done 0 h
      else if is_root_fixed f.kind
      then done (dir_size * g.root_dir_entry_count) h
      else on_fat
          (size_rounds 4098 0 (if is_root32 f.kind then g.root_dir_start else f.first_cluster)) h

module _ (B : BlockDevice) (g : Geometry) (hg : IsGeometry g) where
  open B use {Dev}

  abbrev pub vol_table : FatTable
  vol_table = mounted_table B g hg

  unfoldable pub truncate : Clock → Method (Handle (FsCache Dev)) (Unit {0})
  unfolding release_rest
  truncate clock h =
      let release = release_rest vol_table g h in
      if not h.file.writable
      then fail h
      else if h.file.first_cluster == 0
      then done tt h
      else bind release (λ _. file_sync B clock)

  unfoldable pub pre_allocate : Clock → ℕ → Method (Handle (FsCache Dev)) (Unit {0})
  unfolding take_clusters
  pre_allocate clock length h =
      let take = take_clusters vol_table g length h in
      if length == 0 || not h.file.writable || not (h.file.first_cluster == 0)
      then fail h
      else bind take (λ _. file_sync B clock)

  -- The sectors of a new cluster of a directory, from number `i` on, cleared in the cache.
  unfoldable pub clear_sectors : ℕ → ℕ → Method (Handle (FsCache Dev)) (Unit {0})
  clear_sectors zero s h = done tt h
  clear_sectors (suc n) s h =
      bind (on_fat (prepare B (u32 s) reserve_for_write) h)
        (λ _ q. clear_sectors n (s + 1) (on_buffer B (λ _ _. 0) q))

  -- `bytesPerCluster`, which is 16 bits wide.
  abbrev pub bytes_per_cluster : ℕ
  bytes_per_cluster = u16 (512 <<< g.sectors_per_cluster_shift)

  unfoldable pub add_dir_cluster : Method (Handle (FsCache Dev)) (Unit {0})
  unfolding clear_sectors
  add_dir_cluster h =
      let add = add_cluster vol_table g h in
      if is_root_fixed h.file.kind
      then fail h
      else if leb (512 * 4095) h.file.cur_position
      then fail h
      else bind add (λ _ q.
        bind (clear_sectors g.sectors_per_cluster (cluster_start_sector g q.file.cur_cluster) q)
          (λ _ p. done tt (
            set_file (λ f. record f { cur_position = u32 (f.cur_position + bytes_per_cluster) })
              p)))
