-- ===== src/File/ReadFault.antt =====
-- A `read` that fails in the first sector of a cluster: where it leaves the file.
use sd_fat.Base.{
  ℕ, zero, suc, ◌+◌, ◌-◌, ◌/◌, ◌%◌, ◌<◌, ◌≡◌, ◌≢◌, refl, sym, ◌∙◌, ap, subst, arith, Bool, true,
  false, not, ◌||◌, ◌>>>◌, ◌<<<◌, List, [], ◌∷◌, ◌==◌, ltb, leb, if◌then◌else◌, Outcome, Method,
  done, fail, stuck, bind, u32,
}
use sd_fat.Base.Lists.{length, get_or}
use sd_fat.Endian.{Bytes}
use sd_fat.Device.{BlockDevice}
use sd_fat.Cache.{FsCache, for_read, prepare, cache_safe_read, cache_safe_read_range}
use sd_fat.Fat.{Geometry}
use sd_fat.Fat.Layout.{IsGeometry, entry}
use sd_fat.Fat.Stored.{table}
use sd_fat.Alloc.Chain.{IsChain}
use sd_fat.File.{FatFile, Handle, on_fat, set_file, on_failure, is_root_fixed, sector_of_cluster}
use sd_fat.File.Sectors.{Kept}
use sd_fat.File.Place.{IsLayout, IsPlaced, cluster_at}
use sd_fat.File.Enter.{enter_cluster-Entered}
use sd_fat.File.Follow.{IsFile, cluster_number, next_number}
use sd_fat.File.Read.{
  enter_cluster, position_sector, read_part, read_many, read_one, read_sectors, read_rounds,
  read_limit, read_private, sectors_at, put_sectors_at, memcpy, min_size, position_offset,
}

-- Neighbours of a chain differ.
IsChain-next-ne :
    (e : ℕ → ℕ) (last c : ℕ) (cs : List ℕ) (i : ℕ)
    → IsChain e last c cs
    → suc i < length cs
    → get_or cs (suc i) 0 ≢ get_or cs i 0
IsChain-next-ne e last c [] i h lt = absurd h
IsChain-next-ne e last c (x ∷ []) i h lt = absurd (omega arith)
IsChain-next-ne e last c (x ∷ y ∷ r) zero h lt = λ q. h.2.0 (q ∙ h.0)
IsChain-next-ne e last c (x ∷ y ∷ r) (suc i) h lt =
    IsChain-next-ne e last (e c) (y ∷ r) i h.3 (omega arith)

-- The file after a call that fails.
abbrev LeavesFile : {S A : Type 0} → FatFile → Outcome (Handle S) A → Type 0
LeavesFile f o = elim o [ done a q ↦ Unit | fail q ↦ q.file ≡ f | stuck ↦ Unit ]

fat_call-LeavesFile :
    {S A C : Type 0} (m : Method S A) (h : Handle S) (k : A → Handle S → C)
    → LeavesFile h.file (bind (on_fat m h) (λ a q. done (k a q) q))
fat_call-LeavesFile {S} {A} {C} m h k = go (m h.vol.table)
  where
    go : (o : Outcome S A) → LeavesFile h.file (bind (on_fat (λ _. o) h) (λ a q. done (k a q) q))
    go (done a s) = tt
    go (fail s) = refl
    go stuck = tt

if-LeavesFile :
    {S A : Type 0} (f : FatFile) (x y : Outcome (Handle S) A) (b : Bool)
    → LeavesFile f x
    → LeavesFile f y
    → LeavesFile f (if b then x else y)
if-LeavesFile f x y true u v = u
if-LeavesFile f x y false u v = v

module _ (B : BlockDevice) (g : Geometry) where
  open B use {Dev}

  read_part-LeavesFile :
      (dst : Bytes) (at n : ℕ) (q : Handle (FsCache Dev))
      → LeavesFile {A = Bytes × ℕ} q.file (read_part B g dst at n q)
  unfolding read_part
  read_part-LeavesFile dst at n q =
      let offset = position_offset B g q.file in
      let k = min_size n (512 - offset) in
      fat_call-LeavesFile (prepare B (position_sector B g q.file) for_read) q
        (λ _ r. (memcpy dst at r.vol.table.buffer offset k, k))

  read_many-LeavesFile :
      (dst : Bytes) (at n : ℕ) (q : Handle (FsCache Dev))
      → LeavesFile {A = Bytes × ℕ} q.file (read_many B g dst at n q)
  unfolding read_many
  read_many-LeavesFile dst at n q =
      let ns =
        if is_root_fixed q.file.kind
        then n >>> 9
        else min_size (n >>> 9) (g.sectors_per_cluster - sector_of_cluster g q.file.cur_position) in
      fat_call-LeavesFile
        (cache_safe_read_range B (position_sector B g q.file) ns (sectors_at dst at)) q
        (λ b _. (put_sectors_at dst at b (ns <<< 9), ns <<< 9))

  read_one-LeavesFile :
      (dst : Bytes) (at : ℕ) (q : Handle (FsCache Dev))
      → LeavesFile {A = Bytes × ℕ} q.file (read_one B g dst at q)
  unfolding read_one
  read_one-LeavesFile dst at q =
      fat_call-LeavesFile (cache_safe_read B (position_sector B g q.file) (sectors_at dst at 0)) q
        (λ b _. (memcpy dst at b 0 512, 512))

  read_sectors-LeavesFile :
      (dst : Bytes) (at n : ℕ) (q : Handle (FsCache Dev))
      → LeavesFile {A = Bytes × ℕ} q.file (read_sectors B g dst at n q)
  unfolding read_sectors
  read_sectors-LeavesFile dst at n q =
      if-LeavesFile {A = Bytes × ℕ} q.file (read_part B g dst at n q)
        (if leb 1024 n then read_many B g dst at n q else read_one B g dst at q)
        (not (position_offset B g q.file == 0)
          || ltb n 512
          || position_sector B g q.file == q.vol.table.sector)
        (read_part-LeavesFile dst at n q)
        (if-LeavesFile {A = Bytes × ℕ} q.file (read_many B g dst at n q) (read_one B g dst at q)
          (leb 1024 n) (read_many-LeavesFile dst at n q) (read_one-LeavesFile dst at q))

  rounds_fail :
      (fuel : ℕ) (dst : Bytes) (n : ℕ) (h q p : Handle (FsCache Dev))
      → 0 < fuel
      → 0 < n
      → enter_cluster B g h ≡ done true q
      → read_sectors B g dst 0 n q ≡ fail p
      → read_rounds B g fuel dst 0 n h ≡ fail p
  unfolding read_rounds
  rounds_fail zero dst n h q p lo some a b = absurd (omega arith)
  rounds_fail (suc fuel) dst n h q p lo some a b =
      ap (λ t. if t then done (dst, 0) h else bind (enter_cluster B g h) rest) {x = n == 0}
        {y = false} (ground arith)
      ∙ ap (λ t. bind t rest) a
      ∙ ap (λ t. bind t on) b
    where
      on : Bytes × ℕ → Method (Handle (FsCache Dev)) (Bytes × ℕ)
      on r p' =
          read_rounds B g fuel r.0 (0 + r.1) (n - r.1)
            (set_file (λ f. record f { cur_position = u32 (f.cur_position + r.1) }) p')

      rest : Bool → Method (Handle (FsCache Dev)) (Bytes × ℕ)
      rest more q' = elim more [
        | false ↦ done (dst, n) q'
        | true ↦ bind (read_sectors B g dst 0 n q') on
      ]

  -- A `read` whose first round fails behind `enter_cluster`.
  read_private_fails :
      (dst : Bytes) (nbyte : ℕ) (h q p : Handle (FsCache Dev))
      → h.file.readable ≡ true
      → 0 < read_limit B g h.file nbyte
      → enter_cluster B g h ≡ done true q
      → read_sectors B g dst 0 (read_limit B g h.file nbyte) q ≡ fail p
      → read_private B g dst nbyte h ≡ fail (set_file (λ f. record f { read_error = true }) p)
  unfolding read_private
  read_private_fails dst nbyte h q p r lo a b =
      let n = read_limit B g h.file nbyte in
      ap
        (λ t.
          on_failure (set_file (λ f. record f { read_error = true })) (
            if t
            then bind (read_rounds B g n dst 0 n h) (λ r q. done (r.0, n - r.1) q)
            else fail h))
        r
      ∙ ap
          (λ t.
            on_failure (set_file (λ f. record f { read_error = true }))
              (bind t (λ r q. done (r.0, n - r.1) q)))
          (rounds_fail n dst n h q p lo lo a b)

module _ (B : BlockDevice) (g : Geometry) (hg : IsGeometry g) (d : IsLayout g) (cs : List ℕ)
    (c0 : FsCache (B.Dev)) where
  open B use {Dev}

  -- On a mounted FAT volume whose layout is sound, with a readable regular file whose clusters
  -- are a chain that holds it, when `read` of at least one byte at the first byte of a cluster
  -- behind the first one finds the cluster and then fails to read there, it fails with the error
  -- flag set, the position as it was and the current cluster that of the byte at the position,
  -- which is not that of the byte before it.
  pub failed_read_moves :
      (dst : Bytes) (nbyte : ℕ) (h q p : Handle (FsCache Dev))
      → IsFile B g hg d cs c0 h.file
      → IsPlaced g cs h.file
      → Kept B g hg c0 h.vol.table
      → h.file.readable ≡ true
      → 0 < h.file.cur_position
      → h.file.cur_position < h.file.file_size
      → (h.file.cur_position % 512 ≡ 0) × (h.file.cur_position / 512 % g.sectors_per_cluster ≡ 0)
      → 0 < nbyte
      → enter_cluster B g h ≡ done true q
      → read_sectors B g dst 0 (read_limit B g h.file nbyte) q ≡ fail p
      → (read_private B g dst nbyte h ≡ fail (set_file (λ f. record f { read_error = true }) p))
        × (p.file.cur_position ≡ h.file.cur_position)
        × (p.file.cur_cluster ≡ cluster_at g cs (h.file.cur_position / 512))
        × ¬ IsPlaced g cs (record p.file { read_error = true })
  failed_read_moves dst nbyte h q p i pl k r pos lt st some a b =
      let (_, en) = enter_cluster-Entered B g hg d cs c0 h q true i pl lt k a in
      let limit : 0 < read_limit B g h.file nbyte = ground (arith, i.0, i.1.small) in
      let file =
        subst (LeavesFile q.file) b
          (read_sectors-LeavesFile B g dst 0 (read_limit B g h.file nbyte) q) in
      let at : p.file.cur_position ≡ h.file.cur_position =
        ap (λ t. t.cur_position) file ∙ ap (λ t. t.cur_position) en.0 in
      let cluster : p.file.cur_cluster ≡ cluster_at g cs (h.file.cur_position / 512) =
        ap (λ t. t.cur_cluster) file ∙ ap (λ t. t.cur_cluster) en.0 in
      (
        read_private_fails B g dst nbyte h q p r limit a b,
        at,
        cluster,
        λ w.
            IsChain-next-ne (λ t. entry g (table B g c0) t) g.last_cluster h.file.first_cluster cs
              before i.1.chain
              (omega (arith, step, cluster_number B g hg d cs c0 h.file h.file.cur_position i lt))
              (ap (λ t. get_or cs t 0) step
                ∙ sym cluster
                ∙ w.cluster (omega (arith, at))
                ∙ ap (λ t. cluster_at g cs ((t - 1) / 512)) at),
      )
    where
      before : ℕ
      before = (h.file.cur_position - 1) / 512 / g.sectors_per_cluster

      step : suc before ≡ h.file.cur_position / 512 / g.sectors_per_cluster
      step = next_number B g hg d cs c0 h.file pos st
