-- ===== src/File/SeekRead.antt =====
-- `seekSet` and then `read`, on a file of a mounted volume.
use sd_fat.Base.{
  ℕ, zero, suc, ◌+◌, ◌-◌, ◌*◌, ◌<◌, ◌≡◌, refl, sym, ◌∙◌, ap, subst, arith, Bool, true, false, not,
  ◌&&◌, ◌==◌, ltb, leb, if◌then◌else◌, List, min, Outcome, Method, done, fail, stuck, bind,
  bind-done, done-injective, ◌>>>◌,
}
use sd_fat.Endian.{Bytes}
use sd_fat.Device.{BlockDevice}
use sd_fat.Cache.{FsCache}
use sd_fat.Cache.View.{view}
use sd_fat.Fat.{Geometry, Link, eoc, next, fat_get}
use sd_fat.Fat.Layout.{IsGeometry}
use sd_fat.Fat.Table.{fat_get-entry}
use sd_fat.Alloc.{FatTable}
use sd_fat.Alloc.Mounted.{mounted_table, SameView-entry}
use sd_fat.File.{
  FatFile, Handle, on_fat, is_open, is_file, is_root_fixed, dir_size, bytes_per_cluster_shift, walk,
  seek_done, seek_chain, seek_set,
}
use sd_fat.File.Sectors.{Kept, Kept-trans}
use sd_fat.File.Place.{IsLayout, IsPlaced, file_byte}
use sd_fat.File.Follow.{IsFile}
use sd_fat.File.Seek.{SameEntries, seek_set-Sought}
use sd_fat.File.Content.{read_private-HasRead}
use sd_fat.File.Read.{read_private}

module _ (B : BlockDevice) (g : Geometry) (hg : IsGeometry g) (c0 : FsCache (B.Dev)) where
  open B use {Dev}

  abbrev vol_table : FatTable
  vol_table = mounted_table B g hg

  abbrev after : ℕ → Link → Method (FsCache Dev) ℕ
  after n l t = elim l [ eoc ↦ fail t | next d ↦ walk vol_table g n d t ]

  walk-Kept :
      (n c : ℕ) (s : FsCache Dev) {a : ℕ} {s' : FsCache Dev}
      → Kept B g hg c0 s
      → walk vol_table g n c s ≡ done a s'
      → Kept B g hg c0 s'
  unfolding walk
  walk-Kept zero c s {a} {s'} k e = subst (Kept B g hg c0) (done-injective e).1 k
  walk-Kept (suc n) c s {a} {s'} k e =
      let (l, t, x, y) = bind-done (fat_get B g c s) (after n) e in
      let (lo, hi, r, mounted, same) = fat_get-entry B g hg c k.0 x in
      elim l as (λ l. after n l t ≡ done a s' → Kept B g hg c0 s') [
        | eoc ↦ λ y. absurd cc
        | next m ↦ λ y. walk-Kept n m t (Kept-trans B g hg c0 s t k (mounted, same)) y
      ]
        y

  -- A client sees the volume as it was, after a call that succeeds.
  abbrev pub KeptBy : Outcome (Handle (FsCache Dev)) Unit → Type 0
  KeptBy o = elim o [ done a q ↦ Kept B g hg c0 q.vol.table | fail q ↦ Unit | stuck ↦ Unit ]

  if-KeptBy :
      (x y : Outcome (Handle (FsCache Dev)) Unit) (b : Bool)
      → KeptBy x
      → KeptBy y
      → KeptBy (if b then x else y)
  if-KeptBy x y true u v = u
  if-KeptBy x y false u v = v

  chain-KeptBy :
      (n c pos : ℕ) (h : Handle (FsCache Dev))
      → Kept B g hg c0 h.vol.table
      → KeptBy (bind (on_fat (walk vol_table g n c) h) (seek_done vol_table g pos))
  chain-KeptBy n c pos h k =
      go (walk vol_table g n c h.vol.table) (λ a s e. walk-Kept n c h.vol.table k e)
    where
      go :
          (o : Outcome (FsCache Dev) ℕ)
          → ((a : ℕ) (s : FsCache Dev) → o ≡ done a s → Kept B g hg c0 s)
          → KeptBy (bind (on_fat (λ _. o) h) (seek_done vol_table g pos))
      go (done a s) f = f a s refl
      go (fail s) f = tt
      go stuck f = tt

  seek_chain-KeptBy :
      (pos new : ℕ) (h : Handle (FsCache Dev))
      → Kept B g hg c0 h.vol.table
      → KeptBy (seek_chain vol_table g pos new h)
  unfolding seek_chain
  seek_chain-KeptBy pos new h k = chain-KeptBy _ _ pos h k

  pub seek_set-KeptBy :
      (pos : ℕ) (h : Handle (FsCache Dev))
      → Kept B g hg c0 h.vol.table
      → KeptBy (seek_set vol_table g pos h)
  unfolding seek_set
  seek_set-KeptBy pos h k = if-KeptBy _ _ (not (is_open f.kind)) tt (
      if-KeptBy _ _ (pos == f.cur_position) k (
        if-KeptBy _ _ (pos == 0) k (
          if-KeptBy _ _ (is_file f.kind && ltb f.file_size pos) tt (
            if-KeptBy _ _ (is_root_fixed f.kind)
              (if-KeptBy _ _ (leb pos (dir_size * g.root_dir_entry_count)) k tt)
              (if-KeptBy _ _ f.contiguous k
                (seek_chain-KeptBy pos ((pos - 1) >>> bytes_per_cluster_shift g) h k))))))
    where
      f : FatFile
      f = h.file

  module _ (d : IsLayout g) (cs : List ℕ) where
    -- On a mounted FAT volume whose layout is sound, with a regular file whose clusters are a
    -- chain that holds it and whose current cluster is that of the byte before the position,
    -- `seekSet` that succeeds followed by `read` that succeeds yields the number of bytes asked
    -- for, cut to what the file has behind the new position, and they are the bytes of the file
    -- from there on.
    pub read_sought :
        (pos nbyte : ℕ) (dst : Bytes) (h : Handle (FsCache Dev)) {q p : Handle (FsCache Dev)}
        {b : Bytes} {n : ℕ}
        → IsFile B g hg d cs c0 h.file
        → IsPlaced g cs h.file
        → Kept B g hg c0 h.vol.table
        → seek_set vol_table g pos h ≡ done tt q
        → read_private B g dst nbyte q ≡ done (b, n) p
        → (n ≡ min nbyte (h.file.file_size - pos))
          × ((j : ℕ) → j < n → b j ≡ file_byte g (view B c0) cs (pos + j))
    read_sought pos nbyte dst h {q} {p} {b} {n} i pl k e r =
        let m : SameEntries vol_table c0 h.vol.table = record {
          ready = k.0;
          same = λ t le. SameView-entry B g hg c0 h.vol.table t le k.1;
        } in
        let s =
          seek_set-Sought vol_table g cs h.file.first_cluster c0 i.1.chain d refl pos h
            (i.0, refl, i.1) pl m e in
        let kept : Kept B g hg c0 q.vol.table = subst KeptBy e (seek_set-KeptBy pos h k) in
        let size : q.file.file_size ≡ h.file.file_size = ap (λ t. t.file_size) s.same_file in
        let at : q.file.cur_position ≡ pos = ap (λ t. t.cur_position) s.same_file in
        let (u, v) =
          read_private-HasRead B g hg d cs c0 dst nbyte q
            (subst (IsFile B g hg d cs c0) (sym s.same_file) (
              i.0,
              record {
                chain = i.1.chain;
                inside = i.1.inside;
                room = i.1.room;
                small = i.1.small;
                in_row = i.1.in_row;
              },
            ))
            s.placed kept r in
        (
          omega (arith, u, size, at),
          λ j lt.
              ap b {x = j} {y = 0 + j} (omega arith)
              ∙ v.content j lt
              ∙ ap (λ t. file_byte g (view B c0) cs (t + j)) at,
        )
