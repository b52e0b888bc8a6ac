-- ===== src/File/Write/Start.antt =====
-- Where `write` begins: at the end of the file if it appends, else at the position.
use sd_fat.Base.{
  ℕ, ◌+◌, ◌*◌, ◌^◌, ◌≤◌, ◌<◌, ◌≡◌, inl, inr, refl, sym, ◌∙◌, ap, subst, arith, true, false, List,
  ltb, if◌then◌else◌, Outcome, done, done-injective, Bool-cases,
}
use sd_fat.Base.Lists.{length}
use sd_fat.Device.{BlockDevice}
use sd_fat.Cache.{FsCache}
use sd_fat.Fat.{Geometry}
use sd_fat.Fat.Layout.{IsGeometry}
use sd_fat.Fat.Window.{IsMounted, InFat-IsVisible}
use sd_fat.Alloc.{FatTable}
use sd_fat.Alloc.Mounted.{mounted_table}
use sd_fat.File.{FatFile, Handle, seek_set}
use sd_fat.File.Sectors.{Kept}
use sd_fat.File.Place.{IsLayout, IsPlaced}
use sd_fat.File.Follow.{IsFile}
use sd_fat.File.Seek.{SameEntries-refl, seek_set-Sought}
use sd_fat.File.SeekRead.{KeptBy, seek_set-KeptBy}
use sd_fat.File.Write.Wrote.{grown, IsReadyToWrite}
use sd_fat.File.Write.Chain.{SameFat-IsFile}

-- Where `write` begins.
abbrev pub write_start : FatFile → ℕ
write_start f = if f.append then f.file_size else f.cur_position

abbrev pub size_after : FatFile → ℕ → ℕ
size_after f n = if ltb f.file_size (write_start f + n) then write_start f + n else f.file_size

module _ (B : BlockDevice) (g : Geometry) (hg : IsGeometry g) (d : IsLayout g) (cs : List ℕ) where
  open B use {Dev}

  abbrev vol_table : FatTable
  vol_table = mounted_table B g hg

  -- The handle where the loop begins.
  pub record Positioned (h q : Handle (FsCache Dev)) : Type 0 where
    pub same_file : q.file ≡ record h.file {
      cur_cluster = q.file.cur_cluster;
      cur_position = write_start h.file;
      preallocated = q.file.preallocated;
    }
    pub placed : IsPlaced g cs q.file
    pub at_start : q.file.cur_position ≡ 0 → q.file.cur_cluster ≡ 0
    pub same_mark : h.file.append ≡ false → q.file.preallocated ≡ h.file.preallocated
    pub kept : Kept B g hg h.vol.table q.vol.table

  abbrev pub position : Handle (FsCache Dev) → Outcome (Handle (FsCache Dev)) (Unit {0})
  position h =
      let seek = seek_set vol_table g h.file.file_size h in
      if h.file.append then seek else done tt h

  pub position-Positioned :
      (h : Handle (FsCache Dev)) {q : Handle (FsCache Dev)}
      → IsFile B g hg d cs h.vol.table h.file
      → IsReadyToWrite g cs h.file h.file.file_size
      → IsMounted B g h.vol.table
      → position h ≡ done tt q
      → Positioned h q
  position-Positioned h {q} i r m e = elim (Bool-cases h.file.append) [
    | inr no_append ↦ subst (Positioned h) (done-injective (unmoved no_append)).1 (record {
      same_file = ap (λ t. record h.file { cur_position = t }) (ground arith);
      placed = r.placed;
      at_start = r.at_start;
      same_mark = λ _. refl;
      kept = (m, λ t v. refl);
    })
    | inl at_end ↦
        let s =
          seek_set-Sought vol_table g cs h.file.first_cluster h.vol.table i.1.chain d refl
            h.file.file_size h (i.0, refl, i.1) r.placed (SameEntries-refl vol_table h.vol.table m)
            (moved at_end) in
        record {
          same_file =
              s.same_file
              ∙ ap
                  (λ t. record h.file {
                    cur_cluster = q.file.cur_cluster;
                    cur_position = t;
                    preallocated = q.file.preallocated;
                  })
                  {x = h.file.file_size} {y = write_start h.file} (ground arith);
          placed = s.placed;
          at_start = λ z.
              let at : q.file.cur_position ≡ h.file.file_size =
                ap (λ (f : FatFile). f.cur_position) s.same_file in
              let same = stays at_end (omega (arith, at, z, r.placed.inside)) in
              ap (λ (t : Handle (FsCache Dev)). t.file.cur_cluster) (sym same)
              ∙ r.at_start (omega (arith, at, z, r.placed.inside));
          same_mark = λ f. absurd cc;
          kept =
              subst (KeptBy B g hg h.vol.table) (moved at_end)
                (seek_set-KeptBy B g hg h.vol.table h.file.file_size h (m, λ t v. refl));
        }
  ]
    where
      unmoved :
          h.file.append ≡ false
          → ◌≡◌ {A = Outcome (Handle (FsCache Dev)) (Unit {0})} (done tt h) (done tt q)
      unmoved f = ground arith

      moved : h.file.append ≡ true → seek_set vol_table g h.file.file_size h ≡ done tt q
      moved f = ground arith

      stays : h.file.append ≡ true → h.file.file_size ≡ h.file.cur_position → h ≡ q
      stays f e =
          let here : ◌≡◌ {A = Outcome (Handle (FsCache Dev)) (Unit {0})} (done tt h) (done tt q) =
            unfold seek_set in ground (arith, i.0, moved f) in
          (done-injective here).1

  -- The file with room for the bytes to write, before and where the loop begins.
  module _ (n : ℕ) (h q : Handle (FsCache Dev)) (i : IsFile B g hg d cs h.vol.table h.file)
      (room : write_start h.file + n ≤ length cs * (512 * g.sectors_per_cluster))
      (small : write_start h.file + n < 2 ^ 32) (s : Positioned h q) where
    start_at : q.file.cur_position ≡ write_start h.file
    start_at = ap (λ (f : FatFile). f.cur_position) s.same_file

    pub grown_file : IsFile B g hg d cs h.vol.table (grown h.file (size_after h.file n))
    grown_file = (
      i.0,
      record {
        chain = i.1.chain;
        inside = i.1.inside;
        room = ground (arith, i.1.room, room);
        small = ground (arith, i.1.small, small);
        in_row = i.1.in_row;
      },
    )

    pub grown_at : IsFile B g hg d cs q.vol.table (grown q.file (size_after h.file n))
    grown_at =
        SameFat-IsFile B g hg d cs (grown h.file (size_after h.file n))
          (grown q.file (size_after h.file n)) h.vol.table q.vol.table
          (λ t f. s.kept.1 t (InFat-IsVisible B g hg f)) (ap (λ (f : FatFile). f.kind) s.same_file)
          refl (ap (λ (f : FatFile). f.first_cluster) s.same_file)
          (ap (λ (f : FatFile). f.contiguous) s.same_file) grown_file

    pub ready_at : IsReadyToWrite g cs q.file (size_after h.file n)
    ready_at = record {
      placed = record { inside = ground (arith, start_at); cluster = s.placed.cluster };
      at_start = s.at_start;
    }

    pub enough : q.file.cur_position + n ≤ size_after h.file n
    enough = ground (arith, start_at)
