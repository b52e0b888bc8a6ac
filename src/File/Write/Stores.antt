-- ===== src/File/Write/Stores.antt =====
-- What a file and its volume are behind a `write` that has succeeded.
use sd_fat.Base.{
  ℕ, ◌+◌, ◌-◌, ◌/◌, ◌%◌, ◌≤◌, ◌<◌, ◌≡◌, ◌⊎◌, inl, inr, refl, sym, ◌∙◌, ap, arith, true, false, List,
  ltb, if◌then◌else◌, Bool, Bool-cases, none, some,
}
use sd_fat.Endian.{Bytes}
use sd_fat.Device.{BlockDevice}
use sd_fat.Cache.{FsCache}
use sd_fat.Cache.View.{view}
use sd_fat.Fat.{Geometry}
use sd_fat.Fat.Layout.{IsGeometry}
use sd_fat.Fat.Window.{IsMounted, IsVisible, InFat-IsVisible}
use sd_fat.File.{FatFile, Handle, set_file}
use sd_fat.File.Place.{IsLayout, cluster_at, data_sector, file_byte}
use sd_fat.File.Follow.{IsFile, cluster_number}
use sd_fat.File.Visible.{data_sector-IsVisible}
use sd_fat.File.Entry.{Clock}
use sd_fat.File.Write.{written}
use sd_fat.File.Write.Wrote.{grown, IsDefined, IsForeign, IsReadyToWrite}
use sd_fat.File.Write.Chain.{InFat-IsForeign, SameFat-IsFile}
use sd_fat.File.Write.Step.{HasWritten}
use sd_fat.File.Write.Start.{write_start, size_after, Positioned}

module _ (B : BlockDevice) (g : Geometry) (hg : IsGeometry g) (d : IsLayout g) (cs : List ℕ) where
  open B use {Dev}

  -- `n` bytes of `src` have become the bytes of the file from where `write` begins on: the file is
  -- placed behind them and has grown as far, its other bytes (those behind the new ones only if it
  -- is not just preallocated) and all sectors that are not its own are as they were, and it still
  -- has its clusters.
  pub record Stores (clock : Clock) (src : Bytes) (n : ℕ) (h p : Handle (FsCache Dev))
      : Type 0 where
    pub same_file : p.file ≡ record h.file {
      cur_cluster = p.file.cur_cluster;
      cur_position = write_start h.file + n;
      preallocated = p.file.preallocated;
      file_size =
          if ltb h.file.file_size (write_start h.file + n)
          then write_start h.file + n
          else h.file.file_size;
      dir_dirty =
          if ltb h.file.file_size (write_start h.file + n)
          then true
          else elim clock [ none ↦ h.file.dir_dirty | some _ ↦ true ];
    }
    pub stored : IsFile B g hg d cs p.vol.table p.file
    pub ready : IsReadyToWrite g cs p.file p.file.file_size
    pub mounted : IsMounted B g p.vol.table
    pub content :
        (k : ℕ) → k < n → file_byte g (view B p.vol.table) cs (write_start h.file + k) ≡ src k
    pub kept :
        (k : ℕ)
        → k < h.file.file_size
        → (k < write_start h.file) ⊎ ((write_start h.file + n ≤ k) × (h.file.preallocated ≡ false))
        → file_byte g (view B p.vol.table) cs k ≡ file_byte g (view B h.vol.table) cs k
    pub others :
        (t : ℕ)
        → IsVisible B g t
        → IsForeign B g hg d cs t
        → view B p.vol.table t ≡ view B h.vol.table t

  -- What the end of `write` leaves alone.
  written_fields :
      (clock : Clock) (f : FatFile)
      → ((written B g hg clock f).kind ≡ f.kind)
        × ((written B g hg clock f).first_cluster ≡ f.first_cluster)
        × ((written B g hg clock f).contiguous ≡ f.contiguous)
        × ((written B g hg clock f).cur_cluster ≡ f.cur_cluster)
        × ((written B g hg clock f).cur_position ≡ f.cur_position)
        × ((written B g hg clock f).preallocated ≡ f.preallocated)
        × ((written B g hg clock f).file_size
            ≡ (if ltb f.file_size f.cur_position then f.cur_position else f.file_size))
  written_fields none f = ground arith
  written_fields (some t) f = ground arith

  -- The file that the end of `write` leaves, member by member.
  written-members :
      (clock : Clock) (f : FatFile)
      → written B g hg clock f ≡ record f {
        file_size = if ltb f.file_size f.cur_position then f.cur_position else f.file_size;
        dir_dirty =
            if ltb f.file_size f.cur_position
            then true
            else elim clock [ none ↦ f.dir_dirty | some _ ↦ true ];
      }
  written-members clock f = go clock (ltb f.file_size f.cur_position)
    where
      go :
          (clock : Clock) (b : Bool)
          → (if b
              then record f { file_size = f.cur_position; dir_dirty = true }
              else elim clock [ none ↦ f | some t ↦ record f { dir_dirty = true } ])
            ≡ record f {
              file_size = if b then f.cur_position else f.file_size;
              dir_dirty = if b then true else elim clock [ none ↦ f.dir_dirty | some _ ↦ true ];
            }
      go clock true = refl
      go none false = refl
      go (some t) false = refl

  module _ (clock : Clock) (src : Bytes) (n : ℕ) (h q p0 : Handle (FsCache Dev))
      (i : IsFile B g hg d cs h.vol.table h.file)
      (big : IsFile B g hg d cs h.vol.table (grown h.file (size_after h.file n)))
      (x : Positioned B g hg d cs h q)
      (w : HasWritten B g hg d cs q.file (size_after h.file n) src 0 n q.vol.table p0) where
    abbrev size : ℕ
    size = size_after h.file n

    abbrev p : Handle (FsCache Dev)
    p = set_file (written B g hg clock) p0

    at : q.file.cur_position ≡ write_start h.file
    at = ap (λ (f : FatFile). f.cur_position) x.same_file

    file_at : p0.file ≡ record h.file {
      cur_cluster = p0.file.cur_cluster;
      cur_position = write_start h.file + n;
      preallocated = p0.file.preallocated;
    }
    file_at =
        w.same_file
        ∙ ap
            (λ (f : FatFile). record f {
              cur_cluster = p0.file.cur_cluster;
              cur_position = f.cur_position + n;
            })
            x.same_file
        ∙ ap
            (λ b. record h.file {
              cur_cluster = p0.file.cur_cluster;
              cur_position = write_start h.file + n;
              preallocated = b;
            })
            (sym (ap (λ (f : FatFile). f.preallocated) w.same_file))

    end_position : p0.file.cur_position ≡ write_start h.file + n
    end_position = ap (λ (f : FatFile). f.cur_position) file_at

    size_at : p.file.file_size ≡ size
    size_at =
        let (_, _, _, _, _, _, e) = written_fields clock p0.file in
        let s : p0.file.file_size ≡ h.file.file_size = ap (λ (f : FatFile). f.file_size) file_at in
        e ∙ ground (arith, end_position, s)

    end_ready : IsReadyToWrite g cs p.file p.file.file_size
    end_ready =
        let (_, _, _, ec, ep, _, _) = written_fields clock p0.file in
        record {
          placed = record {
            inside = omega (arith, ep, size_at, w.ready.placed.inside);
            cluster = λ lo.
                ec
                ∙ w.ready.placed.cluster (omega (arith, ep))
                ∙ ap (λ t. cluster_at g cs ((t - 1) / 512)) (sym ep);
          };
          at_start = λ z. ec ∙ w.ready.at_start (omega (arith, ep, z));
        }

    end_stored : IsFile B g hg d cs p.vol.table p.file
    end_stored =
        let (ek, ef, er, _, _, _, _) = written_fields clock p0.file in
        SameFat-IsFile B g hg d cs (grown h.file size) p.file h.vol.table p0.vol.table
          (λ t f.
            w.wrote.others t (InFat-IsVisible B g hg f) (InFat-IsForeign B g hg d cs t f)
            ∙ x.kept.1 t (InFat-IsVisible B g hg f))
          (ek ∙ ap (λ (f : FatFile). f.kind) file_at) size_at
          (ef ∙ ap (λ (f : FatFile). f.first_cluster) file_at)
          (er ∙ ap (λ (f : FatFile). f.contiguous) file_at) big

    same_byte :
        (k : ℕ)
        → k < h.file.file_size
        → file_byte g (view B q.vol.table) cs k ≡ file_byte g (view B h.vol.table) cs k
    same_byte k lt =
        ap (λ (b : Bytes). b (k % 512))
          (x.kept.1 (data_sector g cs (k / 512))
            (data_sector-IsVisible B g hg d cs h.vol.table (k / 512) h.file i
              (cluster_number B g hg d cs h.vol.table h.file k i lt)).1)

    -- A byte of the file that the write does not replace is one that its rounds keep.
    outside :
        (k : ℕ)
        → k < h.file.file_size
        → (k < write_start h.file) ⊎ ((write_start h.file + n ≤ k) × (h.file.preallocated ≡ false))
        → (k < q.file.cur_position) ⊎ ((q.file.cur_position + n ≤ k) × IsDefined q.file k)
    outside k lt (inl a) = inl (omega (arith, at, a))
    outside k lt (inr a) = elim (Bool-cases h.file.append) [
      | inl e ↦ absurd (ground arith)
      | inr e ↦ inr (
        omega (arith, at, a.0),
        (omega (arith, lt, ap (λ (f : FatFile). f.file_size) x.same_file), x.same_mark e ∙ a.1),
      )
    ]

    pub HasWritten-Stores : Stores clock src n h p
    HasWritten-Stores = record {
      same_file =
          let (_, _, _, ec, _, em, _) = written_fields clock p0.file in
          ap (written B g hg clock) file_at
          ∙ ap
              (λ t. written B g hg clock (record h.file {
                cur_cluster = t;
                cur_position = write_start h.file + n;
                preallocated = p0.file.preallocated;
              }))
              (sym ec)
          ∙ ap
              (λ t. written B g hg clock (record h.file {
                cur_cluster = p.file.cur_cluster;
                cur_position = write_start h.file + n;
                preallocated = t;
              }))
              (sym em)
          ∙ written-members clock (record h.file {
            cur_cluster = p.file.cur_cluster;
            cur_position = write_start h.file + n;
            preallocated = p.file.preallocated;
          });
      stored = end_stored;
      ready = end_ready;
      mounted = w.wrote.mounted;
      content = λ k lt.
          w.wrote.content (write_start h.file + k) (ground arith) (omega (arith, at))
            (omega (arith, at))
          ∙ ap src {x = 0 + (write_start h.file + k - q.file.cur_position)} {y = k}
              (omega (arith, at));
      kept = λ k lt o. w.wrote.kept k (ground arith) (outside k lt o) ∙ same_byte k lt;
      others = λ t v fo. w.wrote.others t v fo ∙ x.kept.1 t v;
    }

  -- The file holds what has been written.
  pub Stores-file_size :
      (clock : Clock) (src : Bytes) (n : ℕ) (h p : Handle (FsCache Dev))
      → Stores clock src n h p
      → write_start h.file + n ≤ p.file.file_size
  Stores-file_size clock src n h p st =
      ground (arith, ap (λ (t : FatFile). t.file_size) st.same_file)
