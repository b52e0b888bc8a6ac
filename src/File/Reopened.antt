-- ===== src/File/Reopened.antt =====
-- The entry that `sync` stores, read back by `openCachedEntry`.
use sd_fat.Base.{
  ℕ, ◌+◌, ◌*◌, ◌/◌, ◌%◌, ◌^◌, ◌≤◌, ◌<◌, ◌≡◌, ◌⊎◌, inl, inr, refl, sym, ◌∙◌, ap, arith, Bool, true,
  false, none, some, ◌==◌, if◌then◌else◌, bit_and, bit_or, u8, u32, ◌<<<◌, ◌>>>◌, done, fail, not,
}
use sd_fat.Base.Bits.{and_low, or_fields}
use sd_fat.Endian.{Bytes, poke, get_le16, get_le32, set_le16, set_le32}
use sd_fat.Endian.Laws.{get_le16-set_le16, get_le32-set_le32, set_le16_frame, set_le32_frame}
use sd_fat.Device.{BlockDevice}
use sd_fat.Cache.{FsCache}
use sd_fat.Fat.{Geometry}
use sd_fat.Fat.Layout.{IsGeometry}
use sd_fat.File.{
  FatFile, Kind, Handle, plain_file, sub_dir, is_file, is_sub_dir, set_file, on_failure,
}
use sd_fat.File.Open.{OpenFlags, read_only, opened, open_clusters, open_cached_entry}
use sd_fat.File.Entry.{
  Clock, entry_place, is_fat_file_or_subdir, attributes, blank, set_closed, entry_cluster,
  is_fat_file, put_clock, put_entry,
}

get_le16-same :
    (b b' : Bytes) (i : ℕ) → b' i ≡ b i → b' (i + 1) ≡ b (i + 1) → get_le16 b' i ≡ get_le16 b i
unfolding get_le16
get_le16-same b b' i p q = rw (p, q) refl

get_le32-same :
    (b b' : Bytes) (i : ℕ)
    → ((k : ℕ) → i ≤ k → k < i + 4 → b' k ≡ b k)
    → get_le32 b' i ≡ get_le32 b i
unfolding get_le32
get_le32-same b b' i s =
    rw
      (
        s i (omega arith) (omega arith),
        s (i + 1) (omega arith) (omega arith),
        s (i + 2) (omega arith) (omega arith),
        s (i + 3) (omega arith) (omega arith),
      )
      refl

-- The fields that the clock stores are bytes 18, 19 and 22 to 25.
put_clock_frame :
    (clock : Clock) (b : Bytes) (i k : ℕ)
    → (k < i + 18) ⊎ (((i + 20 ≤ k) × (k < i + 22)) ⊎ (i + 26 ≤ k))
    → put_clock clock b i k ≡ b k
put_clock_frame none b i k o = refl
put_clock_frame (some (date, time)) b i k o =
    set_le16_frame (set_le16 (set_le16 b (i + 24) date) (i + 18) date) (i + 22) time k
      (ground arith)
    ∙ set_le16_frame (set_le16 b (i + 24) date) (i + 18) date k (ground arith)
    ∙ set_le16_frame b (i + 24) date k (ground arith)

-- The bits that a user sets: read-only, hidden, system and archive.
abbrev pub user_bits : Bool → Bool → Bool → Bool → ℕ
user_bits r h s a =
    (if r then 1 else 0) + (if h then 2 else 0) + (if s then 4 else 0) + (if a then 32 else 0)

user_bits-kept :
    (r h s a : Bool)
    → let n = user_bits r h s a in
      (n < 256) × (bit_and n 0x27 ≡ n) × (bit_and n 0x18 ≡ 0) × (bit_and n 0x08 ≡ 0)
user_bits-kept true true true true = (omega arith, refl, refl, refl)
user_bits-kept true true true false = (omega arith, refl, refl, refl)
user_bits-kept true true false true = (omega arith, refl, refl, refl)
user_bits-kept true true false false = (omega arith, refl, refl, refl)
user_bits-kept true false true true = (omega arith, refl, refl, refl)
user_bits-kept true false true false = (omega arith, refl, refl, refl)
user_bits-kept true false false true = (omega arith, refl, refl, refl)
user_bits-kept true false false false = (omega arith, refl, refl, refl)
user_bits-kept false true true true = (omega arith, refl, refl, refl)
user_bits-kept false true true false = (omega arith, refl, refl, refl)
user_bits-kept false true false true = (omega arith, refl, refl, refl)
user_bits-kept false true false false = (omega arith, refl, refl, refl)
user_bits-kept false false true true = (omega arith, refl, refl, refl)
user_bits-kept false false true false = (omega arith, refl, refl, refl)
user_bits-kept false false false true = (omega arith, refl, refl, refl)
user_bits-kept false false false false = (omega arith, refl, refl, refl)

module _ (clock : Clock) (f : FatFile) (b : Bytes) (i : ℕ) (plain : f.kind ≡ plain_file) where
  abbrev with_attributes : Bytes
  with_attributes = poke b (i + 11) (attributes f)

  abbrev with_size : Bytes
  with_size = set_le32 with_attributes (i + 28) f.file_size

  abbrev with_low : Bytes
  with_low = set_le16 with_size (i + 26) (bit_and f.first_cluster 0xFFFF)

  abbrev with_cluster : Bytes
  with_cluster = set_le16 with_low (i + 20) (f.first_cluster >>> 16)

  stored : put_entry clock f b i ≡ put_clock clock with_cluster i
  unfolding put_entry
  stored =
      ap
        (λ (k : Kind).
          put_clock clock
            (set_le16
              (set_le16
                (if is_file k
                  then set_le32 with_attributes (i + 28) f.file_size
                  else with_attributes)
                (i + 26) (bit_and f.first_cluster 0xFFFF))
              (i + 20) (f.first_cluster >>> 16))
            i)
        plain

  size-at : f.file_size < 2 ^ 32 → get_le32 (put_entry clock f b i) (i + 28) ≡ f.file_size
  size-at lt =
      get_le32-same with_size (put_entry clock f b i) (i + 28) (λ k lo hi.
        ap (λ t. t k) stored
        ∙ put_clock_frame clock with_cluster i k (inr (inr (omega arith)))
        ∙ set_le16_frame with_low (i + 20) (f.first_cluster >>> 16) k (inr (omega arith))
        ∙ set_le16_frame with_size (i + 26) (bit_and f.first_cluster 0xFFFF) k (inr (omega arith)))
      ∙ get_le32-set_le32 with_attributes (i + 28) f.file_size
      ∙ omega arith

  low-at : get_le16 (put_entry clock f b i) (i + 26) ≡ f.first_cluster % 2 ^ 16
  low-at =
      get_le16-same with_low (put_entry clock f b i) (i + 26) (same (i + 26) (omega arith))
        (same (i + 26 + 1) (omega arith))
      ∙ get_le16-set_le16 with_size (i + 26) (bit_and f.first_cluster 0xFFFF)
      ∙ omega (arith, and_low 16 f.first_cluster)
    where
      same : (k : ℕ) → i + 26 ≤ k → put_entry clock f b i k ≡ with_low k
      same k lo =
          ap (λ t. t k) stored
          ∙ put_clock_frame clock with_cluster i k (inr (inr lo))
          ∙ set_le16_frame with_low (i + 20) (f.first_cluster >>> 16) k (inr (omega arith))

  high-at :
      f.first_cluster < 2 ^ 32
      → get_le16 (put_entry clock f b i) (i + 20) ≡ f.first_cluster / 2 ^ 16
  high-at lt =
      get_le16-same with_cluster (put_entry clock f b i) (i + 20)
        (same (i + 20) (omega arith) (omega arith)) (same (i + 20 + 1) (omega arith) (omega arith))
      ∙ get_le16-set_le16 with_low (i + 20) (f.first_cluster >>> 16)
      ∙ omega arith
    where
      same : (k : ℕ) → i + 20 ≤ k → k < i + 22 → put_entry clock f b i k ≡ with_cluster k
      same k lo hi =
          ap (λ t. t k) stored ∙ put_clock_frame clock with_cluster i k (inr (inl (lo, hi)))

  attributes-at : put_entry clock f b i (i + 11) ≡ u8 (attributes f)
  attributes-at =
      ap (λ t. t (i + 11)) stored
      ∙ put_clock_frame clock with_cluster i (i + 11) (inl (omega arith))
      ∙ set_le16_frame with_low (i + 20) (f.first_cluster >>> 16) (i + 11) (inl (omega arith))
      ∙ set_le16_frame with_size (i + 26) (bit_and f.first_cluster 0xFFFF) (i + 11)
          (inl (omega arith))
      ∙ set_le32_frame with_attributes (i + 28) f.file_size (i + 11) (inl (omega arith))
      ∙ ground arith

  cluster-at : f.first_cluster < 2 ^ 32 → entry_cluster (put_entry clock f b i) i ≡ f.first_cluster
  cluster-at lt =
      rw (high-at lt, low-at)
        (ap (λ t. bit_or t (f.first_cluster % 2 ^ 16)) {x = u32 ((f.first_cluster / 2 ^ 16) <<< 16)}
            {y = f.first_cluster / 2 ^ 16 * 2 ^ 16} (omega arith)
          ∙ or_fields 16 (f.first_cluster / 2 ^ 16) (f.first_cluster % 2 ^ 16) (omega arith)
          ∙ omega arith)

  bits-at : (n : ℕ) → f.attrib ≡ n → n < 256 → put_entry clock f b i (i + 11) ≡ n
  bits-at n e lt =
      attributes-at
      ∙ ap (λ (k : Kind). u8 (bit_or f.attrib (if is_sub_dir k then 0x10 else 0))) plain
      ∙ ap (λ t. u8 (bit_or t 0)) (e ∙ omega arith)
      ∙ ap u8 (or_fields 0 n 0 (omega arith))
      ∙ omega arith

abbrev pub to_read : OpenFlags
to_read = record { mode = read_only; truncates = false; appends = false; at_end = false }

module _ (B : BlockDevice) (g : Geometry) (hg : IsGeometry g) where
  open B use {Dev}

  -- `openCachedEntry` for reading, of an entry in the cache that `sync` stored for a regular file
  -- (whose first cluster and size fit 32 bits, and whose attributes are those that a user sets),
  -- succeeds with the first cluster, the size and the attributes of that file, at position 0, and
  -- changes nothing of the volume.
  pub open_cached_entry-put_entry :
      (clock : Clock) (f dir : FatFile) (b : Bytes) (index lfn_ord : ℕ) (r s t a : Bool)
      (h : Handle (FsCache Dev))
      → f.kind ≡ plain_file
      → f.first_cluster < 2 ^ 32
      → f.file_size < 2 ^ 32
      → f.attrib ≡ user_bits r s t a
      → h.vol.table.buffer ≡ put_entry clock f b (entry_place index)
      → (q : Handle (FsCache Dev)) × (open_cached_entry B g hg dir index to_read lfn_ord h
          ≡ done tt q)
        × (q.file.kind ≡ plain_file)
        × (q.file.attrib ≡ f.attrib)
        × (q.file.first_cluster ≡ f.first_cluster)
        × (q.file.file_size ≡ f.file_size)
        × (q.file.cur_position ≡ 0)
        × (q.vol ≡ h.vol)
  unfolding open_cached_entry open_clusters
  open_cached_entry-put_entry clock f dir b index lfn_ord r s t a h plain fc fs bits e =
      let i = entry_place index in
      let (lt, k27, k18, k8) = user_bits-kept r s t a in
      let at : h.vol.table.buffer (i + 11) ≡ user_bits r s t a =
        ap (λ x. x (i + 11)) e ∙ bits-at clock f b i plain (user_bits r s t a) bits lt in
      let file : is_fat_file h.vol.table.buffer i ≡ true =
        ap (λ x. bit_and x 0x18 == 0) at ∙ ap (λ x. x == 0) k18 in
      let entry : is_fat_file_or_subdir h.vol.table.buffer i ≡ true =
        ap (λ x. bit_and x 0x08 == 0) at ∙ ap (λ x. x == 0) k8 in
      (
        end,
        ap
            (λ (x : Bool).
              on_failure (set_file set_closed) (if not x then fail start else done tt end))
            entry,
        ap (λ (x : Bool). if x then plain_file else sub_dir) file,
        ap (λ x. bit_and x 0x27) at ∙ k27 ∙ sym bits,
        ap (λ x. entry_cluster x i) e ∙ cluster-at clock f b i plain fc,
        ap (λ x. get_le32 x (i + 28)) e ∙ size-at clock f b i plain fs,
        refl,
        refl,
      )
    where
      start : Handle (FsCache Dev)
      start = record h {
        file = record blank { dir_index = index; dir_cluster = dir.first_cluster };
      }

      end : Handle (FsCache Dev)
      end =
          set_file
            (λ x. record (opened h.vol.table.buffer (entry_place index) to_read lfn_ord x) {
              dir_sector = h.vol.table.sector;
              first_cluster = entry_cluster h.vol.table.buffer (entry_place index);
              file_size = get_le32 h.vol.table.buffer (entry_place index + 28);
            })
            start
