-- ===== src/ExFat/Tests.antt =====
-- Runs of the allocation bitmap on a small volume in memory.
use sd_fat.Base.{
  ℕ, zero, suc, ◌+◌, ◌-◌, ◌≤◌, ◌<◌, ◌≡◌, ◌≢◌, refl, ap, ◌∙◌, arith, true, false, ◌&&◌, ◌||◌, ◌==◌,
  if◌then◌else◌, Outcome, done, fail, stuck,
}
use sd_fat.Endian.{Bytes, get_le32}
use sd_fat.Device.Ram.{Ram, ram_device}
use sd_fat.Cache.{no_sector, init, invalidate, sync, mirror_fat, fetch, prepare}
use sd_fat.Cache.View.{view}
use sd_fat.ExFat.{Layout, ExFatPartition}
use sd_fat.ExFat.Bitmap.{
  scan_bits, flip_bits, find_rounds, bitmap_find, modify_rounds, bitmap_modify,
}
use sd_fat.ExFat.Chains.{bits_set, byte_bits, count_bytes, count_rounds, free_cluster_count}
use sd_fat.ExFat.Count.{used_below}
use sd_fat.ExFat.Counted.{free_cluster_count_sum}
use sd_fat.ExFat.Mount.{part_start, first_search, read_layout, mount_exfat}
use sd_fat.ExFat.Mounted.{Mounted, mount_exfat-Mounted}
use sd_fat.ExFat.State.{IsVolume, bitmap_bit, IsReady, SameView}
use sd_fat.ExFat.Find.{Found}
use sd_fat.ExFat.Found.{Works, bitmap_find-Found, bitmap_find-ends, bitmap_find_hangs}
use sd_fat.ExFat.Modify.{Changed, bitmap_modify-Changed}
use sd_fat.ExFat.Taken.{Taken, find_modify-Taken, modify_modify, bitmap_modify-ends}

abbrev state_of :
    {A : Type 0} → ExFatPartition Ram → Outcome (ExFatPartition Ram) A → ExFatPartition Ram
state_of p (done a q) = q
state_of p (fail q) = q
state_of p stuck = p

-- Ten clusters.
abbrev ten_clusters : Layout
ten_clusters = record {
  fat_start_sector = 1;
  fat_length = 1;
  cluster_heap_start_sector = 3;
  cluster_count = 10;
  root_directory_cluster = 5;
  sectors_per_cluster_shift = 0;
}

ten_clusters-IsVolume : IsVolume ten_clusters
ten_clusters-IsVolume = record {
  some_clusters = omega arith;
  small = omega arith;
  table = omega arith;
  bitmap = omega arith;
}

-- The first bytes of the bitmap are `a` and `b`, and `m_bitmapStart` is `start`.
abbrev with_bits : ℕ → ℕ → ℕ → ExFatPartition Ram
with_bits a b start = record {
  bitmap_start = start;
  cache = record {
    dirty = false;
    mirror = false;
    attached = true;
    device = record {
      cells = λ s i. if s == 3 && i == 0 then a else if s == 3 && i == 1 then b else 0;
      bad = λ _. false;
    };
    sector = no_sector;
    mirror_offset = 0;
    buffer = λ _. 0;
  };
}

with_bits-IsReady : (a b start : ℕ) → IsReady ram_device (with_bits a b start).cache
with_bits-IsReady a b start = record {
  coherent = record { bytes = λ i. omega arith; clean = λ _ ne. absurd (ne refl) };
  no_mirror = refl;
}

-- Clusters 5, 8 and 9 are free.
abbrev three_free : ExFatPartition Ram
three_free = with_bits 0x37 0x03 1

found_two : ExFatPartition Ram
found_two = state_of three_free (bitmap_find ram_device ten_clusters 0 2 three_free)

bitmap_find-Found_example :
    Found ram_device ten_clusters ten_clusters-IsVolume three_free.cache false 1 2 8 three_free
      found_two
unfolding bitmap_find find_rounds scan_bits prepare sync mirror_fat fetch found_two
bitmap_find-Found_example =
    bitmap_find-Found ram_device ten_clusters ten_clusters-IsVolume 0 2 three_free
      (with_bits-IsReady 0x37 0x03 1) (omega arith) refl

bitmap_find-ends_example : bitmap_find ram_device ten_clusters 0 2 three_free ≢ stuck
bitmap_find-ends_example =
    bitmap_find-ends ram_device ten_clusters ten_clusters-IsVolume 0 2 three_free
      (with_bits-IsReady 0x37 0x03 1) (omega arith) (omega arith)

-- No cluster is free, and the search begins at the first.
abbrev full : ExFatPartition Ram
full = with_bits 0xFF 0x03 0

all_used : (i : ℕ) → i < 10 → bitmap_bit ten_clusters (view ram_device full.cache) i ≢ 0
all_used zero lt = λ e. omega (arith, e)
all_used (suc zero) lt = λ e. omega (arith, e)
all_used (suc (suc zero)) lt = λ e. omega (arith, e)
all_used (suc (suc (suc zero))) lt = λ e. omega (arith, e)
all_used (suc (suc (suc (suc zero)))) lt = λ e. omega (arith, e)
all_used (suc (suc (suc (suc (suc zero))))) lt = λ e. omega (arith, e)
all_used (suc (suc (suc (suc (suc (suc zero)))))) lt = λ e. omega (arith, e)
all_used (suc (suc (suc (suc (suc (suc (suc zero))))))) lt = λ e. omega (arith, e)
all_used (suc (suc (suc (suc (suc (suc (suc (suc zero)))))))) lt = λ e. omega (arith, e)
all_used (suc (suc (suc (suc (suc (suc (suc (suc (suc zero))))))))) lt = λ e. omega (arith, e)
all_used (suc (suc (suc (suc (suc (suc (suc (suc (suc (suc i)))))))))) lt = absurd (omega arith)

-- A device whose reads succeed, and stay so.
abbrev AllGood : Ram → Type 0
AllGood r = (s : ℕ) → r.bad s ≡ false

good_read :
    (r : Ram) (s : ℕ) (b : Bytes)
    → AllGood r
    → ((ram_device.read_sector r s b).0 ≡ true) × AllGood (ram_device.read_sector r s b).2
good_read r s b h = (ground (arith, h s), h)

bitmap_find_hangs_example : find_rounds ram_device ten_clusters 21 true 0 1 0 0 0 full ≡ stuck
bitmap_find_hangs_example =
    bitmap_find_hangs ram_device ten_clusters ten_clusters-IsVolume AllGood good_read 0 1 full
      (with_bits-IsReady 0xFF 0x03 0) full-Works (omega arith) refl all_used 21
  where
    full-Works : Works ram_device ten_clusters ten_clusters-IsVolume AllGood full.cache
    full-Works = record { attached = refl; clean = refl; good = λ s. refl }

taken : ExFatPartition Ram
taken = state_of found_two (bitmap_modify ram_device ten_clusters 8 2 true found_two)

find_modify-Taken_example :
    Taken ram_device ten_clusters ten_clusters-IsVolume 8 2 three_free.cache taken.cache
unfolding bitmap_find find_rounds scan_bits bitmap_modify modify_rounds flip_bits prepare sync
    mirror_fat fetch found_two taken
find_modify-Taken_example =
    find_modify-Taken ram_device ten_clusters ten_clusters-IsVolume 0 2 three_free
      (with_bits-IsReady 0x37 0x03 1) (omega arith) refl (omega arith) refl

-- Clusters 8 and 9 taken at once, and given back.
both : ExFatPartition Ram
both = state_of three_free (bitmap_modify ram_device ten_clusters 8 2 true three_free)

neither : ExFatPartition Ram
neither = state_of both (bitmap_modify ram_device ten_clusters 8 2 false both)

modify_modify_example :
    ((i : ℕ)
      → i < 10
      → bitmap_bit ten_clusters (view ram_device neither.cache) i
        ≡ bitmap_bit ten_clusters (view ram_device three_free.cache) i)
    × (neither.bitmap_start ≤ 6)
unfolding bitmap_modify modify_rounds flip_bits prepare sync mirror_fat fetch both neither
modify_modify_example =
    modify_modify ram_device ten_clusters ten_clusters-IsVolume 8 2 three_free
      (with_bits-IsReady 0x37 0x03 1) (omega arith) (omega arith) (omega arith) refl refl

bitmap_modify-Changed_example :
    (6 + 2 ≤ 10)
    × Changed ram_device ten_clusters ten_clusters-IsVolume true 6 2 three_free.cache both.cache
    × (both.bitmap_start ≡ 1)
unfolding bitmap_modify modify_rounds flip_bits prepare sync mirror_fat fetch both
bitmap_modify-Changed_example =
    bitmap_modify-Changed ram_device ten_clusters ten_clusters-IsVolume 8 2 true three_free
      (with_bits-IsReady 0x37 0x03 1) (omega arith) (omega arith) (omega arith) refl

bitmap_modify-ends_example : bitmap_modify ram_device ten_clusters 8 2 true three_free ≢ stuck
bitmap_modify-ends_example =
    bitmap_modify-ends ram_device ten_clusters ten_clusters-IsVolume 8 2 true three_free
      (with_bits-IsReady 0x37 0x03 1) (omega arith) (omega arith) (omega arith)

-- A device whose sector 0 is the boot sector of the ten clusters, of which 3 are free.
abbrev boot_byte : ℕ → ℕ
boot_byte i =
    if i == 3
    then 0x45
    else if i == 4
    then 0x58
    else if i == 5
    then 0x46
    else if i == 6
    then 0x41
    else if i == 7
    then 0x54
    else if i == 80 || i == 84
    then 1
    else if i == 88
    then 3
    else if i == 92
    then 10
    else if i == 96
    then 5
    else if i == 108
    then 9
    else 0

abbrev booting : Ram
booting = record {
  cells = λ s i.
      if s == 0
      then boot_byte i
      else if s == 3 && i == 0
      then 0x37
      else if s == 3 && i == 1
      then 0x03
      else 0;
  bad = λ _. false;
}

started : ExFatPartition Ram
started = state_of full (mount_exfat ram_device true booting 0 0 full)

mount_exfat-Mounted_example : Mounted ram_device booting 0 ten_clusters started
unfolding mount_exfat part_start read_layout first_search bitmap_find find_rounds scan_bits prepare
    sync mirror_fat fetch init invalidate started get_le32
mount_exfat-Mounted_example =
    mount_exfat-Mounted ram_device true booting 0 0 full (λ i. omega arith) (omega arith)
      ten_clusters-IsVolume refl

-- The bits behind the last of the ten clusters.
late_bits :
    (k : ℕ) → k < 6 → bitmap_bit ten_clusters (view ram_device three_free.cache) (10 + k) ≡ 0
late_bits zero lt = refl
late_bits (suc zero) lt = refl
late_bits (suc (suc zero)) lt = refl
late_bits (suc (suc (suc zero))) lt = refl
late_bits (suc (suc (suc (suc zero)))) lt = refl
late_bits (suc (suc (suc (suc (suc zero))))) lt = refl
late_bits (suc (suc (suc (suc (suc (suc k)))))) lt = absurd (omega (arith, lt))

padding :
    (i : ℕ) → 10 ≤ i → i < 16 → bitmap_bit ten_clusters (view ram_device three_free.cache) i ≡ 0
padding i lo hi =
    ap (bitmap_bit ten_clusters (view ram_device three_free.cache)) {x = i} {y = 10 + (i - 10)}
      (omega arith)
    ∙ late_bits (i - 10) (omega (arith, lo, hi))

-- The count of the three.
three_counted : ExFatPartition Ram
three_counted = state_of three_free (free_cluster_count ram_device ten_clusters three_free)

free_cluster_count_sum_example :
    (3 + used_below ten_clusters (view ram_device three_free.cache) 10 ≡ 10)
    × IsReady ram_device three_counted.cache
    × SameView ram_device three_free.cache three_counted.cache
unfolding free_cluster_count count_rounds count_bytes byte_bits bits_set prepare sync mirror_fat
    fetch three_counted
free_cluster_count_sum_example =
    free_cluster_count_sum ram_device ten_clusters ten_clusters-IsVolume three_free
      (with_bits-IsReady 0x37 0x03 1) padding refl
