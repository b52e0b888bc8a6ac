-- ===== src/ExFat/Bitmap.antt =====
-- src/ExFatLib/ExFatPartition.cpp: `bitmapFind`, `bitmapModify`, and what uses the allocation bitmap.
-- The two loops over the bytes of a sector and the bits of a byte are one over the bits of the sector.
use sd_fat.Base.{
  ℕ, zero, suc, ◌+◌, ◌-◌, ◌*◌, ◌/◌, ◌%◌, ◌^◌, Bool, not, ◌&&◌, Method, done, fail, stuck, bind, ltb,
  leb, ◌==◌, if◌then◌else◌, u32, sub32, ◌>>>◌, bit_and,
}
use Prim.Native.Nat.{bit_xor}
use sd_fat.Endian.{Bytes}
use sd_fat.Device.{BlockDevice}
use sd_fat.Cache.{for_read, for_write, prepare}
use sd_fat.ExFat.{Layout, ExFatPartition, on_cache, on_buffer}

-- `mask` at bit `j` of a sector.
abbrev pub mask : ℕ → ℕ
mask j = 2 ^ (j % 8)

-- The bit of a cluster number, less 2, in its sector.
abbrev pub bit_place : ℕ → ℕ
bit_place n = 8 * bit_and (n >>> 3) 511 + bit_and n 7

abbrev pub bitmap_sector : Layout → ℕ → ℕ
bitmap_sector v n = u32 (v.cluster_heap_start_sector + n >>> 12)

-- What the search of one sector finds: the place of enough free clusters, the end of the search, or
-- `endAlloc` and `bgnAlloc` for the next sector.
pub data Scan : Type 0 where
  found : ℕ → Scan
  no_space : Scan
  more : ℕ → ℕ → Scan

-- The search in the `n` bits of a sector from `j` on.
unfoldable pub scan_bits : Layout → ℕ → ℕ → Bytes → ℕ → ℕ → ℕ → ℕ → Scan
scan_bits v start count cache zero j e b = more e b
scan_bits v start count cache (suc n) j e b =
    let e' = u32 (e + 1) in
    let free = bit_and (mask j) (cache (j / 8)) == 0 in
    let rest = scan_bits v start count cache n (j + 1) e' (if free then b else e') in
    if free && sub32 e' b == count
    then found b
    else if e' == start
    then no_space
    else if leb v.cluster_count e'
    then more 0 0
    else rest

-- What changing the bits of one sector leaves: the buffer, and in the end the count to go.
pub data Flip : Type 0 where
  mismatch : Bytes → Flip
  finished : Bytes → Flip
  unfinished : Bytes → ℕ → Flip

abbrev pub set_byte : Bytes → ℕ → ℕ → Bytes
set_byte b i x k = if k == i then x else b k

unfoldable pub flip_bits : Bool → ℕ → ℕ → ℕ → Bytes → Flip
flip_bits value zero j count cache = unfinished cache count
flip_bits value (suc n) j count cache =
    let used = not (bit_and (cache (j / 8)) (mask j) == 0) in
    let cache' = set_byte cache (j / 8) (bit_xor (cache (j / 8)) (mask j)) in
    let rest = flip_bits value n (j + 1) (sub32 count 1) cache' in
    if (if value then used else not used)
    then mismatch cache
    else if sub32 count 1 == 0
    then finished cache'
    else rest

module _ (B : BlockDevice) (v : Layout) where
  open B use {Dev}

  -- The loop of `bitmapFind`, with rounds for fuel; `note` says that the start is to be noted.
  unfoldable pub find_rounds : ℕ → Bool → ℕ → ℕ → ℕ → ℕ → ℕ → Method (ExFatPartition Dev) ℕ
  find_rounds zero note start count j e b p = stuck
  find_rounds (suc fuel) note start count j e b p =
      bind (on_cache (prepare B (bitmap_sector v e) for_read) p) (λ _ q.
        elim (scan_bits v start count q.cache.buffer (4096 - j) j e b) [
          | found b ↦ done (u32 (b + 2)) (if note then record q { bitmap_start = b } else q)
          | no_space ↦ done 1 q
          | more e b ↦ find_rounds fuel note start count 0 e b q
        ])

  abbrev pub find_start : ℕ → ExFatPartition Dev → ℕ
  find_start cluster p =
      let start = if cluster == 0 then p.bitmap_start else sub32 cluster 2 in
      if leb v.cluster_count start then 0 else start

  -- An error is the result 0, and 1 is no space.
  unfoldable pub bitmap_find : ℕ → ℕ → Method (ExFatPartition Dev) ℕ
  unfolding find_rounds
  bitmap_find cluster count p =
      let start = find_start cluster p in
      find_rounds (2 * v.cluster_count + 1) (cluster == 0 && count == 1) start count
        (bit_place start) start start p

  -- The loop of `bitmapModify`, with rounds for fuel.
  unfoldable pub modify_rounds : ℕ → Bool → ℕ → ℕ → ℕ → Method (ExFatPartition Dev) (Unit {0})
  modify_rounds zero value sector j count p = stuck
  modify_rounds (suc fuel) value sector j count p =
      bind (on_cache (prepare B sector for_write) p) (λ _ q.
        elim (flip_bits value (4096 - j) j count q.cache.buffer) [
          | mismatch b ↦ fail (on_buffer (λ _. b) q)
          | finished b ↦ done tt (on_buffer (λ _. b) q)
          | unfinished b n ↦ modify_rounds fuel value (u32 (sector + 1)) 0 n (on_buffer (λ _. b) q)
        ])

  -- `m_bitmapStart` after `count` clusters from `start` on are taken, or given back.
  abbrev pub moved_start : Bool → ℕ → ℕ → ℕ → ℕ
  moved_start value start count old =
      if value
      then (if leb start old && ltb old (u32 (start + count))
          then (if ltb (u32 (start + count)) v.cluster_count then u32 (start + count) else 0)
          else old)
      else if ltb start old
      then start
      else old

  unfoldable pub bitmap_modify : ℕ → ℕ → Bool → Method (ExFatPartition Dev) (Unit {0})
  unfolding modify_rounds
  bitmap_modify cluster count value p =
      let start = sub32 cluster 2 in
      let change =
        modify_rounds (sub32 count 1 / 4096 + 2) value (bitmap_sector v start) (bit_place start)
          count (record p { bitmap_start = moved_start value start count p.bitmap_start }) in
      if ltb v.cluster_count (u32 (start + count)) then fail p else change
