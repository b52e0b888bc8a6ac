-- ===== src/ExFat/Chains.antt =====
-- src/ExFatLib/ExFatPartition.cpp: `freeChain` and `freeClusterCount`.
use sd_fat.Base.{
  ℕ, zero, suc, ◌+◌, ◌/◌, false, Method, done, stuck, bind, leb, ◌==◌, if◌then◌else◌, u32, sub32,
  bit_and,
}
use sd_fat.Endian.{Bytes}
use sd_fat.Device.{BlockDevice}
use sd_fat.Cache.{for_read, prepare}
use sd_fat.Fat.{eoc, next}
use sd_fat.ExFat.{Layout, ExFatPartition, on_cache, fat_get, fat_put}
use sd_fat.ExFat.Bitmap.{mask, bitmap_modify}

-- The bits below `n` that are set.
unfoldable pub bits_set : ℕ → ℕ → ℕ
bits_set zero x = 0
bits_set (suc n) x = bits_set n x + (if bit_and (mask n) x == 0 then 0 else 1)

-- What one byte adds to `usedCount`.
unfoldable pub byte_bits : ℕ → ℕ
unfolding bits_set
byte_bits x = if x == 0xFF then 8 else bits_set 8 x

-- What counting the bytes of one sector leaves: the free clusters, or `nc` and `usedCount`.
pub data Count : Type 0 where
  counted : ℕ → Count
  uncounted : ℕ → ℕ → Count

-- The `n` bytes of a sector from `i` on.
unfoldable pub count_bytes : Layout → ℕ → ℕ → ℕ → ℕ → Bytes → Count
unfolding byte_bits
count_bytes v zero i nc used cache = uncounted nc used
count_bytes v (suc n) i nc used cache =
    let used' = u32 (used + byte_bits (cache i)) in
    let nc' = u32 (nc + 8) in
    let rest = count_bytes v n (i + 1) nc' used' cache in
    if leb v.cluster_count nc' then counted (sub32 v.cluster_count used') else rest

module _ (B : BlockDevice) (v : Layout) where
  open B use {Dev}

  -- The loop of `freeChain`, with rounds for fuel.
  unfoldable pub free_rounds : ℕ → ℕ → ℕ → Method (ExFatPartition Dev) (Unit {0})
  free_rounds zero start cluster p = stuck
  free_rounds (suc fuel) start cluster p = bind (fat_get B v cluster p) (λ l q.
      bind (fat_put B v cluster 0 q) (λ _ r.
        let clear = bitmap_modify B v start (u32 (sub32 cluster start + 1)) false in
        elim l [
          | eoc ↦ clear r
          | next d ↦
              let on = free_rounds fuel start d r in
              let behind = bind (clear r) (λ _. free_rounds fuel d d) in
              if u32 (cluster + 1) == d then on else behind
        ]))

  unfoldable pub free_chain : ℕ → Method (ExFatPartition Dev) (Unit {0})
  unfolding free_rounds
  free_chain cluster = free_rounds (v.cluster_count + 3) cluster cluster

  -- The loop of `freeClusterCount` over sectors, with rounds for fuel.
  unfoldable pub count_rounds : ℕ → ℕ → ℕ → ℕ → Method (ExFatPartition Dev) ℕ
  unfolding count_bytes
  count_rounds zero sector nc used p = stuck
  count_rounds (suc fuel) sector nc used p = bind (on_cache (prepare B sector for_read) p) (λ _ q.
      elim (count_bytes v 512 0 nc used q.cache.buffer) [
        | counted n ↦ done n q
        | uncounted nc used ↦ count_rounds fuel (u32 (sector + 1)) nc used q
      ])

  -- An error is the result -1.
  unfoldable pub free_cluster_count : Method (ExFatPartition Dev) ℕ
  unfolding count_rounds
  free_cluster_count = count_rounds (v.cluster_count / 4096 + 1) v.cluster_heap_start_sector 0 0
