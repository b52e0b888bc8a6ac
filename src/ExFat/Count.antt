-- ===== src/ExFat/Count.antt =====
-- `freeClusterCount` counts the bits of the allocation bitmap.
use sd_fat.Base.{
  ℕ, zero, suc, ◌+◌, ◌*◌, ◌/◌, ◌%◌, ◌^◌, ◌≤◌, ◌<◌, ◌≡◌, refl, sym, ◌∙◌, ap, arith, Bool, true,
  false, Bool-cases, inl, inr, ◌==◌, leb, if◌then◌else◌, u32, sub32, bit_and, ==→eq,
}
use sd_fat.Base.Digit.{digit}
use sd_fat.Endian.{Bytes}
use sd_fat.Device.{Sectors}
use sd_fat.ExFat.{Layout}
use sd_fat.ExFat.Chains.{bits_set, byte_bits, Count, counted, uncounted, count_bytes}
use sd_fat.ExFat.Scan.{mask_test}
use sd_fat.ExFat.State.{IsVolume, bitmap_bit}

-- The digits of a number below `n`, added up.
digits : ℕ → ℕ → ℕ
digits zero x = 0
digits (suc n) x = digits n x + digit x n

-- The clusters below `n`, less 2, whose bits are set.
pub used_below : Layout → Sectors → ℕ → ℕ
used_below v m zero = 0
used_below v m (suc n) = used_below v m n + bitmap_bit v m n

mask_bit : (n x : ℕ) → (if bit_and (2 ^ n) x == 0 then 0 else 1) ≡ digit x n
mask_bit n x = ground (arith, mask_test n x)

bits_set-digits : (n x : ℕ) → n ≤ 8 → bits_set n x ≡ digits n x
unfolding bits_set digits
bits_set-digits zero x le = refl
bits_set-digits (suc n) x le = ground (arith, bits_set-digits n x (omega arith), mask_bit n x)

byte_bits-digits : (x : ℕ) → byte_bits x ≡ digits 8 x
unfolding digits byte_bits
byte_bits-digits x = elim (Bool-cases (x == 0xFF)) [
  | inl e ↦ rw (==→eq x 0xFF e)
  | inr ne ↦ ground (arith, bits_set-digits 8 x (omega arith))
]

bit_in_byte :
    (v : Layout) (m : Sectors) (k n : ℕ)
    → n < 8
    → bitmap_bit v m (8 * k + n) ≡ digit (m (v.cluster_heap_start_sector + k / 512) (k % 512)) n
bit_in_byte v m k n lt =
    let sector : (8 * k + n) / 4096 ≡ k / 512 = omega arith in
    let byte : (8 * k + n) / 8 ≡ k = omega arith in
    let place : (8 * k + n) % 8 ≡ n = omega arith in rw (sector, byte, place)

used_below-byte :
    (v : Layout) (m : Sectors) (k n : ℕ)
    → n ≤ 8
    → used_below v m (8 * k + n)
      ≡ used_below v m (8 * k) + digits n (m (v.cluster_heap_start_sector + k / 512) (k % 512))
unfolding digits used_below
used_below-byte v m k zero le = ground arith
used_below-byte v m k (suc n) le =
    ap (used_below v m) {x = 8 * k + suc n} {y = suc (8 * k + n)} (omega arith)
    ∙ ap (λ b. used_below v m (8 * k + n) + b) (bit_in_byte v m k n (omega arith))
    ∙ ground (arith, used_below-byte v m k n (omega arith))

-- What the bytes of sector `t` of the bitmap from byte `i` on give, when the clusters in front of
-- them are counted.
abbrev pub Counted : Layout → Sectors → ℕ → Count → Type 0
Counted v m t (counted n) =
    n ≡ sub32 v.cluster_count (used_below v m (8 * ((v.cluster_count + 7) / 8)))
Counted v m t (uncounted nc used) =
    (nc ≡ 4096 * (t + 1)) × (used ≡ used_below v m (4096 * (t + 1))) × (nc < v.cluster_count)

pub used_below-le : (v : Layout) (m : Sectors) (n : ℕ) → used_below v m n ≤ n
unfolding used_below
used_below-le v m zero = omega arith
used_below-le v m (suc n) = omega (arith, used_below-le v m n)

used_below-next :
    (v : Layout) (m : Sectors) (t i : ℕ) (cache : Bytes)
    → i < 512
    → cache ≡ m (v.cluster_heap_start_sector + t)
    → used_below v m (8 * (512 * t + i)) + byte_bits (cache i)
      ≡ used_below v m (8 * (512 * t + (i + 1)))
used_below-next v m t i cache lt seen =
    let sector : (512 * t + i) / 512 ≡ t = omega (arith, lt) in
    let place : (512 * t + i) % 512 ≡ i = omega (arith, lt) in
    ap (λ b. used_below v m (8 * (512 * t + i)) + b)
      (byte_bits-digits (cache i)
        ∙ ap (λ (b : Bytes). digits 8 (b i)) seen
        ∙ ap (λ x. digits 8 (m (v.cluster_heap_start_sector + x) i)) (sym sector)
        ∙ ap (λ x. digits 8 (m (v.cluster_heap_start_sector + (512 * t + i) / 512) x)) (sym place))
    ∙ sym (used_below-byte v m (512 * t + i) 8 (omega arith))
    ∙ ap (used_below v m) {x = 8 * (512 * t + i) + 8} {y = 8 * (512 * t + (i + 1))} (omega arith)

if-Counted :
    (v : Layout) (m : Sectors) (t : ℕ) (b : Bool) (x y : Count)
    → (b ≡ true → Counted v m t x)
    → (b ≡ false → Counted v m t y)
    → Counted v m t (if b then x else y)
if-Counted v m t true x y a c = a refl
if-Counted v m t false x y a c = c refl

pub count_bytes-Counted :
    (v : Layout) (iv : IsVolume v) (m : Sectors) (t n i : ℕ) (cache : Bytes)
    → n + i ≡ 512
    → 8 * (512 * t + i) < v.cluster_count
    → cache ≡ m (v.cluster_heap_start_sector + t)
    → Counted v m t
        (count_bytes v n i (8 * (512 * t + i)) (used_below v m (8 * (512 * t + i))) cache)
unfolding count_bytes
count_bytes-Counted v iv m t zero i cache size below seen = (
  omega (arith, size),
  ap (used_below v m) {x = 8 * (512 * t + i)} {y = 4096 * (t + 1)} (omega (arith, size)),
  below,
)
count_bytes-Counted v iv m t (suc n) i cache size below seen =
    let k : ℕ = 512 * t + i in
    let next : ℕ = 8 * (512 * t + (i + 1)) in
    let u : u32 (used_below v m (8 * k) + byte_bits (cache i)) ≡ used_below v m next = omega (
      arith,
      used_below-next v m t i cache (omega (arith, size)) seen,
      used_below-le v m next,
      below,
      iv.small,
    ) in
    let c : u32 (8 * k + 8) ≡ next = omega (arith, below, iv.small) in
    rw (u, c)
      (if-Counted v m t (leb v.cluster_count next)
        (counted (sub32 v.cluster_count (used_below v m next)))
        (count_bytes v n (i + 1) next (used_below v m next) cache)
        (λ e.
          ap (λ x. sub32 v.cluster_count (used_below v m x)) {x = next}
            {y = 8 * ((v.cluster_count + 7) / 8)} (ground (arith, e)))
        (λ e.
          count_bytes-Counted v iv m t n (i + 1) cache (omega (arith, size)) (ground (arith, e))
            seen))

pub used_below-zero : (v : Layout) (m : Sectors) → used_below v m 0 ≡ 0
unfolding used_below
used_below-zero v m = refl

-- Clusters whose bits are not set add nothing.
pub used_below-free :
    (v : Layout) (m : Sectors) (a n : ℕ)
    → ((i : ℕ) → a ≤ i → i < a + n → bitmap_bit v m i ≡ 0)
    → used_below v m (a + n) ≡ used_below v m a
unfolding used_below
used_below-free v m a zero z = ground arith
used_below-free v m a (suc n) z =
    ap (used_below v m) {x = a + suc n} {y = suc (a + n)} (omega arith)
    ∙ ap (λ b. used_below v m (a + n) + b) (z (a + n) (omega arith) (omega arith))
    ∙ ground (arith, used_below-free v m a n (λ i lo hi. z i lo (omega (arith, hi))))
