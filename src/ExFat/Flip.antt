-- ===== src/ExFat/Flip.antt =====
-- `bitmapModify` in one sector of the allocation bitmap.
use sd_fat.Base.{
  ℕ, zero, suc, ◌+◌, ◌-◌, ◌*◌, ◌/◌, ◌%◌, ◌^◌, ◌≤◌, ◌<◌, ◌≡◌, inl, inr, sym, ◌∙◌, ap, subst, arith,
  Bool, true, false, not, ◌&&◌, ◌==◌, leb, ltb, if◌then◌else◌, Bool-cases, sub32, bit_and,
}
use Prim.Native.Nat.{bit_xor}
use native.Mathlib.Nat.{one-le-pow}
use sd_fat.Base.Digit.{digit, and-digit, digit-xor, xor-lt}
use sd_fat.Endian.{Bytes}
use sd_fat.Endian.Laws.{IsBytes}
use sd_fat.ExFat.Bitmap.{mask, Flip, mismatch, finished, unfinished, set_byte, flip_bits}

-- Bit `k` of a sector.
abbrev pub sector_bit : Bytes → ℕ → ℕ
sector_bit b k = digit (b (k / 8)) (k % 8)

abbrev pub as_bit : Bool → ℕ
as_bit value = if value then 1 else 0

-- Bits `j` to `j + m - 1` had the other value and have `value` now; the others are as before.
pub record Flipped (value : Bool) (j m : ℕ) (b b' : Bytes) : Type 0 where
  pub bytes : IsBytes b'
  pub now :
      (k : ℕ)
      → sector_bit b' k ≡ (if leb j k && ltb k (j + m) then as_bit value else sector_bit b k)
  pub old : (k : ℕ) → j ≤ k → k < j + m → sector_bit b k ≡ 1 - as_bit value

test_bit : (k x : ℕ) → (bit_and x (2 ^ k) == 0) ≡ (digit x k == 0)
test_bit k x = elim (Bool-cases (digit x k == 0)) [
  | inl z ↦
      rw z
        (ground (arith, and-digit k x, ap (λ t. t * 2 ^ k) {x = digit x k} {y = 0} (ground arith)))
  | inr n ↦
      let one : digit x k ≡ 1 = ground arith in
      let e : digit x k * 2 ^ k ≡ 2 ^ k = ap (λ t. t * 2 ^ k) one ∙ omega arith in
      rw n (ground (arith, and-digit k x, e, one-le-pow k 2))
]

-- The buffer with bit `j` changed.
abbrev changed : ℕ → Bytes → Bytes
changed j b = set_byte b (j / 8) (bit_xor (b (j / 8)) (mask j))

changed_bit :
    (j k : ℕ) (b : Bytes)
    → sector_bit (changed j b) k ≡ (if k == j then 1 - sector_bit b j else sector_bit b k)
changed_bit j k b = elim (Bool-cases (k / 8 == j / 8)) [
  | inl same ↦
      let e : k / 8 ≡ j / 8 = ground arith in
      let x : changed j b (k / 8) ≡ bit_xor (b (j / 8)) (2 ^ (j % 8)) = ground arith in
      ap (λ t. digit t (k % 8)) x
      ∙ digit-xor (j % 8) (b (j / 8)) (k % 8)
      ∙ ground (arith, ap (λ t. digit (b t) (k % 8)) e)
  | inr other ↦
      let x : changed j b (k / 8) ≡ b (k / 8) = ground arith in
      ap (λ t. digit t (k % 8)) x ∙ ground arith
]

changed-IsBytes : (j : ℕ) (b : Bytes) → IsBytes b → IsBytes (changed j b)
changed-IsBytes j b h i =
    ground (arith, h i, xor-lt 8 (j % 8) (b (j / 8)) (h (j / 8)) (omega arith))

one_bit :
    (value : Bool) (j : ℕ) (b : Bytes)
    → IsBytes b
    → sector_bit b j ≡ 1 - as_bit value
    → Flipped value j 1 b (changed j b)
one_bit value j b h e = record {
  bytes = changed-IsBytes j b h;
  now = λ k. changed_bit j k b ∙ ground (arith, e);
  old = λ k lo hi. ground (arith, ap (sector_bit b) {x = k} {y = j} (omega arith), e);
}

more_bits :
    (value : Bool) (j m : ℕ) (b b1 b' : Bytes)
    → Flipped value j 1 b b1
    → Flipped value (j + 1) m b1 b'
    → Flipped value j (suc m) b b'
more_bits value j m b b1 b' f r = record {
  bytes = r.bytes;
  now = λ k. r.now k ∙ ground (arith, f.now k);
  old = λ k lo hi. elim (Bool-cases (k == j)) [
    | inl e ↦ f.old k lo (ground arith)
    | inr n ↦ ground (arith, f.now k, r.old k)
  ];
}

-- What changing `count` bits from `j` on leaves, where the sector has `n` of them.
abbrev pub FlippedBy : Bool → ℕ → ℕ → ℕ → Bytes → Flip → Type 0
FlippedBy value n j count b r = elim r [
  | mismatch b' ↦ Unit {0}
  | finished b' ↦ (count ≤ n) × Flipped value j count b b'
  | unfinished b' c ↦ (c + n ≡ count) × (0 < c) × Flipped value j n b b'
]

pub flip_bits-Flipped :
    (value : Bool) (n j count : ℕ) (b : Bytes)
    → IsBytes b
    → 0 < count
    → count < 2 ^ 32
    → FlippedBy value n j count b (flip_bits value n j count b)
unfolding flip_bits
flip_bits-Flipped value zero j count b h pos small = (
  omega arith,
  pos,
  record { bytes = h; now = λ k. ground arith; old = λ k lo hi. absurd (omega arith) },
)
flip_bits-Flipped value (suc n) j count b h pos small =
    let down : sub32 count 1 ≡ count - 1 = omega arith in
    rw (down, test_bit (j % 8) (b (j / 8)))
      (elim (Bool-cases
        (if value then not (sector_bit b j == 0) else not (not (sector_bit b j == 0)))) [
          | inl y ↦ rw y tt
          | inr y ↦
              let one = one_bit value j b h (flips value y) in
              rw y (elim (Bool-cases (count - 1 == 0)) [
                | inl z ↦ rw z (ground arith, last (ground arith) one)
                | inr z ↦ rw z (
                    extend (flip_bits value n (j + 1) (count - 1) (changed j b)) one (
                      flip_bits-Flipped value n (j + 1) (count - 1) (changed j b) one.bytes
                        (ground arith) (omega arith)))
              ])
        ])
  where
    flips :
        (value : Bool)
        → (if value then not (sector_bit b j == 0) else not (not (sector_bit b j == 0))) ≡ false
        → sector_bit b j ≡ 1 - as_bit value
    flips true y = ground arith
    flips false y = ground arith

    last : count ≡ 1 → Flipped value j 1 b (changed j b) → Flipped value j count b (changed j b)
    last e f = subst (λ t. Flipped value j t b (changed j b)) (sym e) f

    extend :
        (r : Flip)
        → Flipped value j 1 b (changed j b)
        → FlippedBy value n (j + 1) (count - 1) (changed j b) r
        → FlippedBy value (suc n) j count b r
    extend (mismatch b') f x = tt
    extend (finished b') f x = (
      omega (arith, x.0),
      subst (λ t. Flipped value j t b b') (omega arith)
          (more_bits value j (count - 1) b (changed j b) b' f x.1),
    )
    extend (unfinished b' c) f x =
        (omega (arith, x.0), x.1, more_bits value j n b (changed j b) b' f x.2)
