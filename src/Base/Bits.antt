-- ===== src/Base/Bits.antt =====
-- `|` of disjoint fields, and `&` with a run of ones, as arithmetic at every width.
use Prim.Native.Nat.{
  ℕ, zero, suc, ◌+◌, ◌-◌, ◌*◌, ◌/◌, ◌%◌, ◌^◌, ◌≤◌, ◌<◌, min, max, bit_and, bit_or, digits,
  bit_and-bitwise, bit_or-bitwise,
}
use mathlib.Core.Path.{◌≡◌, refl, sym, ◌∙◌, ap}
use native.Mathlib.Nat.{add-zero, pow-suc, one-le-pow}
use native.Mathlib.Omega.{arith}

-- Any two counts that reach the first number's digits give one result.
module _ (z : ℕ → ℕ) (f : ℕ → ℕ → ℕ) where
  digits-agree : (n m a b : ℕ) → a ≤ n → a ≤ m → digits z f n a b ≡ digits z f m a b
  digits-agree zero zero a b p q = refl
  digits-agree zero (suc m) zero b p q = refl
  digits-agree (suc n) zero zero b p q = refl
  digits-agree (suc n) (suc m) zero b p q = refl
  digits-agree zero m (suc a) b p q = absurd (omega arith)
  digits-agree (suc n) zero (suc a) b p q = absurd (omega arith)
  digits-agree (suc n) (suc m) (suc a) b p q =
      ap (λ t. t * 2 + f (suc a % 2) (b % 2))
        (digits-agree n m (suc a / 2) (b / 2) (omega arith) (omega arith))

  pub digits-halve :
      (a b : ℕ)
      → digits z f (suc a) (suc a) b
        ≡ digits z f (suc a / 2) (suc a / 2) (b / 2) * 2 + f (suc a % 2) (b % 2)
  digits-halve a b =
      ap (λ t. t * 2 + f (suc a % 2) (b % 2))
        (digits-agree a (suc a / 2) (suc a / 2) (b / 2) (omega arith) (omega arith))

pub and_halve : (a b : ℕ) → bit_and a b ≡ bit_and (a / 2) (b / 2) * 2 + min (a % 2) (b % 2)
and_halve zero b = simp bit_and-bitwise (omega arith)
and_halve (suc a) b = simp bit_and-bitwise (digits-halve (λ _. 0) min a b)

or_halve : (a b : ℕ) → bit_or a b ≡ bit_or (a / 2) (b / 2) * 2 + max (a % 2) (b % 2)
or_halve zero b = simp bit_or-bitwise (omega arith)
or_halve (suc a) b = simp bit_or-bitwise (digits-halve (λ y. y) max a b)

or-zero-below : (n a : ℕ) → a ≤ n → bit_or a 0 ≡ a
or-zero-below n zero h = refl
or-zero-below zero (suc a) h = absurd (omega arith)
or-zero-below (suc n) (suc a) h =
    omega (arith, or_halve (suc a) 0, or-zero-below n (suc a / 2) (omega arith))

and-zero-below : (n a : ℕ) → a ≤ n → bit_and a 0 ≡ 0
and-zero-below n zero h = refl
and-zero-below zero (suc a) h = absurd (omega arith)
and-zero-below (suc n) (suc a) h =
    omega (arith, and_halve (suc a) 0, and-zero-below n (suc a / 2) (omega arith))

double : (q k : ℕ) → q * 2 ^ suc k ≡ 2 * (q * 2 ^ k)
double q k = omega (arith, ap (λ (t : ℕ). q * t) (pow-suc 2 k))

-- `(q << k) | r` is a sum when `r` fits into `k` bits.
pub or_fields : (k q r : ℕ) → r < 2 ^ k → bit_or (q * 2 ^ k) r ≡ q * 2 ^ k + r
or_fields zero q r h = ground (arith, or-zero-below q q)
or_fields (suc k) q r h =
    ground (arith, or_halve (q * 2 ^ suc k) r, double q k, pow-suc 2 k, or_fields k q (r / 2))

-- The same with the low field first.
pub or_fields_low : (k q r : ℕ) → r < 2 ^ k → bit_or r (q * 2 ^ k) ≡ q * 2 ^ k + r
or_fields_low zero q r h =
    let e : r ≡ 0 = omega arith in rw e (bit_or-bitwise 0 (q * 2 ^ 0) ∙ sym (add-zero (q * 2 ^ 0)))
or_fields_low (suc k) q r h =
    ground (arith, or_halve r (q * 2 ^ suc k), double q k, pow-suc 2 k, or_fields_low k q (r / 2))

mod-double : (a m : ℕ) → 0 < m → a % (2 * m) ≡ a / 2 % m * 2 + a % 2
mod-double a m h = grind arith

pub div-double : (a m : ℕ) → 0 < m → a / (2 * m) ≡ a / 2 / m
div-double a m h = grind arith

pub two_pow_suc : (k : ℕ) → 2 ^ suc k ≡ 2 * 2 ^ k
two_pow_suc k = omega (arith, pow-suc 2 k)

-- A mask of `k` low ones is the remainder by `2 ^ k`.
pub and_low : (k a : ℕ) → bit_and a (2 ^ k - 1) ≡ a % 2 ^ k
and_low zero a = ground (arith, and-zero-below a a)
and_low (suc k) a = rw (two_pow_suc k) (
    ground
      (arith, and_halve a (2 * 2 ^ k - 1), one-le-pow k 2, mod-double a (2 ^ k), and_low k (a / 2)))

-- A mask shifted left by `k` masks the number shifted right.
pub and_high : (k a m : ℕ) → bit_and a (m * 2 ^ k) ≡ bit_and (a / 2 ^ k) m * 2 ^ k
and_high zero a m = ground arith
and_high (suc k) a m =
    rw (two_pow_suc k, div-double a (2 ^ k) (one-le-pow k 2 (omega arith)))
      (ground (arith, and_halve a (m * (2 * 2 ^ k)), and_high k (a / 2) m))
