-- ===== src/Base/Digit.antt =====
-- Single binary digits: the masks `1 << k`, and exclusive or with one.
use Prim.Native.Nat.{
  ℕ, zero, suc, ◌+◌, ◌-◌, ◌*◌, ◌/◌, ◌%◌, ◌^◌, ◌≤◌, ◌<◌, bit_and, bit_and-bitwise, bit_xor, differ,
  bit_xor-bitwise,
}
use mathlib.Core.Path.{◌≡◌, refl, sym, ◌∙◌, ap}
use native.Mathlib.Nat.{one-le-pow}
use native.Mathlib.Omega.{arith}
use sd_fat.Base.Test.{◌==◌, if◌then◌else◌}
use sd_fat.Base.Bits.{and_halve, digits-halve, div-double, two_pow_suc, and_low, and_high}

abbrev pub digit : ℕ → ℕ → ℕ
digit x k = x / 2 ^ k % 2

digit-suc : (x k : ℕ) → digit x (suc k) ≡ digit (x / 2) k
digit-suc x k =
    ap (λ t. t % 2)
      (ap (λ w. x / w) (two_pow_suc k) ∙ div-double x (2 ^ k) (one-le-pow k 2 (omega arith)))

-- `x & (1 << k)`, in either order.
pub and-digit : (k x : ℕ) → bit_and x (2 ^ k) ≡ digit x k * 2 ^ k
and-digit k x =
    ap (bit_and x) {x = 2 ^ k} {y = 1 * 2 ^ k} (omega arith)
    ∙ and_high k x 1
    ∙ ap (λ t. t * 2 ^ k) (and_low 1 (x / 2 ^ k))

zero-and : (y : ℕ) → bit_and (1 / 2) y ≡ 0
zero-and y = bit_and-bitwise 0 y

pub digit-and : (k x : ℕ) → bit_and (2 ^ k) x ≡ digit x k * 2 ^ k
digit-and zero x = ground (arith, and_halve 1 x, zero-and (x / 2))
digit-and (suc k) x =
    rw (two_pow_suc k)
      (ground (arith, and_halve (2 * 2 ^ k) x, digit-and k (x / 2), digit-suc x k, two_pow_suc k))

xor_halve : (a b : ℕ) → bit_xor a b ≡ bit_xor (a / 2) (b / 2) * 2 + differ (a % 2) (b % 2)
xor_halve zero b = simp bit_xor-bitwise (omega arith)
xor_halve (suc a) b = simp bit_xor-bitwise (digits-halve (λ y. y) differ a b)

differ-zero : (x : ℕ) → differ x 0 ≡ x
differ-zero zero = refl
differ-zero (suc x) = refl

differ-one : (x : ℕ) → x < 2 → differ x 1 ≡ 1 - x
differ-one zero h = refl
differ-one (suc zero) h = refl
differ-one (suc (suc x)) h = absurd (omega arith)

xor-zero : (n a : ℕ) → a ≤ n → bit_xor a 0 ≡ a
xor-zero n zero h = refl
xor-zero zero (suc a) h = absurd (omega arith)
xor-zero (suc n) (suc a) h =
    omega
      (arith, xor_halve (suc a) 0, xor-zero n (suc a / 2) (omega arith), differ-zero (suc a % 2))

-- `x ^ (1 << k)` changes digit `k` and no other.
pub digit-xor :
    (k x j : ℕ) → digit (bit_xor x (2 ^ k)) j ≡ (if j == k then 1 - digit x k else digit x j)
digit-xor zero x zero = ground (arith, xor_halve x 1, differ-one (x % 2) (omega arith))
digit-xor zero x (suc j) =
    digit-suc (bit_xor x 1) j
    ∙ ap (λ t. digit t j) {x = bit_xor x 1 / 2} {y = x / 2}
        (omega (
          arith,
          xor_halve x 1,
          xor-zero (x / 2) (x / 2) (omega arith),
          differ-one (x % 2) (omega arith),
        ))
    ∙ ground (arith, sym (digit-suc x j))
digit-xor (suc k) x zero =
    ground (arith, xor_halve x (2 ^ suc k), two_pow_suc k, differ-zero (x % 2))
digit-xor (suc k) x (suc j) =
    digit-suc (bit_xor x (2 ^ suc k)) j
    ∙ ap (λ t. digit t j) (halved)
    ∙ digit-xor k (x / 2) j
    ∙ ground (arith, digit-suc x j, digit-suc x k)
  where
    halved : bit_xor x (2 ^ suc k) / 2 ≡ bit_xor (x / 2) (2 ^ k)
    halved = rw (two_pow_suc k) (
        omega (
          arith,
          xor_halve x (2 * 2 ^ k),
          ap (bit_xor (x / 2)) {x = 2 * 2 ^ k / 2} {y = 2 ^ k} (omega arith),
          differ-zero (x % 2),
          ap (differ (x % 2)) {x = 2 * 2 ^ k % 2} {y = 0} (omega arith),
        ))

-- Digits below `n` stay below `n`.
pub xor-lt : (n k x : ℕ) → x < 2 ^ n → k < n → bit_xor x (2 ^ k) < 2 ^ n
xor-lt zero k x h lt = absurd (omega arith)
xor-lt (suc n) zero x h lt = omega (
  arith,
  xor_halve x 1,
  xor-zero (x / 2) (x / 2) (omega arith),
  differ-one (x % 2) (omega arith),
  two_pow_suc n,
)
xor-lt (suc n) (suc k) x h lt =
    let ih = xor-lt n k (x / 2) (omega (arith, two_pow_suc n)) (omega arith) in
    omega (
      arith,
      ih,
      xor_halve x (2 ^ suc k),
      two_pow_suc n,
      differ-zero (x % 2),
      ap (differ (x % 2)) {x = 2 ^ suc k % 2} {y = 0} (omega (arith, two_pow_suc k)),
      ap (bit_xor (x / 2)) {x = 2 ^ suc k / 2} {y = 2 ^ k} (omega (arith, two_pow_suc k)),
    )
