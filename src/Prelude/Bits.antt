-- ===== src/Prelude/Bits.antt =====
-- The bits of a number, and what `&`, `|` and `^` do to each of them, at every width.
use Prim.Native.Nat.{
  ℕ, zero, suc, ◌+◌, ◌-◌, ◌*◌, ◌/◌, ◌%◌, ◌^◌, ◌≤◌, ◌<◌, min, max, bit_and, bit_or, bit_xor, digits,
  bitwise, bit_and-bitwise, bit_or-bitwise, bit_xor-bitwise, differ,
}
use mathlib.Core.Path.{◌≡◌, refl, ap, subst, ◌∙◌}
use mathlib.Core.Bool.{Bool, true, false, not, ◌&&◌, ◌||◌}
use native.Mathlib.Nat.{pow-suc}
use native.Mathlib.Omega.{arith}
use usbvfiod.Prelude.Tests.{◌==◌}

-- Bit `i` of a number.
abbrev pub test_bit : ℕ → ℕ → Bool
test_bit x zero = x % 2 == 1
test_bit x (suc i) = test_bit (x / 2) i

abbrev xor_bit : Bool → Bool → Bool
xor_bit true b = not b
xor_bit false b = b

-- Fuel that covers the first argument changes nothing.
module _ (z : ℕ → ℕ) (f : ℕ → ℕ → ℕ) where
  enough_fuel : (b a n k : ℕ) → a ≤ n → a ≤ k → digits z f n a b ≡ digits z f k a b
  enough_fuel b zero zero zero hn hk = refl
  enough_fuel b zero zero (suc k) hn hk = refl
  enough_fuel b zero (suc n) zero hn hk = refl
  enough_fuel b zero (suc n) (suc k) hn hk = refl
  enough_fuel b (suc a) zero k hn hk = absurd (omega arith)
  enough_fuel b (suc a) (suc n) zero hn hk = absurd (omega arith)
  enough_fuel b (suc a) (suc n) (suc k) hn hk =
      ap (λ t. t * 2 + f (suc a % 2) (b % 2))
        (enough_fuel (b / 2) (suc a / 2) n k (omega arith) (omega arith))

  lowest_digit :
      (x m : ℕ)
      → bitwise z f (suc x) m ≡ bitwise z f (suc x / 2) (m / 2) * 2 + f (suc x % 2) (m % 2)
  lowest_digit x m =
      ap (λ t. t * 2 + f (suc x % 2) (m % 2))
        (enough_fuel (m / 2) (suc x / 2) x (suc x / 2) (omega arith) (omega arith))

pub bit_and_digit : (x m : ℕ) → bit_and x m ≡ bit_and (x / 2) (m / 2) * 2 + min (x % 2) (m % 2)
bit_and_digit zero m = simp bit_and-bitwise (omega arith)
bit_and_digit (suc x) m = simp bit_and-bitwise (lowest_digit (λ _. 0) min x m)

pub bit_or_digit : (x m : ℕ) → bit_or x m ≡ bit_or (x / 2) (m / 2) * 2 + max (x % 2) (m % 2)
bit_or_digit zero m = simp bit_or-bitwise (omega arith)
bit_or_digit (suc x) m = simp bit_or-bitwise (lowest_digit (λ d. d) max x m)

pub bit_xor_digit : (x m : ℕ) → bit_xor x m ≡ bit_xor (x / 2) (m / 2) * 2 + differ (x % 2) (m % 2)
bit_xor_digit zero m = simp bit_xor-bitwise (omega arith)
bit_xor_digit (suc x) m = simp bit_xor-bitwise (lowest_digit (λ d. d) differ x m)

bit_or-zero_upto : (n b : ℕ) → b ≤ n → bit_or 0 b ≡ b
bit_or-zero_upto n zero h = refl
bit_or-zero_upto zero (suc b) h = absurd (omega arith)
bit_or-zero_upto (suc n) (suc b) h =
    omega (arith, bit_or_digit 0 (suc b), bit_or-zero_upto n (suc b / 2) (omega arith))

double_shift : (b k : ℕ) → b * 2 ^ suc k ≡ 2 * (b * 2 ^ k)
double_shift b k = omega (arith, ap (λ (t : ℕ). b * t) (pow-suc 2 k))

-- `low | (b << k)` is a sum where `low` fits in `k` bits.
pub bit_or_shifted : (k low b : ℕ) → low < 2 ^ k → bit_or low (b * 2 ^ k) ≡ low + b * 2 ^ k
bit_or_shifted zero low b h = ground (arith, bit_or-zero_upto b b)
bit_or_shifted (suc k) low b h = ground (
  arith,
  bit_or_digit low (b * 2 ^ suc k),
  double_shift b k,
  pow-suc 2 k,
  bit_or_shifted k (low / 2) b,
)

bit_and_bit_zero : (a b : ℕ) → test_bit (bit_and a b) 0 ≡ (test_bit a 0 && test_bit b 0)
bit_and_bit_zero a b = ground (arith, bit_and_digit a b)

bit_or_bit_zero : (a b : ℕ) → test_bit (bit_or a b) 0 ≡ (test_bit a 0 || test_bit b 0)
bit_or_bit_zero a b = ground (arith, bit_or_digit a b)

bit_xor_bit_zero : (a b : ℕ) → test_bit (bit_xor a b) 0 ≡ xor_bit (test_bit a 0) (test_bit b 0)
bit_xor_bit_zero a b = ground (arith, bit_xor_digit a b)

bit_and_half : (a b : ℕ) → bit_and a b / 2 ≡ bit_and (a / 2) (b / 2)
bit_and_half a b = omega (arith, bit_and_digit a b)

bit_or_half : (a b : ℕ) → bit_or a b / 2 ≡ bit_or (a / 2) (b / 2)
bit_or_half a b = omega (arith, bit_or_digit a b)

differ-lt : (a b : ℕ) → a < 2 → b < 2 → differ a b < 2
differ-lt zero zero ha hb = omega arith
differ-lt zero (suc zero) ha hb = omega arith
differ-lt (suc zero) zero ha hb = omega arith
differ-lt (suc zero) (suc zero) ha hb = omega arith
differ-lt zero (suc (suc b)) ha hb = absurd (omega arith)
differ-lt (suc zero) (suc (suc b)) ha hb = absurd (omega arith)
differ-lt (suc (suc a)) b ha hb = absurd (omega arith)

bit_xor_half : (a b : ℕ) → bit_xor a b / 2 ≡ bit_xor (a / 2) (b / 2)
bit_xor_half a b =
    omega (arith, bit_xor_digit a b, differ-lt (a % 2) (b % 2) (omega arith) (omega arith))

pub test_bit-bit_and : (a b i : ℕ) → test_bit (bit_and a b) i ≡ (test_bit a i && test_bit b i)
test_bit-bit_and a b zero = bit_and_bit_zero a b
test_bit-bit_and a b (suc i) = rw (bit_and_half a b) (test_bit-bit_and (a / 2) (b / 2) i)

pub test_bit-bit_or : (a b i : ℕ) → test_bit (bit_or a b) i ≡ (test_bit a i || test_bit b i)
test_bit-bit_or a b zero = bit_or_bit_zero a b
test_bit-bit_or a b (suc i) = rw (bit_or_half a b) (test_bit-bit_or (a / 2) (b / 2) i)

test_bit-bit_xor : (a b i : ℕ) → test_bit (bit_xor a b) i ≡ xor_bit (test_bit a i) (test_bit b i)
test_bit-bit_xor a b zero = bit_xor_bit_zero a b
test_bit-bit_xor a b (suc i) = rw (bit_xor_half a b) (test_bit-bit_xor (a / 2) (b / 2) i)

-- `!x` on a `u8`.
abbrev pub not_u8 : ℕ → ℕ
not_u8 x = bit_xor x 0xff

test_bit-ones : (i : ℕ) → i < 8 → test_bit 0xff i ≡ true
test_bit-ones zero h = refl
test_bit-ones (suc zero) h = refl
test_bit-ones (suc (suc zero)) h = refl
test_bit-ones (suc (suc (suc zero))) h = refl
test_bit-ones (suc (suc (suc (suc zero)))) h = refl
test_bit-ones (suc (suc (suc (suc (suc zero))))) h = refl
test_bit-ones (suc (suc (suc (suc (suc (suc zero)))))) h = refl
test_bit-ones (suc (suc (suc (suc (suc (suc (suc zero))))))) h = refl
test_bit-ones (suc (suc (suc (suc (suc (suc (suc (suc i)))))))) h = absurd (omega arith)

pub test_bit-not_u8 : (x i : ℕ) → i < 8 → test_bit (not_u8 x) i ≡ not (test_bit x i)
test_bit-not_u8 x i h = ground (arith, test_bit-bit_xor x 0xff i, test_bit-ones i h)

-- A table of the numbers below `n`, decided by evaluation.
unfoldable pub holds_below : (ℕ → Bool) → ℕ → Bool
holds_below test zero = true
holds_below test (suc n) = holds_below test n && test n

pub holds_below-at : (test : ℕ → Bool) (n x : ℕ) → x < n → holds_below test n ≡ true → test x ≡ true
unfolding holds_below
holds_below-at test zero x below h = absurd (omega arith)
holds_below-at test (suc n) x below h = ground (arith, holds_below-at test n x)

-- By halving, with a bound on the number that goes down.
zero_mask : (bound : ℕ) {a : ℕ} → a ≤ bound → bit_and a 0 ≡ 0
zero_mask zero {a = zero} le = refl
zero_mask zero {a = suc a} le = absurd (omega arith)
zero_mask (suc bound) {a = a} le =
    let half : bit_and (a / 2) 0 ≡ 0 = zero_mask bound (omega arith) in
    omega (arith, half, bit_and_digit a 0)

pub bit_and-zero : (a : ℕ) → bit_and a 0 ≡ 0
bit_and-zero a = zero_mask a (omega arith)

-- The masks of the lowest bits.
pub bit_and_1 : (a : ℕ) → bit_and a 1 ≡ a % 2
bit_and_1 a = omega (arith, bit_and_digit a 1, bit_and-zero (a / 2))

pub bit_and_15 : (a : ℕ) → bit_and a 15 ≡ a % 16
bit_and_15 a = omega (
  arith,
  bit_and_digit a 15,
  bit_and_digit (a / 2) 7,
  bit_and_digit (a / 2 / 2) 3,
  bit_and_1 (a / 2 / 2 / 2),
)

pub bit_and_31 : (a : ℕ) → bit_and a 31 ≡ a % 32
bit_and_31 a = omega (arith, bit_and_digit a 31, bit_and_15 (a / 2))

pub bit_and_255 : (a : ℕ) → bit_and a 255 ≡ a % 256
bit_and_255 a = omega (
  arith,
  bit_and_digit a 255,
  bit_and_digit (a / 2) 127,
  bit_and_digit (a / 2 / 2) 63,
  bit_and_31 (a / 2 / 2 / 2),
)

-- A number whose eight bits from `k` on are clear, and that has no higher ones, is below `2 ^ k`.
pub bit_and-high_clear : (k a : ℕ) → bit_and a (255 * 2 ^ k) ≡ 0 → a < 256 * 2 ^ k → a < 2 ^ k
bit_and-high_clear zero a h lt = omega (arith, bit_and_255 a)
bit_and-high_clear (suc k) a h lt =
    let e : 255 * 2 ^ suc k / 2 ≡ 255 * 2 ^ k = omega (arith, double_shift 255 k) in
    let halved : bit_and (a / 2) (255 * 2 ^ k) ≡ 0 =
      subst (λ t. bit_and (a / 2) t ≡ 0) e (omega (arith, bit_and_digit a (255 * 2 ^ suc k))) in
    omega (arith, pow-suc 2 k, bit_and-high_clear k (a / 2) halved (omega (arith, pow-suc 2 k)))

-- The mask of all `k` bits.
pub bit_and-ones : (k a : ℕ) → a < 2 ^ k → bit_and a (2 ^ k - 1) ≡ a
bit_and-ones zero a h = omega (arith, bit_and-zero a)
bit_and-ones (suc k) a h =
    let half : (2 ^ suc k - 1) / 2 ≡ 2 ^ k - 1 = omega (arith, pow-suc 2 k) in
    let rest : bit_and (a / 2) ((2 ^ suc k - 1) / 2) ≡ a / 2 =
      rw half (bit_and-ones k (a / 2) (omega (arith, pow-suc 2 k))) in
    omega (arith, bit_and_digit a (2 ^ suc k - 1), rest, pow-suc 2 k)

-- `a & !0xf` on 64 bits.
pub bit_and-not_15 : (a : ℕ) → a < 2 ^ 64 → bit_and a (bit_xor 0xf (2 ^ 64 - 1)) ≡ a / 16 * 16
bit_and-not_15 a h = omega (
  arith,
  bit_and_digit a 0xfffffffffffffff0,
  bit_and_digit (a / 2) 0x7ffffffffffffff8,
  bit_and_digit (a / 2 / 2) 0x3ffffffffffffffc,
  bit_and_digit (a / 2 / 2 / 2) 0x1ffffffffffffffe,
  bit_and-ones 60 (a / 2 / 2 / 2 / 2) (omega arith),
)

-- `a & !0x3f` on 64 bits.
pub bit_and-not_63 : (a : ℕ) → a < 2 ^ 64 → bit_and a (bit_xor 0x3f (2 ^ 64 - 1)) ≡ a / 64 * 64
bit_and-not_63 a h = omega (
  arith,
  bit_and_digit a 0xffffffffffffffc0,
  bit_and_digit (a / 2) 0x7fffffffffffffe0,
  bit_and_digit (a / 2 / 2) 0x3ffffffffffffff0,
  bit_and_digit (a / 2 / 2 / 2) 0x1ffffffffffffff8,
  bit_and_digit (a / 2 / 2 / 2 / 2) 0xffffffffffffffc,
  bit_and_digit (a / 2 / 2 / 2 / 2 / 2) 0x7fffffffffffffe,
  bit_and-ones 58 (a / 2 / 2 / 2 / 2 / 2 / 2) (omega arith),
)

pow_pos : (k : ℕ) → 1 ≤ 2 ^ k
pow_pos zero = omega arith
pow_pos (suc k) = omega (arith, pow-suc 2 k, pow_pos k)

-- `2 ^ k - 1` has the lowest `k` bits.
pub test_bit_all_ones : (k i : ℕ) → i < k → test_bit (2 ^ k - 1) i ≡ true
test_bit_all_ones zero i h = absurd (omega arith)
test_bit_all_ones (suc k) zero h = ground (arith, pow-suc 2 k, pow_pos k)
test_bit_all_ones (suc k) (suc i) h =
    let half : (2 ^ suc k - 1) / 2 ≡ 2 ^ k - 1 = omega (arith, pow-suc 2 k) in
    rw half (test_bit_all_ones k i (omega arith))

xor_bit-true : (b : Bool) → xor_bit b true ≡ not b
xor_bit-true true = refl
xor_bit-true false = refl

-- `!x` on `k` bits.
pub test_bit_complement :
    (k x i : ℕ) → i < k → test_bit (bit_xor x (2 ^ k - 1)) i ≡ not (test_bit x i)
test_bit_complement k x i h =
    test_bit-bit_xor x (2 ^ k - 1) i
    ∙ ap (λ b. xor_bit (test_bit x i) b) (test_bit_all_ones k i h)
    ∙ xor_bit-true (test_bit x i)
