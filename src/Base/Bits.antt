-- ===== src/Base/Bits.antt =====
-- Machine words as numbers, and the bits of `&`, `|` and `<<` at variables.
use Prim.Native.Nat.{
  ℕ, zero, suc, ◌+◌, ◌-◌, ◌*◌, ◌/◌, ◌%◌, ◌^◌, ◌≤◌, ◌<◌, min, max, digits, bit_and, bit_or,
  bit_and-bitwise, bit_or-bitwise,
}
use mathlib.Core.Path.{◌≡◌, refl, sym, ap, ◌∙◌}
use mathlib.Core.Bool.{Bool, false, ◌&&◌, ◌||◌, not}
use native.Mathlib.Nat.{pow-suc, mod-add-div'}
use native.Mathlib.Omega.{arith}
use rtype.Base.Tests.{◌==◌, leb, if◌then◌else◌}

abbrev pub u8_mod : ℕ
u8_mod = 2 ^ 8

abbrev pub u16_mod : ℕ
u16_mod = 2 ^ 16

abbrev pub u32_mod : ℕ
u32_mod = 2 ^ 32

abbrev pub u64_mod : ℕ
u64_mod = 2 ^ 64

-- uint32_t subtraction, which wraps where `-` on ℕ would stop at 0.
abbrev pub sub32 : ℕ → ℕ → ℕ
sub32 a b = (a + u32_mod - b) % u32_mod

-- uint32_t `a << k` for k below 32.
abbrev pub shl32 : ℕ → ℕ → ℕ
shl32 a k = a * 2 ^ k % u32_mod

-- `a & (1 << k)` as a condition.
unfoldable pub has_bit : ℕ → ℕ → Bool
has_bit a k = not (bit_and a (2 ^ k) == 0)

-- Bit k of a number, read off by halving.
pub bit_at : ℕ → ℕ → Bool
bit_at a zero = a % 2 == 1
bit_at a (suc k) = bit_at (a / 2) k

-- Both native operations work digit by digit with `a` rounds of fuel; any enough fuel gives the same.
enough_fuel :
    (z : ℕ → ℕ) (f : ℕ → ℕ → ℕ) (n m a b : ℕ) → a ≤ n → a ≤ m → digits z f n a b ≡ digits z f m a b
enough_fuel z f zero zero a b p q = refl
enough_fuel z f zero (suc m) zero b p q = refl
enough_fuel z f zero (suc m) (suc a) b p q = absurd (omega arith)
enough_fuel z f (suc n) zero zero b p q = refl
enough_fuel z f (suc n) zero (suc a) b p q = absurd (omega arith)
enough_fuel z f (suc n) (suc m) zero b p q = refl
enough_fuel z f (suc n) (suc m) (suc a) b p q =
    rw (enough_fuel z f n m (suc a / 2) (b / 2) (omega arith) (omega arith))

pub or_halves : (a b : ℕ) → bit_or a b ≡ bit_or (a / 2) (b / 2) * 2 + max (a % 2) (b % 2)
or_halves zero b = rw (bit_or-bitwise 0 b, bit_or-bitwise 0 (b / 2)) (omega arith)
or_halves (suc a) b =
    rw (bit_or-bitwise (suc a) b, bit_or-bitwise (suc a / 2) (b / 2))
      (omega (
        arith,
        enough_fuel (λ y. y) max a (suc a / 2) (suc a / 2) (b / 2) (omega arith) (omega arith),
      ))

pub and_halves : (a b : ℕ) → bit_and a b ≡ bit_and (a / 2) (b / 2) * 2 + min (a % 2) (b % 2)
and_halves zero b = rw (bit_and-bitwise 0 b, bit_and-bitwise 0 (b / 2)) (omega arith)
and_halves (suc a) b =
    rw (bit_and-bitwise (suc a) b, bit_and-bitwise (suc a / 2) (b / 2))
      (omega (
        arith,
        enough_fuel (λ y. 0) min a (suc a / 2) (suc a / 2) (b / 2) (omega arith) (omega arith),
      ))

and_none_fuel : (n a : ℕ) → a ≤ n → bit_and a 0 ≡ 0
and_none_fuel n zero h = refl
and_none_fuel zero (suc a) h = absurd (omega arith)
and_none_fuel (suc n) (suc a) h =
    omega (arith, and_halves (suc a) 0, and_none_fuel n (suc a / 2) (omega arith))

pub bit_and-zero : (a : ℕ) → bit_and a 0 ≡ 0
bit_and-zero a = and_none_fuel a a (omega arith)

bit_and-pow : (a k : ℕ) → bit_and a (2 ^ k) ≡ (if bit_at a k then 2 ^ k else 0)
unfolding bit_at
bit_and-pow a zero = ground (arith, and_halves a 1, bit_and-zero (a / 2))
bit_and-pow a (suc k) = ground (arith, pow-suc 2 k, and_halves a (2 ^ suc k), bit_and-pow (a / 2) k)

pub pow_pos : (k : ℕ) → 0 < 2 ^ k
pow_pos zero = omega arith
pow_pos (suc k) = omega (arith, pow-suc 2 k, pow_pos k)

-- The sources' test of a bit reads that bit.
pub has_bit-bit_at : (a k : ℕ) → has_bit a k ≡ bit_at a k
unfolding has_bit
has_bit-bit_at a k = ground (arith, bit_and-pow a k, pow_pos k)

pub bit_at-or : (a b k : ℕ) → bit_at (bit_or a b) k ≡ (bit_at a k || bit_at b k)
unfolding bit_at
bit_at-or a b zero = ground (arith, or_halves a b)
bit_at-or a b (suc k) =
    ap (λ (t : ℕ). bit_at t k) (omega (arith, or_halves a b)) ∙ bit_at-or (a / 2) (b / 2) k

pub bit_at-zero : (k : ℕ) → bit_at 0 k ≡ false
unfolding bit_at
bit_at-zero zero = refl
bit_at-zero (suc k) = bit_at-zero k

pub bit_at-pow : (j k : ℕ) → bit_at (2 ^ j) k ≡ (j == k)
unfolding bit_at
bit_at-pow zero zero = refl
bit_at-pow zero (suc k) = bit_at-zero k ∙ ground arith
bit_at-pow (suc j) zero = ground (arith, pow-suc 2 j)
bit_at-pow (suc j) (suc k) =
    ap (λ (t : ℕ). bit_at t k) (omega (arith, pow-suc 2 j)) ∙ bit_at-pow j k ∙ ground arith

-- A number below 2 ^ w has no bit from w on.
pub bit_at-high : (w a k : ℕ) → a < 2 ^ w → w ≤ k → bit_at a k ≡ false
unfolding bit_at
bit_at-high zero a k h l = rw (let e : a ≡ 0 = omega arith in e) (bit_at-zero k)
bit_at-high (suc w) a zero h l = absurd (omega arith)
bit_at-high (suc w) a (suc k) h l =
    bit_at-high w (a / 2) k (omega (arith, pow-suc 2 w)) (omega arith)

double : (q w : ℕ) → q * 2 ^ suc w ≡ 2 * (q * 2 ^ w)
double q w = omega (arith, ap (λ (t : ℕ). q * t) (pow-suc 2 w))

bit_at-add : (w r q k : ℕ) → k < w → bit_at (r + q * 2 ^ w) k ≡ bit_at r k
unfolding bit_at
bit_at-add zero r q k h = absurd (omega arith)
bit_at-add (suc w) r q zero h =
    ap (λ (t : ℕ). t == 1)
      (let e : (r + q * 2 ^ suc w) % 2 ≡ r % 2 = omega (arith, double q w) in e)
bit_at-add (suc w) r q (suc k) h =
    ap (λ (t : ℕ). bit_at t k)
      (let e : (r + q * 2 ^ suc w) / 2 ≡ r / 2 + q * 2 ^ w = omega (arith, double q w) in e)
    ∙ bit_at-add w (r / 2) q k (omega arith)

-- Reduction modulo 2 ^ w keeps the bits below w.
pub bit_at-mod : (w a k : ℕ) → k < w → bit_at (a % 2 ^ w) k ≡ bit_at a k
bit_at-mod w a k h =
    sym (bit_at-add w (a % 2 ^ w) (a / 2 ^ w) k h)
    ∙ ap (λ (t : ℕ). bit_at t k) (mod-add-div' a (2 ^ w))

pub bit_at-shift : (s a k : ℕ) → bit_at (a * 2 ^ s) k ≡ (leb s k && bit_at a (k - s))
unfolding bit_at
bit_at-shift zero a k = rw (let e : a * 2 ^ 0 ≡ a = omega arith in e) (ground arith)
bit_at-shift (suc s) a zero =
    ap (λ (t : ℕ). t == 1) (let e : a * 2 ^ suc s % 2 ≡ 0 = omega (arith, double a s) in e)
    ∙ ground arith
bit_at-shift (suc s) a (suc k) =
    ap (λ (t : ℕ). bit_at t k)
      (let e : a * 2 ^ suc s / 2 ≡ a * 2 ^ s = omega (arith, double a s) in e)
    ∙ bit_at-shift s a k
    ∙ ap (λ (b : Bool). b && bit_at a (k - s)) (ground arith)
    ∙ ap (λ (t : ℕ). leb (suc s) (suc k) && bit_at a t) {x = k - s} {y = suc k - suc s}
        (omega arith)

-- The bits of a shifted window word.
pub bit_at-shl32 : (s a k : ℕ) → k < 32 → bit_at (shl32 a s) k ≡ (leb s k && bit_at a (k - s))
bit_at-shl32 s a k h = bit_at-mod 32 (a * 2 ^ s) k h ∙ bit_at-shift s a k

-- `|` stays within a word.
pub bit_or-lt : (w a b : ℕ) → a < 2 ^ w → b < 2 ^ w → bit_or a b < 2 ^ w
bit_or-lt zero a b h k =
    rw (let e : a ≡ 0 = omega arith in e) (rw (let e : b ≡ 0 = omega arith in e) (omega arith))
bit_or-lt (suc w) a b h k = omega (
  arith,
  pow-suc 2 w,
  or_halves a b,
  bit_or-lt w (a / 2) (b / 2) (omega (arith, pow-suc 2 w)) (omega (arith, pow-suc 2 w)),
)

pub pow-lt-word : (k w : ℕ) → k < w → 2 ^ k < 2 ^ w
pow-lt-word k zero h = absurd (omega arith)
pow-lt-word zero (suc w) h = omega (arith, pow-suc 2 w, pow_pos w)
pow-lt-word (suc k) (suc w) h =
    omega (arith, pow-suc 2 k, pow-suc 2 w, pow-lt-word k w (omega arith))
