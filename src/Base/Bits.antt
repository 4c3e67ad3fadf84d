-- ===== src/Base/Bits.antt =====
-- Shifts, masks and `|` on native numbers, with the laws that the packed fields need.
use Prim.Native.Nat.{
  ℕ, zero, suc, ◌+◌, ◌*◌, ◌/◌, ◌%◌, ◌^◌, ◌≤◌, ◌<◌, max, bit_or, digits, bit_or-bitwise,
}
use mathlib.Core.Path.{◌≡◌, refl, ap}
use mathlib.Core.Bool.{Bool, true, ◌&&◌}
use native.Mathlib.Omega.{arith}
use native.Mathlib.Nat.{pow-suc}

infixl 71 ◌<<◌ ◌>>◌
-- A shift to the left, of a value in a type wide enough to hold the result.
abbrev pub ◌<<◌ : ℕ → ℕ → ℕ
x << k = x * 2 ^ k

abbrev pub ◌>>◌ : ℕ → ℕ → ℕ
x >> k = x / 2 ^ k

-- `x & (2 ^ k - 1)`, and so also the value of a cast to an unsigned type of `k` bits.
abbrev pub low_bits : ℕ → ℕ → ℕ
low_bits x k = x % 2 ^ k

abbrev or_digits : ℕ → ℕ → ℕ → ℕ
or_digits fuel a b = digits (λ y. y) max fuel a b

-- Any fuel from `a` up gives the same digits.
or_digits_enough : (m n a b : ℕ) → a ≤ m → a ≤ n → or_digits m a b ≡ or_digits n a b
or_digits_enough zero zero a b hm hn = refl
or_digits_enough (suc m) (suc n) zero b hm hn = refl
or_digits_enough zero (suc n) zero b hm hn = refl
or_digits_enough (suc m) zero zero b hm hn = refl
or_digits_enough zero n (suc a) b hm hn = absurd (omega arith)
or_digits_enough (suc m) zero (suc a) b hm hn = absurd (omega arith)
or_digits_enough (suc m) (suc n) (suc a) b hm hn =
    omega (arith, or_digits_enough m n (suc a / 2) (b / 2) (omega arith) (omega arith))

zero-bit_or : (b : ℕ) → bit_or 0 b ≡ b
zero-bit_or b = bit_or-bitwise 0 b

bit_or_digit : (a b : ℕ) → bit_or a b ≡ bit_or (a / 2) (b / 2) * 2 + max (a % 2) (b % 2)
bit_or_digit zero b = omega (arith, zero-bit_or b, zero-bit_or (b / 2))
bit_or_digit (suc a) b = omega (
  arith,
  bit_or-bitwise (suc a) b,
  bit_or-bitwise (suc a / 2) (b / 2),
  or_digits_enough a (suc a / 2) (suc a / 2) (b / 2) (omega arith) (omega arith),
)

-- Disjoint fields: `lo | (hi << k)` is a sum when `lo` has only `k` bits.
pub bit_or-shift : (k lo hi : ℕ) → lo < 2 ^ k → bit_or lo (hi << k) ≡ lo + hi * 2 ^ k
bit_or-shift zero lo hi h =
    let e : lo ≡ 0 = omega arith in rw e (omega (arith, zero-bit_or (hi * 1)))
bit_or-shift (suc k) lo hi h =
    let halved : hi * 2 ^ suc k ≡ 2 * (hi * 2 ^ k) =
      omega (arith, ap (λ (t : ℕ). hi * t) (pow-suc 2 k)) in
    omega (
      arith,
      halved,
      pow-suc 2 k,
      bit_or_digit lo (hi * 2 ^ suc k),
      ap (λ (t : ℕ). bit_or (lo / 2) t) (half_shift halved),
      bit_or-shift k (lo / 2) hi (omega (arith, pow-suc 2 k)),
    )
  where
    half_shift : hi * 2 ^ suc k ≡ 2 * (hi * 2 ^ k) → hi * 2 ^ suc k / 2 ≡ hi * 2 ^ k
    half_shift e = omega (arith, e)

-- A test that every number under a bound passes, to be run.
unfoldable pub passes : (ℕ → Bool) → ℕ → Bool
passes test zero = true
passes test (suc bound) = passes test bound && test bound

pub passes-lt :
    (test : ℕ → Bool) (bound : ℕ) {x : ℕ} → x < bound → passes test bound ≡ true → test x ≡ true
unfolding passes
passes-lt test zero under run = elim under [ ]
passes-lt test (suc bound) {x} under run = ground (arith, passes-lt test bound {x = x})
