-- ===== src/Base/Bits.antt =====
-- The digits of `&` and `|`: masks of ones, and numbers without a common digit.
use Prim.Native.Nat.{
  ℕ, zero, suc, ◌+◌, ◌-◌, ◌*◌, ◌/◌, ◌%◌, ◌^◌, ◌≤◌, ◌<◌, min, max, bit_and, bit_or, digits,
  bit_and-bitwise, bit_or-bitwise,
}
use mathlib.Core.Path.{◌≡◌, refl, sym, ap, ap₂, ◌∙◌}
use native.Mathlib.Nat.{
  pow-suc, div-div-eq-div-mul, one-le-pow, mul_assoc, div-add-mod', mod-lt, mod-eq_of_lt,
  mul-add-mod_self_right,
}
use native.Mathlib.Decide.{dec_lt}
use native.Mathlib.Omega.{arith}

-- The recursion on binary digits that `bit_and` and `bit_or` stand for: `z` at its end, `f` at a digit.
module _ (z : ℕ → ℕ) (f : ℕ → ℕ → ℕ) where
  digits-zero : (m b : ℕ) → digits z f m 0 b ≡ z b
  digits-zero zero b = refl
  digits-zero (suc m) b = refl

  -- A count that is larger than needed changes nothing.
  digits_spare : (n m a b : ℕ) → a ≤ n → n ≤ m → digits z f m a b ≡ digits z f n a b
  digits_spare n m zero b h l = digits-zero m b ∙ sym (digits-zero n b)
  digits_spare zero m (suc a) b h l = absurd (omega arith)
  digits_spare (suc n) zero (suc a) b h l = absurd (omega arith)
  digits_spare (suc n) (suc m) (suc a) b h l =
      ap (λ t. t * 2 + f (suc a % 2) (b % 2))
        (digits_spare n m (suc a / 2) (b / 2) (omega arith) (omega arith))

  digits_step :
      (a b : ℕ)
      → digits z f (suc a) (suc a) b
        ≡ digits z f (suc a / 2) (suc a / 2) (b / 2) * 2 + f (suc a % 2) (b % 2)
  digits_step a b =
      ap (λ t. t * 2 + f (suc a % 2) (b % 2))
        (digits_spare (suc a / 2) a (suc a / 2) (b / 2) (omega arith) (omega arith))

bit_and-halves : (a b : ℕ) → bit_and a b ≡ bit_and (a / 2) (b / 2) * 2 + min (a % 2) (b % 2)
bit_and-halves zero b = omega (arith, bit_and-bitwise 0 b, bit_and-bitwise 0 (b / 2))
bit_and-halves (suc a) b =
    bit_and-bitwise (suc a) b
    ∙ digits_step (λ b. zero) min a b
    ∙ ap (λ t. t * 2 + min (suc a % 2) (b % 2)) (sym (bit_and-bitwise (suc a / 2) (b / 2)))

and_nothing : (n a : ℕ) → digits (λ b. zero) min n a 0 ≡ 0
and_nothing zero a = refl
and_nothing (suc n) zero = refl
and_nothing (suc n) (suc a) = omega (arith, and_nothing n (suc a / 2))

-- The remainder by twice a number, from the remainder of the half.
mod_two_mul : (a m : ℕ) → 0 < m → a / 2 % m * 2 + a % 2 ≡ a % (m * 2)
mod_two_mul a m pos =
    let low = a / 2 % m * 2 + a % 2 in
    let whole : a ≡ a / 2 / m * (m * 2) + low =
      omega (arith, ap (λ (t : ℕ). t * 2) (div-add-mod' (a / 2) m), mul_assoc (a / 2 / m) m 2) in
    let below : a / 2 % m < m = mod-lt (a / 2) pos in
    sym (
      ap (λ t. t % (m * 2)) whole
      ∙ mul-add-mod_self_right (a / 2 / m) (m * 2) low
      ∙ mod-eq_of_lt (omega arith))

-- `&` with a mask of `k` ones.
pub bit_and-mask : (k a : ℕ) → bit_and a (2 ^ k - 1) ≡ a % 2 ^ k
bit_and-mask zero a = omega (arith, bit_and-bitwise a 0, and_nothing a a)
bit_and-mask (suc k) a =
    let half : (2 ^ suc k - 1) / 2 ≡ 2 ^ k - 1 = omega (arith, pow-suc 2 k, one-le-pow k 2) in
    let odd : (2 ^ suc k - 1) % 2 ≡ 1 = omega (arith, pow-suc 2 k, one-le-pow k 2) in
    let step = bit_and-halves a (2 ^ suc k - 1) in
    let low : bit_and (a / 2) ((2 ^ suc k - 1) / 2) ≡ a / 2 % 2 ^ k =
      rw half (bit_and-mask k (a / 2)) in
    let wide : a / 2 % 2 ^ k * 2 + a % 2 ≡ a % 2 ^ suc k =
      rw pow-suc (mod_two_mul a (2 ^ k) (one-le-pow k 2 (omega arith))) in
    step ∙ omega (arith, low, odd, wide)

zero-bit_or : (b : ℕ) → bit_or 0 b ≡ b
zero-bit_or b = bit_or-bitwise 0 b

bit_or-halves : (a b : ℕ) → bit_or a b ≡ bit_or (a / 2) (b / 2) * 2 + max (a % 2) (b % 2)
bit_or-halves zero b = omega (arith, zero-bit_or b, zero-bit_or (b / 2))
bit_or-halves (suc a) b =
    bit_or-bitwise (suc a) b
    ∙ digits_step (λ b. b) max a b
    ∙ ap (λ t. t * 2 + max (suc a % 2) (b % 2)) (sym (bit_or-bitwise (suc a / 2) (b / 2)))

or_nothing : (n a : ℕ) → a ≤ n → digits (λ b. b) max n a 0 ≡ a
or_nothing zero zero h = refl
or_nothing zero (suc a) h = absurd (omega arith)
or_nothing (suc n) zero h = refl
or_nothing (suc n) (suc a) h = omega (arith, or_nothing n (suc a / 2) (omega arith))

-- `|` of numbers that have no digit in common.
pub bit_or-disjoint : (k a b : ℕ) → b < 2 ^ k → bit_or (a * 2 ^ k) b ≡ a * 2 ^ k + b
bit_or-disjoint zero a b h =
    let none_left : b ≡ 0 = omega arith in
    let one : a * 2 ^ 0 ≡ a = omega arith in
    rw (none_left, one) (omega (arith, bit_or-bitwise a 0, or_nothing a a (omega arith)))
bit_or-disjoint (suc k) a b h =
    let m = a * 2 ^ k in
    let e : a * 2 ^ suc k ≡ m * 2 =
      ap (λ t. a * t) (pow-suc 2 k ∙ omega arith) ∙ sym (mul_assoc a (2 ^ k) 2) in
    let half : m * 2 / 2 ≡ m = omega arith in
    rw e (
      omega (
        arith,
        bit_or-halves (m * 2) b,
        ap (λ t. bit_or t (b / 2)) half,
        bit_or-disjoint k a (b / 2) (omega (arith, pow-suc 2 k)),
      ))

-- Binary digit `i` of `x`.
abbrev pub bit : ℕ → ℕ → ℕ
bit zero x = x % 2
bit (suc i) x = bit i (x / 2)

pub bit-le : (i x : ℕ) → bit i x ≤ 1
bit-le zero x = omega arith
bit-le (suc i) x = bit-le i (x / 2)

pub bit-bit_or : (i a b : ℕ) → bit i (bit_or a b) ≡ max (bit i a) (bit i b)
bit-bit_or zero a b = omega (arith, bit_or-halves a b)
bit-bit_or (suc i) a b =
    ap (bit i) (omega (arith, bit_or-halves a b)) ∙ bit-bit_or i (a / 2) (b / 2)

pub bit_or-lt : (n a b : ℕ) → a < 2 ^ n → b < 2 ^ n → bit_or a b < 2 ^ n
bit_or-lt zero zero b p q = omega (arith, zero-bit_or b)
bit_or-lt zero (suc a) b p q = absurd (omega arith)
bit_or-lt (suc n) a b p q = omega (
  arith,
  bit_or-halves a b,
  pow-suc 2 n,
  bit_or-lt n (a / 2) (b / 2) (omega (arith, pow-suc 2 n)) (omega (arith, pow-suc 2 n)),
)

pub bit-shift : (s i x : ℕ) → bit i (x / 2 ^ s) ≡ bit (i + s) x
bit-shift zero i x = ap₂ bit {x = i} {y = i + 0} {u = x / 2 ^ 0} {v = x} (omega arith) (omega arith)
bit-shift (suc s) i x =
    let halved : x / 2 ^ suc s ≡ x / (2 * 2 ^ s) = ap (λ t. x / t) (omega (arith, pow-suc 2 s)) in
    ap (bit i) (halved ∙ sym (div-div-eq-div-mul x 2 (2 ^ s)))
    ∙ bit-shift s i (x / 2)
    ∙ ap (λ n. bit n x) {x = suc (i + s)} {y = i + suc s} (omega arith)

-- The digits of a number that has `n + 1` of them.
pub bit_top : (n x : ℕ) → 2 ^ n ≤ x → x < 2 ^ suc n → bit n x ≡ 1
bit_top zero x p q = omega (arith, pow-suc 2 0)
bit_top (suc n) x p q =
    bit_top n (x / 2) (omega (arith, pow-suc 2 n)) (omega (arith, pow-suc 2 n, pow-suc 2 (suc n)))

pub top_digit : (n x : ℕ) → 1 ≤ x → x < 2 ^ n → (j : ℕ) × (j < n) × (2 ^ j ≤ x) × (x < 2 ^ suc j)
top_digit zero x p q = absurd (omega arith)
top_digit (suc n) x p q = elim (dec_lt x (2 ^ n)) [
  | yes below ↦ let (j, a, b, c) = top_digit n x p below in (j, omega arith, b, c)
  | no above ↦ (n, omega arith, omega arith, q)
]

-- Ones everywhere make `2 ^ n - 1`.
pub eq_ones : (n x : ℕ) → x < 2 ^ n → ((i : ℕ) → i < n → bit i x ≡ 1) → x + 1 ≡ 2 ^ n
eq_ones zero x p h = omega arith
eq_ones (suc n) x p h =
    let low : x % 2 ≡ 1 = h 0 (omega arith) in
    let high : x / 2 + 1 ≡ 2 ^ n =
      eq_ones n (x / 2) (omega (arith, pow-suc 2 n)) (λ i q. h (suc i) (omega arith)) in
    omega (arith, pow-suc 2 n)

-- `&` with a single digit.
pub bit_and-two_pow : (k x : ℕ) → bit_and x (2 ^ k) ≡ bit k x * 2 ^ k
bit_and-two_pow zero x = bit_and-mask 1 x ∙ omega arith
bit_and-two_pow (suc k) x =
    let half : 2 ^ suc k / 2 ≡ 2 ^ k = omega (arith, pow-suc 2 k) in
    let even : 2 ^ suc k % 2 ≡ 0 = omega (arith, pow-suc 2 k) in
    let high : bit_and (x / 2) (2 ^ suc k / 2) ≡ bit k (x / 2) * 2 ^ k =
      rw half (bit_and-two_pow k (x / 2)) in
    let shifted : bit k (x / 2) * 2 ^ suc k ≡ bit k (x / 2) * 2 ^ k * 2 =
      ap (λ t. bit k (x / 2) * t) (pow-suc 2 k ∙ omega arith)
      ∙ sym (mul_assoc (bit k (x / 2)) (2 ^ k) 2) in
    bit_and-halves x (2 ^ suc k) ∙ omega (arith, high, even, shifted)
