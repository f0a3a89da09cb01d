-- ===== src/Base/Words.antt =====
-- Go's `uint32` arithmetic on the native numbers.
use Prim.Native.Nat.{ℕ, zero, suc, ◌+◌, ◌-◌, ◌%◌, ◌^◌, ◌≤◌, ◌∣◌, bit_and}
use mathlib.Core.Path.{◌≡◌, subst, ◌∙◌}
use native.Mathlib.Nat.{pow-suc, pow-le-pow_right, dvd_refl, dvd-mul_right_of_dvd, mod-mod_of_dvd}
use native.Mathlib.Omega.{arith}
use telnetty.Base.Bits.{bit_and-mask}

abbrev pub u32 : ℕ → ℕ
u32 n = n % 2 ^ 32

-- `-` on ℕ stops at 0, so the modulus is added first.
abbrev pub sub32 : ℕ → ℕ → ℕ
sub32 a b = (a + 2 ^ 32 - b) % 2 ^ 32

two_pow-dvd : (d k n : ℕ) → k + d ≡ n → 2 ^ k ∣ 2 ^ n
two_pow-dvd zero k n e = subst (λ m. 2 ^ k ∣ 2 ^ m) (omega arith) (dvd_refl (2 ^ k))
two_pow-dvd (suc d) k zero e = absurd (omega arith)
two_pow-dvd (suc d) k (suc n) e =
    rw pow-suc (dvd-mul_right_of_dvd (2 ^ k) (two_pow-dvd d k n (omega arith)) 2)

pub u32-mod_two_pow : (k x : ℕ) → k ≤ 32 → u32 x % 2 ^ k ≡ x % 2 ^ k
u32-mod_two_pow k x h =
    mod-mod_of_dvd (2 ^ k) {b = 2 ^ 32} x (two_pow-dvd (32 - k) k 32 (omega arith))

-- The index of a ring cell: the wrap of the 32-bit position does not show under the mask.
pub u32-mask : (k x : ℕ) → k ≤ 32 → bit_and (u32 x) (2 ^ k - 1) ≡ x % 2 ^ k
u32-mask k x h = bit_and-mask k (u32 x) ∙ u32-mod_two_pow k x h

pub two_pow-le : (k n : ℕ) → k ≤ n → 2 ^ k ≤ 2 ^ n
two_pow-le k n h = pow-le-pow_right {n = 2} (omega arith) h
