-- ===== src/Ring/Size.antt =====
-- `NewRing` and its five shifts.
use native.Mathlib.Nat.{pow-suc, one-le-pow, div-le_self}
use native.Mathlib.Decide.{dec_lt}
use telnetty.Base.{
  ℕ, zero, suc, ◌+◌, ◌-◌, ◌*◌, ◌/◌, ◌^◌, ◌≤◌, ◌<◌, ◌≡◌, refl, ap, ◌∙◌, [], arith, ◌==◌,
  if◌then◌else◌,
}
use telnetty.Base.Words.{two_pow-le}
use telnetty.Base.Bits.{bit, bit-le, bit-bit_or, bit_or-lt, bit-shift, bit_top, top_digit, eq_ones}
use telnetty.Pool.{Pools}
use telnetty.Pool.Laws.{get_buf-HasSize}
use telnetty.Ring.Invariant.{IsValid, contents}
use telnetty.Ring.{new_ring, round_up, smear}

-- Below digit `j` of `x`, the `s` digits down from it are ones, and above it are none.
record HasOnes (j s x : ℕ) : Type 0 where
  below : x < 2 ^ suc j
  ones : (i : ℕ) → i ≤ j → j < i + s → bit i x ≡ 1

smear-HasOnes : (j s x : ℕ) → HasOnes j s x → HasOnes j (s + s) (smear s x)
unfolding smear
smear-HasOnes j s x h = record {
  below = bit_or-lt (suc j) x (x / 2 ^ s) h.below (omega (arith, div-le_self x (2 ^ s)));
  ones = λ i p q.
      let two = bit-bit_or i x (x / 2 ^ s) in
      let shifted = bit-shift s i x in
      let small = bit-le i x in
      let small' = bit-le (i + s) x in
      elim (dec_lt j (i + s)) [
        | yes near ↦ omega (arith, h.ones i p near)
        | no far ↦ omega (arith, h.ones (i + s) (omega arith) (omega arith))
      ];
}

-- The five shifts of a number of at most 32 digits leave ones alone.
ones_of_shifts :
    (j x : ℕ)
    → j < 32
    → 2 ^ j ≤ x
    → x < 2 ^ suc j
    → smear 16 (smear 8 (smear 4 (smear 2 (smear 1 x)))) + 1 ≡ 2 ^ suc j
ones_of_shifts j x small p q =
    let start : HasOnes j 1 x = record {
      below = q;
      ones = λ i a b. let e : i ≡ j = omega arith in rw e (bit_top j x p q);
    } in
    let all = smear-HasOnes j 16 _ (
      smear-HasOnes j 8 _
        (smear-HasOnes j 4 _ (smear-HasOnes j 2 _ (smear-HasOnes j 1 x start)))) in
    eq_ones (suc j) _ all.below (λ i a. all.ones i (omega arith) (omega arith))

round_up_lem :
    (size : ℕ)
    → 1 ≤ size
    → size ≤ 2 ^ 31
    → (k : ℕ) × (k ≤ 31) × (round_up size ≡ 2 ^ k) × (size ≤ 2 ^ k) × (2 ^ k < 2 * size)
round_up_lem zero p q = absurd (omega arith)
round_up_lem (suc zero) p q = (0, omega arith, unfold round_up in refl, omega arith, omega arith)
round_up_lem (suc (suc n)) p q =
    let less : suc (suc n) - 1 ≡ suc n = omega arith in
    let (j, a, b, c) = top_digit 31 (suc n) (omega arith) (omega arith) in
    let e : round_up (suc (suc n)) ≡ 2 ^ suc j =
      unfold round_up in
      ap (λ x. smear 16 (smear 8 (smear 4 (smear 2 (smear 1 x)))) + 1) less
      ∙ ones_of_shifts j (suc n) (omega arith) b c in
    (suc j, omega arith, e, c, omega (arith, pow-suc 2 j))

-- `NewRing` of at most 2 ^ 31 bytes is an empty, valid ring, of the least power of two of cells
-- that is not below the size, 4096 for size 0.
pub new_ring-IsValid :
    (size : ℕ) (ps : Pools)
    → size ≤ 2 ^ 31
    → let r = (new_ring size ps).0 in
      let wanted = if size == 0 then 4096 else size in
      (k : ℕ) × IsValid k r × (contents r ≡ []) × (wanted ≤ 2 ^ k) × (2 ^ k < 2 * wanted)
unfolding new_ring
new_ring-IsValid size ps h =
    let wanted = if size == 0 then 4096 else size in
    let (k, small, e, p, q) = round_up_lem wanted (ground arith) (ground arith) in
    let sized = get_buf-HasSize (round_up wanted) ps in
    let bound = two_pow-le k 31 small in
    let one = one-le-pow k 2 (omega arith) in
    (
      k,
      record {
        small = small;
        mask_is = omega arith;
        storage = omega arith;
        buf_len = omega arith;
        head_lt = omega arith;
        tail_lt = omega arith;
        within = omega arith;
      },
      refl,
      p,
      q,
    )
