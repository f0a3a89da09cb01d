-- ===== src/Mud/Mtts/Laws.antt =====
-- mud.go: what `Has` tests and what `ParseMTTS` reads.
use telnetty.Base.{
  ℕ, ◌+◌, ◌^◌, ◌≤◌, ◌≡◌, sym, ap, ◌∙◌, false, none, List, [], ◌∷◌, ◌++◌, append-nil, arith, ◌==◌,
  Bytes, by_if,
}
use telnetty.Base.Bits.{bit, bit_and-two_pow, bit-le}
use telnetty.Base.Text.{is_space, is_space-visible, AreDigits-IsWord, ne-nil-NonEmpty}
use telnetty.Base.Decimal.{Number, not_number, number, Fits32, parse_uint, parse_uint-Fits32}
use telnetty.Mud.Mtts.{Mtts, with_number}
use native.Mathlib.Nat.{one-le-pow}
use telnetty.Base.Decimal.{
  number, itoa, parse_uint, parse_uint-itoa, parse_uint-Fits32, max_u32, Fits32, digits-ne-nil,
  digits-AreDigits,
}
use telnetty.Base.Text.{ne-nil-NonEmpty, AreDigits-IsWord}
use telnetty.Base.Text.{space, fields, IsWord, fields-spaced}
use telnetty.Mud.Mtts.{
  has, equal_fold, folds_to, mtts, parse_mtts, parse_mtts_fields, with_number, Mtts,
}

-- `Has` of the flag of digit `k` says whether that digit of the flags is 1.
pub has-bit : (k f : ℕ) → has f (2 ^ k) ≡ (bit k f == 1)
unfolding has
has-bit k f = ground (arith, bit_and-two_pow k f, bit-le k f, one-le-pow k 2 (omega arith))

mtts-IsWord : IsWord mtts
mtts-IsWord =
    let big : is_space 77 ≡ false = is_space-visible 77 (omega arith) (omega arith) in
    let mid : is_space 84 ≡ false = is_space-visible 84 (omega arith) (omega arith) in
    (big, (mid, (mid, (is_space-visible 83 (omega arith) (omega arith), tt))))

-- Flags that fit 32 bits are read back from their decimal print behind "MTTS" and a blank.
pub parse_mtts-itoa : (f : ℕ) → f ≤ max_u32 → parse_mtts (mtts ++ space ∷ itoa f) ≡ (mtts, f, none)
unfolding parse_mtts parse_mtts_fields equal_fold folds_to
parse_mtts-itoa f h =
    let word = digits-AreDigits (f + 1) f in
    let split = fields-spaced (mtts ∷ itoa f ∷ []) (
      tt,
      mtts-IsWord,
      (
        ne-nil-NonEmpty (itoa f) (digits-ne-nil (f + 1) f (omega arith)),
        AreDigits-IsWord (itoa f) word,
        tt,
      ),
    ) in
    ap (λ t. parse_mtts (mtts ++ space ∷ t)) (sym (append-nil (itoa f)))
    ∙ ap (parse_mtts_fields _) split
    ∙ ap (with_number mtts) (parse_uint-itoa f h)

with_number-le : (name : Bytes) (r : Number) → Fits32 r → (with_number name r).1 ≤ max_u32
with_number-le name (number f) h = h
with_number-le name (not_number e) h = omega arith

parse_mtts_fields-le : (s : Bytes) (ws : List Bytes) → (parse_mtts_fields s ws).1 ≤ max_u32
unfolding parse_mtts_fields
parse_mtts_fields-le s [] = omega arith
parse_mtts_fields-le s (w ∷ []) = omega arith
parse_mtts_fields-le s (name ∷ second ∷ ws) =
    by_if (λ (r : Mtts). r.1 ≤ max_u32) (equal_fold name mtts)
      (λ on. with_number-le name (parse_uint second) (parse_uint-Fits32 second))
      (λ off. omega arith)

-- The flags that `ParseMTTS` gives fit 32 bits, whatever the text.
pub parse_mtts-le : (s : Bytes) → (parse_mtts s).1 ≤ max_u32
unfolding parse_mtts
parse_mtts-le s = parse_mtts_fields-le s (fields s)
