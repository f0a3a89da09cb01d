-- ===== src/Utils/Width/Sums.antt =====
-- utils.go: `StringWidth` of texts put together.
use telnetty.Base.{
  ℕ, zero, suc, ◌+◌, ◌≤◌, ◌<◌, ◌≡◌, refl, inl, inr, Bool, false, [], ◌∷◌, ◌++◌, arith, Bool-cases,
  Bytes, replicate,
}
use telnetty.Utils.Width.{columns, is_wide, string_width}

module _ (marks : ℕ → Bool) where
  pub string_width-append :
      (s t : Bytes) → string_width marks (s ++ t) ≡ string_width marks s + string_width marks t
  unfolding string_width
  string_width-append [] t = omega arith
  string_width-append (r ∷ s) t = elim (Bool-cases (marks r)) [
    | inl mark ↦ rw mark (string_width-append s t)
    | inr letter ↦ rw letter (omega (arith, string_width-append s t))
  ]

  pub string_width-head :
      (r : ℕ) (s : Bytes)
      → (string_width marks (r ∷ s) ≤ columns r + string_width marks s)
        × (string_width marks s ≤ string_width marks (r ∷ s))
  unfolding string_width
  string_width-head r s = elim (Bool-cases (marks r)) [
    | inl mark ↦ rw mark (omega arith, omega arith)
    | inr letter ↦ rw letter (omega arith, omega arith)
  ]

  pub string_width-replicate :
      (n c : ℕ) → c < 128 → marks c ≡ false → string_width marks (replicate n c) ≡ n
  unfolding string_width
  string_width-replicate zero c narrow letter = refl
  string_width-replicate (suc n) c narrow letter =
      let one : is_wide c ≡ false = ground arith in
      rw (letter, one) (omega (arith, string_width-replicate n c narrow letter))

  pub string_width-one :
      (c : ℕ) (s : Bytes)
      → c < 128
      → marks c ≡ false
      → string_width marks (c ∷ s) ≡ 1 + string_width marks s
  unfolding string_width
  string_width-one c s narrow letter =
      let one : is_wide c ≡ false = ground arith in rw (letter, one) refl
