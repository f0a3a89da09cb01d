-- ===== src/Utils/Ansi.antt =====
-- utils.go: `StripANSI`.
use telnetty.Base.{ℕ, ◌≡◌, refl, ap, ◌≢◌, Bool, true, false, [], ◌∷◌, arith, ◌==◌, Bytes, by_if}
use telnetty.Utils.{esc, is_final, strip_from, strip_ansi}

-- No ESC but at the end.
abbrev Clean : Bytes → Type 0
Clean [] = Unit
Clean (b ∷ []) = Unit
Clean (b ∷ c ∷ rest) = (b ≢ esc) × Clean (c ∷ rest)

Clean-cons : (b : ℕ) (s : Bytes) → b ≢ esc → Clean s → Clean (b ∷ s)
Clean-cons b [] ne h = tt
Clean-cons b (c ∷ rest) ne h = (ne, h)

strip_from-Clean : (csi : Bool) (s : Bytes) → Clean (strip_from csi s)
unfolding strip_from
strip_from-Clean true [] = tt
strip_from-Clean true (b ∷ rest) =
    by_if Clean (is_final b) (λ _. strip_from-Clean false rest) (λ _. strip_from-Clean true rest)
strip_from-Clean false [] = tt
strip_from-Clean false (b ∷ []) = tt
strip_from-Clean false (b ∷ c ∷ rest) =
    by_if Clean (b == esc)
      (λ _.
        by_if Clean (c == 91) (λ _. strip_from-Clean true rest) (λ _. strip_from-Clean false rest))
      (λ plain.
        Clean-cons b (strip_from false (c ∷ rest)) (ground arith)
          (strip_from-Clean false (c ∷ rest)))

strip_from_id : (s : Bytes) → Clean s → strip_from false s ≡ s
unfolding strip_from
strip_from_id [] h = refl
strip_from_id (b ∷ []) h = refl
strip_from_id (b ∷ c ∷ rest) (ne, h) =
    let plain : (b == esc) ≡ false = ground arith in
    rw plain (ap (λ t. b ∷ t) (strip_from_id (c ∷ rest) h))

-- A text that has been stripped is not changed by stripping it again.
pub strip_ansi-strip_ansi : (s : Bytes) → strip_ansi (strip_ansi s) ≡ strip_ansi s
unfolding strip_ansi
strip_ansi-strip_ansi s = strip_from_id (strip_from false s) (strip_from-Clean false s)
