-- ===== src/Utils/Bar.antt =====
-- utils.go: `ProgressBar`.
use native.Mathlib.Nat.{div-le_of_le-mul, mul-le-mul_right}
use telnetty.Base.{
  ℕ, ◌+◌, ◌-◌, ◌*◌, ◌/◌, ◌≤◌, ◌≡◌, ap, ◌∙◌, inl, inr, [], ◌∷◌, ◌++◌, arith, ltb, ◌==◌,
  if◌then◌else◌, Bool-cases, Bytes, length, replicate, length-append,
}
use telnetty.Slices.Append.{length-replicate}
use telnetty.Utils.{progress_bar}

length_bracketed : (s : Bytes) → length (91 ∷ s ++ 93 ∷ []) ≡ length s + 2
length_bracketed s = omega (arith, length-append s (93 ∷ []))

-- The part that is filled fits into the width.
filled-le :
    (current total width : ℕ)
    → let c = if ltb total current then total else current in c * width / total ≤ width
filled-le current total width =
    let c = if ltb total current then total else current in
    let capped : c ≤ total = ground arith in div-le_of_le-mul total (mul-le-mul_right width capped)

-- The bar is two brackets wider than `width`, whatever the numbers.
pub length-progress_bar :
    (current total width : ℕ) → length (progress_bar current total width) ≡ width + 2
unfolding progress_bar
length-progress_bar current total width =
    let filled = (if ltb total current then total else current) * width / total in
    let fits = filled-le current total width in
    let equals : ℕ = 61 in
    let minus : ℕ = 45 in
    let filled_part = replicate filled equals in
    let empty_part = replicate (width - filled) minus in
    let bar_length : length (replicate filled 61 ++ replicate (width - filled) 45) ≡ width = omega (
      arith,
      length-append filled_part empty_part,
      length-replicate filled equals,
      length-replicate (width - filled) minus,
    ) in
    elim (Bool-cases (total == 0)) [
      | inl nothing ↦
          rw nothing
            (length_bracketed (replicate width 45) ∙ ap (λ t. t + 2) (length-replicate width 45))
      | inr more ↦ rw more (
          length_bracketed (replicate filled 61 ++ replicate (width - filled) 45)
          ∙ ap (λ t. t + 2) bar_length)
    ]
