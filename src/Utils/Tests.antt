-- ===== src/Utils/Tests.antt =====
-- The text functions on short strings.
use telnetty.Base.{◌≡◌, refl, false, some, [], ◌∷◌, Bytes}
use telnetty.Utils.Lines.{Outcome, split_lines-Outcome}
use telnetty.Utils.{strip_from, strip_ansi, scan, split_lines}

-- ESC [ 3 1 m H i ESC [ 0 m
abbrev red_hi : Bytes
red_hi = 27 ∷ 91 ∷ 51 ∷ 49 ∷ 109 ∷ 72 ∷ 105 ∷ 27 ∷ 91 ∷ 48 ∷ 109 ∷ []

red_hi-stripped : strip_ansi red_hi ≡ 72 ∷ 105 ∷ []
unfolding strip_ansi strip_from
red_hi-stripped = refl

-- "a", CR LF, "b"
abbrev two_lines : Bytes
two_lines = 97 ∷ 13 ∷ 10 ∷ 98 ∷ []

two_lines-split : split_lines two_lines false ≡ (3, some (97 ∷ []))
unfolding split_lines scan
two_lines-split = refl

split_lines-Outcome_example : Outcome two_lines false (split_lines two_lines false)
split_lines-Outcome_example = split_lines-Outcome two_lines false
