-- ===== src/Utils/Width/Box.antt =====
-- utils.go: `Box`.
use telnetty.Base.{ℕ, ◌≤◌, ◌≡◌, Bool, List, [], ◌∷◌, ◌++◌, map, Bytes}
use telnetty.Utils.Width.{string_width, border, box_line}

abbrev pub newline : ℕ
newline = 10

module _ (marks : ℕ → Bool) where
  -- No line is wider.
  abbrev pub AllFit : ℕ → List Bytes → Type 0
  AllFit w [] = Unit
  AllFit w (line ∷ lines) = (string_width marks line ≤ w) × AllFit w lines

  -- Each line has this width.
  abbrev pub AllAre : ℕ → List Bytes → Type 0
  AllAre w [] = Unit
  AllAre w (line ∷ lines) = (string_width marks line ≡ w) × AllAre w lines

  abbrev pub rows : ℕ → List Bytes → List Bytes
  rows w lines = border marks w ∷ map (box_line marks w) lines ++ border marks w ∷ []
