-- ===== src/Color/Tests.antt =====
-- color.go: runs and examples.
use telnetty.Base.{◌≡◌, refl, [], ◌∷◌, Bytes, arith}
use telnetty.Base.Int.{pos}
use telnetty.Utils.{strip_ansi}
use telnetty.Base.Decimal.{digits}
use telnetty.Color.{color_parts, Color, ansi, sprint, palette, on_background, bold, rgb}
use telnetty.Color.Sgr.{strip_ansi-sprint}

abbrev red : Color
red = palette 1

-- ESC "[1;31m"
ansi-bold : ansi (bold red) ≡ 27 ∷ 91 ∷ 49 ∷ 59 ∷ 51 ∷ 49 ∷ 109 ∷ []
unfolding ansi bold color_parts digits
ansi-bold = refl

abbrev hi : Bytes
hi = 104 ∷ 105 ∷ []

strip_ansi-sprint_example : strip_ansi (sprint (rgb (on_background red (pos 0)) 255 128 0) hi) ≡ hi
strip_ansi-sprint_example =
    strip_ansi-sprint (rgb (on_background red (pos 0)) 255 128 0) hi
      (omega arith, (omega arith, tt))
