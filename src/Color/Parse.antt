-- ===== src/Color/Parse.antt =====
-- color.go: `ParseColor`. A text is the list of its code points; `beyond` is `unicode.ToLower`
-- outside ASCII.
use telnetty.Base.{
  ℕ, ◌+◌, ◌-◌, ◌*◌, ◌/◌, ◌%◌, ◌<◌, ◌≡◌, refl, ap, ◌∙◌, inl, inr, false, ◌&&◌, Option, none, some,
  List, [], ◌∷◌, ◌++◌, arith, ltb, leb, ◌==◌, if◌then◌else◌, Bool-cases, Bytes,
}
use telnetty.Base.Text.{
  is_space, same_bytes, byte_length, trim_space, to_lower, IsPlain, ArePlain, to_lower-trim_space,
  byte_length-length,
}
use telnetty.Color.{Color, palette, bold, underline, rgb}

abbrev pub hash : ℕ
hash = 35

-- The colors with a name.
abbrev pub names : List (Bytes × Color)
names =
    (98 ∷ 108 ∷ 97 ∷ 99 ∷ 107 ∷ [], palette 0)
    ∷ (114 ∷ 101 ∷ 100 ∷ [], palette 1)
    ∷ (103 ∷ 114 ∷ 101 ∷ 101 ∷ 110 ∷ [], palette 2)
    ∷ (121 ∷ 101 ∷ 108 ∷ 108 ∷ 111 ∷ 119 ∷ [], palette 3)
    ∷ (98 ∷ 108 ∷ 117 ∷ 101 ∷ [], palette 4)
    ∷ (109 ∷ 97 ∷ 103 ∷ 101 ∷ 110 ∷ 116 ∷ 97 ∷ [], palette 5)
    ∷ (99 ∷ 121 ∷ 97 ∷ 110 ∷ [], palette 6)
    ∷ (119 ∷ 104 ∷ 105 ∷ 116 ∷ 101 ∷ [], palette 7)
    ∷ (98 ∷ 111 ∷ 108 ∷ 100 ∷ [], bold (palette 9))
    ∷ (117 ∷ 110 ∷ 100 ∷ 101 ∷ 114 ∷ 108 ∷ 105 ∷ 110 ∷ 101 ∷ [], underline (palette 9))
    ∷ []

-- The `switch` over the names.
pub named : Bytes → List (Bytes × Color) → Option Color
named s [] = none
named s ((name, c) ∷ rest) = let later = named s rest in if same_bytes s name then some c else later

pub hex_value : ℕ → Option ℕ
hex_value c =
    if leb 48 c && leb c 57
    then some (c - 48)
    else if leb 97 c && leb c 102
    then some (c - 87)
    else if leb 65 c && leb c 70
    then some (c - 55)
    else none

-- What `fmt.Sscanf` does for "%02x": blanks are skipped, a newline is an error, and one or two
-- digits are read.
pub skip_blanks : Bytes → Option Bytes
skip_blanks [] = some []
skip_blanks (c ∷ s) =
    let rest = skip_blanks s in if c == 10 then none else if is_space c then rest else some (c ∷ s)

abbrev second_of : ℕ → ℕ → Bytes → Option ℕ → ℕ × Bytes
second_of h c s (some l) = (h * 16 + l, s)
second_of h c s none = (h, c ∷ s)

abbrev second_digit : ℕ → Bytes → ℕ × Bytes
second_digit h [] = (h, [])
second_digit h (c ∷ s) = second_of h c s (hex_value c)

abbrev first_of : Bytes → Option ℕ → Option (ℕ × Bytes)
first_of s (some h) = some (second_digit h s)
first_of s none = none

abbrev first_digit : Option Bytes → Option (ℕ × Bytes)
first_digit none = none
first_digit (some []) = none
first_digit (some (c ∷ s)) = first_of s (hex_value c)

pub scan_pair : Bytes → Option (ℕ × Bytes)
scan_pair s = first_digit (skip_blanks s)

-- The three numbers; a failure leaves the ones behind it 0.
abbrev blue_of : ℕ → ℕ → Option (ℕ × Bytes) → ℕ × ℕ × ℕ
blue_of r g none = (r, g, 0)
blue_of r g (some (b, s)) = (r, g, b)

abbrev green_of : ℕ → Option (ℕ × Bytes) → ℕ × ℕ × ℕ
green_of r none = (r, 0, 0)
green_of r (some (g, s)) = blue_of r g (scan_pair s)

abbrev red_of : Option (ℕ × Bytes) → ℕ × ℕ × ℕ
red_of none = (0, 0, 0)
red_of (some (r, s)) = green_of r (scan_pair s)

pub scan_rgb : Bytes → ℕ × ℕ × ℕ
scan_rgb s = red_of (scan_pair s)

abbrev with_rgb : ℕ × ℕ × ℕ → Color
with_rgb (r, g, b) = rgb (palette 9) r g b

abbrev hex_color : Bytes → Color
hex_color [] = palette 9
hex_color (c ∷ s) =
    if c == hash && byte_length (c ∷ s) == 7 then with_rgb (scan_rgb s) else palette 9

abbrev picked : Bytes → Option Color → Color
picked s (some c) = c
picked s none = hex_color s

pub parse_color : (ℕ → ℕ) → Bytes → Color
parse_color beyond text = let s = to_lower beyond (trim_space text) in picked s (named s names)

-- The notation "#rrggbb".
abbrev pub hex_digit : ℕ → ℕ
hex_digit d = if ltb d 10 then d + 48 else d + 87

abbrev pub hex_pair : ℕ → Bytes
hex_pair n = hex_digit (n / 16) ∷ hex_digit (n % 16) ∷ []

abbrev pub hex_text : ℕ → ℕ → ℕ → Bytes
hex_text r g b = hash ∷ hex_pair r ++ hex_pair g ++ hex_pair b

hex_digit-IsPlain : (d : ℕ) → d < 16 → IsPlain (hex_digit d)
unfolding is_space
hex_digit-IsPlain d h = elim (Bool-cases (ltb d 10)) [
  | inl low ↦ record { ink = ground arith; narrow = ground arith; small = ground arith }
  | inr high ↦ record { ink = ground arith; narrow = ground arith; small = ground arith }
]

hex_value-hex_digit : (d : ℕ) → d < 16 → hex_value (hex_digit d) ≡ some d
unfolding hex_value
hex_value-hex_digit d h = elim (Bool-cases (ltb d 10)) [
  | inl low ↦ ground arith
  | inr high ↦ ground arith
]

hex_digit-newline : (d : ℕ) → d < 16 → (hex_digit d == 10) ≡ false
hex_digit-newline d h = elim (Bool-cases (ltb d 10)) [
  | inl low ↦ ground arith
  | inr high ↦ ground arith
]

skip_blanks-ink :
    (c : ℕ) (s : Bytes)
    → (c == 10) ≡ false
    → is_space c ≡ false
    → skip_blanks (c ∷ s) ≡ some (c ∷ s)
unfolding skip_blanks
skip_blanks-ink c s no_newline ink = rw (no_newline, ink) refl

scan_pair-digits :
    (h l : ℕ) (rest : Bytes)
    → h < 16
    → l < 16
    → scan_pair (hex_digit h ∷ hex_digit l ∷ rest) ≡ some (h * 16 + l, rest)
unfolding scan_pair
scan_pair-digits h l rest hh hl =
    ap first_digit (
      skip_blanks-ink (hex_digit h) (hex_digit l ∷ rest) (hex_digit-newline h hh)
        (hex_digit-IsPlain h hh).ink)
    ∙ ap (first_of (hex_digit l ∷ rest)) (hex_value-hex_digit h hh)
    ∙ ap (λ v. some (second_of h (hex_digit l) rest v)) (hex_value-hex_digit l hl)

scan_pair-hex : (n : ℕ) (rest : Bytes) → n < 256 → scan_pair (hex_pair n ++ rest) ≡ some (n, rest)
scan_pair-hex n rest h =
    scan_pair-digits (n / 16) (n % 16) rest (omega arith) (omega arith)
    ∙ ap (λ m. some (m, rest)) (omega arith)

module _ (r g b : ℕ) (small_r : r < 256) (small_g : g < 256) (small_b : b < 256) where
  scan_rgb-hex : scan_rgb (hex_pair r ++ hex_pair g ++ hex_pair b) ≡ (r, g, b)
  unfolding scan_rgb
  scan_rgb-hex =
      ap red_of (scan_pair-hex r (hex_pair g ++ hex_pair b) small_r)
      ∙ ap (green_of r) (scan_pair-hex g (hex_pair b) small_g)
      ∙ ap (blue_of r g) (scan_pair-hex b [] small_b)

  hex_text-ArePlain : ArePlain (hex_text r g b)
  unfolding is_space
  hex_text-ArePlain = (
    record { ink = refl; narrow = refl; small = refl },
    (
      hex_digit-IsPlain (r / 16) (omega arith),
      (
        hex_digit-IsPlain (r % 16) (omega arith),
        (
          hex_digit-IsPlain (g / 16) (omega arith),
          (
            hex_digit-IsPlain (g % 16) (omega arith),
            (
              hex_digit-IsPlain (b / 16) (omega arith),
              (hex_digit-IsPlain (b % 16) (omega arith), tt),
            ),
          ),
        ),
      ),
    ),
  )

  -- `ParseColor` reads the notation "#rrggbb" with small letters as the default color with the
  -- true-color foreground of these three bytes.
  pub parse_color-hex_text :
      (beyond : ℕ → ℕ) → parse_color beyond (hex_text r g b) ≡ rgb (palette 9) r g b
  unfolding parse_color named
  parse_color-hex_text beyond =
      ap (λ s. picked s (named s names))
        (to_lower-trim_space beyond (hex_text r g b) hex_text-ArePlain)
      ∙ ap
          (λ n.
            if n == 7
            then with_rgb (scan_rgb (hex_pair r ++ hex_pair g ++ hex_pair b))
            else palette 9)
          (byte_length-length (hex_text r g b) hex_text-ArePlain)
      ∙ ap with_rgb scan_rgb-hex
