-- ===== src/Color.antt =====
-- color.go: `Color` and its methods, `WriteColor`, `Color256` and `Bg256`. A slice of attributes is
-- a list: that `append` may write to an array which two colors share is not modelled.
pub mod Sgr
pub mod Parse
mod Tests
use telnetty.Base.{
  ℕ, zero, suc, ◌+◌, ◌-◌, ◌*◌, ◌/◌, ◌%◌, ◌^◌, ◌≤◌, ◌<◌, min, bit_and, bit_or, ◌≡◌, refl, sym, ap,
  ap₂, ◌∙◌, ◌≢◌, ◌↔◌, ◌⊎◌, inl, inr, Bool, true, false, not, ◌&&◌, ◌||◌, Option, none, some, List,
  [], ◌∷◌, ◌++◌, map, append-nil, append_assoc, arith, ltb, leb, ◌==◌, if◌then◌else◌, ==_iff,
  Bool-cases, Bytes, length, get_or, set, take, drop, replicate, length-append, length-set,
  get_or-set_self, get_or-set_ne, set-get_or, set-set, by_if, length-take, length-drop, take-nil,
  drop-nil, take_all, drop_all, take-append-drop, take-append, take-append_exact, drop-append_exact,
  take-add, drop-drop,
}
use telnetty.Base.Int.{ℤ, pos, negsuc}
use telnetty.Base.Decimal.{itoa}
use telnetty.Base.Text.{joined}
use telnetty.Slices.{Growth}
use telnetty.Conn.Output.{WriteError, Socket, Out, write}

pub record Color : Type 0 where
  pub fg : ℤ
  pub bg : ℤ
  pub attrs : List ℤ
  pub true_color : Bool
  pub r : ℕ
  pub g : ℕ
  pub b : ℕ

abbrev pub semicolon : ℕ
semicolon = 59

-- `strconv.Itoa`
abbrev pub int_itoa : ℤ → Bytes
int_itoa (pos n) = itoa n
int_itoa (negsuc n) = 45 ∷ itoa (n + 1)

abbrev pub itoas : List ℤ → List Bytes
itoas [] = []
itoas (n ∷ ns) = int_itoa n ∷ itoas ns

-- `strings.Join(parts, ";")`
abbrev pub join : List Bytes → Bytes
join parts = joined semicolon parts

-- `fmt.Sprintf("38;2;%d;%d;%d", …)`, with "38" or "48" in front.
abbrev pub rgb_part : ℕ → ℕ → ℕ → ℕ → Bytes
rgb_part lead r g b = join (itoa lead ∷ itoa 2 ∷ itoa r ∷ itoa g ∷ itoa b ∷ [])

-- The parts of a number that is not negative; `>> 8` is `/ 256` and `& 0xFF` is `% 256`.
abbrev pub unless_negative : ℤ → (ℕ → Bytes) → List Bytes
unless_negative (pos n) part = part n ∷ []
unless_negative (negsuc n) part = []

pub color_parts : Color → List Bytes
color_parts c =
    if c.true_color
    then rgb_part 38 c.r c.g c.b
      ∷ unless_negative c.bg (λ n. rgb_part 48 (n / 65536) (n / 256 % 256) (n % 256))
    else unless_negative c.fg (λ n. itoa (n + 30)) ++ unless_negative c.bg (λ n. itoa (n + 40))

-- ESC [ … m
abbrev pub sgr : Bytes → Bytes
sgr body = 27 ∷ 91 ∷ body ++ 109 ∷ []

abbrev pub reset : Bytes
reset = sgr (48 ∷ [])

abbrev pub ansi_of : List Bytes → Bytes
ansi_of [] = reset
ansi_of (part ∷ parts) = sgr (join (part ∷ parts))

pub ansi : Color → Bytes
ansi c = ansi_of (itoas c.attrs ++ color_parts c)

-- A color of the palette as foreground.
abbrev pub palette : ℕ → Color
palette n = record {
  fg = pos n;
  bg = negsuc 0;
  attrs = [];
  true_color = false;
  r = 0;
  g = 0;
  b = 0;
}

abbrev pub attr_bold : ℕ
attr_bold = 1

abbrev pub attr_underline : ℕ
attr_underline = 4

abbrev pub attr_blink : ℕ
attr_blink = 5

abbrev pub attr_reverse : ℕ
attr_reverse = 7

abbrev pub with_attr : ℕ → Color → Color
with_attr n c = record c { attrs = c.attrs ++ pos n ∷ [] }

pub bold : Color → Color
bold c = with_attr attr_bold c

pub underline : Color → Color
underline c = with_attr attr_underline c

pub blink : Color → Color
blink c = with_attr attr_blink c

pub reverse : Color → Color
reverse c = with_attr attr_reverse c

pub on_background : Color → ℤ → Color
on_background c bg = record c { bg = bg }

pub rgb : Color → ℕ → ℕ → ℕ → Color
rgb c r g b = record c { true_color = true; r = r; g = g; b = b }

pub sprint : Color → Bytes → Bytes
sprint c s = ansi c ++ s ++ reset

-- The count and the error that are returned: the errors of the first and the last write are dropped.
pub write_color : Growth → Socket → Out → Bytes → Color → ℕ × Option WriteError × Out
write_color grow net o text c =
    let (n₁, e₁, o₁) = write grow net o (ansi c) in
    let (n₂, e₂, o₂) = write grow net o₁ text in
    let (n₃, e₃, o₃) = write grow net o₂ reset in (n₁ + n₂ + n₃, e₂, o₃)

abbrev pub extended : ℕ → ℕ → Color
extended lead code = record {
  fg = negsuc 0;
  bg = negsuc 0;
  attrs = pos lead ∷ pos 5 ∷ pos code ∷ [];
  true_color = false;
  r = 0;
  g = 0;
  b = 0;
}

pub color256 : ℕ → Color
color256 code = extended 38 code

pub bg256 : ℕ → Color
bg256 code = extended 48 code
