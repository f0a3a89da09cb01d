-- ===== src/Utils/Width.antt =====
-- utils.go: the functions on the width of a text. A text is the list of its code points (a string
-- that is not valid UTF-8 is outside the model), a width is not negative, and `marks` is the range
-- table `unicode.Mn`.
pub mod Sums
pub mod Pad
pub mod Wrap
pub mod Box
mod Tests
use telnetty.Base.{
  ℕ, ◌+◌, ◌-◌, ◌*◌, ◌/◌, Bool, true, false, not, ◌&&◌, ◌||◌, Option, none, some, List, [], ◌∷◌,
  ◌++◌, ltb, leb, ◌==◌, if◌then◌else◌, Bytes, length, replicate,
}
use telnetty.Base.Text.{space, fields, is_space}

-- `utf8.RuneLen(r) > 1`
abbrev pub is_wide : ℕ → Bool
is_wide r = leb 128 r

abbrev pub columns : ℕ → ℕ
columns r = if is_wide r then 2 else 1

abbrev pub spaces : ℕ → Bytes
spaces n = replicate n space

-- `IsPrintable` and `Sanitize`; `prints` is `unicode.IsPrint`.
pub is_printable : (ℕ → Bool) → Bytes → Bool
is_printable prints [] = true
is_printable prints (r ∷ s) =
    let rest = is_printable prints s in if not (prints r) && not (is_space r) then false else rest

pub sanitize : (ℕ → Bool) → Bytes → Bytes
sanitize prints [] = []
sanitize prints (r ∷ s) =
    let rest = sanitize prints s in
    if prints r || r == 10 || r == 13 || r == 9 then r ∷ rest else rest

-- The loop of `Truncate`, at a width, with the room in front of the ellipsis.
pub truncate_from : Bytes → ℕ → ℕ → Bytes → Bytes
truncate_from ellipsis room width [] = []
truncate_from ellipsis room width (r ∷ s) =
    let rest = truncate_from ellipsis room (width + columns r) s in
    if ltb room (width + columns r) then ellipsis else r ∷ rest

pub record Wrapping : Type 0 where
  pub lines : List Bytes
  pub line : Bytes
  pub line_width : ℕ

abbrev pub nothing_wrapped : Wrapping
nothing_wrapped = record { lines = []; line = []; line_width = 0 }

module _ (marks : ℕ → Bool) where
  pub string_width : Bytes → ℕ
  string_width [] = 0
  string_width (r ∷ s) = let rest = string_width s in if marks r then rest else columns r + rest

  pub pad_right : Bytes → ℕ → Bytes
  pad_right s width = let w = string_width s in if leb width w then s else s ++ spaces (width - w)

  pub pad_left : Bytes → ℕ → Bytes
  pad_left s width = let w = string_width s in if leb width w then s else spaces (width - w) ++ s

  pub center : Bytes → ℕ → Bytes
  center s width =
      let w = string_width s in
      let left = (width - w) / 2 in
      let right = width - w - left in if leb width w then s else spaces left ++ s ++ spaces right

  pub truncate : Bytes → ℕ → Bytes → Bytes
  truncate s max_width ellipsis =
      let ew = string_width ellipsis in
      if leb (string_width s) max_width
      then s
      else if leb max_width ew
      then ellipsis
      else truncate_from ellipsis (max_width - ew) 0 s

  -- One word of `WordWrap`: a line that is full is put away, then the word is put behind the line.
  abbrev pub break_line : ℕ → Wrapping → ℕ → Wrapping
  break_line max_width st word_width =
      if ltb 0 st.line_width && ltb max_width (st.line_width + 1 + word_width)
      then record { lines = st.lines ++ st.line ∷ []; line = []; line_width = 0 }
      else st

  abbrev pub put_space : Wrapping → Wrapping
  put_space st =
      if ltb 0 st.line_width
      then record st { line = st.line ++ space ∷ []; line_width = st.line_width + 1 }
      else st

  abbrev pub put_word : Wrapping → Bytes → Wrapping
  put_word st word = record st {
    line = st.line ++ word;
    line_width = st.line_width + string_width word;
  }

  pub wrap_words : ℕ → Wrapping → List Bytes → List Bytes
  wrap_words max_width st [] = if ltb 0 (length st.line) then st.lines ++ st.line ∷ [] else st.lines
  wrap_words max_width st (word ∷ words) =
      wrap_words max_width (put_word (put_space (break_line max_width st (string_width word))) word)
        words

  pub word_wrap : Bytes → ℕ → List Bytes
  word_wrap text max_width =
      wrap_words (if max_width == 0 then 80 else max_width) nothing_wrapped (fields text)

  -- The loop of `Box` over the widths.
  pub widest : ℕ → List Bytes → ℕ
  widest width [] = width
  widest width (line ∷ lines) =
      widest (if ltb width (string_width line) then string_width line else width) lines

  -- "+", minus signs and "+"; "| ", the line and " |".
  abbrev pub border : ℕ → Bytes
  border width = 43 ∷ replicate (width - 2) 45 ++ 43 ∷ []

  abbrev pub box_line : ℕ → Bytes → Bytes
  box_line width line = 124 ∷ space ∷ pad_right line (width - 4) ++ space ∷ 124 ∷ []

  abbrev pub box_lines : ℕ → List Bytes → Bytes
  box_lines width [] = []
  box_lines width (line ∷ lines) = box_line width line ++ 10 ∷ box_lines width lines

  -- `Box`; `strings.Repeat` of a negative number panics.
  pub box : List Bytes → ℕ → Option Bytes
  box lines width =
      let w = if width == 0 then widest 0 lines + 4 else width in
      let top = border w in if ltb w 2 then none else some (top ++ 10 ∷ box_lines w lines ++ top)
