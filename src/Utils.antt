-- ===== src/Utils.antt =====
-- utils.go: the functions on bytes. A string is the list of its bytes.
pub mod Ansi
pub mod Lines
pub mod Bar
pub mod Width
mod Tests
use telnetty.Base.{
  ℕ, ◌+◌, ◌-◌, ◌*◌, ◌/◌, Bool, true, false, not, ◌&&◌, Option, none, some, [], ◌∷◌, ◌++◌, ltb, leb,
  ◌==◌, if◌then◌else◌, Bytes, length, get_or, take, replicate,
}

abbrev pub esc : ℕ
esc = 27

-- `s[i] >= 0x40 && s[i] <= 0x7E`
abbrev pub is_final : ℕ → Bool
is_final b = leb 64 b && leb b 126

-- The loop of `StripANSI`; `in_csi` is set while the inner loop consumes a CSI sequence. An ESC that is
-- the last byte is kept.
unfoldable pub strip_from : Bool → Bytes → Bytes
strip_from true [] = []
strip_from true (b ∷ rest) =
    let out = strip_from false rest in
    let more = strip_from true rest in if is_final b then out else more
strip_from false [] = []
strip_from false (b ∷ []) = b ∷ []
strip_from false (b ∷ c ∷ rest) =
    let csi = strip_from true rest in
    let out = strip_from false rest in
    let plain = strip_from false (c ∷ rest) in
    if b == esc then (if c == 91 then csi else out) else b ∷ plain

unfoldable pub strip_ansi : Bytes → Bytes
strip_ansi s = strip_from false s

-- `SplitLines`: the loop at index `i` with `rest` to come; the result is the advance and the token.
pub scan : Bytes → ℕ → Bytes → Option (ℕ × Bytes)
scan input i [] = none
scan input i (b ∷ rest) =
    let later = scan input (i + 1) rest in
    if b == 10
    then some (i + 1, take i input)
    else if b == 13
    then some (if get_or rest 0 0 == 10 then i + 2 else i + 1, take i input)
    else later

-- The error is nil on every path; no token is `none`.
pub split_lines : Bytes → Bool → ℕ × Option Bytes
split_lines input at_eof = elim (scan input 0 input) [
  | some (n, token) ↦ (n, some token)
  | none ↦ if at_eof && not (length input == 0) then (length input, some input) else (0, none)
]

-- `ProgressBar`, for numbers that are not negative: "[", a number of "=" and of "-", "]".
pub progress_bar : ℕ → ℕ → ℕ → Bytes
progress_bar current total width =
    let c = if ltb total current then total else current in
    let filled = c * width / total in
    if total == 0
    then 91 ∷ replicate width 45 ++ 93 ∷ []
    else 91 ∷ (replicate filled 61 ++ replicate (width - filled) 45) ++ 93 ∷ []
