-- ===== src/Mud/Mtts.antt =====
-- mud.go: `MTTSFlag`, `Has` and `ParseMTTS`.
pub mod Laws
use telnetty.Base.{
  ℕ, ◌+◌, Bool, not, ◌&&◌, ◌||◌, Option, none, some, List, [], ◌∷◌, ◌==◌, if◌then◌else◌, Bytes,
  false, true, bit_and,
}
use telnetty.Base.Decimal.{NumError, Number, number, not_number, parse_uint}
use telnetty.Base.Text.{fields}

abbrev pub mtts_ansi : ℕ
mtts_ansi = 1

abbrev pub mtts_vt100 : ℕ
mtts_vt100 = 2

abbrev pub mtts_utf8 : ℕ
mtts_utf8 = 4

abbrev pub mtts_256_color : ℕ
mtts_256_color = 8

abbrev pub mtts_mouse : ℕ
mtts_mouse = 16

abbrev pub mtts_osc_color : ℕ
mtts_osc_color = 32

abbrev pub mtts_cscreen : ℕ
mtts_cscreen = 64

abbrev pub mtts_proxy : ℕ
mtts_proxy = 128

abbrev pub mtts_true_color : ℕ
mtts_true_color = 256

abbrev pub mtts_mnes : ℕ
mtts_mnes = 512

abbrev pub mtts_mccp : ℕ
mtts_mccp = 1024

abbrev pub mtts_msp : ℕ
mtts_msp = 2048

abbrev pub mtts_mxp : ℕ
mtts_mxp = 4096

abbrev pub mtts_ssl : ℕ
mtts_ssl = 8192

pub has : ℕ → ℕ → Bool
has f flag = not (bit_and f flag == 0)

-- `strings.EqualFold` of one code point with an upper-case letter of "MTTS"; 0x17f folds to "S".
pub folds_to : ℕ → ℕ → Bool
folds_to c upper = c == upper || c == upper + 32 || upper == 83 && c == 0x17f

pub equal_fold : Bytes → Bytes → Bool
equal_fold [] [] = true
equal_fold (c ∷ cs) (u ∷ us) = folds_to c u && equal_fold cs us
equal_fold _ _ = false

-- "MTTS"
abbrev pub mtts : Bytes
mtts = 77 ∷ 84 ∷ 84 ∷ 83 ∷ []

-- `(name, flags, err)`
abbrev pub Mtts : Type 0
Mtts = Bytes × ℕ × Option NumError

abbrev pub with_number : Bytes → Number → Mtts
with_number name (number f) = (name, f, none)
with_number name (not_number err) = (name, 0, some err)

pub parse_mtts_fields : Bytes → List Bytes → Mtts
parse_mtts_fields s (name ∷ second ∷ _) =
    if equal_fold name mtts then with_number name (parse_uint second) else (s, 0, none)
parse_mtts_fields s _ = (s, 0, none)

pub parse_mtts : Bytes → Mtts
parse_mtts s = parse_mtts_fields s (fields s)
