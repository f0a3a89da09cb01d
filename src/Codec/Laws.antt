-- ===== src/Codec/Laws.antt =====
-- The functions of `Codec` (parser.go: EscapeIAC, BuildCommand, BuildSubnegotiation) against the
-- sequences that their names say.
use telnetty.Base.{
  ℕ, ◌+◌, ◌≤◌, ◌≡◌, refl, ap, ap₂, ◌∙◌, inl, inr, [], ◌∷◌, ◌++◌, arith, ltb, if◌then◌else◌,
  Bool-cases, Bytes, length, set, drop, length-append,
}
use telnetty.Base.Int.{ℤ, pos, neg}
use telnetty.Cmd
use telnetty.Codec.Copy.{over, over-over, length-over, set-set-over, join_pieces, copy_escaped-over}
use telnetty.Codec.Escape.{escaped, frame, doubled_from-escaped, required_from-escaped}
use telnetty.Codec.{
  doubled_from, required_from, copy_escaped, escape_iac, build_command, build_subnegotiation,
}

-- What a caller of one of the functions sees: the sequence at the front of `dst` and its length, or
-- minus that length and `dst` as it was.
abbrev pub Writes : Bytes → Bytes → ℤ × Bytes → Type 0
Writes dst p r = r ≡ (
    if ltb (length dst) (length p)
    then (neg (length p), dst)
    else (pos (length p), p ++ drop (length p) dst))

from_zero : (dst p : Bytes) → over dst 0 p ≡ p ++ drop (length p) dst
from_zero dst p = ap (λ t. p ++ drop t dst) {x = 0 + length p} {y = length p} (omega arith)

abbrev prelude : ℕ → Bytes
prelude option = Cmd.iac ∷ Cmd.sb ∷ option ∷ []

head_written :
    (dst : Bytes) (option : ℕ)
    → 3 ≤ length dst
    → set (set (set dst 0 Cmd.iac) 1 Cmd.sb) 2 option ≡ over dst 0 (prelude option)
head_written [] option h = absurd (omega arith)
head_written (x ∷ []) option h = absurd (omega arith)
head_written (x ∷ y ∷ []) option h = absurd (omega arith)
head_written (x ∷ y ∷ z ∷ dst) option h = refl

abbrev body_of : Bytes → ℕ → Bytes → ℕ × Bytes
body_of dst option payload =
    copy_escaped (set (set (set dst 0 Cmd.iac) 1 Cmd.sb) 2 option) 3 payload

frame_written :
    (dst : Bytes) (option : ℕ) (payload : Bytes)
    → length (frame option payload) ≤ length dst
    → let (n, body) = body_of dst option payload in
      (n ≡ 3 + length (escaped payload))
      × (set (set body n Cmd.iac) (n + 1) Cmd.se ≡ over dst 0 (frame option payload))
frame_written dst option payload h =
    let p = prelude option in
    let q = escaped payload in
    let n : ℕ = 3 + length q in
    let lengths = length-append q (Cmd.iac ∷ Cmd.se ∷ []) in
    let same = length-over dst p 0 (omega arith) in
    let same' = length-over dst (p ++ q) 0 (omega arith) in
    let body : body_of dst option payload ≡ (n, over dst 0 (p ++ q)) =
      ap (λ t. copy_escaped t 3 payload) (head_written dst option (omega arith))
      ∙ join_pieces dst p q 0 3 n refl refl (omega arith)
          (copy_escaped-over payload (over dst 0 p) 3 (omega arith)) in
    rw body (
      refl,
      set-set-over (over dst 0 (p ++ q)) n Cmd.iac Cmd.se (omega arith)
          ∙ over-over dst (p ++ q) (Cmd.iac ∷ Cmd.se ∷ []) 0 n (omega arith) (omega arith),
    )

-- `EscapeIAC` writes the escaped bytes if they fit, and else asks for their number.
pub escape_iac-Writes : (dst src : Bytes) → Writes dst (escaped src) (escape_iac dst src)
unfolding escape_iac
escape_iac-Writes dst src =
    let e : doubled_from (length src) src ≡ length (escaped src) =
      ap (λ t. doubled_from t src) {x = length src} {y = 0 + length src} (omega arith)
      ∙ doubled_from-escaped src 0
      ∙ omega arith in
    elim (Bool-cases (ltb (length dst) (length (escaped src)))) [
      | inl short ↦ rw (e, short)
      | inr fits ↦
          let r = copy_escaped-over src dst 0 (ground arith) in
          rw (e, fits, r)
            (ap₂ (λ u v. (pos u, v)) {x = 0 + length (escaped src)} {y = length (escaped src)}
              (omega arith) (from_zero dst (escaped src)))
    ]

-- `BuildCommand` writes IAC, the command and the option.
pub build_command-Writes :
    (dst : Bytes) (cmd option : ℕ)
    → Writes dst (Cmd.iac ∷ cmd ∷ option ∷ []) (build_command dst cmd option)
unfolding build_command
build_command-Writes [] cmd option = refl
build_command-Writes (x ∷ []) cmd option = refl
build_command-Writes (x ∷ y ∷ []) cmd option = refl
build_command-Writes (x ∷ y ∷ z ∷ dst) cmd option = ground arith

-- `BuildSubnegotiation` writes a whole frame, its payload escaped.
pub build_subnegotiation-Writes :
    (dst : Bytes) (option : ℕ) (payload : Bytes)
    → Writes dst (frame option payload) (build_subnegotiation dst option payload)
unfolding build_subnegotiation
build_subnegotiation-Writes dst option payload =
    let size = length (frame option payload) in
    let tail_length = length-append (escaped payload) (Cmd.iac ∷ Cmd.se ∷ []) in
    let e : required_from 3 payload + 2 ≡ size = omega (arith, required_from-escaped payload 3) in
    elim (Bool-cases (ltb (length dst) size)) [
      | inl short ↦ rw (e, short)
      | inr fits ↦
          let (n_is, out_is) = frame_written dst option payload (ground arith) in
          rw (e, fits)
            (ap₂ (λ u v. (pos u, v)) (omega (arith, n_is))
              (out_is ∙ from_zero dst (frame option payload)))
    ]

-- `EscapeIAC`, `BuildCommand` and `BuildSubnegotiation` each write their sequence at the front of
-- `dst` and return its length if it fits there; if not, they return minus that length and leave
-- `dst` as it was.
pub writers-Writes :
    (dst src : Bytes) (cmd option : ℕ)
    → Writes dst (escaped src) (escape_iac dst src)
      × Writes dst (Cmd.iac ∷ cmd ∷ option ∷ []) (build_command dst cmd option)
      × Writes dst (frame option src) (build_subnegotiation dst option src)
writers-Writes dst src cmd option = (
  escape_iac-Writes dst src,
  build_command-Writes dst cmd option,
  build_subnegotiation-Writes dst option src,
)
