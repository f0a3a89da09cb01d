-- ===== src/Codec.antt =====
-- parser.go: the functions that write TELNET sequences into a caller's slice. A slice is the list
-- of its bytes; a function returns the count and what the slice holds afterwards. A write out of
-- range, where Go would panic, changes nothing.
pub mod Escape
pub mod Copy
pub mod Laws
mod Tests
use telnetty.Base.{ℕ, ◌+◌, [], ◌∷◌, ltb, ◌==◌, if◌then◌else◌, Bytes, length, set}
use telnetty.Base.Int.{ℤ, pos, neg}
use telnetty.Cmd

-- `required` behind the counting loops, from a start value
pub required_from : ℕ → Bytes → ℕ
required_from n [] = n
required_from n (b ∷ bs) = required_from (if b == Cmd.iac then n + 1 + 1 else n + 1) bs

-- `required := len(src)` and the loop of `EscapeIAC`
pub doubled_from : ℕ → Bytes → ℕ
doubled_from n [] = n
doubled_from n (b ∷ bs) = doubled_from (if b == Cmd.iac then n + 1 else n) bs

-- The loop that copies `src` into `dst` from index `n` on, with each IAC twice.
pub copy_escaped : Bytes → ℕ → Bytes → ℕ × Bytes
copy_escaped dst n [] = (n, dst)
copy_escaped dst n (b ∷ bs) =
    let plain = set dst n b in
    let next = if b == Cmd.iac then set plain (n + 1) Cmd.iac else plain in
    copy_escaped next (if b == Cmd.iac then n + 1 + 1 else n + 1) bs

unfoldable pub escape_iac : Bytes → Bytes → ℤ × Bytes
unfolding doubled_from copy_escaped
escape_iac dst src =
    let required = doubled_from (length src) src in
    let (n, out) = copy_escaped dst 0 src in
    if ltb (length dst) required then (neg required, dst) else (pos n, out)

unfoldable pub build_command : Bytes → ℕ → ℕ → ℤ × Bytes
build_command dst cmd option =
    if ltb (length dst) 3
    then (neg 3, dst)
    else (pos 3, set (set (set dst 0 Cmd.iac) 1 cmd) 2 option)

unfoldable pub build_subnegotiation : Bytes → ℕ → Bytes → ℤ × Bytes
unfolding required_from copy_escaped
build_subnegotiation dst option payload =
    let required = required_from 3 payload + 2 in
    let head = set (set (set dst 0 Cmd.iac) 1 Cmd.sb) 2 option in
    let (n, body) = copy_escaped head 3 payload in
    let out = set (set body n Cmd.iac) (n + 1) Cmd.se in
    if ltb (length dst) required then (neg required, dst) else (pos (n + 2), out)
