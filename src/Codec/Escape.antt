-- ===== src/Codec/Escape.antt =====
-- Escaped data and frames, and the counting loops of the writers.
use telnetty.Base.{ℕ, suc, ◌+◌, ◌≡◌, [], ◌∷◌, ◌++◌, arith, ◌==◌, if◌then◌else◌, Bytes, length}
use telnetty.Cmd
use telnetty.Codec.{required_from, doubled_from}

-- Each IAC byte twice.
abbrev pub escaped : Bytes → Bytes
escaped [] = []
escaped (b ∷ bs) = if b == Cmd.iac then b ∷ Cmd.iac ∷ escaped bs else b ∷ escaped bs

-- IAC SB option … IAC SE
abbrev pub frame : ℕ → Bytes → Bytes
frame option payload = Cmd.iac ∷ Cmd.sb ∷ option ∷ (escaped payload ++ (Cmd.iac ∷ Cmd.se ∷ []))

pub doubled_from-escaped :
    (bs : Bytes) (n : ℕ) → doubled_from (n + length bs) bs ≡ n + length (escaped bs)
unfolding doubled_from
doubled_from-escaped [] n = omega arith
doubled_from-escaped (b ∷ bs) n =
    let e : n + suc (length bs) ≡ n + 1 + length bs = omega arith in
    let f : n + 1 + length bs + 1 ≡ n + 1 + 1 + length bs = omega arith in
    rw e (ground (arith, f, doubled_from-escaped bs (n + 1), doubled_from-escaped bs (n + 1 + 1)))

pub required_from-escaped : (bs : Bytes) (n : ℕ) → required_from n bs ≡ n + length (escaped bs)
unfolding required_from
required_from-escaped [] n = omega arith
required_from-escaped (b ∷ bs) n =
    ground (arith, required_from-escaped bs (n + 1), required_from-escaped bs (n + 1 + 1))
