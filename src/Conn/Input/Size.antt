-- ===== src/Conn/Input/Size.antt =====
-- conn.go: the window size in `SendNAWS` and in `handleSubnegotiation`.
use telnetty.Base.{ℕ, ◌*◌, ◌/◌, ◌%◌, ◌<◌, ◌≡◌, refl, ◌∙◌, arith}
use telnetty.Base.Bits.{bit_or-disjoint}
use telnetty.Opt
use telnetty.Conn.Output.{naws_data}
use telnetty.Conn.Input.{Conn, word, handle_naws, handle_subnegotiation}

word-bytes : (w : ℕ) → w < 65536 → word (w / 256 % 256) (w % 256) ≡ w
word-bytes w h =
    let wide : w / 256 % 256 * 256 % 65536 ≡ w / 256 % 256 * 256 = omega arith in
    rw wide (bit_or-disjoint 8 (w / 256 % 256) (w % 256) (omega arith) ∙ omega arith)

-- A connection that reads the bytes of `SendNAWS` as a subnegotiation's data has the size of it, if both
-- numbers are 16 bits wide, and nothing else of it is changed.
pub handle_subnegotiation-naws_data :
    (c : Conn) (width height : ℕ)
    → width < 65536
    → height < 65536
    → handle_subnegotiation c Opt.naws (naws_data width height)
      ≡ record c { term_width = width; term_height = height }
unfolding handle_subnegotiation handle_naws
handle_subnegotiation-naws_data c width height hw hh =
    rw (word-bytes width hw, word-bytes height hh) refl
