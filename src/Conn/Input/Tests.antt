-- ===== src/Conn/Input/Tests.antt =====
-- The reading side of a connection that enables ECHO only.
use telnetty.Base.{◌≡◌, refl, [], ◌∷◌, arith, Bytes}
use telnetty.Opt
use telnetty.Conn.Samples.{double, good, ring_of_eight-IsValid, new_parser-IsValid, fresh}
use telnetty.Ring.Invariant.{IsValid, contents}
use telnetty.Options.Sides.{us}
use telnetty.Options.{disabled, get}
use telnetty.Conn.Input.{is_option_enabled_locally, process_read}
use telnetty.Conn.Input.Data.{process_read-contents}
use telnetty.Conn.Input.Policy.{process_read-refuses}

-- "Hi", IAC DO BINARY, IAC DO ECHO, "!"
abbrev chunk : Bytes
chunk = 72 ∷ 105 ∷ 255 ∷ 253 ∷ 0 ∷ 255 ∷ 253 ∷ 1 ∷ 33 ∷ []

process_read-contents_example :
    let c' = process_read double good fresh chunk in
    IsValid 3 c'.read_buf × (contents c'.read_buf ≡ 72 ∷ 105 ∷ 33 ∷ [])
process_read-contents_example =
    process_read-contents double good fresh chunk ring_of_eight-IsValid new_parser-IsValid
      (omega arith) (omega arith)

process_read-refuses_example :
    (get (process_read double good fresh chunk).negotiator Opt.binary).us ≡ disabled
unfolding is_option_enabled_locally
process_read-refuses_example = process_read-refuses double good us Opt.binary fresh chunk refl refl
