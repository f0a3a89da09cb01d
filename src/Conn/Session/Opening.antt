-- ===== src/Conn/Session/Opening.antt =====
-- conn.go: what `NewConn` sends and the state that it leaves.
use telnetty.Base.{
  ℕ, ◌/◌, ◌%◌, ◌^◌, ◌≤◌, ◌≡◌, refl, sym, ap, ◌∙◌, Bool, true, false, List, [], ◌∷◌, ◌++◌,
  append-nil, append_assoc, arith, if◌then◌else◌, Bytes,
}
use telnetty.Cmd
use telnetty.Opt
use telnetty.Slices.{Growth, Fits}
use telnetty.Slices.Append.{IsSlice}
use telnetty.Pool.{Pools, get_buf}
use telnetty.Codec.Escape.{escaped, frame}
use telnetty.Ring.{new_ring}
use telnetty.Ring.Invariant.{IsValid, contents}
use telnetty.Ring.Size.{new_ring-IsValid}
use telnetty.Conn.Output.Flag.{closed-send_command, closed-send_subnegotiation}
use telnetty.Conn.Output.{Socket, Out, send_naws, naws_data}
use telnetty.Conn.Output.Extend.{IsWriter, stream, flush-wire}
use telnetty.Conn.Output.Stream.{send_command-stream, send_subnegotiation-stream}
use telnetty.Conn.Output.Results.{Works, no-error}
use telnetty.Conn.Input.{Config}
use telnetty.Conn.Session.{
  Sizes, buffer_size, announce, announce_all, first_options, last_options, announce_size,
  negotiate_initial, new_out, new_conn,
}

-- IAC WILL and the option, for each option that is on.
abbrev pub wills : List (Bool × ℕ) → Bytes
wills [] = []
wills ((on, option) ∷ rest) = if on then 255 ∷ 251 ∷ option ∷ wills rest else wills rest

-- IAC WILL NAWS and the frame of the terminal's size, two bytes each, high byte first.
abbrev pub size_wills : Bool → ℕ → ℕ → Bytes
size_wills on width height =
    if on
    then 255
        ∷ 251
        ∷ 31
        ∷ 255
        ∷ 250
        ∷ 31
        ∷ escaped (width / 256 % 256 ∷ width % 256 ∷ height / 256 % 256 ∷ height % 256 ∷ [])
      ++ 255 ∷ 240 ∷ []
    else []

-- The flags of a configuration with the codes of their options, as the registry of TELNET options and
-- the MUD protocols number them, before and behind NAWS.
abbrev pub codes_before : Config → List (Bool × ℕ)
codes_before cfg = (cfg.enable_binary, 0) ∷ (cfg.enable_sga, 3) ∷ (cfg.enable_echo, 1) ∷ []

abbrev pub codes_behind : Config → List (Bool × ℕ)
codes_behind cfg =
    (cfg.enable_ttype, 24)
    ∷ (cfg.enable_term_speed, 32)
    ∷ (cfg.enable_new_environ, 39)
    ∷ (cfg.enable_charset, 42)
    ∷ (cfg.enable_mccp2, 86)
    ∷ (cfg.enable_mccp3, 87)
    ∷ (cfg.enable_msdp, 69)
    ∷ (cfg.enable_gmcp, 201)
    ∷ (cfg.enable_mssp, 70)
    ∷ (cfg.enable_mcp, 200)
    ∷ []

-- What a new connection says first.
abbrev pub opening : Config → Sizes → Bytes
opening cfg z =
    wills (codes_before cfg)
    ++ size_wills cfg.enable_naws z.terminal_width z.terminal_height
    ++ wills (codes_behind cfg)

three_more : (s a b c : Bytes) → ((s ++ a) ++ b) ++ c ≡ s ++ ((a ++ b) ++ c)
three_more s a b c = simp (append_assoc) refl

wills-cons :
    (on : Bool) (option : ℕ) (rest : List (Bool × ℕ))
    → (if on then Cmd.iac ∷ Cmd.will ∷ option ∷ [] else []) ++ wills rest
      ≡ wills ((on, option) ∷ rest)
wills-cons true option rest = refl
wills-cons false option rest = refl

module _ (grow : Growth) (fits : Fits grow) (net : Socket) (contract : IsWriter net)
    (works : Works net) where
  -- An open connection that has put `p` behind the stream.
  abbrev Says : Out → Bytes → Out → Type 0
  Says o p o' = IsSlice o'.buf × (o'.closed ≡ false) × (stream o' ≡ stream o ++ p)

  announce-Says :
      (on : Bool) (option : ℕ) (o : Out)
      → IsSlice o.buf
      → o.closed ≡ false
      → Says o (if on then Cmd.iac ∷ Cmd.will ∷ option ∷ [] else []) (announce grow net on option o)
  unfolding announce
  announce-Says false option o v live = (v, live, sym (append-nil (stream o)))
  announce-Says true option o v live =
      let (_, sent, _, _) = no-error grow net works o [] Cmd.will option live in
      let (v', same) = send_command-stream grow fits net contract o v Cmd.will option sent in
      (v', closed-send_command grow net o Cmd.will option ∙ live, same)

  announce_all-Says :
      (options : List (Bool × ℕ)) (o : Out)
      → IsSlice o.buf
      → o.closed ≡ false
      → Says o (wills options) (announce_all grow net options o)
  unfolding announce_all
  announce_all-Says [] o v live = (v, live, sym (append-nil (stream o)))
  announce_all-Says ((on, option) ∷ rest) o v live =
      let o' = announce grow net on option o in
      let (v', live', same) = announce-Says on option o v live in
      let (v'', live'', all) = announce_all-Says rest o' v' live' in
      (
        v'',
        live'',
        all
            ∙ ap (λ t. t ++ wills rest) same
            ∙ append_assoc (stream o) (if on then Cmd.iac ∷ Cmd.will ∷ option ∷ [] else [])
                (wills rest)
            ∙ ap (λ t. stream o ++ t) (wills-cons on option rest),
      )

  announce_size-Says :
      (on : Bool) (width height : ℕ) (o : Out)
      → IsSlice o.buf
      → o.closed ≡ false
      → Says o (size_wills on width height) (announce_size grow net on width height o)
  unfolding announce_size send_naws
  announce_size-Says false width height o v live = (v, live, sym (append-nil (stream o)))
  announce_size-Says true width height o v live =
      let data_is = naws_data width height in
      let o' = announce grow net true Opt.naws o in
      let (v', live', same) = announce-Says true Opt.naws o v live in
      let (_, _, sent, _) = no-error grow net works o' data_is 0 Opt.naws live' in
      let (v'', same') =
        send_subnegotiation-stream grow fits net contract o' v' Opt.naws data_is sent in
      (
        v'',
        closed-send_subnegotiation grow net o' Opt.naws data_is ∙ live',
        same'
            ∙ ap (λ t. t ++ frame Opt.naws data_is) same
            ∙ append_assoc (stream o) (Cmd.iac ∷ Cmd.will ∷ Opt.naws ∷ []) (frame Opt.naws data_is),
      )

  -- The bytes that `negotiateInitial` sends.
  negotiate_initial-wire :
      (cfg : Config) (z : Sizes) (o : Out)
      → IsSlice o.buf
      → o.closed ≡ false
      → (negotiate_initial grow net cfg z o).wire ≡ stream o ++ opening cfg z
  unfolding negotiate_initial
  negotiate_initial-wire cfg z o v live =
      let o₁ = announce_all grow net (first_options cfg) o in
      let (v₁, live₁, same₁) = announce_all-Says (first_options cfg) o v live in
      let o₂ = announce_size grow net cfg.enable_naws z.terminal_width z.terminal_height o₁ in
      let (v₂, live₂, same₂) =
        announce_size-Says cfg.enable_naws z.terminal_width z.terminal_height o₁ v₁ live₁ in
      let o₃ = announce_all grow net (last_options cfg) o₂ in
      let (v₃, live₃, same₃) = announce_all-Says (last_options cfg) o₂ v₂ live₂ in
      let (_, _, _, flushed) = no-error grow net works o₃ [] 0 0 live₃ in
      flush-wire grow fits net contract o₃ v₃ flushed
      ∙ same₃
      ∙ ap (λ t. t ++ wills (last_options cfg))
          (same₂
            ∙ ap (λ t. t ++ size_wills cfg.enable_naws z.terminal_width z.terminal_height) same₁)
      ∙ three_more (stream o) (wills (first_options cfg))
          (size_wills cfg.enable_naws z.terminal_width z.terminal_height) (wills (last_options cfg))

-- Over a socket that keeps its contract and takes all that it is given, a new connection has sent
-- a WILL for each option that the configuration enables, by the number that the option has in the
-- protocols, and behind that of NAWS the size of the terminal; nothing more; and its read buffer is
-- an empty, valid ring, if its size is at most 2 ^ 31. The order is BINARY, SGA, ECHO, NAWS, TTYPE,
-- TSPEED, NEW-ENVIRON, CHARSET, MCCP2, MCCP3, MSDP, GMCP, MSSP, MCP.
pub new_conn-opening :
    (grow : Growth) (net : Socket) (cfg : Config) (z : Sizes) (ps : Pools)
    → Fits grow
    → IsWriter net
    → Works net
    → buffer_size z.read_buffer_size ≤ 2 ^ 31
    → let (s, ps') = new_conn grow net cfg z ps in
      let c = s.reader.conn in
      (c.out.wire ≡ opening cfg z) × ((k : ℕ) × IsValid k c.read_buf × (contents c.read_buf ≡ []))
unfolding new_conn
new_conn-opening grow net cfg z ps fits contract works small =
    let (k, v, empty, _, _) = new_ring-IsValid (buffer_size z.read_buffer_size) ps small in
    let ps₁ = (new_ring (buffer_size z.read_buffer_size) ps).1 in
    let ps₂ = (get_buf (buffer_size z.read_buffer_size) ps₁).1 in
    let b = (get_buf (buffer_size z.write_buffer_size) ps₂).0 in
    (
      negotiate_initial-wire grow fits net contract works cfg z (new_out b) (omega arith) refl,
      (k, v, empty),
    )
