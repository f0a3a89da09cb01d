-- ===== src/Conn/Session.antt =====
-- conn.go: `NewConn`, `negotiateInitial`, `Close` and the methods that report. The goroutine that
-- takes events off the channel is not modelled, so `Close` leaves the events where they are.
pub mod Opening
pub mod Closing
mod Tests
use telnetty.Base.{
  ℕ, zero, suc, ◌%◌, ◌^◌, Bool, true, false, Option, none, some, List, [], ◌∷◌, if◌then◌else◌,
  Bytes,
}
use telnetty.Base.Int.{ℤ, pos, negsuc}
use telnetty.Cmd
use telnetty.Opt
use telnetty.Slices.{Slice, nil, is_nil, emptied, Growth}
use telnetty.Pool.{Pools, get_buf, put_buf}
use telnetty.Ring
use telnetty.Ring.{Ring, new_ring}
use telnetty.Parser.{new_parser}
use telnetty.Options.{new_negotiator}
use telnetty.Conn.Output.{Socket, Out, send_command, send_naws, flush}
use telnetty.Conn.Input.{Config, Conn}
use telnetty.Conn.Reading.{Reader}

-- The other fields of `Config`.
pub record Sizes : Type 0 where
  pub terminal_width : ℕ
  pub terminal_height : ℕ
  pub read_buffer_size : ℤ
  pub write_buffer_size : ℤ

-- A connection with its scratch buffer.
pub record Session : Type 0 where
  pub reader : Reader
  pub read_scratch : Slice

-- A size that is not positive stands for 64 KiB.
pub buffer_size : ℤ → ℕ
buffer_size (pos zero) = 65536
buffer_size (pos (suc n)) = suc n
buffer_size (negsuc n) = 65536

-- `if on { c.SendCommand(CmdWill, option) }`, whose error is ignored.
pub announce : Growth → Socket → Bool → ℕ → Out → Out
announce grow net on option o = if on then (send_command grow net o Cmd.will option).1 else o

pub announce_all : Growth → Socket → List (Bool × ℕ) → Out → Out
announce_all grow net [] o = o
announce_all grow net ((on, option) ∷ rest) o =
    announce_all grow net rest (announce grow net on option o)

abbrev pub first_options : Config → List (Bool × ℕ)
first_options cfg =
    (cfg.enable_binary, Opt.binary) ∷ (cfg.enable_sga, Opt.sga) ∷ (cfg.enable_echo, Opt.echo) ∷ []

abbrev pub last_options : Config → List (Bool × ℕ)
last_options cfg =
    (cfg.enable_ttype, Opt.terminal_type)
    ∷ (cfg.enable_term_speed, Opt.term_speed)
    ∷ (cfg.enable_new_environ, Opt.new_environ)
    ∷ (cfg.enable_charset, Opt.charset)
    ∷ (cfg.enable_mccp2, Opt.mccp2)
    ∷ (cfg.enable_mccp3, Opt.mccp3)
    ∷ (cfg.enable_msdp, Opt.msdp)
    ∷ (cfg.enable_gmcp, Opt.gmcp)
    ∷ (cfg.enable_mssp, Opt.mssp)
    ∷ (cfg.enable_mcp, Opt.mcp)
    ∷ []

-- `if c.config.EnableNAWS { … }`
pub announce_size : Growth → Socket → Bool → ℕ → ℕ → Out → Out
announce_size grow net on width height o =
    if on then (send_naws grow net (announce grow net true Opt.naws o) width height).1 else o

pub negotiate_initial : Growth → Socket → Config → Sizes → Out → Out
negotiate_initial grow net cfg z o =
    let first = announce_all grow net (first_options cfg) o in
    let sized = announce_size grow net cfg.enable_naws z.terminal_width z.terminal_height first in
    (flush net (announce_all grow net (last_options cfg) sized)).1

abbrev pub new_out : Slice → Out
new_out b = record {
  closed = false;
  buf = emptied b;
  bytes_written = 0;
  commands_sent = 0;
  calls = 0;
  wire = [];
}

abbrev pub session_of : Config → Ring → Out → Slice → Session
session_of cfg ring o scratch = record {
  reader = record {
    conn = record {
      config = cfg;
      parser = new_parser;
      negotiator = new_negotiator;
      read_buf = ring;
      out = o;
      queue = [];
      term_type = none;
      term_width = 0;
      term_height = 0;
      options_negotiated = 0;
      subnegotiations = 0;
    };
    bytes_read = 0;
    read_line_cr = false;
    reads = 0;
  };
  read_scratch = scratch;
}

pub new_conn : Growth → Socket → Config → Sizes → Pools → Session × Pools
new_conn grow net cfg z ps =
    let (ring, ps₁) = new_ring (buffer_size z.read_buffer_size) ps in
    let (scratch, ps₂) = get_buf (buffer_size z.read_buffer_size) ps₁ in
    let (b, ps₃) = get_buf (buffer_size z.write_buffer_size) ps₂ in
    (session_of cfg ring (negotiate_initial grow net cfg z (new_out b)) scratch, ps₃)

-- `TerminalType`, `TerminalSize` and the counters of `Stats` that change.
abbrev pub terminal_type : Conn → Bytes
terminal_type c = elim c.term_type [ some t ↦ t | none ↦ [] ]

abbrev pub terminal_size : Conn → ℕ × ℕ
terminal_size c = (c.term_width % 2 ^ 16, c.term_height % 2 ^ 16)

-- What `Close` returns: `ErrConnClosed`, or what the socket's `Close` does.
pub data CloseResult : Type 0 where
  already_closed : CloseResult
  socket_closed : CloseResult

-- `c.writeBuf.Free()`
pub free_out : Out → Pools → Out × Pools
free_out o ps = if is_nil o.buf then (o, ps) else (record o { buf = nil }, put_buf o.buf ps)

pub close : Socket → Session → Pools → CloseResult × Session × Pools
close net s ps =
    let c = s.reader.conn in
    let (e, o) = flush net (record c.out { closed = true }) in
    let (ring, ps₁) = Ring.free c.read_buf ps in
    let (freed, ps₂) = free_out o ps₁ in
    let ended = record s {
      reader = record s.reader { conn = record c { read_buf = ring; out = freed } };
    } in
    if c.out.closed
    then (already_closed, s, ps)
    else (socket_closed, ended, put_buf s.read_scratch ps₂)
