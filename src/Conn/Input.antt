-- ===== src/Conn/Input.antt =====
-- conn.go: what a connection does with a chunk that it has read (`processReadLocked`), and
-- `pushEvent`. The event channel is the queue of what the dispatcher has not taken yet. The data
-- of an event are the bytes at the time of the push; the parser's next chunk may overwrite them in
-- the program.
pub mod Data
pub mod Policy
pub mod Size
mod Tests
use telnetty.Base.{
  ℕ, zero, ◌+◌, ◌*◌, ◌%◌, bit_or, Bool, false, not, ◌&&◌, ◌||◌, Option, some, List, [], ◌∷◌, ◌++◌,
  ltb, ◌==◌, if◌then◌else◌, Bytes, length, drop,
}
use telnetty.Cmd
use telnetty.Opt
use telnetty.Slices.{Growth}
use telnetty.Ring
use telnetty.Ring.{Ring}
use telnetty.Parser.Events.{DataEvent, CommandEvent, SubnegotiationEvent, slice}
use telnetty.Parser.{Parser, parse, sn_data}
use telnetty.Options.{Negotiator, handle}
use telnetty.Conn.Output.{Out, Socket, u64, send_command}

-- The options that `Config` enables, and whether there is an `EventHandler`.
pub record Config : Type 0 where
  pub enable_binary : Bool
  pub enable_echo : Bool
  pub enable_sga : Bool
  pub enable_naws : Bool
  pub enable_ttype : Bool
  pub enable_term_speed : Bool
  pub enable_new_environ : Bool
  pub enable_charset : Bool
  pub enable_mccp2 : Bool
  pub enable_mccp3 : Bool
  pub enable_msdp : Bool
  pub enable_gmcp : Bool
  pub enable_mssp : Bool
  pub enable_mcp : Bool
  pub has_handler : Bool

pub data QueuedEvent : Type 0 where
  command_event : ℕ → ℕ → QueuedEvent
  subnegotiation_event : ℕ → Bytes → QueuedEvent

pub record Conn : Type 0 where
  pub config : Config
  pub parser : Parser
  pub negotiator : Negotiator
  pub read_buf : Ring
  pub out : Out
  pub queue : List QueuedEvent
  pub term_type : Option Bytes
  pub term_width : ℕ
  pub term_height : ℕ
  pub options_negotiated : ℕ
  pub subnegotiations : ℕ

pub is_option_supported : ℕ → Bool
is_option_supported option =
    option == Opt.binary
    || option == Opt.echo
    || option == Opt.sga
    || option == Opt.naws
    || option == Opt.terminal_type
    || option == Opt.term_speed
    || option == Opt.new_environ
    || option == Opt.charset
    || option == Opt.mccp2
    || option == Opt.mccp3
    || option == Opt.msdp
    || option == Opt.gmcp
    || option == Opt.mssp
    || option == Opt.mcp

pub is_option_enabled_locally : Config → ℕ → Bool
is_option_enabled_locally cfg option =
    if option == Opt.binary
    then cfg.enable_binary
    else if option == Opt.echo
    then cfg.enable_echo
    else if option == Opt.sga
    then cfg.enable_sga
    else if option == Opt.naws
    then cfg.enable_naws
    else if option == Opt.terminal_type
    then cfg.enable_ttype
    else if option == Opt.term_speed
    then cfg.enable_term_speed
    else if option == Opt.new_environ
    then cfg.enable_new_environ
    else if option == Opt.charset
    then cfg.enable_charset
    else if option == Opt.mccp2
    then cfg.enable_mccp2
    else if option == Opt.mccp3
    then cfg.enable_mccp3
    else if option == Opt.msdp
    then cfg.enable_msdp
    else if option == Opt.gmcp
    then cfg.enable_gmcp
    else if option == Opt.mssp
    then cfg.enable_mssp
    else if option == Opt.mcp
    then cfg.enable_mcp
    else false

-- The channel holds 256 events; if it is full the oldest is dropped.
pub enqueue : List QueuedEvent → QueuedEvent → List QueuedEvent
enqueue q e = if ltb (length q) 256 then q ++ e ∷ [] else drop 1 q ++ e ∷ []

pub push_event : Conn → QueuedEvent → Conn
push_event c e =
    if c.out.closed
    then c
    else if not c.config.has_handler
    then c
    else record c { queue = enqueue c.queue e }

-- The loop over the data events, newest first in the list; the error of `Write` is ignored.
pub write_data : Bytes → List DataEvent → Ring → Ring
write_data input [] r = r
write_data input (e ∷ es) r =
    let before = write_data input es r in
    if ltb 0 e.len then (Ring.write before (slice input e.start e.size)).2 else before

-- `SendCommand`, whose error is ignored.
pub reply : Growth → Socket → Conn → ℕ → ℕ → Conn
reply grow net c cmd option = record c { out = (send_command grow net c.out cmd option).1 }

-- The body of the loop over the commands.
pub process_command : Growth → Socket → Conn → ℕ → ℕ → Conn
process_command grow net c cmd option =
    let event = command_event cmd option in
    let (response, changed, n') = handle c.negotiator cmd option in
    let handled = record c { negotiator = n' } in
    let replied = if response == 0 then handled else reply grow net handled response option in
    let counted =
      if changed
      then record replied { options_negotiated = u64 (replied.options_negotiated + 1) }
      else replied in
    if cmd == Cmd.do_cmd && not (is_option_enabled_locally c.config option)
    then push_event (reply grow net c Cmd.wont option) event
    else if cmd == Cmd.will && not (is_option_supported option)
    then push_event (reply grow net c Cmd.dont option) event
    else push_event counted event

pub process_commands : Growth → Socket → Conn → List CommandEvent → Conn
process_commands grow net c [] = c
process_commands grow net c (e ∷ es) =
    process_commands grow net (process_command grow net c e.command e.option) es

-- `uint16(hi)<<8 | uint16(lo)`
abbrev pub word : ℕ → ℕ → ℕ
word hi lo = bit_or (hi * 256 % 65536) lo

pub handle_terminal_type : Conn → Bytes → Conn
handle_terminal_type c (zero ∷ b ∷ rest) = record c { term_type = some (b ∷ rest) }
handle_terminal_type c _ = c

pub handle_naws : Conn → Bytes → Conn
handle_naws c (w₁ ∷ w₀ ∷ h₁ ∷ h₀ ∷ rest) = record c {
  term_width = word w₁ w₀;
  term_height = word h₁ h₀;
}
handle_naws c _ = c

pub handle_subnegotiation : Conn → ℕ → Bytes → Conn
handle_subnegotiation c option payload =
    if option == Opt.terminal_type
    then handle_terminal_type c payload
    else if option == Opt.naws
    then handle_naws c payload
    else c

pub process_subnegotiation : Conn → ℕ → Bytes → Conn
process_subnegotiation c option payload =
    let counted = record c { subnegotiations = u64 (c.subnegotiations + 1) } in
    push_event (handle_subnegotiation counted option payload) (subnegotiation_event option payload)

-- The loop over the subnegotiations; their bytes are those of the buffer behind `Parse`.
pub process_subnegotiations : Conn → Parser → List SubnegotiationEvent → Conn
process_subnegotiations c p [] = c
process_subnegotiations c p (e ∷ es) =
    process_subnegotiations (process_subnegotiation c e.option (sn_data p e)) p es

pub process_read : Growth → Socket → Conn → Bytes → Conn
process_read grow net c input =
    let (p', result) = parse grow c.parser input in
    let stored = record c {
      parser = p';
      read_buf = write_data input result.data_events c.read_buf;
    } in
    process_subnegotiations (process_commands grow net stored result.command_events) p'
      result.sn_events
