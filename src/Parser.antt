-- ===== src/Parser.antt =====
-- parser.go: the protocol parser. The data of a subnegotiation event are read from the buffer's
-- array as that is when the events are read.
pub mod Events
pub mod Decode
pub mod State
pub mod Commands
pub mod Data
pub mod Bounds
pub mod Subnegotiation
pub mod Frames
pub mod Stream
mod Tests
use telnetty.Base.{
  ℕ, ◌+◌, ◌-◌, Bool, false, not, ◌||◌, [], ◌∷◌, ltb, ◌==◌, if◌then◌else◌, Bytes, length, take,
  replicate,
}
use telnetty.Slices.{Growth}
use telnetty.Static.{StaticBuffer, reset, write_byte}
use telnetty.Cmd
use Events.{
  DataEvent, CommandEvent, SubnegotiationEvent, ParseResult, no_events, append_data, append_command,
  append_subnegotiation,
}

pub data ParserState : Type 0 where
  state_data state_iac state_negotiation : ParserState
  state_subnegotiation state_subnegotiation_iac state_subnegotiation_option : ParserState

pub record Parser : Type 0 where
  pub state : ParserState
  pub cmd : ℕ
  pub sn_option : ℕ
  pub sn_buf : StaticBuffer
  pub sn_enabled : Bool
  pub binary_mode : ℕ

abbrev pub new_parser : Parser
new_parser = record {
  state = state_data;
  cmd = 0;
  sn_option = 0;
  sn_buf = record { buf = record { mem = replicate 512 0; len = 0 }; limit = 0 };
  sn_enabled = false;
  binary_mode = 0;
}

pub reset_parser : Parser → Parser
reset_parser p = record {
  state = state_data;
  cmd = 0;
  sn_option = 0;
  sn_buf = reset p.sn_buf;
  sn_enabled = false;
  binary_mode = 0;
}

pub is_binary : Parser → Bool
is_binary p = not (p.binary_mode == 0)

-- The variables of the loop of `Parse`, but for the index.
pub record Loop : Type 0 where
  pub parser : Parser
  pub result : ParseResult
  pub data_start : ℕ

abbrev pub in_state : Loop → ParserState → Loop
in_state l s = record l { parser = record (l.parser) { state = s } }

abbrev pub with_data : Loop → ℕ → ℕ → Loop
with_data l start size = record l {
  result = record (l.result) { data_events = append_data l.result.data_events start size };
}

abbrev pub is_negotiation : ℕ → Bool
is_negotiation b = b == Cmd.will || b == Cmd.wont || b == Cmd.do_cmd || b == Cmd.dont

abbrev pub is_single : ℕ → Bool
is_single b =
    b == Cmd.ga
    || b == Cmd.el
    || b == Cmd.ec
    || b == Cmd.ayt
    || b == Cmd.ao
    || b == Cmd.ip
    || b == Cmd.break_cmd
    || b == Cmd.dm
    || b == Cmd.nop
    || b == Cmd.eor
    || b == Cmd.abort
    || b == Cmd.susp
    || b == Cmd.eof

-- `p.snBuf.WriteByte(b)`; its error is ignored.
abbrev pub sn_write : Growth → Loop → ℕ → Loop
sn_write grow l b = record l {
  parser = record (l.parser) { sn_buf = (write_byte grow l.parser.sn_buf b).1 };
}

-- The switch of `Parse`, at byte `b` of index `i`.
unfoldable pub step_in : ParserState → Growth → Loop → ℕ → ℕ → Loop
step_in state_data grow l i b =
    if b == Cmd.iac
    then in_state (if ltb l.data_start i then with_data l l.data_start (i - l.data_start) else l)
        state_iac
    else l
step_in state_iac grow l i b =
    if b == Cmd.iac
    then in_state (record (with_data l i 1) { data_start = i + 1 }) state_data
    else if is_negotiation b
    then record l { parser = record (l.parser) { cmd = b; state = state_negotiation } }
    else if b == Cmd.sb
    then record l {
      parser = record (l.parser) {
        sn_buf = reset l.parser.sn_buf;
        state = state_subnegotiation_option;
      };
    }
    else if is_single b
    then in_state (record l { data_start = i + 1 }) state_data
    else in_state (record l { data_start = i + 1 }) state_data
step_in state_negotiation grow l i b =
    in_state
      (record l {
        result = record (l.result) {
          command_events = append_command l.result.command_events l.parser.cmd b;
        };
        data_start = i + 1;
      })
      state_data
step_in state_subnegotiation_option grow l i b = record l {
  parser = record (l.parser) { sn_option = b; state = state_subnegotiation };
}
step_in state_subnegotiation grow l i b =
    if b == Cmd.iac then in_state l state_subnegotiation_iac else sn_write grow l b
step_in state_subnegotiation_iac grow l i b =
    if b == Cmd.se
    then in_state
        (record l {
          result = record (l.result) {
            sn_events =
                append_subnegotiation l.result.sn_events l.parser.sn_option l.parser.sn_buf.buf.len;
          };
          data_start = i + 1;
        })
        state_data
    else in_state (sn_write grow (sn_write grow l Cmd.iac) b) state_subnegotiation

abbrev pub step : Growth → Loop → ℕ → ℕ → Loop
step grow l i b = step_in l.parser.state grow l i b

unfoldable pub run : Growth → Loop → ℕ → Bytes → Loop
run grow l i [] = l
run grow l i (b ∷ bs) = run grow (step grow l i b) (i + 1) bs

-- "Flush remaining data"; `total` is `len(data)`.
pub flush_in : ParserState → Loop → ℕ → Loop
flush_in state_data l total =
    if ltb l.data_start total then with_data l l.data_start (total - l.data_start) else l
flush_in _ l total = l

unfoldable pub parse : Growth → Parser → Bytes → Parser × ParseResult
unfolding flush_in
parse grow p input =
    let start : Loop = record { parser = p; result = no_events; data_start = 0 } in
    let l = run grow start 0 input in
    let l' = flush_in l.parser.state l (length input) in (l'.parser, l'.result)

-- A subnegotiation's data: the first bytes of the array behind `snBuf`.
abbrev pub sn_data : Parser → SubnegotiationEvent → Bytes
sn_data p e = take e.size p.sn_buf.buf.mem
