-- ===== src/Conn/Output/Tests.antt =====
-- The writing side over small sockets.
use telnetty.Base.{
  zero, suc, ◌+◌, ◌≡◌, refl, true, false, none, some, [], ◌∷◌, ◌++◌, arith, length, replicate, zero,
  suc, ◌+◌, ◌≡◌, refl, true, false, none, some, [], ◌∷◌, ◌++◌, arith, length, replicate,
}
use telnetty.Cmd
use telnetty.Parser.State
use telnetty.Parser.Events.{resolve}
use telnetty.Parser.{new_parser, parse}
use telnetty.Conn.Output.Delivery.{write-delivered}
use telnetty.Slices.{append, shown, Growth, Fits}
use telnetty.Slices.Append.{IsSlice}
use telnetty.Conn.Output.Extend.{IsWriter, stream}
use telnetty.Conn.Output.Stream.{write-stream}
use telnetty.Conn.Output.Results.{Works, no-error, flush_retried}
use telnetty.Conn.Output.{
  Out, Socket, net_error, write, write_loop, flush_locked, put, needs_escape, send_command,
  send_subnegotiation, flush,
}

abbrev double : Growth
double old needed = old + needed

double-Fits : Fits double
double-Fits old needed = omega arith

abbrev good : Socket
good i p = (length p, true)

good-IsWriter : IsWriter good
good-IsWriter = record { taken_le = λ i p. omega arith; all_taken = λ i p e. refl }

good-Works : Works good
good-Works i p = refl

-- Two bytes are waiting, and there is room for two more.
abbrev waiting : Out
waiting = record {
  closed = false;
  buf = record { mem = 1 ∷ 2 ∷ 0 ∷ 0 ∷ []; len = 2 };
  bytes_written = 0;
  commands_sent = 0;
  calls = 0;
  wire = [];
}

waiting-IsSlice : IsSlice waiting.buf
waiting-IsSlice = omega arith

write-stream_example :
    let (n, e, o') = write double good waiting (7 ∷ 255 ∷ 8 ∷ []) in
    (n ≡ 3) × IsSlice o'.buf × (stream o' ≡ 1 ∷ 2 ∷ 7 ∷ 255 ∷ 255 ∷ 8 ∷ [])
unfolding write write_loop flush_locked needs_escape put append
write-stream_example =
    write-stream double double-Fits good good-IsWriter waiting waiting-IsSlice (7 ∷ 255 ∷ 8 ∷ [])
      refl

no-error_example :
    ((write double good waiting (7 ∷ [])).1 ≡ none)
    × ((send_command double good waiting Cmd.will 31).0 ≡ none)
    × ((send_subnegotiation double good waiting 31 (7 ∷ [])).0 ≡ none)
    × ((flush good waiting).0 ≡ none)
no-error_example = no-error double good good-Works waiting (7 ∷ []) Cmd.will 31 refl

-- A socket whose first call fails when it has taken one byte.
abbrev flaky : Socket
flaky zero p = (1, false)
flaky (suc i) p = (length p, true)

flush_retried_example :
    let (e, o₁) = flush flaky waiting in
    let (e', o₂) = flush flaky o₁ in
    (e ≡ some net_error) × (e' ≡ none) × (o₂.wire ++ shown o₂.buf ≡ 1 ∷ 1 ∷ 2 ∷ [])
flush_retried_example = flush_retried flaky waiting 1 (omega arith) refl refl

abbrev unused : Out
unused = record {
  closed = false;
  buf = record { mem = replicate 16 0; len = 0 };
  bytes_written = 0;
  commands_sent = 0;
  calls = 0;
  wire = [];
}

new_parser-IsValid : State.IsValid 512 new_parser
new_parser-IsValid = record {
  buffer = record { unlimited = refl; cap_is = refl; len_le = omega arith };
  fresh = λ _. refl;
}

write-delivered_example :
    let wire = (flush good (write double good unused (7 ∷ 255 ∷ 8 ∷ [])).2).1.wire in
    resolve wire (parse double new_parser wire).1.data_events ≡ 7 ∷ 255 ∷ 8 ∷ []
unfolding write write_loop flush flush_locked needs_escape put append
write-delivered_example =
    write-delivered double good unused (7 ∷ 255 ∷ 8 ∷ []) double-Fits good-IsWriter (omega arith)
      refl refl refl new_parser-IsValid refl (omega arith)
