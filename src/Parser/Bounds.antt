-- ===== src/Parser/Bounds.antt =====
-- The sizes of the event arrays of parser.go, and the slices in the events.
use telnetty.Base.{
  ℕ, ◌+◌, ◌-◌, ◌≤◌, ◌<◌, ◌≡◌, refl, List, [], ◌∷◌, ◌++◌, arith, Bytes, length, length-append,
}
use telnetty.Slices.{Growth}
use telnetty.Parser.Events.{
  append_command, append_data, append_subnegotiation, max_subnegotiations, max_commands, max_data,
  DataEvent, CommandEvent, SubnegotiationEvent, ParseResult,
}
use telnetty.Parser.State.{IsValid, step_in-Follows}
use telnetty.Parser.{
  step, no_events, run, flush_in, parse, step_in, ParserState, state_data, state_iac,
  state_negotiation, state_subnegotiation_iac, Parser, Loop,
}

abbrev pub AllData : ℕ → List DataEvent → Type 0
AllData total [] = Unit
AllData total (e ∷ es) =
    (0 < e.size) × (e.start + e.size ≤ total) × (e.len ≡ e.size) × AllData total es

abbrev AllSn : ℕ → List SubnegotiationEvent → Type 0
AllSn limit [] = Unit
AllSn limit (e ∷ es) = (e.size ≤ limit) × (e.len ≡ e.size) × AllSn limit es

-- Events of `total` bytes of input and a subnegotiation buffer of `limit`.
pub record IsBounded (limit total : ℕ) (r : ParseResult) : Type 0 where
  pub data_count : length r.data_events ≤ max_data
  pub command_count : length r.command_events ≤ max_commands
  pub sn_count : length r.sn_events ≤ max_subnegotiations
  pub data_slices : AllData total r.data_events
  pub sn_slices : AllSn limit r.sn_events

AllData-le : (es : List DataEvent) (m n : ℕ) → m ≤ n → AllData m es → AllData n es
AllData-le [] m n h a = tt
AllData-le (e ∷ es) m n h (p, q, s, a) = (p, omega arith, s, AllData-le es m n h a)

AllSn-concat :
    (limit : ℕ) (es : List SubnegotiationEvent) (e : SubnegotiationEvent)
    → AllSn limit es
    → e.size ≤ limit
    → e.len ≡ e.size
    → AllSn limit (es ++ e ∷ [])
AllSn-concat limit [] e a p q = (p, q, tt)
AllSn-concat limit (x ∷ es) e (u, w, a) p q = (u, w, AllSn-concat limit es e a p q)

append_data-bounded :
    (total : ℕ) (es : List DataEvent) (start size : ℕ)
    → length es ≤ max_data
    → AllData total es
    → start + size ≤ total
    → (length (append_data es start size) ≤ max_data) × AllData total (append_data es start size)
unfolding append_data
append_data-bounded total [] start size c a h = ground arith
append_data-bounded total (e ∷ es) start size c a h = ground arith

append_command-bounded :
    (es : List CommandEvent) (c o : ℕ)
    → length es ≤ max_commands
    → length (append_command es c o) ≤ max_commands
unfolding append_command
append_command-bounded es c o h =
    ground (arith, length-append es (record { command = c; option = o } ∷ []))

append_subnegotiation-bounded :
    (limit : ℕ) (es : List SubnegotiationEvent) (o size : ℕ)
    → length es ≤ max_subnegotiations
    → AllSn limit es
    → size ≤ limit
    → (length (append_subnegotiation es o size) ≤ max_subnegotiations)
      × AllSn limit (append_subnegotiation es o size)
unfolding append_subnegotiation
append_subnegotiation-bounded limit es o size c a h =
    let e : SubnegotiationEvent = record { option = o; size = size; len = size } in
    ground (arith, length-append es (e ∷ []), AllSn-concat limit es e)

step_in-IsBounded :
    (s : ParserState) (grow : Growth) {limit : ℕ} (l : Loop) (i b : ℕ)
    → IsValid limit l.parser
    → IsBounded limit i l.result
    → IsBounded limit (i + 1) (step_in s grow l i b).result
unfolding step_in
step_in-IsBounded state_data grow l i b v h = ground (
  arith,
  AllData-le l.result.data_events i (i + 1) (omega arith) h.data_slices,
  append_data-bounded (i + 1) l.result.data_events l.data_start (i - l.data_start),
)
step_in-IsBounded state_iac grow l i b v h = ground (
  arith,
  AllData-le l.result.data_events i (i + 1) (omega arith) h.data_slices,
  append_data-bounded (i + 1) l.result.data_events i 1,
)
step_in-IsBounded state_negotiation grow l i b v h = ground (
  arith,
  AllData-le l.result.data_events i (i + 1) (omega arith) h.data_slices,
  append_command-bounded l.result.command_events l.parser.cmd b,
)
step_in-IsBounded state_subnegotiation_iac grow {limit} l i b v h = ground (
  arith,
  AllData-le l.result.data_events i (i + 1) (omega arith) h.data_slices,
  append_subnegotiation-bounded limit l.result.sn_events l.parser.sn_option l.parser.sn_buf.buf.len,
)
step_in-IsBounded _ grow l i b v h =
    ground (arith, AllData-le l.result.data_events i (i + 1) (omega arith) h.data_slices)

run-IsBounded :
    (bs : Bytes) (grow : Growth) {limit : ℕ} (l : Loop) (i total : ℕ)
    → i + length bs ≡ total
    → IsValid limit l.parser
    → IsBounded limit i l.result
    → IsBounded limit total (run grow l i bs).result
unfolding run
run-IsBounded [] grow l i total e v h = let e' : i ≡ total = omega arith in rw (← e') h
run-IsBounded (b ∷ bs) grow l i total e v h =
    run-IsBounded bs grow (step grow l i b) (i + 1) total (omega arith)
      (step_in-Follows l.parser.state grow l i b refl v).0
      (step_in-IsBounded l.parser.state grow l i b v h)

flush_in-IsBounded :
    (s : ParserState) {limit : ℕ} (l : Loop) (total : ℕ)
    → IsBounded limit total l.result
    → IsBounded limit total (flush_in s l total).result
unfolding flush_in
flush_in-IsBounded state_data l total h =
    ground
      (arith, append_data-bounded total l.result.data_events l.data_start (total - l.data_start))
flush_in-IsBounded _ l total h = h

-- Whatever the chunk, a valid parser reports at most 64 data events, 16 commands and 8
-- subnegotiations; each data event is a non-empty slice inside the chunk, each subnegotiation fits
-- the buffer.
pub parse-IsBounded :
    (grow : Growth) {limit : ℕ} {p : Parser} (input : Bytes)
    → IsValid limit p
    → IsBounded limit (length input) (parse grow p input).1
unfolding parse
parse-IsBounded grow {p} input v =
    let l : Loop = record { parser = p; result = no_events; data_start = 0 } in
    let l' = run grow l 0 input in
    flush_in-IsBounded l'.parser.state l' (length input)
      (run-IsBounded input grow l 0 (length input) (omega arith) v (omega arith))
