-- ===== src/Parser/Subnegotiation.antt =====
-- The bytes of a subnegotiation event, as a reader finds them when `Parse` has returned.
use telnetty.Base.{
  length-take, take, ℕ, suc, ◌+◌, ◌<◌, ◌≡◌, refl, ap, ◌∙◌, List, [], ◌∷◌, ◌++◌, arith, Bytes,
  length,
}
use telnetty.Cmd
use telnetty.Slices.{Growth}
use telnetty.Static.{bytes}
use telnetty.Parser.Commands.{sn_of, measured, measure_of, length-map, parse-subnegotiations}
use telnetty.Parser.Events.{
  SubnegotiationEvent, ParseResult, max_subnegotiations, append_subnegotiation,
}
use telnetty.Parser.Decode.{events, subnegotiations, final, sub_command}
use telnetty.Parser.State.{run-Follows, mode_of, IsValid, mode_in, length-bytes}
use telnetty.Parser.{
  parse, no_events, ParserState, state_data, state_subnegotiation_iac, Parser, Loop, step_in, step,
  run, flush_in, sn_data,
}

run-concat :
    (xs : Bytes) (grow : Growth) (l : Loop) (i b : ℕ)
    → run grow l i (xs ++ b ∷ []) ≡ step grow (run grow l i xs) (i + length xs) b
unfolding run
run-concat [] grow l i b = ap (λ j. step grow l j b) {x = i} {y = i + 0} (omega arith)
run-concat (x ∷ xs) grow l i b =
    run-concat xs grow (step grow l i x) (i + 1) b
    ∙ ap (λ j. step grow (run grow (step grow l i x) (i + 1) xs) j b) {x = i + 1 + length xs}
        {y = i + suc (length xs)} (omega arith)

-- A parser in the mode of a pending command has what the mode says in its fields.
record InCommand (o : ℕ) (acc : Bytes) (p : Parser) : Type 0 where
  state_is : p.state ≡ state_subnegotiation_iac
  option_is : p.sn_option ≡ o
  bytes_are : bytes p.sn_buf ≡ acc

mode_of-InCommand :
    (s : ParserState) (p : Parser) (o : ℕ) (acc : Bytes)
    → p.state ≡ s
    → mode_in s p ≡ sub_command o acc
    → InCommand o acc p
mode_of-InCommand state_subnegotiation_iac p o acc e m = ground arith
mode_of-InCommand state_data p o acc e m = cc
mode_of-InCommand _ p o acc e m = cc

-- The last event of a chunk that ends a subnegotiation.
pub record EndsWith (o : ℕ) (acc : Bytes) (r : Parser × ParseResult) : Type 0 where
  pub before : List SubnegotiationEvent
  pub last : SubnegotiationEvent
  pub events_are : r.1.sn_events ≡ before ++ last ∷ []
  pub option_is : last.option ≡ o
  pub len_is : last.len ≡ length acc
  pub data_is : sn_data r.0 last ≡ acc

sn_events-flush_in :
    (s : ParserState) (l : Loop) (n : ℕ)
    → ((flush_in s l n).result.sn_events ≡ l.result.sn_events)
      × ((flush_in s l n).parser ≡ l.parser)
unfolding flush_in
sn_events-flush_in state_data l n = ground arith
sn_events-flush_in _ l n = (refl, refl)

end_step :
    (grow : Growth) {limit : ℕ} (l : Loop) (i o : ℕ) (acc : Bytes)
    → IsValid limit l.parser
    → InCommand o acc l.parser
    → length l.result.sn_events < max_subnegotiations
    → let l' = step grow l i Cmd.se in
      let e : SubnegotiationEvent = record { option = o; size = length acc; len = length acc } in
      (l'.result.sn_events ≡ l.result.sn_events ++ e ∷ []) × (sn_data l'.parser e ≡ acc)
unfolding step_in append_subnegotiation
end_step grow l i o acc v c room = rw c.state_is (ground (arith, length-bytes v.buffer))

abbrev start_of : Parser → Loop
start_of p = record { parser = p; result = no_events; data_start = 0 }

parse-run :
    (grow : Growth) (p : Parser) (input : Bytes)
    → let l = run grow (start_of p) 0 input in
      ((parse grow p input).1.sn_events ≡ l.result.sn_events) × ((parse grow p input).0 ≡ l.parser)
unfolding parse
parse-run grow p input =
    let l = run grow (start_of p) 0 input in sn_events-flush_in l.parser.state l (length input)

few_events :
    (grow : Growth) {limit : ℕ} {p : Parser} (input : Bytes)
    → IsValid limit p
    → length (subnegotiations (events limit (mode_of p) input)) < max_subnegotiations
    → length (run grow (start_of p) 0 input).result.sn_events < max_subnegotiations
few_events grow {limit} {p} input v few =
    let r = run grow (start_of p) 0 input in
    let whole = measured (events limit (mode_of p) input) in
    let e : length (sn_of (parse grow p input).1) ≡ length (take max_subnegotiations whole) =
      ap length (parse-subnegotiations grow input v) in
    let same : length (sn_of (parse grow p input).1) ≡ length r.result.sn_events =
      length-map measure_of (parse grow p input).1.sn_events
      ∙ ap length (parse-run grow p input).0 in
    omega (
      arith,
      length-take max_subnegotiations whole,
      length-map (λ (s : ℕ × Bytes). let m : ℕ × ℕ = (s.0, length s.1) in m)
          (subnegotiations (events limit (mode_of p) input)),
    )

-- If a chunk ends with the IAC SE of a subnegotiation and has fewer than 8 before it, the last
-- event of a valid parser is that subnegotiation, and its data are the bytes of it.
pub parse-EndsWith :
    (grow : Growth) {limit : ℕ} {p : Parser} (input : Bytes) {o : ℕ} {acc : Bytes}
    → IsValid limit p
    → final limit (mode_of p) input ≡ sub_command o acc
    → length (subnegotiations (events limit (mode_of p) input)) < max_subnegotiations
    → EndsWith o acc (parse grow p (input ++ Cmd.se ∷ []))
parse-EndsWith grow {p} input {o} {acc} v m few =
    let l = run grow (start_of p) 0 input in
    let (w, here) = run-Follows input grow (start_of p) 0 v in
    let c = mode_of-InCommand l.parser.state l.parser o acc refl (here ∙ m) in
    let (evs, shown) = end_step grow l (0 + length input) o acc w c (few_events grow input v few) in
    let (all, same) = parse-run grow p (input ++ Cmd.se ∷ []) in
    let snoc = run-concat input grow (start_of p) 0 Cmd.se in
    record {
      before = l.result.sn_events;
      last = record { option = o; size = length acc; len = length acc };
      events_are = all ∙ ap (λ t. t.result.sn_events) snoc ∙ evs;
      option_is = refl;
      len_is = refl;
      data_is =
          ap (λ t. take (length acc) t.sn_buf.buf.mem) same
          ∙ ap (λ t. take (length acc) t.parser.sn_buf.buf.mem) snoc
          ∙ shown;
    }
