-- ===== src/Parser/State.antt =====
-- The state of the parser behind a chunk, beside the mode of the stream.
use telnetty.Base.{
  ℕ, ◌+◌, ◌≤◌, ◌≡◌, refl, ap, ◌∙◌, Bool, true, false, [], ◌∷◌, ◌++◌, append-nil, arith,
  if◌then◌else◌, Bytes, length,
}
use telnetty.Cmd
use telnetty.Slices.{Growth, cap}
use telnetty.Slices.Append.{length-shown}
use telnetty.Static
use telnetty.Static.{StaticBuffer, bound, bytes, write_byte}
use telnetty.Static.Laws.{IsValid-IsSlice, write_byte_lem, limit-write_byte}
use telnetty.Parser.Events.{no_events}
use telnetty.Parser.{
  flush_in, step, run, parse, ParserState, state_data, state_iac, state_negotiation,
  state_subnegotiation, state_subnegotiation_iac, state_subnegotiation_option, Parser, Loop,
  step_in,
}
use telnetty.Parser.Decode.{
  Mode, text, command, negotiate, sub_option, sub, sub_command, keep, next, final,
}

-- The subnegotiation buffer of a parser has an array of `limit` bytes, and stays in it.
pub record HasLimit (limit : ℕ) (sb : StaticBuffer) : Type 0 where
  pub unlimited : sb.limit ≡ 0
  pub cap_is : cap sb.buf ≡ limit
  pub len_le : sb.buf.len ≤ limit

pub record IsValid (limit : ℕ) (p : Parser) : Type 0 where
  pub buffer : HasLimit limit p.sn_buf
  pub fresh : p.state ≡ state_subnegotiation_option → p.sn_buf.buf.len ≡ 0

abbrev pub mode_in : ParserState → Parser → Mode
mode_in state_data p = text
mode_in state_iac p = command
mode_in state_negotiation p = negotiate p.cmd
mode_in state_subnegotiation_option p = sub_option
mode_in state_subnegotiation p = sub p.sn_option (bytes p.sn_buf)
mode_in state_subnegotiation_iac p = sub_command p.sn_option (bytes p.sn_buf)

abbrev pub mode_of : Parser → Mode
mode_of p = mode_in p.state p

-- One `snBuf.WriteByte`.
module _ {limit : ℕ} {sb : StaticBuffer} (v : HasLimit limit sb) where
  HasLimit-IsValid : Static.Laws.IsValid sb
  HasLimit-IsValid = record {
    limit_le = omega (arith, v.unlimited);
    within = ground (arith, v.unlimited, v.cap_is, v.len_le);
  }

  pub length-bytes : length (bytes sb) ≡ sb.buf.len
  length-bytes = length-shown sb.buf (IsValid-IsSlice HasLimit-IsValid)

  module _ (grow : Growth) (b : ℕ) where
    abbrev pub written : StaticBuffer
    written = (write_byte grow sb b).1

    keep_if :
        (t : Bool)
        → bytes sb ++ (if t then b ∷ [] else []) ≡ (if t then bytes sb ++ b ∷ [] else bytes sb)
    keep_if true = refl
    keep_if false = append-nil (bytes sb)

    pub bytes-written : bytes written ≡ keep limit (bytes sb) b
    bytes-written =
        let (done, e, _, _) = write_byte_lem grow HasLimit-IsValid b in
        let bound_is : bound sb ≡ limit = ground (arith, v.unlimited, v.cap_is) in
        rw (length-bytes, ← bound_is, ← done) (e ∙ keep_if (write_byte grow sb b).0)

    pub written-HasLimit : HasLimit limit written
    written-HasLimit =
        let (_, _, same, w) = write_byte_lem grow HasLimit-IsValid b in
        let u = limit-write_byte grow sb b in
        record {
          unlimited = u ∙ v.unlimited;
          cap_is = same ∙ v.cap_is;
          len_le = ground (arith, u, v.unlimited, v.cap_is, same, w.within);
        }

reset-HasLimit :
    {limit : ℕ} {sb : StaticBuffer} → HasLimit limit sb → HasLimit limit (Static.reset sb)
reset-HasLimit v = record { unlimited = v.unlimited; cap_is = v.cap_is; len_le = omega arith }

-- One byte takes the parser from the mode of the stream before it to that behind it.
abbrev pub Follows : ℕ → Mode → Parser → Type 0
Follows limit m p = IsValid limit p × (mode_of p ≡ m)

pub step_in-Follows :
    (s : ParserState) (grow : Growth) {limit : ℕ} (l : Loop) (i b : ℕ)
    → l.parser.state ≡ s
    → IsValid limit l.parser
    → Follows limit (next limit (mode_in s l.parser) b) (step_in s grow l i b).parser
unfolding step_in
step_in-Follows state_data grow l i b e v = ground arith
step_in-Follows state_iac grow l i b e v = ground (arith, reset-HasLimit v.buffer)
step_in-Follows state_negotiation grow l i b e v = ground arith
step_in-Follows state_subnegotiation_option grow l i b e v = ground (arith, v.fresh e)
step_in-Follows state_subnegotiation grow l i b e v =
    ground (arith, bytes-written v.buffer grow b, written-HasLimit v.buffer grow b)
step_in-Follows state_subnegotiation_iac grow l i b e v = ground (
  arith,
  bytes-written v.buffer grow Cmd.iac,
  written-HasLimit v.buffer grow Cmd.iac,
  bytes-written (written-HasLimit v.buffer grow Cmd.iac) grow b,
  written-HasLimit (written-HasLimit v.buffer grow Cmd.iac) grow b,
)

pub run-Follows :
    (bs : Bytes) (grow : Growth) {limit : ℕ} (l : Loop) (i : ℕ)
    → IsValid limit l.parser
    → Follows limit (final limit (mode_of l.parser) bs) (run grow l i bs).parser
unfolding run
run-Follows [] grow l i v = (v, refl)
run-Follows (b ∷ bs) grow {limit} l i v =
    let (w, m) = step_in-Follows l.parser.state grow l i b refl v in
    let (w', m') = run-Follows bs grow (step grow l i b) (i + 1) w in
    (w', m' ∙ ap (λ t. final limit t bs) m)

pub parser-flush_in : (s : ParserState) (l : Loop) (n : ℕ) → (flush_in s l n).parser ≡ l.parser
unfolding flush_in
parser-flush_in state_data l n = ground arith
parser-flush_in _ l n = refl

-- Behind a chunk a valid parser is valid, and in the mode that the whole stream leads to, with the
-- bytes of an unfinished subnegotiation in its buffer.
pub parse-Follows :
    (grow : Growth) {limit : ℕ} {p : Parser} (input : Bytes)
    → IsValid limit p
    → Follows limit (final limit (mode_of p) input) (parse grow p input).0
unfolding parse
parse-Follows grow {limit} {p} input v =
    let l : Loop = record { parser = p; result = no_events; data_start = 0 } in
    let l' = run grow l 0 input in
    rw (parser-flush_in l'.parser.state l' (length input)) (run-Follows input grow l 0 v)
