-- ===== src/Mud/Tests.antt =====
-- The MUD protocols on small messages.
use telnetty.Base.{
  ℕ, ◌+◌, ◌≤◌, ◌≡◌, refl, inl, Bool, true, false, Option, none, some, List, [], ◌∷◌, arith, Bytes,
  length, replicate,
}
use telnetty.Slices.{append, Growth, Fits}
use telnetty.Slices.Append.{IsSlice}
use telnetty.Parser.State
use telnetty.Parser.{new_parser}
use telnetty.Conn.Output.Extend.{IsWriter, stream}
use telnetty.Conn.Output.{
  put_all, iacs_from, flush_locked, put, write_loop, needs_escape, make_room, send_subnegotiation,
  Socket, Out, flush, write,
}
use telnetty.Mud.Mssp.{AreClean}
use telnetty.Base.Int.{pos}
use telnetty.Base.Text.{is_space-visible}
use telnetty.Mud.Mccp.{write_chunks, emit, Zlib, Compressor, Mccp, mccp_write}
use telnetty.Mud.Mccp.Stream.{mccp_write-stream}
use telnetty.Mud.Gmcp.{marshal_gmcp, raw}
use telnetty.Mud.Send.{send_gmcp}
use telnetty.Mud.Send.Received.{send_gmcp-received, ReceivesGmcp}
use telnetty.Slices.{Growth, Fits}
use telnetty.Slices.Append.{IsSlice}
use telnetty.Parser.State
use telnetty.Parser.{new_parser}
use telnetty.Conn.Output.Extend.{IsWriter, stream}
use telnetty.Conn.Output.{Socket, Out, flush, write}
use telnetty.Mud.Msdp.{
  write_fields, msdp_string, msdp_table, msdp_array, Fields, no_fields, field, no_items, item,
  marshal_msdp, unmarshal_msdp, unmarshalled, starved, msdp_var, msdp_array_open,
}
use telnetty.Mud.Msdp.Writable.{AreWritable}
use telnetty.Mud.Msdp.RoundTrip.{unmarshal-marshal_msdp}
use telnetty.Mud.Msdp.Hang.{unmarshal_msdp-starved}
use telnetty.Base.Text.{is_space-visible, IsWord}
use telnetty.Mud.Mcp.{McpMessage, mcp, parse_mcp, mcp_string}
use telnetty.Mud.Mcp.RoundTrip.{parse_mcp-mcp_string}
use telnetty.Mud.Gmcp.{raw}
use telnetty.Mud.Mssp.{MsspVar}
use telnetty.Mud.Send.{send_gmcp}
use telnetty.Mud.Send.Received.{send_gmcp-received, ReceivesGmcp}
use telnetty.Mud.Mccp.{Zlib, Compressor, Mccp, mccp_write}
use telnetty.Mud.Mccp.Stream.{mccp_write-stream}

-- A table with a text and an array under the key "A", and a text under "B".
abbrev sample : Fields
sample =
    field (65 ∷ [])
      (msdp_table (
        field (66 ∷ []) (msdp_string (67 ∷ [])) (
          field (68 ∷ [])
            (msdp_array (item (msdp_string []) (item (msdp_string (69 ∷ [])) no_items)))
            no_fields)))
      (field (66 ∷ []) (msdp_string (70 ∷ [])) no_fields)

sample-AreWritable : AreWritable sample
unfolding AreWritable
sample-AreWritable = ground arith

unmarshal-marshal_msdp_example : unmarshal_msdp 20 (marshal_msdp sample) ≡ unmarshalled sample
unfolding marshal_msdp write_fields
unmarshal-marshal_msdp_example = unmarshal-marshal_msdp sample 20 sample-AreWritable (omega arith)

unmarshal_msdp-starved_example :
    unmarshal_msdp 1000 (msdp_var ∷ 65 ∷ msdp_array_open ∷ msdp_var ∷ []) ≡ starved
unmarshal_msdp-starved_example =
    unmarshal_msdp-starved 1000 msdp_var (65 ∷ []) [] (refl, tt) (inl refl)

-- "#$#p a t k: v"
abbrev note : McpMessage
note = record {
  auth_key = 97 ∷ [];
  package_name = 112 ∷ [];
  tag = 116 ∷ [];
  params = (107 ∷ [], 118 ∷ []) ∷ [];
}

letter-IsWord : (c : ℕ) → 33 ≤ c → c ≤ 126 → IsWord (c ∷ [])
letter-IsWord c p q = (is_space-visible c p q, tt)

parse_mcp-mcp_string_example : parse_mcp (mcp_string note) ≡ mcp note
parse_mcp-mcp_string_example =
    parse_mcp-mcp_string note tt (letter-IsWord 112 (omega arith) (omega arith))
      (tt, letter-IsWord 97 (omega arith) (omega arith), (refl, tt)) tt
      (letter-IsWord 116 (omega arith) (omega arith))
      (
        (tt, letter-IsWord 107 (omega arith) (omega arith), (refl, tt)),
        (tt, letter-IsWord 118 (omega arith) (omega arith), (refl, tt)),
        tt,
        tt,
      )

abbrev players : List MsspVar
players = record { name = 80 ∷ []; value = 51 ∷ [] } ∷ []

players-AreClean : AreClean players
players-AreClean = ground arith

abbrev double : Growth
double old needed = old + needed

double-Fits : Fits double
double-Fits old needed = omega arith

abbrev good : Socket
good i p = (length p, true)

good-IsWriter : IsWriter good
good-IsWriter = record { taken_le = λ i p. omega arith; all_taken = λ i p e. refl }

abbrev unused : Out
unused = record {
  closed = false;
  buf = record { mem = replicate 32 0; len = 0 };
  bytes_written = 0;
  commands_sent = 0;
  calls = 0;
  wire = [];
}

new_parser-IsValid : State.IsValid 512 new_parser
new_parser-IsValid = record {
  buffer = record { unlimited = refl; cap_is = refl; len_le = omega arith };
  fresh = λ _. refl;
}

-- No value has a JSON text.
abbrev no_json : Bool → Option Bytes
no_json b = none

send_gmcp-received_example :
    let (e, o') = flush good (send_gmcp no_json double good unused (65 ∷ []) (raw (49 ∷ []))).1 in
    ReceivesGmcp double new_parser o'.wire (record { package_name = 65 ∷ []; content = 49 ∷ [] })
unfolding send_gmcp marshal_gmcp send_subnegotiation make_room iacs_from put_all put flush
    flush_locked append
send_gmcp-received_example =
    send_gmcp-received no_json double good unused (65 ∷ []) (49 ∷ []) (raw (49 ∷ [])) double-Fits
      good-IsWriter (omega arith) refl refl (refl, tt) refl refl new_parser-IsValid refl refl
      (omega arith)

-- A compressor that hands its input on in two chunks.
abbrev storing : Zlib Bool
storing = record {
  new_writer = λ _. true;
  deflate = λ z p. (z, p ∷ (255 ∷ []) ∷ []);
  sync = λ z. (z, []);
  finish = λ z. (z, []);
}

abbrev ready : Compressor Bool
ready = record { state = true; failure = none }

abbrev compressing : Mccp Bool
compressing = record { conn = unused; writer = some ready; level = pos 6 }

mccp_write-stream_example :
    let (e, mw') = mccp_write storing double good compressing (65 ∷ []) in
    IsSlice mw'.conn.buf × (stream mw'.conn ≡ 65 ∷ 255 ∷ 255 ∷ [])
unfolding mccp_write emit write_chunks write needs_escape write_loop put flush_locked append
mccp_write-stream_example =
    mccp_write-stream double double-Fits good good-IsWriter storing compressing ready (65 ∷ [])
      (omega arith) refl refl refl
