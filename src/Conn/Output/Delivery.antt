-- ===== src/Conn/Output/Delivery.antt =====
-- From one end to the other: `Write` of conn.go and `Parse` of parser.go.
use telnetty.Base.{ℕ, ◌*◌, ◌≤◌, ◌<◌, ◌≡◌, ap, ◌∙◌, none, [], ◌∷◌, ◌++◌, Bytes, length}
use mathlib.Core.Path.{subst}
use telnetty.Codec.Escape.{escaped, frame}
use telnetty.Slices.{Growth, Fits}
use telnetty.Slices.Append.{IsSlice}
use telnetty.Parser.State
use telnetty.Parser.State.{mode_of}
use telnetty.Parser.Events.{max_data, resolve}
use telnetty.Parser.Decode.{text}
use telnetty.Parser.Subnegotiation.{EndsWith}
use telnetty.Parser.Commands.{sn_of}
use telnetty.Parser.Frames.{iac_count, parse-escaped, parse-frame}
use telnetty.Parser.{Parser, parse}
use telnetty.Conn.Output.Extend.{IsWriter, stream, flush-wire}
use telnetty.Conn.Output.Stream.{write-stream, send_subnegotiation-stream}
use telnetty.Conn.Output.{Socket, Out, write, flush, send_subnegotiation}

-- Bytes that are written to a connection with nothing sent or waiting, and flushed, both without
-- an error, are the plain data that a valid parser outside a sequence finds on the wire, if the
-- socket keeps the contract of io.Writer and fewer than 32 of the bytes are IACs.
pub write-delivered :
    (grow : Growth) (net : Socket) {limit : ℕ} {q : Parser} (o : Out) (p : Bytes)
    → Fits grow
    → IsWriter net
    → IsSlice o.buf
    → stream o ≡ []
    → (write grow net o p).1 ≡ none
    → (flush net (write grow net o p).2).0 ≡ none
    → State.IsValid limit q
    → mode_of q ≡ text
    → 2 * iac_count p < max_data
    → let wire = (flush net (write grow net o p).2).1.wire in
      resolve wire (parse grow q wire).1.data_events ≡ p
write-delivered grow net {limit} {q} o p fits contract v nothing written flushed w m few =
    let (n, v', same) = write-stream grow fits net contract o v p written in
    let wire_is =
      flush-wire grow fits net contract (write grow net o p).2 v' flushed
      ∙ same
      ∙ ap (λ t. t ++ escaped p) nothing in
    rw wire_is (parse-escaped grow w m p few).0

-- A chunk that the parser takes as one subnegotiation, with these data, and no other.
abbrev pub Receives : Growth → Parser → Bytes → ℕ → Bytes → Type 0
Receives grow q chunk option payload =
    EndsWith option payload (parse grow q chunk)
    × (sn_of (parse grow q chunk).1 ≡ (option, length payload) ∷ [])

-- A payload that is sent and flushed, both without an error, from a connection with nothing sent
-- or waiting is the one subnegotiation that a valid parser outside a sequence finds on the wire,
-- if the socket keeps its contract, the payload has no IAC and it fits the parser's buffer.
pub send_subnegotiation-received :
    (grow : Growth) (net : Socket) {limit : ℕ} {q : Parser} (o : Out) (option : ℕ) (payload : Bytes)
    → Fits grow
    → IsWriter net
    → IsSlice o.buf
    → stream o ≡ []
    → (send_subnegotiation grow net o option payload).0 ≡ none
    → (flush net (send_subnegotiation grow net o option payload).1).0 ≡ none
    → State.IsValid limit q
    → mode_of q ≡ text
    → escaped payload ≡ payload
    → length payload ≤ limit
    → let (e, o') = flush net (send_subnegotiation grow net o option payload).1 in
      Receives grow q o'.wire option payload
send_subnegotiation-received grow net {limit} {q} o option payload fits contract v nothing sent
      flushed w m plain small =
    let (v', same) = send_subnegotiation-stream grow fits net contract o v option payload sent in
    let wire_is =
      flush-wire grow fits net contract (send_subnegotiation grow net o option payload).1 v' flushed
      ∙ same
      ∙ ap (λ t. t ++ frame option payload) nothing in
    let (ends, one, c, d, m') = parse-frame grow w m option payload (rw plain small) in
    rw wire_is (
      subst
        (λ t.
          EndsWith option t (parse grow q (frame option payload))
          × (sn_of (parse grow q (frame option payload)).1 ≡ (option, length t) ∷ []))
        plain (ends, one))
