-- ===== src/Mud/Send/Received.antt =====
-- From one end to the other: `SendGMCP` of mud.go, `Parse` of parser.go and `UnmarshalGMCP`.
use telnetty.Base.{
  ℕ, ◌≤◌, ◌≡◌, refl, sym, ap, ◌∙◌, Option, none, some, [], ◌∷◌, ◌++◌, Bytes, length,
}
use mathlib.Core.Path.{subst}
use telnetty.Opt
use telnetty.Slices.{Growth, Fits}
use telnetty.Slices.Append.{IsSlice}
use telnetty.Codec.Escape.{escaped}
use telnetty.Parser.State
use telnetty.Parser.State.{mode_of}
use telnetty.Parser.Decode.{text}
use telnetty.Parser.{Parser, parse, sn_data}
use telnetty.Conn.Output.Extend.{IsWriter, stream}
use telnetty.Conn.Output.{Socket, Out, flush, send_subnegotiation, WriteError}
use telnetty.Conn.Output.Delivery.{Receives, send_subnegotiation-received}
use telnetty.Mud.Gmcp.{
  GmcpMessage, Payload, unmarshal_gmcp, encoded, NoBlank, blank, unmarshal_gmcp-append,
  marshal_gmcp-encoded,
}
use telnetty.Mud.Send.{send_gmcp, as_send_error}

-- A chunk that the parser takes as one GMCP subnegotiation, which unmarshals to this message.
abbrev pub ReceivesGmcp : Growth → Parser → Bytes → GmcpMessage → Type 0
ReceivesGmcp grow q chunk msg =
    (payload : Bytes) × (got : Receives grow q chunk Opt.gmcp payload) × (unmarshal_gmcp
        (sn_data (parse grow q chunk).0 got.0.last)
      ≡ msg)

as_send_error-none : (e : Option WriteError) → as_send_error e ≡ none → e ≡ none
as_send_error-none none h = refl
as_send_error-none (some err) h = absurd (cc)

send_gmcp-encoded :
    {A : Type 0} (json : A → Option Bytes) (grow : Growth) (net : Socket) (o : Out)
    (pkg content : Bytes) (p : Payload A)
    → encoded json p ≡ some content
    → let r = send_subnegotiation grow net o Opt.gmcp (pkg ++ blank ∷ content) in
      send_gmcp json grow net o pkg p ≡ (as_send_error r.0, r.1)
unfolding send_gmcp
send_gmcp-encoded json grow net o pkg content p h =
    rw (send_gmcp, marshal_gmcp-encoded json pkg content p h) refl

module _ {A : Type 0} (json : A → Option Bytes) where
  -- A message whose name has no blank and whose content, the bytes given or the JSON of the value,
  -- is there, sent and flushed without an error from a connection with nothing sent or waiting, is
  -- what a valid parser outside a sequence and `UnmarshalGMCP` make of the bytes on the wire, if
  -- the socket keeps its contract, the payload has no IAC and it fits the parser's buffer.
  pub send_gmcp-received :
      (grow : Growth) (net : Socket) {limit : ℕ} {q : Parser} (o : Out) (pkg content : Bytes)
      (p : Payload A)
      → Fits grow
      → IsWriter net
      → IsSlice o.buf
      → stream o ≡ []
      → encoded json p ≡ some content
      → NoBlank pkg
      → (send_gmcp json grow net o pkg p).0 ≡ none
      → (flush net (send_gmcp json grow net o pkg p).1).0 ≡ none
      → State.IsValid limit q
      → mode_of q ≡ text
      → escaped (pkg ++ blank ∷ content) ≡ pkg ++ blank ∷ content
      → length (pkg ++ blank ∷ content) ≤ limit
      → let (e, o') = flush net (send_gmcp json grow net o pkg p).1 in
        ReceivesGmcp grow q o'.wire (record { package_name = pkg; content = content })
  send_gmcp-received grow net {limit} {q} o pkg content p fits contract v nothing enc word sent
        flushed w m plain small =
      let bytes = pkg ++ blank ∷ content in
      let r = send_subnegotiation grow net o Opt.gmcp bytes in
      let same = send_gmcp-encoded json grow net o pkg content p enc in
      let ok : r.0 ≡ none = as_send_error-none r.0 (subst (λ t. t.0 ≡ none) same sent) in
      let got =
        send_subnegotiation-received grow net o Opt.gmcp bytes fits contract v nothing ok
          (subst (λ t. (flush net t.1).0 ≡ none) same flushed) w m plain small in
      subst
        (λ t.
          ReceivesGmcp grow q (flush net t.1).1.wire
            (record { package_name = pkg; content = content }))
        (sym same)
        (bytes, got, ap unmarshal_gmcp got.0.data_is ∙ unmarshal_gmcp-append pkg content word)
