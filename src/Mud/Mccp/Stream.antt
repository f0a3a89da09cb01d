-- ===== src/Mud/Mccp/Stream.antt =====
-- mud.go: what `MCCPWriter` puts on the wire.
use telnetty.Base.{ℕ, ◌≡◌, refl, Option, none, some, List, [], ◌∷◌, ◌++◌, arith, Bytes, length}
use telnetty.Slices.{Growth, Fits}
use telnetty.Slices.Append.{IsSlice}
use telnetty.Codec.Escape.{escaped}
use telnetty.Conn.Output.Extend.{IsWriter, stream, Extends-nil, Extends-trans, Puts}
use telnetty.Conn.Output.Stream.{write-stream}
use telnetty.Conn.Output.{WriteError, Socket, Out, write}
use telnetty.Mud.Mccp.{Zlib, Compressor, Mccp, write_chunks, emit, mccp_write}

-- The chunks one after the other, each IAC twice.
abbrev pub all_escaped : List Bytes → Bytes
all_escaped [] = []
all_escaped (c ∷ cs) = escaped c ++ all_escaped cs

module _ (grow : Growth) (fits : Fits grow) (net : Socket) (contract : IsWriter net) where
  after_write :
      (c : Bytes) (cs : List Bytes) (o : Out) (r : ℕ × Option WriteError × Out)
      → (r.1 ≡ none → (r.0 ≡ length c) × IsSlice r.2.buf × (stream r.2 ≡ stream o ++ escaped c))
      → ((o' : Out)
          → IsSlice o'.buf
          → Puts grow fits net contract o' (all_escaped cs) (write_chunks grow net o' cs))
      → Puts grow fits net contract o
          (escaped c ++ all_escaped cs)
          (elim r.1 [ some err ↦ (some err, r.2) | none ↦ write_chunks grow net r.2 cs ])
  after_write c cs o (n, some err, o') h rest = λ e. absurd (ground arith)
  after_write c cs o (n, none, o') h rest = λ e.
      let (count, v, same) = h refl in
      Extends-trans grow fits net contract o o' (write_chunks grow net o' cs).1 (escaped c)
        (all_escaped cs) (v, same) (rest o' v e)

  write_chunks-Puts :
      (cs : List Bytes) (o : Out)
      → IsSlice o.buf
      → Puts grow fits net contract o (all_escaped cs) (write_chunks grow net o cs)
  unfolding write_chunks
  write_chunks-Puts [] o v = λ _. Extends-nil grow fits net contract o v
  write_chunks-Puts (c ∷ cs) o v =
      after_write c cs o (write grow net o c) (write-stream grow fits net contract o v c)
        (λ o' v'. write_chunks-Puts cs o' v')

  mccp_write-emit :
      {Z : Type 0} (lib : Zlib Z) (mw : Mccp Z) (w : Compressor Z) (p : Bytes)
      → mw.writer ≡ some w
      → w.failure ≡ none
      → let (z, chunks) = lib.deflate w.state p in
        let (e, o) = write_chunks grow net mw.conn chunks in
        mccp_write lib grow net mw p
        ≡ (e, record mw { conn = o; writer = some (record { state = z; failure = e }) })
  unfolding mccp_write emit
  mccp_write-emit lib mw w p writes works = rw (mccp_write, writes, works) refl

  -- A `Write` without an error on a writer that compresses and has not failed puts what the
  -- compressor hands on behind the stream, with each IAC of the compressed bytes twice, if the
  -- socket keeps its contract.
  pub mccp_write-stream :
      {Z : Type 0} (lib : Zlib Z) (mw : Mccp Z) (w : Compressor Z) (p : Bytes)
      → IsSlice mw.conn.buf
      → mw.writer ≡ some w
      → w.failure ≡ none
      → (mccp_write lib grow net mw p).0 ≡ none
      → let (e, mw') = mccp_write lib grow net mw p in
        IsSlice mw'.conn.buf
        × (stream mw'.conn ≡ stream mw.conn ++ all_escaped (lib.deflate w.state p).1)
  mccp_write-stream lib mw w p v writes works =
      rw (mccp_write-emit lib mw w p writes works)
        (write_chunks-Puts (lib.deflate w.state p).1 mw.conn v)
