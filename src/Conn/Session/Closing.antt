-- ===== src/Conn/Session/Closing.antt =====
-- conn.go: `Close`, and a connection behind it.
use telnetty.Base.{ℕ, ◌≡◌, refl, sym, ◌∙◌, true, false, some, arith, Bytes}
use mathlib.Core.Path.{subst}
use telnetty.Ring
use telnetty.Slices.{Growth, Fits}
use telnetty.Slices.Append.{IsSlice}
use telnetty.Pool.{Pools, put_buf}
use telnetty.Ring
use telnetty.Conn.Output.{Socket, Out, conn_closed, write, send_command, send_subnegotiation, flush}
use telnetty.Conn.Output.Flag.{closed-refuses, closed-flush}
use telnetty.Conn.Output.Extend.{IsWriter, stream, flush-wire}
use telnetty.Conn.Output.Results.{Works, flush-none}
use telnetty.Conn.Reading.{Source, ReadError, read}
use telnetty.Conn.Session.{Session, already_closed, socket_closed, close, free_out}

-- What every method answers on a connection that is closed.
abbrev pub Refuses : Growth → Socket → Source → Session → Type 0
Refuses grow net src s =
    (p : Bytes) (cmd option : ℕ)
    → (write grow net s.reader.conn.out p ≡ (0, some conn_closed, s.reader.conn.out))
      × (send_command grow net s.reader.conn.out cmd option ≡ (some conn_closed, s.reader.conn.out))
      × (send_subnegotiation grow net s.reader.conn.out option p
          ≡ (some conn_closed, s.reader.conn.out))
      × (read grow net src s.reader p ≡ (0, some ReadError.conn_closed, p, s.reader))

closed-Refuses :
    (grow : Growth) (net : Socket) (src : Source) (s : Session)
    → s.reader.conn.out.closed ≡ true
    → Refuses grow net src s
unfolding read
closed-Refuses grow net src s shut p cmd option =
    let (a, b, c) = closed-refuses grow net s.reader.conn.out p cmd option shut in
    (a, b, c, simp (shut) refl)

free_out-keeps :
    (o : Out) (ps : Pools)
    → ((free_out o ps).0.closed ≡ o.closed) × ((free_out o ps).0.wire ≡ o.wire)
unfolding free_out
free_out-keeps o ps = ground arith

-- What is left of an open connection.
abbrev ended : Socket → Session → Pools → Session × Pools
ended net s ps =
    let c = s.reader.conn in
    let (ring, ps₁) = Ring.free c.read_buf ps in
    let (freed, ps₂) = free_out (flush net (record c.out { closed = true })).1 ps₁ in
    (
      record s { reader = record s.reader { conn = record c { read_buf = ring; out = freed } } },
      put_buf s.read_scratch ps₂,
    )

close-open :
    (net : Socket) (s : Session) (ps : Pools)
    → s.reader.conn.out.closed ≡ false
    → close net s ps ≡ (socket_closed, (ended net s ps).0, (ended net s ps).1)
unfolding close
close-open net s ps live = rw (close, live) refl

close-closed :
    (net : Socket) (s : Session) (ps : Pools)
    → s.reader.conn.out.closed ≡ true
    → close net s ps ≡ (already_closed, s, ps)
unfolding close
close-closed net s ps shut = rw (close, shut) refl

-- `Close` of an open connection whose socket keeps its contract and takes all that it is given
-- sends what is buffered. Behind it a second `Close` says that the connection is closed, and
-- `Write`, `SendCommand`, `SendSubnegotiation` and `Read` do the same and change nothing.
pub close-Refuses :
    (grow : Growth) (net : Socket) (src : Source) (s : Session) (ps : Pools)
    → Fits grow
    → IsWriter net
    → Works net
    → IsSlice s.reader.conn.out.buf
    → s.reader.conn.out.closed ≡ false
    → let (r, s', ps') = close net s ps in
      (r ≡ socket_closed)
      × (s'.reader.conn.out.wire ≡ stream s.reader.conn.out)
      × (close net s' ps' ≡ (already_closed, s', ps'))
      × Refuses grow net src s'
close-Refuses grow net src s ps fits contract works v live =
    let flushing = record s.reader.conn.out { closed = true } in
    let r = flush net flushing in
    let (s', ps') = ended net s ps in
    let (flag_is, wire_is) = free_out-keeps r.1 (Ring.free s.reader.conn.read_buf ps).1 in
    let shut : s'.reader.conn.out.closed ≡ true = flag_is ∙ closed-flush net flushing in
    let sent = flush-wire grow fits net contract flushing v (flush-none grow net works flushing) in
    subst
      (λ t.
        (t.0 ≡ socket_closed)
        × (t.1.reader.conn.out.wire ≡ stream s.reader.conn.out)
        × (close net t.1 t.2 ≡ (already_closed, t.1, t.2))
        × Refuses grow net src t.1)
      (sym (close-open net s ps live))
      (refl, wire_is ∙ sent, close-closed net s' ps' shut, closed-Refuses grow net src s' shut)
