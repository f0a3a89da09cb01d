-- ===== src/Conn/Session/Tests.antt =====
-- A connection that enables ECHO, NAWS and MCP at its start, and one at its end.
use telnetty.Base.{ℕ, true, ◌++◌, ◌≡◌, refl, false, some, [], ◌∷◌, arith}
use telnetty.Base.Int.{pos}
use telnetty.Pool.{Pools}
use telnetty.Ring.Invariant.{IsValid, contents}
use telnetty.Conn.Output.Results.{Works}
use telnetty.Conn.Samples.{double, double-Fits, good, good-IsWriter, echo_only, fresh, unused}
use telnetty.Conn.Input.{Config}
use telnetty.Conn.Reading.{Source, eof}
use telnetty.Conn.Session.{
  Sizes, Session, buffer_size, new_conn, close, already_closed, socket_closed,
}
use telnetty.Conn.Session.Opening.{new_conn-opening}
use telnetty.Conn.Session.Closing.{close-Refuses, Refuses}

good-Works : Works good
good-Works i p = refl

abbrev sizes : Sizes
sizes = record {
  terminal_width = 80;
  terminal_height = 24;
  read_buffer_size = pos 4096;
  write_buffer_size = pos 0;
}

abbrev empty_pools : Pools
empty_pools = record { pool4k = []; pool16k = []; pool64k = [] }

abbrev three_options : Config
three_options = record echo_only { enable_naws = true; enable_mcp = true }

new_conn-opening_example :
    let c = (new_conn double good three_options sizes empty_pools).0.reader.conn in
    (c.out.wire
      ≡ (255 ∷ 251 ∷ 1 ∷ [])
        ++ (255 ∷ 251 ∷ 31 ∷ [])
        ++ (255 ∷ 250 ∷ 31 ∷ 0 ∷ 80 ∷ 0 ∷ 24 ∷ 255 ∷ 240 ∷ [])
        ++ (255 ∷ 251 ∷ 200 ∷ []))
    × ((k : ℕ) × IsValid k c.read_buf × (contents c.read_buf ≡ []))
unfolding buffer_size
new_conn-opening_example =
    new_conn-opening double good three_options sizes empty_pools double-Fits good-IsWriter
      good-Works (omega arith)

-- Two bytes are buffered.
abbrev busy : Session
busy = record {
  reader = record {
    conn = record fresh { out = record unused { buf = record { mem = 7 ∷ 8 ∷ 0 ∷ []; len = 2 } } };
    bytes_read = 0;
    read_line_cr = false;
    reads = 0;
  };
  read_scratch = record { mem = 0 ∷ []; len = 1 };
}

abbrev silent : Source
silent i = ([], some eof)

close-Refuses_example :
    let (r, s', ps') = close good busy empty_pools in
    (r ≡ socket_closed)
    × (s'.reader.conn.out.wire ≡ 7 ∷ 8 ∷ [])
    × (close good s' ps' ≡ (already_closed, s', ps'))
    × Refuses double good silent s'
close-Refuses_example =
    close-Refuses double good silent busy empty_pools double-Fits good-IsWriter good-Works
      (omega arith) refl
