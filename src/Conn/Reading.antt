-- ===== src/Conn/Reading.antt =====
-- conn.go: `Read`, `readLocked` and `ReadLine`. What the n-th `Read` of the socket gives, the bytes
-- and the error, is a parameter. The mutex makes a call one step.
pub mod Queue
pub mod Ends
pub mod Round
pub mod Lines
mod Tests
use telnetty.Base.{
  ℕ, suc, zero, ◌+◌, Bool, true, false, ◌&&◌, Option, none, some, [], ◌∷◌, ◌++◌, ltb, ◌==◌,
  if◌then◌else◌, Bytes, length, take, drop, replicate,
}
use telnetty.Slices.{Growth}
use telnetty.Ring
use telnetty.Ring.{RingError, Ring}
use telnetty.Conn.Output.{Socket, u64}
use telnetty.Conn.Input.{Conn, process_read}

-- `io.EOF`, or another error of the socket.
pub data NetError : Type 0 where
  eof other_error : NetError

pub data ReadError : Type 0 where
  conn_closed : ReadError
  net_error : NetError → ReadError
  ring_error : RingError → ReadError

abbrev pub Source : Type 0
Source = ℕ → Bytes × Option NetError

-- A connection with `stats.BytesRead`, `readLineCR` and the number of reads of the socket.
pub record Reader : Type 0 where
  pub conn : Conn
  pub bytes_read : ℕ
  pub read_line_cr : Bool
  pub reads : ℕ

-- `c.readBuf.Read(p)`; the third result is what `p` holds afterwards.
pub read_ring : Reader → Bytes → ℕ × Option ReadError × Bytes × Reader
read_ring x p =
    let (n, e, p', r') = Ring.read x.conn.read_buf p in
    (
      n,
      elim e [ some err ↦ some (ring_error err) | none ↦ none ],
      p',
      record x { conn = record x.conn { read_buf = r' } },
    )

-- One read of the socket, and `processReadLocked` on its bytes.
pub receive : Growth → Socket → Reader → Bytes → Reader
receive grow net x bytes =
    let counted = record x { reads = x.reads + 1 } in
    if ltb 0 (length bytes)
    then record counted {
      bytes_read = u64 (x.bytes_read + length bytes);
      conn = process_read grow net x.conn bytes;
    }
    else counted

-- What `readLocked` returns behind the read of the socket.
pub deliver : Option NetError → ℕ → Reader → Bytes → ℕ × Option ReadError × Bytes × Reader
deliver (some err) nr x p =
    if ltb 0 (Ring.len x.conn.read_buf) then read_ring x p else (0, some (net_error err), p, x)
deliver none nr x p =
    if nr == 0
    then (0, none, p, x)
    else if ltb 0 (Ring.len x.conn.read_buf)
    then read_ring x p
    else (0, none, p, x)

-- The loop never goes round: each of its branches returns.
pub read_locked : Growth → Socket → Source → Reader → Bytes → ℕ × Option ReadError × Bytes × Reader
read_locked grow net src x p =
    let (bytes, err) = src x.reads in
    if ltb 0 (Ring.len x.conn.read_buf)
    then read_ring x p
    else deliver err (length bytes) (receive grow net x bytes) p

unfoldable pub read :
    Growth → Socket → Source → Reader → Bytes → ℕ × Option ReadError × Bytes × Reader
read grow net src x p =
    if x.conn.out.closed then (0, some conn_closed, p, x) else read_locked grow net src x p

abbrev pub newline : ℕ
newline = 10

abbrev pub carriage_return : ℕ
carriage_return = 13

-- The bytes before the first newline, and those behind it.
pub cut_newline : Bytes → Option (Bytes × Bytes)
cut_newline [] = none
cut_newline (b ∷ bs) =
    let rest = cut_newline bs in
    if b == newline
    then some ([], bs)
    else elim rest [ some (before, behind) ↦ some (b ∷ before, behind) | none ↦ none ]

-- Whether the last byte is a CR, and all bytes but the last.
abbrev pub ends_cr : Bytes → Bool
ends_cr [] = false
ends_cr (b ∷ []) = b == carriage_return
ends_cr (b ∷ c ∷ bs) = ends_cr (c ∷ bs)

abbrev pub but_last : Bytes → Bytes
but_last [] = []
but_last (b ∷ []) = []
but_last (b ∷ c ∷ bs) = b ∷ but_last (c ∷ bs)

-- The line at a newline: a CR before it goes, also one at the end of the bytes read before.
pub complete : Bytes → Bytes → Bool → Bytes
complete line [] cr = if cr then but_last line else line
complete line (b ∷ before) cr =
    if ends_cr (b ∷ before) then line ++ but_last (b ∷ before) else line ++ b ∷ before

-- The bytes behind the newline are written to the ring.
pub put_back : Reader → Bytes → Reader
put_back x [] = record x { read_line_cr = false }
put_back x (b ∷ bs) = record x {
  conn = record x.conn { read_buf = (Ring.write x.conn.read_buf (b ∷ bs)).2 };
  read_line_cr = false;
}

-- What `ReadLine` has returned, or that the rounds are used up.
pub data Line : Type 0 where
  out_of_fuel : Line
  line : Bytes → Option ReadError → Reader → Line

-- The loop of `ReadLine`, a unit of fuel for each round.
pub read_line_from : Growth → Socket → Source → ℕ → Bytes → Reader → Line
read_line_from grow net src zero sofar x = out_of_fuel
read_line_from grow net src (suc f) sofar x =
    let (n, e, buf, x') = read_locked grow net src x (replicate 1024 0) in
    let got = take n buf in
    let held = record x' { read_line_cr = ends_cr got } in
    elim (cut_newline got) [
      | some (before, behind) ↦
          line (complete sofar before x'.read_line_cr) none (put_back x' behind)
      | none ↦ elim e [
        | some err ↦ line (sofar ++ got) (some err) held
        | none ↦ read_line_from grow net src f (sofar ++ got) held
      ]
    ]

pub read_line : Growth → Socket → Source → ℕ → Reader → Line
read_line grow net src f x = read_line_from grow net src f [] x
