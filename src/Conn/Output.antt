-- ===== src/Conn/Output.antt =====
-- conn.go: `Write`, `SendCommand`, `SendSubnegotiation` and what flushes them. The socket is a
-- parameter: what its n-th `Write` returns, for the bytes given. `wire` is what the socket has taken;
-- the mutex makes each method one step. An operation returns the new state last.
pub mod Extend
pub mod Stream
pub mod Results
pub mod Flag
pub mod Delivery
mod Tests
use telnetty.Base.{
  ℕ, ◌+◌, ◌%◌, ◌/◌, ◌^◌, Bool, true, false, Option, none, some, [], ◌∷◌, ◌++◌, ltb, leb, ◌==◌,
  if◌then◌else◌, Bytes, length, take,
}
use telnetty.Cmd
use telnetty.Opt
use telnetty.Slices.{Slice, cap, shown, emptied, Growth, append}

-- `ErrConnClosed`, or the error of the socket, of which the code looks at nothing.
pub data WriteError : Type 0 where
  conn_closed net_error : WriteError

-- The bytes taken, and whether there is no error.
abbrev pub Socket : Type 0
Socket = ℕ → Bytes → ℕ × Bool

pub record Out : Type 0 where
  pub closed : Bool
  pub buf : Slice
  pub bytes_written : ℕ
  pub commands_sent : ℕ
  pub calls : ℕ
  pub wire : Bytes

abbrev pub u64 : ℕ → ℕ
u64 n = n % 2 ^ 64

abbrev append_out : Growth → Out → Bytes → Out
append_out grow o p = record o { buf = append grow o.buf p }

-- The call of the socket in `flushLocked`.
abbrev pub offered : Socket → Out → ℕ → Out
offered net o n = record o {
  bytes_written = if ltb 0 n then u64 (o.bytes_written + n) else o.bytes_written;
  calls = o.calls + 1;
  wire = o.wire ++ take n (shown o.buf);
}

unfoldable pub flush_locked : Socket → Out → Option WriteError × Out
flush_locked net o =
    let (n, ok) = net o.calls (shown o.buf) in
    let o' = offered net o n in
    if o.buf.len == 0
    then (none, o)
    else if ok
    then (none, record o' { buf = emptied o.buf })
    else (some net_error, o')

-- The end of the loop of `Write`: one byte, an IAC twice.
unfoldable pub put : Growth → Out → ℕ → Out
put grow o b =
    let o' = append_out grow o (b ∷ []) in
    if b == Cmd.iac then append_out grow o' (Cmd.iac ∷ []) else o'

-- The loop of `Write`, with the count `n`.
unfoldable pub write_loop : Growth → Socket → Out → ℕ → Bytes → ℕ × Option WriteError × Out
write_loop grow net o n [] = (n, none, o)
write_loop grow net o n (b ∷ p) =
    let (e, o') = if leb (cap o.buf) o.buf.len then flush_locked net o else (none, o) in
    elim e [ some err ↦ (n, some err, o') | none ↦ write_loop grow net (put grow o' b) (n + 1) p ]

unfoldable pub needs_escape : Bytes → Bool
needs_escape [] = false
needs_escape (b ∷ p) = if b == Cmd.iac then true else needs_escape p

unfoldable pub write : Growth → Socket → Out → Bytes → ℕ × Option WriteError × Out
write grow net o p =
    if o.closed
    then (0, some conn_closed, o)
    else if needs_escape p
    then write_loop grow net o 0 p
    else if leb (o.buf.len + length p) (cap o.buf)
    then (length p, none, append_out grow o p)
    else write_loop grow net o 0 p

pub write_byte : Growth → Socket → Out → ℕ → Option WriteError × Out
write_byte grow net o b = let (n, e, o') = write grow net o (b ∷ []) in (e, o')

-- `if len(buf)+required > cap(buf) { flushLocked }`
unfoldable pub make_room : Socket → Out → ℕ → Option WriteError × Out
make_room net o required =
    if ltb (cap o.buf) (o.buf.len + required) then flush_locked net o else (none, o)

-- What `SendCommand` does once there is room.
abbrev pub command_behind : Growth → ℕ → ℕ → Out → Out
command_behind grow cmd option o = record (append_out grow o (Cmd.iac ∷ cmd ∷ option ∷ [])) {
  commands_sent = u64 (o.commands_sent + 1);
}

pub send_command : Growth → Socket → Out → ℕ → ℕ → Option WriteError × Out
send_command grow net o cmd option =
    let (e, o') = make_room net o 3 in
    if o.closed
    then (some conn_closed, o)
    else elim e [ some err ↦ (some err, o') | none ↦ (none, command_behind grow cmd option o') ]

-- The loop of `SendSubnegotiation`.
unfoldable pub put_all : Growth → Out → Bytes → Out
put_all grow o [] = o
put_all grow o (b ∷ payload) = put_all grow (put grow o b) payload

-- `required`: the two loops of `SendSubnegotiation` count the bytes.
unfoldable pub iacs_from : ℕ → Bytes → ℕ
iacs_from n [] = n
iacs_from n (b ∷ payload) = iacs_from (if b == Cmd.iac then n + 1 else n) payload

-- What `SendSubnegotiation` does once there is room.
abbrev pub frame_behind : Growth → ℕ → Bytes → Out → Out
frame_behind grow option payload o =
    let opened = append_out grow o (Cmd.iac ∷ Cmd.sb ∷ option ∷ []) in
    append_out grow (put_all grow opened payload) (Cmd.iac ∷ Cmd.se ∷ [])

unfoldable pub send_subnegotiation : Growth → Socket → Out → ℕ → Bytes → Option WriteError × Out
send_subnegotiation grow net o option payload =
    let (e, o') = make_room net o (iacs_from (3 + length payload + 2) payload) in
    if o.closed
    then (some conn_closed, o)
    else elim e [ some err ↦ (some err, o') | none ↦ (none, frame_behind grow option payload o') ]

-- `byte(width >> 8), byte(width), …`
abbrev pub naws_data : ℕ → ℕ → Bytes
naws_data width height = width / 256 % 256 ∷ width % 256 ∷ height / 256 % 256 ∷ height % 256 ∷ []

unfoldable pub send_naws : Growth → Socket → Out → ℕ → ℕ → Option WriteError × Out
send_naws grow net o width height = send_subnegotiation grow net o Opt.naws (naws_data width height)

pub send_ttype : Growth → Socket → Out → Bytes → Option WriteError × Out
send_ttype grow net o term = send_subnegotiation grow net o Opt.terminal_type (0 ∷ term)

unfoldable pub flush : Socket → Out → Option WriteError × Out
flush net o = flush_locked net o
