-- ===== src/Lib.antt =====
-- Telnetty: a TELNET library in Go, modelled file by file.
--
-- The program. A connection (conn.go) reads bytes from a socket, gives each chunk to the parser
-- (parser.go), which splits it into plain data, option commands and subnegotiations; the data go
-- into a ring buffer (buffer.go), the commands to the option negotiator (options.go). What is
-- written is escaped and collected in a static buffer (buffer.go) until it is flushed. A server
-- (server.go) accepts connections up to a limit, runs a handler on each and closes them when it is
-- shut down. The protocols of MUD games (mud.go) are formats of subnegotiations and lines; color.go
-- and utils.go put texts together for a terminal.
--
-- The files.
--   Base       shared names, lists and bits over the native numbers, 32-bit words; Base/Decimal is
--              strconv on numbers, Base/Text what is used of strings and unicode
--   Slices     Go's slices with their arrays, and `append`
--   Pool       buffer.go: getBuf, putBuf and the three pools
--   Ring       buffer.go: Ring. The indices are 32-bit words that wrap around, the cells a list.
--              Ring/Queue is the specification, a bounded queue; Ring/Invariant says when a ring is
--              valid and which bytes it holds.
--   Static     buffer.go: StaticBuffer
--   Cmd, Opt   constants.go: the command and option codes
--   Parser     parser.go: Parser.Parse, one step for each byte of the chunk; Parser/Events has the
--              event arrays and the append methods. Parser/Decode is the specification: what a
--              TELNET stream means, byte by byte, without buffers and limits but the size of a
--              subnegotiation.
--   Codec      parser.go: EscapeIAC, BuildCommand, BuildSubnegotiation
--   Options    options.go: Negotiator. Options/Table is the table of RFC 1143; Options/React and
--              Options/Handshake see two negotiators that exchange commands about one option.
--   Conn       conn.go. Conn/Output is the writing side (Write, SendCommand, SendSubnegotiation, Flush)
--              and the bytes that the socket has taken; Conn/Input is what processReadLocked does with a
--              chunk: it uses the models of the parser, the ring, the negotiator and the writing side.
--              Conn/Reading is Read, readLocked and ReadLine on top of Conn/Input; Conn/Session is
--              NewConn, negotiateInitial and Close. Conn/Samples has connections for the examples.
--   Server     server.go: NewServer with its options, and the accept loop (ListenAndServe, Serve), each
--              handleConn and the winning Close or Shutdown as goroutines with a program counter.
--              Server/Steps is the step relation, one access of shared state at a time;
--              Server/Invariant and Server/Listening are what holds after every step; Safety,
--              Stopping and Shutting are what follows from it.
--   Mud        mud.go: Mud/Msdp (MarshalMSDP, UnmarshalMSDP), Mud/Gmcp, Mud/Mssp, Mud/Mtts, Mud/Mcp;
--              Mud/Send is SendGMCP and SendMSSP over Conn/Output, Mud/Mccp the MCCPWriter
--   Color      color.go: Color.ANSI, Sprint and the methods of a color, WriteColor; Color/Parse is
--              ParseColor, with what it uses of fmt.Sscanf
--   Utils      utils.go: StripANSI, SplitLines and ProgressBar on bytes. Utils/Width has the functions on
--              code points: StringWidth, PadRight, PadLeft, Center, Truncate, WordWrap, Box,
--              IsPrintable and Sanitize.
--
-- State and errors. A method that changes its receiver returns the new value last; an error is a
-- value of a sum type or an Option. Slices are an array and a length; the data of an event are the
-- offset and the size of its slice, so that sharing is visible: a subnegotiation's data are read
-- from the buffer as it is when Parse returns. A Go map is the list of its entries, in an order that
-- a range over it may take. A method under a mutex is one step.
--
-- Bounds and fuel. Ring sizes are at most 2 ^ 31, the largest that the five shifts of NewRing round
-- up; the positions of a ring wrap at 2 ^ 32. A parser's subnegotiation buffer has a limit, which is
-- 512 for NewParser. Loops are structural recursion on their input, but for three. The exchange of
-- two negotiators has a unit of fuel for each message. UnmarshalMSDP has one for each value and each
-- round of a loop; the messages that MarshalMSDP writes need one for each byte and one more, while
-- for some others no fuel is enough, as the loop of the source does not end there. ReadLine
-- has one for each round, which takes up to 1024 bytes: a line that waits in the ring needs one for
-- each 1024 of its bytes and one more, and one that does not, what the socket makes it need.
--
-- Parameters. `Growth` is the capacity that the Go runtime chooses when `append` moves a slice; the
-- theorems hold for every choice, or for every one that is large enough (`Fits`). `Socket` is what
-- the calls of net.Conn's Write return; `IsWriter` is the contract of io.Writer, and `Works` a socket
-- that takes all that it is given. `Source` is what the calls of net.Conn's Read give. `Zlib` is the
-- writer of compress/zlib: its state and the pieces that it writes. The result of json.Marshal is
-- part of a GMCP payload. The range table unicode.Mn, unicode.IsPrint and, outside ASCII,
-- unicode.ToLower are arguments, and the zero Config of NewServer is one.
--
-- Not modelled: eventDispatcher, the goroutine that takes events off a connection's channel; the
-- delegations to net.Conn and the getters that load a field; Sprintf of color.go; two accept
-- loops on one server, a handler that panics, the listener but for being open or closed; the two
-- threads of a ring, whose methods are steps here; buffers that the runtime drops from a
-- sync.Pool; option codes from 256 on, which a byte cannot hold; strings that are not valid
-- UTF-8; numbers below 0 as widths; doc.go and the programs under examples.
pub mod Base
pub mod Slices
pub mod Pool
pub mod Ring
pub mod Static
pub mod Cmd
pub mod Opt
pub mod Parser
pub mod Codec
pub mod Options
pub mod Conn
pub mod Server
pub mod Mud
pub mod Color
pub mod Utils
