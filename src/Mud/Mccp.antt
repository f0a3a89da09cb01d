-- ===== src/Mud/Mccp.antt =====
-- mud.go: `MCCPWriter`. The compression of the package `compress/zlib` is a parameter: the states of
-- a compressor and, for each call, the chunks that it hands to the connection's `Write`. A
-- `zlib.Writer` keeps its first error. The counts of bytes are left out.
pub mod Stream
use telnetty.Base.{Bool, Option, none, some, List, [], ◌∷◌, ltb, if◌then◌else◌, Bytes}
use telnetty.Base.Int.{ℤ, pos, negsuc}
use telnetty.Cmd
use telnetty.Opt
use telnetty.Slices.{Growth}
use telnetty.Conn.Output.{WriteError, Socket, Out, write, send_command, send_subnegotiation, flush}

-- `NewWriterLevel`, `Write`, `Flush` and `Close`, with the chunks that are written on.
pub record Zlib (Z : Type 0) : Type 0 where
  pub new_writer : ℤ → Z
  pub deflate : Z → Bytes → Z × List Bytes
  pub sync : Z → Z × List Bytes
  pub finish : Z → Z × List Bytes

-- `zlib.Writer`
pub record Compressor (Z : Type 0) : Type 0 where
  pub state : Z
  pub failure : Option WriteError

-- `MCCPWriter`, with the part of the connection that it uses.
pub record Mccp (Z : Type 0) : Type 0 where
  pub conn : Out
  pub writer : Option (Compressor Z)
  pub level : ℤ

abbrev pub default_compression : ℤ
default_compression = negsuc 0

-- `NoCompression` is 0 and `BestCompression` is 9.
pub checked_level : ℤ → ℤ
checked_level (pos n) = if ltb 9 n then default_compression else pos n
checked_level (negsuc n) = default_compression

-- The writes of a `zlib.Writer`, which stop at the first error.
unfoldable pub write_chunks : Growth → Socket → Out → List Bytes → Option WriteError × Out
write_chunks grow net o [] = (none, o)
write_chunks grow net o (c ∷ cs) =
    let (n, e, o') = write grow net o c in
    elim e [ some err ↦ (some err, o') | none ↦ write_chunks grow net o' cs ]

module _ {Z : Type 0} (lib : Zlib Z) where
  pub enable_mccp2 : Growth → Socket → Out → ℤ → Option WriteError × Mccp Z
  enable_mccp2 grow net o level =
      let (e, o') = send_command grow net o Cmd.will Opt.mccp2 in
      let (e', o'') = flush net o' in
      let made : Out → Mccp Z =
        λ c. record { conn = c; writer = none; level = checked_level level } in
      elim e [ some err ↦ (some err, made o') | none ↦ (e', made o'') ]

  -- `NewWriterLevel` has no error for a checked level.
  pub start_compression : Growth → Socket → Mccp Z → Option WriteError × Mccp Z
  start_compression grow net mw =
      let (e, o) = send_subnegotiation grow net mw.conn Opt.mccp2 [] in
      let (e', o') = flush net o in
      let fresh : Compressor Z = record { state = lib.new_writer mw.level; failure = none } in
      elim e [
        | some err ↦ (some err, record mw { conn = o })
        | none ↦ elim e' [
          | some err ↦ (some err, record mw { conn = o' })
          | none ↦ (none, record mw { conn = o'; writer = some fresh })
        ]
      ]

  -- A call of the `zlib.Writer` that has gone to this state with these chunks.
  unfoldable pub emit :
      Growth → Socket → Mccp Z → Compressor Z → Z × List Bytes → Option WriteError × Mccp Z
  emit grow net mw w (z, chunks) =
      let (e, o) = write_chunks grow net mw.conn chunks in
      elim w.failure [
        | some err ↦ (some err, mw)
        | none ↦ (e, record mw { conn = o; writer = some (record { state = z; failure = e }) })
      ]

  unfoldable pub mccp_write : Growth → Socket → Mccp Z → Bytes → Option WriteError × Mccp Z
  mccp_write grow net mw p = elim mw.writer [
    | none ↦ let (n, e, o) = write grow net mw.conn p in (e, record mw { conn = o })
    | some w ↦ emit grow net mw w (lib.deflate w.state p)
  ]

  abbrev flush_conn : Socket → Mccp Z → Option WriteError × Mccp Z
  flush_conn net mw = let (e, o) = flush net mw.conn in (e, record mw { conn = o })

  pub mccp_flush : Growth → Socket → Mccp Z → Option WriteError × Mccp Z
  mccp_flush grow net mw = elim mw.writer [
    | none ↦ flush_conn net mw
    | some w ↦
        let (e, mw') = emit grow net mw w (lib.sync w.state) in
        elim e [ some err ↦ (some err, mw') | none ↦ flush_conn net mw' ]
  ]

  pub mccp_close : Growth → Socket → Mccp Z → Option WriteError × Mccp Z
  mccp_close grow net mw = elim mw.writer [
    | none ↦ (none, mw)
    | some w ↦
        let (e, mw') = emit grow net mw w (lib.finish w.state) in
        elim e [ some err ↦ (some err, mw') | none ↦ (none, record mw' { writer = none }) ]
  ]
