-- ===== src/Conn/Reading/Tests.antt =====
-- Reads of a connection with eight cells in its ring.
use telnetty.Base.{Bytes, ◌≡◌, refl, false, none, some, [], ◌∷◌, arith}
use telnetty.Ring.Invariant.{IsValid, contents}
use telnetty.Conn.Samples.{
  double, good, ring_of_eight, ring_of_eight-IsValid, new_parser-IsValid, fresh,
}
use telnetty.Conn.Reading.{eof, Source, Reader, ReadError, read_locked, read_line, line}
use telnetty.Conn.Reading.Queue.{TakesFrom, read_locked-TakesFrom}
use telnetty.Conn.Reading.Ends.{IsLine}
use telnetty.Conn.Reading.Lines.{read_line-contents}

-- "Hi", IAC DO BINARY, "!" and the end of the stream.
abbrev greeting : Source
greeting i = (72 ∷ 105 ∷ 255 ∷ 253 ∷ 0 ∷ 33 ∷ [], some eof)

abbrev reader : Reader
reader = record { conn = fresh; bytes_read = 0; read_line_cr = false; reads = 0 }

read_locked-TakesFrom_example :
    TakesFrom 3
      (72 ∷ 105 ∷ 33 ∷ [])
      (0 ∷ 0 ∷ [])
      (some (ReadError.net_error eof))
      (read_locked double good greeting reader (0 ∷ 0 ∷ []))
read_locked-TakesFrom_example =
    read_locked-TakesFrom double good greeting reader (0 ∷ 0 ∷ []) ring_of_eight-IsValid
      new_parser-IsValid (λ _. omega arith) (λ _. omega arith)

-- "a", CR, LF, "b" wait in the ring.
abbrev half_full : Reader
half_full = record reader {
  conn = record fresh {
    read_buf = record ring_of_eight {
      buf = record { mem = 97 ∷ 13 ∷ 10 ∷ 98 ∷ 0 ∷ 0 ∷ 0 ∷ 0 ∷ []; len = 8 };
      wtail = 4;
    };
  };
}

half_full-IsValid : IsValid 3 half_full.conn.read_buf
half_full-IsValid = record {
  small = omega arith;
  mask_is = refl;
  storage = omega arith;
  buf_len = refl;
  head_lt = omega arith;
  tail_lt = omega arith;
  within = omega arith;
}

read_line-contents_example :
    (l : Bytes) × (x' : Reader) × (read_line double good greeting 1 half_full ≡ line l none x')
    × IsLine (97 ∷ 13 ∷ []) l
    × IsValid 3 x'.conn.read_buf
    × (contents x'.conn.read_buf ≡ 98 ∷ [])
    × (x'.read_line_cr ≡ false)
read_line-contents_example =
    read_line-contents double good greeting 1 (97 ∷ 13 ∷ []) (98 ∷ []) half_full half_full-IsValid
      (omega arith, (omega arith, tt)) refl (omega arith)
