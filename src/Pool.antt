-- ===== src/Pool.antt =====
-- The buffer pools of buffer.go: `bufPool4k`, `bufPool16k`, `bufPool64k`, `getBuf`, `putBuf`.
-- A `sync.Pool` is the list of the buffers put back and not yet taken; it may also lose some.
pub mod Laws
use telnetty.Base.{ℕ, Bytes, List, [], ◌∷◌, length, replicate, leb, ◌==◌, if◌then◌else◌}
use telnetty.Slices.{Slice, cap}

pub record Pools : Type 0 where
  pub pool4k : List Bytes
  pub pool16k : List Bytes
  pub pool64k : List Bytes

-- `Pool.Get`: a buffer put back before, or a new one of `n` zeros.
take_from : ℕ → List Bytes → Bytes × List Bytes
take_from n [] = (replicate n 0, [])
take_from n (b ∷ bs) = (b, bs)

-- `make([]byte, size)`, the last line of `getBuf`
make : ℕ → Slice
make size = record { mem = replicate size 0; len = size }

-- `if bp := …; cap(*bp) >= size { return (*bp)[:size] }`, else the buffer is dropped.
cut : Bytes → ℕ → Slice
unfolding make
cut b size = if leb size (length b) then record { mem = b; len = size } else make size

unfoldable pub get_buf : ℕ → Pools → Slice × Pools
unfolding take_from cut make
get_buf size ps =
    if leb size 4096
    then (let (b, rest) = take_from 4096 ps.pool4k in (cut b size, record ps { pool4k = rest }))
    else if leb size 16384
    then (let (b, rest) = take_from 16384 ps.pool16k in (cut b size, record ps { pool16k = rest }))
    else if leb size 65536
    then (let (b, rest) = take_from 65536 ps.pool64k in (cut b size, record ps { pool64k = rest }))
    else (make size, ps)

unfoldable pub put_buf : Slice → Pools → Pools
put_buf s ps =
    if cap s == 4096
    then record ps { pool4k = s.mem ∷ ps.pool4k }
    else if cap s == 16384
    then record ps { pool16k = s.mem ∷ ps.pool16k }
    else if cap s == 65536
    then record ps { pool64k = s.mem ∷ ps.pool64k }
    else ps
