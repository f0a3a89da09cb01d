-- ===== src/Static.antt =====
-- `StaticBuffer` of buffer.go and its methods. A method that changes the buffer returns the new
-- one last. `grow` is what the Go runtime would choose if `append` had to move the bytes.
pub mod Laws
mod Tests
use telnetty.Base.{
  ℕ, ◌-◌, Bool, true, false, [], ◌∷◌, ◌++◌, ltb, leb, ◌==◌, if◌then◌else◌, Bytes, length, take,
  drop,
}
use telnetty.Slices.{Slice, cap, nil, is_nil, emptied, shown, Growth, append}
use telnetty.Pool.{Pools, get_buf, put_buf}

pub record StaticBuffer : Type 0 where
  pub buf : Slice
  pub limit : ℕ

-- `limit := sb.limit; if limit == 0 { limit = cap(sb.buf) }`
abbrev pub bound : StaticBuffer → ℕ
bound sb = if sb.limit == 0 then cap sb.buf else sb.limit

pub new_static_buffer : ℕ → Pools → StaticBuffer × Pools
new_static_buffer size ps =
    let (b, rest) = get_buf size ps in (record { buf = emptied b; limit = size }, rest)

pub free : StaticBuffer → Pools → StaticBuffer × Pools
free sb ps = if is_nil sb.buf then (sb, ps) else (record sb { buf = nil }, put_buf sb.buf ps)

-- The count returned; the error is nil on both paths.
unfoldable pub write : Growth → StaticBuffer → Bytes → ℕ × StaticBuffer
write grow sb p =
    let avail = bound sb - sb.buf.len in
    let q = if ltb avail (length p) then take avail p else p in
    if leb avail 0 then (0, sb) else (length q, record sb { buf = append grow sb.buf q })

-- `false` stands for `errBufferFull`.
unfoldable pub write_byte : Growth → StaticBuffer → ℕ → Bool × StaticBuffer
write_byte grow sb c =
    if leb (bound sb) sb.buf.len
    then (false, sb)
    else (true, record sb { buf = append grow sb.buf (c ∷ []) })

pub len : StaticBuffer → ℕ
len sb = sb.buf.len

pub capacity : StaticBuffer → ℕ
capacity sb = if ltb 0 sb.limit then sb.limit else cap sb.buf

abbrev pub bytes : StaticBuffer → Bytes
bytes sb = shown sb.buf

abbrev pub reset : StaticBuffer → StaticBuffer
reset sb = record sb { buf = emptied sb.buf }

-- `copy(sb.buf, sb.buf[n:])` moves the bytes behind `n` to the front of the array.
pub advance : StaticBuffer → ℕ → StaticBuffer
advance sb n =
    let left = sb.buf.len - n in
    if leb sb.buf.len n then reset sb else record sb {
      buf = record { mem = drop n (shown sb.buf) ++ drop left sb.buf.mem; len = left };
    }
