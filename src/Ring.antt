-- ===== src/Ring.antt =====
-- The ring buffer of buffer.go: `Ring` and its methods. A method that changes the ring returns the
-- new one last. The cells are those of the backing array; a `set` out of range changes nothing and
-- a read there gives 0, where Go would panic (`Ring.Bounds` is about the indices).
pub mod Queue
pub mod Window
pub mod Invariant
pub mod Refine
pub mod Views
pub mod Size
pub mod Bounds
mod Tests
use telnetty.Base.{
  ℕ, zero, suc, ◌+◌, ◌-◌, bit_and, bit_or, ◌/◌, ◌^◌, Bytes, [], ◌∷◌, ◌++◌, Option, none, some,
  length, get_or, set, take, drop, ltb, leb, ◌==◌, if◌then◌else◌,
}
use telnetty.Base.Words.{u32, sub32}
use telnetty.Slices.{Slice, nil, is_nil}
use telnetty.Pool.{Pools, get_buf, put_buf}

-- `errBufferFull`, `errBufferEmpty`
pub data RingError : Type 0 where
  buffer_full buffer_empty : RingError

pub record Ring : Type 0 where
  pub buf : Slice
  pub mask : ℕ
  pub rhead : ℕ
  pub wtail : ℕ

-- `x |= x >> s`
smear : ℕ → ℕ → ℕ
smear s x = bit_or x (x / 2 ^ s)

-- The five shifts of `NewRing`, on `size - 1`.
round_up : ℕ → ℕ
unfolding smear
round_up size = smear 16 (smear 8 (smear 4 (smear 2 (smear 1 (size - 1))))) + 1

-- The size is not negative.
pub new_ring : ℕ → Pools → Ring × Pools
unfolding round_up
new_ring size ps =
    let rounded = round_up (if size == 0 then 4096 else size) in
    let (b, rest) = get_buf rounded ps in
    (record { buf = b; mask = u32 (rounded - 1); rhead = 0; wtail = 0 }, rest)

pub free : Ring → Pools → Ring × Pools
free r ps = if is_nil r.buf then (r, ps) else (record r { buf = nil }, put_buf r.buf ps)

abbrev pub len : Ring → ℕ
len r = sub32 r.wtail r.rhead

abbrev pub cap : Ring → ℕ
cap r = r.mask

-- The loop of `Write`: byte `i` of what is left goes to cell `(w + i) & mask`.
write_cells : Bytes → ℕ → ℕ → ℕ → Bytes → Bytes
write_cells mem mask w i [] = mem
write_cells mem mask w i (b ∷ p) =
    write_cells (set mem (bit_and (u32 (w + i)) mask) b) mask w (i + 1) p

-- The loops of `Read` and `Bytes`: `n` bytes from cell `(rh + i) & mask` on.
pub read_cells : Bytes → ℕ → ℕ → ℕ → ℕ → Bytes
read_cells mem mask rh i zero = []
read_cells mem mask rh i (suc n) =
    get_or mem (bit_and (u32 (rh + i)) mask) 0 ∷ read_cells mem mask rh (i + 1) n

abbrev with_cells : Ring → Bytes → Slice
with_cells r cells = record { mem = cells; len = r.buf.len }

-- The loop of `Write` and the store of `wtail` behind it.
pub store : Ring → Bytes → Ring
unfolding write_cells
store r q = record r {
  buf = with_cells r (write_cells r.buf.mem r.mask r.wtail 0 q);
  wtail = u32 (r.wtail + length q);
}

-- `avail <= 0` in `int` is the same test as with a subtraction that stops at 0.
pub write : Ring → Bytes → ℕ × Option RingError × Ring
write r p =
    let avail = r.mask - len r in
    let truncated = ltb avail (length p) in
    let q = if truncated then take avail p else p in
    if leb avail 0
    then (0, some buffer_full, r)
    else (length q, if truncated then some buffer_full else none, store r q)

-- The store of `rhead` once `n` bytes are taken.
pub advance : Ring → ℕ → Ring
advance r n = record r { rhead = u32 (r.rhead + n) }

-- `p` is the caller's slice; the third result is what it holds afterwards.
pub read : Ring → Bytes → ℕ × Option RingError × Bytes × Ring
read r p =
    let avail = len r in
    let n = if ltb avail (length p) then avail else length p in
    if avail == 0
    then (0, some buffer_empty, p, r)
    else (n, none, read_cells r.buf.mem r.mask r.rhead 0 n ++ drop n p, advance r n)

pub write_byte : Ring → ℕ → Option RingError × Ring
write_byte r c = if leb r.mask (len r) then (some buffer_full, r) else (
  none,
  record r {
    buf = with_cells r (set r.buf.mem (bit_and r.wtail r.mask) c);
    wtail = u32 (r.wtail + 1);
  },
)

pub read_byte : Ring → ℕ × Option RingError × Ring
read_byte r =
    if r.wtail == r.rhead
    then (0, some buffer_empty, r)
    else (get_or r.buf.mem (bit_and r.rhead r.mask) 0, none, advance r 1)

-- `buf[from:to]`
abbrev section : Bytes → ℕ → ℕ → Bytes
section mem from to = take (to - from) (drop from mem)

pub peek : Ring → ℕ → Bytes
peek r n =
    let wanted = if ltb (len r) n then len r else n in
    let start = bit_and r.rhead r.mask in
    let end = u32 (start + wanted) in
    if wanted == 0
    then []
    else if leb end r.buf.len
    then section r.buf.mem start end
    else section r.buf.mem start r.buf.len

pub discard : Ring → ℕ → Ring
discard r n = let m = if ltb (len r) n then len r else n in if n == 0 then r else advance r m

pub reset : Ring → Ring
reset r = record r { rhead = 0; wtail = 0 }

pub bytes : Ring → Bytes
bytes r = if len r == 0 then [] else read_cells r.buf.mem r.mask r.rhead 0 (len r)
