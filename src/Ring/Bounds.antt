-- ===== src/Ring/Bounds.antt =====
-- The indices of the cells that the ring's methods use, and the size of the array.
use telnetty.Base.{ℕ, ◌<◌, bit_and, arith, length}
use telnetty.Base.Words.{u32}
use telnetty.Ring.Invariant.{IsValid, cell_lem}
use telnetty.Ring.{Ring}

-- The cell of any position: `r.buf[x&r.mask]`.
pub cell-lt : {k : ℕ} {r : Ring} (x : ℕ) → IsValid k r → bit_and (u32 x) r.mask < length r.buf.mem
cell-lt {k} {r} x v = omega (arith, cell_lem k r.mask v.small v.mask_is x, v.storage, v.mask_is)
