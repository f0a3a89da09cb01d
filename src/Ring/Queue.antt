-- ===== src/Ring/Queue.antt =====
-- What a client of the ring may rely on: a queue of at most `limit` bytes, oldest first.
use telnetty.Base.{
  ℕ, ◌-◌, min, Bytes, ◌++◌, Option, none, some, length, take, drop, ltb, ◌==◌, if◌then◌else◌,
}
use telnetty.Ring.{RingError, buffer_full, buffer_empty}

-- As many bytes of `p` as there is room for, in order; an error if some are left or none fits.
unfoldable pub write : ℕ → Bytes → Bytes → ℕ × Option RingError × Bytes
write limit q p =
    let room = limit - length q in
    (
      min room (length p),
      if room == 0
          then some buffer_full
          else if ltb room (length p)
          then some buffer_full
          else none,
      q ++ take room p,
    )

-- The oldest bytes, as many as there are and `p` holds; the rest of `p` is left alone.
unfoldable pub read : Bytes → Bytes → ℕ × Option RingError × Bytes × Bytes
read q p =
    let n = min (length p) (length q) in
    if length q == 0
    then (0, some buffer_empty, p, q)
    else (n, none, take n q ++ drop n p, drop n q)
