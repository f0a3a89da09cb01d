-- ===== src/Ring/Refine.antt =====
-- The methods of a valid ring, beside those of the bounded queue of the bytes that it holds.
use telnetty.Base.{
  ℕ, ◌+◌, ◌-◌, bit_and, ◌≡◌, refl, ap, inl, inr, true, false, [], ◌∷◌, append-nil, arith, ltb, leb,
  ◌==◌, if◌then◌else◌, Bool-cases, Bytes, length, get_or, set, take, length-take, take_all,
}
use telnetty.Base.Words.{u32}
use telnetty.Ring.Queue
use telnetty.Ring.Invariant.{
  IsValid, contents, length-contents, store-IsValid, contents-store, advance-IsValid,
  contents-advance, read_cells-contents,
}
use telnetty.Ring.{write_cells, Ring, len, write, read, write_byte, read_byte, read_cells, store}

module _ {k : ℕ} {r : Ring} (v : IsValid k r) where
  write_queue :
      (p : Bytes)
      → let (n, e, r') = write r p in (n, e, contents r') ≡ Queue.write r.mask (contents r) p
  unfolding write Queue.write
  write_queue p = ground (
    arith,
    length-contents r,
    v.within,
    length-take (r.mask - len r) p,
    take_all (r.mask - len r) p,
    append-nil (contents r),
    contents-store v p,
    contents-store v (take (r.mask - len r) p),
  )

  write-IsValid : (p : Bytes) → IsValid k (write r p).2
  unfolding write
  write-IsValid p = elim (Bool-cases (leb (r.mask - len r) 0)) [
    | inl full ↦ rw full v
    | inr more ↦ elim (Bool-cases (ltb (r.mask - len r) (length p))) [
      | inl cut ↦
          rw (more, cut)
            (store-IsValid v (take (r.mask - len r) p)
              (omega (arith, v.within, length-take (r.mask - len r) p)))
      | inr whole ↦ rw (more, whole) (store-IsValid v p (ground (arith, v.within)))
    ]
  ]

  -- `Write` on a valid ring is `write` of the queue of the ring's bytes: it takes the bytes that fit,
  -- in order, returns their number and an error if some are left; and the ring stays valid.
  pub write_refines :
      (p : Bytes)
      → let (n, e, r') = write r p in
        ((n, e, contents r') ≡ Queue.write r.mask (contents r) p) × IsValid k r'
  write_refines p = (write_queue p, write-IsValid p)

  read_queue :
      (p : Bytes)
      → let (n, e, p', r') = read r p in (n, e, p', contents r') ≡ Queue.read (contents r) p
  unfolding read Queue.read
  read_queue p = ground (
    arith,
    length-contents r,
    contents-advance v (len r),
    contents-advance v (length p),
    read_cells-contents v (len r),
    read_cells-contents v (length p),
  )

  read-IsValid : (p : Bytes) → IsValid k (read r p).3
  unfolding read
  read-IsValid p = elim (Bool-cases (len r == 0)) [
    | inl none_left ↦ rw none_left v
    | inr more ↦ elim (Bool-cases (ltb (len r) (length p))) [
      | inl all ↦ rw (more, all) (advance-IsValid v (len r) (omega arith))
      | inr part ↦ rw (more, part) (advance-IsValid v (length p) (ground arith))
    ]
  ]

  -- `Read` on a valid ring is `read` of that queue: it copies the oldest bytes into the caller's
  -- slice, takes them out and leaves the rest of the slice alone; and the ring stays valid.
  pub read_refines :
      (p : Bytes)
      → let (n, e, p', r') = read r p in
        ((n, e, p', contents r') ≡ Queue.read (contents r) p) × IsValid k r'
  read_refines p = (read_queue p, read-IsValid p)

  -- On a valid ring `Write` is `write` of the queue of the ring's bytes, which takes the bytes that
  -- fit, in order, and returns their number and an error if some are left; `Read` is `read` of that
  -- queue, which copies the oldest bytes into the caller's slice, takes them out and leaves the rest
  -- of the slice alone. The ring stays valid.
  pub refines_queue :
      (p q : Bytes)
      → let (n, e, written) = write r p in
        let (m, e', q', rest) = read r q in
        ((n, e, contents written) ≡ Queue.write r.mask (contents r) p)
        × IsValid k written
        × ((m, e', q', contents rest) ≡ Queue.read (contents r) q)
        × IsValid k rest
  refines_queue p q = (write_queue p, write-IsValid p, read_queue q, read-IsValid q)

  store_one :
      (c : ℕ)
      → store r (c ∷ []) ≡ record r {
        buf = record { mem = set r.buf.mem (bit_and r.wtail r.mask) c; len = r.buf.len };
        wtail = u32 (r.wtail + 1);
      }
  unfolding store write_cells
  store_one c =
      let e : u32 (r.wtail + 0) ≡ r.wtail = omega (arith, v.tail_lt) in
      ap
        (λ t. record r {
          buf = record { mem = set r.buf.mem (bit_and t r.mask) c; len = r.buf.len };
          wtail = u32 (r.wtail + 1);
        })
        e

  -- On a valid ring `WriteByte` is `Write` of one byte.
  pub write_byte-write : (c : ℕ) → let (n, e, r') = write r (c ∷ []) in write_byte r c ≡ (e, r')
  unfolding write write_byte
  write_byte-write c = elim (Bool-cases (leb r.mask (len r))) [
    | inl full ↦ let f : leb (r.mask - len r) 0 ≡ true = ground arith in rw (full, f)
    | inr room ↦
        let f : leb (r.mask - len r) 0 ≡ false = ground arith in
        let g : ltb (r.mask - len r) 1 ≡ false = ground arith in rw (room, f, g, store_one)
  ]

  read_one :
      read_cells r.buf.mem r.mask r.rhead 0 1 ≡ get_or r.buf.mem (bit_and r.rhead r.mask) 0 ∷ []
  unfolding read_cells
  read_one =
      let e : u32 (r.rhead + 0) ≡ r.rhead = omega (arith, v.head_lt) in
      ap (λ t. get_or r.buf.mem (bit_and t r.mask) 0 ∷ []) e

  -- On a valid ring `ReadByte` is `Read` into a slice of one byte.
  pub read_byte-read :
      (d : ℕ)
      → let (n, e, p, r') = read r (d ∷ []) in
        let (b, e', r'') = read_byte r in
        (p ≡ (if n == 0 then d ∷ [] else b ∷ [])) × (e' ≡ e) × (r'' ≡ r')
  unfolding read read_byte
  read_byte-read d = elim (Bool-cases (r.wtail == r.rhead)) [
    | inl same ↦ let f : (len r == 0) ≡ true = ground arith in rw (same, f) (refl, refl, refl)
    | inr more ↦
        let f : (len r == 0) ≡ false = ground (arith, v.head_lt, v.tail_lt) in
        let g : ltb (len r) 1 ≡ false = ground arith in
        rw (more, f, g) (rw append-nil read_one, refl, refl)
  ]

  -- On a valid ring `WriteByte` is `Write` of one byte, and `ReadByte` is `Read` into a slice of one
  -- byte: the same error, the same byte and the same ring.
  pub one_byte :
      (c d : ℕ)
      → let (n, e, r₁) = write r (c ∷ []) in
        let (m, e', p, r₂) = read r (d ∷ []) in
        let (b, e'', r₃) = read_byte r in
        (write_byte r c ≡ (e, r₁))
        × (p ≡ (if m == 0 then d ∷ [] else b ∷ []))
        × (e'' ≡ e')
        × (r₃ ≡ r₂)
  one_byte c d =
      let (byte_is, error_is, ring_is) = read_byte-read d in
      (write_byte-write c, byte_is, error_is, ring_is)
