-- ===== src/Ring/Tests.antt =====
-- The ring's methods at a ring of four cells whose bytes wrap around.
use telnetty.Base.{
  ◌≡◌, refl, none, some, [], ◌∷◌, arith, ◌==◌, if◌then◌else◌, ◌≡◌, refl, none, some, [], ◌∷◌, arith,
  ◌==◌, if◌then◌else◌,
}
use telnetty.Pool.{Pools}
use telnetty.Ring.Queue
use telnetty.Ring.Invariant.{IsValid, contents}
use telnetty.Ring.Refine.{refines_queue, one_byte}
use telnetty.Ring.Views.{views-contents}
use telnetty.Ring.{Ring, buffer_full, write, read, write_byte, read_byte, peek, discard, bytes}

-- Head and tail are about to pass 2 ^ 32; bytes 8 and 9 are stored, in the last cell and the first.
abbrev wrapped : Ring
wrapped = record {
  buf = record { mem = 9 ∷ 1 ∷ 2 ∷ 8 ∷ []; len = 4 };
  mask = 3;
  rhead = 4294967295;
  wtail = 1;
}

wrapped-IsValid : IsValid 2 wrapped
wrapped-IsValid = record {
  small = omega arith;
  mask_is = refl;
  storage = omega arith;
  buf_len = refl;
  head_lt = omega arith;
  tail_lt = omega arith;
  within = omega arith;
}

contents-wrapped : contents wrapped ≡ 8 ∷ 9 ∷ []
contents-wrapped = refl

written_queue : Queue.write 3 (8 ∷ 9 ∷ []) (5 ∷ 6 ∷ []) ≡ (1, some buffer_full, 8 ∷ 9 ∷ 5 ∷ [])
unfolding Queue.write
written_queue = refl

read_queue_value : Queue.read (8 ∷ 9 ∷ []) (0 ∷ []) ≡ (1, none, 8 ∷ [], 9 ∷ [])
unfolding Queue.read
read_queue_value = refl

abbrev no_buffers : Pools
no_buffers = record { pool4k = []; pool16k = []; pool64k = [] }

one_byte_example :
    let (n, e, r₁) = write wrapped (5 ∷ []) in
    let (m, e', p, r₂) = read wrapped (0 ∷ []) in
    let (b, e'', r₃) = read_byte wrapped in
    (write_byte wrapped 5 ≡ (e, r₁))
    × (p ≡ (if m == 0 then 0 ∷ [] else b ∷ []))
    × (e'' ≡ e')
    × (r₃ ≡ r₂)
one_byte_example = one_byte wrapped-IsValid 5 0

views-contents_example :
    (peek wrapped 2 ≡ 8 ∷ []) × (contents (discard wrapped 2) ≡ []) × (bytes wrapped ≡ 8 ∷ 9 ∷ [])
views-contents_example = views-contents wrapped-IsValid 2

refines_queue_example :
    let (n, e, written) = write wrapped (5 ∷ 6 ∷ []) in
    let (m, e', q', rest) = read wrapped (0 ∷ []) in
    ((n, e, contents written) ≡ Queue.write 3 (8 ∷ 9 ∷ []) (5 ∷ 6 ∷ []))
    × IsValid 2 written
    × ((m, e', q', contents rest) ≡ Queue.read (8 ∷ 9 ∷ []) (0 ∷ []))
    × IsValid 2 rest
refines_queue_example = refines_queue wrapped-IsValid (5 ∷ 6 ∷ []) (0 ∷ [])
