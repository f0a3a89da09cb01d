-- ===== src/Ring/Views.antt =====
-- `Peek`, `Discard`, `Bytes` and `Reset`, beside the queue.
use native.Mathlib.Nat.{mod-mod, mod-lt, mod-eq_of_lt}
use telnetty.Base.{
  ℕ, zero, suc, ◌+◌, ◌-◌, ◌%◌, ◌^◌, ◌≤◌, ◌<◌, min, ◌≡◌, refl, sym, ap, ◌∙◌, inl, inr, [], ◌∷◌,
  arith, ltb, leb, ◌==◌, if◌then◌else◌, Bool-cases, Bytes, length, get_or, take, drop, take_all,
  drop_all,
}
use telnetty.Base.Words.{u32}
use telnetty.Ring.Invariant.{
  IsValid, contents, length-contents, advance-IsValid, contents-advance, read_cells-contents,
  cell-head, two_pow-k-le,
}
use telnetty.Ring.Window.{window, window_cong, take-window}
use telnetty.Ring.{Ring, len, peek, discard, bytes, reset, section}

drop_head : (s : ℕ) (mem : Bytes) → s < length mem → drop s mem ≡ get_or mem s 0 ∷ drop (s + 1) mem
drop_head s [] h = absurd (omega arith)
drop_head zero (x ∷ mem) h = refl
drop_head (suc s) (x ∷ mem) h =
    drop_head s mem (omega arith)
    ∙ ap (λ t. get_or mem s 0 ∷ drop t (x ∷ mem)) {x = suc (s + 1)} {y = suc s + 1} (omega arith)

-- A window that does not go round is a stretch of the cells.
window_flat :
    (mem : Bytes) (size s n : ℕ)
    → s + n ≤ size
    → size ≤ length mem
    → window mem size s n ≡ take n (drop s mem)
window_flat mem size s zero p q = refl
window_flat mem size s (suc n) p q =
    let cell : s % size ≡ s = mod-eq_of_lt {n = s} {m = size} (omega arith) in
    rw (drop_head s mem (omega arith), cell)
      (ap (◌∷◌ (get_or mem s 0)) (window_flat mem size (s + 1) n (omega arith) q))

-- How far `Peek` can show the cells in one piece.
abbrev pub before_wrap : Ring → ℕ
before_wrap r = r.buf.len - r.rhead % r.buf.len

-- The two slices of `Peek`, at a start inside the cells.
piece_lem :
    (mem : Bytes) (s w size : ℕ)
    → s < size
    → size ≤ 2 ^ 31
    → w < 2 ^ 31
    → (if leb (u32 (s + w)) size then section mem s (u32 (s + w)) else section mem s size)
      ≡ take (min w (size - s)) (drop s mem)
piece_lem mem s w size inside small wanted =
    let e : u32 (s + w) ≡ s + w = omega arith in
    elim (Bool-cases (leb (s + w) size)) [
      | inl fits ↦ rw (e, fits) (ap (λ m. take m (drop s mem)) (ground arith))
      | inr over ↦ rw (e, over) (ap (λ m. take m (drop s mem)) (ground arith))
    ]

module _ {k : ℕ} {r : Ring} (v : IsValid k r) where
  section-contents :
      (m : ℕ)
      → m ≤ len r
      → r.rhead % (r.mask + 1) + m ≤ r.mask + 1
      → take m (drop (r.rhead % (r.mask + 1)) r.buf.mem) ≡ take m (contents r)
  section-contents m enough flat =
      sym (
        window_flat r.buf.mem (r.mask + 1) (r.rhead % (r.mask + 1)) m flat
          (omega (arith, v.mask_is, v.storage)))
      ∙ window_cong r.buf.mem (r.mask + 1) (r.rhead % (r.mask + 1)) r.rhead m
          (mod-mod r.rhead (r.mask + 1))
      ∙ sym (take-window r.buf.mem (r.mask + 1) r.rhead m (len r) enough)

  -- `Peek` on a valid ring shows the oldest bytes, without taking them: as many as asked for and
  -- stored, but only up to the end of the cells.
  pub peek-contents : (n : ℕ) → peek r n ≡ take (min (min n (len r)) (before_wrap r)) (contents r)
  unfolding peek
  peek-contents n =
      let start = r.rhead % (r.mask + 1) in
      let w = if ltb (len r) n then len r else n in
      let w_is : w ≡ min n (len r) = ground arith in
      let size_is : r.buf.len ≡ r.mask + 1 = omega (arith, v.buf_len, v.mask_is) in
      let inside : start < r.mask + 1 = mod-lt r.rhead (omega arith) in
      let small : r.mask + 1 ≤ 2 ^ 31 = omega (arith, v.mask_is, two_pow-k-le v) in
      let piece =
        piece_lem r.buf.mem start w (r.mask + 1) inside small (omega (arith, w_is, v.within)) in
      let flat =
        section-contents (min w (r.mask + 1 - start)) (omega (arith, w_is)) (omega arith) in
      rw (cell-head v, size_is, ← w_is)
        (elim (Bool-cases (w == 0)) [
          | inl nothing ↦
              let z : w ≡ 0 = ground arith in
              rw nothing (ap (λ m. take m (contents r)) {x = 0} (omega arith))
          | inr more ↦ rw more (piece ∙ flat)
        ])

  -- `Discard` on a valid ring drops the oldest bytes, at most those there are.
  pub contents-discard : (n : ℕ) → contents (discard r n) ≡ drop n (contents r)
  unfolding discard
  contents-discard n = ground (
    arith,
    contents-advance v n,
    contents-advance v (len r),
    length-contents r,
    drop_all n (contents r),
    drop_all (len r) (contents r),
  )

  pub discard-IsValid : (n : ℕ) → IsValid k (discard r n)
  unfolding discard
  discard-IsValid n = elim (Bool-cases (n == 0)) [
    | inl nothing ↦ rw nothing v
    | inr more ↦ elim (Bool-cases (ltb (len r) n)) [
      | inl all ↦ rw (more, all) (advance-IsValid v (len r) (omega arith))
      | inr part ↦ rw (more, part) (advance-IsValid v n (ground arith))
    ]
  ]

  -- `Bytes` copies all that is stored.
  pub bytes-contents : bytes r ≡ contents r
  unfolding bytes
  bytes-contents = ground (
    arith,
    length-contents r,
    read_cells-contents v (len r),
    take_all (len r) (contents r),
    drop_all 0 (contents r),
  )

  -- On a valid ring `Peek` shows the oldest bytes without taking them, as many as asked for and
  -- stored, but only up to the end of the cells; `Discard` drops as many as it is told, or all if
  -- there are fewer; `Bytes` copies all that is stored.
  pub views-contents :
      (n : ℕ)
      → (peek r n ≡ take (min (min n (len r)) (before_wrap r)) (contents r))
        × (contents (discard r n) ≡ drop n (contents r))
        × (bytes r ≡ contents r)
  views-contents n = (peek-contents n, contents-discard n, bytes-contents)

  -- `Reset` leaves a valid and empty ring.
  pub reset-IsValid : IsValid k (reset r) × (contents (reset r) ≡ [])
  unfolding reset
  reset-IsValid = (
    record {
      small = v.small;
      mask_is = v.mask_is;
      storage = v.storage;
      buf_len = v.buf_len;
      head_lt = omega arith;
      tail_lt = omega arith;
      within = omega arith;
    },
    refl,
  )
