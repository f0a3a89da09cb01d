-- ===== src/Ring/Invariant.antt =====
-- The representation invariant of the ring, and what `store` does to a valid one.
use telnetty.Base.{
  ℕ, zero, suc, ◌+◌, ◌-◌, ◌%◌, ◌^◌, ◌≤◌, ◌<◌, bit_and, ◌≡◌, refl, sym, ap, ap₂, ◌∙◌, Bytes, [], ◌∷◌,
  ◌++◌, length, take, drop, get_or, set, arith,
}
use telnetty.Base.Words.{u32, u32-mod_two_pow, u32-mask, two_pow-le}
use telnetty.Ring.Window.{
  window, length-window, window_head, window_cong, take-window, drop-window, put_cells,
  put_cells_cong, length-put_cells, window-put_cells,
}
use telnetty.Ring.{Ring, advance, len, write_cells, read_cells, store}

-- The representation invariant, for a ring of `2 ^ k` cells.
pub record IsValid (k : ℕ) (r : Ring) : Type 0 where
  pub small : k ≤ 31
  pub mask_is : r.mask + 1 ≡ 2 ^ k
  pub storage : 2 ^ k ≤ length r.buf.mem
  pub buf_len : r.buf.len ≡ 2 ^ k
  pub head_lt : r.rhead < 2 ^ 32
  pub tail_lt : r.wtail < 2 ^ 32
  pub within : len r ≤ r.mask

abbrev pub contents : Ring → Bytes
contents r = window r.buf.mem (r.mask + 1) r.rhead (len r)

pub length-contents : (r : Ring) → length (contents r) ≡ len r
length-contents r = length-window r.buf.mem (r.mask + 1) r.rhead (len r)

module _ (k mask : ℕ) (small : k ≤ 31) (mask_is : mask + 1 ≡ 2 ^ k) where
  pub cell_lem : (x : ℕ) → bit_and (u32 x) mask ≡ x % (mask + 1)
  cell_lem x =
      let e : mask ≡ 2 ^ k - 1 = omega arith in
      ap (bit_and (u32 x)) e ∙ u32-mask k x (omega arith) ∙ ap (λ m. x % m) (sym mask_is)

  write_cells-put_cells :
      (p mem : Bytes) (w i : ℕ) → write_cells mem mask w i p ≡ put_cells (mask + 1) mem (w + i) p
  unfolding write_cells put_cells
  write_cells-put_cells [] mem w i = refl
  write_cells-put_cells (b ∷ p) mem w i =
      let e : w + i + 1 ≡ w + (i + 1) = omega arith in
      rw (cell_lem, e) (write_cells-put_cells p (set mem ((w + i) % (mask + 1)) b) w (i + 1))

  pub read_cells-window :
      (n : ℕ) (mem : Bytes) (h i : ℕ) → read_cells mem mask h i n ≡ window mem (mask + 1) (h + i) n
  unfolding read_cells
  read_cells-window zero mem h i = refl
  read_cells-window (suc n) mem h i =
      ap₂ ◌∷◌ (ap (λ c. get_or mem c 0) (cell_lem (h + i)))
        (read_cells-window n mem h (i + 1) ∙ ap (λ t. window mem (mask + 1) t n) (omega arith))

module _ {k : ℕ} {r : Ring} (v : IsValid k r) where
  pub two_pow-k-le : 2 ^ k ≤ 2 ^ 31
  two_pow-k-le = two_pow-le k 31 v.small

  u32-mod_size : (x : ℕ) → u32 x % (r.mask + 1) ≡ x % (r.mask + 1)
  u32-mod_size x =
      ap (λ m. u32 x % m) v.mask_is
      ∙ u32-mod_two_pow k x (omega arith)
      ∙ ap (λ m. x % m) (sym v.mask_is)

  -- The tail is `len` positions past the head.
  tail_lem : r.wtail % (r.mask + 1) ≡ (r.rhead + len r) % (r.mask + 1)
  tail_lem =
      let e : r.wtail ≡ u32 (r.rhead + len r) = omega arith in
      ap (λ t. t % (r.mask + 1)) e ∙ u32-mod_size (r.rhead + len r)

  module _ (q : Bytes) (room : len r + length q ≤ r.mask) where
    pub len-store : len (store r q) ≡ len r + length q
    unfolding store
    len-store = omega (arith, two_pow-k-le)

    store-cells : (store r q).buf.mem ≡ put_cells (r.mask + 1) r.buf.mem (r.rhead + len r) q
    unfolding store
    store-cells =
        write_cells-put_cells k r.mask v.small v.mask_is q r.buf.mem r.wtail 0
        ∙ put_cells_cong (r.mask + 1) q r.buf.mem (r.wtail + 0) (r.rhead + len r)
            (ap (λ t. t % (r.mask + 1)) {x = r.wtail + 0} {y = r.wtail} (omega arith) ∙ tail_lem)

    pub store-IsValid : IsValid k (store r q)
    unfolding store
    store-IsValid = record {
      small = v.small;
      mask_is = v.mask_is;
      storage = rw (store-cells, length-put_cells) v.storage;
      buf_len = v.buf_len;
      head_lt = v.head_lt;
      tail_lt = omega arith;
      within = omega (arith, len-store);
    }

    pub contents-store : contents (store r q) ≡ contents r ++ q
    unfolding store
    contents-store =
        let size = r.mask + 1 in
        let masked : (store r q).mask ≡ r.mask = unfold store in refl in
        let head : (store r q).rhead ≡ r.rhead = unfold store in refl in
        let fits : size ≤ length r.buf.mem = omega (arith, v.mask_is, v.storage) in
        rw (masked, head, len-store, store-cells)
          (window-put_cells size q r.buf.mem r.rhead (len r) fits (omega arith))

  -- `rhead` moved on by `n` bytes, as `Read`, `ReadByte` and `Discard` do.
  module _ (n : ℕ) (enough : n ≤ len r) where
    pub len-advance : len (advance r n) ≡ len r - n
    unfolding advance
    len-advance = omega (arith, two_pow-k-le, v.head_lt, v.tail_lt, v.within, v.mask_is)

    pub advance-IsValid : IsValid k (advance r n)
    unfolding advance
    advance-IsValid = record {
      small = v.small;
      mask_is = v.mask_is;
      storage = v.storage;
      buf_len = v.buf_len;
      head_lt = omega arith;
      tail_lt = v.tail_lt;
      within = omega (arith, len-advance, v.within);
    }

    pub contents-advance : contents (advance r n) ≡ drop n (contents r)
    unfolding advance
    contents-advance =
        rw len-advance (
          window_cong r.buf.mem (r.mask + 1) (u32 (r.rhead + n)) (r.rhead + n) (len r - n)
            (u32-mod_size (r.rhead + n)))
        ∙ sym (drop-window r.buf.mem (r.mask + 1) r.rhead n (len r) enough)

  pub read_cells-contents :
      (n : ℕ) → n ≤ len r → read_cells r.buf.mem r.mask r.rhead 0 n ≡ take n (contents r)
  read_cells-contents n enough =
      read_cells-window k r.mask v.small v.mask_is n r.buf.mem r.rhead 0
      ∙ ap (λ h. window r.buf.mem (r.mask + 1) h n) {x = r.rhead + 0} {y = r.rhead} (omega arith)
      ∙ sym (take-window r.buf.mem (r.mask + 1) r.rhead n (len r) enough)

  -- The cell of a stored position.
  pub cell-head : bit_and r.rhead r.mask ≡ r.rhead % (r.mask + 1)
  cell-head =
      ap (λ h. bit_and h r.mask) {x = r.rhead} {y = u32 r.rhead} (omega (arith, v.head_lt))
      ∙ cell_lem k r.mask v.small v.mask_is r.rhead

  pub contents_head :
      0 < len r → contents r ≡ get_or r.buf.mem (bit_and r.rhead r.mask) 0 ∷ drop 1 (contents r)
  contents_head some_bytes =
      rw cell-head (window_head r.buf.mem (r.mask + 1) r.rhead (len r) some_bytes)
