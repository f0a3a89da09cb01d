-- ===== src/Ring/Window.antt =====
-- The bytes of the ring as a window on its cells. Positions grow without bound here; a position
-- `h` lives in cell `h % size`.
use native.Mathlib.Nat.{mod-add-mod, mod-lt, mod-eq_of_lt, mod-eq-sub-mod, add-zero}
use native.Mathlib.Decide.{dec_lt}
use telnetty.Base.{
  ℕ, zero, suc, ◌+◌, ◌-◌, ◌%◌, ◌≤◌, ◌<◌, ◌≡◌, ◌≢◌, refl, sym, ap, ap₂, ◌∙◌, Bytes, [], ◌∷◌, ◌++◌,
  append-nil, append_assoc, length, get_or, set, take, drop, length-set, get_or-set_self,
  get_or-set_ne, arith,
}

module _ (mem : Bytes) (size : ℕ) where
  -- the `n` bytes from position `h` on
  abbrev pub window : ℕ → ℕ → Bytes
  window h zero = []
  window h (suc n) = get_or mem (h % size) 0 ∷ window (h + 1) n

  pub length-window : (h n : ℕ) → length (window h n) ≡ n
  length-window h zero = refl
  length-window h (suc n) = ap suc (length-window (h + 1) n)

  pub window_head : (h n : ℕ) → 0 < n → window h n ≡ get_or mem (h % size) 0 ∷ drop 1 (window h n)
  window_head h zero p = absurd (omega arith)
  window_head h (suc n) p = refl

  -- A window depends on its position only up to the size.
  pub window_cong : (h h' n : ℕ) → h % size ≡ h' % size → window h n ≡ window h' n
  window_cong h h' zero e = refl
  window_cong h h' (suc n) e = ap₂ ◌∷◌ (ap (λ c. get_or mem c 0) e) (
      window_cong (h + 1) (h' + 1) n
        (sym (mod-add-mod h size 1) ∙ ap (λ c. (c + 1) % size) e ∙ mod-add-mod h' size 1))

  pub window_split : (h m n : ℕ) → window h (m + n) ≡ window h m ++ window (h + m) n
  window_split h zero n = ap₂ window (omega arith) (omega arith)
  window_split h (suc m) n =
      let e : suc m + n ≡ suc (m + n) = omega arith in
      let f : h + suc m ≡ h + 1 + m = omega arith in
      rw (e, f) (ap (◌∷◌ (get_or mem (h % size) 0)) (window_split (h + 1) m n))

  pub take-window : (h m n : ℕ) → m ≤ n → take m (window h n) ≡ window h m
  take-window h zero n p = refl
  take-window h (suc m) zero p = absurd (omega arith)
  take-window h (suc m) (suc n) p =
      ap (◌∷◌ (get_or mem (h % size) 0)) (take-window (h + 1) m n (omega arith))

  pub drop-window : (h m n : ℕ) → m ≤ n → drop m (window h n) ≡ window (h + m) (n - m)
  drop-window h zero n p = ap₂ window (omega arith) (omega arith)
  drop-window h (suc m) zero p = absurd (omega arith)
  drop-window h (suc m) (suc n) p =
      drop-window (h + 1) m n (omega arith) ∙ ap₂ window (omega arith) (omega arith)

-- Fewer than `size` steps round the ring do not come back to the start.
position_ne : (size h d : ℕ) → 0 < d → d < size → (h + d) % size ≢ h % size
position_ne size h d pos below e =
    let r : h % size < size = mod-lt h (omega arith) in
    let shifted = mod-add-mod h size d in
    elim (dec_lt (h % size + d) size) [
      | yes p ↦ omega (arith, mod-eq_of_lt p)
      | no p ↦ omega (
        arith,
        mod-eq-sub-mod {n = h % size + d} {m = size} (omega arith),
        mod-eq_of_lt {n = h % size + d - size} {m = size} (omega arith),
      )
    ]

-- The loop of `Write` over unbounded positions.
unfoldable pub put_cells : ℕ → Bytes → ℕ → Bytes → Bytes
put_cells size mem t [] = mem
put_cells size mem t (b ∷ p) = put_cells size (set mem (t % size) b) (t + 1) p

module _ (size : ℕ) where
  pub length-put_cells : (p mem : Bytes) (t : ℕ) → length (put_cells size mem t p) ≡ length mem
  unfolding put_cells
  length-put_cells [] mem t = refl
  length-put_cells (b ∷ p) mem t =
      length-put_cells p (set mem (t % size) b) (t + 1) ∙ length-set mem (t % size) b

  pub put_cells_cong :
      (p mem : Bytes) (t t' : ℕ)
      → t % size ≡ t' % size
      → put_cells size mem t p ≡ put_cells size mem t' p
  unfolding put_cells
  put_cells_cong [] mem t t' e = refl
  put_cells_cong (b ∷ p) mem t t' e =
      let next : (t + 1) % size ≡ (t' + 1) % size =
        sym (mod-add-mod t size 1) ∙ ap (λ c. (c + 1) % size) e ∙ mod-add-mod t' size 1 in
      rw e (put_cells_cong p (set mem (t' % size) b) (t + 1) (t' + 1) next)

  -- A write past the window, and not yet round to it, leaves it alone.
  window_keep :
      (mem : Bytes) (b t h n : ℕ)
      → h + n ≤ t
      → t < h + size
      → window (set mem (t % size) b) size h n ≡ window mem size h n
  window_keep mem b t h zero p q = refl
  window_keep mem b t h (suc n) p q =
      let far : t % size ≢ h % size = λ e.
        position_ne size h (t - h) (omega arith) (omega arith)
          (ap (λ c. c % size) {x = h + (t - h)} {y = t} (omega arith) ∙ e) in
      ap₂ ◌∷◌ (get_or-set_ne mem (t % size) (h % size) b 0 far)
        (window_keep mem b t (h + 1) n (omega arith) (omega arith))

  window-set :
      (mem : Bytes) (b h n : ℕ)
      → size ≤ length mem
      → n < size
      → window (set mem ((h + n) % size) b) size h (n + 1) ≡ window mem size h n ++ b ∷ []
  window-set mem b h n fits room =
      let cell : (h + n) % size < length mem =
        let r : (h + n) % size < size = mod-lt (h + n) (omega arith) in omega arith in
      window_split (set mem ((h + n) % size) b) size h n 1
      ∙ ap₂ ◌++◌ (window_keep mem b (h + n) h n (omega arith) (omega arith))
          (ap (λ c. c ∷ []) (get_or-set_self mem ((h + n) % size) b 0 cell))

  -- Writing `p` just past a window extends it by `p`, if both fit the cells.
  pub window-put_cells :
      (p mem : Bytes) (h n : ℕ)
      → size ≤ length mem
      → n + length p ≤ size
      → window (put_cells size mem (h + n) p) size h (n + length p) ≡ window mem size h n ++ p
  unfolding put_cells
  window-put_cells [] mem h n fits room = rw (add-zero, append-nil)
  window-put_cells (b ∷ p) mem h n fits room =
      let mem' = set mem ((h + n) % size) b in
      let e : n + suc (length p) ≡ n + 1 + length p = omega arith in
      let f : h + n + 1 ≡ h + (n + 1) = omega arith in
      let more : window (put_cells size mem' (h + (n + 1)) p) size h (n + 1 + length p)
          ≡ window mem' size h (n + 1) ++ p =
        window-put_cells p mem' h (n + 1) (rw length-set fits) (omega arith) in
      rw (e, f)
        (more
          ∙ ap (λ c. c ++ p) (window-set mem b h n fits (omega arith))
          ∙ append_assoc (window mem size h n) (b ∷ []) p)
