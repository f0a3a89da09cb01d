-- ===== src/Slices/Append.antt =====
-- `append`: the bytes it shows, its array and its capacity.
use native.Mathlib.Decide.{dec_le}
use telnetty.Base.{
  ℕ, zero, suc, ◌+◌, ◌-◌, ◌≤◌, ◌<◌, ◌≡◌, refl, ap, inl, inr, true, false, ◌++◌, append_assoc, arith,
  leb, Bool-cases, Bytes, length, take, drop, replicate, length-append, length-take, length-drop,
  take-append_exact,
}
use telnetty.Slices.{Slice, cap, shown, Growth, Fits, append}

pub length-replicate {ℓ} : {A : Type ℓ} (n : ℕ) (a : A) → length (replicate n a) ≡ n
length-replicate zero a = refl
length-replicate (suc n) a = ap suc (length-replicate n a)

abbrev pub IsSlice : Slice → Type 0
IsSlice s = s.len ≤ cap s

pub length-shown : (s : Slice) → IsSlice s → length (shown s) ≡ s.len
length-shown s h = omega (arith, length-take s.len s.mem)

shown_prefix :
    (s : Slice) (p rest : Bytes)
    → IsSlice s
    → take (s.len + length p) (shown s ++ (p ++ rest)) ≡ shown s ++ p
shown_prefix s p rest h = rw (← append_assoc (shown s) p rest) (
    take-append_exact (s.len + length p) (shown s ++ p) rest
      (omega (arith, length-append (shown s) p, length-shown s h)))

length_parts :
    (s : Slice) (p rest : Bytes)
    → IsSlice s
    → length (shown s ++ (p ++ rest)) ≡ s.len + length p + length rest
length_parts s p rest h =
    omega (arith, length-append (shown s) (p ++ rest), length-append p rest, length-shown s h)

module _ (grow : Growth) (s : Slice) (p : Bytes) where
  pub len-append : (append grow s p).len ≡ s.len + length p
  unfolding append
  len-append = ground arith

  module _ (h : IsSlice s) where
    pub shown-append : shown (append grow s p) ≡ shown s ++ p
    unfolding append
    shown-append = elim (Bool-cases (leb (s.len + length p) (cap s))) [
      | inl fits ↦ rw fits (shown_prefix s p _ h)
      | inr over ↦ rw over (shown_prefix s p _ h)
    ]

    -- In place the capacity stays.
    pub cap-append : s.len + length p ≤ cap s → cap (append grow s p) ≡ cap s
    unfolding append
    cap-append fits =
        let needed = s.len + length p in
        let e : leb needed (cap s) ≡ true = ground arith in
        rw e (omega (arith, length_parts s p (drop needed s.mem) h, length-drop needed s.mem))

    pub cap-append_grown :
        Fits grow
        → cap s < s.len + length p
        → cap (append grow s p) ≡ grow (cap s) (s.len + length p)
    unfolding append
    cap-append_grown g over =
        let needed = s.len + length p in
        let more = grow (cap s) needed - needed in
        let e : leb needed (cap s) ≡ false = ground arith in
        rw e (
          omega (
            arith,
            length_parts s p (replicate more 0) h,
            length-replicate more (zero),
            g (cap s) needed,
          ))

    pub append-IsSlice : Fits grow → IsSlice (append grow s p)
    append-IsSlice g = elim (dec_le (s.len + length p) (cap s)) [
      | yes fits ↦ omega (arith, len-append, cap-append fits)
      | no over ↦
          omega (arith, len-append, cap-append_grown g (omega arith), g (cap s) (s.len + length p))
    ]
