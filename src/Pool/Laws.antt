-- ===== src/Pool/Laws.antt =====
-- Invariants of the pools, and the slices that `getBuf` gives.
use telnetty.Base.{
  ℕ, zero, ◌≤◌, ◌≡◌, refl, inl, inr, true, List, [], ◌∷◌, arith, leb, if◌then◌else◌, Bool-cases,
  Bytes, length,
}
use telnetty.Slices.Append.{length-replicate}
use telnetty.Slices.{Slice, cap}
use telnetty.Pool.{Pools, make, cut, get_buf, put_buf, take_from}

-- A slice of `size` bytes inside its array.
abbrev pub HasSize : ℕ → Slice → Type 0
HasSize size s = (s.len ≡ size) × (size ≤ cap s)

make-HasSize : (size : ℕ) → HasSize size (make size)
unfolding make
make-HasSize size = (refl, omega (arith, length-replicate size (zero)))

cut-HasSize : (b : Bytes) (size : ℕ) → HasSize size (cut b size)
unfolding cut
cut-HasSize b size = elim (Bool-cases (leb size (length b))) [
  | inl fits ↦ rw fits (refl, ground arith)
  | inr short ↦ rw short (make-HasSize size)
]

-- `getBuf` gives a slice of the length asked for, whatever was put into the pools.
pub get_buf-HasSize : (size : ℕ) (ps : Pools) → HasSize size (get_buf size ps).0
unfolding get_buf
get_buf-HasSize size ps = elim (Bool-cases (leb size 4096)) [
  | inl small ↦ rw small (cut-HasSize (take_from 4096 ps.pool4k).0 size)
  | inr over4k ↦ elim (Bool-cases (leb size 16384)) [
    | inl middle ↦ rw (over4k, middle) (cut-HasSize (take_from 16384 ps.pool16k).0 size)
    | inr over16k ↦ elim (Bool-cases (leb size 65536)) [
      | inl large ↦ rw (over4k, over16k, large) (cut-HasSize (take_from 65536 ps.pool64k).0 size)
      | inr huge ↦ rw (over4k, over16k, huge) (make-HasSize size)
    ]
  ]
]

abbrev All {ℓ κ} : {A : Type ℓ} → (A → Type κ) → List A → Type κ
All P [] = Unit
All P (x ∷ xs) = P x × All P xs

-- Each pool holds buffers of its own size only.
pub record IsPooled (ps : Pools) : Type 0 where
  pub all4k : All (λ b. length b ≡ 4096) ps.pool4k
  pub all16k : All (λ b. length b ≡ 16384) ps.pool16k
  pub all64k : All (λ b. length b ≡ 65536) ps.pool64k

-- `putBuf` keeps it so, whatever slice is handed in.
pub put_buf-IsPooled : {ps : Pools} (s : Slice) → IsPooled ps → IsPooled (put_buf s ps)
unfolding put_buf
put_buf-IsPooled s h = ground arith

take_from-All :
    (n : ℕ) (bs : List Bytes)
    → All (λ b. length b ≡ n) bs
    → (length (take_from n bs).0 ≡ n) × All (λ b. length b ≡ n) (take_from n bs).1
unfolding take_from
take_from-All n [] h = (length-replicate n 0, tt)
take_from-All n (b ∷ bs) h = h

cap-cut : (b : Bytes) (size n : ℕ) → length b ≡ n → size ≤ n → cap (cut b size) ≡ n
unfolding cut
cap-cut b size n e fits = let f : leb size (length b) ≡ true = ground arith in rw f e

-- The capacity that `getBuf` chooses for a size.
abbrev pub pool_cap : ℕ → ℕ
pool_cap size =
    if leb size 4096
    then 4096
    else if leb size 16384
    then 16384
    else if leb size 65536
    then 65536
    else size

-- While each pool holds buffers of its own size only, `getBuf` keeps it so, and what it takes has
-- the capacity of the pool that serves its size.
pub get_buf-IsPooled :
    {ps : Pools} (size : ℕ)
    → IsPooled ps
    → IsPooled (get_buf size ps).1 × (cap (get_buf size ps).0 ≡ pool_cap size)
unfolding get_buf
get_buf-IsPooled {ps} size h = elim (Bool-cases (leb size 4096)) [
  | inl small ↦
      let (e, rest) = take_from-All 4096 ps.pool4k h.all4k in
      rw small (
        record { all4k = rest; all16k = h.all16k; all64k = h.all64k },
        cap-cut (take_from 4096 ps.pool4k).0 size 4096 e (ground arith),
      )
  | inr over4k ↦ elim (Bool-cases (leb size 16384)) [
    | inl middle ↦
        let (e, rest) = take_from-All 16384 ps.pool16k h.all16k in
        rw (over4k, middle)
          (
            record { all4k = h.all4k; all16k = rest; all64k = h.all64k },
            cap-cut (take_from 16384 ps.pool16k).0 size 16384 e (ground arith),
          )
    | inr over16k ↦ elim (Bool-cases (leb size 65536)) [
      | inl large ↦
          let (e, rest) = take_from-All 65536 ps.pool64k h.all64k in
          rw (over4k, over16k, large)
            (
              record { all4k = h.all4k; all16k = h.all16k; all64k = rest },
              cap-cut (take_from 65536 ps.pool64k).0 size 65536 e (ground arith),
            )
      | inr huge ↦ rw (over4k, over16k, huge) (h, unfold make in length-replicate size 0)
    ]
  ]
]
