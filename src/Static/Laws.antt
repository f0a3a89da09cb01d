-- ===== src/Static/Laws.antt =====
-- The methods of a static buffer: its bytes, its bound and its array.
use telnetty.Base.{
  ℕ, ◌+◌, ◌-◌, ◌≤◌, ◌<◌, ◌≡◌, refl, sym, ap, inl, inr, true, false, [], ◌∷◌, ◌++◌, append-nil,
  arith, ltb, leb, if◌then◌else◌, Bool-cases, Bytes, length, take, drop, length-append, length-take,
  length-drop, take_all, drop_all, take-append_exact,
}
use telnetty.Pool.{Pools}
use telnetty.Pool.Laws.{get_buf-HasSize}
use telnetty.Slices.Append.{IsSlice, length-shown, len-append, shown-append, cap-append}
use telnetty.Slices.{cap, shown, Growth, append}
use telnetty.Static.{
  StaticBuffer, bound, new_static_buffer, write, write_byte, capacity, bytes, advance,
}

pub record IsValid (sb : StaticBuffer) : Type 0 where
  pub limit_le : sb.limit ≤ cap sb.buf
  pub within : sb.buf.len ≤ bound sb

pub bound-le : {sb : StaticBuffer} → IsValid sb → bound sb ≤ cap sb.buf
bound-le v = ground (arith, v.limit_le)

pub IsValid-IsSlice : {sb : StaticBuffer} → IsValid sb → IsSlice sb.buf
IsValid-IsSlice v = omega (arith, bound-le v, v.within)

-- What `Write` and `WriteByte` do once they have chosen the bytes.
abbrev extend : Growth → StaticBuffer → Bytes → StaticBuffer
extend grow sb q = record sb { buf = append grow sb.buf q }

module _ (grow : Growth) {sb : StaticBuffer} (v : IsValid sb) where
  module _ (q : Bytes) (room : sb.buf.len + length q ≤ bound sb) where
    cap-extend : cap (extend grow sb q).buf ≡ cap sb.buf
    cap-extend = cap-append grow sb.buf q (IsValid-IsSlice v) (omega (arith, bound-le v))

    extend-IsValid : IsValid (extend grow sb q)
    extend-IsValid = record {
      limit_le = omega (arith, cap-extend, v.limit_le);
      within = rw (cap-extend, len-append) room;
    }

  -- What `Write` takes: as much as there is room for.
  abbrev pub taken : Bytes → Bytes
  taken p = take (bound sb - sb.buf.len) p

  -- `Write` to a valid buffer keeps a prefix, as long as fits below the bound, behind what was
  -- there, and returns its length. The array is still the one of before, and the buffer stays
  -- valid.
  pub write_lem :
      (p : Bytes)
      → let (n, sb') = write grow sb p in
        (n ≡ length (taken p))
        × (bytes sb' ≡ bytes sb ++ taken p)
        × (cap sb'.buf ≡ cap sb.buf)
        × IsValid sb'
  unfolding write
  write_lem p =
      let avail = bound sb - sb.buf.len in
      let q_is : (if ltb avail (length p) then take avail p else p) ≡ taken p =
        ground (arith, take_all avail p) in
      let taken_le = length-take avail p in
      elim (Bool-cases (leb avail 0)) [
        | inl full ↦
            let none_fits : taken p ≡ [] = ap (λ m. take m p) {x = avail} {y = 0} (ground arith) in
            rw (full, none_fits, append-nil) (refl, refl, refl, v)
        | inr room ↦
            let fits : sb.buf.len + length (taken p) ≤ bound sb = ground (arith, v.within) in
            rw (room, q_is)
              (
                refl,
                shown-append grow sb.buf (taken p) (IsValid-IsSlice v),
                cap-extend (taken p) fits,
                extend-IsValid (taken p) fits,
              )
      ]

  -- `WriteByte` to a valid buffer puts the byte behind what was there if there is room below the
  -- bound, and else says so and changes nothing; the array is the one of before and the buffer
  -- stays valid.
  pub write_byte_lem :
      (c : ℕ)
      → let (done, sb') = write_byte grow sb c in
        (done ≡ ltb sb.buf.len (bound sb))
        × (bytes sb' ≡ bytes sb ++ (if done then c ∷ [] else []))
        × (cap sb'.buf ≡ cap sb.buf)
        × IsValid sb'
  unfolding write_byte
  write_byte_lem c = elim (Bool-cases (leb (bound sb) sb.buf.len)) [
    | inl full ↦
        let e : ltb sb.buf.len (bound sb) ≡ false = ground arith in
        rw (full, e, append-nil) (refl, refl, refl, v)
    | inr room ↦
        let e : ltb sb.buf.len (bound sb) ≡ true = ground arith in
        let fits : sb.buf.len + 1 ≤ bound sb = ground arith in
        rw (room, e)
          (
            refl,
            shown-append grow sb.buf (c ∷ []) (IsValid-IsSlice v),
            cap-extend (c ∷ []) fits,
            extend-IsValid (c ∷ []) fits,
          )
  ]

pub limit-write_byte :
    (grow : Growth) (sb : StaticBuffer) (c : ℕ) → (write_byte grow sb c).1.limit ≡ sb.limit
unfolding write_byte
limit-write_byte grow sb c = ground arith

-- `Advance` of a valid buffer drops the first `n` bytes, or all if there are fewer; the array
-- keeps its size and the buffer stays valid.
pub advance_lem :
    {sb : StaticBuffer} (n : ℕ)
    → IsValid sb
    → (bytes (advance sb n) ≡ drop n (bytes sb))
      × (cap (advance sb n).buf ≡ cap sb.buf)
      × IsValid (advance sb n)
unfolding advance
advance_lem {sb} n v =
    let left = sb.buf.len - n in
    let old = length-shown sb.buf (IsValid-IsSlice v) in
    let moved = length-drop n (shown sb.buf) in
    let slice = IsValid-IsSlice v in
    elim (Bool-cases (leb sb.buf.len n)) [
      | inl all ↦ rw all (
        sym (drop_all n (shown sb.buf) (ground arith)),
        refl,
        record { limit_le = v.limit_le; within = omega arith },
      )
      | inr part ↦
          let same : length (drop n (shown sb.buf) ++ drop left sb.buf.mem) ≡ cap sb.buf = omega (
            arith,
            length-append (drop n (shown sb.buf)) (drop left sb.buf.mem),
            length-drop left sb.buf.mem,
          ) in
          rw part (
            take-append_exact left (drop n (shown sb.buf)) (drop left sb.buf.mem) (omega arith),
            same,
            record { limit_le = rw same v.limit_le; within = rw same (omega (arith, v.within)) },
          )
    ]

-- A new buffer is empty and valid, with the size asked for as its capacity.
pub new_static_buffer-IsValid :
    (size : ℕ) (ps : Pools)
    → 0 < size
    → let sb = (new_static_buffer size ps).0 in IsValid sb × (bytes sb ≡ []) × (capacity sb ≡ size)
unfolding new_static_buffer capacity
new_static_buffer-IsValid size ps h =
    let (e, fits) = get_buf-HasSize size ps in
    (record { limit_le = fits; within = omega arith }, refl, ground arith)

-- A valid buffer over the array of `old`, with these bytes.
abbrev pub Holds : StaticBuffer → StaticBuffer → Bytes → Type 0
Holds old sb text = (bytes sb ≡ text) × (cap sb.buf ≡ cap old.buf) × IsValid sb

-- On a valid buffer, `Write` keeps a prefix, as long as fits below the bound, behind what was there
-- and returns its length; `WriteByte` keeps the byte if there is room and says whether there was;
-- `Advance` drops the first `n` bytes, or all if there are fewer. The array keeps its size and the
-- buffer stays valid.
pub methods-Holds :
    (grow : Growth) {sb : StaticBuffer} (v : IsValid sb) (p : Bytes) (c n : ℕ)
    → let (count, written) = write grow sb p in
      let (done, pushed) = write_byte grow sb c in
      (count ≡ length (taken grow v p))
      × Holds sb written (bytes sb ++ taken grow v p)
      × (done ≡ ltb sb.buf.len (bound sb))
      × Holds sb pushed (bytes sb ++ (if done then c ∷ [] else []))
      × Holds sb (advance sb n) (drop n (bytes sb))
methods-Holds grow v p c n =
    let (count_is, text, size, valid) = write_lem grow v p in
    let (done_is, text', size', valid') = write_byte_lem grow v c in
    (count_is, (text, size, valid), done_is, (text', size', valid'), advance_lem n v)
