-- ===== src/Slices.antt =====
-- Go's slices that start at the beginning of their own array, and `append` on them.
pub mod Append
use telnetty.Base.{
  ℕ, ◌+◌, ◌-◌, ◌≤◌, Bool, [], ◌++◌, leb, ◌==◌, if◌then◌else◌, Bytes, length, take, drop, replicate,
}

-- The array, of the slice's capacity, and the length. A well-formed one has `len ≤ cap`.
pub record Slice : Type 0 where
  pub mem : Bytes
  pub len : ℕ

abbrev pub cap : Slice → ℕ
cap s = length s.mem

-- No buffer of the program has capacity 0, so such a slice is `nil`.
abbrev pub nil : Slice
nil = record { mem = []; len = 0 }

abbrev pub is_nil : Slice → Bool
is_nil s = cap s == 0

-- The bytes that the slice shows.
abbrev pub shown : Slice → Bytes
shown s = take s.len s.mem

-- `s[:0]`
abbrev pub emptied : Slice → Slice
emptied s = record s { len = 0 }

-- The capacity that the Go runtime chooses for `append`, from the old one and the length needed.
-- Its documentation promises only that the result fits.
abbrev pub Growth : Type 0
Growth = ℕ → ℕ → ℕ

abbrev pub Fits : Growth → Type 0
Fits grow = (old needed : ℕ) → needed ≤ grow old needed

-- `append(s, p...)`: in place while the capacity lasts, else into a new array.
unfoldable pub append : Growth → Slice → Bytes → Slice
append grow s p =
    let needed = s.len + length p in
    if leb needed (cap s)
    then record { mem = shown s ++ (p ++ drop needed s.mem); len = needed }
    else record { mem = shown s ++ (p ++ replicate (grow (cap s) needed - needed) 0); len = needed }
