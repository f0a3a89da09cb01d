-- ===== src/Static/Tests.antt =====
-- The static buffer's methods at a buffer of four bytes, limited to three.
use telnetty.Base.{
  ◌+◌, ◌≡◌, true, [], ◌∷◌, ◌++◌, arith, if◌then◌else◌, ◌+◌, ◌≡◌, true, [], ◌∷◌, ◌++◌, arith,
  if◌then◌else◌,
}
use telnetty.Slices.{Growth}
use telnetty.Static.Laws.{IsValid, Holds, methods-Holds}
use telnetty.Static.{StaticBuffer, write, write_byte, advance}

abbrev double : Growth
double old needed = old + needed

abbrev two_of_three : StaticBuffer
two_of_three = record { buf = record { mem = 1 ∷ 2 ∷ 0 ∷ 0 ∷ []; len = 2 }; limit = 3 }

two_of_three-IsValid : IsValid two_of_three
two_of_three-IsValid = record { limit_le = omega arith; within = omega arith }

methods-Holds_example :
    let (count, written) = write double two_of_three (7 ∷ 8 ∷ []) in
    let (done, pushed) = write_byte double two_of_three 7 in
    (count ≡ 1)
    × Holds two_of_three written (1 ∷ 2 ∷ 7 ∷ [])
    × (done ≡ true)
    × Holds two_of_three pushed (1 ∷ 2 ∷ [] ++ (if done then 7 ∷ [] else []))
    × Holds two_of_three (advance two_of_three 1) (2 ∷ [])
methods-Holds_example = methods-Holds double two_of_three-IsValid (7 ∷ 8 ∷ []) 7 1
