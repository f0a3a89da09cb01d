-- ===== src/Utils/Width/Tests.antt =====
-- utils.go: the functions on widths at small texts, with the combining accents as marks.
use telnetty.Base.{ℕ, ◌-◌, ◌≤◌, ◌<◌, ◌≡◌, refl, Bool, ◌&&◌, List, [], ◌∷◌, map, arith, leb, Bytes}
use telnetty.Base.Text.{space, fields, fields_from, is_space, joined}
use telnetty.Utils.Width.{string_width, truncate, wrap_words, word_wrap}
use telnetty.Utils.Width.Pad.{CutTo, truncate-CutTo}
use telnetty.Utils.Width.Wrap.{AllFit, concat, word_wrap-AllFit}
use telnetty.Utils.Width.Box

abbrev accents : ℕ → Bool
accents c = leb 0x300 c && leb c 0x36f

-- "né", the accent a mark of its own
abbrev born : Bytes
born = 110 ∷ 101 ∷ 0x301 ∷ []

abbrev dots : Bytes
dots = 46 ∷ 46 ∷ []

-- "abcde"
abbrev five : Bytes
five = 97 ∷ 98 ∷ 99 ∷ 100 ∷ 101 ∷ []

truncate-CutTo_example :
    let out = truncate accents five 4 dots in
    (string_width accents five ≤ 4 → out ≡ five)
    × (4 < string_width accents five → CutTo accents five (4 - string_width accents dots) dots out)
truncate-CutTo_example = truncate-CutTo accents five 4 dots

-- "ab c de"
abbrev three_words : Bytes
three_words = 97 ∷ 98 ∷ 32 ∷ 99 ∷ 32 ∷ 100 ∷ 101 ∷ []

wrapped_words : word_wrap accents three_words 4 ≡ (97 ∷ 98 ∷ 32 ∷ 99 ∷ []) ∷ (100 ∷ 101 ∷ []) ∷ []
unfolding word_wrap wrap_words string_width fields fields_from is_space
wrapped_words = refl

word_wrap-AllFit_example :
    (gs : List (List Bytes)) × (word_wrap accents three_words 4 ≡ map (joined space) gs)
    × (concat gs ≡ fields three_words)
    × AllFit accents 4 gs
unfolding string_width fields fields_from is_space
word_wrap-AllFit_example =
    word_wrap-AllFit accents refl three_words 4 (omega arith, (omega arith, (omega arith, tt)))
