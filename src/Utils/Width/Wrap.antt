-- ===== src/Utils/Width/Wrap.antt =====
-- utils.go: `WordWrap`.
use telnetty.Base.{
  ℕ, ◌+◌, ◌≤◌, ◌<◌, ◌≡◌, refl, sym, ap, ap₂, ◌∙◌, ◌⊎◌, inl, inr, Bool, true, false, List, [], ◌∷◌,
  ◌++◌, map, append-nil, append_assoc, arith, ltb, ◌==◌, if◌then◌else◌, Bool-cases, Bytes, length,
}
use mathlib.Core.Path.{subst}
use telnetty.Base.Text.{space, fields, joined, joined_behind, joined_behind-append}
use telnetty.Utils.Width.{
  string_width, Wrapping, break_line, put_space, put_word, wrap_words, word_wrap,
}
use telnetty.Utils.Width.Sums.{string_width-append, string_width-one}

abbrev pub concat : List (List Bytes) → List Bytes
concat [] = []
concat (g ∷ gs) = g ++ concat gs

module _ (marks : ℕ → Bool) where
  -- The columns of the words with a space between them.
  abbrev pub line_columns : List Bytes → ℕ
  line_columns g = string_width marks (joined space g)

  pub overflows : ℕ → List Bytes → Bytes → Bool
  overflows n g w = ltb n (line_columns g + 1 + string_width marks w)

  -- The groups of words that lines are made of, with the words of the line so far.
  pub groups : ℕ → List Bytes → List Bytes → List (List Bytes)
  groups n [] [] = []
  groups n (v ∷ g) [] = (v ∷ g) ∷ []
  groups n [] (w ∷ ws) = groups n (w ∷ []) ws
  groups n (v ∷ g) (w ∷ ws) = elim (overflows n (v ∷ g) w) [
    | true ↦ (v ∷ g) ∷ groups n (w ∷ []) ws
    | false ↦ groups n (v ∷ g ++ w ∷ []) ws
  ]

  module _ (n : ℕ) (v : Bytes) (g : List Bytes) (w : Bytes) (ws : List Bytes) where
    groups-over :
        overflows n (v ∷ g) w ≡ true → groups n (v ∷ g) (w ∷ ws) ≡ (v ∷ g) ∷ groups n (w ∷ []) ws
    unfolding groups
    groups-over over = rw (groups, over) refl

    groups-there :
        overflows n (v ∷ g) w ≡ false → groups n (v ∷ g) (w ∷ ws) ≡ groups n (v ∷ g ++ w ∷ []) ws
    unfolding groups
    groups-there there = rw (groups, there) refl

  groups-concat : (n : ℕ) (g ws : List Bytes) → concat (groups n g ws) ≡ g ++ ws
  unfolding groups
  groups-concat n [] [] = refl
  groups-concat n (v ∷ g) [] = refl
  groups-concat n [] (w ∷ ws) = groups-concat n (w ∷ []) ws
  groups-concat n (v ∷ g) (w ∷ ws) = elim (Bool-cases (overflows n (v ∷ g) w)) [
    | inl over ↦
        ap concat (groups-over n v g w ws over) ∙ ap (λ t. v ∷ g ++ t) (groups-concat n (w ∷ []) ws)
    | inr there ↦
        ap concat (groups-there n v g w ws there)
        ∙ groups-concat n (v ∷ g ++ w ∷ []) ws
        ∙ ap (λ t. v ∷ t) (append_assoc g (w ∷ []) ws)
  ]

  -- A line that is not too wide, or one word.
  abbrev pub Fits : ℕ → List Bytes → Type 0
  Fits n g = (line_columns g ≤ n) ⊎ (length g ≡ 1)

  abbrev FitsIfAny : ℕ → List Bytes → Type 0
  FitsIfAny n [] = Unit
  FitsIfAny n (v ∷ g) = Fits n (v ∷ g)

  abbrev pub AllFit : ℕ → List (List Bytes) → Type 0
  AllFit n [] = Unit
  AllFit n (g ∷ gs) = Fits n g × AllFit n gs

  abbrev pub AllWide : List Bytes → Type 0
  AllWide [] = Unit
  AllWide (w ∷ ws) = (0 < string_width marks w) × AllWide ws

  AllWide-append :
      (g : List Bytes) (w : Bytes) → AllWide g → 0 < string_width marks w → AllWide (g ++ w ∷ [])
  AllWide-append [] w hg h = (h, tt)
  AllWide-append (v ∷ g) w (hv, hg) h = (hv, AllWide-append g w hg h)

  module _ (letter : marks space ≡ false) where
    line_columns-append :
        (v : Bytes) (g : List Bytes) (w : Bytes)
        → line_columns (v ∷ g ++ w ∷ []) ≡ line_columns (v ∷ g) + 1 + string_width marks w
    line_columns-append v g w =
        ap (string_width marks) (joined_behind-append space v g w)
        ∙ string_width-append marks (joined space (v ∷ g)) (space ∷ w)
        ∙ omega (arith, string_width-one marks space w (omega arith) letter)

    groups-AllFit : (n : ℕ) (g ws : List Bytes) → FitsIfAny n g → AllFit n (groups n g ws)
    unfolding groups overflows
    groups-AllFit n [] [] h = tt
    groups-AllFit n (v ∷ g) [] h = (h, tt)
    groups-AllFit n [] (w ∷ ws) h = groups-AllFit n (w ∷ []) ws (inr refl)
    groups-AllFit n (v ∷ g) (w ∷ ws) h = elim (Bool-cases (overflows n (v ∷ g) w)) [
      | inl over ↦
          subst (AllFit n) (sym (groups-over n v g w ws over))
            (h, groups-AllFit n (w ∷ []) ws (inr refl))
      | inr there ↦
          let fits : line_columns (v ∷ g ++ w ∷ []) ≤ n =
            ground (arith, line_columns-append v g w) in
          subst (AllFit n) (sym (groups-there n v g w ws there))
            (groups-AllFit n (v ∷ g ++ w ∷ []) ws (inl fits))
    ]

    line_columns-pos :
        (v : Bytes) (g : List Bytes) → 0 < string_width marks v → 0 < line_columns (v ∷ g)
    line_columns-pos v [] h = h
    line_columns-pos v (w ∷ g) h =
        omega (arith, string_width-append marks v (space ∷ joined_behind space w g))

    -- The state with these words in the line.
    abbrev holding : List Bytes → List Bytes → Wrapping
    holding lines g = record { lines = lines; line = joined space g; line_width = line_columns g }

    abbrev with_word : ℕ → Wrapping → Bytes → Wrapping
    with_word n st w =
        put_word marks (put_space marks (break_line marks n st (string_width marks w))) w

    first_word :
        (n : ℕ) (lines : List Bytes) (w : Bytes)
        → with_word n (holding lines []) w ≡ holding lines (w ∷ [])
    unfolding string_width
    first_word n lines w =
        ap (λ k. record { lines = lines; line = w; line_width = k }) (omega arith)

    full_line :
        (n : ℕ) (lines : List Bytes) (v : Bytes) (g : List Bytes) (w : Bytes)
        → 0 < line_columns (v ∷ g)
        → overflows n (v ∷ g) w ≡ true
        → with_word n (holding lines (v ∷ g)) w
          ≡ holding (lines ++ joined space (v ∷ g) ∷ []) (w ∷ [])
    unfolding overflows
    full_line n lines v g w h over =
        let some_words : ltb 0 (line_columns (v ∷ g)) ≡ true = ground arith in
        rw (some_words, over)
          (ap (λ k. record { lines = lines ++ joined space (v ∷ g) ∷ []; line = w; line_width = k })
            (omega arith))

    room_left :
        (n : ℕ) (lines : List Bytes) (v : Bytes) (g : List Bytes) (w : Bytes)
        → 0 < line_columns (v ∷ g)
        → overflows n (v ∷ g) w ≡ false
        → with_word n (holding lines (v ∷ g)) w ≡ holding lines (v ∷ g ++ w ∷ [])
    unfolding overflows
    room_left n lines v g w h there =
        let some_words : ltb 0 (line_columns (v ∷ g)) ≡ true = ground arith in
        rw (some_words, there, some_words)
          (ap₂ (λ t k. record { lines = lines; line = t; line_width = k })
            (append_assoc (joined space (v ∷ g)) (space ∷ []) w
              ∙ sym (joined_behind-append space v g w))
            (sym (line_columns-append v g w)))

    not_empty : (s : Bytes) → 0 < string_width marks s → ltb 0 (length s) ≡ true
    unfolding string_width
    not_empty [] h = absurd (omega arith)
    not_empty (c ∷ s) h = ground arith

    wrap_words-groups :
        (n : ℕ) (ws : List Bytes) (lines g : List Bytes)
        → AllWide g
        → AllWide ws
        → wrap_words marks n (holding lines g) ws ≡ lines ++ map (joined space) (groups n g ws)
    unfolding wrap_words groups
    wrap_words-groups n [] lines [] hg h = sym (append-nil lines)
    wrap_words-groups n [] lines (v ∷ g) (hv, hg) h =
        rw (not_empty (joined space (v ∷ g)) (line_columns-pos v g hv)) refl
    wrap_words-groups n (w ∷ ws) lines [] hg (hw, h) =
        ap (λ st. wrap_words marks n st ws) (first_word n lines w)
        ∙ wrap_words-groups n ws lines (w ∷ []) (hw, tt) h
    wrap_words-groups n (w ∷ ws) lines (v ∷ g) (hv, hg) (hw, h) =
        let wide = line_columns-pos v g hv in
        elim (Bool-cases (overflows n (v ∷ g) w)) [
          | inl over ↦
              let lines' = lines ++ joined space (v ∷ g) ∷ [] in
              ap (λ st. wrap_words marks n st ws) (full_line n lines v g w wide over)
              ∙ wrap_words-groups n ws lines' (w ∷ []) (hw, tt) h
              ∙ append_assoc lines (joined space (v ∷ g) ∷ [])
                  (map (joined space) (groups n (w ∷ []) ws))
              ∙ ap (λ gs. lines ++ map (joined space) gs) (sym (groups-over n v g w ws over))
          | inr there ↦
              ap (λ st. wrap_words marks n st ws) (room_left n lines v g w wide there)
              ∙ wrap_words-groups n ws lines (v ∷ g ++ w ∷ []) (hv, AllWide-append g w hg hw) h
              ∙ ap (λ gs. lines ++ map (joined space) gs) (sym (groups-there n v g w ws there))
        ]

    -- Where a space takes a column and each word does, `WordWrap` puts the words of the text in
    -- groups, without losing one or changing their order, and a line is a group with a space between
    -- two words; a line is not wider than the width (80 for a width of 0), or it is one word.
    pub word_wrap-AllFit :
        (text : Bytes) (width : ℕ)
        → AllWide (fields text)
        → let n = if width == 0 then 80 else width in
          (gs : List (List Bytes)) × (word_wrap marks text width ≡ map (joined space) gs)
          × (concat gs ≡ fields text)
          × AllFit n gs
    unfolding word_wrap string_width
    word_wrap-AllFit text width h =
        let n = if width == 0 then 80 else width in
        (
          groups n [] (fields text),
          wrap_words-groups n (fields text) [] [] tt h,
          groups-concat n [] (fields text),
          groups-AllFit n [] (fields text) tt,
        )
