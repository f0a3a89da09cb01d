-- ===== src/Utils/Width/Pad.antt =====
-- utils.go: `PadRight`, `PadLeft`, `Center` and `Truncate`.
use telnetty.Base.{
  ℕ, suc, ◌+◌, ◌-◌, ◌/◌, ◌≤◌, ◌<◌, ◌≡◌, refl, sym, ap, ◌∙◌, inl, inr, Bool, false, [], ◌∷◌, ◌++◌,
  append-nil, arith, ltb, leb, Bool-cases, Bytes, take,
}
use telnetty.Base.Text.{space}
use telnetty.Utils.Width.{
  columns, spaces, string_width, pad_right, pad_left, center, truncate, truncate_from,
}
use telnetty.Utils.Width.Sums.{string_width-append, string_width-head, string_width-replicate}

module _ (marks : ℕ → Bool) where
  padded_width :
      (s : Bytes) (left right : ℕ)
      → marks space ≡ false
      → string_width marks (spaces left ++ s ++ spaces right) ≡ left + string_width marks s + right
  padded_width s left right letter =
      string_width-append marks (spaces left ++ s) (spaces right)
      ∙ omega (
        arith,
        string_width-append marks (spaces left) s,
        string_width-replicate marks left space (omega arith) letter,
        string_width-replicate marks right space (omega arith) letter,
      )

  pad_right_lem : (s : Bytes) (n : ℕ) → pad_right marks s n ≡ s ++ spaces (n - string_width marks s)
  unfolding pad_right
  pad_right_lem s n = elim (Bool-cases (leb n (string_width marks s))) [
    | inl wide ↦
        let gap : n - string_width marks s ≡ 0 = ground arith in rw (wide, gap) (sym (append-nil s))
    | inr narrow ↦ rw narrow refl
  ]

  pad_left_lem : (s : Bytes) (n : ℕ) → pad_left marks s n ≡ spaces (n - string_width marks s) ++ s
  unfolding pad_left
  pad_left_lem s n = elim (Bool-cases (leb n (string_width marks s))) [
    | inl wide ↦ let gap : n - string_width marks s ≡ 0 = ground arith in rw (wide, gap) refl
    | inr narrow ↦ rw narrow refl
  ]

  center_lem :
      (s : Bytes) (n : ℕ)
      → let gap = n - string_width marks s in
        center marks s n ≡ spaces (gap / 2) ++ s ++ spaces (gap - gap / 2)
  unfolding center
  center_lem s n = elim (Bool-cases (leb n (string_width marks s))) [
    | inl wide ↦
        let gap : n - string_width marks s ≡ 0 = ground arith in rw (wide, gap) (sym (append-nil s))
    | inr narrow ↦ rw narrow refl
  ]

  -- Where a space takes a column, `PadRight`, `PadLeft` and `Center` put the text between spaces, as
  -- many as are missing to the width and none if there are none missing: behind it, in front of it,
  -- or half of them, rounded down, in front of it and the others behind. So the result is as wide
  -- as was asked for, or as the text if that is wider.
  pub pads-width :
      (s : Bytes) (n : ℕ)
      → marks space ≡ false
      → let w = string_width marks s in
        let gap = n - w in
        (pad_right marks s n ≡ s ++ spaces gap)
        × (pad_left marks s n ≡ spaces gap ++ s)
        × (center marks s n ≡ spaces (gap / 2) ++ s ++ spaces (gap - gap / 2))
        × (string_width marks (pad_right marks s n) ≡ w + gap)
        × (string_width marks (pad_left marks s n) ≡ w + gap)
        × (string_width marks (center marks s n) ≡ w + gap)
  pads-width s n letter =
      let w = string_width marks s in
      let gap = n - w in
      (
        pad_right_lem s n,
        pad_left_lem s n,
        center_lem s n,
        ap (string_width marks) (pad_right_lem s n) ∙ (padded_width s 0 gap letter ∙ omega arith),
        ap (string_width marks) (pad_left_lem s n ∙ sym (append-nil (spaces gap ++ s)))
            ∙ (padded_width s gap 0 letter ∙ omega arith),
        ap (string_width marks) (center_lem s n)
            ∙ (padded_width s (gap / 2) (gap - gap / 2) letter ∙ omega arith),
      )

  -- The text cut in front of the ellipsis.
  abbrev pub CutTo : Bytes → ℕ → Bytes → Bytes → Type 0
  CutTo s room ellipsis out =
      (k : ℕ) × (out ≡ take k s ++ ellipsis) × (string_width marks (take k s) ≤ room)

  truncate_from-CutTo :
      (ellipsis : Bytes) (room width : ℕ) (s : Bytes)
      → width ≤ room
      → room < width + string_width marks s
      → CutTo s (room - width) ellipsis (truncate_from ellipsis room width s)
  unfolding truncate_from string_width
  truncate_from-CutTo ellipsis room width [] h k = absurd (omega arith)
  truncate_from-CutTo ellipsis room width (r ∷ s) h wide =
      elim (Bool-cases (ltb room (width + columns r))) [
        | inl over ↦ rw over (0, refl, omega arith)
        | inr there ↦
            let fits : width + columns r ≤ room = ground arith in
            let (k, out_is, k_fits) =
              truncate_from-CutTo ellipsis room (width + columns r) s fits
                (omega (arith, string_width-head marks r s)) in
            rw there (suc k, ap (◌∷◌ r) out_is, omega (arith, string_width-head marks r (take k s)))
      ]

  -- `Truncate` keeps a text that is not too wide. Of another it keeps a prefix in front of the
  -- ellipsis that is not wider than the width less the ellipsis, so a prefix without columns if the
  -- ellipsis alone is as wide as that or wider.
  pub truncate-CutTo :
      (s : Bytes) (n : ℕ) (ellipsis : Bytes)
      → let out = truncate marks s n ellipsis in
        (string_width marks s ≤ n → out ≡ s)
        × (n < string_width marks s → CutTo s (n - string_width marks ellipsis) ellipsis out)
  unfolding truncate string_width
  truncate-CutTo s n ellipsis = elim (Bool-cases (leb (string_width marks s) n)) [
    | inl fits ↦ rw fits (λ _. refl, λ wide. absurd (ground arith))
    | inr wide ↦ elim (Bool-cases (leb n (string_width marks ellipsis))) [
      | inl full ↦ rw (wide, full) (λ narrow. absurd (ground arith), λ _. (0, refl, omega arith))
      | inr room ↦
          rw (wide, room)
            (
              λ narrow. absurd (ground arith),
              λ _.
                  let (k, out_is, k_fits) =
                    truncate_from-CutTo ellipsis (n - string_width marks ellipsis) 0 s (omega arith)
                      (ground arith) in
                  (k, out_is, omega arith),
            )
    ]
  ]
