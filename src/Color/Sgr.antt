-- ===== src/Color/Sgr.antt =====
-- color.go: the sequences that `ANSI` writes, and `StripANSI` of utils.go behind `Sprint`.
use telnetty.Base.{
  ℕ, ◌+◌, ◌/◌, ◌%◌, ◌<◌, ◌≡◌, refl, ap, ◌∙◌, ◌≢◌, true, false, List, [], ◌∷◌, ◌++◌, append-nil,
  append_assoc, arith, ◌==◌, Bytes, by_if,
}
use telnetty.Base.Int.{ℤ, pos, negsuc}
use telnetty.Base.Text.{joined_behind}
use telnetty.Base.Decimal.{itoa, digits-AreDigits, AreDigits}
use telnetty.Utils.{esc, is_final, strip_from, strip_ansi}
use telnetty.Color.{
  Color, int_itoa, itoas, semicolon, rgb_part, unless_negative, color_parts, sgr, reset, ansi_of,
  ansi, sprint,
}

-- Bytes that do not end a sequence.
abbrev Goes : Bytes → Type 0
Goes [] = Unit
Goes (b ∷ bs) = (b < 64) × Goes bs

abbrev AllGo : List Bytes → Type 0
AllGo [] = Unit
AllGo (p ∷ ps) = Goes p × AllGo ps

Goes-append : (s t : Bytes) → Goes s → Goes t → Goes (s ++ t)
Goes-append [] t h k = k
Goes-append (b ∷ s) t (hb, h) k = (hb, Goes-append s t h k)

AllGo-append : (s t : List Bytes) → AllGo s → AllGo t → AllGo (s ++ t)
AllGo-append [] t h k = k
AllGo-append (p ∷ s) t (hp, h) k = (hp, AllGo-append s t h k)

AreDigits-Goes : (s : Bytes) → AreDigits s → Goes s
AreDigits-Goes [] h = tt
AreDigits-Goes (b ∷ s) (p, q, h) = (omega arith, AreDigits-Goes s h)

itoa-Goes : (n : ℕ) → Goes (itoa n)
itoa-Goes n = AreDigits-Goes (itoa n) (digits-AreDigits (n + 1) n)

int_itoa-Goes : (n : ℤ) → Goes (int_itoa n)
int_itoa-Goes (pos n) = itoa-Goes n
int_itoa-Goes (negsuc n) = (omega arith, itoa-Goes (n + 1))

itoas-AllGo : (ns : List ℤ) → AllGo (itoas ns)
itoas-AllGo [] = tt
itoas-AllGo (n ∷ ns) = (int_itoa-Goes n, itoas-AllGo ns)

joined_behind-Goes :
    (p : Bytes) (ps : List Bytes) → Goes p → AllGo ps → Goes (joined_behind semicolon p ps)
joined_behind-Goes p [] h k = h
joined_behind-Goes p (q ∷ ps) h (hq, k) =
    Goes-append p (semicolon ∷ joined_behind semicolon q ps) h
      (omega arith, joined_behind-Goes q ps hq k)

rgb_part-Goes : (lead r g b : ℕ) → Goes (rgb_part lead r g b)
rgb_part-Goes lead r g b =
    joined_behind-Goes (itoa lead) (itoa 2 ∷ itoa r ∷ itoa g ∷ itoa b ∷ []) (itoa-Goes lead)
      (itoa-Goes 2, (itoa-Goes r, (itoa-Goes g, (itoa-Goes b, tt))))

unless_negative-AllGo :
    (n : ℤ) (part : ℕ → Bytes) → ((m : ℕ) → Goes (part m)) → AllGo (unless_negative n part)
unless_negative-AllGo (pos n) part h = (h n, tt)
unless_negative-AllGo (negsuc n) part h = tt

color_parts-AllGo : (c : Color) → AllGo (color_parts c)
unfolding color_parts
color_parts-AllGo c =
    by_if AllGo c.true_color
      (λ _. (
        rgb_part-Goes 38 c.r c.g c.b,
        unless_negative-AllGo c.bg _ (λ n. rgb_part-Goes 48 (n / 65536) (n / 256 % 256) (n % 256)),
      ))
      (λ _.
        AllGo-append (unless_negative c.fg _) (unless_negative c.bg _)
          (unless_negative-AllGo c.fg _ (λ n. itoa-Goes (n + 30)))
          (unless_negative-AllGo c.bg _ (λ n. itoa-Goes (n + 40))))

-- A sequence in front of a text goes, whatever it sets.
strip_from-body :
    (body rest : Bytes) → Goes body → strip_from true (body ++ 109 ∷ rest) ≡ strip_from false rest
unfolding strip_from
strip_from-body [] rest h = refl
strip_from-body (b ∷ body) rest (hb, h) =
    let goes : is_final b ≡ false = ground arith in simp (goes) (strip_from-body body rest h)

strip_from-sgr :
    (body rest : Bytes) → Goes body → strip_from false (sgr body ++ rest) ≡ strip_from false rest
unfolding strip_from
strip_from-sgr body rest h =
    ap (strip_from true) (append_assoc body (109 ∷ []) rest) ∙ strip_from-body body rest h

ansi_of-strip :
    (parts : List Bytes) (rest : Bytes)
    → AllGo parts
    → strip_from false (ansi_of parts ++ rest) ≡ strip_from false rest
ansi_of-strip [] rest h = strip_from-sgr (48 ∷ []) rest (omega arith, tt)
ansi_of-strip (p ∷ ps) rest (hp, h) =
    strip_from-sgr (joined_behind semicolon p ps) rest (joined_behind-Goes p ps hp h)

abbrev pub HasNoEsc : Bytes → Type 0
HasNoEsc [] = Unit
HasNoEsc (b ∷ bs) = (b ≢ esc) × HasNoEsc bs

-- A text without ESC in front of one is copied.
strip_from-plain :
    (s : Bytes) (c : ℕ) (rest : Bytes)
    → HasNoEsc s
    → strip_from false (s ++ c ∷ rest) ≡ s ++ strip_from false (c ∷ rest)
unfolding strip_from
strip_from-plain [] c rest h = refl
strip_from-plain (b ∷ []) c rest (ne, h) =
    let plain : (b == esc) ≡ false = ground arith in rw plain refl
strip_from-plain (b ∷ d ∷ s) c rest (ne, h) =
    let plain : (b == esc) ≡ false = ground arith in
    rw plain (ap (λ t. b ∷ t) (strip_from-plain (d ∷ s) c rest h))

-- `StripANSI` takes off what `Sprint` has put around a text, whatever the color, if the text has no
-- ESC.
pub strip_ansi-sprint : (c : Color) (s : Bytes) → HasNoEsc s → strip_ansi (sprint c s) ≡ s
unfolding strip_ansi sprint ansi strip_from
strip_ansi-sprint c s h =
    ap (strip_from false) (append_assoc (ansi c) s reset)
    ∙ (ansi_of-strip (itoas c.attrs ++ color_parts c) (s ++ reset)
          (AllGo-append (itoas c.attrs) (color_parts c) (itoas-AllGo c.attrs) (color_parts-AllGo c))
        ∙ (strip_from-plain s esc (91 ∷ 48 ∷ 109 ∷ []) h ∙ append-nil s))
