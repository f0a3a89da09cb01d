-- ===== src/Conn/Reading/Ends.antt =====
-- conn.go: the end of a line in `ReadLine`, beside what a line end is: LF, or CR and LF.
use telnetty.Base.{
  ℕ, zero, suc, ◌<◌, ◌≡◌, refl, sym, ap, ◌∙◌, ◌≢◌, ◌⊎◌, inl, inr, Bool, true, false, none, some, [],
  ◌∷◌, ◌++◌, append-nil, arith, ◌==◌, if◌then◌else◌, ==_iff, Bytes, length, take, drop,
}
use telnetty.Conn.Reading.{newline, ends_cr, but_last, complete, cut_newline}

-- A text in front of a newline is this line, or it is this line and a CR.
abbrev pub IsLine : Bytes → Bytes → Type 0
IsLine text l = (text ≡ l ++ 13 ∷ []) ⊎ ((text ≡ l) × ((t : Bytes) → text ≢ t ++ 13 ∷ []))

abbrev pub HasNoNewline : Bytes → Type 0
HasNoNewline [] = Unit
HasNoNewline (b ∷ bs) = (b ≢ 10) × HasNoNewline bs

pub HasNoNewline-take : (n : ℕ) (s : Bytes) → HasNoNewline s → HasNoNewline (take n s)
HasNoNewline-take zero s h = tt
HasNoNewline-take (suc n) [] h = tt
HasNoNewline-take (suc n) (b ∷ s) (ne, h) = (ne, HasNoNewline-take n s h)

pub HasNoNewline-drop : (n : ℕ) (s : Bytes) → HasNoNewline s → HasNoNewline (drop n s)
HasNoNewline-drop zero s h = h
HasNoNewline-drop (suc n) [] h = tt
HasNoNewline-drop (suc n) (b ∷ s) (ne, h) = HasNoNewline-drop n s h

pub cut_newline-none : (s : Bytes) → HasNoNewline s → cut_newline s ≡ none
unfolding cut_newline
cut_newline-none [] h = refl
cut_newline-none (b ∷ s) (ne, h) =
    let other : (b == newline) ≡ false = ground arith in rw (other, cut_newline-none s h) refl

pub cut_newline-some :
    (s rest : Bytes) → HasNoNewline s → cut_newline (s ++ 10 ∷ rest) ≡ some (s, rest)
unfolding cut_newline
cut_newline-some [] rest h = refl
cut_newline-some (b ∷ s) rest (ne, h) =
    let other : (b == newline) ≡ false = ground arith in rw (other, cut_newline-some s rest h) refl

pub ends_cr-append : (s t : Bytes) → 0 < length t → ends_cr (s ++ t) ≡ ends_cr t
ends_cr-append [] t h = refl
ends_cr-append (a ∷ s) [] h = absurd (omega arith)
ends_cr-append (a ∷ []) (b ∷ t) h = refl
ends_cr-append (a ∷ c ∷ s) (b ∷ t) h = ends_cr-append (c ∷ s) (b ∷ t) h

but_last-append : (s t : Bytes) → 0 < length t → but_last (s ++ t) ≡ s ++ but_last t
but_last-append [] t h = refl
but_last-append (a ∷ s) [] h = absurd (omega arith)
but_last-append (a ∷ []) (b ∷ t) h = refl
but_last-append (a ∷ c ∷ s) (b ∷ t) h = ap (◌∷◌ a) (but_last-append (c ∷ s) (b ∷ t) h)

ends_cr-but_last : (s : Bytes) → ends_cr s ≡ true → s ≡ but_last s ++ 13 ∷ []
ends_cr-but_last [] h = absurd (ground arith)
ends_cr-but_last (b ∷ []) h = ap (λ c. c ∷ []) ((==_iff b 13).0 h)
ends_cr-but_last (b ∷ c ∷ s) h = ap (◌∷◌ b) (ends_cr-but_last (c ∷ s) h)

-- What is left of a text without its CR, if it has one.
but_last-IsLine : (s : Bytes) (cr : Bool) → cr ≡ ends_cr s → IsLine s (if cr then but_last s else s)
but_last-IsLine s true e = inl (ends_cr-but_last s (sym e))
but_last-IsLine s false e = inr (
  refl,
  λ t same.
      let ends : ends_cr s ≡ true = ap ends_cr same ∙ ends_cr-append t (13 ∷ []) (omega arith) in
      absurd (ground (arith, e, ends)),
)

-- The flag tells whether the bytes read before end with a CR, if there are any.
abbrev pub Agrees : Bytes → Bool → Type 0
Agrees sofar cr = (sofar ≡ []) ⊎ (cr ≡ ends_cr sofar)

nothing-IsLine : (sofar : Bytes) (cr : Bool) → sofar ≡ [] → IsLine sofar (complete sofar [] cr)
unfolding complete
nothing-IsLine [] true e = but_last-IsLine [] false refl
nothing-IsLine [] false e = but_last-IsLine [] false refl
nothing-IsLine (b ∷ s) cr e = absurd (omega (arith, ap length e))

pub complete-IsLine :
    (sofar before : Bytes) (cr : Bool)
    → Agrees sofar cr
    → IsLine (sofar ++ before) (complete sofar before cr)
unfolding complete
complete-IsLine sofar [] cr (inl e) = rw append-nil (nothing-IsLine sofar cr e)
complete-IsLine sofar [] cr (inr e) = rw append-nil (but_last-IsLine sofar cr e)
complete-IsLine sofar (b ∷ before) cr _ =
    let text = b ∷ before in
    let e = sym (ends_cr-append sofar text (omega arith)) in
    rw (← but_last-append sofar text (omega arith))
      (but_last-IsLine (sofar ++ text) (ends_cr text) e)
