-- ===== src/Base/Text.antt =====
-- What mud.go and utils.go use of the packages `strings` and `unicode`, on texts as lists of code
-- points. A string that is not valid UTF-8 is outside the model.
use telnetty.Base.{
  ℕ, ◌+◌, ◌≤◌, ◌≡◌, refl, sym, ap, ◌∙◌, ◌≢◌, Bool, true, false, ◌&&◌, ◌||◌, Option, none, some,
  List, [], ◌∷◌, ◌++◌, append-nil, append_assoc, arith, ltb, leb, ◌==◌, if◌then◌else◌, Bytes,
  length,
}
use telnetty.Base.Decimal.{AreDigits}

abbrev pub space : ℕ
space = 32

abbrev pub colon : ℕ
colon = 58

-- `unicode.IsSpace`
unfoldable pub is_space : ℕ → Bool
is_space c =
    leb 9 c && leb c 13
    || c == space
    || c == 0x85
    || c == 0xa0
    || c == 0x1680
    || leb 0x2000 c && leb c 0x200a
    || c == 0x2028
    || c == 0x2029
    || c == 0x202f
    || c == 0x205f
    || c == 0x3000

-- The word in front of the words that follow, if it is not empty.
abbrev pub word_then : Bytes → List Bytes → List Bytes
word_then [] ws = ws
word_then (c ∷ w) ws = (c ∷ w) ∷ ws

-- `strings.Fields`, with the word so far.
unfoldable pub fields_from : Bytes → Bytes → List Bytes
fields_from w [] = word_then w []
fields_from w (c ∷ cs) = elim (is_space c) [
  | true ↦ word_then w (fields_from [] cs)
  | false ↦ fields_from (w ++ c ∷ []) cs
]

unfoldable pub fields : Bytes → List Bytes
fields cs = fields_from [] cs

-- `strings.Index` of one character, and the text before and behind it.
pub cut_colon : Bytes → Option (Bytes × Bytes)
cut_colon [] = none
cut_colon (c ∷ cs) =
    let rest = cut_colon cs in
    if c == colon
    then some ([], cs)
    else elim rest [ some (before, behind) ↦ some (c ∷ before, behind) | none ↦ none ]

abbrev pub NonEmpty : Bytes → Type 0
NonEmpty [] = ⊥
NonEmpty (_ ∷ _) = Unit

abbrev pub IsWord : Bytes → Type 0
IsWord [] = Unit
IsWord (c ∷ cs) = (is_space c ≡ false) × IsWord cs

abbrev pub HasNoColon : Bytes → Type 0
HasNoColon [] = Unit
HasNoColon (c ∷ cs) = ((c == colon) ≡ false) × HasNoColon cs

fields_from-letter :
    (v : Bytes) (c : ℕ) (cs : Bytes)
    → is_space c ≡ false
    → fields_from v (c ∷ cs) ≡ fields_from (v ++ c ∷ []) cs
unfolding fields_from
fields_from-letter v c cs h = rw (fields_from, h) refl

fields_from-word : (v w cs : Bytes) → IsWord w → fields_from v (w ++ cs) ≡ fields_from (v ++ w) cs
fields_from-word v [] cs h = ap (λ u. fields_from u cs) (sym (append-nil v))
fields_from-word v (c ∷ w) cs (hc, h) =
    fields_from-letter v c (w ++ cs) hc
    ∙ fields_from-word (v ++ c ∷ []) w cs h
    ∙ ap (λ u. fields_from u cs) (append_assoc v (c ∷ []) w)

fields_from-space : (v cs : Bytes) → fields_from v (space ∷ cs) ≡ word_then v (fields_from [] cs)
unfolding fields_from is_space
fields_from-space v cs = refl

-- Words with a blank before each, and words with blanks between them.
abbrev pub blanked : List Bytes → Bytes
blanked [] = []
blanked (w ∷ ws) = space ∷ w ++ blanked ws

abbrev pub spaced : List Bytes → Bytes
spaced [] = []
spaced (w ∷ ws) = w ++ blanked ws

abbrev pub AreWords : List Bytes → Type 0
AreWords [] = Unit
AreWords (w ∷ ws) = NonEmpty w × IsWord w × AreWords ws

word_then-NonEmpty : (w : Bytes) (ws : List Bytes) → NonEmpty w → word_then w ws ≡ w ∷ ws
word_then-NonEmpty [] ws h = absurd h
word_then-NonEmpty (c ∷ w) ws h = refl

fields_from-blanked :
    (v : Bytes) (ws : List Bytes) → NonEmpty v → AreWords ws → fields_from v (blanked ws) ≡ v ∷ ws
unfolding fields_from
fields_from-blanked v [] n h = word_then-NonEmpty v [] n
fields_from-blanked v (w ∷ ws) n (nw, hw, h) =
    fields_from-space v (w ++ blanked ws)
    ∙ ap (word_then v) (fields_from-word [] w (blanked ws) hw ∙ fields_from-blanked w ws nw h)
    ∙ word_then-NonEmpty v (w ∷ ws) n

pub is_space-visible : (c : ℕ) → 33 ≤ c → c ≤ 126 → is_space c ≡ false
unfolding is_space
is_space-visible c p q = ground arith

pub AreDigits-IsWord : (cs : Bytes) → AreDigits cs → IsWord cs
AreDigits-IsWord [] h = tt
AreDigits-IsWord (c ∷ cs) (p, q, h) =
    (is_space-visible c (omega arith) (omega arith), AreDigits-IsWord cs h)

pub ne-nil-NonEmpty : (cs : Bytes) → cs ≢ [] → NonEmpty cs
ne-nil-NonEmpty [] h = h refl
ne-nil-NonEmpty (c ∷ cs) h = tt

pub IsWord-append_colon : (w : Bytes) → IsWord w → IsWord (w ++ colon ∷ [])
unfolding is_space
IsWord-append_colon [] h = (refl, tt)
IsWord-append_colon (c ∷ w) (hc, h) = (hc, IsWord-append_colon w h)

-- Words with blanks between them are the fields of the text.
pub fields-spaced : (ws : List Bytes) → AreWords ws → fields (spaced ws) ≡ ws
unfolding fields fields_from
fields-spaced [] h = refl
fields-spaced (w ∷ ws) (n, hw, h) =
    fields_from-word [] w (blanked ws) hw ∙ fields_from-blanked w ws n h

pub cut_colon-none : (w : Bytes) → HasNoColon w → cut_colon w ≡ none
unfolding cut_colon
cut_colon-none [] h = refl
cut_colon-none (c ∷ w) (hc, h) = simp (hc, cut_colon-none w h) refl

pub cut_colon-append : (w cs : Bytes) → HasNoColon w → cut_colon (w ++ colon ∷ cs) ≡ some (w, cs)
unfolding cut_colon
cut_colon-append [] cs h = refl
cut_colon-append (c ∷ w) cs (hc, h) = simp (hc, cut_colon-append w cs h) refl

-- `==` on strings.
abbrev pub same_bytes : Bytes → Bytes → Bool
same_bytes [] [] = true
same_bytes (a ∷ xs) (b ∷ ys) = a == b && same_bytes xs ys
same_bytes _ _ = false

-- `len` of a string.
pub byte_length : Bytes → ℕ
byte_length [] = 0
byte_length (c ∷ s) =
    let rest = byte_length s in
    if ltb c 128
    then 1 + rest
    else if ltb c 2048
    then 2 + rest
    else if ltb c 65536
    then 3 + rest
    else 4 + rest

-- `strings.TrimSpace`
pub trim_left : Bytes → Bytes
trim_left [] = []
trim_left (c ∷ s) = let rest = trim_left s in if is_space c then rest else c ∷ s

abbrev pub behind_blanks : ℕ → Bytes → Bytes
behind_blanks c [] = if is_space c then [] else c ∷ []
behind_blanks c (d ∷ s) = c ∷ d ∷ s

pub trim_right : Bytes → Bytes
trim_right [] = []
trim_right (c ∷ s) = behind_blanks c (trim_right s)

pub trim_space : Bytes → Bytes
trim_space s = trim_right (trim_left s)

-- `strings.ToLower`; `beyond` is `unicode.ToLower` outside ASCII.
abbrev pub lower : (ℕ → ℕ) → ℕ → ℕ
lower beyond c = if ltb c 128 then (if leb 65 c && leb c 90 then c + 32 else c) else beyond c

pub to_lower : (ℕ → ℕ) → Bytes → Bytes
to_lower beyond [] = []
to_lower beyond (c ∷ s) = lower beyond c ∷ to_lower beyond s

-- A character of ASCII that is neither a blank nor an upper-case letter.
pub record IsPlain (c : ℕ) : Type 0 where
  pub ink : is_space c ≡ false
  pub narrow : ltb c 128 ≡ true
  pub small : (leb 65 c && leb c 90) ≡ false

abbrev pub ArePlain : Bytes → Type 0
ArePlain [] = Unit
ArePlain (c ∷ s) = IsPlain c × ArePlain s

trim_right_id : (s : Bytes) → ArePlain s → trim_right s ≡ s
unfolding trim_right
trim_right_id [] h = refl
trim_right_id (c ∷ []) (hc, h) = rw hc.ink refl
trim_right_id (c ∷ d ∷ s) (hc, h) = ap (behind_blanks c) (trim_right_id (d ∷ s) h)

trim_left_id : (s : Bytes) → ArePlain s → trim_left s ≡ s
unfolding trim_left
trim_left_id [] h = refl
trim_left_id (c ∷ s) (hc, h) = rw hc.ink refl

to_lower_id : (beyond : ℕ → ℕ) (s : Bytes) → ArePlain s → to_lower beyond s ≡ s
unfolding to_lower
to_lower_id beyond [] h = refl
to_lower_id beyond (c ∷ s) (hc, h) =
    rw (hc.narrow, hc.small) (ap (λ t. c ∷ t) (to_lower_id beyond s h))

pub to_lower-trim_space :
    (beyond : ℕ → ℕ) (s : Bytes) → ArePlain s → to_lower beyond (trim_space s) ≡ s
unfolding trim_space
to_lower-trim_space beyond s h =
    ap (λ t. to_lower beyond (trim_right t)) (trim_left_id s h)
    ∙ ap (to_lower beyond) (trim_right_id s h)
    ∙ to_lower_id beyond s h

pub byte_length-length : (s : Bytes) → ArePlain s → byte_length s ≡ length s
unfolding byte_length
byte_length-length [] h = refl
byte_length-length (c ∷ s) (hc, h) = rw hc.narrow (omega (arith, byte_length-length s h))

-- `strings.Join`, with a separator of one character.
abbrev pub joined_behind : ℕ → Bytes → List Bytes → Bytes
joined_behind separator part [] = part
joined_behind separator part (next ∷ parts) = part ++ separator ∷ joined_behind separator next parts

abbrev pub joined : ℕ → List Bytes → Bytes
joined separator [] = []
joined separator (part ∷ parts) = joined_behind separator part parts

pub joined_behind-append :
    (separator : ℕ) (part : Bytes) (parts : List Bytes) (last : Bytes)
    → joined_behind separator part (parts ++ last ∷ [])
      ≡ joined_behind separator part parts ++ separator ∷ last
joined_behind-append separator part [] last = refl
joined_behind-append separator part (next ∷ parts) last =
    ap (λ t. part ++ separator ∷ t) (joined_behind-append separator next parts last)
    ∙ sym (append_assoc part (separator ∷ joined_behind separator next parts) (separator ∷ last))
