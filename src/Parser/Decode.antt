-- ===== src/Parser/Decode.antt =====
-- What the TELNET stream means (RFC 854 and 855), byte by byte and with no buffers: the
-- specification of `Parser`. As in the parser, the byte behind an IAC inside a subnegotiation is
-- kept with its IAC unless it is SE, and at most `limit` bytes of a subnegotiation are kept.
use telnetty.Base.{
  ℕ, ◌≡◌, refl, sym, ap, ◌∙◌, List, [], ◌∷◌, ◌++◌, append_assoc, ltb, ◌==◌, if◌then◌else◌, Bytes,
  length,
}
use telnetty.Parser.{is_negotiation}
use telnetty.Cmd

pub data Mode : Type 0 where
  text command : Mode
  negotiate : ℕ → Mode
  sub_option : Mode
  sub sub_command : ℕ → Bytes → Mode

pub data Event : Type 0 where
  byte : ℕ → Event
  negotiation : ℕ → ℕ → Event
  subnegotiation : ℕ → Bytes → Event

-- the bytes kept, and one more if there is room
abbrev pub keep : ℕ → Bytes → ℕ → Bytes
keep limit acc b = if ltb (length acc) limit then acc ++ b ∷ [] else acc

abbrev pub next : ℕ → Mode → ℕ → Mode
next limit text b = if b == Cmd.iac then command else text
next limit command b =
    if b == Cmd.iac
    then text
    else if is_negotiation b
    then negotiate b
    else if b == Cmd.sb
    then sub_option
    else text
next limit (negotiate c) b = text
next limit sub_option b = sub b []
next limit (sub o acc) b = if b == Cmd.iac then sub_command o acc else sub o (keep limit acc b)
next limit (sub_command o acc) b =
    if b == Cmd.se then text else sub o (keep limit (keep limit acc Cmd.iac) b)

abbrev pub emit : Mode → ℕ → List Event
emit text b = if b == Cmd.iac then [] else byte b ∷ []
emit command b = if b == Cmd.iac then byte Cmd.iac ∷ [] else []
emit (negotiate c) b = negotiation c b ∷ []
emit sub_option b = []
emit (sub o acc) b = []
emit (sub_command o acc) b = if b == Cmd.se then subnegotiation o acc ∷ [] else []

-- The mode behind a stretch of the stream, and the events of it.
abbrev pub final : ℕ → Mode → Bytes → Mode
final limit m [] = m
final limit m (b ∷ bs) = final limit (next limit m b) bs

abbrev pub events : ℕ → Mode → Bytes → List Event
events limit m [] = []
events limit m (b ∷ bs) = emit m b ++ events limit (next limit m b) bs

-- The plain bytes among some events, the commands, and the subnegotiations.
abbrev pub texts : List Event → Bytes
texts [] = []
texts (byte b ∷ es) = b ∷ texts es
texts (_ ∷ es) = texts es

abbrev pub commands : List Event → List (ℕ × ℕ)
commands [] = []
commands (negotiation c o ∷ es) = (c, o) ∷ commands es
commands (_ ∷ es) = commands es

abbrev pub subnegotiations : List Event → List (ℕ × Bytes)
subnegotiations [] = []
subnegotiations (subnegotiation o bs ∷ es) = (o, bs) ∷ subnegotiations es
subnegotiations (_ ∷ es) = subnegotiations es

pub texts-append : (es fs : List Event) → texts (es ++ fs) ≡ texts es ++ texts fs
texts-append [] fs = refl
texts-append (byte b ∷ es) fs = ap (◌∷◌ b) (texts-append es fs)
texts-append (_ ∷ es) fs = texts-append es fs

pub commands-append : (es fs : List Event) → commands (es ++ fs) ≡ commands es ++ commands fs
commands-append [] fs = refl
commands-append (negotiation c o ∷ es) fs = ap (◌∷◌ (c, o)) (commands-append es fs)
commands-append (_ ∷ es) fs = commands-append es fs

pub subnegotiations-append :
    (es fs : List Event) → subnegotiations (es ++ fs) ≡ subnegotiations es ++ subnegotiations fs
subnegotiations-append [] fs = refl
subnegotiations-append (subnegotiation o bs ∷ es) fs =
    ap (◌∷◌ (o, bs)) (subnegotiations-append es fs)
subnegotiations-append (_ ∷ es) fs = subnegotiations-append es fs

-- The stream may be cut anywhere.
pub final-append :
    (limit : ℕ) (xs ys : Bytes) (m : Mode)
    → final limit m (xs ++ ys) ≡ final limit (final limit m xs) ys
final-append limit [] ys m = refl
final-append limit (x ∷ xs) ys m = final-append limit xs ys (next limit m x)

pub events-append :
    (limit : ℕ) (xs ys : Bytes) (m : Mode)
    → events limit m (xs ++ ys) ≡ events limit m xs ++ events limit (final limit m xs) ys
events-append limit [] ys m = refl
events-append limit (x ∷ xs) ys m =
    ap (λ es. emit m x ++ es) (events-append limit xs ys (next limit m x))
    ∙ sym (append_assoc (emit m x) _ _)
