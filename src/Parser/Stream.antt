-- ===== src/Parser/Stream.antt =====
-- A stream that arrives in several chunks, and two subnegotiations that arrive in one.
use telnetty.Base.{
  ℕ, zero, suc, ◌≤◌, ◌<◌, ◌≡◌, refl, sym, ap, ap₂, ◌∙◌, List, [], ◌∷◌, ◌++◌, map, append_assoc,
  arith, Bytes, length, take, length-append,
}
use telnetty.Cmd
use telnetty.Slices.{Growth}
use telnetty.Codec.Escape.{escaped, frame}
use telnetty.Parser.Events.{SubnegotiationEvent, ParseResult, max_data, resolve}
use telnetty.Parser.Decode.{
  subnegotiation, final-append, sub_command, Mode, text, next, events, final, texts, texts-append,
  events-append,
}
use telnetty.Parser.Data.{breaks, parse-texts}
use telnetty.Parser.Commands.{measure_of, length-map, sn_of, measured, parse-subnegotiations}
use telnetty.Parser.State.{IsValid, mode_of, parse-Follows}
use telnetty.Parser.Subnegotiation.{parse-EndsWith}
use telnetty.Parser.Frames.{iac_count, opened, final-opened, events-frame, frame-opened}
use telnetty.Parser.{Parser, parse, sn_data}

-- The chunks of a stream, parsed one after the other by the same parser: the plain bytes.
pub feed : Growth → Parser → List Bytes → Bytes
feed grow p [] = []
feed grow p (c ∷ cs) = let (p', r) = parse grow p c in resolve c r.data_events ++ feed grow p' cs

abbrev pub joined : List Bytes → Bytes
joined [] = []
joined (c ∷ cs) = c ++ joined cs

abbrev pub AllFew : List Bytes → Type 0
AllFew [] = Unit
AllFew (c ∷ cs) = (iac_count c < max_data) × AllFew cs

breaks-le : (limit : ℕ) (m : Mode) (bs : Bytes) → breaks limit m bs ≤ iac_count bs
breaks-le limit m [] = omega arith
breaks-le limit text (b ∷ bs) = ground (arith, breaks-le limit (next limit text b) bs)
breaks-le limit m (b ∷ bs) = ground (arith, breaks-le limit (next limit m b) bs)

-- However a stream is cut into chunks, even inside a sequence, the plain bytes received are those
-- of the whole stream, if the parser is valid and no chunk has 64 IAC bytes or more.
pub feed-texts :
    (grow : Growth) {limit : ℕ} (cs : List Bytes) (p : Parser)
    → IsValid limit p
    → AllFew cs
    → feed grow p cs ≡ texts (events limit (mode_of p) (joined cs))
unfolding feed
feed-texts grow [] p v few = refl
feed-texts grow {limit} (c ∷ cs) p v few =
    let (w, m) = parse-Follows grow c v in
    let p' = (parse grow p c).0 in
    ap₂ ◌++◌ (parse-texts grow c v (omega (arith, few.0, breaks-le limit (mode_of p) c)))
      (feed-texts grow cs p' w few.1 ∙ ap (λ t. texts (events limit t (joined cs))) m)
    ∙ sym (
        texts-append (events limit (mode_of p) c)
          (events limit (final limit (mode_of p) c) (joined cs)))
    ∙ ap texts (sym (events-append limit c (joined cs) (mode_of p)))

take-take : (m n : ℕ) (xs : Bytes) → m ≤ n → take m (take n xs) ≡ take m xs
take-take zero n xs h = refl
take-take (suc m) zero xs h = absurd (omega arith)
take-take (suc m) (suc n) [] h = refl
take-take (suc m) (suc n) (x ∷ xs) h = ap (◌∷◌ x) (take-take m n xs (omega arith))

-- What is left of the first of two subnegotiation events.
pub record Overwritten (o₁ o₂ : ℕ) (first second : Bytes) (r : Parser × ParseResult) : Type 0 where
  pub event₁ : SubnegotiationEvent
  pub event₂ : SubnegotiationEvent
  pub events_are : r.1.sn_events ≡ event₁ ∷ event₂ ∷ []
  pub options_are : (event₁.option ≡ o₁) × (event₂.option ≡ o₂)
  pub sizes_are : (event₁.size ≡ length first) × (event₂.size ≡ length second)
  pub data₁_is : sn_data r.0 event₁ ≡ take (length first) second
  pub data₂_is : sn_data r.0 event₂ ≡ second

two_events :
    {A : Type 0} (f : A → ℕ × ℕ) (before es : List A) (last : A) {a b : ℕ × ℕ}
    → es ≡ before ++ last ∷ []
    → map f es ≡ a ∷ b ∷ []
    → (x : A) × (es ≡ x ∷ last ∷ []) × (f x ≡ a) × (f last ≡ b)
two_events f [] es last {a} {b} e h =
    let n : length (f last ∷ []) ≡ length (a ∷ b ∷ []) = ap length (sym (ap (map f) e) ∙ h) in
    absurd (omega arith)
two_events f (x ∷ []) es last {a} {b} e h =
    let pair : f x ∷ f last ∷ [] ≡ a ∷ b ∷ [] = sym (ap (map f) e) ∙ h in (x, e, cc, cc)
two_events f (x ∷ y ∷ before) es last {a} {b} e h =
    let n : suc (suc (length (map f (before ++ last ∷ [])))) ≡ 2 =
      ap length (sym (ap (map f) e) ∙ h) in
    absurd (omega (arith, length-map f (before ++ last ∷ []), length-append before (last ∷ [])))

-- Of two subnegotiations in one chunk a valid parser outside a sequence reports both, but their
-- data share the buffer: when `Parse` returns, the first event shows the first bytes of the second
-- one's data. (Stated for payloads that fit the buffer, escaped, the first not longer than the
-- second.)
pub parse-Overwritten :
    (grow : Growth) {limit : ℕ} {p : Parser} (o₁ o₂ : ℕ) (first second : Bytes)
    → IsValid limit p
    → mode_of p ≡ text
    → length (escaped first) ≤ length (escaped second)
    → length (escaped second) ≤ limit
    → Overwritten o₁ o₂
        (escaped first)
        (escaped second)
        (parse grow p (frame o₁ first ++ frame o₂ second))
parse-Overwritten grow {limit} {p} o₁ o₂ first second v m shorter fits =
    let input = frame o₁ first ++ opened o₂ second in
    let whole : frame o₁ first ++ frame o₂ second ≡ input ++ Cmd.se ∷ [] =
      ap (λ t. frame o₁ first ++ t) (frame-opened o₂ second)
      ∙ sym (append_assoc (frame o₁ first) (opened o₂ second) (Cmd.se ∷ [])) in
    let (e₁, f₁) = events-frame limit o₁ first (omega arith) in
    let (f₂, e₂) = final-opened limit o₂ second fits in
    let f : final limit (mode_of p) input ≡ sub_command o₂ (escaped second) = rw m (
      final-append limit (frame o₁ first) (opened o₂ second) text
      ∙ ap (λ t. final limit t (opened o₂ second)) f₁
      ∙ f₂) in
    let e : events limit (mode_of p) input ≡ subnegotiation o₁ (escaped first) ∷ [] = rw m (
      events-append limit (frame o₁ first) (opened o₂ second) text
      ∙ ap₂ (λ u t. u ++ events limit t (opened o₂ second)) e₁ f₁
      ∙ ap (λ t. subnegotiation o₁ (escaped first) ∷ t) e₂) in
    let ends = parse-EndsWith grow input v f (rw e (omega arith)) in
    let r = parse grow p (input ++ Cmd.se ∷ []) in
    let all : sn_of r.1 ≡ (o₁, length (escaped first)) ∷ (o₂, length (escaped second)) ∷ [] =
      parse-subnegotiations grow (input ++ Cmd.se ∷ []) v
      ∙ ap (λ t. take 8 (measured t))
          (events-append limit input (Cmd.se ∷ []) (mode_of p)
            ∙ ap₂ (λ u t. u ++ events limit t (Cmd.se ∷ [])) e f) in
    let (x, es, fx, fl) =
      two_events measure_of ends.before r.1.sn_events ends.last ends.events_are all in
    let mem = r.0.sn_buf.buf.mem in
    let size₁ : x.size ≡ length (escaped first) = ap (λ t. t.1) fx in
    let size₂ : ends.last.size ≡ length (escaped second) = ap (λ t. t.1) fl in
    let data₂ : take (length (escaped second)) mem ≡ escaped second =
      ap (λ t. take t mem) (sym size₂) ∙ ends.data_is in
    rw whole (record {
      event₁ = x;
      event₂ = ends.last;
      events_are = es;
      options_are = (ap (λ t. t.0) fx, ap (λ t. t.0) fl);
      sizes_are = (size₁, size₂);
      data₁_is =
          ap (λ t. take t mem) size₁
          ∙ sym (take-take (length (escaped first)) (length (escaped second)) mem shorter)
          ∙ ap (take (length (escaped first))) data₂;
      data₂_is = ends.data_is;
    })
