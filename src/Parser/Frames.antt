-- ===== src/Parser/Frames.antt =====
-- What the parser makes of the sequences that `Codec` writes.
use telnetty.Base.{
  ℕ, suc, ◌+◌, ◌*◌, ◌≤◌, ◌<◌, ◌≡◌, refl, sym, ap, ap₂, ◌∙◌, [], ◌∷◌, ◌++◌, map, append-nil,
  append_assoc, arith, ◌==◌, if◌then◌else◌, Bytes, length, take, length-append, ℕ, suc, ◌+◌, ◌*◌,
  ◌≤◌, ◌<◌, ◌≡◌, refl, sym, ap, ap₂, ◌∙◌, [], ◌∷◌, ◌++◌, map, append-nil, append_assoc, arith, ◌==◌,
  if◌then◌else◌, Bytes, length, take, length-append, ℕ, suc, ◌+◌, ◌*◌, ◌≤◌, ◌<◌, ◌≡◌, refl, sym, ap,
  ap₂, ◌∙◌, [], ◌∷◌, ◌++◌, map, append-nil, append_assoc, arith, ◌==◌, if◌then◌else◌, Bytes, length,
  take, length-append,
}
use telnetty.Cmd
use telnetty.Slices.{Growth}
use telnetty.Codec.Escape.{escaped, frame}
use telnetty.Parser.Events.{max_data, resolve}
use telnetty.Parser.Decode.{
  text, sub, sub_command, byte, subnegotiation, keep, events, final, texts, commands,
  subnegotiations, events-append, final-append,
}
use telnetty.Parser.Data.{breaks, parse-texts}
use telnetty.Parser.Commands.{measured, commands_of, sn_of, parse-commands, parse-subnegotiations}
use telnetty.Parser.State.{IsValid, mode_of, parse-Follows}
use telnetty.Parser.Subnegotiation.{EndsWith, parse-EndsWith}
use telnetty.Parser.{Parser, parse}

-- Escaped bytes in the text of a stream are those bytes.
pub events-escaped :
    (limit : ℕ) (bs : Bytes)
    → (events limit text (escaped bs) ≡ map byte bs) × (final limit text (escaped bs) ≡ text)
events-escaped limit [] = (refl, refl)
events-escaped limit (b ∷ bs) = ground (arith, events-escaped limit bs)

texts-map_byte : (bs : Bytes) → texts (map byte bs) ≡ bs
texts-map_byte [] = refl
texts-map_byte (b ∷ bs) = ap (◌∷◌ b) (texts-map_byte bs)

commands-map_byte : (bs : Bytes) → commands (map byte bs) ≡ []
commands-map_byte [] = refl
commands-map_byte (b ∷ bs) = commands-map_byte bs

subnegotiations-map_byte : (bs : Bytes) → subnegotiations (map byte bs) ≡ []
subnegotiations-map_byte [] = refl
subnegotiations-map_byte (b ∷ bs) = subnegotiations-map_byte bs

-- The number of IAC bytes.
abbrev pub iac_count : Bytes → ℕ
iac_count [] = 0
iac_count (b ∷ bs) = if b == Cmd.iac then suc (iac_count bs) else iac_count bs

breaks-escaped : (limit : ℕ) (bs : Bytes) → breaks limit text (escaped bs) ≡ 2 * iac_count bs
breaks-escaped limit [] = refl
breaks-escaped limit (b ∷ bs) = ground (arith, breaks-escaped limit bs)

keep_room :
    (limit : ℕ) (acc : Bytes) (b : ℕ) → length acc < limit → keep limit acc b ≡ acc ++ b ∷ []
keep_room limit acc b h = ground arith

-- In a subnegotiation they are kept as they come, each IAC twice.
final-sub-escaped :
    (limit o : ℕ) (bs acc : Bytes)
    → length acc + length (escaped bs) ≤ limit
    → (final limit (sub o acc) (escaped bs) ≡ sub o (acc ++ escaped bs))
      × (events limit (sub o acc) (escaped bs) ≡ [])
final-sub-escaped limit o [] acc h = (ap (sub o) (sym (append-nil acc)), refl)
final-sub-escaped limit o (b ∷ bs) acc h = ground (
  arith,
  keep_room limit acc b,
  keep_room limit (acc ++ b ∷ []) b,
  append_assoc acc (b ∷ []) (b ∷ []),
  length-append acc (b ∷ []),
  length-append acc (b ∷ b ∷ []),
  append_assoc acc (b ∷ []) (escaped bs),
  append_assoc acc (b ∷ b ∷ []) (escaped bs),
  final-sub-escaped limit o bs (acc ++ b ∷ []),
  final-sub-escaped limit o bs (acc ++ b ∷ b ∷ []),
)

-- All of a frame but its last byte.
abbrev pub opened : ℕ → Bytes → Bytes
opened o payload = Cmd.iac ∷ Cmd.sb ∷ o ∷ (escaped payload ++ Cmd.iac ∷ [])

pub final-opened :
    (limit o : ℕ) (payload : Bytes)
    → length (escaped payload) ≤ limit
    → (final limit text (opened o payload) ≡ sub_command o (escaped payload))
      × (events limit text (opened o payload) ≡ [])
final-opened limit o payload h =
    let (f, e) = final-sub-escaped limit o payload [] (omega arith) in
    (
      final-append limit (escaped payload) (Cmd.iac ∷ []) (sub o [])
          ∙ ap (λ m. final limit m (Cmd.iac ∷ [])) f,
      events-append limit (escaped payload) (Cmd.iac ∷ []) (sub o [])
          ∙ ap₂ (λ u m. u ++ events limit m (Cmd.iac ∷ [])) e f,
    )

pub frame-opened : (o : ℕ) (payload : Bytes) → frame o payload ≡ opened o payload ++ Cmd.se ∷ []
frame-opened o payload =
    ap (λ t. Cmd.iac ∷ Cmd.sb ∷ o ∷ t)
      (sym (append_assoc (escaped payload) (Cmd.iac ∷ []) (Cmd.se ∷ [])))

-- The events of a frame: one subnegotiation, of the bytes as they were escaped.
pub events-frame :
    (limit o : ℕ) (payload : Bytes)
    → length (escaped payload) ≤ limit
    → (events limit text (frame o payload) ≡ subnegotiation o (escaped payload) ∷ [])
      × (final limit text (frame o payload) ≡ text)
events-frame limit o payload h =
    let (f, e) = final-opened limit o payload h in
    let split = frame-opened o payload in
    (
      ap (events limit text) split
          ∙ events-append limit (opened o payload) (Cmd.se ∷ []) text
          ∙ ap₂ (λ u m. u ++ events limit m (Cmd.se ∷ [])) e f,
      ap (final limit text) split
          ∙ final-append limit (opened o payload) (Cmd.se ∷ []) text
          ∙ ap (λ m. final limit m (Cmd.se ∷ [])) f,
    )

breaks-sub-escaped :
    (limit o : ℕ) (bs acc : Bytes)
    → breaks limit (sub o acc) (escaped bs ++ Cmd.iac ∷ Cmd.se ∷ []) ≡ 0
breaks-sub-escaped limit o [] acc = refl
breaks-sub-escaped limit o (b ∷ bs) acc = ground (
  arith,
  breaks-sub-escaped limit o bs (keep limit acc b),
  breaks-sub-escaped limit o bs (keep limit (keep limit acc Cmd.iac) b),
)

breaks-frame : (limit o : ℕ) (payload : Bytes) → breaks limit text (frame o payload) < max_data
breaks-frame limit o payload = omega (arith, breaks-sub-escaped limit o payload [])

module _ (grow : Growth) {limit : ℕ} {p : Parser} (v : IsValid limit p) (m : mode_of p ≡ text) where
  -- Outside a sequence, a valid parser gives escaped data back as they were, with no command and
  -- no subnegotiation, and is again outside a sequence, if fewer than 32 of them are IACs.
  pub parse-escaped :
      (src : Bytes)
      → 2 * iac_count src < max_data
      → let (p', r) = parse grow p (escaped src) in
        (resolve (escaped src) r.data_events ≡ src)
        × (commands_of r ≡ [])
        × (sn_of r ≡ [])
        × (mode_of p' ≡ text)
  parse-escaped src few =
      let (e, f) = events-escaped limit src in
      let e' : events limit (mode_of p) (escaped src) ≡ map byte src = rw m e in
      (
        parse-texts grow (escaped src) v (rw m (omega (arith, breaks-escaped limit src)))
            ∙ ap texts e'
            ∙ texts-map_byte src,
        parse-commands grow (escaped src) v
            ∙ ap (λ t. take 16 (commands t)) e'
            ∙ ap (take 16) (commands-map_byte src),
        parse-subnegotiations grow (escaped src) v
            ∙ ap (λ t. take 8 (measured t)) e'
            ∙ ap (λ t. take 8 (map (λ s. (s.0, length s.1)) t)) (subnegotiations-map_byte src),
        (parse-Follows grow (escaped src) v).1 ∙ ap (λ t. final limit t (escaped src)) m ∙ f,
      )

  -- Outside a sequence, a valid parser gives a frame back as one subnegotiation of its option, and
  -- nothing else, if the escaped payload fits the buffer. Its data are the payload with each IAC
  -- twice, so they are the payload if that has no IAC.
  pub parse-frame :
      (o : ℕ) (payload : Bytes)
      → length (escaped payload) ≤ limit
      → let (p', r) = parse grow p (frame o payload) in
        EndsWith o (escaped payload) (p', r)
        × (sn_of r ≡ (o, length (escaped payload)) ∷ [])
        × (commands_of r ≡ [])
        × (resolve (frame o payload) r.data_events ≡ [])
        × (mode_of p' ≡ text)
  parse-frame o payload h =
      let whole = frame o payload in
      let (e, f) = events-frame limit o payload h in
      let e' : events limit (mode_of p) whole ≡ subnegotiation o (escaped payload) ∷ [] = rw m e in
      let (c, d) = final-opened limit o payload h in
      (
        rw (frame-opened o payload)
            (parse-EndsWith grow (opened o payload) v (rw m c) (rw m (rw d (omega arith)))),
        parse-subnegotiations grow whole v ∙ ap (λ t. take 8 (measured t)) e',
        parse-commands grow whole v ∙ ap (λ t. take 16 (commands t)) e',
        parse-texts grow whole v (rw m (breaks-frame limit o payload)) ∙ ap texts e',
        (parse-Follows grow whole v).1 ∙ ap (λ t. final limit t whole) m ∙ f,
      )
