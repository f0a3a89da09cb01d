-- ===== src/Parser/Data.antt =====
-- The data events of a chunk, beside the plain bytes of the stream.
use telnetty.Base.{
  refl, suc, sym, ℕ, ◌+◌, ◌-◌, ◌≤◌, ◌<◌, ◌≡◌, ap, ◌∙◌, List, [], ◌∷◌, ◌++◌, append-nil,
  append_assoc, arith, ◌==◌, if◌then◌else◌, Bytes, length, take, drop, take-add, drop-drop,
}
use telnetty.Cmd
use telnetty.Slices.{Growth}
use telnetty.Parser.Events.{DataEvent, max_data, append_data, slice, resolve}
use telnetty.Parser.Decode.{texts-append, next, events, Mode, text, command, texts, emit}
use telnetty.Parser.State.{step_in-Follows, IsValid, mode_of, mode_in}
use telnetty.Parser.{
  step, no_events, Parser, parse, run, flush_in, ParserState, state_data, state_iac, Loop, step_in,
}

-- 1 for a byte at which the parser ends a data event: an IAC outside subnegotiations.
abbrev pub break_weight : Mode → ℕ → ℕ
break_weight text b = if b == Cmd.iac then 1 else 0
break_weight command b = if b == Cmd.iac then 1 else 0
break_weight _ b = 0

abbrev pub breaks : ℕ → Mode → Bytes → ℕ
breaks limit m [] = 0
breaks limit m (b ∷ bs) = break_weight m b + breaks limit (next limit m b) bs

module _ (input : Bytes) where
  slice_join :
      (start m n : ℕ) → slice input start (m + n) ≡ slice input start m ++ slice input (start + m) n
  slice_join start m n =
      take-add m n (drop start input)
      ∙ ap (λ t. take m (drop start input) ++ take n t) (drop-drop start m input)

  slice_zero : (start n : ℕ) → n ≡ 0 → slice input start n ≡ []
  slice_zero start n e = ap (λ m. take m (drop start input)) e

  -- An event array with room takes new data, as an event of its own or on the end of the last.
  resolve-append_data :
      (es : List DataEvent) (start size : ℕ)
      → length es < max_data
      → (resolve input (append_data es start size) ≡ resolve input es ++ slice input start size)
        × (length (append_data es start size) ≤ length es + 1)
  unfolding append_data
  resolve-append_data [] start size h = ground (arith, slice_zero start size)
  resolve-append_data (e ∷ es) start size h = ground (
    arith,
    slice_zero start size,
    append-nil (resolve input es ++ slice input e.start e.size),
    slice_join e.start e.size size,
    append_assoc (resolve input es) (slice input e.start e.size) (slice input start size),
  )

  -- The bytes before index `i` that are not in an event yet.
  abbrev pending_in : ParserState → Loop → ℕ → Bytes
  pending_in state_data l i = slice input l.data_start (i - l.data_start)
  pending_in _ l i = []

  abbrev seen : Loop → ℕ → Bytes
  seen l i = resolve input l.result.data_events ++ pending_in l.parser.state l i

  record Keeps (l : Loop) (i : ℕ) (m : Mode) (b : ℕ) (l' : Loop) : Type 0 where
    same : seen l' (i + 1) ≡ seen l i ++ texts (emit m b)
    started : l'.parser.state ≡ state_data → l'.data_start ≤ i + 1
    few : length l'.result.data_events ≤ length l.result.data_events + break_weight m b

  step_in-Keeps :
      (s : ParserState) (grow : Growth) (l : Loop) (i b : ℕ)
      → l.parser.state ≡ s
      → (l.parser.state ≡ state_data → l.data_start ≤ i)
      → length l.result.data_events + break_weight (mode_in s l.parser) b ≤ max_data
      → slice input i 1 ≡ b ∷ []
      → Keeps l i (mode_in s l.parser) b (step_in s grow l i b)
  unfolding step_in
  step_in-Keeps state_data grow l i b e st room here = ground (
    arith,
    st e,
    resolve-append_data l.result.data_events l.data_start (i - l.data_start),
    slice_zero l.data_start (i - l.data_start),
    append-nil (resolve input l.result.data_events),
    append-nil (resolve input l.result.data_events ++ slice input l.data_start (i - l.data_start)),
    append_assoc (resolve input l.result.data_events) (slice input l.data_start (i - l.data_start))
        (b ∷ []),
    slice_join l.data_start (i - l.data_start) 1,
  )
  step_in-Keeps state_iac grow l i b e st room here = ground (
    arith,
    resolve-append_data l.result.data_events i 1,
    slice_zero (i + 1) (i + 1 - (i + 1)),
    append-nil (resolve input l.result.data_events),
    append-nil (resolve input l.result.data_events ++ (b ∷ [])),
  )
  step_in-Keeps _ grow l i b e st room here =
      ground (
        arith,
        slice_zero (i + 1) (i + 1 - (i + 1)),
        append-nil (resolve input l.result.data_events),
      )

  pending_start : (s : ParserState) (l : Loop) → l.data_start ≡ 0 → pending_in s l 0 ≡ []
  pending_start state_data l e = slice_zero l.data_start (0 - l.data_start) (omega arith)
  pending_start _ l e = refl

  record KeepsAll (limit : ℕ) (l : Loop) (i : ℕ) (bs : Bytes) (l' : Loop) : Type 0 where
    same : seen l' (i + length bs) ≡ seen l i ++ texts (events limit (mode_of l.parser) bs)
    started : l'.parser.state ≡ state_data → l'.data_start ≤ i + length bs
    few :
        length l'.result.data_events
        ≤ length l.result.data_events + breaks limit (mode_of l.parser) bs

  run-KeepsAll :
      (bs : Bytes) (grow : Growth) {limit : ℕ} (l : Loop) (i : ℕ)
      → drop i input ≡ bs
      → IsValid limit l.parser
      → (l.parser.state ≡ state_data → l.data_start ≤ i)
      → length l.result.data_events + breaks limit (mode_of l.parser) bs ≤ max_data
      → KeepsAll limit l i bs (run grow l i bs)
  unfolding run
  run-KeepsAll [] grow l i at v st room = record {
    same = ap (seen l) {x = i + 0} {y = i} (omega arith) ∙ sym (append-nil (seen l i));
    started = λ e. omega (arith, st e);
    few = omega arith;
  }
  run-KeepsAll (b ∷ bs) grow {limit} l i at v st room =
      let here : slice input i 1 ≡ b ∷ [] = ap (take 1) at in
      let later : drop (i + 1) input ≡ bs = sym (drop-drop i 1 input) ∙ ap (drop 1) at in
      let l' = step grow l i b in
      let k = step_in-Keeps l.parser.state grow l i b refl st (omega arith) here in
      let (w, m) = step_in-Follows l.parser.state grow l i b refl v in
      let left = ap (λ t. breaks limit t bs) m in
      let rest = run-KeepsAll bs grow l' (i + 1) later w k.started (omega (arith, k.few)) in
      let es = events limit (next limit (mode_of l.parser) b) bs in
      record {
        same =
            ap (seen (run grow l' (i + 1) bs)) {x = i + suc (length bs)} {y = i + 1 + length bs}
              (omega arith)
            ∙ rest.same
            ∙ ap (λ t. seen l' (i + 1) ++ texts (events limit t bs)) m
            ∙ ap (λ t. t ++ texts es) k.same
            ∙ append_assoc (seen l i) (texts (emit (mode_of l.parser) b)) (texts es)
            ∙ ap (λ t. seen l i ++ t) (sym (texts-append (emit (mode_of l.parser) b) es));
        started = λ e. omega (arith, rest.started e);
        few = omega (arith, k.few, rest.few);
      }

  resolve-flush_in :
      (s : ParserState) (l : Loop)
      → l.parser.state ≡ s
      → (l.parser.state ≡ state_data → l.data_start ≤ length input)
      → length l.result.data_events < max_data
      → resolve input (flush_in s l (length input)).result.data_events ≡ seen l (length input)
  unfolding flush_in
  resolve-flush_in state_data l e st room = ground (
    arith,
    st e,
    resolve-append_data l.result.data_events l.data_start (length input - l.data_start),
    slice_zero l.data_start (length input - l.data_start),
    append-nil (resolve input l.result.data_events),
  )
  resolve-flush_in _ l e st room = ground (arith, append-nil (resolve input l.result.data_events))

-- The plain bytes of a chunk, IAC IAC read as 255, are those of its data events, in order, if the
-- parser is valid and fewer than 64 IACs stand outside subnegotiations (each may end an event).
pub parse-texts :
    (grow : Growth) {limit : ℕ} {p : Parser} (input : Bytes)
    → IsValid limit p
    → breaks limit (mode_of p) input < max_data
    → resolve input (parse grow p input).1.data_events ≡ texts (events limit (mode_of p) input)
unfolding parse
parse-texts grow {limit} {p} input v few =
    let l : Loop = record { parser = p; result = no_events; data_start = 0 } in
    let l' = run grow l 0 input in
    let k = run-KeepsAll input input grow l 0 refl v (λ e. omega arith) (omega arith) in
    let e : 0 + length input ≡ length input = omega arith in
    resolve-flush_in input l'.parser.state l' refl (λ t. omega (arith, k.started t))
      (omega (arith, k.few))
    ∙ ap (seen input l') (sym e)
    ∙ k.same
    ∙ ap (λ t. t ++ texts (events limit (mode_of p) input)) (pending_start input p.state l refl)
