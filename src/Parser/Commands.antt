-- ===== src/Parser/Commands.antt =====
-- The command and subnegotiation events of a chunk, beside those of the stream.
use mathlib.Core.List.{map-append}
use telnetty.Base.{
  ℕ, zero, suc, ◌+◌, ◌≤◌, ◌≡◌, refl, sym, ap, ◌∙◌, inl, inr, List, [], ◌∷◌, ◌++◌, map, append-nil,
  append_assoc, arith, ltb, if◌then◌else◌, Bool-cases, Bytes, length, take, length-append,
  length-take, take_all, take-append_exact,
}
use telnetty.Slices.{Growth}
use telnetty.Parser.Events.{
  CommandEvent, SubnegotiationEvent, ParseResult, max_commands, max_subnegotiations, append_command,
  append_subnegotiation, no_events,
}
use telnetty.Parser.Decode.{
  Event, commands, subnegotiations, commands-append, subnegotiations-append, emit, events, next,
}
use telnetty.Parser.State.{IsValid, length-bytes, mode_in, mode_of, step_in-Follows}
use telnetty.Parser.{
  ParserState, state_data, state_iac, state_negotiation, state_subnegotiation_iac, Parser, Loop,
  step_in, step, run, flush_in, parse,
}

pub length-map {ℓ κ} :
    {A : Type ℓ} {B : Type κ} (f : A → B) (xs : List A) → length (map f xs) ≡ length xs
length-map f [] = refl
length-map f (x ∷ xs) = ap suc (length-map f xs)

map-concat {ℓ κ} :
    {A : Type ℓ} {B : Type κ} (f : A → B) (xs : List A) (x : A)
    → map f (xs ++ x ∷ []) ≡ map f xs ++ f x ∷ []
map-concat f [] x = refl
map-concat f (y ∷ xs) x = ap (◌∷◌ (f y)) (map-concat f xs x)

take-take_append {ℓ} :
    {A : Type ℓ} (n : ℕ) (xs ys : List A) → take n (take n xs ++ ys) ≡ take n (xs ++ ys)
take-take_append zero xs ys = refl
take-take_append (suc n) [] ys = refl
take-take_append (suc n) (x ∷ xs) ys = ap (◌∷◌ x) (take-take_append n xs ys)

take_whole {ℓ} : {A : Type ℓ} (n : ℕ) (xs : List A) → length xs ≤ n → take n (xs ++ []) ≡ xs
take_whole n xs h = rw append-nil (take_all n xs h)

-- An event array of `n` entries takes an event while there is room.
map_push {ℓ κ} :
    {A : Type ℓ} {B : Type κ} (n : ℕ) (f : A → B) (es : List A) (e : A)
    → length es ≤ n
    → map f (if ltb (length es) n then es ++ e ∷ [] else es) ≡ take n (map f es ++ f e ∷ [])
map_push n f es e h = elim (Bool-cases (ltb (length es) n)) [
  | inl room ↦
      rw (room, map-concat)
        (sym (
          take_all n (map f es ++ f e ∷ [])
            (ground (arith, length-append (map f es) (f e ∷ []), length-map f es))))
  | inr full ↦
      rw full (sym (take-append_exact n (map f es) (f e ∷ []) (ground (arith, length-map f es))))
]

-- The events of one kind, of which an array keeps the first `n`: `pick` reads them from a result,
-- and `want` from the stream. If each step keeps the two together, so does the loop.
module _ {X : Type 0} (n : ℕ) (pick : ParseResult → List X) (want : List Event → List X)
    (want-append : (es fs : List Event) → want (es ++ fs) ≡ want es ++ want fs)
    (want-nil : want [] ≡ []) (grow : Growth) (limit : ℕ)
    (step-pick : (s : ParserState) (l : Loop) (i b : ℕ)
      → IsValid limit l.parser
      → length (pick l.result) ≤ n
      → pick (step_in s grow l i b).result
        ≡ take n (pick l.result ++ want (emit (mode_in s l.parser) b))) where
  run-pick :
      (bs : Bytes) (l : Loop) (i : ℕ)
      → IsValid limit l.parser
      → length (pick l.result) ≤ n
      → pick (run grow l i bs).result
        ≡ take n (pick l.result ++ want (events limit (mode_of l.parser) bs))
  unfolding run
  run-pick [] l i v h = rw (want-nil, append-nil) (sym (take_all n (pick l.result) h))
  run-pick (b ∷ bs) l i v h =
      let now = step-pick l.parser.state l i b v h in
      let (w, m) = step_in-Follows l.parser.state grow l i b refl v in
      let fits : length (pick (step grow l i b).result) ≤ n =
        rw now (omega (arith, length-take n (pick l.result ++ want (emit (mode_of l.parser) b)))) in
      let rest = want (events limit (next limit (mode_of l.parser) b) bs) in
      run-pick bs (step grow l i b) (i + 1) w fits
      ∙ ap (λ t. take n (pick (step grow l i b).result ++ want (events limit t bs))) m
      ∙ ap (λ t. take n (t ++ rest)) now
      ∙ take-take_append n (pick l.result ++ want (emit (mode_of l.parser) b)) rest
      ∙ ap (take n) (
          append_assoc (pick l.result) (want (emit (mode_of l.parser) b)) rest
          ∙ ap (λ t. pick l.result ++ t)
              (sym (
                want-append (emit (mode_of l.parser) b)
                  (events limit (next limit (mode_of l.parser) b) bs))))

abbrev pub command_of : CommandEvent → ℕ × ℕ
command_of e = (e.command, e.option)

-- What a subnegotiation event says: its option and the number of its bytes.
abbrev pub measure_of : SubnegotiationEvent → ℕ × ℕ
measure_of e = (e.option, e.size)

-- The commands of a result, in order.
abbrev pub commands_of : ParseResult → List (ℕ × ℕ)
commands_of r = map command_of r.command_events

-- The subnegotiations of a result, in order.
abbrev pub sn_of : ParseResult → List (ℕ × ℕ)
sn_of r = map measure_of r.sn_events

abbrev pub measured : List Event → List (ℕ × ℕ)
measured es = map (λ s. (s.0, length s.1)) (subnegotiations es)

step-commands_of :
    (grow : Growth) (limit : ℕ) (s : ParserState) (l : Loop) (i b : ℕ)
    → IsValid limit l.parser
    → length (commands_of l.result) ≤ max_commands
    → commands_of (step_in s grow l i b).result
      ≡ take max_commands (commands_of l.result ++ commands (emit (mode_in s l.parser) b))
unfolding step_in append_command
step-commands_of grow limit state_negotiation l i b v h =
    map_push max_commands command_of l.result.command_events
      (record { command = l.parser.cmd; option = b })
      (omega (arith, length-map command_of l.result.command_events))
step-commands_of grow limit state_iac l i b v h =
    ground (arith, take_whole max_commands (commands_of l.result) h)
step-commands_of grow limit _ l i b v h =
    ground (arith, take_whole max_commands (commands_of l.result) h)

step-sn_of :
    (grow : Growth) (limit : ℕ) (s : ParserState) (l : Loop) (i b : ℕ)
    → IsValid limit l.parser
    → length (sn_of l.result) ≤ max_subnegotiations
    → sn_of (step_in s grow l i b).result
      ≡ take max_subnegotiations (sn_of l.result ++ measured (emit (mode_in s l.parser) b))
unfolding step_in append_subnegotiation
step-sn_of grow limit state_subnegotiation_iac l i b v h = ground (
  arith,
  take_whole max_subnegotiations (sn_of l.result) h,
  length-bytes v.buffer,
  map_push max_subnegotiations measure_of l.result.sn_events
      (record {
        option = l.parser.sn_option;
        size = l.parser.sn_buf.buf.len;
        len = l.parser.sn_buf.buf.len;
      })
      (omega (arith, length-map measure_of l.result.sn_events)),
)
step-sn_of grow limit state_iac l i b v h =
    ground (arith, take_whole max_subnegotiations (sn_of l.result) h)
step-sn_of grow limit _ l i b v h =
    ground (arith, take_whole max_subnegotiations (sn_of l.result) h)

measured-append : (es fs : List Event) → measured (es ++ fs) ≡ measured es ++ measured fs
measured-append es fs =
    rw subnegotiations-append
      (map-append (λ s. (s.0, length s.1)) (subnegotiations es) (subnegotiations fs))

flush_in-events :
    (s : ParserState) (l : Loop) (n : ℕ)
    → (commands_of (flush_in s l n).result ≡ commands_of l.result)
      × (sn_of (flush_in s l n).result ≡ sn_of l.result)
unfolding flush_in
flush_in-events state_data l n = ground arith
flush_in-events _ l n = (refl, refl)

module _ (grow : Growth) {limit : ℕ} {p : Parser} (input : Bytes) (v : IsValid limit p) where
  -- A valid parser reports the first 16 commands of a chunk, in order, and no others.
  pub parse-commands :
      commands_of (parse grow p input).1
      ≡ take max_commands (commands (events limit (mode_of p) input))
  unfolding parse
  parse-commands =
      let l : Loop = record { parser = p; result = no_events; data_start = 0 } in
      let l' = run grow l 0 input in
      (flush_in-events l'.parser.state l' (length input)).0
      ∙ run-pick max_commands commands_of commands commands-append refl grow limit
          (step-commands_of grow limit) input l 0 v (omega arith)

  -- A valid parser reports the first 8 subnegotiations of a chunk, in order, with their options
  -- and lengths, and no others.
  pub parse-subnegotiations :
      sn_of (parse grow p input).1
      ≡ take max_subnegotiations (measured (events limit (mode_of p) input))
  unfolding parse
  parse-subnegotiations =
      let l : Loop = record { parser = p; result = no_events; data_start = 0 } in
      let l' = run grow l 0 input in
      (flush_in-events l'.parser.state l' (length input)).1
      ∙ run-pick max_subnegotiations sn_of measured measured-append refl grow limit
          (step-sn_of grow limit) input l 0 v (omega arith)

  -- A valid parser reports the first 16 commands of a chunk and its first 8 subnegotiations, with
  -- their options and lengths, each in order, and no others.
  pub parse-reported :
      let result = (parse grow p input).1 in
      let stream = events limit (mode_of p) input in
      (commands_of result ≡ take max_commands (commands stream))
      × (sn_of result ≡ take max_subnegotiations (measured stream))
  parse-reported = (parse-commands, parse-subnegotiations)
