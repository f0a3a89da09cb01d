-- ===== src/Parser/Tests.antt =====
-- `Parse` run on small streams, and the theorems at them.
use telnetty.Base.{◌+◌, ◌≡◌, refl, List, [], ◌∷◌, arith, Bytes}
use telnetty.Slices.{Growth}
use telnetty.Codec.Escape.{frame}
use telnetty.Parser.Events.{append_data, resolve}
use telnetty.Parser.Decode.{text, sub_command, events, texts}
use telnetty.Parser.State.{IsValid, Follows, mode_of, parse-Follows}
use telnetty.Parser.Data.{parse-texts}
use telnetty.Parser.Commands.{commands_of, sn_of, parse-reported}
use telnetty.Parser.Bounds.{IsBounded, parse-IsBounded}
use telnetty.Parser.Subnegotiation.{EndsWith}
use telnetty.Parser.Frames.{parse-frame}
use telnetty.Parser.Stream.{feed, feed-texts}
use telnetty.Parser.{run, step_in, new_parser, parse}

abbrev double : Growth
double old needed = old + needed

new_parser-IsValid : IsValid 512 new_parser
new_parser-IsValid = record {
  buffer = record { unlimited = refl; cap_is = refl; len_le = omega arith };
  fresh = λ _. refl;
}

-- "Hi", IAC IAC, IAC WILL 24, "x", IAC SB 24 1 IAC SE, "y"
abbrev mixed : Bytes
mixed = 72 ∷ 105 ∷ 255 ∷ 255 ∷ 255 ∷ 251 ∷ 24 ∷ 120 ∷ 255 ∷ 250 ∷ 24 ∷ 1 ∷ 255 ∷ 240 ∷ 121 ∷ []

-- The same without its last two bytes.
abbrev cut_short : Bytes
cut_short = 72 ∷ 105 ∷ 255 ∷ 255 ∷ 255 ∷ 251 ∷ 24 ∷ 120 ∷ 255 ∷ 250 ∷ 24 ∷ 1 ∷ 255 ∷ []

mixed_data :
    resolve mixed (parse double new_parser mixed).1.data_events ≡ 72 ∷ 105 ∷ 255 ∷ 120 ∷ 121 ∷ []
unfolding parse run step_in append_data
mixed_data = refl

parse-texts_example :
    resolve mixed (parse double new_parser mixed).1.data_events ≡ texts (events 512 text mixed)
parse-texts_example = parse-texts double mixed new_parser-IsValid (omega arith)

-- The stream cut inside each of its sequences.
abbrev chunks : List Bytes
chunks =
    (72 ∷ 105 ∷ 255 ∷ [])
    ∷ (255 ∷ 255 ∷ 251 ∷ [])
    ∷ (24 ∷ 120 ∷ 255 ∷ 250 ∷ 24 ∷ [])
    ∷ (1 ∷ 255 ∷ [])
    ∷ (240 ∷ 121 ∷ [])
    ∷ []

feed-texts_example : feed double new_parser chunks ≡ texts (events 512 text mixed)
feed-texts_example =
    feed-texts double chunks new_parser new_parser-IsValid
      (omega arith, (omega arith, (omega arith, (omega arith, (omega arith, tt)))))

parse-Follows_example : Follows 512 (sub_command 24 (1 ∷ [])) (parse double new_parser cut_short).0
parse-Follows_example = parse-Follows double cut_short new_parser-IsValid

parse-IsBounded_example : IsBounded 512 15 (parse double new_parser mixed).1
parse-IsBounded_example = parse-IsBounded double mixed new_parser-IsValid

abbrev with_iac : Bytes
with_iac = 7 ∷ 255 ∷ 8 ∷ []

parse-frame_example :
    let (p', r) = parse double new_parser (frame 24 with_iac) in
    EndsWith 24 (7 ∷ 255 ∷ 255 ∷ 8 ∷ []) (p', r)
    × (sn_of r ≡ (24, 4) ∷ [])
    × (commands_of r ≡ [])
    × (resolve (frame 24 with_iac) r.data_events ≡ [])
    × (mode_of p' ≡ text)
parse-frame_example = parse-frame double new_parser-IsValid refl 24 with_iac (omega arith)

parse-reported_example :
    let result = (parse double new_parser mixed).1 in
    (commands_of result ≡ (251, 24) ∷ []) × (sn_of result ≡ (24, 1) ∷ [])
parse-reported_example = parse-reported double mixed new_parser-IsValid
