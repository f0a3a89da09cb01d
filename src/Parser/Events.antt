-- ===== src/Parser/Events.antt =====
-- The events of parser.go and the three `append` methods. An event's data is a slice: of the input,
-- its offset and size; of the subnegotiation buffer, its size. Of each event array the first `Count`
-- entries are modelled, those of the data events newest first.
use telnetty.Base.{
  ℕ, ◌+◌, Bool, ◌&&◌, List, [], ◌∷◌, ◌++◌, ltb, ◌==◌, if◌then◌else◌, Bytes, length, take, drop,
}

pub record DataEvent : Type 0 where
  pub start : ℕ
  pub size : ℕ
  pub len : ℕ

pub record CommandEvent : Type 0 where
  pub command : ℕ
  pub option : ℕ

pub record SubnegotiationEvent : Type 0 where
  pub option : ℕ
  pub size : ℕ
  pub len : ℕ

pub record ParseResult : Type 0 where
  pub data_events : List DataEvent
  pub command_events : List CommandEvent
  pub sn_events : List SubnegotiationEvent

abbrev pub no_events : ParseResult
no_events = record { data_events = []; command_events = []; sn_events = [] }

-- `len(result.DataEvents)` and so on
abbrev pub max_data : ℕ
max_data = 64

abbrev pub max_commands : ℕ
max_commands = 16

abbrev pub max_subnegotiations : ℕ
max_subnegotiations = 8

add_event : List DataEvent → ℕ → ℕ → List DataEvent
add_event es start size =
    if ltb (length es) max_data then record { start = start; size = size; len = size } ∷ es else es

-- The address of a byte of the input is its offset: the new data goes on where the last ended.
is_contiguous : DataEvent → ℕ → Bool
is_contiguous e start = ltb 0 e.size && e.start + e.size == start

unfoldable pub append_data : List DataEvent → ℕ → ℕ → List DataEvent
unfolding add_event is_contiguous
append_data [] start size = if size == 0 then [] else add_event [] start size
append_data (e ∷ es) start size =
    if size == 0
    then e ∷ es
    else if is_contiguous e start
    then record { start = e.start; size = e.size + size; len = e.len + size } ∷ es
    else add_event (e ∷ es) start size

unfoldable pub append_command : List CommandEvent → ℕ → ℕ → List CommandEvent
append_command es c o =
    if ltb (length es) max_commands then es ++ record { command = c; option = o } ∷ [] else es

unfoldable pub append_subnegotiation : List SubnegotiationEvent → ℕ → ℕ → List SubnegotiationEvent
append_subnegotiation es o size =
    if ltb (length es) max_subnegotiations
    then es ++ record { option = o; size = size; len = size } ∷ []
    else es

-- What a reader of the events sees: each data event's slice of the input, oldest first.
abbrev pub slice : Bytes → ℕ → ℕ → Bytes
slice input start size = take size (drop start input)

abbrev pub resolve : Bytes → List DataEvent → Bytes
resolve input [] = []
resolve input (e ∷ es) = resolve input es ++ slice input e.start e.size
