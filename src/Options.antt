-- ===== src/Options.antt =====
-- options.go: the negotiator. It holds an `Option` for each of the 256 codes, none of them nil
-- (`NewNegotiator` fills the array, and nothing writes to it). A function that changes the
-- negotiator returns the new one last; the response 0 stands for no response.
pub mod Table
pub mod Sides
pub mod Verdicts
pub mod Handle
pub mod React
pub mod Handshake
pub mod Agreement
mod Tests
use telnetty.Base.{
  ℕ, Bool, true, false, ◌||◌, List, [], ◌∷◌, ◌==◌, if◌then◌else◌, get_or, set, replicate,
}
use telnetty.Cmd

-- `OptionState`, with `OptWantNoOpp` and `OptWantYesOpp`, which no function sets.
pub data OptionState : Type 0 where
  disabled enabled want_no want_yes want_no_opp want_yes_opp : OptionState

-- `Option`; the name is taken by the library's type.
pub record OptionPair : Type 0 where
  pub us : OptionState
  pub him : OptionState

abbrev pub new_option : OptionPair
new_option = record { us = disabled; him = disabled }

-- `options [256]*Option`; an option is a byte.
abbrev pub Negotiator : Type 0
Negotiator = List OptionPair

abbrev pub new_negotiator : Negotiator
new_negotiator = replicate 256 new_option

pub reset : Negotiator → Negotiator
reset [] = []
reset (o ∷ os) = new_option ∷ reset os

abbrev pub get : Negotiator → ℕ → OptionPair
get n option = get_or n option new_option

is_on : OptionState → Bool
is_on enabled = true
is_on _ = false

pub is_enabled : OptionPair → Bool
unfolding is_on
is_enabled o = is_on o.us || is_on o.him

is_pending : OptionState → Bool
is_pending want_no = true
is_pending want_yes = true
is_pending _ = false

pub is_negotiating : OptionPair → Bool
unfolding is_pending
is_negotiating o = is_pending o.us || is_pending o.him

-- What a handler decides: the response, whether it counts as a change, and the new state of the side
-- that it looks at.
abbrev Verdict : Type 0
Verdict = ℕ × Bool × OptionState

unfoldable pub will_verdict : OptionState → Verdict
will_verdict disabled = (Cmd.do_cmd, true, enabled)
will_verdict enabled = (0, false, enabled)
will_verdict want_no = (Cmd.dont, true, disabled)
will_verdict want_yes = (0, true, enabled)
will_verdict s = (0, false, s)

unfoldable pub wont_verdict : OptionState → Verdict
wont_verdict disabled = (0, false, disabled)
wont_verdict enabled = (Cmd.dont, true, disabled)
wont_verdict want_no = (0, true, disabled)
wont_verdict want_yes = (0, true, disabled)
wont_verdict s = (0, false, s)

unfoldable pub do_verdict : OptionState → Verdict
do_verdict disabled = (Cmd.will, true, enabled)
do_verdict enabled = (0, false, enabled)
do_verdict want_no = (Cmd.wont, true, disabled)
do_verdict want_yes = (0, true, enabled)
do_verdict s = (0, false, s)

unfoldable pub dont_verdict : OptionState → Verdict
dont_verdict disabled = (0, false, disabled)
dont_verdict enabled = (Cmd.wont, true, disabled)
dont_verdict want_no = (0, true, disabled)
dont_verdict want_yes = (0, true, disabled)
dont_verdict s = (0, false, s)

abbrev pub set_him : Negotiator → ℕ → OptionState → Negotiator
set_him n option s = set n option (record (get n option) { him = s })

abbrev pub set_us : Negotiator → ℕ → OptionState → Negotiator
set_us n option s = set n option (record (get n option) { us = s })

unfoldable pub handle_will : Negotiator → ℕ → ℕ × Bool × Negotiator
unfolding will_verdict
handle_will n option =
    let (response, changed, s) = will_verdict (get n option).him in
    (response, changed, set_him n option s)

unfoldable pub handle_wont : Negotiator → ℕ → ℕ × Bool × Negotiator
unfolding wont_verdict
handle_wont n option =
    let (response, changed, s) = wont_verdict (get n option).him in
    (response, changed, set_him n option s)

unfoldable pub handle_do : Negotiator → ℕ → ℕ × Bool × Negotiator
unfolding do_verdict
handle_do n option =
    let (response, changed, s) = do_verdict (get n option).us in
    (response, changed, set_us n option s)

unfoldable pub handle_dont : Negotiator → ℕ → ℕ × Bool × Negotiator
unfolding dont_verdict
handle_dont n option =
    let (response, changed, s) = dont_verdict (get n option).us in
    (response, changed, set_us n option s)

unfoldable pub handle : Negotiator → ℕ → ℕ → ℕ × Bool × Negotiator
unfolding handle_will handle_wont handle_do handle_dont
handle n command option =
    if command == Cmd.will
    then handle_will n option
    else if command == Cmd.wont
    then handle_wont n option
    else if command == Cmd.do_cmd
    then handle_do n option
    else if command == Cmd.dont
    then handle_dont n option
    else (0, false, n)

-- A request returns the command to send, 0 for none.
abbrev Request : Type 0
Request = Negotiator → ℕ → ℕ × Negotiator

unfoldable pub request_enable : Request
request_enable n option = elim (get n option).us [
  | disabled ↦ (Cmd.will, set_us n option want_yes)
  | _ ↦ (0, n)
]

unfoldable pub request_disable : Request
request_disable n option = elim (get n option).us [
  | enabled ↦ (Cmd.wont, set_us n option want_no)
  | _ ↦ (0, n)
]

unfoldable pub request_peer_enable : Request
request_peer_enable n option = elim (get n option).him [
  | disabled ↦ (Cmd.do_cmd, set_him n option want_yes)
  | _ ↦ (0, n)
]

unfoldable pub request_peer_disable : Request
request_peer_disable n option = elim (get n option).him [
  | enabled ↦ (Cmd.dont, set_him n option want_no)
  | _ ↦ (0, n)
]
