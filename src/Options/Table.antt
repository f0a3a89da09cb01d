-- ===== src/Options/Table.antt =====
-- RFC 1143 without the queue, for one side of an option: what an agent that agrees to all does on
-- a positive command (WILL or DO) and on a negative one (WONT or DONT).
use telnetty.Options.{OptionState, disabled, enabled, want_no, want_yes}

pub data Reply : Type 0 where
  silence agree refuse : Reply

-- The states that the program sets.
abbrev pub InUse : OptionState → Type 0
InUse disabled = Unit
InUse enabled = Unit
InUse want_no = Unit
InUse want_yes = Unit
InUse _ = ⊥

-- In `want_no` a positive command is the error "DONT answered by WILL": the option is off, and
-- nothing is sent.
abbrev pub on_positive : OptionState → Reply × OptionState
on_positive disabled = (agree, enabled)
on_positive want_no = (silence, disabled)
on_positive want_yes = (silence, enabled)
on_positive s = (silence, s)

abbrev pub on_negative : OptionState → Reply × OptionState
on_negative enabled = (refuse, disabled)
on_negative want_no = (silence, disabled)
on_negative want_yes = (silence, disabled)
on_negative s = (silence, s)

-- Where the program differs: in `want_no` it refuses the positive command, with an answer.
abbrev pub conflict : OptionState → Reply → Reply
conflict want_no r = refuse
conflict s r = r
