-- ===== src/Options/Sides.antt =====
-- The two sides of an option, the commands that speak of each, and how a side is set.
use telnetty.Base.{
  ℕ, ◌<◌, ◌≡◌, refl, sym, ap, ◌∙◌, ◌≢◌, ◌↔◌, Bool, true, length, set, length-set, get_or-set_self,
  get_or-set_ne, set-get_or, set-set,
}
use telnetty.Cmd
use telnetty.Options.Table.{Reply, silence, agree, refuse}
use telnetty.Options.{Negotiator, get, new_option, set_us, set_him, OptionState, OptionPair}

-- A command speaks of one side of the option: WILL and WONT of the peer's, DO and DONT of ours.
pub data Side : Type 0 where
  us him : Side

abbrev pub side : Side → OptionPair → OptionState
side us o = o.us
side him o = o.him

abbrev pub other : Side → Side
other us = him
other him = us

-- The positive and the negative command that a peer sends about a side, and the answers to them.
abbrev pub positive : Side → ℕ
positive us = Cmd.do_cmd
positive him = Cmd.will

abbrev pub negative : Side → ℕ
negative us = Cmd.dont
negative him = Cmd.wont

abbrev pub answer : Side → Reply → ℕ
answer s silence = 0
answer us agree = Cmd.will
answer us refuse = Cmd.wont
answer him agree = Cmd.do_cmd
answer him refuse = Cmd.dont

module _ (n : Negotiator) (option : ℕ) where
  abbrev pub set_side : Side → OptionState → Negotiator
  set_side us = set_us n option
  set_side him = set_him n option

  pub set_side_same : (s : Side) (v : OptionState) → v ≡ side s (get n option) → set_side s v ≡ n
  set_side_same us v e = rw e (set-get_or n option new_option)
  set_side_same him v e = rw e (set-get_or n option new_option)

  pub length-set_side : (s : Side) (v : OptionState) → length (set_side s v) ≡ length n
  length-set_side us v = length-set n option _
  length-set_side him v = length-set n option _

module _ (n : Negotiator) (option : ℕ) (valid : option < length n) where
  pub get-set : (o : OptionPair) → get (set n option o) option ≡ o
  get-set o = get_or-set_self n option o new_option valid

  pub set_side_self : (s : Side) (v : OptionState) → v ≡ side s (get (set_side n option s v) option)
  set_side_self us v = rw (get-set _) refl
  set_side_self him v = rw (get-set _) refl

  pub set_side-other :
      (s : Side) (v : OptionState)
      → side (other s) (get (set_side n option s v) option) ≡ side (other s) (get n option)
  set_side-other us v = rw (get-set _) refl
  set_side-other him v = rw (get-set _) refl

  pub set_side_elsewhere :
      (s : Side) (v : OptionState) (i : ℕ) → i ≢ option → get (set_side n option s v) i ≡ get n i
  set_side_elsewhere us v i h = get_or-set_ne n option i _ new_option (λ e. h (sym e))
  set_side_elsewhere him v i h = get_or-set_ne n option i _ new_option (λ e. h (sym e))

  pub set_side_changes :
      (s : Side) (changed : Bool) (v : OptionState)
      → ((changed ≡ true) ↔ (v ≢ side s (get n option)))
      → (changed ≡ true) ↔ (set_side n option s v ≢ n)
  set_side_changes s changed v (p, q) = (
    λ h e. p h (set_side_self s v ∙ ap (λ m. side s (get m option)) e),
    λ h. q (λ e. h (set_side_same n option s v e)),
  )

  pub set_side_twice :
      (s : Side) (u v : OptionState)
      → set_side (set_side n option s u) option s v ≡ set_side n option s v
  set_side_twice us u v = rw (get-set _) (set-set n option _ _)
  set_side_twice him u v = rw (get-set _) (set-set n option _ _)
