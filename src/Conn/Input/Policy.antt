-- ===== src/Conn/Input/Policy.antt =====
-- conn.go: the two guards of `processReadLocked` in front of the negotiator, and the options they
-- are for.
use telnetty.Base.{
  ℕ, zero, suc, ◌≡◌, refl, sym, ap, ◌∙◌, ◌≢◌, Bool, false, not, ◌&&◌, List, [], ◌∷◌, arith, ◌==◌,
  if◌then◌else◌, ==_iff, Bytes, by_if,
}
use telnetty.Cmd
use telnetty.Slices.{Growth}
use telnetty.Parser.Events.{CommandEvent, SubnegotiationEvent}
use telnetty.Parser.{Parser, parse}
use telnetty.Options.Sides.{Side, us, him, side, positive}
use telnetty.Options.Handle.{handle-by_command}
use telnetty.Options.{
  OptionState, disabled, Negotiator, get, set_us, set_him, handle, handle_will, handle_wont,
  handle_do, handle_dont, dont_verdict, wont_verdict,
}
use telnetty.Conn.Output.{Socket}
use telnetty.Conn.Input.{
  Config, Conn, push_event, write_data, reply, is_option_supported, is_option_enabled_locally,
  process_command, process_commands, handle_terminal_type, handle_naws, handle_subnegotiation,
  process_subnegotiation, process_subnegotiations, process_read,
}

us-set_him :
    (n : Negotiator) (option i : ℕ) (v : OptionState)
    → (get (set_him n option v) i).us ≡ (get n i).us
us-set_him [] option i v = refl
us-set_him (o ∷ n) zero zero v = refl
us-set_him (o ∷ n) zero (suc i) v = refl
us-set_him (o ∷ n) (suc option) zero v = refl
us-set_him (o ∷ n) (suc option) (suc i) v = us-set_him n option i v

him-set_us :
    (n : Negotiator) (option i : ℕ) (v : OptionState)
    → (get (set_us n option v) i).him ≡ (get n i).him
him-set_us [] option i v = refl
him-set_us (o ∷ n) zero zero v = refl
him-set_us (o ∷ n) zero (suc i) v = refl
him-set_us (o ∷ n) (suc option) zero v = refl
him-set_us (o ∷ n) (suc option) (suc i) v = him-set_us n option i v

set_us_off :
    (n : Negotiator) (option i : ℕ) (v : OptionState)
    → (i ≡ option → v ≡ disabled)
    → (get n i).us ≡ disabled
    → (get (set_us n option v) i).us ≡ disabled
set_us_off [] option i v g h = h
set_us_off (o ∷ n) zero zero v g h = g refl
set_us_off (o ∷ n) zero (suc i) v g h = h
set_us_off (o ∷ n) (suc option) zero v g h = h
set_us_off (o ∷ n) (suc option) (suc i) v g h = set_us_off n option i v (λ e. g (ap suc e)) h

set_him_off :
    (n : Negotiator) (option i : ℕ) (v : OptionState)
    → (i ≡ option → v ≡ disabled)
    → (get n i).him ≡ disabled
    → (get (set_him n option v) i).him ≡ disabled
set_him_off [] option i v g h = h
set_him_off (o ∷ n) zero zero v g h = g refl
set_him_off (o ∷ n) zero (suc i) v g h = h
set_him_off (o ∷ n) (suc option) zero v g h = h
set_him_off (o ∷ n) (suc option) (suc i) v g h = set_him_off n option i v (λ e. g (ap suc e)) h

-- A side that is off stays off, unless the peer's positive command is about this very option.
handle_off :
    (s : Side) (n : Negotiator) (cmd option i : ℕ)
    → (cmd ≡ positive s → i ≢ option)
    → side s (get n i) ≡ disabled
    → side s (get (handle n cmd option).2 i) ≡ disabled
unfolding handle_will handle_wont handle_do handle_dont dont_verdict wont_verdict
handle_off us n cmd option i spared h =
    handle-by_command (λ r. (get r.2 i).us ≡ disabled) n cmd option
      (λ _. us-set_him n option i _ ∙ h) (λ _. us-set_him n option i _ ∙ h)
      (λ e. set_us_off n option i _ (λ same. absurd (spared e same)) h)
      (λ _.
        set_us_off n option i _
          (λ same. ap (λ x. (dont_verdict x).2) (ap (λ j. (get n j).us) (sym same) ∙ h)) h)
      h
handle_off him n cmd option i spared h =
    handle-by_command (λ r. (get r.2 i).him ≡ disabled) n cmd option
      (λ e. set_him_off n option i _ (λ same. absurd (spared e same)) h)
      (λ _.
        set_him_off n option i _
          (λ same. ap (λ x. (wont_verdict x).2) (ap (λ j. (get n j).him) (sym same) ∙ h)) h)
      (λ _. him-set_us n option i _ ∙ h) (λ _. him-set_us n option i _ ∙ h) h

-- What the connection lets a peer turn on: of its own side the options that its configuration
-- enables, of the peer's side those that it knows.
abbrev pub allowed : Config → Side → ℕ → Bool
allowed cfg us option = is_option_enabled_locally cfg option
allowed cfg him option = is_option_supported option

config-process_command :
    (grow : Growth) (net : Socket) (c : Conn) (cmd option : ℕ)
    → (process_command grow net c cmd option).config ≡ c.config
unfolding process_command reply push_event
config-process_command grow net c cmd option = ground arith

negotiator-process_command :
    (grow : Growth) (net : Socket) (c : Conn) (cmd option : ℕ)
    → (process_command grow net c cmd option).negotiator ≡ (
        if cmd == Cmd.do_cmd && not (is_option_enabled_locally c.config option)
        then c.negotiator
        else if cmd == Cmd.will && not (is_option_supported option)
        then c.negotiator
        else (handle c.negotiator cmd option).2)
unfolding process_command reply push_event
negotiator-process_command grow net c cmd option = ground arith

-- Past the two guards a positive command is not about a refused option.
guarded :
    (s : Side) (cfg : Config) (cmd option i : ℕ)
    → allowed cfg s i ≡ false
    → (cmd == Cmd.do_cmd && not (is_option_enabled_locally cfg option)) ≡ false
    → (cmd == Cmd.will && not (is_option_supported option)) ≡ false
    → cmd ≡ positive s
    → i ≢ option
guarded us cfg cmd option i refused g _ e same =
    let refused' : is_option_enabled_locally cfg option ≡ false =
      ap (is_option_enabled_locally cfg) (sym same) ∙ refused in
    let is_do = (==_iff cmd Cmd.do_cmd).1 e in ground arith
guarded him cfg cmd option i refused _ g e same =
    let refused' : is_option_supported option ≡ false =
      ap is_option_supported (sym same) ∙ refused in
    let is_will = (==_iff cmd Cmd.will).1 e in ground arith

negotiator-process_command_off :
    (grow : Growth) (net : Socket) (s : Side) (i : ℕ) (c : Conn) (cmd option : ℕ)
    → allowed c.config s i ≡ false
    → side s (get c.negotiator i) ≡ disabled
    → side s (get (process_command grow net c cmd option).negotiator i) ≡ disabled
negotiator-process_command_off grow net s i c cmd option refused h =
    let off : Negotiator → Type 0 = λ n. side s (get n i) ≡ disabled in
    let g₁ = cmd == Cmd.do_cmd && not (is_option_enabled_locally c.config option) in
    let g₂ = cmd == Cmd.will && not (is_option_supported option) in
    rw negotiator-process_command (
      by_if off g₁ (λ _. h)
        (λ no_do.
          by_if off g₂ (λ _. h)
            (λ no_will.
              handle_off s c.negotiator cmd option i
                (guarded s c.config cmd option i refused no_do no_will) h)))

process_commands_off :
    (grow : Growth) (net : Socket) (s : Side) (i : ℕ) (es : List CommandEvent) (c : Conn)
    → allowed c.config s i ≡ false
    → side s (get c.negotiator i) ≡ disabled
    → side s (get (process_commands grow net c es).negotiator i) ≡ disabled
unfolding process_commands
process_commands_off grow net s i [] c refused h = h
process_commands_off grow net s i (e ∷ es) c refused h =
    process_commands_off grow net s i es (process_command grow net c e.command e.option)
      (ap (λ cfg. allowed cfg s i) (config-process_command grow net c e.command e.option) ∙ refused)
      (negotiator-process_command_off grow net s i c e.command e.option refused h)

negotiator-process_subnegotiation :
    (c : Conn) (option : ℕ) (payload : Bytes)
    → (process_subnegotiation c option payload).negotiator ≡ c.negotiator
unfolding process_subnegotiation handle_subnegotiation handle_terminal_type handle_naws push_event
negotiator-process_subnegotiation c option payload = ground arith

negotiator-process_subnegotiations :
    (p : Parser) (es : List SubnegotiationEvent) (c : Conn)
    → (process_subnegotiations c p es).negotiator ≡ c.negotiator
unfolding process_subnegotiations
negotiator-process_subnegotiations p [] c = refl
negotiator-process_subnegotiations p (e ∷ es) c =
    negotiator-process_subnegotiations p es _ ∙ negotiator-process_subnegotiation c e.option _

-- Whatever the peer sends, a side of an option that is off stays off if it is not allowed to the
-- peer: our side where the configuration does not enable the option, the peer's where the option
-- is unknown.
pub process_read-refuses :
    (grow : Growth) (net : Socket) (s : Side) (i : ℕ) (c : Conn) (input : Bytes)
    → allowed c.config s i ≡ false
    → side s (get c.negotiator i) ≡ disabled
    → side s (get (process_read grow net c input).negotiator i) ≡ disabled
unfolding process_read
process_read-refuses grow net s i c input refused h =
    let (p', r) = parse grow c.parser input in
    let stored = record c { parser = p'; read_buf = write_data input r.data_events c.read_buf } in
    ap (λ n. side s (get n i))
      (negotiator-process_subnegotiations p' r.sn_events
        (process_commands grow net stored r.command_events))
    ∙ process_commands_off grow net s i r.command_events stored refused h
