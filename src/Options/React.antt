-- ===== src/Options/React.antt =====
-- A negotiator seen from one side of one option: a state, and the signals that two ends exchange.
use telnetty.Base.{ℕ, ◌≡◌, refl, sym, ap, ap₂, ◌==◌, if◌then◌else◌}
use telnetty.Options.Sides.{Side, us, him, side, other, positive, negative, set_side, set_side_same}
use telnetty.Options.{
  OptionState, disabled, enabled, want_no, want_yes, want_no_opp, want_yes_opp, Negotiator, get,
  handle, do_verdict, dont_verdict, will_verdict, wont_verdict,
}

pub data Signal : Type 0 where
  none_sent on off : Signal

-- The command that an end reads about its side.
abbrev pub code : Side → Signal → ℕ
code s none_sent = 0
code s on = positive s
code s off = negative s

abbrev pub react : Signal → OptionState → Signal × OptionState
react on disabled = (on, enabled)
react on want_no = (off, disabled)
react on want_yes = (none_sent, enabled)
react off enabled = (off, disabled)
react off want_no = (none_sent, disabled)
react off want_yes = (none_sent, disabled)
react _ x = (none_sent, x)

-- What an end does with the command 0, none, and with a command of the peer.
abbrev pub deliver : Negotiator → ℕ → ℕ → ℕ × Negotiator
deliver n command option =
    if command == 0
    then (0, n)
    else let (response, changed, n') = handle n command option in (response, n')

will_verdict-react :
    (x : OptionState)
    → (will_verdict x).0 ≡ code us (react on x).0 × (will_verdict x).2 ≡ (react on x).1
unfolding will_verdict
will_verdict-react disabled = (refl, refl)
will_verdict-react enabled = (refl, refl)
will_verdict-react want_no = (refl, refl)
will_verdict-react want_yes = (refl, refl)
will_verdict-react want_no_opp = (refl, refl)
will_verdict-react want_yes_opp = (refl, refl)

wont_verdict-react :
    (x : OptionState)
    → (wont_verdict x).0 ≡ code us (react off x).0 × (wont_verdict x).2 ≡ (react off x).1
unfolding wont_verdict
wont_verdict-react disabled = (refl, refl)
wont_verdict-react enabled = (refl, refl)
wont_verdict-react want_no = (refl, refl)
wont_verdict-react want_yes = (refl, refl)
wont_verdict-react want_no_opp = (refl, refl)
wont_verdict-react want_yes_opp = (refl, refl)

do_verdict-react :
    (x : OptionState)
    → (do_verdict x).0 ≡ code him (react on x).0 × (do_verdict x).2 ≡ (react on x).1
unfolding do_verdict
do_verdict-react disabled = (refl, refl)
do_verdict-react enabled = (refl, refl)
do_verdict-react want_no = (refl, refl)
do_verdict-react want_yes = (refl, refl)
do_verdict-react want_no_opp = (refl, refl)
do_verdict-react want_yes_opp = (refl, refl)

dont_verdict-react :
    (x : OptionState)
    → (dont_verdict x).0 ≡ code him (react off x).0 × (dont_verdict x).2 ≡ (react off x).1
unfolding dont_verdict
dont_verdict-react disabled = (refl, refl)
dont_verdict-react enabled = (refl, refl)
dont_verdict-react want_no = (refl, refl)
dont_verdict-react want_yes = (refl, refl)
dont_verdict-react want_no_opp = (refl, refl)
dont_verdict-react want_yes_opp = (refl, refl)

-- A handler computes what the side reacts, and sets that side.
pub deliver-react :
    (n : Negotiator) (option : ℕ) (s : Side) (m : Signal)
    → deliver n (code s m) option ≡ (
      code (other s) (react m (side s (get n option))).0,
      set_side n option s (react m (side s (get n option))).1,
    )
unfolding handle
deliver-react n option s none_sent = ap (λ k. (0, k)) (sym (set_side_same n option s _ refl))
deliver-react n option us on =
    let (p, q) = do_verdict-react (get n option).us in ap₂ (λ r x. (r, set_side n option us x)) p q
deliver-react n option us off =
    let (p, q) = dont_verdict-react (get n option).us in
    ap₂ (λ r x. (r, set_side n option us x)) p q
deliver-react n option him on =
    let (p, q) = will_verdict-react (get n option).him in
    ap₂ (λ r x. (r, set_side n option him x)) p q
deliver-react n option him off =
    let (p, q) = wont_verdict-react (get n option).him in
    ap₂ (λ r x. (r, set_side n option him x)) p q
