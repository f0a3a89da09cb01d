-- ===== src/Options/Verdicts.antt =====
-- The verdicts of the four handlers against the table of RFC 1143.
use telnetty.Base.{◌≡◌, refl, ◌≢◌, ◌↔◌, true, arith}
use telnetty.Options.Table.{conflict, InUse, on_positive, on_negative}
use telnetty.Options.{
  do_verdict, will_verdict, dont_verdict, wont_verdict, OptionState, disabled, enabled, want_no,
  want_yes, want_no_opp, want_yes_opp,
}
use telnetty.Options.Sides.{us, him, answer}

-- The verdicts, state by state.
pub do_verdict-on_positive :
    (s : OptionState)
    → InUse s
    → let (reply, after) = on_positive s in
      let (response, changed, s') = do_verdict s in
      (s' ≡ after) × (response ≡ answer us (conflict s reply))
unfolding do_verdict
do_verdict-on_positive disabled u = (refl, refl)
do_verdict-on_positive enabled u = (refl, refl)
do_verdict-on_positive want_no u = (refl, refl)
do_verdict-on_positive want_yes u = (refl, refl)
do_verdict-on_positive want_no_opp u = elim u [ ]
do_verdict-on_positive want_yes_opp u = elim u [ ]

pub will_verdict-on_positive :
    (s : OptionState)
    → InUse s
    → let (reply, after) = on_positive s in
      let (response, changed, s') = will_verdict s in
      (s' ≡ after) × (response ≡ answer him (conflict s reply))
unfolding will_verdict
will_verdict-on_positive disabled u = (refl, refl)
will_verdict-on_positive enabled u = (refl, refl)
will_verdict-on_positive want_no u = (refl, refl)
will_verdict-on_positive want_yes u = (refl, refl)
will_verdict-on_positive want_no_opp u = elim u [ ]
will_verdict-on_positive want_yes_opp u = elim u [ ]

pub dont_verdict-on_negative :
    (s : OptionState)
    → InUse s
    → let (reply, after) = on_negative s in
      let (response, changed, s') = dont_verdict s in (s' ≡ after) × (response ≡ answer us reply)
unfolding dont_verdict
dont_verdict-on_negative disabled u = (refl, refl)
dont_verdict-on_negative enabled u = (refl, refl)
dont_verdict-on_negative want_no u = (refl, refl)
dont_verdict-on_negative want_yes u = (refl, refl)
dont_verdict-on_negative want_no_opp u = elim u [ ]
dont_verdict-on_negative want_yes_opp u = elim u [ ]

pub wont_verdict-on_negative :
    (s : OptionState)
    → InUse s
    → let (reply, after) = on_negative s in
      let (response, changed, s') = wont_verdict s in (s' ≡ after) × (response ≡ answer him reply)
unfolding wont_verdict
wont_verdict-on_negative disabled u = (refl, refl)
wont_verdict-on_negative enabled u = (refl, refl)
wont_verdict-on_negative want_no u = (refl, refl)
wont_verdict-on_negative want_yes u = (refl, refl)
wont_verdict-on_negative want_no_opp u = elim u [ ]
wont_verdict-on_negative want_yes_opp u = elim u [ ]

-- The flag of a verdict, state by state.
pub will_verdict-changed :
    (s : OptionState) → let (response, changed, s') = will_verdict s in (changed ≡ true) ↔ (s' ≢ s)
unfolding will_verdict
will_verdict-changed disabled = ground arith
will_verdict-changed enabled = ground arith
will_verdict-changed want_no = ground arith
will_verdict-changed want_yes = ground arith
will_verdict-changed want_no_opp = ground arith
will_verdict-changed want_yes_opp = ground arith

pub wont_verdict-changed :
    (s : OptionState) → let (response, changed, s') = wont_verdict s in (changed ≡ true) ↔ (s' ≢ s)
unfolding wont_verdict
wont_verdict-changed disabled = ground arith
wont_verdict-changed enabled = ground arith
wont_verdict-changed want_no = ground arith
wont_verdict-changed want_yes = ground arith
wont_verdict-changed want_no_opp = ground arith
wont_verdict-changed want_yes_opp = ground arith

pub do_verdict-changed :
    (s : OptionState) → let (response, changed, s') = do_verdict s in (changed ≡ true) ↔ (s' ≢ s)
unfolding do_verdict
do_verdict-changed disabled = ground arith
do_verdict-changed enabled = ground arith
do_verdict-changed want_no = ground arith
do_verdict-changed want_yes = ground arith
do_verdict-changed want_no_opp = ground arith
do_verdict-changed want_yes_opp = ground arith

pub dont_verdict-changed :
    (s : OptionState) → let (response, changed, s') = dont_verdict s in (changed ≡ true) ↔ (s' ≢ s)
unfolding dont_verdict
dont_verdict-changed disabled = ground arith
dont_verdict-changed enabled = ground arith
dont_verdict-changed want_no = ground arith
dont_verdict-changed want_yes = ground arith
dont_verdict-changed want_no_opp = ground arith
dont_verdict-changed want_yes_opp = ground arith
