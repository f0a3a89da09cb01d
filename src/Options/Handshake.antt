-- ===== src/Options/Handshake.antt =====
-- options.go: two ends that exchange the commands about one side of an option.
use telnetty.Base.{ℕ, zero, suc, ◌<◌, ◌≡◌, refl, sym, ap, ◌∙◌, arith, length}
use telnetty.Options.React.{
  none_sent, on, off, none_sent, Signal, code, react, deliver, deliver-react,
}
use telnetty.Options.Sides.{
  Side, us, him, side, other, set_side, set_side_self, set_side_same, set_side_twice,
  length-set_side,
}
use telnetty.Options.{OptionState, Negotiator, get}

-- `command` goes to `b`, its answer to `a`, and so on, `fuel` messages in all; the first component of
-- the result is the message still under way.
abbrev pub exchange : ℕ → ℕ → Negotiator → Negotiator → ℕ → ℕ × Negotiator × Negotiator
exchange zero option a b command = (command, a, b)
exchange (suc fuel) option a b command =
    let (response, b') = deliver b command option in
    let (rest, b'', a') = exchange fuel option b' a response in (rest, a', b'')

-- The same on the states of the two sides.
abbrev pub talk : ℕ → OptionState → OptionState → Signal → Signal × OptionState × OptionState
talk zero x y m = (m, x, y)
talk (suc fuel) x y m =
    let (m', y') = react m y in let (rest, y'', x') = talk fuel y' x m' in (rest, x', y'')

-- Who reads the message under way.
abbrev pub reader : ℕ → Side → Side
reader zero s = other s
reader (suc fuel) s = reader fuel (other s)

pub exchange-talk :
    (fuel option : ℕ) (s : Side) (a b : Negotiator) (x y : OptionState) (m : Signal)
    → option < length a
    → option < length b
    → x ≡ side s (get a option)
    → y ≡ side (other s) (get b option)
    → let (rest, a', b') = exchange fuel option a b (code (other s) m) in
      let (m', x', y') = talk fuel x y m in
      (rest ≡ code (reader fuel s) m')
      × (a' ≡ set_side a option s x')
      × (b' ≡ set_side b option (other s) y')
exchange-talk zero option s a b x y m ha hb ex ey =
    (refl, sym (set_side_same a option s _ ex), sym (set_side_same b option (other s) _ ey))
exchange-talk (suc fuel) option us a b x y m ha hb ex ey =
    let y' = (react m y).1 in
    let b' = set_side b option him y' in
    let hb' : option < length b' = omega (arith, length-set_side b option him y') in
    let (p, q, r) =
      exchange-talk fuel option him b' a y' x (react m y).0 hb' ha
        (set_side_self b option hb him y') ex in
    rw (deliver-react b option him m) (rw (sym ey) (p, r, q ∙ set_side_twice b option hb him y' _))
exchange-talk (suc fuel) option him a b x y m ha hb ex ey =
    let y' = (react m y).1 in
    let b' = set_side b option us y' in
    let hb' : option < length b' = omega (arith, length-set_side b option us y') in
    let (p, q, r) =
      exchange-talk fuel option us b' a y' x (react m y).0 hb' ha (set_side_self b option hb us y')
        ex in
    rw (deliver-react b option us m) (rw (sym ey) (p, r, q ∙ set_side_twice b option hb us y' _))

talk-silent : (m : Signal) (x y : OptionState) → (talk 4 x y m).0 ≡ none_sent
talk-silent none_sent x y = refl
talk-silent on x y = ground arith
talk-silent off x y = ground arith

-- Negotiation never loops: whatever the states of the two ends of an option that both have, a
-- command about it is followed by three answers at most.
pub exchange-ends :
    (option : ℕ) (s : Side) (a b : Negotiator) (m : Signal)
    → option < length a
    → option < length b
    → (exchange 4 option a b (code (other s) m)).0 ≡ 0
exchange-ends option s a b m ha hb =
    let (p, q, r) = exchange-talk 4 option s a b _ _ m ha hb refl refl in
    p ∙ ap (code (reader 4 s)) (talk-silent m _ _)
