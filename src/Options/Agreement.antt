-- ===== src/Options/Agreement.antt =====
-- options.go: two ends that agree about an option, and the request of one, or of both at once.
use telnetty.Base.{ℕ, ◌<◌, ◌≡◌, refl, sym, ap, ◌∙◌, Bool, true, false, arith, length}
use telnetty.Options.Handshake.{exchange, exchange-talk, talk, reader}
use telnetty.Options.React.{deliver-react, deliver, react, Signal, none_sent, on, off, code}
use telnetty.Options.Sides.{
  Side, us, him, side, other, set_side, set_side_self, set_side_same, length-set_side,
}
use telnetty.Options.{
  OptionState, disabled, enabled, want_no, want_yes, Negotiator, get, request_enable,
  request_disable, request_peer_enable, request_peer_disable,
}

-- An end asks to turn a side of it on or off.
abbrev pub ask : Side → Bool → Negotiator → ℕ → ℕ × Negotiator
ask us true n option = request_enable n option
ask us false n option = request_disable n option
ask him true n option = request_peer_enable n option
ask him false n option = request_peer_disable n option

-- The states of a side that no negotiation is under way for.
abbrev pub settled : Bool → OptionState
settled true = enabled
settled false = disabled

-- What an end sends when it asks, seen from its side.
abbrev wish : Bool → OptionState → Signal × OptionState
wish true disabled = (on, want_yes)
wish false enabled = (off, want_no)
wish _ x = (none_sent, x)

ask-wish :
    (s : Side) (want now : Bool) (n : Negotiator) (option : ℕ)
    → side s (get n option) ≡ settled now
    → ask s want n option ≡ (
      code (other s) (wish want (settled now)).0,
      set_side n option s (wish want (settled now)).1,
    )
unfolding request_enable request_disable request_peer_enable request_peer_disable
ask-wish us true true n option e =
    rw (e, request_enable) (ap (λ k. (0, k)) (sym (set_side_same n option us _ (sym e))))
ask-wish us true false n option e = rw (e, request_enable) refl
ask-wish us false true n option e = rw (e, request_disable) refl
ask-wish us false false n option e =
    rw (e, request_disable) (ap (λ k. (0, k)) (sym (set_side_same n option us _ (sym e))))
ask-wish him true true n option e =
    rw (e, request_peer_enable) (ap (λ k. (0, k)) (sym (set_side_same n option him _ (sym e))))
ask-wish him true false n option e = rw (e, request_peer_enable) refl
ask-wish him false true n option e = rw (e, request_peer_disable) refl
ask-wish him false false n option e =
    rw (e, request_peer_disable) (ap (λ k. (0, k)) (sym (set_side_same n option him _ (sym e))))

talk-settled :
    (want now : Bool)
    → talk 3 (wish want (settled now)).1 (settled now) (wish want (settled now)).0
      ≡ (none_sent, settled want, settled want)
talk-settled true true = refl
talk-settled true false = refl
talk-settled false true = refl
talk-settled false false = refl

-- Where two ends agree about a side, the request of one, whatever it wants, leads to agreement on
-- what it wants, and three messages at most are sent.
pub ask-settles :
    (option : ℕ) (s : Side) (want now : Bool) (a b : Negotiator)
    → option < length a
    → option < length b
    → side s (get a option) ≡ settled now
    → side (other s) (get b option) ≡ settled now
    → let (command, a1) = ask s want a option in
      let (rest, a', b') = exchange 3 option a1 b command in
      (rest ≡ 0)
      × (side s (get a' option) ≡ settled want)
      × (side (other s) (get b' option) ≡ settled want)
ask-settles option s want now a b ha hb ea eb =
    let (m, x) = wish want (settled now) in
    let a1 = set_side a option s x in
    let ha1 : option < length a1 = omega (arith, length-set_side a option s x) in
    let (p, q, r) =
      exchange-talk 3 option s a1 b x (settled now) m ha1 hb (set_side_self a option ha s x)
        (sym eb) in
    let t = talk-settled want now in
    rw (ask-wish s want now a option ea) (
      p ∙ ap (λ u. code (reader 3 s) u.0) t,
      ap (λ n. side s (get n option)) q ∙ sym (set_side_self a1 option ha1 s _) ∙ ap (λ u. u.1) t,
      ap (λ n. side (other s) (get n option)) r
          ∙ sym (set_side_self b option hb (other s) _)
          ∙ ap (λ u. u.2) t,
    )

wish-crossed :
    (want now : Bool)
    → react (wish want (settled now)).0 (wish want (settled now)).1 ≡ (none_sent, settled want)
wish-crossed true true = refl
wish-crossed true false = refl
wish-crossed false true = refl
wish-crossed false false = refl

-- An end asks, and then reads a request of the peer.
crossed :
    (n : Negotiator) (option : ℕ) (s : Side) (want now : Bool)
    → option < length n
    → side s (get n option) ≡ settled now
    → let (m, x) = wish want (settled now) in
      let (response, n') = deliver (ask s want n option).1 (code s m) option in
      (response ≡ 0) × (side s (get n' option) ≡ settled want)
crossed n option s want now h e =
    let (m, x) = wish want (settled now) in
    let n1 = set_side n option s x in
    let h1 : option < length n1 = omega (arith, length-set_side n option s x) in
    let i : react m (side s (get n1 option)) ≡ (none_sent, settled want) =
      rw (sym (set_side_self n option h s x)) (wish-crossed want now) in
    rw (ask-wish s want now n option e) (
      rw (deliver-react n1 option s m)
        (ap (λ u. code (other s) u.0) i, sym (set_side_self n1 option h1 s _) ∙ ap (λ u. u.1) i))

-- Where two ends agree about a side and both ask for the same at once, the requests cross: each end
-- takes the other's for the answer and sends no more, and both are where they want to be.
pub ask-crosses :
    (option : ℕ) (s : Side) (want now : Bool) (a b : Negotiator)
    → option < length a
    → option < length b
    → side s (get a option) ≡ settled now
    → side (other s) (get b option) ≡ settled now
    → let (from_a, a1) = ask s want a option in
      let (from_b, b1) = ask (other s) want b option in
      let (response_a, a') = deliver a1 from_b option in
      let (response_b, b') = deliver b1 from_a option in
      (response_a ≡ 0)
      × (response_b ≡ 0)
      × (side s (get a' option) ≡ settled want)
      × (side (other s) (get b' option) ≡ settled want)
ask-crosses option us want now a b ha hb ea eb =
    let from_a = ap (λ r. r.0) (ask-wish us want now a option ea) in
    let from_b = ap (λ r. r.0) (ask-wish him want now b option eb) in
    let (p, q) = crossed a option us want now ha ea in
    let (p', q') = crossed b option him want now hb eb in
    (rw from_b p, rw from_a p', rw from_b q, rw from_a q')
ask-crosses option him want now a b ha hb ea eb =
    let from_a = ap (λ r. r.0) (ask-wish him want now a option ea) in
    let from_b = ap (λ r. r.0) (ask-wish us want now b option eb) in
    let (p, q) = crossed a option him want now ha ea in
    let (p', q') = crossed b option us want now hb eb in
    (rw from_b p, rw from_a p', rw from_b q, rw from_a q')
