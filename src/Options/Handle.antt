-- ===== src/Options/Handle.antt =====
-- `Handle` against the table of RFC 1143, and what it leaves alone.
use telnetty.Base.{
  ℕ, ◌<◌, ◌≡◌, refl, ap, ◌≢◌, ◌↔◌, inl, inr, Bool, true, false, arith, ◌==◌, ==_iff, Bool-cases,
  length, length-set, by_if,
}
use telnetty.Cmd
use telnetty.Options.Table.{conflict, InUse, on_positive, on_negative}
use telnetty.Options.{handle_dont, handle_do, handle_wont, handle_will, Negotiator, get, handle}
use telnetty.Options.Sides.{Side, us, him, side, positive, negative, answer}
use telnetty.Options.Sides.{get-set, set_side_changes, set_side_elsewhere, set_side-other}
use telnetty.Options.Verdicts.{
  dont_verdict-changed, do_verdict-changed, wont_verdict-on_negative, wont_verdict-changed,
  will_verdict-on_positive, will_verdict-changed, dont_verdict-on_negative, do_verdict-on_positive,
}

-- The handler that a command picks.
pub handle-by_command :
    (P : ℕ × Bool × Negotiator → Type 0) (n : Negotiator) (command option : ℕ)
    → (command ≡ positive him → P (handle_will n option))
    → (command ≡ negative him → P (handle_wont n option))
    → (command ≡ positive us → P (handle_do n option))
    → (command ≡ negative us → P (handle_dont n option))
    → P (0, false, n)
    → P (handle n command option)
unfolding handle
handle-by_command P n command option a b c d e =
    by_if P (command == Cmd.will) (λ h. a ((==_iff command Cmd.will).0 h))
      (λ _.
        by_if P (command == Cmd.wont) (λ h. b ((==_iff command Cmd.wont).0 h))
          (λ _.
            by_if P (command == Cmd.do_cmd) (λ h. c ((==_iff command Cmd.do_cmd).0 h))
              (λ _.
                by_if P (command == Cmd.dont) (λ h. d ((==_iff command Cmd.dont).0 h)) (λ _. e))))

module _ (n : Negotiator) (option : ℕ) (valid : option < length n) where
  -- A positive command about an option in range and a state that the program sets is handled as in
  -- RFC 1143, the new state and the answer, except in `want_no`, where the answer is a refusal and
  -- the RFC has none.
  pub handle-positive :
      (s : Side)
      → InUse (side s (get n option))
      → let before = side s (get n option) in
        let (reply, after) = on_positive before in
        let (response, changed, n') = handle n (positive s) option in
        (side s (get n' option) ≡ after) × (response ≡ answer s (conflict before reply))
  unfolding handle
  handle-positive us u = rw (get-set n option valid _) (do_verdict-on_positive (get n option).us u)
  handle-positive him u =
      rw (get-set n option valid _) (will_verdict-on_positive (get n option).him u)

  -- A negative command about an option in range and a state that the program sets is handled as in
  -- RFC 1143, the new state and the answer.
  pub handle-negative :
      (s : Side)
      → InUse (side s (get n option))
      → let before = side s (get n option) in
        let (reply, after) = on_negative before in
        let (response, changed, n') = handle n (negative s) option in
        (side s (get n' option) ≡ after) × (response ≡ answer s reply)
  unfolding handle
  handle-negative us u =
      rw (get-set n option valid _) (dont_verdict-on_negative (get n option).us u)
  handle-negative him u =
      rw (get-set n option valid _) (wont_verdict-on_negative (get n option).him u)

  -- A command about an option in range and a state that the program sets is handled as in RFC 1143,
  -- the new state and the answer, except for a positive command in `want_no`, where the answer is a
  -- refusal and the RFC has none.
  pub handle-table :
      (s : Side)
      → InUse (side s (get n option))
      → let before = side s (get n option) in
        let (reply, after) = on_positive before in
        let (reply', after') = on_negative before in
        let (response, changed, n') = handle n (positive s) option in
        let (response', changed', n'') = handle n (negative s) option in
        (side s (get n' option) ≡ after)
        × (response ≡ answer s (conflict before reply))
        × (side s (get n'' option) ≡ after')
        × (response' ≡ answer s reply')
  handle-table s u =
      let (up, answered) = handle-positive s u in
      let (down, refused) = handle-negative s u in (up, answered, down, refused)

  -- The flag of `Handle` tells whether the negotiator changed.
  pub handle-changed :
      (command : ℕ)
      → let (response, changed, n') = handle n command option in (changed ≡ true) ↔ (n' ≢ n)
  unfolding handle
  handle-changed command =
      handle-by_command (λ r. (r.1 ≡ true) ↔ (r.2 ≢ n)) n command option
        (λ _. set_side_changes n option valid him _ _ (will_verdict-changed (get n option).him))
        (λ _. set_side_changes n option valid him _ _ (wont_verdict-changed (get n option).him))
        (λ _. set_side_changes n option valid us _ _ (do_verdict-changed (get n option).us))
        (λ _. set_side_changes n option valid us _ _ (dont_verdict-changed (get n option).us))
        (ground arith)

  handle-length : (command : ℕ) → length (handle n command option).2 ≡ length n
  unfolding handle_will handle_wont handle_do handle_dont
  handle-length command =
      handle-by_command (λ r. length r.2 ≡ length n) n command option (λ _. length-set n option _)
        (λ _. length-set n option _) (λ _. length-set n option _) (λ _. length-set n option _) refl

  handle-elsewhere : (command i : ℕ) → i ≢ option → get (handle n command option).2 i ≡ get n i
  unfolding handle_will handle_wont handle_do handle_dont
  handle-elsewhere command i h =
      handle-by_command (λ r. get r.2 i ≡ get n i) n command option
        (λ _. set_side_elsewhere n option valid him _ i h)
        (λ _. set_side_elsewhere n option valid him _ i h)
        (λ _. set_side_elsewhere n option valid us _ i h)
        (λ _. set_side_elsewhere n option valid us _ i h) refl

  handle-other_side :
      (command : ℕ) (s : Side)
      → command ≢ positive s
      → command ≢ negative s
      → side s (get (handle n command option).2 option) ≡ side s (get n option)
  unfolding handle_will handle_wont handle_do handle_dont
  handle-other_side command us p q =
      handle-by_command (λ r. (get r.2 option).us ≡ (get n option).us) n command option
        (λ _. set_side-other n option valid him _) (λ _. set_side-other n option valid him _)
        (λ e. absurd (p e)) (λ e. absurd (q e)) refl
  handle-other_side command him p q =
      handle-by_command (λ r. (get r.2 option).him ≡ (get n option).him) n command option
        (λ e. absurd (p e)) (λ e. absurd (q e)) (λ _. set_side-other n option valid us _)
        (λ _. set_side-other n option valid us _) refl

  -- `Handle` of an option in range keeps the number of options, and changes no side of an option
  -- but the one that the command speaks of: not of another option, and not the other side of its
  -- own.
  pub handle-others :
      (command i : ℕ) (t : Side)
      → (i ≡ option → (command ≢ positive t) × (command ≢ negative t))
      → let n' = (handle n command option).2 in
        (length n' ≡ length n) × (side t (get n' i) ≡ side t (get n i))
  handle-others command i t untouched = elim (Bool-cases (i == option)) [
    | inl same ↦
        let e = (==_iff i option).0 same in
        let (p, q) = untouched e in (handle-length command, rw e (handle-other_side command t p q))
    | inr not_same ↦
        let ne : i ≢ option = ground arith in
        (handle-length command, ap (side t) (handle-elsewhere command i ne))
  ]
