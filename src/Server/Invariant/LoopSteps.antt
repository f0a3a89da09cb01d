-- ===== src/Server/Invariant/LoopSteps.antt =====
-- server.go: the steps of `Serve` and the invariant.
use telnetty.Base.{
  ℕ, zero, suc, ◌+◌, ◌≤◌, ◌<◌, ◌≡◌, refl, sym, true, List, [], ◌∷◌, ◌++◌, arith, length, get_or,
  ◌∙◌, length-append,
}
use telnetty.Conn.Output.{u64}
use telnetty.Base.Words.{u32}
use telnetty.Server.{Server, Loop, top, counted_active, Handler, started, finished, Closer}
use telnetty.Server.Sums.{sum, sum-append_one}
use telnetty.Server.Steps.{
  LoopStep, stop, acquire, stop_waiting, accept_fails, give_back, stop_refused,
}
use telnetty.Server.Invariant.{
  closing-closed, Inv, loop_holds, holds, loop_accepted, loop_active, active, over, is_listed,
  loop_ended, has_won, has_signalled, has_finished,
}

-- The premise of a step, for the catch-all clauses below, which cannot name it.
abbrev Premise : {m m' : Server} {p p' : Loop} → LoopStep m p m' p' → Type 0
Premise {m} (stop _) = m.closing ≡ true
Premise {m} (acquire _) = m.tokens < m.accept_limit
Premise {m} (stop_waiting _) = m.closing ≡ true
Premise {m} (stop_refused _) = m.closed ≡ true
Premise {m} (give_back _) = 0 < m.tokens
Premise _ = Unit

premise : {m m' : Server} {p p' : Loop} (mv : LoopStep m p m' p') → Premise mv
premise (stop h) = h
premise (acquire h) = h
premise (stop_waiting h) = h
premise (stop_refused h) = h
premise (give_back h) = h
premise _ = tt

LoopStep-counts :
    {m m' : Server} {p p' : Loop} {hs : List Handler} {c : Closer}
    → Inv m p hs c
    → LoopStep m p m' p'
    → record {
      tokens_are : m'.tokens ≡ loop_holds p' + sum holds hs;
      tokens_le : m'.tokens ≤ m'.accept_limit;
      accepted_are : m'.conns_accepted ≡ u64 (length hs + loop_accepted p');
      active_are : m'.conns_active ≡ u32 (sum active hs + loop_active p');
      done_are : m'.close_done ≡ loop_ended p';
    }
LoopStep-counts inv accept_fails = record {
  tokens_are = inv.tokens_are;
  tokens_le = inv.tokens_le;
  accepted_are = inv.accepted_are;
  active_are = inv.active_are;
  done_are = inv.done_are;
}
LoopStep-counts {hs = hs} inv mv = record {
  tokens_are = ground (arith, inv.tokens_are, premise mv);
  tokens_le = ground (arith, inv.tokens_le, premise mv);
  accepted_are = omega (arith, inv.accepted_are);
  active_are = omega (arith, inv.active_are);
  done_are = omega (arith, inv.done_are);
}

-- The loop writes neither the flags nor the list of connections.
LoopStep-flags :
    {m m' : Server} {p p' : Loop} {hs : List Handler} {c : Closer}
    → Inv m p hs c
    → LoopStep m p m' p'
    → record {
      closed_are : m'.conns_closed ≡ u64 (sum over hs);
      listed : (i : ℕ) → m'.conns i ≡ is_listed (get_or hs i finished);
      closed_is : m'.closed ≡ has_won c;
      closing_is : m'.closing ≡ has_signalled c;
      ends : loop_ended p' ≡ 1 → m'.closed ≡ true;
      waits : has_finished c ≤ m'.close_done;
    }
LoopStep-flags inv accept_fails = record {
  closed_are = inv.closed_are;
  listed = inv.listed;
  closed_is = inv.closed_is;
  closing_is = inv.closing_is;
  ends = inv.ends;
  waits = inv.waits;
}
LoopStep-flags inv mv = record {
  closed_are = inv.closed_are;
  listed = inv.listed;
  closed_is = inv.closed_is;
  closing_is = inv.closing_is;
  ends = ground (arith, premise mv, closing-closed inv);
  waits = omega (arith, inv.waits);
}

pub LoopStep-Inv :
    {m m' : Server} {p p' : Loop} {hs : List Handler} {c : Closer}
    → Inv m p hs c
    → LoopStep m p m' p'
    → Inv m' p' hs c
LoopStep-Inv inv mv =
    let counts = LoopStep-counts inv mv in
    let flags = LoopStep-flags inv mv in
    record {
      tokens_are = counts.tokens_are;
      tokens_le = counts.tokens_le;
      accepted_are = counts.accepted_are;
      closed_are = flags.closed_are;
      active_are = counts.active_are;
      listed = flags.listed;
      closed_is = flags.closed_is;
      closing_is = flags.closing_is;
      done_are = counts.done_are;
      ends = flags.ends;
      waits = flags.waits;
    }

is_listed-append :
    (hs : List Handler) (i : ℕ)
    → is_listed (get_or (hs ++ started ∷ []) i finished) ≡ is_listed (get_or hs i finished)
is_listed-append [] zero = refl
is_listed-append [] (suc i) = refl
is_listed-append (h ∷ hs) zero = refl
is_listed-append (h ∷ hs) (suc i) = is_listed-append hs i

pub spawn-Inv :
    {m : Server} {hs : List Handler} {c : Closer}
    → Inv m counted_active hs c
    → Inv m top (hs ++ started ∷ []) c
spawn-Inv {hs = hs} inv = record {
  tokens_are = omega (arith, inv.tokens_are, sum-append_one holds hs started);
  tokens_le = inv.tokens_le;
  accepted_are = omega (arith, inv.accepted_are, length-append hs (started ∷ []));
  closed_are = omega (arith, inv.closed_are, sum-append_one over hs started);
  active_are = omega (arith, inv.active_are, sum-append_one active hs started);
  listed = λ i. inv.listed i ∙ sym (is_listed-append hs i);
  closed_is = inv.closed_is;
  closing_is = inv.closing_is;
  done_are = inv.done_are;
  ends = inv.ends;
  waits = inv.waits;
}
