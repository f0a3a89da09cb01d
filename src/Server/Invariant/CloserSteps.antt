-- ===== src/Server/Invariant/CloserSteps.antt =====
-- server.go: the steps of `Close` and `Shutdown` and the invariant.
use telnetty.Base.{ℕ, ◌+◌, ◌≤◌, ◌≡◌, refl, true, List, arith, length, get_or}
use telnetty.Conn.Output.{u64}
use telnetty.Base.Words.{u32}
use telnetty.Server.{Server, Loop, Handler, finished, Closer}
use telnetty.Server.Sums.{sum}
use telnetty.Server.Steps.{CloserStep, win, signal, shut_all, finish}
use telnetty.Server.Invariant.{
  Inv, loop_holds, holds, loop_accepted, loop_active, active, over, is_listed, loop_ended, has_won,
  has_signalled, has_finished,
}

CloserStep-counts :
    {m m' : Server} {p : Loop} {hs : List Handler} {c c' : Closer}
    → Inv m p hs c
    → CloserStep m c m' c'
    → record {
      tokens_are : m'.tokens ≡ loop_holds p + sum holds hs;
      tokens_le : m'.tokens ≤ m'.accept_limit;
      accepted_are : m'.conns_accepted ≡ u64 (length hs + loop_accepted p);
      closed_are : m'.conns_closed ≡ u64 (sum over hs);
      active_are : m'.conns_active ≡ u32 (sum active hs + loop_active p);
      listed : (i : ℕ) → m'.conns i ≡ is_listed (get_or hs i finished);
      done_are : m'.close_done ≡ loop_ended p;
    }
CloserStep-counts inv shut_all = record {
  tokens_are = inv.tokens_are;
  tokens_le = inv.tokens_le;
  accepted_are = inv.accepted_are;
  closed_are = inv.closed_are;
  active_are = inv.active_are;
  listed = inv.listed;
  done_are = inv.done_are;
}
CloserStep-counts inv mv = record {
  tokens_are = inv.tokens_are;
  tokens_le = inv.tokens_le;
  accepted_are = inv.accepted_are;
  closed_are = inv.closed_are;
  active_are = inv.active_are;
  listed = inv.listed;
  done_are = inv.done_are;
}

CloserStep-flags :
    {m m' : Server} {p : Loop} {hs : List Handler} {c c' : Closer}
    → Inv m p hs c
    → CloserStep m c m' c'
    → record {
      closed_is : m'.closed ≡ has_won c';
      closing_is : m'.closing ≡ has_signalled c';
      ends : loop_ended p ≡ 1 → m'.closed ≡ true;
      waits : has_finished c' ≤ m'.close_done;
    }
CloserStep-flags inv (win h) = record {
  closed_is = refl;
  closing_is = inv.closing_is;
  ends = λ _. refl;
  waits = inv.waits;
}
CloserStep-flags inv (finish h) = record {
  closed_is = inv.closed_is;
  closing_is = inv.closing_is;
  ends = inv.ends;
  waits = omega arith;
}
CloserStep-flags inv signal = record {
  closed_is = inv.closed_is;
  closing_is = refl;
  ends = inv.ends;
  waits = inv.waits;
}
CloserStep-flags inv mv = record {
  closed_is = inv.closed_is;
  closing_is = inv.closing_is;
  ends = inv.ends;
  waits = inv.waits;
}

pub CloserStep-Inv :
    {m m' : Server} {p : Loop} {hs : List Handler} {c c' : Closer}
    → Inv m p hs c
    → CloserStep m c m' c'
    → Inv m' p hs c'
CloserStep-Inv inv mv =
    let counts = CloserStep-counts inv mv in
    let flags = CloserStep-flags inv mv in
    record {
      tokens_are = counts.tokens_are;
      tokens_le = counts.tokens_le;
      accepted_are = counts.accepted_are;
      closed_are = counts.closed_are;
      active_are = counts.active_are;
      listed = counts.listed;
      closed_is = flags.closed_is;
      closing_is = flags.closing_is;
      done_are = counts.done_are;
      ends = flags.ends;
      waits = flags.waits;
    }
