-- ===== src/Server/Invariant/HandlerSteps.antt =====
-- server.go: the steps of `handleConn` and the invariant.
use telnetty.Base.{
  ℕ, ◌+◌, ◌≤◌, ◌<◌, ◌≡◌, refl, sym, ap, List, arith, length, get_or, set, ◌∙◌, length-set,
  get_or-set_self, get_or-set_ne,
}
use telnetty.Conn.Output.{u64}
use telnetty.Base.Words.{u32}
use telnetty.Server.{Server, Loop, Handler, finished, Closer, update}
use telnetty.Server.Sums.{sum, sum-set}
use telnetty.Server.Steps.{HandlerStep, return_handler}
use native.Mathlib.Decide.{ℕ_discrete}
use telnetty.Server.Invariant.{
  Inv, loop_holds, holds, loop_accepted, loop_active, active, over, is_listed,
}

-- What the other fields of `Inv` need of a step of a `handleConn`.
HandlerStep-counts :
    {i : ℕ} {m m' : Server} {p : Loop} {hs : List Handler} {c : Closer} {h h' : Handler}
    → Inv m p hs c
    → i < length hs
    → get_or hs i finished ≡ h
    → HandlerStep i m h m' h'
    → record {
      tokens_are : m'.tokens ≡ loop_holds p + sum holds (set hs i h');
      tokens_le : m'.tokens ≤ m'.accept_limit;
      accepted_are : m'.conns_accepted ≡ u64 (length hs + loop_accepted p);
      closed_are : m'.conns_closed ≡ u64 (sum over (set hs i h'));
      active_are : m'.conns_active ≡ u32 (sum active (set hs i h') + loop_active p);
    }
HandlerStep-counts {i} {hs = hs} {h' = h'} inv lt e return_handler = record {
  tokens_are = ground (arith, inv.tokens_are, sum-set holds hs i h' finished lt);
  tokens_le = inv.tokens_le;
  accepted_are = inv.accepted_are;
  closed_are = ground (arith, inv.closed_are, sum-set over hs i h' finished lt);
  active_are = ground (arith, inv.active_are, sum-set active hs i h' finished lt);
}
HandlerStep-counts {i} {hs = hs} {h' = h'} inv lt e mv = record {
  tokens_are = ground (arith, inv.tokens_are, sum-set holds hs i h' finished lt);
  tokens_le = ground (arith, inv.tokens_le);
  accepted_are = inv.accepted_are;
  closed_are = ground (arith, inv.closed_are, sum-set over hs i h' finished lt);
  active_are = ground (arith, inv.active_are, sum-set active hs i h' finished lt);
}

HandlerStep-listed :
    {i : ℕ} {m m' : Server} (hs : List Handler) {h h' : Handler}
    → ((j : ℕ) → m.conns j ≡ is_listed (get_or hs j finished))
    → i < length hs
    → get_or hs i finished ≡ h
    → HandlerStep i m h m' h'
    → (j : ℕ) → m'.conns j ≡ is_listed (get_or (set hs i h') j finished)
unfolding update
HandlerStep-listed {i} hs {h' = h'} ih lt e return_handler j = elim (ℕ_discrete i j) [
  | yes same ↦ ground (arith, ih i, get_or-set_self hs i h' finished lt)
  | no other ↦ ground (arith, ih j, get_or-set_ne hs i j h' finished other)
]
HandlerStep-listed {i} hs {h' = h'} ih lt e mv j = elim (ℕ_discrete i j) [
  | yes same ↦ ground (arith, ih i, get_or-set_self hs i h' finished lt)
  | no other ↦ ground (arith, ih j, get_or-set_ne hs i j h' finished other)
]

HandlerStep-flags :
    {i : ℕ} {m m' : Server} {h h' : Handler}
    → HandlerStep i m h m' h'
    → (m'.closed ≡ m.closed) × (m'.closing ≡ m.closing) × (m'.close_done ≡ m.close_done)
HandlerStep-flags return_handler = (refl, refl, refl)
HandlerStep-flags mv = (refl, refl, refl)

pub HandlerStep-Inv :
    (i : ℕ) {m m' : Server} {p : Loop} {hs : List Handler} {c : Closer} {h' : Handler}
    → Inv m p hs c
    → i < length hs
    → HandlerStep i m (get_or hs i finished) m' h'
    → Inv m' p (set hs i h') c
HandlerStep-Inv i {p = p} {hs} {h' = h'} inv lt mv =
    let counts = HandlerStep-counts inv lt refl mv in
    let (closed_same, closing_same, done_same) = HandlerStep-flags mv in
    record {
      tokens_are = counts.tokens_are;
      tokens_le = counts.tokens_le;
      accepted_are =
          counts.accepted_are ∙ ap (λ n. u64 (n + loop_accepted p)) (sym (length-set hs i h'));
      closed_are = counts.closed_are;
      active_are = counts.active_are;
      listed = HandlerStep-listed hs inv.listed lt refl mv;
      closed_is = closed_same ∙ inv.closed_is;
      closing_is = closing_same ∙ inv.closing_is;
      done_are = done_same ∙ inv.done_are;
      ends = λ e. closed_same ∙ inv.ends e;
      waits = ground (arith, inv.waits);
    }
