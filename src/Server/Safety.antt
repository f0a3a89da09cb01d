-- ===== src/Server/Safety.antt =====
-- server.go: what holds in every state that the server reaches.
use telnetty.Base.{
  ℕ, ◌+◌, ◌≤◌, ◌≡◌, refl, ◌∙◌, Bool, true, false, List, [], ◌∷◌, arith, Bytes, length, get_or,
}
use telnetty.Conn.Output.{u64}
use telnetty.Base.Words.{u32}
use telnetty.Server.{Server, Loop, Handler, finished, Closer, System}
use telnetty.Server.Sums.{sum}
use telnetty.Server.Steps.{
  LoopStep, accept_fails, HandlerStep, return_handler, CloserStep, shut_all, Step, loop_step, spawn,
  handler_step, closer_step, lose, Reach, here, next,
}
use telnetty.Server.Invariant.{
  Inv, loop_holds, holds, loop_accepted, loop_active, active, over, is_listed, loop_ended,
  has_finished,
}
use mathlib.Core.Path.{subst}
use telnetty.Server.{at_start, new_server, ServerOption}
use telnetty.Conn.Input.{Config}
use telnetty.Server.Invariant.LoopSteps.{LoopStep-Inv, spawn-Inv}
use telnetty.Server.Invariant.HandlerSteps.{HandlerStep-Inv}
use telnetty.Server.Invariant.CloserSteps.{CloserStep-Inv}

-- The invariant of a system.
abbrev pub IsValid : System → Type 0
IsValid s = Inv s.server s.loop s.handlers s.closer

pub Step-IsValid : {s s' : System} → IsValid s → Step s s' → IsValid s'
Step-IsValid inv (loop_step mv) = LoopStep-Inv inv mv
Step-IsValid {s} inv (spawn e) = spawn-Inv (subst (λ p. Inv s.server p s.handlers s.closer) e inv)
Step-IsValid inv (handler_step i lt mv) = HandlerStep-Inv i inv lt mv
Step-IsValid inv (closer_step mv) = CloserStep-Inv inv mv
Step-IsValid inv (lose e) = inv

pub Reach-IsValid : {s s' : System} → IsValid s → Reach s s' → IsValid s'
Reach-IsValid inv here = inv
Reach-IsValid inv (next r mv) = Step-IsValid (Reach-IsValid inv r) mv

pub new_server-IsValid :
    (zero_config : Config) (addr : Bytes) (opts : List ServerOption)
    → IsValid (at_start (new_server zero_config addr opts))
unfolding new_server
new_server-IsValid zero_config addr opts = record {
  tokens_are = refl;
  tokens_le = omega arith;
  accepted_are = refl;
  closed_are = refl;
  active_are = refl;
  listed = λ _. refl;
  closed_is = refl;
  closing_is = refl;
  done_are = refl;
  ends = λ e. absurd (omega arith);
  waits = omega arith;
}

LoopStep-accept_limit :
    {m m' : Server} {p p' : Loop} → LoopStep m p m' p' → m'.accept_limit ≡ m.accept_limit
LoopStep-accept_limit accept_fails = refl
LoopStep-accept_limit mv = refl

HandlerStep-accept_limit :
    {i : ℕ} {m m' : Server} {h h' : Handler}
    → HandlerStep i m h m' h'
    → m'.accept_limit ≡ m.accept_limit
HandlerStep-accept_limit return_handler = refl
HandlerStep-accept_limit mv = refl

CloserStep-accept_limit :
    {m m' : Server} {c c' : Closer} → CloserStep m c m' c' → m'.accept_limit ≡ m.accept_limit
CloserStep-accept_limit shut_all = refl
CloserStep-accept_limit mv = refl

Step-accept_limit : {s s' : System} → Step s s' → s'.server.accept_limit ≡ s.server.accept_limit
Step-accept_limit (loop_step mv) = LoopStep-accept_limit mv
Step-accept_limit (spawn e) = refl
Step-accept_limit (handler_step i lt mv) = HandlerStep-accept_limit mv
Step-accept_limit (closer_step mv) = CloserStep-accept_limit mv
Step-accept_limit (lose e) = refl

Reach-accept_limit : {s s' : System} → Reach s s' → s'.server.accept_limit ≡ s.server.accept_limit
Reach-accept_limit here = refl
Reach-accept_limit (next r mv) = Step-accept_limit mv ∙ Reach-accept_limit r

abbrev pub unfinished : Handler → ℕ
unfinished finished = 0
unfinished _ = 1

length-over : (hs : List Handler) → length hs ≡ sum over hs + sum unfinished hs
length-over [] = omega arith
length-over (finished ∷ hs) = omega (arith, length-over hs)
length-over (h ∷ hs) = omega (arith, length-over hs)

abbrev pub flag : Bool → ℕ
flag true = 1
flag false = 0

loop_ended-le : (p : Loop) → loop_ended p ≤ 1
loop_ended-le p = ground arith

le-flag : (p : Loop) (b : Bool) → (loop_ended p ≡ 1 → b ≡ true) → loop_ended p ≤ flag b
le-flag p true h = loop_ended-le p
le-flag p false h = ground arith

module _ (zero_config : Config) (addr : Bytes) (opts : List ServerOption) where
  abbrev first : System
  first = at_start (new_server zero_config addr opts)

  first-IsValid : {s : System} → Reach first s → IsValid s
  first-IsValid = Reach-IsValid (new_server-IsValid zero_config addr opts)

  -- In every state that a new server reaches, the connections that the accept loop and the
  -- handlers hold, from before the accept to behind the close, are at most as many as the capacity
  -- of `acceptLimit` that `NewServer` has set.
  pub Reach-limit :
      {s : System}
      → Reach first s
      → loop_holds s.loop + sum holds s.handlers ≤ (new_server zero_config addr opts).accept_limit
  Reach-limit r =
      let inv = first-IsValid r in
      omega (arith, inv.tokens_are, inv.tokens_le, Reach-accept_limit r)

  -- In every state that a new server reaches, the count of accepted connections is the count of
  -- closed ones and the handlers that have not counted their close yet, and the count of active
  -- ones is that of the handlers before their decrement, each with the connection that the loop
  -- has counted and not handed over, and modulo the width of the counter.
  pub Reach-counts :
      {s : System}
      → Reach first s
      → (s.server.conns_accepted
          ≡ u64 (s.server.conns_closed + sum unfinished s.handlers + loop_accepted s.loop))
        × (s.server.conns_active ≡ u32 (sum active s.handlers + loop_active s.loop))
  Reach-counts {s} r =
      let inv = first-IsValid r in
      (omega (arith, inv.accepted_are, inv.closed_are, length-over s.handlers), inv.active_are)

  -- In every state that a new server reaches, a connection is in the map exactly while its handler
  -- is between the insertion and the deletion.
  pub Reach-listed :
      {s : System}
      → Reach first s
      → (i : ℕ) → s.server.conns i ≡ is_listed (get_or s.handlers i finished)
  Reach-listed r = (first-IsValid r).listed

  -- In every state that a new server reaches, the count of accepted connections is the count of
  -- closed ones and the handlers that have not counted their close yet, with the connection that the
  -- loop has counted and not handed over, modulo the width of the counter; the count of active ones
  -- is in the same way that of the handlers before their decrement; and a connection is in the map
  -- exactly while its handler is between the insertion and the deletion.
  pub Reach-books :
      {s : System}
      → Reach first s
      → (s.server.conns_accepted
          ≡ u64 (s.server.conns_closed + sum unfinished s.handlers + loop_accepted s.loop))
        × (s.server.conns_active ≡ u32 (sum active s.handlers + loop_active s.loop))
        × ((i : ℕ) → s.server.conns i ≡ is_listed (get_or s.handlers i finished))
  Reach-books r =
      let (accepted_are, active_are) = Reach-counts r in (accepted_are, active_are, Reach-listed r)

  -- In every state that a new server with one accept loop reaches: `closeDone` has been closed
  -- exactly once if the loop has returned the error of a closed server, and else never; the loop
  -- returns it only if `closed` is set; and `Close` or `Shutdown` returns nil only if it has.
  pub Reach-ended :
      {s : System}
      → Reach first s
      → (s.server.close_done ≡ loop_ended s.loop)
        × (s.server.close_done ≤ 1)
        × (loop_ended s.loop ≤ flag s.server.closed)
        × (has_finished s.closer ≤ loop_ended s.loop)
  Reach-ended {s} r =
      let inv = first-IsValid r in
      (
        inv.done_are,
        rw inv.done_are (loop_ended-le s.loop),
        le-flag (s.loop) s.server.closed inv.ends,
        omega (arith, inv.waits, inv.done_are),
      )
