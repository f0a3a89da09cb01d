-- ===== src/Server/Stopping.antt =====
-- server.go: the accept loop behind `close(s.closing)`.
use telnetty.Base.{Bytes, ℕ, ◌+◌, ◌≤◌, ◌≡◌, refl, ap, ◌⊎◌, inl, inr, true, List, arith}
use telnetty.Server.Invariant.{closing-closed}
use telnetty.Server.{
  Server, Loop, idle, top, acquiring, accepting, refused, checking, got_conn, counted_accepted,
  counted_active, returned, Handler, Closer, System,
}
use telnetty.Server.Steps.{
  LoopStep, serve, stop, go_on, stop_waiting, listen_nil, listen_fails, listen, accept, refuse,
  accept_fails, close_listener, give_back, stop_refused, try_again, count_accepted, count_active,
  HandlerStep, return_handler, CloserStep, signal, Step, loop_step, spawn, handler_step,
  closer_step, lose, Reach, here, next,
}
use telnetty.Server.Invariant.{Inv}
use telnetty.Server.Safety.{IsValid, Step-IsValid, Reach-IsValid, new_server-IsValid}
use telnetty.Server.Listening.{Listening, Reach-IsListening, at_start-IsListening}
use telnetty.Server.{
  at_start, new_server, ServerOption, not_called, won, signalled, copying, shutting, waiting, done,
  timed_out,
}
use telnetty.Conn.Input.{Config}

-- The steps that are left to the loop when `closing` is closed.
abbrev pub rank : Loop → ℕ
rank idle = 2
rank top = 1
rank acquiring = 6
rank accepting = 5
rank refused = 2
rank checking = 1
rank got_conn = 4
rank counted_accepted = 3
rank counted_active = 2
rank (returned _) = 0

-- Whether a step is one of the loop, and how many of them a run has.
abbrev pub loop_steps_of : {s s' : System} → Step s s' → ℕ
loop_steps_of (loop_step _) = 1
loop_steps_of (spawn _) = 1
loop_steps_of _ = 0

pub loop_steps : {s s' : System} → Reach s s' → ℕ
loop_steps here = 0
loop_steps (next r mv) = loop_steps r + loop_steps_of mv

LoopStep-rank :
    {m m' : Server} {p p' : Loop}
    → LoopStep m p m' p'
    → m.closing ≡ true
    → m.closed ≡ true
    → rank p' + 1 ≤ rank p
LoopStep-rank (go_on h) e f = absurd (cc)
LoopStep-rank (try_again h) e f = absurd (cc)
LoopStep-rank mv e f = omega arith

LoopStep-closing :
    {m m' : Server} {p p' : Loop} → LoopStep m p m' p' → m.closing ≡ true → m'.closing ≡ true
LoopStep-closing accept_fails e = e
LoopStep-closing mv e = e

HandlerStep-closing :
    {i : ℕ} {m m' : Server} {h h' : Handler}
    → HandlerStep i m h m' h'
    → m.closing ≡ true
    → m'.closing ≡ true
HandlerStep-closing return_handler e = e
HandlerStep-closing mv e = e

CloserStep-closing :
    {m m' : Server} {c c' : Closer} → CloserStep m c m' c' → m.closing ≡ true → m'.closing ≡ true
CloserStep-closing signal e = refl
CloserStep-closing mv e = e

Step-closing : {s s' : System} → Step s s' → s.server.closing ≡ true → s'.server.closing ≡ true
Step-closing (loop_step mv) e = LoopStep-closing mv e
Step-closing (spawn _) e = e
Step-closing (handler_step i lt mv) e = HandlerStep-closing mv e
Step-closing (closer_step mv) e = CloserStep-closing mv e
Step-closing (lose _) e = e

Step-rank :
    {s s' : System}
    → IsValid s
    → (mv : Step s s') → s.server.closing ≡ true
    → loop_steps_of mv + rank s'.loop ≤ rank s.loop
Step-rank inv (loop_step mv) e = omega (arith, LoopStep-rank mv e (closing-closed inv e))
Step-rank {s} inv (spawn h) e = omega (arith, ap rank h)
Step-rank inv (handler_step i lt mv) e = omega arith
Step-rank inv (closer_step mv) e = omega arith
Step-rank inv (lose _) e = omega arith

pub loop_steps-le :
    {s s' : System}
    → IsValid s
    → s.server.closing ≡ true
    → (r : Reach s s')
    → (loop_steps r + rank s'.loop ≤ rank s.loop) × (s'.server.closing ≡ true) × IsValid s'
unfolding loop_steps
loop_steps-le inv e here = (omega arith, e, inv)
loop_steps-le inv e (next r mv) =
    let (le, e', inv') = loop_steps-le inv e r in
    (omega (arith, Step-rank inv' mv e'), Step-closing mv e', Step-IsValid inv' mv)

-- A step that waits for nobody: no call of `ListenAndServe` or `Serve`, and not what the network
-- brings to an open listener.
abbrev pub IsOwn : {m m' : Server} {p p' : Loop} → LoopStep m p m' p' → Type 0
IsOwn (listen_nil _) = ⊥
IsOwn (listen_fails _) = ⊥
IsOwn (listen _) = ⊥
IsOwn serve = ⊥
IsOwn (accept _) = ⊥
IsOwn accept_fails = ⊥
IsOwn _ = Unit

-- Such a step is open to the loop; `spawn` is the `go` statement.
abbrev pub Moves : System → Type 0
Moves s =
    ((m : Server) × (p : Loop) × (mv : LoopStep s.server s.loop m p) × IsOwn mv)
    ⊎ (s.loop ≡ counted_active)

-- The loop waits in `Accept`, and the next step of `Close` or `Shutdown` is to close the listener.
abbrev pub ClosesListener : System → Type 0
ClosesListener s =
    (s.loop ≡ accepting)
    × CloserStep s.server s.closer (record s.server { listener_closed = true }) copying

-- The loop is not called yet, or it has returned.
abbrev pub IsOff : Loop → Type 0
IsOff idle = Unit
IsOff (returned _) = Unit
IsOff _ = ⊥

at_accept :
    (m : Server) (hs : List Handler) (c : Closer)
    → Inv m accepting hs c
    → Listening m accepting c
    → m.closing ≡ true
    → let s : System = record { server = m; loop = accepting; handlers = hs; closer = c } in
      Moves s ⊎ ClosesListener s
at_accept m hs not_called inv l e = absurd (ground (arith, inv.closing_is))
at_accept m hs won inv l e = absurd (ground (arith, inv.closing_is))
at_accept m hs signalled inv l e = inr (refl, close_listener (l.stored refl))
at_accept m hs copying inv l e = inl (inl (_, _, refuse (l.shut refl refl), tt))
at_accept m hs (shutting ids) inv l e = inl (inl (_, _, refuse (l.shut refl refl), tt))
at_accept m hs waiting inv l e = inl (inl (_, _, refuse (l.shut refl refl), tt))
at_accept m hs done inv l e = inl (inl (_, _, refuse (l.shut refl refl), tt))
at_accept m hs timed_out inv l e = inl (inl (_, _, refuse (l.shut refl refl), tt))

moves :
    (m : Server) (p : Loop) (hs : List Handler) (c : Closer)
    → Inv m p hs c
    → Listening m p c
    → m.closing ≡ true
    → let s : System = record { server = m; loop = p; handlers = hs; closer = c } in
      IsOff p ⊎ (Moves s ⊎ ClosesListener s)
moves m idle hs c inv l e = inl tt
moves m top hs c inv l e = inr (inl (inl (_, _, stop e, tt)))
moves m acquiring hs c inv l e = inr (inl (inl (_, _, stop_waiting e, tt)))
moves m accepting hs c inv l e = inr (at_accept m hs c inv l e)
moves m refused hs c inv l e = inr (inl (inl (_, _, give_back (omega (arith, inv.tokens_are)), tt)))
moves m checking hs c inv l e = inr (inl (inl (_, _, stop_refused (closing-closed inv e), tt)))
moves m got_conn hs c inv l e = inr (inl (inl (_, _, count_accepted, tt)))
moves m counted_accepted hs c inv l e = inr (inl (inl (_, _, count_active, tt)))
moves m counted_active hs c inv l e = inr (inl (inr refl))
moves m (returned err) hs c inv l e = inl tt

module _ (zero_config : Config) (addr : Bytes) (opts : List ServerOption) where
  -- From a state of a new server in which `closing` is closed, whatever the other goroutines do, the
  -- accept loop makes at most as many steps as its rank, six or fewer. Until it has returned, if it
  -- was called, it has a step that waits for no connection and no error of the network, or it waits
  -- in `Accept` and the next step of `Close` or `Shutdown` is to close the listener.
  pub stops :
      {s s' : System}
      → Reach (at_start (new_server zero_config addr opts)) s
      → s.server.closing ≡ true
      → (r : Reach s s')
      → (loop_steps r + rank s'.loop ≤ rank s.loop)
        × (IsOff s'.loop ⊎ (Moves s' ⊎ ClosesListener s'))
  stops {s' = s'} before e r =
      let start = new_server-IsValid zero_config addr opts in
      let inv = Reach-IsValid start before in
      let listening =
        Reach-IsListening start (at_start-IsListening (new_server zero_config addr opts)) before in
      let (le, e', inv') = loop_steps-le inv e r in
      let listening' = Reach-IsListening inv listening r in
      (le, moves s'.server s'.loop s'.handlers s'.closer inv' listening' e')
