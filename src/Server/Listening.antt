-- ===== src/Server/Listening.antt =====
-- server.go: the listener while the accept loop runs and while `Close` or `Shutdown` does.
use telnetty.Base.{◌≡◌, refl, ap, ◌∙◌, Bool, true, false, List, arith, ℕ}
use telnetty.Server.{
  Server, Loop, idle, acquiring, accepting, returned, Handler, Closer, not_called, won, signalled,
  System, at_start,
}
use telnetty.Server.Steps.{
  LoopStep, listen, serve, go_on, acquire, HandlerStep, return_handler, CloserStep, win, signal,
  close_listener, no_listener, Step, loop_step, spawn, handler_step, closer_step, lose, Reach, here,
  next,
}
use telnetty.Server.Invariant.{Inv, has_signalled}
use telnetty.Server.Safety.{IsValid, Reach-IsValid}

-- Between the store of the listener and the return.
abbrev pub is_serving : Loop → Bool
is_serving idle = false
is_serving (returned _) = false
is_serving _ = true

-- On the way to `Accept`, or in it.
abbrev pub may_accept : Loop → Bool
may_accept acquiring = true
may_accept accepting = true
may_accept _ = false

-- Behind the close of the listener.
abbrev pub has_passed : Closer → Bool
has_passed not_called = false
has_passed won = false
has_passed signalled = false
has_passed _ = true

pub record Listening (m : Server) (p : Loop) (c : Closer) : Type 0 where
  pub stored : is_serving p ≡ true → m.listener ≡ true
  pub shut : has_passed c ≡ true → may_accept p ≡ true → m.listener_closed ≡ true

may_accept-is_serving : (p : Loop) → may_accept p ≡ true → is_serving p ≡ true
may_accept-is_serving acquiring h = refl
may_accept-is_serving accepting h = refl
may_accept-is_serving p h = ground arith

has_passed-has_signalled : (c : Closer) → has_passed c ≡ true → has_signalled c ≡ true
has_passed-has_signalled signalled h = refl
has_passed-has_signalled c h = ground arith

LoopStep-Listening :
    {m m' : Server} {p p' : Loop} {hs : List Handler} {c : Closer}
    → Inv m p hs c
    → Listening m p c
    → LoopStep m p m' p'
    → Listening m' p' c
LoopStep-Listening {c = c} inv l (go_on h) = record {
  stored = λ _. l.stored refl;
  shut = λ past _. absurd (ground (arith, inv.closing_is, has_passed-has_signalled c past));
}
LoopStep-Listening inv l (acquire h) = record {
  stored = λ _. l.stored refl;
  shut = λ past _. l.shut past refl;
}
LoopStep-Listening inv l (listen h) = record {
  stored = λ _. refl;
  shut = λ past may. absurd (ground arith);
}
LoopStep-Listening inv l serve = record {
  stored = λ _. refl;
  shut = λ past may. absurd (ground arith);
}
LoopStep-Listening inv l mv = record {
  stored = ground (arith, l.stored);
  shut = λ past may. ground (arith, l.shut);
}

HandlerStep-listener :
    {i : ℕ} {m m' : Server} {h h' : Handler}
    → HandlerStep i m h m' h'
    → (m'.listener ≡ m.listener) × (m'.listener_closed ≡ m.listener_closed)
HandlerStep-listener return_handler = (refl, refl)
HandlerStep-listener mv = (refl, refl)

CloserStep-Listening :
    {m m' : Server} {p : Loop} {c c' : Closer}
    → Listening m p c
    → CloserStep m c m' c'
    → Listening m' p c'
CloserStep-Listening l (close_listener h) = record { stored = l.stored; shut = λ _ _. refl }
CloserStep-Listening {p = p} l (no_listener h) = record {
  stored = l.stored;
  shut = λ _ may. absurd (ground (arith, h, l.stored (may_accept-is_serving p may)));
}
CloserStep-Listening l (win h) = record {
  stored = l.stored;
  shut = λ past _. absurd (ground arith);
}
CloserStep-Listening l signal = record { stored = l.stored; shut = λ past _. absurd (ground arith) }
CloserStep-Listening l mv = record { stored = l.stored; shut = λ _ may. l.shut refl may }

abbrev pub IsListening : System → Type 0
IsListening s = Listening s.server s.loop s.closer

pub Step-IsListening : {s s' : System} → IsValid s → IsListening s → Step s s' → IsListening s'
Step-IsListening inv l (loop_step mv) = LoopStep-Listening inv l mv
Step-IsListening {s} inv l (spawn e) = record {
  stored = λ _. l.stored (ap is_serving e);
  shut = λ past may. absurd (ground arith);
}
Step-IsListening inv l (handler_step i lt mv) =
    let (same, same_closed) = HandlerStep-listener mv in
    record { stored = λ h. same ∙ l.stored h; shut = λ past may. same_closed ∙ l.shut past may }
Step-IsListening inv l (closer_step mv) = CloserStep-Listening l mv
Step-IsListening inv l (lose e) = l

pub Reach-IsListening : {s s' : System} → IsValid s → IsListening s → Reach s s' → IsListening s'
Reach-IsListening inv l here = l
Reach-IsListening inv l (next r mv) =
    Step-IsListening (Reach-IsValid inv r) (Reach-IsListening inv l r) mv

pub at_start-IsListening : (m : Server) → IsListening (at_start m)
at_start-IsListening m = record {
  stored = λ h. absurd (ground arith);
  shut = λ past _. absurd (ground arith);
}
