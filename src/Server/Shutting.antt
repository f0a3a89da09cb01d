-- ===== src/Server/Shutting.antt =====
-- server.go: the connections that `Close` and `Shutdown` close.
use telnetty.Base.{ℕ, ◌≡◌, refl, sym, Bool, true, false, ◌||◌, List, [], arith}
use telnetty.Server.{
  Server, Loop, Handler, Closer, shutting, waiting, done, timed_out, System, update,
}
use telnetty.Server.Steps.{
  LoopStep, accept_fails, HandlerStep, return_handler, CloserStep, shut_next, shut_all, finish,
  time_out, Step, loop_step, spawn, handler_step, closer_step, lose, Reach, here, next,
}
use mathlib.Core.Path.{subst}
use telnetty.Server.Steps.{elem, Lists}

-- What is left of the copy.
abbrev left : Closer → List ℕ
left (shutting ids) = ids
left _ = []

-- Behind the copy.
abbrev pub Copied : Closer → Type 0
Copied (shutting _) = Unit
Copied waiting = Unit
Copied done = Unit
Copied timed_out = Unit
Copied _ = ⊥

-- Each connection of the copy is still to be closed, or `Close` was called on it.
abbrev Covered : (ℕ → Bool) → Server → Closer → Type 0
Covered ids m c = (i : ℕ) → ids i ≡ true → (elem i (left c) || m.shut i) ≡ true

CloserStep-Covered :
    (ids : ℕ → Bool) {m m' : Server} {c c' : Closer}
    → CloserStep m c m' c'
    → Copied c
    → Covered ids m c
    → Copied c' × Covered ids m' c'
unfolding update
CloserStep-Covered ids (shut_next {i = j}) k cov = (tt, λ i h. ground (arith, cov i h))
CloserStep-Covered ids shut_all k cov = (tt, cov)
CloserStep-Covered ids (finish _) k cov = (tt, cov)
CloserStep-Covered ids time_out k cov = (tt, cov)
CloserStep-Covered ids mv k cov = absurd k

HandlerStep-shut :
    {n : ℕ} {m m' : Server} {h h' : Handler}
    → HandlerStep n m h m' h'
    → (i : ℕ) → m.shut i ≡ true
    → m'.shut i ≡ true
unfolding update
HandlerStep-shut return_handler i e = e
HandlerStep-shut mv i e = ground arith

LoopStep-shut :
    {m m' : Server} {p p' : Loop}
    → LoopStep m p m' p'
    → (i : ℕ) → m.shut i ≡ true
    → m'.shut i ≡ true
LoopStep-shut accept_fails i e = e
LoopStep-shut mv i e = e

Step-Covered :
    (ids : ℕ → Bool) {s s' : System}
    → Step s s'
    → Copied s.closer
    → Covered ids s.server s.closer
    → Copied s'.closer × Covered ids s'.server s'.closer
Step-Covered ids {s} (loop_step mv) k cov = (k, λ i h. ground (arith, cov i h, LoopStep-shut mv i))
Step-Covered ids (spawn _) k cov = (k, cov)
Step-Covered ids {s} (handler_step n lt mv) k cov =
    (k, λ i h. ground (arith, cov i h, HandlerStep-shut mv i))
Step-Covered ids (closer_step mv) k cov = CloserStep-Covered ids mv k cov
Step-Covered ids (lose _) k cov = (k, cov)

Reach-Covered :
    (ids : ℕ → Bool) {s s' : System}
    → Reach s s'
    → Copied s.closer
    → Covered ids s.server s.closer
    → Copied s'.closer × Covered ids s'.server s'.closer
Reach-Covered ids here k cov = (k, cov)
Reach-Covered ids (next r mv) k cov =
    let (k', cov') = Reach-Covered ids r k cov in Step-Covered ids mv k' cov'

-- `Close` or `Shutdown` has gone through its copy.
abbrev pub is_behind : Closer → Bool
is_behind waiting = true
is_behind done = true
is_behind timed_out = true
is_behind _ = false

left-behind : (c : Closer) → is_behind c ≡ true → left c ≡ []
left-behind waiting h = refl
left-behind done h = refl
left-behind timed_out h = refl
left-behind c h = ground arith

-- If the copy of `Close` or `Shutdown` lists the connections of the map, then once the call is
-- through with the copy, `Close` has been called on every connection that was in the map at the
-- copy, whatever the other goroutines have done in between.
pub closes :
    {s s' : System} {ids : List ℕ}
    → Lists s.server.conns ids
    → s.closer ≡ shutting ids
    → Reach s s'
    → is_behind s'.closer ≡ true
    → (i : ℕ) → s.server.conns i ≡ true
    → s'.server.shut i ≡ true
closes {s} {s'} {ids} lists e r h i listed =
    let start : Copied s.closer × Covered s.server.conns s.server s.closer =
      subst (λ c. Copied c × Covered s.server.conns s.server c) (sym e)
        (tt, λ j q. ground (arith, lists j)) in
    let (copied, covered) = start in
    let (k, cov) = Reach-Covered s.server.conns r copied covered in
    subst (λ js. (elem i js || s'.server.shut i) ≡ true) (left-behind s'.closer h) (cov i listed)
