-- ===== src/Server/Steps.antt =====
-- server.go: the steps of the accept loop, of a `handleConn` and of the closing call, an access of
-- shared state at a time. `Accept` waits: it gives a connection only from an open listener
-- (`accept`), it gives an error from a closed one (`refuse`), and it may give another error, or
-- nothing for ever. A handler may return at any time, and the context of `Shutdown` may end at any
-- time.
use telnetty.Base.{
  ℕ, ◌+◌, ◌-◌, ◌<◌, ◌≡◌, Bool, true, false, ◌||◌, List, [], ◌∷◌, ◌++◌, ◌==◌, length, get_or, set,
}
use telnetty.Conn.Output.{u64}
use telnetty.Base.Words.{u32}
use telnetty.Server.{
  Server, server_closed, nil_handler, listen_error, Loop, idle, top, acquiring, accepting, refused,
  checking, got_conn, counted_accepted, counted_active, returned, Handler, started, running,
  leaving, unlisted, closed_conn, released, uncounted, finished, Closer, not_called, won, signalled,
  copying, shutting, waiting, done, timed_out, System, update,
}

-- `close(s.closeDone)`
abbrev pub ended : Server → Server
ended m = record m { close_done = m.close_done + 1 }

pub data LoopStep (m : Server) : Loop → Server → Loop → Type 0 where
  listen_nil : m.handler ≡ false → LoopStep m idle m (returned nil_handler)
  listen_fails : m.handler ≡ true → LoopStep m idle m (returned listen_error)
  listen : m.handler ≡ true → LoopStep m idle (record m { listener = true }) top
  serve : LoopStep m idle (record m { listener = true }) top
  stop : m.closing ≡ true → LoopStep m top (ended m) (returned server_closed)
  go_on : m.closing ≡ false → LoopStep m top m acquiring
  acquire :
      m.tokens < m.accept_limit
      → LoopStep m acquiring (record m { tokens = m.tokens + 1 }) accepting
  stop_waiting : m.closing ≡ true → LoopStep m acquiring (ended m) (returned server_closed)
  accept : m.listener_closed ≡ false → LoopStep m accepting m got_conn
  refuse : m.listener_closed ≡ true → LoopStep m accepting m refused
  accept_fails : LoopStep m accepting m refused
  give_back : 0 < m.tokens → LoopStep m refused (record m { tokens = m.tokens - 1 }) checking
  stop_refused : m.closed ≡ true → LoopStep m checking (ended m) (returned server_closed)
  try_again : m.closed ≡ false → LoopStep m checking m top
  count_accepted :
      LoopStep m got_conn
        (record m { conns_accepted = u64 (m.conns_accepted + 1) })
        counted_accepted
  count_active :
      LoopStep m counted_accepted
        (record m { conns_active = u32 (m.conns_active + 1) })
        counted_active

-- The steps of the `handleConn` of connection `i`.
pub data HandlerStep (i : ℕ) (m : Server) : Handler → Server → Handler → Type 0 where
  register : HandlerStep i m started (record m { conns = update m.conns i true }) running
  return_handler : HandlerStep i m running m leaving
  delete_conn : HandlerStep i m leaving (record m { conns = update m.conns i false }) unlisted
  close_conn : HandlerStep i m unlisted (record m { shut = update m.shut i true }) closed_conn
  release_token :
      0 < m.tokens → HandlerStep i m closed_conn (record m { tokens = m.tokens - 1 }) released
  uncount_active :
      HandlerStep i m released
        (record m { conns_active = u32 (m.conns_active + 0xffffffff) })
        uncounted
  count_closed :
      HandlerStep i m uncounted (record m { conns_closed = u64 (m.conns_closed + 1) }) finished

abbrev pub elem : ℕ → List ℕ → Bool
elem i [] = false
elem i (j ∷ ids) = j == i || elem i ids

-- The list holds the connections of the map, in any order.
abbrev pub Lists : (ℕ → Bool) → List ℕ → Type 0
Lists conns ids = (i : ℕ) → conns i ≡ elem i ids

pub data CloserStep (m : Server) : Closer → Server → Closer → Type 0 where
  win : m.closed ≡ false → CloserStep m not_called (record m { closed = true }) won
  signal : CloserStep m won (record m { closing = true }) signalled
  close_listener :
      m.listener ≡ true → CloserStep m signalled (record m { listener_closed = true }) copying
  no_listener : m.listener ≡ false → CloserStep m signalled m copying
  copy : {ids : List ℕ} → Lists m.conns ids → CloserStep m copying m (shutting ids)
  shut_next :
      {i : ℕ} {ids : List ℕ}
      → CloserStep m (shutting (i ∷ ids)) (record m { shut = update m.shut i true }) (shutting ids)
  shut_all : CloserStep m (shutting []) m waiting
  finish : 0 < m.close_done → CloserStep m waiting m done
  time_out : CloserStep m waiting m timed_out

-- One step of the system. A call of `Close` or `Shutdown` that loses the swap changes nothing.
pub data Step (s : System) : System → Type 0 where
  loop_step :
      {m : Server} {p : Loop}
      → LoopStep s.server s.loop m p
      → Step s (record s { server = m; loop = p })
  spawn :
      s.loop ≡ counted_active
      → Step s (record s { loop = top; handlers = s.handlers ++ started ∷ [] })
  handler_step :
      (i : ℕ) {m : Server} {h : Handler}
      → i < length s.handlers
      → HandlerStep i s.server (get_or s.handlers i finished) m h
      → Step s (record s { server = m; handlers = set s.handlers i h })
  closer_step :
      {m : Server} {c : Closer}
      → CloserStep s.server s.closer m c
      → Step s (record s { server = m; closer = c })
  lose : s.server.closed ≡ true → Step s s

pub data Reach (s : System) : System → Type 0 where
  here : Reach s s
  next : {t u : System} → Reach s t → Step t u → Reach s u
