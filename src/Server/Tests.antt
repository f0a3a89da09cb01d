-- ===== src/Server/Tests.antt =====
-- Runs of a server with one place.
use telnetty.Base.{get_or, ℕ, ◌+◌, ◌≤◌, ◌≡◌, refl, ◌⊎◌, true, false, some, List, [], ◌∷◌, arith}
use telnetty.Conn.Input.{Config}
use telnetty.Conn.Output.{u64}
use telnetty.Base.Words.{u32}
use telnetty.Server.{
  Server, top, accepting, refused, copying, running, finished, Closer, signalled, shutting, waiting,
  System, at_start, new_server, ServerOption, with_max_conns, with_handler, update, made,
  apply_option, apply_options,
}
use telnetty.Server.Steps.{
  serve, refuse, close_listener, go_on, acquire, accept, count_accepted, count_active, register,
  win, signal, shut_next, shut_all, loop_step, spawn, handler_step, closer_step, Reach, here, next,
  Lists,
}
use telnetty.Server.Safety.{Reach-limit, Reach-books, Reach-ended, flag}
use telnetty.Server.Invariant.{is_listed}
use telnetty.Server.Stopping.{stops, loop_steps, IsOff, Moves, ClosesListener}
use telnetty.Server.Shutting.{closes}

abbrev plain : Config
plain = record {
  enable_binary = false;
  enable_echo = false;
  enable_sga = false;
  enable_naws = false;
  enable_ttype = false;
  enable_term_speed = false;
  enable_new_environ = false;
  enable_charset = false;
  enable_mccp2 = false;
  enable_mccp3 = false;
  enable_msdp = false;
  enable_gmcp = false;
  enable_mssp = false;
  enable_mcp = false;
  has_handler = false;
}

abbrev opts : List ServerOption
opts = with_handler true ∷ with_max_conns 1 ∷ []

abbrev first : System
first = at_start (new_server plain [] opts)

abbrev base : Server
base = made [] (record { config = plain; handler = true; limit = some 1 })

-- The loop has counted a connection; a `handleConn` has registered it.
abbrev accepted : Server
accepted = record base {
  listener = true;
  tokens = 1;
  conns_accepted = 1;
  conns_active = 1;
  conns = update (λ _. false) 0 true;
}

abbrev serving : System
serving = record { server = accepted; loop = top; handlers = running ∷ []; closer = waiting }

served_run : Reach first (record serving { closer = Closer.not_called })
unfolding new_server apply_options apply_option
served_run =
    next
      (next
        (next
          (next
            (next
              (next (next (next here (loop_step serve)) (loop_step (go_on refl)))
                (loop_step (acquire (omega arith))))
              (loop_step (accept refl)))
            (loop_step count_accepted))
          (loop_step count_active))
        (spawn refl))
      (handler_step 0 (omega arith) register)

Reach-limit_example : 1 ≤ (new_server plain [] opts).accept_limit
Reach-limit_example = Reach-limit plain [] opts served_run

Reach-books_example :
    (1 ≡ u64 (0 + 1 + 0))
    × (1 ≡ u32 (1 + 0))
    × ((i : ℕ) → accepted.conns i ≡ is_listed (get_or (running ∷ []) i finished))
Reach-books_example = Reach-books plain [] opts served_run

Reach-ended_example :
    (base.close_done ≡ 0) × (base.close_done ≤ 1) × (0 ≤ flag base.closed) × (0 ≤ base.close_done)
Reach-ended_example = Reach-ended plain [] opts served_run

-- The loop waits in `Accept`, and `Close` has closed the channel.
abbrev waiting_server : Server
waiting_server = record base { listener = true; tokens = 1; closed = true; closing = true }

abbrev blocked : System
blocked = record { server = waiting_server; loop = accepting; handlers = []; closer = signalled }

blocked_run : Reach first blocked
unfolding new_server apply_options apply_option
blocked_run =
    next
      (next
        (next (next (next here (loop_step serve)) (loop_step (go_on refl)))
          (loop_step (acquire (omega arith))))
        (closer_step (win refl)))
      (closer_step signal)

-- The listener is closed, and `Accept` has returned.
abbrev woken : System
woken = record blocked {
  server = record waiting_server { listener_closed = true };
  loop = refused;
  closer = copying;
}

wakes : Reach blocked woken
wakes = next (next here (closer_step (close_listener refl))) (loop_step (refuse refl))

stops_example : (loop_steps wakes + 2 ≤ 5) × (IsOff refused ⊎ (Moves woken ⊎ ClosesListener woken))
stops_example = stops plain [] opts blocked_run refl wakes

-- `Close` has closed the channel, and holds a copy of the one connection.
abbrev stopping : System
stopping = record serving { server = record accepted { closed = true; closing = true } }

abbrev copied : System
copied = record stopping { closer = shutting (0 ∷ []) }

copied-Lists : Lists copied.server.conns (0 ∷ [])
unfolding update
copied-Lists i = ground arith

closes_example : update (λ _. false) 0 true 0 ≡ true
unfolding update
closes_example =
    closes {s = copied} copied-Lists refl
      (next (next here (closer_step shut_next)) (closer_step shut_all)) refl 0 refl
