-- ===== src/Server/Invariant.antt =====
-- server.go: the counts, flags and lists that every step of the server keeps.
pub mod LoopSteps
pub mod HandlerSteps
pub mod CloserSteps
use telnetty.Base.{
  ℕ, zero, suc, ◌+◌, ◌-◌, ◌%◌, ◌^◌, ◌≤◌, ◌<◌, ◌≡◌, refl, sym, ap, Bool, true, false, List, [], ◌∷◌,
  ◌++◌, arith, ltb, ◌==◌, if◌then◌else◌, Bytes, length, get_or, set, ◌∙◌, length-append, length-set,
  get_or-set_self, get_or-set_ne, Option, none, some,
}
use telnetty.Conn.Output.{u64}
use telnetty.Base.Words.{u32}
use telnetty.Server.{
  Server, ServerError, server_closed, nil_handler, listen_error, Loop, idle, top, acquiring,
  accepting, refused, checking, got_conn, counted_accepted, counted_active, returned, Handler,
  started, running, leaving, unlisted, closed_conn, released, uncounted, finished, Closer,
  not_called, won, signalled, copying, shutting, waiting, done, timed_out, System, update,
}
use telnetty.Server.Sums.{sum, sum-append_one, sum-set, sum-le}
use telnetty.Server.Steps.{
  ended, LoopStep, listen_nil, listen_fails, listen, serve, stop, go_on, acquire, stop_waiting,
  accept, refuse, accept_fails, give_back, stop_refused, try_again, count_accepted, count_active,
  HandlerStep, register, return_handler, delete_conn, close_conn, release_token, uncount_active,
  count_closed, CloserStep, win, signal, close_listener, no_listener, copy, shut_next, shut_all,
  finish, time_out, Step, loop_step, spawn, handler_step, closer_step, lose, Reach, here, next,
}

-- The place in `acceptLimit` that the loop or a `handleConn` holds.
abbrev pub loop_holds : Loop → ℕ
loop_holds accepting = 1
loop_holds refused = 1
loop_holds got_conn = 1
loop_holds counted_accepted = 1
loop_holds counted_active = 1
loop_holds _ = 0

abbrev pub holds : Handler → ℕ
holds released = 0
holds uncounted = 0
holds finished = 0
holds _ = 1

-- The connection that the loop has counted and not handed over yet.
abbrev pub loop_accepted : Loop → ℕ
loop_accepted counted_accepted = 1
loop_accepted counted_active = 1
loop_accepted _ = 0

abbrev pub loop_active : Loop → ℕ
loop_active counted_active = 1
loop_active _ = 0

abbrev pub active : Handler → ℕ
active uncounted = 0
active finished = 0
active _ = 1

abbrev pub over : Handler → ℕ
over finished = 1
over _ = 0

abbrev pub is_listed : Handler → Bool
is_listed running = true
is_listed leaving = true
is_listed _ = false

abbrev pub loop_ended : Loop → ℕ
loop_ended (returned server_closed) = 1
loop_ended _ = 0

abbrev pub has_won : Closer → Bool
has_won not_called = false
has_won _ = true

abbrev pub has_signalled : Closer → Bool
has_signalled not_called = false
has_signalled won = false
has_signalled _ = true

abbrev pub has_finished : Closer → ℕ
has_finished done = 1
has_finished _ = 0

pub record Inv (m : Server) (p : Loop) (hs : List Handler) (c : Closer) : Type 0 where
  pub tokens_are : m.tokens ≡ loop_holds p + sum holds hs
  pub tokens_le : m.tokens ≤ m.accept_limit
  pub accepted_are : m.conns_accepted ≡ u64 (length hs + loop_accepted p)
  pub closed_are : m.conns_closed ≡ u64 (sum over hs)
  pub active_are : m.conns_active ≡ u32 (sum active hs + loop_active p)
  pub listed : (i : ℕ) → m.conns i ≡ is_listed (get_or hs i finished)
  pub closed_is : m.closed ≡ has_won c
  pub closing_is : m.closing ≡ has_signalled c
  pub done_are : m.close_done ≡ loop_ended p
  pub ends : loop_ended p ≡ 1 → m.closed ≡ true
  pub waits : has_finished c ≤ m.close_done

pub has_signalled-has_won : (c : Closer) → has_signalled c ≡ true → has_won c ≡ true
has_signalled-has_won not_called h = h
has_signalled-has_won won h = refl
has_signalled-has_won c h = ground arith

module _ {m : Server} {p : Loop} {hs : List Handler} {c : Closer} (inv : Inv m p hs c) where
  open inv use {
    tokens_are, tokens_le, accepted_are, closed_are, active_are, listed, closed_is, closing_is,
    done_are, ends, waits,
  }

  pub closing-closed : m.closing ≡ true → m.closed ≡ true
  closing-closed h = closed_is ∙ has_signalled-has_won c (sym closing_is ∙ h)
