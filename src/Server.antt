-- ===== src/Server.antt =====
-- server.go: `Server`, its options and its goroutines. The accept loop of `Serve` and
-- `ListenAndServe`, each `handleConn` and the one `Close` or `Shutdown` that wins the swap have
-- program counters; the n-th connection accepted is the number n.
pub mod Sums
pub mod Steps
pub mod Invariant
pub mod Safety
pub mod Listening
pub mod Stopping
pub mod Shutting
mod Tests
use telnetty.Base.{ℕ, Bool, false, Option, none, some, List, [], ◌∷◌, ◌==◌, if◌then◌else◌, Bytes}
use telnetty.Conn.Input.{Config}

pub data ServerError : Type 0 where
  server_closed nil_handler listen_error : ServerError

-- A channel without data is the number of its elements, or whether it is closed. `close_done`
-- counts the calls of `close(s.closeDone)`, of which the second panics. `conns` is the map of the
-- connections, `shut` says on which of them `Close` has been called.
pub record Server : Type 0 where
  pub addr : Bytes
  pub config : Config
  pub handler : Bool
  pub listener : Bool
  pub listener_closed : Bool
  pub closed : Bool
  pub closing : Bool
  pub close_done : ℕ
  pub conns : ℕ → Bool
  pub shut : ℕ → Bool
  pub conns_accepted : ℕ
  pub conns_closed : ℕ
  pub conns_active : ℕ
  pub accept_limit : ℕ
  pub tokens : ℕ

-- What the options set; no limit stands for the nil channel.
pub record Settings : Type 0 where
  pub config : Config
  pub handler : Bool
  pub limit : Option ℕ

pub data ServerOption : Type 0 where
  with_config : Config → ServerOption
  with_handler : Bool → ServerOption
  with_max_conns : ℕ → ServerOption

pub apply_option : ServerOption → Settings → Settings
apply_option (with_config cfg) s = record s { config = cfg }
apply_option (with_handler h) s = record s { handler = h }
apply_option (with_max_conns n) s = record s { limit = some n }

pub apply_options : List ServerOption → Settings → Settings
apply_options [] s = s
apply_options (o ∷ opts) s = apply_options opts (apply_option o s)

abbrev pub made : Bytes → Settings → Server
made addr s = record {
  addr = addr;
  config = s.config;
  handler = s.handler;
  listener = false;
  listener_closed = false;
  closed = false;
  closing = false;
  close_done = 0;
  conns = λ _. false;
  shut = λ _. false;
  conns_accepted = 0;
  conns_closed = 0;
  conns_active = 0;
  accept_limit = elim s.limit [ some n ↦ n | none ↦ 10000 ];
  tokens = 0;
}

-- The zero `Config` is an argument.
pub new_server : Config → Bytes → List ServerOption → Server
new_server zero_config addr opts =
    made addr (apply_options opts (record { config = zero_config; handler = false; limit = none }))

-- Where the accept loop stands.
pub data Loop : Type 0 where
  idle : Loop  -- before the call
  top : Loop  -- the first `select`
  acquiring : Loop  -- the second `select`
  accepting : Loop  -- `ln.Accept()`
  refused : Loop  -- behind an error, before `<-s.acceptLimit`
  checking : Loop  -- before `atomic.LoadUint32(&s.closed)`
  got_conn : Loop  -- behind a connection
  counted_accepted : Loop
  counted_active : Loop  -- before the `go` statement
  returned : ServerError → Loop

-- Where a `handleConn` stands; the second deferred function runs first.
pub data Handler : Type 0 where
  started : Handler
  running : Handler  -- in `s.handler(c)`
  leaving : Handler  -- before `delete(s.conns, c)`
  unlisted : Handler  -- before `c.Close()`
  closed_conn : Handler  -- before `<-s.acceptLimit`
  released : Handler  -- before the decrement of `connsActive`
  uncounted : Handler  -- before the increment of `connsClosed`
  finished : Handler

-- Where the winning call of `Close` or `Shutdown` stands.
pub data Closer : Type 0 where
  not_called : Closer
  won : Closer  -- before `close(s.closing)`
  signalled : Closer  -- before the close of the listener
  copying : Closer  -- before the copy of `s.conns`
  shutting : List ℕ → Closer  -- the loop over the copy
  waiting : Closer  -- `<-s.closeDone`
  done : Closer  -- returned nil
  timed_out : Closer  -- `Shutdown` returned the error of its context

-- The server with its goroutines.
pub record System : Type 0 where
  pub server : Server
  pub loop : Loop
  pub handlers : List Handler
  pub closer : Closer

abbrev pub at_start : Server → System
at_start s = record { server = s; loop = idle; handlers = []; closer = not_called }

pub update : (ℕ → Bool) → ℕ → Bool → ℕ → Bool
update f i b j = if i == j then b else f j
