-- ===== src/Conn/Samples.antt =====
-- A connection that enables ECHO only, a socket and a growth of `append`, for the tests.
use telnetty.Base.{◌+◌, refl, true, false, none, [], arith, length, replicate}
use telnetty.Slices.{Growth, Fits}
use telnetty.Ring.{Ring}
use telnetty.Ring.Invariant.{IsValid}
use telnetty.Parser.State
use telnetty.Parser.{new_parser}
use telnetty.Options.{new_negotiator}
use telnetty.Conn.Output.{Socket, Out}
use telnetty.Conn.Output.Extend.{IsWriter}
use telnetty.Conn.Input.{Config, Conn}

abbrev pub double : Growth
double old needed = old + needed

pub double-Fits : Fits double
double-Fits old needed = omega arith

abbrev pub good : Socket
good i p = (length p, true)

pub good-IsWriter : IsWriter good
good-IsWriter = record { taken_le = λ i p. omega arith; all_taken = λ i p e. refl }

abbrev pub echo_only : Config
echo_only = record {
  enable_binary = false;
  enable_echo = true;
  enable_sga = false;
  enable_naws = false;
  enable_ttype = false;
  enable_term_speed = false;
  enable_new_environ = false;
  enable_charset = false;
  enable_mccp2 = false;
  enable_mccp3 = false;
  enable_msdp = false;
  enable_gmcp = false;
  enable_mssp = false;
  enable_mcp = false;
  has_handler = true;
}

abbrev pub ring_of_eight : Ring
ring_of_eight = record {
  buf = record { mem = replicate 8 0; len = 8 };
  mask = 7;
  rhead = 0;
  wtail = 0;
}

abbrev pub unused : Out
unused = record {
  closed = false;
  buf = record { mem = replicate 32 0; len = 0 };
  bytes_written = 0;
  commands_sent = 0;
  calls = 0;
  wire = [];
}

abbrev pub fresh : Conn
fresh = record {
  config = echo_only;
  parser = new_parser;
  negotiator = new_negotiator;
  read_buf = ring_of_eight;
  out = unused;
  queue = [];
  term_type = none;
  term_width = 0;
  term_height = 0;
  options_negotiated = 0;
  subnegotiations = 0;
}

pub ring_of_eight-IsValid : IsValid 3 ring_of_eight
ring_of_eight-IsValid = record {
  small = omega arith;
  mask_is = refl;
  storage = omega arith;
  buf_len = refl;
  head_lt = omega arith;
  tail_lt = omega arith;
  within = omega arith;
}

pub new_parser-IsValid : State.IsValid 512 new_parser
new_parser-IsValid = record {
  buffer = record { unlimited = refl; cap_is = refl; len_le = omega arith };
  fresh = λ _. refl;
}
