-- ===== src/Opt.antt =====
-- The option codes of constants.go that the program acts on.
use Prim.Native.Nat.{ℕ}

abbrev pub binary : ℕ
binary = 0

abbrev pub echo : ℕ
echo = 1

abbrev pub sga : ℕ
sga = 3

abbrev pub terminal_type : ℕ
terminal_type = 24

abbrev pub naws : ℕ
naws = 31

abbrev pub term_speed : ℕ
term_speed = 32

abbrev pub new_environ : ℕ
new_environ = 39

abbrev pub charset : ℕ
charset = 42

abbrev pub mccp2 : ℕ
mccp2 = 86

abbrev pub mccp3 : ℕ
mccp3 = 87

abbrev pub mssp : ℕ
mssp = 70

abbrev pub msdp : ℕ
msdp = 69

abbrev pub gmcp : ℕ
gmcp = 201

abbrev pub mcp : ℕ
mcp = 200
