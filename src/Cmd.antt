-- ===== src/Cmd.antt =====
-- The command codes of constants.go (RFC 854).
use Prim.Native.Nat.{ℕ}

abbrev pub iac : ℕ
iac = 255

abbrev pub dont : ℕ
dont = 254

abbrev pub do_cmd : ℕ
do_cmd = 253

abbrev pub wont : ℕ
wont = 252

abbrev pub will : ℕ
will = 251

abbrev pub sb : ℕ
sb = 250

abbrev pub ga : ℕ
ga = 249

abbrev pub el : ℕ
el = 248

abbrev pub ec : ℕ
ec = 247

abbrev pub ayt : ℕ
ayt = 246

abbrev pub ao : ℕ
ao = 245

abbrev pub ip : ℕ
ip = 244

abbrev pub break_cmd : ℕ
break_cmd = 243

abbrev pub dm : ℕ
dm = 242

abbrev pub nop : ℕ
nop = 241

abbrev pub se : ℕ
se = 240

abbrev pub eor : ℕ
eor = 239

abbrev pub abort : ℕ
abort = 238

abbrev pub susp : ℕ
susp = 237

abbrev pub eof : ℕ
eof = 236
