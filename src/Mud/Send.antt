-- ===== src/Mud/Send.antt =====
-- mud.go: `SendGMCP` and `SendMSSP`.
pub mod Received
use telnetty.Base.{Option, none, some, List, Bytes}
use telnetty.Opt
use telnetty.Slices.{Growth}
use telnetty.Conn.Output.{WriteError, Socket, Out, send_subnegotiation}
use telnetty.Mud.Gmcp.{Payload, marshal_gmcp}
use telnetty.Mud.Mssp.{MsspVar, marshal_mssp}

pub data SendError : Type 0 where
  json_error : SendError
  write_error : WriteError → SendError

abbrev pub as_send_error : Option WriteError → Option SendError
as_send_error none = none
as_send_error (some err) = some (write_error err)

module _ {A : Type 0} (json : A → Option Bytes) where
  unfoldable pub send_gmcp : Growth → Socket → Out → Bytes → Payload A → Option SendError × Out
  send_gmcp grow net o pkg p = elim (marshal_gmcp json pkg p) [
    | some payload ↦
        let (e, o') = send_subnegotiation grow net o Opt.gmcp payload in (as_send_error e, o')
    | none ↦ (some json_error, o)
  ]

pub send_mssp : Growth → Socket → Out → List MsspVar → Option WriteError × Out
send_mssp grow net o vars = send_subnegotiation grow net o Opt.mssp (marshal_mssp vars)
