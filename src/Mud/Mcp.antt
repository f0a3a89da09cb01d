-- ===== src/Mud/Mcp.antt =====
-- mud.go: `ParseMCP` and `MCPMessage.String`. A map is the list of its entries in the order of an
-- iteration.
pub mod RoundTrip
use telnetty.Base.{
  ℕ, true, Option, none, some, List, [], ◌∷◌, ◌++◌, if◌then◌else◌, Bytes, take, drop,
}
use telnetty.Base.Text.{same_bytes}
use telnetty.Base.Text.{space, colon, fields, cut_colon}

abbrev pub Params : Type 0
Params = List (Bytes × Bytes)

pub record McpMessage : Type 0 where
  pub auth_key : Bytes
  pub package_name : Bytes
  pub tag : Bytes
  pub params : Params

pub data ParsedMcp : Type 0 where
  not_mcp invalid_mcp : ParsedMcp
  mcp : McpMessage → ParsedMcp

-- "#$#"
abbrev pub mcp_prefix : Bytes
mcp_prefix = 35 ∷ 36 ∷ 35 ∷ []

-- `msg.Params[key] = val`
pub set_param : Bytes → Bytes → Params → Params
set_param key val [] = (key, val) ∷ []
set_param key val ((j, w) ∷ ps) =
    let rest = set_param key val ps in if same_bytes key j then (key, val) ∷ ps else (j, w) ∷ rest

-- What a round of the loop over the parts does with a part and the next one, if there is one: it
-- passes over it, sets a parameter, or sets it to the next part and passes over that.
pub data Turn : Type 0 where
  no_param : Turn
  param : Bytes → Bytes → Turn
  param_of_next : Bytes → Turn

abbrev turn_with : Option (Bytes × Bytes) → Option (Option (Bytes × Bytes)) → Turn
turn_with (some (c ∷ key, [])) (some none) = param_of_next (c ∷ key)
turn_with (some (c ∷ key, val)) _ = param (c ∷ key) val
turn_with _ _ = no_param

pub turn : Bytes → Turn
turn part = turn_with (cut_colon part) none

pub turn_before : Bytes → Bytes → Turn
turn_before part next = turn_with (cut_colon part) (some (cut_colon next))

pub parse_params : Params → List Bytes → Params
parse_params ps [] = ps
parse_params ps (part ∷ []) = elim (turn part) [ param key val ↦ set_param key val ps | _ ↦ ps ]
parse_params ps (part ∷ next ∷ parts) = elim (turn_before part next) [
  | no_param ↦ parse_params ps (next ∷ parts)
  | param key val ↦ parse_params (set_param key val ps) (next ∷ parts)
  | param_of_next key ↦ parse_params (set_param key next ps) parts
]

-- The check for the tag and the loop.
pub parse_tag : Bytes → Bytes → List Bytes → McpMessage
parse_tag package_name auth_key [] = record {
  auth_key = auth_key;
  package_name = package_name;
  tag = [];
  params = [];
}
parse_tag package_name auth_key (tag ∷ parts) = record {
  auth_key = auth_key;
  package_name = package_name;
  tag = tag;
  params = parse_params [] parts;
}

pub parse_parts : List Bytes → ParsedMcp
parse_parts (package_name ∷ second ∷ parts) = elim (cut_colon second) [
  | none ↦ mcp (parse_tag package_name second parts)
  | some _ ↦ mcp (parse_tag package_name [] (second ∷ parts))
]
parse_parts _ = invalid_mcp

pub parse_mcp : Bytes → ParsedMcp
parse_mcp line =
    if same_bytes (take 3 line) mcp_prefix then parse_parts (fields (drop 3 line)) else not_mcp

abbrev pub unless_empty : Bytes → Bytes
unless_empty [] = []
unless_empty (c ∷ cs) = space ∷ c ∷ cs

pub write_params : Params → Bytes
write_params [] = []
write_params ((k, v) ∷ ps) = space ∷ k ++ (colon ∷ space ∷ v) ++ write_params ps

pub mcp_string : McpMessage → Bytes
mcp_string m =
    mcp_prefix
    ++ m.package_name
    ++ unless_empty m.auth_key
    ++ unless_empty m.tag
    ++ write_params m.params
