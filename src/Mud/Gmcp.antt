-- ===== src/Mud/Gmcp.antt =====
-- mud.go: GMCP messages (`MarshalGMCP`, `UnmarshalGMCP`). `json.Marshal` is a parameter: the bytes
-- of a value, or none for an error.
use telnetty.Base.{
  ℕ, ◌≡◌, refl, false, Option, none, some, [], ◌∷◌, ◌++◌, ◌==◌, if◌then◌else◌, Bytes,
}

pub record GmcpMessage : Type 0 where
  pub package_name : Bytes
  pub content : Bytes

-- The `interface{}` of `MarshalGMCP`: bytes, or another value.
pub data Payload (A : Type 0) : Type 0 where
  raw : Bytes → Payload A
  value : A → Payload A

abbrev pub blank : ℕ
blank = 32

-- The text before the first blank and behind it.
unfoldable pub unmarshal_gmcp : Bytes → GmcpMessage
unmarshal_gmcp [] = record { package_name = []; content = [] }
unmarshal_gmcp (b ∷ bs) =
    let rest = unmarshal_gmcp bs in
    if b == blank
    then record { package_name = []; content = bs }
    else record rest { package_name = b ∷ rest.package_name }

abbrev pub NoBlank : Bytes → Type 0
NoBlank [] = Unit
NoBlank (b ∷ bs) = ((b == blank) ≡ false) × NoBlank bs

module _ {A : Type 0} (json : A → Option Bytes) where
  abbrev pub encoded : Payload A → Option Bytes
  encoded (raw d) = some d
  encoded (value a) = json a

  unfoldable pub marshal_gmcp : Bytes → Payload A → Option Bytes
  marshal_gmcp pkg p = elim (encoded p) [ some d ↦ some (pkg ++ blank ∷ d) | none ↦ none ]

-- A name without a blank and the payload come back.
pub unmarshal_gmcp-append :
    (pkg d : Bytes)
    → NoBlank pkg
    → unmarshal_gmcp (pkg ++ blank ∷ d) ≡ record { package_name = pkg; content = d }
unfolding unmarshal_gmcp
unmarshal_gmcp-append [] d h = refl
unmarshal_gmcp-append (b ∷ pkg) d (hb, h) = simp (hb, unmarshal_gmcp-append pkg d h) refl

pub marshal_gmcp-encoded :
    {A : Type 0} (json : A → Option Bytes) (pkg d : Bytes) (p : Payload A)
    → encoded json p ≡ some d
    → marshal_gmcp json pkg p ≡ some (pkg ++ blank ∷ d)
unfolding marshal_gmcp
marshal_gmcp-encoded json pkg d p h = rw (marshal_gmcp, h) refl
