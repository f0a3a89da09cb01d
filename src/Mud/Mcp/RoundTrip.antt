-- ===== src/Mud/Mcp/RoundTrip.antt =====
-- mud.go: what `ParseMCP` makes of the text of `MCPMessage.String`.
use telnetty.Base.{
  ◌≡◌, refl, sym, ap, ◌∙◌, false, List, [], ◌∷◌, ◌++◌, append-nil, append_assoc, Bytes,
}
use telnetty.Base.Text.{same_bytes}
use telnetty.Base.Text.{
  space, colon, NonEmpty, IsWord, HasNoColon, AreWords, spaced, blanked, fields-spaced,
  cut_colon-none, cut_colon-append, IsWord-append_colon,
}
use telnetty.Mud.Mcp.{
  Params, McpMessage, mcp, mcp_prefix, set_param, param_of_next, turn_before, parse_params,
  parse_parts, parse_mcp, write_params, mcp_string, parse_tag, unless_empty,
}

-- The later keys differ from this one.
abbrev Unlike : Bytes → Params → Type 0
Unlike k [] = Unit
Unlike k ((j, _) ∷ ps) = (same_bytes j k ≡ false) × Unlike k ps

abbrev Absent : Bytes → Params → Type 0
Absent j [] = Unit
Absent j ((k, _) ∷ ps) = (same_bytes j k ≡ false) × Absent j ps

abbrev Fresh : Params → Params → Type 0
Fresh done [] = Unit
Fresh done ((j, _) ∷ ps) = Absent j done × Fresh done ps

-- A word without a colon.
abbrev pub IsPlain : Bytes → Type 0
IsPlain w = NonEmpty w × IsWord w × HasNoColon w

-- Keys and values are words without a colon, and the keys are distinct.
abbrev pub ArePlain : Params → Type 0
ArePlain [] = Unit
ArePlain ((k, v) ∷ ps) = IsPlain k × IsPlain v × Unlike k ps × ArePlain ps

set_param-Absent : (k v : Bytes) (ps : Params) → Absent k ps → set_param k v ps ≡ ps ++ (k, v) ∷ []
unfolding set_param
set_param-Absent k v [] h = refl
set_param-Absent k v ((j, w) ∷ ps) (hj, h) = simp (hj, set_param-Absent k v ps h) refl

Absent-append :
    (j k v : Bytes) (ps : Params)
    → Absent j ps
    → same_bytes j k ≡ false
    → Absent j (ps ++ (k, v) ∷ [])
Absent-append j k v [] h e = (e, tt)
Absent-append j k v ((i, w) ∷ ps) (hi, h) e = (hi, Absent-append j k v ps h e)

Fresh-append :
    (k v : Bytes) (done ps : Params) → Unlike k ps → Fresh done ps → Fresh (done ++ (k, v) ∷ []) ps
Fresh-append k v done [] u h = tt
Fresh-append k v done ((j, w) ∷ ps) (uj, u) (hj, h) =
    (Absent-append j k v done hj uj, Fresh-append k v done ps u h)

Fresh-nil : (ps : Params) → Fresh [] ps
Fresh-nil [] = tt
Fresh-nil ((k, v) ∷ ps) = (tt, Fresh-nil ps)

-- The words that the parameters are written as.
abbrev pieces : Params → List Bytes
pieces [] = []
pieces ((k, v) ∷ ps) = (k ++ colon ∷ []) ∷ v ∷ pieces ps

turn_before-pieces :
    (k v : Bytes)
    → NonEmpty k
    → HasNoColon k
    → HasNoColon v
    → turn_before (k ++ colon ∷ []) v ≡ param_of_next k
unfolding turn_before
turn_before-pieces [] v n hk hv = absurd n
turn_before-pieces (c ∷ k) v n hk hv =
    simp (cut_colon-append (c ∷ k) [] hk, cut_colon-none v hv) refl

params_turn :
    (done : Params) (part next key : Bytes) (parts : List Bytes)
    → turn_before part next ≡ param_of_next key
    → parse_params done (part ∷ next ∷ parts) ≡ parse_params (set_param key next done) parts
unfolding parse_params
params_turn done part next key parts h = rw (parse_params, h) refl

parse_params-pieces :
    (done ps : Params) → ArePlain ps → Fresh done ps → parse_params done (pieces ps) ≡ done ++ ps
unfolding parse_params
parse_params-pieces done [] h f = sym (append-nil done)
parse_params-pieces done ((k, v) ∷ ps) ((nk, wk, ck), (nv, wv, cv), u, h) (a, f) =
    params_turn done (k ++ colon ∷ []) v k (pieces ps) (turn_before-pieces k v nk ck cv)
    ∙ ap (λ qs. parse_params qs (pieces ps)) (set_param-Absent k v done a)
    ∙ parse_params-pieces (done ++ (k, v) ∷ []) ps h (Fresh-append k v done ps u f)
    ∙ append_assoc done ((k, v) ∷ []) ps

NonEmpty-append : (w cs : Bytes) → NonEmpty w → NonEmpty (w ++ cs)
NonEmpty-append [] cs h = absurd h
NonEmpty-append (c ∷ w) cs h = tt

pieces-AreWords : (ps : Params) → ArePlain ps → AreWords (pieces ps)
pieces-AreWords [] h = tt
pieces-AreWords ((k, v) ∷ ps) ((nk, wk, ck), (nv, wv, cv), u, h) =
    (NonEmpty-append k (colon ∷ []) nk, IsWord-append_colon k wk, (nv, wv, pieces-AreWords ps h))

write_params-blanked : (ps : Params) → write_params ps ≡ blanked (pieces ps)
unfolding write_params
write_params-blanked [] = refl
write_params-blanked ((k, v) ∷ ps) = simp (append_assoc, write_params-blanked ps) refl

unless_empty-NonEmpty : (w : Bytes) → NonEmpty w → unless_empty w ≡ space ∷ w
unless_empty-NonEmpty [] h = absurd h
unless_empty-NonEmpty (c ∷ w) h = refl

-- The parts of a message, joined by blanks.
abbrev parts_of : McpMessage → List Bytes
parts_of m = m.package_name ∷ m.auth_key ∷ m.tag ∷ pieces m.params

mcp_string-spaced :
    (m : McpMessage)
    → NonEmpty m.auth_key
    → NonEmpty m.tag
    → mcp_string m ≡ mcp_prefix ++ spaced (parts_of m)
unfolding mcp_string
mcp_string-spaced m ha ht =
    simp
      (
        unless_empty-NonEmpty m.auth_key ha,
        unless_empty-NonEmpty m.tag ht,
        write_params-blanked m.params,
        append_assoc,
      )
      refl

parse_parts-parts_of :
    (m : McpMessage) → HasNoColon m.auth_key → ArePlain m.params → parse_parts (parts_of m) ≡ mcp m
unfolding parse_parts parse_tag
parse_parts-parts_of m hc hp =
    rw (parse_parts, cut_colon-none m.auth_key hc)
      (ap (λ ps. mcp (record m { params = ps }))
        (parse_params-pieces [] m.params hp (Fresh-nil m.params)))

-- If the name of the package and the tag are words, that is not empty and without blanks, if the
-- key, and the names and values of the parameters are words without a colon, and if no two
-- parameters have one name, then `ParseMCP` gives back the message that `String` has written, in
-- whatever order the map was gone through.
pub parse_mcp-mcp_string :
    (m : McpMessage)
    → NonEmpty m.package_name
    → IsWord m.package_name
    → IsPlain m.auth_key
    → NonEmpty m.tag
    → IsWord m.tag
    → ArePlain m.params
    → parse_mcp (mcp_string m) ≡ mcp m
unfolding parse_mcp
parse_mcp-mcp_string m np wp (na, wa, ca) nt wt hp =
    ap parse_mcp (mcp_string-spaced m na nt)
    ∙ ap parse_parts
        (fields-spaced (parts_of m) (np, wp, (na, wa, (nt, wt, pieces-AreWords m.params hp))))
    ∙ parse_parts-parts_of m ca hp
