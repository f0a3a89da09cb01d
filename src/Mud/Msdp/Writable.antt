-- ===== src/Mud/Msdp/Writable.antt =====
-- mud.go: the MSDP values whose wire format can be read back, and the maps and arrays that a
-- reader builds entry by entry.
use telnetty.Base.{
  ℕ, Bytes, ℕ, Bytes, ℕ, Bytes, ℕ, Bytes, ℕ, Bytes, ℕ, Bytes, ℕ, Bytes, ℕ, Bytes, ℕ, Bytes, ℕ,
  Bytes, ℕ, Bytes, ℕ, Bytes, ℕ, ◌≡◌, refl, ap, Bool, true, false, [], ◌∷◌, ◌++◌, Bytes,
}
use telnetty.Base.Text.{same_bytes}
use telnetty.Mud.Msdp.{
  MsdpValue, msdp_string, msdp_table, msdp_array, Fields, no_fields, field, Items, no_items, item,
  ends_key, ends_text, insert, push, cut_at,
}

-- No byte of a text ends it.
abbrev pub Lacks : (ℕ → Bool) → Bytes → Type 0
Lacks ends [] = Unit
Lacks ends (b ∷ bs) = (ends b ≡ false) × Lacks ends bs

-- The first byte, if there is one, ends a text.
abbrev pub Stops : (ℕ → Bool) → Bytes → Type 0
Stops ends [] = Unit
Stops ends (b ∷ _) = ends b ≡ true

pub cut_at-append :
    (ends : ℕ → Bool) (s rest : Bytes)
    → Lacks ends s
    → Stops ends rest
    → cut_at ends (s ++ rest) ≡ (s, rest)
unfolding cut_at
cut_at-append ends [] [] h k = refl
cut_at-append ends [] (b ∷ rest) h k = simp (k) refl
cut_at-append ends (b ∷ s) rest (hb, hs) k = simp (hb, cut_at-append ends s rest hs k) refl

-- The later keys differ from this one.
abbrev pub Unlike : Bytes → Fields → Type 0
Unlike k no_fields = Unit
Unlike k (field j v fs) = (same_bytes j k ≡ false) × Unlike k fs

-- In an array a text needs a byte behind it that ends it, which a table or an array does not have.
abbrev pub Before : MsdpValue → Items → Type 0
Before (msdp_string _) (item (msdp_table _) _) = ⊥
Before (msdp_string _) (item (msdp_array _) _) = ⊥
Before _ _ = Unit

-- Texts have no byte that ends a text, keys none that ends a key, the keys of a table are distinct,
-- and in an array no text stands before a table or an array.
unfoldable mutual
  pub IsWritable : MsdpValue → Type 0
  IsWritable (msdp_string s) = Lacks ends_text s
  IsWritable (msdp_table fs) = AreWritable fs
  IsWritable (msdp_array vs) = AllWritable vs

  pub AreWritable : Fields → Type 0
  AreWritable no_fields = Unit
  AreWritable (field k v fs) = Lacks ends_key k × IsWritable v × Unlike k fs × AreWritable fs

  pub AllWritable : Items → Type 0
  AllWritable no_items = Unit
  AllWritable (item v vs) = IsWritable v × Before v vs × AllWritable vs

abbrev pub append_fields : Fields → Fields → Fields
append_fields no_fields fs = fs
append_fields (field k v es) fs = field k v (append_fields es fs)

abbrev pub append_items : Items → Items → Items
append_items no_items vs = vs
append_items (item w ws) vs = item w (append_items ws vs)

abbrev Absent : Bytes → Fields → Type 0
Absent j no_fields = Unit
Absent j (field k v fs) = (same_bytes j k ≡ false) × Absent j fs

-- No key of the entries to come is in the map.
abbrev pub Fresh : Fields → Fields → Type 0
Fresh table no_fields = Unit
Fresh table (field j v fs) = Absent j table × Fresh table fs

pub insert-Absent :
    (k : Bytes) (v : MsdpValue) (es fs : Fields)
    → Absent k es
    → append_fields (insert k v es) fs ≡ append_fields es (field k v fs)
unfolding insert
insert-Absent k v no_fields fs h = refl
insert-Absent k v (field j w es) fs (hj, h) = simp (hj, insert-Absent k v es fs h) refl

Absent-insert :
    (j k : Bytes) (v : MsdpValue) (es : Fields)
    → Absent k es
    → Absent j es
    → same_bytes j k ≡ false
    → Absent j (insert k v es)
unfolding insert
Absent-insert j k v no_fields a h e = (e, tt)
Absent-insert j k v (field i w es) (ai, a) (hi, h) e = simp (ai) (hi, Absent-insert j k v es a h e)

pub Fresh-insert :
    (k : Bytes) (v : MsdpValue) (es fs : Fields)
    → Absent k es
    → Unlike k fs
    → Fresh es fs
    → Fresh (insert k v es) fs
Fresh-insert k v es no_fields a u h = tt
Fresh-insert k v es (field j w fs) a (uj, u) (hj, h) =
    (Absent-insert j k v es a hj uj, Fresh-insert k v es fs a u h)

pub Fresh-nil : (fs : Fields) → Fresh no_fields fs
Fresh-nil no_fields = tt
Fresh-nil (field k v fs) = (tt, Fresh-nil fs)

pub append-push :
    (ws vs : Items) (v : MsdpValue) → append_items (push ws v) vs ≡ append_items ws (item v vs)
unfolding push
append-push no_items vs v = refl
append-push (item w ws) vs v = ap (item w) (append-push ws vs v)

pub append_fields-nil : (es : Fields) → append_fields es no_fields ≡ es
append_fields-nil no_fields = refl
append_fields-nil (field k v es) = ap (field k v) (append_fields-nil es)

pub append_items-nil : (ws : Items) → append_items ws no_items ≡ ws
append_items-nil no_items = refl
append_items-nil (item w ws) = ap (item w) (append_items-nil ws)
