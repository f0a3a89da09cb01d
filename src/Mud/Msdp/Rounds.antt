-- ===== src/Mud/Msdp/Rounds.antt =====
-- mud.go: one call and one round of the readers of MSDP, on bytes that the writers wrote.
use telnetty.Base.{ℕ, suc, ◌≡◌, refl, ap, [], ◌∷◌, ◌++◌, append_assoc, Bytes}
use telnetty.Mud.Msdp.{
  msdp_var, msdp_table_close, msdp_array_close, MsdpValue, msdp_string, msdp_table, msdp_array,
  Fields, no_fields, field, Items, no_items, item, ends_key, ends_text, insert, push,
  write_msdp_value, write_fields, write_items, parsed, parse_msdp_value, parse_table, parse_array,
  unmarshal_loop, unmarshalled, kind, string_of, head, at_other, then_value, after_value,
}
use telnetty.Mud.Msdp.Writable.{Lacks, Stops, cut_at-append, Before}

-- A text ends at what stands behind it.
abbrev pub Follows : MsdpValue → Bytes → Type 0
Follows (msdp_string s) rest = Stops ends_text rest
Follows _ rest = Unit

pub write-Stops : (v : MsdpValue) (rest : Bytes) → Stops ends_key (write_msdp_value v ++ rest)
unfolding write_msdp_value
write-Stops (msdp_string s) rest = refl
write-Stops (msdp_table s) rest = refl
write-Stops (msdp_array s) rest = refl

pub head-write :
    (v : MsdpValue) (rest : Bytes) → head msdp_array_close (write_msdp_value v ++ rest) ≡ at_other
unfolding write_msdp_value head
head-write (msdp_string s) rest = refl
head-write (msdp_table s) rest = refl
head-write (msdp_array s) rest = refl

pub Stops-Follows : (v : MsdpValue) (rest : Bytes) → Stops ends_text rest → Follows v rest
Stops-Follows (msdp_string s) rest h = h
Stops-Follows (msdp_table s) rest h = tt
Stops-Follows (msdp_array s) rest h = tt

pub fields-Stops :
    (fs : Fields) (rest : Bytes) → Stops ends_text rest → Stops ends_text (write_fields fs ++ rest)
unfolding write_msdp_value
fields-Stops no_fields rest h = h
fields-Stops (field k v fs) rest h = refl

pub items-Follows :
    (v : MsdpValue) (vs : Items) (rest : Bytes)
    → Before v vs
    → Follows v (write_items vs ++ msdp_array_close ∷ rest)
unfolding write_msdp_value
items-Follows (msdp_string s) no_items rest h = refl
items-Follows (msdp_string s) (item (msdp_string _) vs) rest h = refl
items-Follows (msdp_string s) (item (msdp_table _) vs) rest h = absurd h
items-Follows (msdp_string s) (item (msdp_array _) vs) rest h = absurd h
items-Follows (msdp_table s) vs rest h = tt
items-Follows (msdp_array s) vs rest h = tt

-- One round of each loop.
pub table_round :
    (n : ℕ) (table : Fields) (k : Bytes) (v : MsdpValue) (bs left : Bytes)
    → Lacks ends_key k
    → Stops ends_key bs
    → parse_msdp_value n bs ≡ parsed v left
    → parse_table (suc n) table (msdp_var ∷ k ++ bs) ≡ parse_table n (insert k v table) left
unfolding parse_msdp_value head then_value
table_round n table k v bs left hk hs e = simp (cut_at-append ends_key k bs hk hs, e) refl

pub array_round :
    (n : ℕ) (array : Items) (v : MsdpValue) (bs left : Bytes)
    → head msdp_array_close bs ≡ at_other
    → parse_msdp_value n bs ≡ parsed v left
    → parse_array (suc n) array bs ≡ parse_array n (push array v) left
unfolding parse_msdp_value then_value
array_round n array v bs left h e = rw (parse_array, h, e) refl

pub unmarshal_round :
    (n : ℕ) (table : Fields) (k : Bytes) (v : MsdpValue) (bs left : Bytes)
    → Lacks ends_key k
    → Stops ends_key bs
    → parse_msdp_value n bs ≡ parsed v left
    → unmarshal_loop (suc n) table (msdp_var ∷ k ++ bs) ≡ unmarshal_loop n (insert k v table) left
unfolding unmarshal_loop after_value
unmarshal_round n table k v bs left hk hs e = simp (cut_at-append ends_key k bs hk hs, e) refl

-- The written value with what stands behind it, as the reader takes it apart.
pub string_read :
    (n : ℕ) (s rest : Bytes)
    → Lacks ends_text s
    → Stops ends_text rest
    → parse_msdp_value (suc n) (write_msdp_value (msdp_string s) ++ rest)
      ≡ parsed (msdp_string s) rest
unfolding parse_msdp_value write_msdp_value kind string_of
string_read n s rest h k = simp (cut_at-append ends_text s rest h k) refl

pub table_read :
    (n : ℕ) (fs : Fields) (rest : Bytes)
    → parse_msdp_value (suc n) (write_msdp_value (msdp_table fs) ++ rest)
      ≡ parse_table n no_fields (write_fields fs ++ msdp_table_close ∷ rest)
unfolding parse_msdp_value write_msdp_value kind
table_read n fs rest =
    ap (parse_table n no_fields) (append_assoc (write_fields fs) (msdp_table_close ∷ []) rest)

pub array_read :
    (n : ℕ) (vs : Items) (rest : Bytes)
    → parse_msdp_value (suc n) (write_msdp_value (msdp_array vs) ++ rest)
      ≡ parse_array n no_items (write_items vs ++ msdp_array_close ∷ rest)
unfolding parse_msdp_value write_msdp_value kind
array_read n vs rest =
    ap (parse_array n no_items) (append_assoc (write_items vs) (msdp_array_close ∷ []) rest)

pub field_bytes :
    (k : Bytes) (v : MsdpValue) (fs : Fields) (rest : Bytes)
    → write_fields (field k v fs) ++ rest
      ≡ msdp_var ∷ k ++ (write_msdp_value v ++ (write_fields fs ++ rest))
unfolding write_msdp_value
field_bytes k v fs rest = simp (append_assoc) refl

pub item_bytes :
    (v : MsdpValue) (vs : Items) (rest : Bytes)
    → write_items (item v vs) ++ rest ≡ write_msdp_value v ++ (write_items vs ++ rest)
unfolding write_msdp_value
item_bytes v vs rest = append_assoc (write_msdp_value v) (write_items vs) rest

pub table_end :
    (n : ℕ) (table : Fields) (rest : Bytes)
    → parse_table (suc n) table (write_fields no_fields ++ msdp_table_close ∷ rest)
      ≡ parsed (msdp_table table) rest
unfolding parse_msdp_value write_msdp_value head
table_end n table rest = refl

pub array_end :
    (n : ℕ) (array : Items) (rest : Bytes)
    → parse_array (suc n) array (write_items no_items ++ msdp_array_close ∷ rest)
      ≡ parsed (msdp_array array) rest
unfolding parse_msdp_value write_msdp_value head
array_end n array rest = refl

pub write_fields-Stops : (fs : Fields) → Stops ends_text (write_fields fs)
unfolding write_msdp_value
write_fields-Stops no_fields = tt
write_fields-Stops (field k v fs) = refl

pub last_field_bytes :
    (k : Bytes) (v : MsdpValue) (fs : Fields)
    → write_fields (field k v fs) ≡ msdp_var ∷ k ++ (write_msdp_value v ++ write_fields fs)
unfolding write_msdp_value
last_field_bytes k v fs = simp (append_assoc) refl

pub unmarshal_end :
    (n : ℕ) (table : Fields)
    → unmarshal_loop (suc n) table (write_fields no_fields) ≡ unmarshalled table
unfolding unmarshal_loop write_msdp_value
unmarshal_end n table = refl
