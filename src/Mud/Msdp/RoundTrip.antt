-- ===== src/Mud/Msdp/RoundTrip.antt =====
-- mud.go: what `UnmarshalMSDP` makes of the bytes of `MarshalMSDP`.
use telnetty.Base.{ℕ, zero, suc, ◌≤◌, ◌<◌, ◌≡◌, refl, sym, ap, ◌∙◌, ◌∷◌, ◌++◌, arith, Bytes, length}
use telnetty.Mud.Msdp.{
  msdp_table_close, msdp_array_close, MsdpValue, msdp_string, msdp_table, msdp_array, Fields,
  no_fields, field, Items, no_items, item, insert, push, write_msdp_value, write_fields,
  write_items, marshal_msdp, parsed, parse_msdp_value, parse_table, parse_array, unmarshal_loop,
  unmarshal_msdp, unmarshalled,
}
use telnetty.Mud.Msdp.Writable.{
  IsWritable, AreWritable, AllWritable, append_fields, append_items, Fresh, insert-Absent,
  Fresh-insert, Fresh-nil, append-push, append_fields-nil, append_items-nil,
}
use telnetty.Mud.Msdp.Size.{size, size_fields, size_items, size_fields-le, size-pos}
use telnetty.Mud.Msdp.Rounds.{
  Follows, write-Stops, head-write, Stops-Follows, fields-Stops, items-Follows, table_round,
  array_round, unmarshal_round, string_read, table_read, array_read, field_bytes, item_bytes,
  table_end, array_end, write_fields-Stops, last_field_bytes, unmarshal_end,
}

mutual
  unfolding size IsWritable

  parse-write :
      (v : MsdpValue) (n : ℕ) (rest : Bytes)
      → IsWritable v
      → size v ≤ n
      → Follows v rest
      → parse_msdp_value n (write_msdp_value v ++ rest) ≡ parsed v rest
  parse-write v zero rest w h f = absurd (omega (arith, size-pos v))
  parse-write (msdp_string s) (suc n) rest w h f = string_read n s rest w f
  parse-write (msdp_table fs) (suc n) rest w h f =
      table_read n fs rest ∙ parse-fields fs n no_fields rest w (omega arith) (Fresh-nil fs)
  parse-write (msdp_array vs) (suc n) rest w h f =
      array_read n vs rest ∙ parse-items vs n no_items rest w (omega arith)

  parse-fields :
      (fs : Fields) (n : ℕ) (table : Fields) (rest : Bytes)
      → AreWritable fs
      → size_fields fs ≤ n
      → Fresh table fs
      → parse_table n table (write_fields fs ++ msdp_table_close ∷ rest)
        ≡ parsed (msdp_table (append_fields table fs)) rest
  parse-fields no_fields zero table rest w h f = absurd (omega arith)
  parse-fields no_fields (suc n) table rest w h f =
      table_end n table rest ∙ ap (λ t. parsed (msdp_table t) rest) (sym (append_fields-nil table))
  parse-fields (field k v fs) zero table rest w h f = absurd (omega arith)
  parse-fields (field k v fs) (suc n) table rest (wk, wv, un, wf) h (absent, f) =
      let left = write_fields fs ++ msdp_table_close ∷ rest in
      let read =
        parse-write v n left wv (omega arith)
          (Stops-Follows v left (fields-Stops fs (msdp_table_close ∷ rest) refl)) in
      ap (parse_table (suc n) table) (field_bytes k v fs (msdp_table_close ∷ rest))
      ∙ table_round n table k v (write_msdp_value v ++ left) left wk (write-Stops v left) read
      ∙ parse-fields fs n (insert k v table) rest wf (omega arith)
          (Fresh-insert k v table fs absent un f)
      ∙ ap (λ t. parsed (msdp_table t) rest) (insert-Absent k v table fs absent)

  parse-items :
      (vs : Items) (n : ℕ) (array : Items) (rest : Bytes)
      → AllWritable vs
      → size_items vs ≤ n
      → parse_array n array (write_items vs ++ msdp_array_close ∷ rest)
        ≡ parsed (msdp_array (append_items array vs)) rest
  parse-items no_items zero array rest w h = absurd (omega arith)
  parse-items no_items (suc n) array rest w h =
      array_end n array rest ∙ ap (λ t. parsed (msdp_array t) rest) (sym (append_items-nil array))
  parse-items (item v vs) zero array rest w h = absurd (omega arith)
  parse-items (item v vs) (suc n) array rest (wv, before, ws) h =
      let left = write_items vs ++ msdp_array_close ∷ rest in
      let read = parse-write v n left wv (omega arith) (items-Follows v vs rest before) in
      ap (parse_array (suc n) array) (item_bytes v vs (msdp_array_close ∷ rest))
      ∙ array_round n array v (write_msdp_value v ++ left) left (head-write v left) read
      ∙ parse-items vs n (push array v) rest ws (omega arith)
      ∙ ap (λ t. parsed (msdp_array t) rest) (append-push array vs v)

unmarshal-fields :
    (fs : Fields) (n : ℕ) (table : Fields)
    → AreWritable fs
    → size_fields fs ≤ n
    → Fresh table fs
    → unmarshal_loop n table (write_fields fs) ≡ unmarshalled (append_fields table fs)
unfolding size IsWritable
unmarshal-fields no_fields zero table w h f = absurd (omega arith)
unmarshal-fields no_fields (suc n) table w h f =
    unmarshal_end n table ∙ ap unmarshalled (sym (append_fields-nil table))
unmarshal-fields (field k v fs) zero table w h f = absurd (omega arith)
unmarshal-fields (field k v fs) (suc n) table (wk, wv, un, wf) h (absent, f) =
    let left = write_fields fs in
    let read =
      parse-write v n left wv (omega arith) (Stops-Follows v left (write_fields-Stops fs)) in
    ap (unmarshal_loop (suc n) table) (last_field_bytes k v fs)
    ∙ unmarshal_round n table k v (write_msdp_value v ++ left) left wk (write-Stops v left) read
    ∙ unmarshal-fields fs n (insert k v table) wf (omega arith)
        (Fresh-insert k v table fs absent un f)
    ∙ ap unmarshalled (insert-Absent k v table fs absent)

-- If no text holds a byte that ends a text, no key one that ends a key, the keys of each table are
-- distinct and in no array a text stands before a table or an array, then `UnmarshalMSDP` ends on
-- the bytes of `MarshalMSDP`, in whatever order the map was gone through, and gives the map back:
-- a unit of fuel for each byte and one more are enough.
pub unmarshal-marshal_msdp :
    (fs : Fields) (n : ℕ)
    → AreWritable fs
    → length (marshal_msdp fs) < n
    → unmarshal_msdp n (marshal_msdp fs) ≡ unmarshalled fs
unfolding marshal_msdp unmarshal_msdp
unmarshal-marshal_msdp fs n w h =
    unmarshal-fields fs n no_fields w (omega (arith, size_fields-le fs)) (Fresh-nil fs)
