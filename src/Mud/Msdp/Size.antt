-- ===== src/Mud/Msdp/Size.antt =====
-- mud.go: how much fuel the reader of an MSDP value needs.
use Prim.Native.Nat.{max}
use telnetty.Base.{ℕ, suc, ◌+◌, ◌≤◌, ◌<◌, [], ◌∷◌, ◌++◌, arith, length, length-append}
use telnetty.Mud.Msdp.{
  msdp_table_close, msdp_array_close, MsdpValue, msdp_string, msdp_table, msdp_array, Fields,
  no_fields, field, Items, no_items, item, write_msdp_value, write_fields, write_items,
}

-- The fuel that a value needs.
unfoldable mutual
  pub size : MsdpValue → ℕ
  size (msdp_string s) = 1
  size (msdp_table fs) = suc (size_fields fs)
  size (msdp_array vs) = suc (size_items vs)

  pub size_fields : Fields → ℕ
  size_fields no_fields = 1
  size_fields (field k v fs) = suc (max (size v) (size_fields fs))

  pub size_items : Items → ℕ
  size_items no_items = 1
  size_items (item v vs) = suc (max (size v) (size_items vs))

pub size-pos : (v : MsdpValue) → 0 < size v
unfolding size
size-pos (msdp_string s) = omega arith
size-pos (msdp_table fs) = omega arith
size-pos (msdp_array vs) = omega arith

mutual
  unfolding size write_msdp_value

  pub size-le : (v : MsdpValue) → size v ≤ length (write_msdp_value v)
  size-le (msdp_string s) = omega arith
  size-le (msdp_table fs) =
      omega (arith, size_fields-le fs, length-append (write_fields fs) (msdp_table_close ∷ []))
  size-le (msdp_array vs) =
      omega (arith, size_items-le vs, length-append (write_items vs) (msdp_array_close ∷ []))

  pub size_fields-le : (fs : Fields) → size_fields fs ≤ length (write_fields fs) + 1
  size_fields-le no_fields = omega arith
  size_fields-le (field k v fs) = omega (
    arith,
    size-le v,
    size_fields-le fs,
    length-append (k ++ write_msdp_value v) (write_fields fs),
    length-append k (write_msdp_value v),
  )

  size_items-le : (vs : Items) → size_items vs ≤ length (write_items vs) + 1
  size_items-le no_items = omega arith
  size_items-le (item v vs) = omega (
    arith,
    size-pos v,
    size-le v,
    size_items-le vs,
    length-append (write_msdp_value v) (write_items vs),
  )
