-- ===== src/Mud/Msdp.antt =====
-- mud.go: MSDP values, `MarshalMSDP` and `UnmarshalMSDP`. A map is the list of its entries in the
-- order of an iteration. An index into the data is the data behind it. The messages of the errors
-- leave out the position.
pub mod Writable
pub mod Size
pub mod Rounds
pub mod RoundTrip
pub mod Hang
use telnetty.Base.{
  ℕ, zero, suc, ◌+◌, ◌-◌, Bool, true, false, List, [], ◌∷◌, ◌++◌, ◌==◌, if◌then◌else◌, Bytes, ◌||◌,
  drop,
}
use telnetty.Base.Text.{same_bytes}

abbrev pub msdp_var : ℕ
msdp_var = 1

abbrev pub msdp_val : ℕ
msdp_val = 2

abbrev pub msdp_table_open : ℕ
msdp_table_open = 3

abbrev pub msdp_table_close : ℕ
msdp_table_close = 4

abbrev pub msdp_array_open : ℕ
msdp_array_open = 5

abbrev pub msdp_array_close : ℕ
msdp_array_close = 6

-- `MSDPValue`, as the three functions that make one leave it.
mutual
  pub data MsdpValue : Type 0 where
    msdp_string : Bytes → MsdpValue
    msdp_table : Fields → MsdpValue
    msdp_array : Items → MsdpValue

  pub data Fields : Type 0 where
    no_fields : Fields
    field : Bytes → MsdpValue → Fields → Fields

  pub data Items : Type 0 where
    no_items : Items
    item : MsdpValue → Items → Items

-- `writeMSDPValue`, with the bytes that it writes as its result.
unfoldable mutual
  pub write_msdp_value : MsdpValue → Bytes
  write_msdp_value (msdp_table fs) = msdp_table_open ∷ write_fields fs ++ msdp_table_close ∷ []
  write_msdp_value (msdp_array vs) = msdp_array_open ∷ write_items vs ++ msdp_array_close ∷ []
  write_msdp_value (msdp_string s) = msdp_val ∷ s

  pub write_fields : Fields → Bytes
  write_fields no_fields = []
  write_fields (field k v fs) = (msdp_var ∷ k) ++ write_msdp_value v ++ write_fields fs

  pub write_items : Items → Bytes
  write_items no_items = []
  write_items (item v vs) = write_msdp_value v ++ write_items vs

unfoldable pub marshal_msdp : Fields → Bytes
marshal_msdp fs = write_fields fs

-- The bytes before the first one of a kind, and the rest from it on.
pub cut_at : (ℕ → Bool) → Bytes → Bytes × Bytes
cut_at ends [] = ([], [])
cut_at ends (b ∷ bs) =
    let (taken, rest) = cut_at ends bs in if ends b then ([], b ∷ bs) else (b ∷ taken, rest)

abbrev pub ends_key : ℕ → Bool
ends_key b = b == msdp_val || b == msdp_table_open || b == msdp_array_open

abbrev pub ends_text : ℕ → Bool
ends_text b = b == msdp_var || b == msdp_val || b == msdp_table_close || b == msdp_array_close

-- `table[key] = val`
pub insert : Bytes → MsdpValue → Fields → Fields
insert k v no_fields = field k v no_fields
insert k v (field j w fs) =
    let rest = insert k v fs in if same_bytes k j then field k v fs else field j w rest

pub push : Items → MsdpValue → Items
push no_items v = item v no_items
push (item w vs) v = item w (push vs v)

-- A value with the data behind it, or `-1`.
pub data Parsed : Type 0 where
  out_of_fuel failed : Parsed
  parsed : MsdpValue → Bytes → Parsed

-- What the first byte of a value stands for.
pub data Kind : Type 0 where
  a_string a_table an_array plain_text : Kind

pub kind : ℕ → Kind
kind b =
    if b == msdp_val
    then a_string
    else if b == msdp_table_open
    then a_table
    else if b == msdp_array_open
    then an_array
    else plain_text

pub string_of : Bytes × Bytes → Parsed
string_of (text, rest) = parsed (msdp_string text) rest

-- What a loop sees at its head: the end of the data, the byte that closes, `MSDP_VAR`, or another.
pub data Head : Type 0 where
  at_end at_close at_var at_other : Head

pub head : ℕ → Bytes → Head
head close [] = at_end
head close (b ∷ _) = if b == close then at_close else if b == msdp_var then at_var else at_other

-- What follows a call of `parseMSDPValue`, if it gives a value.
pub then_value : Parsed → (MsdpValue → Bytes → Parsed) → Parsed
then_value (parsed val bs) next = next val bs
then_value failed next = failed
then_value out_of_fuel next = out_of_fuel

-- `parseMSDPValue`: each call and each round of a loop costs a unit of fuel.
unfoldable mutual
  pub parse_msdp_value : ℕ → Bytes → Parsed
  parse_msdp_value zero bs = out_of_fuel
  parse_msdp_value (suc n) [] = parsed (msdp_string []) []
  parse_msdp_value (suc n) (b ∷ bs) = elim (kind b) [
    | a_string ↦ string_of (cut_at ends_text bs)
    | a_table ↦ parse_table n no_fields bs
    | an_array ↦ parse_array n no_items bs
    | plain_text ↦ string_of (cut_at ends_text (b ∷ bs))
  ]

  pub parse_table : ℕ → Fields → Bytes → Parsed
  parse_table zero table bs = out_of_fuel
  parse_table (suc n) table bs =
      let (key, rest) = cut_at ends_key (drop 1 bs) in
      elim (head msdp_table_close bs) [
        | at_close ↦ parsed (msdp_table table) (drop 1 bs)
        | at_var ↦
            then_value (parse_msdp_value n rest)
              λ val left. parse_table n (insert key val table) left
        | at_end ↦ failed
        | at_other ↦ failed
      ]

  pub parse_array : ℕ → Items → Bytes → Parsed
  parse_array zero array bs = out_of_fuel
  parse_array (suc n) array bs = elim (head msdp_array_close bs) [
    | at_close ↦ parsed (msdp_array array) (drop 1 bs)
    | at_end ↦ failed
    | _ ↦ then_value (parse_msdp_value n bs) λ val left. parse_array n (push array val) left
  ]

pub data Unmarshalled : Type 0 where
  starved expected_var : Unmarshalled
  bad_value : Bytes → Unmarshalled
  unmarshalled : Fields → Unmarshalled

pub after_value : Bytes → Parsed → (MsdpValue → Bytes → Unmarshalled) → Unmarshalled
after_value key (parsed val bs) next = next val bs
after_value key failed next = bad_value key
after_value key out_of_fuel next = starved

-- The loop of `UnmarshalMSDP`.
pub unmarshal_loop : ℕ → Fields → Bytes → Unmarshalled
unmarshal_loop zero result bs = starved
unmarshal_loop (suc n) result [] = unmarshalled result
unmarshal_loop (suc n) result (b ∷ bs) =
    let (key, rest) = cut_at ends_key bs in
    elim (b == msdp_var) [
      | true ↦
          after_value key (parse_msdp_value n rest)
            λ val left. unmarshal_loop n (insert key val result) left
      | false ↦ expected_var
    ]

pub unmarshal_msdp : ℕ → Bytes → Unmarshalled
unmarshal_msdp n bs = unmarshal_loop n no_fields bs
