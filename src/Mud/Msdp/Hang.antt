-- ===== src/Mud/Msdp/Hang.antt =====
-- mud.go: the array loop of `parseMSDPValue` on an element of no bytes.
use telnetty.Base.{ℕ, zero, suc, ◌≡◌, refl, sym, ◌∙◌, ◌⊎◌, inl, inr, [], ◌∷◌, ◌++◌, Bytes}
use mathlib.Core.Path.{subst}
use telnetty.Mud.Msdp.{
  msdp_var, msdp_table_close, msdp_array_open, Items, no_items, push, msdp_string, ends_key, cut_at,
  parsed, out_of_fuel, parse_msdp_value, parse_array, unmarshal_loop, unmarshal_msdp, starved, kind,
  string_of, head, then_value, after_value,
}
use telnetty.Mud.Msdp.Writable.{Lacks, cut_at-append}

-- The bytes that end a text and are no value.
abbrev pub IsStalling : ℕ → Type 0
IsStalling b = (b ≡ msdp_var) ⊎ (b ≡ msdp_table_close)

-- The element is read as the empty text, and the loop is where it was.
element :
    (n b : ℕ) (rest : Bytes)
    → IsStalling b
    → parse_msdp_value (suc n) (b ∷ rest) ≡ parsed (msdp_string []) (b ∷ rest)
unfolding parse_msdp_value kind string_of cut_at
element n b rest (inl e) = simp (e) refl
element n b rest (inr e) = simp (e) refl

array_turn :
    (n b : ℕ) (array : Items) (rest : Bytes)
    → IsStalling b
    → parse_array (suc n) array (b ∷ rest)
      ≡ then_value (parse_msdp_value n (b ∷ rest)) (λ val left. parse_array n (push array val) left)
unfolding parse_msdp_value head
array_turn n b array rest (inl e) =
    subst
      (λ c.
        parse_array (suc n) array (c ∷ rest)
        ≡ then_value (parse_msdp_value n (c ∷ rest))
            (λ val left. parse_array n (push array val) left))
      (sym e) refl
array_turn n b array rest (inr e) =
    subst
      (λ c.
        parse_array (suc n) array (c ∷ rest)
        ≡ then_value (parse_msdp_value n (c ∷ rest))
            (λ val left. parse_array n (push array val) left))
      (sym e) refl

starved_value : (bs : Bytes) → parse_msdp_value 0 bs ≡ out_of_fuel
unfolding parse_msdp_value
starved_value bs = refl

starved_array : (array : Items) (bs : Bytes) → parse_array 0 array bs ≡ out_of_fuel
unfolding parse_msdp_value
starved_array array bs = refl

array_stays :
    (n b : ℕ) (array : Items) (rest : Bytes)
    → IsStalling b
    → parse_array n array (b ∷ rest) ≡ out_of_fuel
unfolding then_value
array_stays zero b array rest h = starved_array array (b ∷ rest)
array_stays (suc zero) b array rest h =
    array_turn 0 b array rest h ∙ rw (starved_value (b ∷ rest)) refl
array_stays (suc (suc n)) b array rest h =
    array_turn (suc n) b array rest h
    ∙ rw (element n b rest h) (array_stays (suc n) b (push array (msdp_string [])) rest h)

array_value :
    (n b : ℕ) (rest : Bytes)
    → IsStalling b
    → parse_msdp_value n (msdp_array_open ∷ b ∷ rest) ≡ out_of_fuel
unfolding parse_msdp_value kind
array_value zero b rest h = refl
array_value (suc n) b rest h = array_stays n b no_items rest h

-- If a key that holds no byte that ends it is followed by an array whose first byte is `MSDP_VAR`
-- or `MSDP_TABLE_CLOSE`, no fuel is enough for `UnmarshalMSDP`: the array loop of
-- `parseMSDPValue` takes empty texts and stays where it is.
pub unmarshal_msdp-starved :
    (n b : ℕ) (key rest : Bytes)
    → Lacks ends_key key
    → IsStalling b
    → unmarshal_msdp n (msdp_var ∷ key ++ msdp_array_open ∷ b ∷ rest) ≡ starved
unfolding unmarshal_msdp unmarshal_loop after_value
unmarshal_msdp-starved zero b key rest h k = refl
unmarshal_msdp-starved (suc n) b key rest h k =
    simp (cut_at-append ends_key key (msdp_array_open ∷ b ∷ rest) h refl, array_value n b rest k)
      refl
