-- ===== src/Mud/Mssp.antt =====
-- mud.go: `MSSPVar` and `MarshalMSSP`.
use telnetty.Base.{
  ℕ, ◌≡◌, refl, sym, ap, ap₂, ◌∙◌, ◌≢◌, ◌⊎◌, inl, inr, List, [], ◌∷◌, ◌++◌, append_assoc, Bytes,
  drop,
}

pub record MsspVar : Type 0 where
  pub name : Bytes
  pub value : Bytes

abbrev pub mssp_var : ℕ
mssp_var = 1

abbrev pub mssp_val : ℕ
mssp_val = 2

unfoldable pub marshal_mssp : List MsspVar → Bytes
marshal_mssp [] = []
marshal_mssp (v ∷ vars) = (mssp_var ∷ v.name) ++ (mssp_val ∷ v.value) ++ marshal_mssp vars

-- No byte is one of the two that separate.
abbrev pub IsClean : Bytes → Type 0
IsClean [] = Unit
IsClean (b ∷ bs) = (b ≢ mssp_var) × (b ≢ mssp_val) × IsClean bs

abbrev pub AreClean : List MsspVar → Type 0
AreClean [] = Unit
AreClean (v ∷ vars) = IsClean v.name × IsClean v.value × AreClean vars

-- The text ends here, or at a byte that separates.
abbrev Opens : Bytes → Type 0
Opens [] = Unit
Opens (c ∷ _) = (c ≡ mssp_var) ⊎ (c ≡ mssp_val)

-- Two texts with their ends behind them are the same where the whole is.
clean-cut :
    (s t u v : Bytes)
    → Opens u
    → Opens v
    → IsClean s
    → IsClean t
    → s ++ u ≡ t ++ v
    → (s ≡ t) × (u ≡ v)
clean-cut [] [] u v ku kv hs ht e = (refl, e)
clean-cut [] (b ∷ t) [] v ku kv hs (h₁, h₂, ht) e = absurd (cc)
clean-cut [] (b ∷ t) (c ∷ u) v (inl k) kv hs (h₁, h₂, ht) e = absurd (h₁ (cc))
clean-cut [] (b ∷ t) (c ∷ u) v (inr k) kv hs (h₁, h₂, ht) e = absurd (h₂ (cc))
clean-cut (a ∷ s) [] u [] ku kv (h₁, h₂, hs) ht e = absurd (cc)
clean-cut (a ∷ s) [] u (c ∷ v) ku (inl k) (h₁, h₂, hs) ht e = absurd (h₁ (cc))
clean-cut (a ∷ s) [] u (c ∷ v) ku (inr k) (h₁, h₂, hs) ht e = absurd (h₂ (cc))
clean-cut (a ∷ s) (b ∷ t) u v ku kv (_, _, hs) (_, _, ht) e =
    let (same, rest) = clean-cut s t u v ku kv hs ht (cc) in (cc, rest)

marshal_mssp-Opens : (vars : List MsspVar) → Opens (marshal_mssp vars)
unfolding marshal_mssp
marshal_mssp-Opens [] = tt
marshal_mssp-Opens (v ∷ vars) = inl refl

-- A variable in front of what follows, as the two texts.
var_bytes :
    (v : MsspVar) (vars : List MsspVar)
    → marshal_mssp (v ∷ vars) ≡ mssp_var ∷ (v.name ++ mssp_val ∷ (v.value ++ marshal_mssp vars))
unfolding marshal_mssp
var_bytes v vars = simp (append_assoc) refl

-- Two lists of variables whose names and values hold neither of the separating bytes have the same
-- wire format only if they are the same.
pub marshal_mssp-injective :
    (vars ws : List MsspVar)
    → AreClean vars
    → AreClean ws
    → marshal_mssp vars ≡ marshal_mssp ws
    → vars ≡ ws
unfolding marshal_mssp
marshal_mssp-injective [] [] h k e = refl
marshal_mssp-injective [] (w ∷ ws) h k e = absurd (cc)
marshal_mssp-injective (v ∷ vars) [] h k e = absurd (cc)
marshal_mssp-injective (v ∷ vars) (w ∷ ws) (hn, hv, h) (kn, kv, k) e =
    let split : v.name ++ mssp_val ∷ (v.value ++ marshal_mssp vars)
        ≡ w.name ++ mssp_val ∷ (w.value ++ marshal_mssp ws) =
      ap (drop 1) (sym (var_bytes v vars) ∙ e ∙ var_bytes w ws) in
    let (names, rest) = clean-cut v.name w.name _ _ (inr refl) (inr refl) hn kn split in
    let (values, others) =
      clean-cut v.value w.value _ _ (marshal_mssp-Opens vars) (marshal_mssp-Opens ws) hv kv
        (ap (drop 1) rest) in
    ap₂ ◌∷◌ (λ i. record { name = names i; value = values i })
      (marshal_mssp-injective vars ws h k others)
