-- ===== src/Codec/Copy.antt =====
-- A sequence written over a slice, and the loop that copies escaped bytes.
use telnetty.Base.{
  ℕ, zero, suc, ◌+◌, ◌≤◌, ◌<◌, ◌≡◌, refl, sym, ap, ap₂, ◌∙◌, inl, inr, [], ◌∷◌, ◌++◌, append_assoc,
  arith, ◌==◌, Bool-cases, Bytes, length, set, take, drop, length-append, length-take, length-drop,
  take-append-drop, take-append_exact, drop-append_exact, drop-drop,
}
use telnetty.Cmd
use telnetty.Codec.Escape.{escaped}
use telnetty.Codec.{copy_escaped}

-- `dst` with `p` written over it from index `n` on.
abbrev pub over : Bytes → ℕ → Bytes → Bytes
over dst n p = take n dst ++ (p ++ drop (n + length p) dst)

pub set-over : (dst : Bytes) (n b : ℕ) → n < length dst → set dst n b ≡ over dst n (b ∷ [])
set-over [] n b h = absurd (omega arith)
set-over (x ∷ dst) zero b h = refl
set-over (x ∷ dst) (suc n) b h =
    let e : suc n + 1 ≡ suc (n + 1) = omega arith in
    rw e (ap (◌∷◌ x) (set-over dst n b (omega arith)))

pub over-over :
    (dst p q : Bytes) (n m : ℕ)
    → n + length p ≡ m
    → m + length q ≤ length dst
    → over (over dst n p) m q ≡ over dst n (p ++ q)
over-over dst p q n m e h =
    let xs = take n dst in
    let rest = drop (n + length p) dst in
    let xs_length = length-take n dst in
    let front : m ≡ length (xs ++ p) = omega (arith, length-append xs p) in
    let whole = sym (append_assoc xs p rest) in
    let kept : take m (over dst n p) ≡ xs ++ p =
      ap (take m) whole ∙ take-append_exact m (xs ++ p) rest front in
    let left : drop (m + length q) (over dst n p) ≡ drop (n + length (p ++ q)) dst =
      sym (drop-drop m (length q) (over dst n p))
      ∙ ap (λ t. drop (length q) (drop m t)) whole
      ∙ ap (drop (length q)) (drop-append_exact m (xs ++ p) rest front)
      ∙ drop-drop (n + length p) (length q) dst
      ∙ ap (λ t. drop t dst) (omega (arith, length-append p q)) in
    ap₂ (λ u v. u ++ (q ++ v)) kept left
    ∙ append_assoc xs p (q ++ drop (n + length (p ++ q)) dst)
    ∙ ap (λ t. xs ++ t) (sym (append_assoc p q (drop (n + length (p ++ q)) dst)))

pub length-over :
    (dst p : Bytes) (n : ℕ) → n + length p ≤ length dst → length (over dst n p) ≡ length dst
length-over dst p n h = omega (
  arith,
  length-append (take n dst) (p ++ drop (n + length p) dst),
  length-append p (drop (n + length p) dst),
  length-take n dst,
  length-drop (n + length p) dst,
)

-- Two writes in a row.
pub set-set-over :
    (dst : Bytes) (n b c : ℕ)
    → n + 2 ≤ length dst
    → set (set dst n b) (n + 1) c ≡ over dst n (b ∷ c ∷ [])
set-set-over dst n b c h =
    let one = set-over dst n b (omega arith) in
    ap (λ t. set t (n + 1) c) one
    ∙ set-over (over dst n (b ∷ [])) (n + 1) c
        (omega (arith, length-over dst (b ∷ []) n (omega arith)))
    ∙ over-over dst (b ∷ []) (c ∷ []) n (n + 1) refl (omega arith)

-- A piece written, and then the rest behind it, are written as one.
pub join_pieces :
    (dst p q : Bytes) (n m k : ℕ) {r : ℕ × Bytes}
    → n + length p ≡ m
    → m + length q ≡ k
    → k ≤ length dst
    → r ≡ (m + length q, over (over dst n p) m q)
    → r ≡ (k, over dst n (p ++ q))
join_pieces dst p q n m k e f h ih =
    ih ∙ ap₂ (λ u v. (u, v)) f (over-over dst p q n m e (omega arith))

-- The loop writes the escaped bytes.
pub copy_escaped-over :
    (src dst : Bytes) (n : ℕ)
    → n + length (escaped src) ≤ length dst
    → copy_escaped dst n src ≡ (n + length (escaped src), over dst n (escaped src))
unfolding copy_escaped
copy_escaped-over [] dst n h =
    ap₂ (λ u v. (u, v)) {x = n} {y = n + 0} (omega arith)
      (sym (
        ap (λ t. take n dst ++ drop t dst) {x = n + 0} {y = n} (omega arith)
        ∙ take-append-drop n dst))
copy_escaped-over (b ∷ bs) dst n h = elim (Bool-cases (b == Cmd.iac)) [
  | inl iac ↦
      let fits : n + 2 + length (escaped bs) ≤ length dst = ground arith in
      let p = b ∷ Cmd.iac ∷ [] in
      let same = length-over dst p n (omega arith) in
      rw iac (
        ap (λ t. copy_escaped t (n + 1 + 1) bs) (set-set-over dst n b Cmd.iac (omega arith))
        ∙ join_pieces dst p (escaped bs) n (n + 1 + 1) (n + suc (suc (length (escaped bs))))
            (omega arith) (omega arith) (omega arith)
            (copy_escaped-over bs (over dst n p) (n + 1 + 1) (omega arith)))
  | inr plain ↦
      let fits : n + 1 + length (escaped bs) ≤ length dst = ground arith in
      let p = b ∷ [] in
      let same = length-over dst p n (omega arith) in
      rw plain (
        ap (λ t. copy_escaped t (n + 1) bs) (set-over dst n b (omega arith))
        ∙ join_pieces dst p (escaped bs) n (n + 1) (n + suc (length (escaped bs))) (omega arith)
            (omega arith) (omega arith) (copy_escaped-over bs (over dst n p) (n + 1) (omega arith)))
]
