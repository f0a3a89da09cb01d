-- ===== src/Utils/Lines.antt =====
-- utils.go: `SplitLines`.
use mathlib.Core.Path.{subst}
use telnetty.Base.{
  ℕ, ◌+◌, ◌≡◌, refl, sym, ap, ◌∙◌, ◌≢◌, Bool, true, false, not, ◌&&◌, Option, none, some, [], ◌∷◌,
  ◌++◌, append-nil, append_assoc, arith, ◌==◌, if◌then◌else◌, ==_iff, Bytes, length, get_or, take,
  drop, length-append, by_if, take-append_exact, drop-append_exact,
}
use telnetty.Utils.{scan, split_lines}

-- No byte is a line end.
abbrev pub IsLine : Bytes → Type 0
IsLine [] = Unit
IsLine (b ∷ s) = (b ≢ 10) × (b ≢ 13) × IsLine s

-- LF, CR LF or CR
pub data IsLineEnd : Bytes → Type 0 where
  lf : IsLineEnd (10 ∷ [])
  cr_lf : IsLineEnd (13 ∷ 10 ∷ [])
  cr : IsLineEnd (13 ∷ [])

-- `input` is the token, a line end and what the caller passes on next; and a CR is not taken for a line
-- end of its own if a LF follows it.
pub record Splits (input : Bytes) (advance : ℕ) (token : Bytes) : Type 0 where
  pub line : IsLine token
  pub ending : Bytes
  pub is_end : IsLineEnd ending
  pub parts : input ≡ token ++ (ending ++ drop advance input)
  pub whole_end : ending ≡ 13 ∷ [] → get_or (drop advance input) 0 0 ≢ 10

IsLine-append : (s t : Bytes) → IsLine s → IsLine t → IsLine (s ++ t)
IsLine-append [] t h k = k
IsLine-append (b ∷ s) t (p, q, h) k = (p, q, IsLine-append s t h k)

Splits-end :
    (before ending rest : Bytes) (i n : ℕ)
    → i ≡ length before
    → n ≡ i + length ending
    → IsLine before
    → IsLineEnd ending
    → (ending ≡ 13 ∷ [] → get_or rest 0 0 ≢ 10)
    → let input = before ++ (ending ++ rest) in Splits input n (take i input)
Splits-end before ending rest i n e f line is_end alone =
    let input = before ++ (ending ++ rest) in
    let token_is : take i input ≡ before = take-append_exact i before (ending ++ rest) e in
    let rest_is : drop n input ≡ rest =
      ap (drop n) (sym (append_assoc before ending rest))
      ∙ drop-append_exact n (before ++ ending) rest (omega (arith, length-append before ending)) in
    rw token_is (record {
      line = line;
      ending = ending;
      is_end = is_end;
      parts = ap (λ t. before ++ (ending ++ t)) (sym rest_is);
      whole_end = λ c. rw rest_is (alone c);
    })

abbrev Found : Bytes → Option (ℕ × Bytes) → Type 0
Found input none = IsLine input
Found input (some (n, token)) = Splits input n token

-- At a CR.
Splits-cr :
    (before rest : Bytes) (i : ℕ)
    → i ≡ length before
    → IsLine before
    → let input = before ++ 13 ∷ rest in
      Splits input (if get_or rest 0 0 == 10 then i + 2 else i + 1) (take i input)
Splits-cr before [] i e line =
    Splits-end before (13 ∷ []) [] i (i + 1) e refl line cr (λ _ t. absurd (omega arith))
Splits-cr before (c ∷ rest) i e line =
    let input = before ++ 13 ∷ c ∷ rest in
    by_if (λ n. Splits input n (take i input)) (c == 10)
      (λ is_lf. rw ((==_iff c 10).0 is_lf) (
        Splits-end before (13 ∷ 10 ∷ []) rest i (i + 2) e refl line cr_lf
          (λ q _. absurd (ground (arith, ap length q)))))
      (λ no_lf.
        Splits-end before (13 ∷ []) (c ∷ rest) i (i + 1) e refl line cr
          (λ _ t. absurd (ground arith)))

-- The loop has passed `before`, which holds no line end.
scan-Found :
    (rest before : Bytes) (i : ℕ)
    → i ≡ length before
    → IsLine before
    → Found (before ++ rest) (scan (before ++ rest) i rest)
unfolding scan
scan-Found [] before i e line = rw append-nil line
scan-Found (b ∷ rest) before i e line =
    let input = before ++ b ∷ rest in
    by_if (Found input) (b == 10)
      (λ is_lf. rw ((==_iff b 10).0 is_lf) (
        Splits-end before (10 ∷ []) rest i (i + 1) e refl line lf
          (λ q _. absurd (ground (arith, ap (λ t. get_or t 0 0) q)))))
      (λ no_lf.
        by_if (Found input) (b == 13)
          (λ is_cr. rw ((==_iff b 13).0 is_cr) (Splits-cr before rest i e line))
          (λ no_cr.
            let passed : IsLine (b ∷ []) = (ground arith, ground arith, tt) in
            subst (λ t. Found t (scan t (i + 1) rest)) (append_assoc before (b ∷ []) rest)
              (scan-Found rest (before ++ b ∷ []) (i + 1)
                (omega (arith, length-append before (b ∷ [])))
                (IsLine-append before (b ∷ []) line passed))))

-- What `SplitLines` may answer: a line cut off; at the end of the file the last line, which has no line
-- end; or a request for more, where no line end has come yet.
pub data Outcome (input : Bytes) (at_eof : Bool) : ℕ × Option Bytes → Type 0 where
  line_cut : {n : ℕ} {token : Bytes} → Splits input n token → Outcome input at_eof (n, some token)
  last :
      (at_eof && not (length input == 0)) ≡ true
      → IsLine input
      → Outcome input at_eof (length input, some input)
  wait : (at_eof && not (length input == 0)) ≡ false → IsLine input → Outcome input at_eof (0, none)

Found-Outcome :
    (input : Bytes) (at_eof : Bool) (r : Option (ℕ × Bytes))
    → Found input r
    → Outcome input at_eof (elim r [
      | some (n, token) ↦ (n, some token)
      | none ↦ if at_eof && not (length input == 0) then (length input, some input) else (0, none)
    ])
Found-Outcome input at_eof (some (n, token)) f = line_cut f
Found-Outcome input at_eof none f =
    by_if (Outcome input at_eof) (at_eof && not (length input == 0)) (λ h. last h f) (λ h. wait h f)

-- `SplitLines` cuts off the line in front of the first line end, and that line end, CR LF as one; without
-- a line end it asks for more, and at the end of the file it gives what is left, if anything.
pub split_lines-Outcome :
    (input : Bytes) (at_eof : Bool) → Outcome input at_eof (split_lines input at_eof)
unfolding split_lines
split_lines-Outcome input at_eof =
    Found-Outcome input at_eof (scan input 0 input) (scan-Found input [] 0 refl tt)
