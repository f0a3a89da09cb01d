-- ===== src/Base/Decimal.antt =====
-- What the program uses of the package `strconv`: the decimal print of a number that is not
-- negative, and `ParseUint` in base 10 for 32 bits.
use Prim.Native.Nat.{ℕ, zero, suc, ◌+◌, ◌-◌, ◌*◌, ◌/◌, ◌%◌, ◌^◌, ◌≤◌, ◌<◌}
use mathlib.Core.Path.{◌≡◌, refl, ◌∙◌}
use mathlib.Core.Logic.{◌≢◌}
use mathlib.Core.Bool.{◌||◌}
use mathlib.Core.List.{[], ◌∷◌, ◌++◌, cons-ne-nil}
use native.Mathlib.Omega.{arith}
use telnetty.Base.Booleans.{ltb, if◌then◌else◌, by_if}
use telnetty.Base.Lists.{Bytes}

-- The digits in front of the last one, on fuel.
unfoldable pub digits : ℕ → ℕ → Bytes
digits zero n = []
digits (suc f) n =
    let before = digits f (n / 10) in
    if ltb n 10 then (48 + n) ∷ [] else before ++ (48 + n % 10) ∷ []

-- The number is fuel enough for its digits.
abbrev pub itoa : ℕ → Bytes
itoa n = digits (n + 1) n

pub data NumError : Type 0 where
  syntax_error range_error : NumError

pub data Number : Type 0 where
  not_number : NumError → Number
  number : ℕ → Number

abbrev pub max_u32 : ℕ
max_u32 = 2 ^ 32 - 1

-- One round of the loop. The number so far is below `2 ^ 32`, so the test against the cutoff of 64
-- bits never holds and `n * 10 + d` does not wrap around.
abbrev pub digit : ℕ → Number → Number
digit c (number n) =
    if ltb c 48 || ltb 57 c
    then not_number syntax_error
    else if ltb max_u32 (n * 10 + (c - 48))
    then not_number range_error
    else number (n * 10 + (c - 48))
digit c stopped = stopped

unfoldable pub scan_digits : Bytes → Number → Number
scan_digits [] r = r
scan_digits (c ∷ cs) r = scan_digits cs (digit c r)

unfoldable pub parse_uint : Bytes → Number
parse_uint [] = not_number syntax_error
parse_uint (c ∷ cs) = scan_digits (c ∷ cs) (number 0)

scan_digits-append_one :
    (cs : Bytes) (c : ℕ) (r : Number) → scan_digits (cs ++ c ∷ []) r ≡ digit c (scan_digits cs r)
unfolding scan_digits
scan_digits-append_one [] c r = refl
scan_digits-append_one (b ∷ cs) c r = scan_digits-append_one cs c (digit b r)

digit_small : (n : ℕ) → n < 10 → digit (48 + n) (number 0) ≡ number n
digit_small n h = ground arith

digit_last : (n : ℕ) → n ≤ max_u32 → digit (48 + n % 10) (number (n / 10)) ≡ number n
digit_last n h = ground arith

scan_digits-digits :
    (f n : ℕ) → n < f → n ≤ max_u32 → scan_digits (digits f n) (number 0) ≡ number n
unfolding digits scan_digits
scan_digits-digits zero n h k = absurd (omega arith)
scan_digits-digits (suc f) n h k =
    by_if (λ t. scan_digits t (number 0) ≡ number n) (ltb n 10) (λ on. digit_small n (ground arith))
      (λ off.
        scan_digits-append_one (digits f (n / 10)) (48 + n % 10) (number 0)
        ∙ rw (scan_digits-digits f (n / 10) (ground arith) (omega arith)) (digit_last n k))

append_one-ne-nil : (cs : Bytes) (c : ℕ) → cs ++ c ∷ [] ≢ []
append_one-ne-nil [] c = cons-ne-nil c []
append_one-ne-nil (b ∷ cs) c = cons-ne-nil b (cs ++ c ∷ [])

pub digits-ne-nil : (f n : ℕ) → n < f → digits f n ≢ []
unfolding digits
digits-ne-nil zero n h = absurd (omega arith)
digits-ne-nil (suc f) n h =
    by_if (λ t. t ≢ []) (ltb n 10) (λ on. cons-ne-nil (48 + n) [])
      (λ off. append_one-ne-nil (digits f (n / 10)) (48 + n % 10))

parse_uint-scan : (cs : Bytes) → cs ≢ [] → parse_uint cs ≡ scan_digits cs (number 0)
unfolding parse_uint
parse_uint-scan [] h = absurd (h refl)
parse_uint-scan (c ∷ cs) h = refl

pub parse_uint-itoa : (n : ℕ) → n ≤ max_u32 → parse_uint (itoa n) ≡ number n
parse_uint-itoa n h =
    parse_uint-scan (itoa n) (digits-ne-nil (n + 1) n (omega arith))
    ∙ scan_digits-digits (n + 1) n (omega arith) h

-- The number that is read fits.
abbrev pub Fits32 : Number → Type 0
Fits32 (number n) = n ≤ max_u32
Fits32 (not_number _) = Unit

digit-Fits32 : (c : ℕ) (r : Number) → Fits32 r → Fits32 (digit c r)
digit-Fits32 c (not_number e) h = tt
digit-Fits32 c (number n) h =
    by_if Fits32 (ltb c 48 || ltb 57 c) (λ on. tt)
      (λ off. by_if Fits32 (ltb max_u32 (n * 10 + (c - 48))) (λ on. tt) (λ small. ground arith))

scan_digits-Fits32 : (cs : Bytes) (r : Number) → Fits32 r → Fits32 (scan_digits cs r)
unfolding scan_digits
scan_digits-Fits32 [] r h = h
scan_digits-Fits32 (c ∷ cs) r h = scan_digits-Fits32 cs (digit c r) (digit-Fits32 c r h)

pub parse_uint-Fits32 : (cs : Bytes) → Fits32 (parse_uint cs)
unfolding parse_uint
parse_uint-Fits32 [] = tt
parse_uint-Fits32 (c ∷ cs) = scan_digits-Fits32 (c ∷ cs) (number 0) (omega arith)

abbrev pub AreDigits : Bytes → Type 0
AreDigits [] = Unit
AreDigits (c ∷ cs) = (48 ≤ c) × (c ≤ 57) × AreDigits cs

AreDigits-append_one :
    (cs : Bytes) (c : ℕ) → AreDigits cs → 48 ≤ c → c ≤ 57 → AreDigits (cs ++ c ∷ [])
AreDigits-append_one [] c h p q = (p, q, tt)
AreDigits-append_one (b ∷ cs) c (hp, hq, h) p q = (hp, hq, AreDigits-append_one cs c h p q)

pub digits-AreDigits : (f n : ℕ) → AreDigits (digits f n)
unfolding digits
digits-AreDigits zero n = tt
digits-AreDigits (suc f) n =
    by_if AreDigits (ltb n 10) (λ on. (ground arith, ground arith, tt))
      (λ off.
        AreDigits-append_one (digits f (n / 10)) (48 + n % 10) (digits-AreDigits f (n / 10))
          (omega arith) (omega arith))
