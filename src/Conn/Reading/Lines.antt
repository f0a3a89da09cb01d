-- ===== src/Conn/Reading/Lines.antt =====
-- conn.go: `ReadLine` while the line waits in the ring.
use telnetty.Base.{
  ℕ, zero, suc, ◌+◌, ◌-◌, ◌*◌, ◌%◌, ◌≤◌, ◌<◌, ◌≡◌, refl, sym, ap, ap₂, ◌∙◌, inl, inr, true, false,
  none, some, [], ◌∷◌, ◌++◌, append_assoc, arith, ltb, Bool-cases, Bytes, length, take, drop,
  replicate, length-append, length-take, length-drop, take-append-drop, take-append,
}
use telnetty.Slices.{Growth}
use telnetty.Ring.{len}
use telnetty.Ring.Invariant.{IsValid, contents, length-contents}
use telnetty.Conn.Output.{Socket}
use telnetty.Conn.Reading.{
  Source, Reader, read_ring, cut_newline, ends_cr, complete, put_back, Line, line, read_line_from,
  read_line,
}
use telnetty.Conn.Reading.Ends.{
  IsLine, HasNoNewline, HasNoNewline-take, HasNoNewline-drop, cut_newline-none, cut_newline-some,
  ends_cr-append, Agrees, complete-IsLine,
}
use telnetty.Conn.Reading.Round.{
  read_ring-exact, put_back-contents, length-replicate, round_found, round_not_found, read_ring-cr,
  put_back-cr, waiting_read,
}
use mathlib.Core.Path.{subst}

take-append_add : (s t : Bytes) (n : ℕ) → take (length s + n) (s ++ t) ≡ s ++ take n t
take-append_add [] t n = ap (λ m. take m t) {x = 0 + n} {y = n} (omega arith)
take-append_add (b ∷ s) t n =
    ap (λ m. take m (b ∷ s ++ t)) {x = suc (length s) + n} {y = suc (length s + n)} (omega arith)
    ∙ ap (◌∷◌ b) (take-append_add s t n)

drop-append_add : (s t : Bytes) (n : ℕ) → drop (length s + n) (s ++ t) ≡ drop n t
drop-append_add [] t n = ap (λ m. drop m t) {x = 0 + n} {y = n} (omega arith)
drop-append_add (b ∷ s) t n =
    ap (λ m. drop m (b ∷ s ++ t)) {x = suc (length s) + n} {y = suc (length s + n)} (omega arith)
    ∙ drop-append_add s t n

drop-append : (n : ℕ) (s t : Bytes) → n ≤ length s → drop n (s ++ t) ≡ drop n s ++ t
drop-append zero s t h = refl
drop-append (suc n) [] t h = absurd (omega arith)
drop-append (suc n) (b ∷ s) t h = drop-append n s t (omega arith)

-- The first 1024 bytes if the newline is among them, and the others.
chunk_with_newline :
    (before behind : Bytes)
    → length before < 1024
    → let kept = 1023 - length before in
      (take 1024 (before ++ 10 ∷ behind) ≡ before ++ 10 ∷ take kept behind)
      × (drop 1024 (before ++ 10 ∷ behind) ≡ drop kept behind)
chunk_with_newline before behind h =
    let kept = 1023 - length before in
    let size : 1024 ≡ length before + suc kept = omega arith in
    (
      ap (λ m. take m (before ++ 10 ∷ behind)) size
          ∙ take-append_add before (10 ∷ behind) (suc kept),
      ap (λ m. drop m (before ++ 10 ∷ behind)) size
          ∙ drop-append_add before (10 ∷ behind) (suc kept),
    )

-- How many bytes behind the newline a round has read with it.
abbrev pub read_along : Bytes → ℕ
read_along before = 1023 - length before % 1024

read_along-drop :
    (before : Bytes) → 1024 ≤ length before → read_along (drop 1024 before) ≡ read_along before
read_along-drop before h = omega (arith, length-drop 1024 before)

-- `ReadLine`, from the middle of a line, has read the rest of it.
abbrev HasRead : ℕ → Bytes → Bytes → Bytes → Line → Type 0
HasRead k sofar before behind out =
    (l : Bytes) × (x' : Reader) × (out ≡ line l none x')
    × IsLine (sofar ++ before) l
    × IsValid k x'.conn.read_buf
    × (contents x'.conn.read_buf
        ≡ drop (read_along before) behind ++ take (read_along before) behind)
    × (x'.read_line_cr ≡ false)

module _ (grow : Growth) (net : Socket) (src : Source) {k : ℕ} where
  module _ (x : Reader) (v : IsValid k x.conn.read_buf) (before behind : Bytes)
      (clean : HasNoNewline before) (holds : contents x.conn.read_buf ≡ before ++ 10 ∷ behind) where
    abbrev buffer : Bytes
    buffer = replicate 1024 0

    abbrev after : Reader
    after = (read_ring x buffer).3

    abbrev got : Bytes
    got = take (read_ring x buffer).0 (read_ring x buffer).2

    some_bytes : ltb 0 (len x.conn.read_buf) ≡ true
    some_bytes = ground (
      arith,
      ap length holds,
      length-append before (10 ∷ behind),
      length-contents x.conn.read_buf,
    )

    -- One read of the ring.
    one_read :
        IsValid k after.conn.read_buf
        × ((read_ring x buffer).1 ≡ none)
        × (got ≡ take 1024 (before ++ 10 ∷ behind))
        × (contents after.conn.read_buf ≡ drop 1024 (before ++ 10 ∷ behind))
    one_read =
        let (v', fine, got_is, left) = read_ring-exact x buffer v some_bytes in
        (
          v',
          fine,
          got_is ∙ ap₂ take (length-replicate 1024 0) holds,
          left ∙ ap₂ drop (length-replicate 1024 0) holds,
        )

    last_round :
        (f : ℕ) (sofar : Bytes)
        → Agrees sofar x.read_line_cr
        → length before < 1024
        → HasRead k sofar before behind (read_line_from grow net src (suc f) sofar x)
    last_round f sofar agrees short =
        let same = waiting_read grow net src x some_bytes buffer in
        let (v', fine, got_is, left) = one_read in
        let (first, others) = chunk_with_newline before behind short in
        let kept = 1023 - length before in
        let kept_is : read_along before ≡ kept = omega arith in
        let rest = take kept behind in
        let found : cut_newline got ≡ some (before, rest) =
          ap cut_newline (got_is ∙ first) ∙ cut_newline-some before rest clean in
        let left' : contents after.conn.read_buf ≡ drop kept behind = left ∙ others in
        let (v'', all) = put_back-contents after rest v' (
          omega (
            arith,
            ap length left',
            length-contents after.conn.read_buf,
            length-drop kept behind,
            length-take kept behind,
            ap length holds,
            length-append before (10 ∷ behind),
            length-contents x.conn.read_buf,
            v.within,
            v.mask_is,
            v'.mask_is,
          )) in
        (
          complete sofar before x.read_line_cr,
          put_back after rest,
          round_found grow net src f sofar before rest x
                (ap (λ r. cut_newline (take r.0 r.2)) same ∙ found)
              ∙ ap (λ r. line (complete sofar before r.3.read_line_cr) none (put_back r.3 rest))
                  same
              ∙ ap (λ c. line (complete sofar before c) none (put_back after rest))
                  (read_ring-cr x buffer),
          complete-IsLine sofar before x.read_line_cr agrees,
          v'',
          rw kept_is (all ∙ ap (λ t. t ++ rest) left'),
          put_back-cr after rest,
        )

    -- A round that fills its buffer without a newline.
    full_round :
        (f : ℕ) (sofar : Bytes)
        → 1024 ≤ length before
        → (got ≡ take 1024 before)
          × (contents after.conn.read_buf ≡ drop 1024 before ++ 10 ∷ behind)
          × (read_line_from grow net src (suc f) sofar x
              ≡ read_line_from grow net src f
                  (sofar ++ got)
                  (record after { read_line_cr = ends_cr got }))
    full_round f sofar long =
        let same = waiting_read grow net src x some_bytes buffer in
        let (v', fine, got_is, left) = one_read in
        let got_is' : got ≡ take 1024 before =
          got_is ∙ take-append 1024 before (10 ∷ behind) long in
        let missing : cut_newline got ≡ none =
          ap cut_newline got_is'
          ∙ cut_newline-none (take 1024 before) (HasNoNewline-take 1024 before clean) in
        (
          got_is',
          left ∙ drop-append 1024 before (10 ∷ behind) long,
          round_not_found grow net src f sofar x
                (ap (λ r. cut_newline (take r.0 r.2)) same ∙ missing) (ap (λ r. r.1) same ∙ fine)
              ∙ ap
                  (λ r.
                    read_line_from grow net src f (sofar ++ take r.0 r.2)
                      (record r.3 { read_line_cr = ends_cr (take r.0 r.2) }))
                  same,
        )

  rounds :
      (f : ℕ) (sofar before behind : Bytes) (x : Reader)
      → IsValid k x.conn.read_buf
      → HasNoNewline before
      → contents x.conn.read_buf ≡ before ++ 10 ∷ behind
      → Agrees sofar x.read_line_cr
      → length before < f * 1024
      → HasRead k sofar before behind (read_line_from grow net src f sofar x)
  rounds zero sofar before behind x v clean holds agrees fuel = absurd (omega arith)
  rounds (suc f) sofar before behind x v clean holds agrees fuel =
      elim (Bool-cases (ltb (length before) 1024)) [
        | inl short ↦ last_round x v before behind clean holds f sofar agrees (ground arith)
        | inr long ↦
            let far : 1024 ≤ length before = ground arith in
            let x₁ = after x v before behind clean holds in
            let chunk = got x v before behind clean holds in
            let left = drop 1024 before in
            let (chunk_is, holds', step) = full_round x v before behind clean holds f sofar far in
            let (v', _, _, _) = one_read x v before behind clean holds in
            let more : 0 < length chunk =
              omega (arith, ap length chunk_is, length-take 1024 before) in
            let (l, x', out, is_line, v'', all, cr) =
              rounds f (sofar ++ chunk) left behind (record x₁ { read_line_cr = ends_cr chunk }) v'
                (HasNoNewline-drop 1024 before clean) holds'
                (inr (sym (ends_cr-append sofar chunk more)))
                (omega (arith, length-drop 1024 before)) in
            let text_is : (sofar ++ chunk) ++ left ≡ sofar ++ before =
              append_assoc sofar chunk left
              ∙ ap (λ t. sofar ++ t)
                  (ap (λ t. t ++ left) chunk_is ∙ take-append-drop 1024 before) in
            (
              l,
              x',
              step ∙ out,
              subst (λ t. IsLine t l) text_is is_line,
              v'',
              all ∙ ap (λ n. drop n behind ++ take n behind) (read_along-drop before far),
              cr,
            )
      ]

  -- If the bytes that wait hold a newline, `ReadLine` returns, without an error, the bytes before the
  -- first one, less a CR that ends them, also where a round of 1024 bytes ends between CR and LF: a
  -- round for each 1024 of these bytes and one more are enough. The ring stays valid and holds the
  -- bytes behind the newline, but those that the last round has read along, up to its 1024th byte,
  -- come behind the others.
  pub read_line-contents :
      (f : ℕ) (before behind : Bytes) (x : Reader)
      → IsValid k x.conn.read_buf
      → HasNoNewline before
      → contents x.conn.read_buf ≡ before ++ 10 ∷ behind
      → length before < f * 1024
      → (l : Bytes) × (x' : Reader) × (read_line grow net src f x ≡ line l none x')
        × IsLine before l
        × IsValid k x'.conn.read_buf
        × (contents x'.conn.read_buf
            ≡ drop (read_along before) behind ++ take (read_along before) behind)
        × (x'.read_line_cr ≡ false)
  unfolding read_line
  read_line-contents f before behind x v clean holds fuel =
      rounds f [] before behind x v clean holds (inl refl) fuel
