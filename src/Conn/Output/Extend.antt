-- ===== src/Conn/Output/Extend.antt =====
-- Operations that put bytes behind the stream: appends, the flush and the loops.
use telnetty.Base.{
  ℕ, ◌+◌, ◌≤◌, ◌≡◌, refl, sym, ap, ◌∙◌, inl, inr, Bool, true, Option, none, some, [], ◌∷◌, ◌++◌,
  append-nil, append_assoc, arith, leb, ◌==◌, if◌then◌else◌, ==_iff, Bool-cases, Bytes, length,
  take, by_if, take_all,
}
use telnetty.Cmd
use telnetty.Codec.Escape.{escaped}
use telnetty.Slices.{cap, shown, emptied, Growth, Fits}
use telnetty.Slices.Append.{IsSlice, shown-append, append-IsSlice}
use telnetty.Conn.Output.{
  flush, put_all, WriteError, Socket, Out, append_out, offered, flush_locked, put, write_loop,
}

-- What `io.Writer` promises: not more than the bytes given are taken, and all of them unless there is
-- an error.
pub record IsWriter (net : Socket) : Type 0 where
  pub taken_le : (i : ℕ) (p : Bytes) → (net i p).0 ≤ length p
  pub all_taken : (i : ℕ) (p : Bytes) → (net i p).1 ≡ true → (net i p).0 ≡ length p

-- The stream so far: what the socket has taken, and then what is buffered.
abbrev pub stream : Out → Bytes
stream o = o.wire ++ shown o.buf

module _ (grow : Growth) (fits : Fits grow) (net : Socket) (contract : IsWriter net) where
  -- An operation that has put `p` behind the stream.
  abbrev pub Extends : Out → Bytes → Out → Type 0
  Extends o p o' = IsSlice o'.buf × (stream o' ≡ stream o ++ p)

  pub append_out-Extends : (o : Out) (p : Bytes) → IsSlice o.buf → Extends o p (append_out grow o p)
  append_out-Extends o p h = (
    append-IsSlice grow o.buf p h fits,
    rw (shown-append grow o.buf p h) (sym (append_assoc o.wire (shown o.buf) p)),
  )

  pub Extends-nil : (o : Out) → IsSlice o.buf → Extends o [] o
  Extends-nil o h = (h, sym (append-nil (stream o)))

  pub Extends-trans :
      (o o' o'' : Out) (p q : Bytes) → Extends o p o' → Extends o' q o'' → Extends o (p ++ q) o''
  Extends-trans o o' o'' p q (h, e) (h', e') =
      (h', e' ∙ ap (λ t. t ++ q) e ∙ append_assoc (stream o) p q)

  emptied-stream :
      (o : Out)
      → IsSlice o.buf
      → (net o.calls (shown o.buf)).1 ≡ true
      → let n = (net o.calls (shown o.buf)).0 in
        Extends o [] (record (offered net o n) { buf = emptied o.buf })
  emptied-stream o h ok =
      let n = (net o.calls (shown o.buf)).0 in
      let all : take n (shown o.buf) ≡ shown o.buf =
        take_all n (shown o.buf) (omega (arith, contract.all_taken o.calls (shown o.buf) ok)) in
      (omega arith, ap (λ t. (o.wire ++ t) ++ []) all)

  -- The results of an operation that may fail: if it has not, it has put `p` behind the stream.
  abbrev pub Puts : Out → Bytes → Option WriteError × Out → Type 0
  Puts o p r = r.0 ≡ none → Extends o p r.1

  pub flush_locked-Puts : (o : Out) → IsSlice o.buf → Puts o [] (flush_locked net o)
  unfolding flush_locked
  flush_locked-Puts o h =
      by_if (Puts o []) (o.buf.len == 0) (λ _ _. Extends-nil o h)
        (λ _.
          by_if (Puts o []) (net o.calls (shown o.buf)).1 (λ ok _. emptied-stream o h ok)
            (λ _ e. absurd (ground arith)))

  -- After a flush without an error the socket has the whole stream.
  pub flush-wire :
      (o : Out) → IsSlice o.buf → (flush net o).0 ≡ none → (flush net o).1.wire ≡ stream o
  unfolding flush flush_locked
  flush-wire o h =
      let n = (net o.calls (shown o.buf)).0 in
      let done : Option WriteError × Out → Type 0 = λ r. r.0 ≡ none → r.1.wire ≡ stream o in
      by_if done (o.buf.len == 0)
        (λ none_waiting _.
          let e : o.buf.len ≡ 0 = (==_iff o.buf.len 0).0 none_waiting in
          sym (append-nil o.wire) ∙ ap (λ t. o.wire ++ take t o.buf.mem) (sym e))
        (λ _.
          by_if done (net o.calls (shown o.buf)).1
            (λ ok _.
              ap (λ t. o.wire ++ t)
                (take_all n (shown o.buf)
                  (omega (arith, contract.all_taken o.calls (shown o.buf) ok))))
            (λ _ e. absurd (ground arith)))

  pub put-Extends : (o : Out) (b : ℕ) → IsSlice o.buf → Extends o (escaped (b ∷ [])) (put grow o b)
  unfolding put
  put-Extends o b h =
      let one = append_out-Extends o (b ∷ []) h in
      let o' = append_out grow o (b ∷ []) in
      elim (Bool-cases (b == Cmd.iac)) [
        | inl iac ↦ rw iac (
            Extends-trans o o' (append_out grow o' (Cmd.iac ∷ [])) (b ∷ []) (Cmd.iac ∷ []) one
              (append_out-Extends o' (Cmd.iac ∷ []) one.0))
        | inr plain ↦ rw plain one
      ]

  pub make_room-Puts :
      (o : Out) (full : Bool)
      → IsSlice o.buf
      → Puts o [] (if full then flush_locked net o else (none, o))
  make_room-Puts o full h =
      by_if (Puts o []) full (λ _. flush_locked-Puts o h) (λ _ _. Extends-nil o h)

  abbrev pub LoopPuts : Out → ℕ → Bytes → ℕ × Option WriteError × Out → Type 0
  LoopPuts o n p r = r.1 ≡ none → (r.0 ≡ n) × Extends o (escaped p) r.2

  escaped_cons : (b : ℕ) (p : Bytes) → escaped (b ∷ []) ++ escaped p ≡ escaped (b ∷ p)
  escaped_cons b p = elim (Bool-cases (b == Cmd.iac)) [
    | inl iac ↦ rw iac refl
    | inr plain ↦ rw plain refl
  ]

  after_room :
      (b : ℕ) (p : Bytes) (o : Out) (n : ℕ) (r : Option WriteError × Out)
      → ((o₁ : Out)
          → IsSlice o₁.buf
          → LoopPuts o₁ (n + 1 + length p) p (write_loop grow net o₁ (n + 1) p))
      → Puts o [] r
      → LoopPuts o (n + length (b ∷ p)) (b ∷ p) (elim r.0 [
        | some err ↦ (n, some err, r.1)
        | none ↦ write_loop grow net (put grow r.1 b) (n + 1) p
      ])
  after_room b p o n (some err, o') rest h = λ e. absurd (ground arith)
  after_room b p o n (none, o') rest h = λ e.
      let before = h refl in
      let one = put-Extends o' b before.0 in
      let (count, after) = rest (put grow o' b) one.0 e in
      let whole = write_loop grow net (put grow o' b) (n + 1) p in
      (
        count ∙ omega arith,
        rw (← escaped_cons b p) (
            Extends-trans o o' whole.2 [] (escaped (b ∷ []) ++ escaped p) before
              (Extends-trans o' (put grow o' b) whole.2 (escaped (b ∷ [])) (escaped p) one after)),
      )

  pub write_loop-LoopPuts :
      (p : Bytes) (o : Out) (n : ℕ)
      → IsSlice o.buf
      → LoopPuts o (n + length p) p (write_loop grow net o n p)
  unfolding write_loop
  write_loop-LoopPuts [] o n h = λ _. (omega arith, Extends-nil o h)
  write_loop-LoopPuts (b ∷ p) o n h =
      after_room b p o n (if leb (cap o.buf) o.buf.len then flush_locked net o else (none, o))
        (λ o₁ h₁. write_loop-LoopPuts p o₁ (n + 1) h₁)
        (make_room-Puts o (leb (cap o.buf) o.buf.len) h)

  pub put_all-Extends :
      (payload : Bytes) (o : Out)
      → IsSlice o.buf
      → Extends o (escaped payload) (put_all grow o payload)
  unfolding put_all
  put_all-Extends [] o h = Extends-nil o h
  put_all-Extends (b ∷ payload) o h =
      let one = put-Extends o b h in
      let o' = put grow o b in
      rw (← escaped_cons b payload) (
        Extends-trans o o' (put_all grow o' payload) (escaped (b ∷ [])) (escaped payload) one
          (put_all-Extends payload o' one.0))
