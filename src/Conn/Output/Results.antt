-- ===== src/Conn/Output/Results.antt =====
-- conn.go: what the methods of the writing side return, and a flush that is tried again.
use telnetty.Base.{
  ℕ, ◌+◌, ◌<◌, ◌≡◌, refl, ap, ◌∙◌, inl, inr, Bool, true, false, Option, none, some, [], ◌∷◌, ◌++◌,
  append-nil, arith, ltb, leb, ◌==◌, if◌then◌else◌, Bool-cases, Bytes, length, take, by_if,
  take_all,
}
use telnetty.Slices.{emptied, shown, cap, Growth}
use telnetty.Conn.Output.{
  offered, net_error, frame_behind, command_behind, WriteError, conn_closed, Socket, Out,
  flush_locked, put, write_loop, needs_escape, write, make_room, send_command, iacs_from,
  send_subnegotiation, flush,
}

-- A socket that takes all that it is given.
abbrev pub Works : Socket → Type 0
Works net = (i : ℕ) (p : Bytes) → net i p ≡ (length p, true)

module _ (grow : Growth) (net : Socket) (works : Works net) where
  flush_locked-none : (o : Out) → (flush_locked net o).0 ≡ none
  unfolding flush_locked
  flush_locked-none o =
      let failed : Option WriteError × Out → Type 0 = λ r. r.0 ≡ none in
      by_if failed (o.buf.len == 0) (λ _. refl)
        (λ _.
          by_if failed (net o.calls (shown o.buf)).1 (λ _. refl)
            (λ h. absurd (ground (arith, works o.calls (shown o.buf)))))

  if_full-none : (o : Out) (full : Bool) → (if full then flush_locked net o else (none, o)).0 ≡ none
  if_full-none o true = flush_locked-none o
  if_full-none o false = refl

  abbrev after_room : ℕ → Bytes → ℕ → Option WriteError × Out → ℕ × Option WriteError × Out
  after_room b p n r = elim r.0 [
    | some err ↦ (n, some err, r.1)
    | none ↦ write_loop grow net (put grow r.1 b) (n + 1) p
  ]

  after_room-none :
      (b : ℕ) (p : Bytes) (n : ℕ) (r : Option WriteError × Out)
      → r.0 ≡ none
      → ((o : Out) → (write_loop grow net o (n + 1) p).1 ≡ none)
      → (after_room b p n r).1 ≡ none
  after_room-none b p n (some err, o) e rest = absurd (ground arith)
  after_room-none b p n (none, o) e rest = rest (put grow o b)

  write_loop-none : (p : Bytes) (o : Out) (n : ℕ) → (write_loop grow net o n p).1 ≡ none
  unfolding write_loop
  write_loop-none [] o n = refl
  write_loop-none (b ∷ p) o n =
      after_room-none b p n (if leb (cap o.buf) o.buf.len then flush_locked net o else (none, o))
        (if_full-none o (leb (cap o.buf) o.buf.len)) (λ o₁. write_loop-none p o₁ (n + 1))

  abbrev NoError : Option WriteError × Out → Type 0
  NoError r = r.0 ≡ none

  send-none :
      (o : Out) (send : Out → Out) (r : Option WriteError × Out)
      → o.closed ≡ false
      → r.0 ≡ none
      → NoError (
          if o.closed
          then (some conn_closed, o)
          else elim r.0 [ some err ↦ (some err, r.1) | none ↦ (none, send r.1) ])
  send-none o send (some err, o') live e = absurd (ground arith)
  send-none o send (none, o') live e = simp live refl

  pub flush-none : (o : Out) → (flush net o).0 ≡ none
  unfolding flush
  flush-none = flush_locked-none

  -- Over a socket that takes all that it is given, `Write`, `SendCommand`, `SendSubnegotiation` and
  -- `Flush` of a connection that is not closed return no error.
  pub no-error :
      (o : Out) (p : Bytes) (cmd option : ℕ)
      → o.closed ≡ false
      → ((write grow net o p).1 ≡ none)
        × ((send_command grow net o cmd option).0 ≡ none)
        × ((send_subnegotiation grow net o option p).0 ≡ none)
        × ((flush net o).0 ≡ none)
  unfolding write send_command send_subnegotiation make_room flush
  no-error o p cmd option live = (
    elim (Bool-cases (needs_escape p)) [
      | inl escape ↦ simp (live, escape) (write_loop-none p o 0)
      | inr plain ↦ elim (Bool-cases (leb (o.buf.len + length p) (cap o.buf))) [
        | inl there ↦ simp (live, plain, there) refl
        | inr over ↦ simp (live, plain, over) (write_loop-none p o 0)
      ]
    ],
    send-none o (command_behind grow cmd option) (make_room net o 3) live
        (if_full-none o (ltb (cap o.buf) (o.buf.len + 3))),
    send-none o (frame_behind grow option p) (make_room net o (iacs_from (3 + length p + 2) p)) live
        (if_full-none o (ltb (cap o.buf) (o.buf.len + iacs_from (3 + length p + 2) p))),
    flush_locked-none o,
  )

flush-failed :
    (net : Socket) (o : Out) (k : ℕ)
    → 0 < o.buf.len
    → net o.calls (shown o.buf) ≡ (k, false)
    → flush net o ≡ (some net_error, offered net o k)
unfolding flush flush_locked
flush-failed net o k some_bytes first =
    let e : (o.buf.len == 0) ≡ false = ground arith in simp (e, first) refl

flush-ok :
    (net : Socket) (o : Out) (n : ℕ)
    → 0 < o.buf.len
    → net o.calls (shown o.buf) ≡ (n, true)
    → flush net o ≡ (none, record (offered net o n) { buf = emptied o.buf })
unfolding flush flush_locked
flush-ok net o n some_bytes ok =
    let e : (o.buf.len == 0) ≡ false = ground arith in simp (e, ok) refl

-- A flush of waiting bytes that fails when the socket has taken `k` of them, and is tried again
-- with success: the socket gets these `k` bytes twice.
pub flush_retried :
    (net : Socket) (o : Out) (k : ℕ)
    → 0 < o.buf.len
    → net o.calls (shown o.buf) ≡ (k, false)
    → net (o.calls + 1) (shown o.buf) ≡ (length (shown o.buf), true)
    → let (e, o₁) = flush net o in
      let (e', o₂) = flush net o₁ in
      (e ≡ some net_error)
      × (e' ≡ none)
      × (o₂.wire ++ shown o₂.buf ≡ (o.wire ++ take k (shown o.buf)) ++ shown o.buf)
flush_retried net o k some_bytes first second =
    let p = shown o.buf in
    let all : take (length p) p ≡ p = take_all (length p) p (omega arith) in
    let second_flush = flush-ok net (offered net o k) (length p) some_bytes second in
    rw (flush-failed net o k some_bytes first)
      (rw second_flush (refl, refl, append-nil _ ∙ ap (λ t. (o.wire ++ take k p) ++ t) all))
