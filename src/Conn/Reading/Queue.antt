-- ===== src/Conn/Reading/Queue.antt =====
-- conn.go: `readLocked` and the queue of the decoded bytes.
use telnetty.Base.{
  ℕ, ◌≤◌, ◌<◌, min, ◌≡◌, refl, sym, ap, ap₂, ◌∙◌, inl, inr, true, false, Option, none, some, [],
  ◌∷◌, ◌++◌, arith, ltb, ◌==◌, if◌then◌else◌, Bool-cases, Bytes, length, take, drop, by_if,
  length-take, take-append-drop, take-append_exact,
}
use telnetty.Slices.{Growth}
use telnetty.Ring
use telnetty.Ring.{Ring, len}
use telnetty.Ring.Queue
use telnetty.Ring.Invariant.{IsValid, contents, length-contents}
use telnetty.Ring.Refine.{read_refines}
use telnetty.Parser.State
use telnetty.Parser.State.{mode_of}
use telnetty.Parser.Events.{max_data}
use telnetty.Parser.Data.{breaks}
use telnetty.Parser.Decode.{texts, events}
use telnetty.Conn.Output.{Socket}
use telnetty.Conn.Input.Data.{process_read-contents}
use telnetty.Conn.Reading.{
  NetError, ReadError, net_error, ring_error, Source, Reader, read_ring, receive, deliver,
  read_locked,
}

-- A read of `p` from the queue `q`, with the error `e` if the queue is empty: the oldest bytes, as
-- many as `p` holds, go to the front of `p`, the others stay, and a byte hides the error.
abbrev pub TakesFrom :
    ℕ → Bytes → Bytes → Option ReadError → ℕ × Option ReadError × Bytes × Reader → Type 0
TakesFrom k q p e (n, e', p', x') =
    IsValid k x'.conn.read_buf
    × (n ≡ min (length p) (length q))
    × (take n p' ++ contents x'.conn.read_buf ≡ q)
    × (e' ≡ (if length q == 0 then e else none))

abbrev pub as_read_error : Option NetError → Option ReadError
as_read_error (some err) = some (net_error err)
as_read_error none = none

length_zero : (xs : Bytes) → length xs ≡ 0 → xs ≡ []
length_zero [] h = refl
length_zero (x ∷ xs) h = absurd (omega arith)

pub queue_read :
    (q p : Bytes)
    → (length q == 0) ≡ false
    → let n = min (length p) (length q) in
      Queue.read q p ≡ (n, none, take n q ++ drop n p, drop n q)
unfolding Queue.read
queue_read q p more = simp (more) refl

-- What is taken and what stays are the queue.
split_again :
    (q p : Bytes)
    → let n = min (length p) (length q) in take n (take n q ++ drop n p) ++ drop n q ≡ q
split_again q p =
    let n = min (length p) (length q) in
    ap (λ t. t ++ drop n q)
      (take-append_exact n (take n q) (drop n p) (omega (arith, length-take n q)))
    ∙ take-append-drop n q

module _ {k : ℕ} where
  read_ring-TakesFrom :
      (x : Reader) (p : Bytes) (e : Option ReadError)
      → IsValid k x.conn.read_buf
      → ltb 0 (len x.conn.read_buf) ≡ true
      → TakesFrom k (contents x.conn.read_buf) p e (read_ring x p)
  unfolding read_ring
  read_ring-TakesFrom x p e v some_bytes =
      let q = contents x.conn.read_buf in
      let more : (length q == 0) ≡ false = ground (arith, length-contents x.conn.read_buf) in
      let (same, v') = read_refines v p in
      let eq = same ∙ queue_read q p more in
      let count : (Ring.read x.conn.read_buf p).0 ≡ min (length p) (length q) = ap (λ t. t.0) eq in
      (
        v',
        count,
        ap₂ (λ n t. take n t ++ contents (Ring.read x.conn.read_buf p).3) count (ap (λ t. t.2) eq)
            ∙ ap
                (λ t.
                  take (min (length p) (length q))
                    (take (min (length p) (length q)) q ++ drop (min (length p) (length q)) p)
                  ++ t)
                (ap (λ t. t.3) eq)
            ∙ split_again q p,
        ap (λ t. elim t [ some err ↦ some (ring_error err) | none ↦ none ]) (ap (λ t. t.1) eq)
            ∙ simp (more) refl,
      )

  nothing-TakesFrom :
      (x : Reader) (p : Bytes) (e : Option ReadError)
      → IsValid k x.conn.read_buf
      → len x.conn.read_buf ≡ 0
      → TakesFrom k (contents x.conn.read_buf) p e (0, e, p, x)
  nothing-TakesFrom x p e v none_left =
      let size : length (contents x.conn.read_buf) ≡ 0 =
        length-contents x.conn.read_buf ∙ none_left in
      (v, omega (arith, size), refl, simp (size) refl)

  ring_or_nothing :
      (x : Reader) (p : Bytes) (e : Option ReadError)
      → IsValid k x.conn.read_buf
      → TakesFrom k
          (contents x.conn.read_buf)
          p
          e
          (if ltb 0 (len x.conn.read_buf) then read_ring x p else (0, e, p, x))
  ring_or_nothing x p e v =
      by_if (TakesFrom k (contents x.conn.read_buf) p e) (ltb 0 (len x.conn.read_buf))
        (λ more. read_ring-TakesFrom x p e v more)
        (λ none_left. nothing-TakesFrom x p e v (ground arith))

  -- `readLocked` behind a read of the socket.
  deliver-TakesFrom :
      (err : Option NetError) (nr : ℕ) (x : Reader) (p : Bytes)
      → IsValid k x.conn.read_buf
      → (nr ≡ 0 → len x.conn.read_buf ≡ 0)
      → TakesFrom k (contents x.conn.read_buf) p (as_read_error err) (deliver err nr x p)
  unfolding deliver
  deliver-TakesFrom (some err) nr x p v quiet = ring_or_nothing x p (some (net_error err)) v
  deliver-TakesFrom none nr x p v quiet = elim (Bool-cases (nr == 0)) [
    | inl no_bytes ↦ simp (no_bytes) (nothing-TakesFrom x p none v (quiet (ground arith)))
    | inr some_bytes ↦ simp (some_bytes) (ring_or_nothing x p none v)
  ]

-- The bytes that `readLocked` takes from: those that wait in the ring, or else the plain bytes of
-- what the socket gives.
abbrev pub waiting : ℕ → Source → Reader → Bytes
waiting limit src x =
    if ltb 0 (len x.conn.read_buf)
    then contents x.conn.read_buf
    else texts (events limit (mode_of x.conn.parser) (src x.reads).0)

-- A valid ring and parser take the plain bytes of a chunk.
receive-contents :
    (grow : Growth) (net : Socket) {k limit : ℕ} (x : Reader) (bytes : Bytes)
    → IsValid k x.conn.read_buf
    → State.IsValid limit x.conn.parser
    → ltb 0 (len x.conn.read_buf) ≡ false
    → breaks limit (mode_of x.conn.parser) bytes < max_data
    → length (texts (events limit (mode_of x.conn.parser) bytes)) ≤ x.conn.read_buf.mask
    → let x' = receive grow net x bytes in
      IsValid k x'.conn.read_buf
      × (contents x'.conn.read_buf ≡ texts (events limit (mode_of x.conn.parser) bytes))
unfolding receive
receive-contents grow net {limit = limit} x bytes v w none_left few room =
    elim (Bool-cases (ltb 0 (length bytes))) [
      | inl some_bytes ↦
          let empty =
            length_zero (contents x.conn.read_buf)
              (ground (arith, length-contents x.conn.read_buf)) in
          let (v', c) =
            process_read-contents grow net x.conn bytes v w few (ground (arith, none_left)) in
          simp (some_bytes)
            (v', c ∙ ap (λ t. t ++ texts (events limit (mode_of x.conn.parser) bytes)) empty)
      | inr no_bytes ↦
          let empty =
            length_zero (contents x.conn.read_buf)
              (ground (arith, length-contents x.conn.read_buf)) in
          simp (no_bytes) (
            v,
            empty
                ∙ ap (λ t. texts (events limit (mode_of x.conn.parser) t))
                    (sym (length_zero bytes (ground arith))),
          )
    ]

-- `readLocked` takes the oldest bytes of what waits in the ring, or else of the plain bytes of one
-- read of the socket, as many as the caller's slice holds; the others are in the ring; and the
-- error of the socket is returned exactly if there was no byte to take. Ring and parser are valid,
-- and if the ring is empty, so that the socket is read, the plain bytes fit the ring and fewer than 64 IACs of the chunk
-- stand outside subnegotiations.
pub read_locked-TakesFrom :
    (grow : Growth) (net : Socket) (src : Source) {k limit : ℕ} (x : Reader) (p : Bytes)
    → IsValid k x.conn.read_buf
    → State.IsValid limit x.conn.parser
    → (len x.conn.read_buf ≡ 0 → breaks limit (mode_of x.conn.parser) (src x.reads).0 < max_data)
    → (len x.conn.read_buf ≡ 0
        → length (texts (events limit (mode_of x.conn.parser) (src x.reads).0))
          ≤ x.conn.read_buf.mask)
    → TakesFrom k
        (waiting limit src x)
        p
        (as_read_error (src x.reads).1)
        (read_locked grow net src x p)
unfolding read_locked
read_locked-TakesFrom grow net src {k} {limit} x p v w few room =
    elim (Bool-cases (ltb 0 (len x.conn.read_buf))) [
      | inl more ↦ simp (more) (read_ring-TakesFrom x p (as_read_error (src x.reads).1) v more)
      | inr none_left ↦
          let empty : len x.conn.read_buf ≡ 0 = ground arith in
          let (v', c) =
            receive-contents grow net x (src x.reads).0 v w none_left (few empty) (room empty) in
          simp (none_left, ← c)
            (deliver-TakesFrom (src x.reads).1 (length (src x.reads).0)
              (receive grow net x (src x.reads).0) p v'
              (λ h.
                sym (length-contents (receive grow net x (src x.reads).0).conn.read_buf)
                ∙ ap length (
                    c
                    ∙ ap (λ t. texts (events limit (mode_of x.conn.parser) t))
                        (length_zero (src x.reads).0 h))))
    ]
