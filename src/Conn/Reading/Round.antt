-- ===== src/Conn/Reading/Round.antt =====
-- conn.go: a round of `ReadLine`: the read of the ring, and what the code does behind it.
use telnetty.Base.{
  ℕ, zero, suc, ◌+◌, ◌≤◌, min, ◌≡◌, refl, sym, ap, ap₂, ◌∙◌, true, false, Option, none, some, [],
  ◌∷◌, ◌++◌, append-nil, arith, ltb, ◌==◌, Bytes, length, take, drop, replicate, length-take,
  take-nil, drop-nil, take-append_exact,
}
use telnetty.Slices.{Growth}
use telnetty.Ring.{len}
use telnetty.Ring.Invariant.{IsValid, contents, length-contents}
use telnetty.Ring.Refine.{read_refines}
use telnetty.Conn.Output.{Socket}
use telnetty.Conn.Input.Data.{write-room}
use telnetty.Conn.Reading.Queue.{queue_read}
use telnetty.Conn.Reading.{
  RingError, ReadError, ring_error, ends_cr, Source, Reader, read_ring, read_locked, cut_newline,
  complete, put_back, line, read_line_from,
}

take-min : (n : ℕ) (q : Bytes) → take (min n (length q)) q ≡ take n q
take-min zero q = ap (λ m. take m q) {x = min 0 (length q)} {y = 0} (omega arith)
take-min (suc n) [] = take-nil (min (suc n) 0)
take-min (suc n) (b ∷ q) =
    ap (λ m. take m (b ∷ q)) {x = min (suc n) (suc (length q))} {y = suc (min n (length q))}
      (omega arith)
    ∙ ap (◌∷◌ b) (take-min n q)

drop-min : (n : ℕ) (q : Bytes) → drop (min n (length q)) q ≡ drop n q
drop-min zero q = ap (λ m. drop m q) {x = min 0 (length q)} {y = 0} (omega arith)
drop-min (suc n) [] = drop-nil (min (suc n) 0)
drop-min (suc n) (b ∷ q) =
    ap (λ m. drop m (b ∷ q)) {x = min (suc n) (suc (length q))} {y = suc (min n (length q))}
      (omega arith)
    ∙ drop-min n q

abbrev ring_failure : Option RingError → Option ReadError
ring_failure (some err) = some (ring_error err)
ring_failure none = none

-- What is read and what stays, for a ring that is not empty.
pub read_ring-exact :
    {k : ℕ} (x : Reader) (p : Bytes)
    → IsValid k x.conn.read_buf
    → ltb 0 (len x.conn.read_buf) ≡ true
    → let (n, e, p', x') = read_ring x p in
      let q = contents x.conn.read_buf in
      IsValid k x'.conn.read_buf
      × (e ≡ none)
      × (take n p' ≡ take (length p) q)
      × (contents x'.conn.read_buf ≡ drop (length p) q)
unfolding read_ring
read_ring-exact x p v some_bytes =
    let q = contents x.conn.read_buf in
    let m = min (length p) (length q) in
    let more : (length q == 0) ≡ false = ground (arith, length-contents x.conn.read_buf) in
    let (same, v') = read_refines v p in
    let eq = same ∙ queue_read q p more in
    (
      v',
      ap (λ t. ring_failure t.1) eq,
      ap₂ take (ap (λ t. t.0) eq) (ap (λ t. t.2) eq)
          ∙ take-append_exact m (take m q) (drop m p) (omega (arith, length-take m q))
          ∙ take-min (length p) q,
      ap (λ t. t.3) eq ∙ drop-min (length p) q,
    )

pub put_back-contents :
    {k : ℕ} (x : Reader) (bs : Bytes)
    → IsValid k x.conn.read_buf
    → len x.conn.read_buf + length bs ≤ x.conn.read_buf.mask
    → IsValid k (put_back x bs).conn.read_buf
      × (contents (put_back x bs).conn.read_buf ≡ contents x.conn.read_buf ++ bs)
unfolding put_back
put_back-contents x [] v room = (v, sym (append-nil _))
put_back-contents x (b ∷ bs) v room = write-room (b ∷ bs) v room

pub length-replicate : (n b : ℕ) → length (replicate n b) ≡ n
length-replicate zero b = refl
length-replicate (suc n) b = ap suc (length-replicate n b)

-- A round that finds a newline in what it has read.
pub round_found :
    (grow : Growth) (net : Socket) (src : Source) (f : ℕ) (sofar before behind : Bytes) (x : Reader)
    → let (n, e, buf, x') = read_locked grow net src x (replicate 1024 0) in
      cut_newline (take n buf) ≡ some (before, behind)
      → read_line_from grow net src (suc f) sofar x
        ≡ line (complete sofar before x'.read_line_cr) none (put_back x' behind)
unfolding read_line_from
round_found grow net src f sofar before behind x found = rw (read_line_from, found) refl

pub read_ring-cr : (x : Reader) (p : Bytes) → (read_ring x p).3.read_line_cr ≡ x.read_line_cr
unfolding read_ring
read_ring-cr x p = refl

pub put_back-cr : (x : Reader) (bs : Bytes) → (put_back x bs).read_line_cr ≡ false
unfolding put_back
put_back-cr x [] = refl
put_back-cr x (b ∷ bs) = refl

-- A round that finds none.
pub round_not_found :
    (grow : Growth) (net : Socket) (src : Source) (f : ℕ) (sofar : Bytes) (x : Reader)
    → let (n, e, buf, x') = read_locked grow net src x (replicate 1024 0) in
      let got = take n buf in
      cut_newline got ≡ none
      → e ≡ none
      → read_line_from grow net src (suc f) sofar x
        ≡ read_line_from grow net src f (sofar ++ got) (record x' { read_line_cr = ends_cr got })
unfolding read_line_from
round_not_found grow net src f sofar x missing fine = rw (read_line_from, missing, fine) refl

-- `readLocked` while bytes wait.
pub waiting_read :
    (grow : Growth) (net : Socket) (src : Source) (x : Reader)
    → ltb 0 (len x.conn.read_buf) ≡ true
    → (p : Bytes) → read_locked grow net src x p ≡ read_ring x p
unfolding read_locked
waiting_read grow net src x some_bytes p = simp (some_bytes) refl
