-- ===== src/Conn/Output/Stream.antt =====
-- conn.go: the methods of the writing side, and the bytes that the socket is to get.
use telnetty.Base.{
  ℕ, ◌+◌, ◌≡◌, refl, ◌∙◌, inl, inr, false, Option, none, some, [], ◌∷◌, ◌++◌, arith, ltb, leb,
  if◌then◌else◌, Bool-cases, Bytes, length, by_if,
}
use telnetty.Cmd
use telnetty.Codec.Escape.{escaped, frame}
use telnetty.Slices.{cap, Growth, Fits}
use telnetty.Slices.Append.{IsSlice}
use telnetty.Conn.Output.Extend.{
  IsWriter, stream, Extends, Extends-trans, Puts, append_out-Extends, make_room-Puts,
  write_loop-LoopPuts, put_all-Extends,
}
use telnetty.Conn.Output.{
  command_behind, frame_behind, WriteError, conn_closed, Socket, Out, append_out, write_loop,
  needs_escape, write, make_room, send_command, put_all, iacs_from, send_subnegotiation,
}

escaped_plain : (p : Bytes) → needs_escape p ≡ false → escaped p ≡ p
unfolding needs_escape
escaped_plain [] h = refl
escaped_plain (b ∷ p) h = ground (arith, escaped_plain p)

module _ (grow : Growth) (fits : Fits grow) (net : Socket) (contract : IsWriter net) (o : Out)
    (v : IsSlice o.buf) where
  abbrev WritePuts : Bytes → ℕ × Option WriteError × Out → Type 0
  WritePuts p r =
      r.1 ≡ none → (r.0 ≡ length p) × IsSlice r.2.buf × (stream r.2 ≡ stream o ++ escaped p)

  -- A `Write` without an error has taken all of `p`, and put it behind the stream with each IAC
  -- twice; the socket keeps the contract of io.Writer, and the buffer is a slice inside its array,
  -- before and after.
  pub write-stream :
      (p : Bytes)
      → (write grow net o p).1 ≡ none
      → let (n, e, o') = write grow net o p in
        (n ≡ length p) × IsSlice o'.buf × (stream o' ≡ stream o ++ escaped p)
  unfolding write
  write-stream p =
      let loop : WritePuts p (write_loop grow net o 0 p) = λ e.
        let (count, after) = write_loop-LoopPuts grow fits net contract p o 0 v e in
        (count ∙ omega arith, after.0, after.1) in
      elim (Bool-cases o.closed) [
        | inl shut ↦ simp shut (λ e. absurd (ground arith))
        | inr live ↦ elim (Bool-cases (needs_escape p)) [
          | inl escape ↦ simp (live, escape) loop
          | inr plain ↦ elim (Bool-cases (leb (o.buf.len + length p) (cap o.buf))) [
            | inl there ↦
                let after = append_out-Extends grow fits net contract o p v in
                simp (live, plain, there) (λ _. (refl, after.0, rw (escaped_plain p plain) after.1))
            | inr over ↦ simp (live, plain, over) loop
          ]
        ]
      ]

  room : (n : ℕ) → Puts grow fits net contract o [] (make_room net o n)
  unfolding make_room
  room n = make_room-Puts grow fits net contract o (ltb (cap o.buf) (o.buf.len + n)) v

  -- What is sent once there is room.
  if_live-Puts :
      (q : Bytes) (send : Out → Out) (r : Option WriteError × Out)
      → Puts grow fits net contract o [] r
      → ((o' : Out) → IsSlice o'.buf → Extends grow fits net contract o' q (send o'))
      → Puts grow fits net contract o q (
          if o.closed
          then (some conn_closed, o)
          else elim r.0 [ some err ↦ (some err, r.1) | none ↦ (none, send r.1) ])
  if_live-Puts q send (some err, o') h sends =
      by_if (Puts grow fits net contract o q) o.closed (λ _ e. absurd (ground arith))
        (λ _ e. absurd (ground arith))
  if_live-Puts q send (none, o') h sends =
      by_if (Puts grow fits net contract o q) o.closed (λ _ e. absurd (ground arith))
        (λ _ _.
          let before = h refl in
          Extends-trans grow fits net contract o o' (send o') [] q before (sends o' before.0))

  -- A `SendCommand` without an error puts IAC, the command and the option behind the stream.
  pub send_command-stream :
      (cmd option : ℕ)
      → (send_command grow net o cmd option).0 ≡ none
      → let (e, o') = send_command grow net o cmd option in
        IsSlice o'.buf × (stream o' ≡ stream o ++ Cmd.iac ∷ cmd ∷ option ∷ [])
  unfolding send_command
  send_command-stream cmd option =
      let q = Cmd.iac ∷ cmd ∷ option ∷ [] in
      if_live-Puts q (command_behind grow cmd option) (make_room net o 3) (room 3)
        (λ o' h. append_out-Extends grow fits net contract o' q h)

  -- A `SendSubnegotiation` without an error puts a whole frame behind the stream, its payload
  -- escaped, under the same conditions as `Write`.
  pub send_subnegotiation-stream :
      (option : ℕ) (payload : Bytes)
      → (send_subnegotiation grow net o option payload).0 ≡ none
      → let (e, o') = send_subnegotiation grow net o option payload in
        IsSlice o'.buf × (stream o' ≡ stream o ++ frame option payload)
  unfolding send_subnegotiation
  send_subnegotiation-stream option payload =
      let n = iacs_from (3 + length payload + 2) payload in
      if_live-Puts (frame option payload) (frame_behind grow option payload) (make_room net o n)
        (room n)
        (λ o' h.
          let head = Cmd.iac ∷ Cmd.sb ∷ option ∷ [] in
          let o₁ = append_out grow o' head in
          let o₂ = put_all grow o₁ payload in
          let a = append_out-Extends grow fits net contract o' head h in
          let b = put_all-Extends grow fits net contract payload o₁ a.0 in
          let c = append_out-Extends grow fits net contract o₂ (Cmd.iac ∷ Cmd.se ∷ []) b.0 in
          Extends-trans grow fits net contract o' o₁ (append_out grow o₂ (Cmd.iac ∷ Cmd.se ∷ []))
            head (escaped payload ++ Cmd.iac ∷ Cmd.se ∷ []) a
            (Extends-trans grow fits net contract o₁ o₂ (append_out grow o₂ (Cmd.iac ∷ Cmd.se ∷ []))
              (escaped payload) (Cmd.iac ∷ Cmd.se ∷ []) b c))
