-- ===== src/Conn/Output/Flag.antt =====
-- conn.go: no method of the writing side changes the flag `closed`.
use telnetty.Base.{
  ℕ, ◌+◌, ◌≡◌, refl, ◌∙◌, true, Option, none, some, [], ◌∷◌, arith, if◌then◌else◌, Bytes, length,
}
use telnetty.Cmd
use telnetty.Slices.{Growth}
use telnetty.Conn.Output.{
  flush, write, Socket, Out, send_command, send_subnegotiation, make_room, put_all, put,
  flush_locked, WriteError, append_out, command_behind, frame_behind, iacs_from, conn_closed,
}

pub closed-flush_locked : (net : Socket) (o : Out) → (flush_locked net o).1.closed ≡ o.closed
unfolding flush_locked
closed-flush_locked net o = ground arith

pub closed-make_room : (net : Socket) (o : Out) (n : ℕ) → (make_room net o n).1.closed ≡ o.closed
unfolding make_room
closed-make_room net o n = ground (arith, closed-flush_locked net o)

pub closed-put_all : (grow : Growth) (o : Out) (p : Bytes) → (put_all grow o p).closed ≡ o.closed
unfolding put_all put
closed-put_all grow o [] = refl
closed-put_all grow o (b ∷ p) = closed-put_all grow (put grow o b) p ∙ ground arith

-- What is sent once there is room leaves the flag.
abbrev Keeps : Out → Option WriteError × Out → Type 0
Keeps o r = r.1.closed ≡ o.closed

pub closed-sent :
    (o : Out) (send : Out → Out) (r : Option WriteError × Out)
    → Keeps o r
    → ((o' : Out) → (send o').closed ≡ o'.closed)
    → Keeps o (
        if o.closed
        then (some conn_closed, o)
        else elim r.0 [ some err ↦ (some err, r.1) | none ↦ (none, send r.1) ])
closed-sent o send (some err, o') same h = ground arith
closed-sent o send (none, o') same h = ground (arith, h o')

pub closed-send_command :
    (grow : Growth) (net : Socket) (o : Out) (cmd option : ℕ)
    → (send_command grow net o cmd option).1.closed ≡ o.closed
unfolding send_command
closed-send_command grow net o cmd option =
    closed-sent o (command_behind grow cmd option) (make_room net o 3) (closed-make_room net o 3)
      (λ o'. refl)

pub closed-send_subnegotiation :
    (grow : Growth) (net : Socket) (o : Out) (option : ℕ) (p : Bytes)
    → (send_subnegotiation grow net o option p).1.closed ≡ o.closed
unfolding send_subnegotiation
closed-send_subnegotiation grow net o option p =
    let n = iacs_from (3 + length p + 2) p in
    closed-sent o (frame_behind grow option p) (make_room net o n) (closed-make_room net o n)
      (λ o'. closed-put_all grow (append_out grow o' (Cmd.iac ∷ Cmd.sb ∷ option ∷ [])) p)

-- A closed connection refuses, and stays as it is.
pub closed-refuses :
    (grow : Growth) (net : Socket) (o : Out) (p : Bytes) (cmd option : ℕ)
    → o.closed ≡ true
    → (write grow net o p ≡ (0, some conn_closed, o))
      × (send_command grow net o cmd option ≡ (some conn_closed, o))
      × (send_subnegotiation grow net o option p ≡ (some conn_closed, o))
unfolding write send_command send_subnegotiation
closed-refuses grow net o p cmd option shut = (simp (shut) refl, simp (shut) refl, simp (shut) refl)

pub closed-flush : (net : Socket) (o : Out) → (flush net o).1.closed ≡ o.closed
unfolding flush
closed-flush net o = closed-flush_locked net o
