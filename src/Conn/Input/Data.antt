-- ===== src/Conn/Input/Data.antt =====
-- conn.go: the loop of `processReadLocked` over the data events, and the read buffer behind it.
use telnetty.Base.{
  ℕ, ◌+◌, ◌-◌, ◌≤◌, ◌<◌, ◌≡◌, refl, sym, ap, ◌∙◌, true, List, [], ◌∷◌, ◌++◌, append-nil,
  append_assoc, arith, ltb, Bytes, length, take, length-append, take_all,
}
use telnetty.Slices.{Growth}
use telnetty.Ring
use telnetty.Ring.{Ring, len}
use telnetty.Ring.Queue
use telnetty.Ring.Invariant.{IsValid, contents, length-contents}
use telnetty.Ring.Refine.{write_refines}
use telnetty.Parser.State
use telnetty.Parser.State.{mode_of}
use telnetty.Parser.Events.{DataEvent, CommandEvent, SubnegotiationEvent, slice, resolve, max_data}
use telnetty.Parser.Data.{breaks, parse-texts}
use telnetty.Parser.Decode.{texts, events}
use telnetty.Parser.{Parser, parse}
use telnetty.Parser.Bounds.{AllData, parse-IsBounded}
use telnetty.Conn.Output.{Socket}
use telnetty.Conn.Input.{
  SubnegotiationEvent, CommandEvent, process_subnegotiation, Parser, process_subnegotiations,
  process_commands, handle_subnegotiation, process_read, handle_terminal_type, handle_naws, Conn,
  QueuedEvent, push_event, write_data, reply, process_command,
}

pub write-room :
    {k : ℕ} {r : Ring} (p : Bytes)
    → IsValid k r
    → len r + length p ≤ r.mask
    → IsValid k (Ring.write r p).2 × (contents (Ring.write r p).2 ≡ contents r ++ p)
unfolding Queue.write
write-room {k} {r} p v room =
    let (e, w) = write_refines v p in
    let all : take (r.mask - length (contents r)) p ≡ p =
      take_all _ p (omega (arith, length-contents r)) in
    (w, ap (λ t. t.2) e ∙ ap (λ t. contents r ++ t) all)

write_data-contents :
    {k : ℕ} {r : Ring} (total : ℕ) (input : Bytes) (es : List DataEvent)
    → IsValid k r
    → AllData total es
    → len r + length (resolve input es) ≤ r.mask
    → IsValid k (write_data input es r)
      × (contents (write_data input es r) ≡ contents r ++ resolve input es)
unfolding write_data
write_data-contents {k} {r} total input [] v all room = (v, sym (append-nil (contents r)))
write_data-contents {k} {r} total input (e ∷ es) v (size, inside, same, all) room =
    let p = slice input e.start e.size in
    let size_is = length-append (resolve input es) p in
    let (w, c) = write_data-contents total input es v all (omega arith) in
    let r' = write_data input es r in
    let mask_is : r'.mask ≡ r.mask = omega (arith, w.mask_is, v.mask_is) in
    let len_is : len r' ≡ len r + length (resolve input es) =
      sym (length-contents r')
      ∙ ap length c
      ∙ length-append (contents r) (resolve input es)
      ∙ ap (λ t. t + length (resolve input es)) (length-contents r) in
    let (w', c') = write-room p w (omega arith) in
    let some_bytes : ltb 0 e.len ≡ true = ground arith in
    rw some_bytes (w', c' ∙ ap (λ t. t ++ p) c ∙ append_assoc (contents r) (resolve input es) p)

read_buf-push_event : (c : Conn) (e : QueuedEvent) → (push_event c e).read_buf ≡ c.read_buf
unfolding push_event
read_buf-push_event c e = ground arith

read_buf-process_command :
    (grow : Growth) (net : Socket) (c : Conn) (cmd option : ℕ)
    → (process_command grow net c cmd option).read_buf ≡ c.read_buf
unfolding process_command reply push_event
read_buf-process_command grow net c cmd option = ground arith

read_buf-process_commands :
    (grow : Growth) (net : Socket) (es : List CommandEvent) (c : Conn)
    → (process_commands grow net c es).read_buf ≡ c.read_buf
unfolding process_commands
read_buf-process_commands grow net [] c = refl
read_buf-process_commands grow net (e ∷ es) c =
    read_buf-process_commands grow net es (process_command grow net c e.command e.option)
    ∙ read_buf-process_command grow net c e.command e.option

read_buf-handle_terminal_type :
    (c : Conn) (payload : Bytes) → (handle_terminal_type c payload).read_buf ≡ c.read_buf
unfolding handle_terminal_type
read_buf-handle_terminal_type c payload = ground arith

read_buf-handle_naws : (c : Conn) (payload : Bytes) → (handle_naws c payload).read_buf ≡ c.read_buf
unfolding handle_naws
read_buf-handle_naws c payload = ground arith

read_buf-handle_subnegotiation :
    (c : Conn) (option : ℕ) (payload : Bytes)
    → (handle_subnegotiation c option payload).read_buf ≡ c.read_buf
unfolding handle_subnegotiation
read_buf-handle_subnegotiation c option payload =
    ground (arith, read_buf-handle_terminal_type c payload, read_buf-handle_naws c payload)

read_buf-process_subnegotiations :
    (p : Parser) (es : List SubnegotiationEvent) (c : Conn)
    → (process_subnegotiations c p es).read_buf ≡ c.read_buf
unfolding process_subnegotiations process_subnegotiation
read_buf-process_subnegotiations p [] c = refl
read_buf-process_subnegotiations p (e ∷ es) c =
    read_buf-process_subnegotiations p es _
    ∙ read_buf-push_event _ _
    ∙ read_buf-handle_subnegotiation _ e.option _

-- A chunk's plain bytes are put behind the bytes in the read buffer, and the ring stays valid, if
-- ring and parser are valid, there is room for the bytes, and fewer than 64 IACs of the chunk
-- stand outside subnegotiations.
pub process_read-contents :
    (grow : Growth) (net : Socket) {k limit : ℕ} (c : Conn) (input : Bytes)
    → IsValid k c.read_buf
    → State.IsValid limit c.parser
    → breaks limit (mode_of c.parser) input < max_data
    → let plain = texts (events limit (mode_of c.parser) input) in
      len c.read_buf + length plain ≤ c.read_buf.mask
      → let c' = process_read grow net c input in
        IsValid k c'.read_buf × (contents c'.read_buf ≡ contents c.read_buf ++ plain)
unfolding process_read
process_read-contents grow net {k} {limit} c input v w few room =
    let (p', r) = parse grow c.parser input in
    let stored = record c { parser = p'; read_buf = write_data input r.data_events c.read_buf } in
    let plain_is = parse-texts grow input w few in
    let slices = (parse-IsBounded grow input w).data_slices in
    let (v', c') =
      write_data-contents (length input) input r.data_events v slices (rw plain_is room) in
    let same =
      read_buf-process_subnegotiations p' r.sn_events
        (process_commands grow net stored r.command_events)
      ∙ read_buf-process_commands grow net r.command_events stored in
    rw same (v', c' ∙ ap (λ t. contents c.read_buf ++ t) plain_is)
