-- ===== src/Api.antt =====
-- The interface of the library, src/lib/tou.cpp, for one connection: the handshake, and the reads and
-- writes of the application. What the system calls return is an argument. `none` is an abort or
-- undefined behaviour; failures of `sendto` and `bind` are left out. A call that waits for a datagram in
-- `recvfrom` takes the next one of `inbox`, and is `none` where none comes.
pub mod Stream
pub mod Hearing
pub mod Handshake
pub mod Delivery
pub mod Transfer
pub mod Answer
pub mod Cycle
pub mod Close
mod Tests
use tcpoudp.Prelude.{
  ℕ, ◌+◌, ◌*◌, ◌%◌, Bool, true, false, Option, none, some, List, [], ◌∷◌, length, take, ◌==◌, ◌&&◌,
  if◌then◌else◌, add32, sub32, minus_one, nonpositive, ◌>>=◌,
}
use tcpoudp.Buffer.{CircularBuffer, insert, remove, get_at, get_av_size}
use tcpoudp.Congestion.{ControlBlock, ss, smss}
use tcpoudp.Link.{Arrival, Link, Env, transmit, send_link}
use tcpoudp.Packet.{Header, Packet, new_sized, clean, put_header_seq, parse}
use tcpoudp.Run.{recv_buf_size}
use tcpoudp.Socket.{
  SockTb, SockAddr, World, Tuple, set_src, put_dst, with_tc, add_socket_table, set_socket_table,
  set_socket_state, at_cell, tous_listen, tous_syn_received, tous_established, tous_close_wait,
}

-- TOUS_SYN_SENT
abbrev pub tous_syn_sent : ℕ
tous_syn_sent = 2

-- `touSocket`, with the descriptor that `socket` gave: the table is added, and its address stays in
-- `stbp` of the socket manager. `none` is the result -1.
unfoldable pub tou_socket :
    (ℕ → Option (List ℕ)) → SockTb → Bool → Bool → ℕ → ℕ → World → Option (ℕ × World)
tou_socket malloc junk is_inet is_dgram protocol fd w =
    if is_inet && (is_dgram && protocol == 0)
    then some (length w.cells, add_socket_table malloc junk w fd)
    else none

unfoldable pub tou_bind : World → ℕ → SockAddr → Option World
tou_bind w fd addr = set_socket_table w fd (some addr) none set_src

unfoldable pub tou_listen : World → ℕ → Option World
tou_listen w fd = set_socket_state w tous_listen fd

-- `sockMng::getCirSndBuf` follows `stbp`.
unfoldable pub get_cir_snd_buf : World → ℕ → Option ℕ
get_cir_snd_buf w stbp = do tb ← at_cell w stbp; some (get_av_size tb.cb_send)

-- The next datagram.
unfoldable pub take_datagram : Env → Link → Option (Packet × Link)
take_datagram env l = elim l.inbox [
  | [] ↦ none
  | a ∷ rest ↦ do
    p ← parse env.junk (take recv_buf_size a.content)
    some (p, record l { inbox = rest })
]

-- The window of a socket whose receive buffer has `rcvbuf` bytes.
abbrev pub awnd_of : ℕ → ℕ
awnd_of rcvbuf = sub32 rcvbuf 300000

-- What both sides set at first.
abbrev pub initial : ℕ → ControlBlock → ControlBlock
initial rcvbuf tc = record tc { cc_state = ss; snd_cwnd = 2 * smss; snd_awnd = awnd_of rcvbuf }

abbrev pub bare : Env → ℕ → ℕ → Packet
bare env seq ack_seq = put_header_seq (clean (new_sized env.junk 0)) seq ack_seq

abbrev pub syn_packet : Env → Packet
syn_packet env = let p = bare env 0 0 in record p { t = record p.t { syn = true } }

abbrev pub syn_ack_packet : Env → ControlBlock → Packet
syn_ack_packet env tc =
    let p = bare env tc.snd_nxt tc.rcv_nxt in record p { t = record p.t { syn = true; ack = true } }

abbrev pub final_ack : Env → ControlBlock → Packet
final_ack env tc =
    let p = bare env tc.snd_nxt tc.rcv_nxt in record p { t = record p.t { ack = true } }

-- `touConnect` up to the SYN.
unfoldable pub connect_syn : Env → SockAddr → ℕ → Link → Option Link
connect_syn env dst rcvbuf l =
    let tc = record (initial rcvbuf l.tb.tc) { snd_nxt = add32 0 1; snd_una = 0; rcv_nxt = 0 } in
    if nonpositive rcvbuf
    then none
    else some (
        transmit (syn_packet env)
          (record l { tb = record (put_dst dst l.tb) { sockstate = tous_syn_sent; tc = tc } }))

-- What the reply sets; nothing of it is checked.
abbrev pub replied : Packet → ControlBlock → ControlBlock
replied p tc = record tc { rcv_nxt = add32 p.t.seq 1; snd_una = p.t.ack_seq }

-- `touConnect` from `recvfrom` on.
unfoldable pub connect_reply : Env → Link → Option Link
connect_reply env l = do
  (p, l') ← take_datagram env l
  let tc = replied p l'.tb.tc
  some (
      transmit (final_ack env tc)
        (record l' { tb = record l'.tb { sockstate = tous_established; tc = tc } }))

unfoldable pub tou_connect : Env → SockAddr → ℕ → Link → Option (Bool × Link)
tou_connect env dst rcvbuf l = do
  l₁ ← connect_syn env dst rcvbuf l
  l₂ ← connect_reply env l₁
  some (true, l₂)

-- The table that `touAccept` starts with, at the number that `rand` gave.
abbrev pub accepting : ℕ → ℕ → SockTb → SockTb
accepting rand rcvbuf tb =
    with_tc (λ tc. record (initial rcvbuf tc) { snd_nxt = rand % 65535; snd_una = rand % 65535 }) tb

-- `touAccept` up to the SYN ACK.
unfoldable pub accept_syn_ack : Env → ℕ → ℕ → Link → Link
accept_syn_ack env rand rcvbuf l =
    let tb = accepting rand rcvbuf l.tb in
    transmit (syn_ack_packet env tb.tc)
      (record l { tb = with_tc (λ tc. record tc { snd_nxt = add32 tc.snd_nxt 1 }) tb })

-- What the last packet of the handshake sets: the connection is established whatever it holds.
abbrev pub accepted : Packet → SockTb → SockTb
accepted p tb = record tb {
  sockstate = tous_established;
  tc = record tb.tc {
    snd_una =
        (if add32 tb.tc.snd_una 1 == p.t.ack_seq then add32 tb.tc.snd_una 1 else tb.tc.snd_una);
    rcv_nxt = (if tb.tc.rcv_nxt == p.t.seq then p.t.seq else tb.tc.rcv_nxt);
  };
}

-- `touAccept` from `recvfrom` on.
unfoldable pub accept_ack : Env → Link → Option Link
accept_ack env l = do (p, l') ← take_datagram env l; some (record l' { tb = accepted p l'.tb })

-- `touAccept`. After a FIN the closing thread closes the descriptor, whose buffer size is then -1, and
-- the assertion on it fails.
unfoldable pub tou_accept : Env → ℕ → ℕ → Link → Option (Bool × Link)
tou_accept env rand rcvbuf l =
    let shaken : Option (Bool × Link) = (do
      l' ← accept_ack env (accept_syn_ack env rand rcvbuf l)
      some (true, l')) in
    if l.tb.sockstate == tous_close_wait
    then none
    else if nonpositive rcvbuf
    then none
    else if l.tb.sockstate == tous_syn_received
    then shaken
    else some (false, record l { tb = accepting rand rcvbuf l.tb })

-- `pushsndq`
unfoldable pub pushsndq : (ℕ → Option (List ℕ)) → SockTb → List ℕ → Option (ℕ × SockTb)
pushsndq malloc tb s = do
  (n, cb) ← insert malloc tb.cb_send s (length s)
  some (n, record tb { cb_send = cb })

-- `touSend`
unfoldable pub tou_send : Env → List ℕ → Link → Option (ℕ × Link)
tou_send env s l = do
  (n, tb) ← pushsndq env.malloc l.tb s
  l' ← send_link env (record l { tb = tb })
  some (n, l')

-- `touRecv`: its result and the bytes put at the application's buffer.
unfoldable pub tou_recv : ℕ → Link → ℕ × List ℕ × Link
tou_recv n l =
    let f = get_at l.tb.cb_recv n in
    let r = remove l.tb.cb_recv f.ret in
    let read = if r.0 == f.ret then f.ret else minus_one in
    (
      (if l.tb.sockstate == tous_close_wait then 0 else read),
      f.bytes,
      record l { tb = record l.tb { cb_recv = r.1 } },
    )
