-- ===== src/Socket.antt =====
-- The socket tables of src/lib/tou_sock_table.h and tou_sock_table.cpp, and the state that the library shares:
-- the tables, the vector `stbq` of pointers to them, the timers and what was sent. A table is never
-- freed, so its address is its place in `cells`. `none` is an abort or undefined behaviour.
pub mod Table
pub mod Change
mod Tests
use tcpoudp.Prelude.{
  ℕ, ◌≡◌, Bool, true, false, Option, none, some, List, [], ◌∷◌, ◌++◌, length, get_elem?, set, ◌==◌,
  if◌then◌else◌, leb,
}
use tcpoudp.Buffer.{CircularBuffer, new_buffer, set_size, insert, get_av_size}
use tcpoudp.Congestion.{CcState, ControlBlock, new_ssca, max_circular_buf, rexmt_thresh}
use tcpoudp.Packet.{Packet}
use tcpoudp.Packet
use tcpoudp.Node.{Node}
use tcpoudp.Heap

-- The states of `processTou::run`.
pub data RunState : Type 0 where
  end_run syn fin ack_without_data match_expected less_expected more_expected sendback_ack
        no_sendback_ack get_pkt clear_get_pkt pkt_recovery :
      RunState

-- `tou_comm.h`'s connection states that the library sets, by their numbers.
abbrev pub tous_listen : ℕ
tous_listen = 1

abbrev pub tous_syn_received : ℕ
tous_syn_received = 3

abbrev pub tous_established : ℕ
tous_established = 4

abbrev pub tous_close_wait : ℕ
tous_close_wait = 5

-- The delayed acknowledgement states.
abbrev pub delack_xmit : ℕ
delack_xmit = 1

abbrev pub delack_que : ℕ
delack_que = 2

abbrev pub delack_quexmit : ℕ
delack_quexmit = 3

abbrev pub delack_expxmit : ℕ
delack_expxmit = 4

abbrev pub delack_immed : ℕ
delack_immed = 5

pub record SockTb : Type 0 where
  pub sockd : ℕ
  pub sockstate : ℕ
  pub runstate : RunState
  pub sport : ℕ
  pub dport : ℕ
  pub sip : List ℕ
  pub dip : List ℕ
  pub tc : ControlBlock
  pub cb_send : CircularBuffer
  pub cb_recv : CircularBuffer
  pub minhp_recv : List Packet

-- A text that was sent, with the descriptor and where to.
pub record Datagram : Type 0 where
  pub fd : ℕ
  pub ip : List ℕ
  pub port : ℕ
  pub content : List ℕ

pub record World : Type 0 where
  pub cells : List SockTb
  pub stbq : List ℕ
  pub timerheap : List Node
  pub ackdeque : List Node
  pub wire : List Datagram

-- The constructor `sockTb()`, over what the memory held.
unfoldable pub new_sock_tb : (ℕ → Option (List ℕ)) → SockTb → SockTb
unfolding new_ssca new_buffer
new_sock_tb malloc junk = record junk {
  runstate = get_pkt;
  cb_send = (set_size malloc new_buffer max_circular_buf).1;
  cb_recv = (set_size malloc new_buffer max_circular_buf).1;
  minhp_recv = [];
  sip = [];
  dip = [];
  tc = record (new_ssca junk.tc) {
    t_delack_state = delack_xmit;
    t_rto = 3000;
    t_rto_beta = 2;
    t_rtt = 3000;
    t_rtt_alpha = 1;
    dupackcount = 0;
    iss = 0;
    irs = 0;
  };
}

-- Whether the table at an address is the descriptor's.
abbrev pub is_for : List SockTb → ℕ → ℕ → Bool
is_for cells fd p = elim (get_elem? cells p) [ none ↦ false | some tb ↦ tb.sockd == fd ]

-- The first pointer whose table has the descriptor.
unfoldable pub find : List SockTb → List ℕ → ℕ → Option ℕ
find cells [] fd = none
find cells (p ∷ ps) fd = if is_for cells fd p then some p else find cells ps fd

unfoldable pub erase : List SockTb → List ℕ → ℕ → List ℕ
erase cells [] fd = []
erase cells (p ∷ ps) fd = if is_for cells fd p then ps else p ∷ erase cells ps fd

unfoldable pub get_socket_table : World → ℕ → Option ℕ
unfolding find
get_socket_table w fd = find w.cells w.stbq fd

unfoldable pub add_socket_table : (ℕ → Option (List ℕ)) → SockTb → World → ℕ → World
unfolding new_sock_tb
add_socket_table malloc junk w fd = record w {
  cells = w.cells ++ (record (new_sock_tb malloc junk) { sockd = fd } ∷ []);
  stbq = w.stbq ++ (length w.cells ∷ []);
}

unfoldable pub del_socket_table : World → ℕ → World
unfolding erase
del_socket_table w fd = record w { stbq = erase w.cells w.stbq fd }

-- The table at an address, and a change of it.
abbrev pub at_cell : World → ℕ → Option SockTb
at_cell w p = get_elem? w.cells p

abbrev pub change : World → ℕ → (SockTb → SockTb) → Option World
change w p f = elim (at_cell w p) [
  | none ↦ none
  | some tb ↦ some (record w { cells = set w.cells p (f tb) })
]

-- A change of the descriptor's table; a null pointer fails the assertion or is followed.
abbrev pub change_socket : World → ℕ → (SockTb → SockTb) → Option World
change_socket w fd f = elim (get_socket_table w fd) [ none ↦ none | some p ↦ change w p f ]

-- A `sockaddr_in` as `inet_ntoa` and `ntohs` read it.
pub record SockAddr : Type 0 where
  pub addr : List ℕ
  pub port : ℕ

pub data Tuple : Type 0 where
  set_src set_dst set_srcdst other : Tuple

abbrev pub put_src : SockAddr → SockTb → SockTb
put_src a tb = record tb { sport = a.port; sip = a.addr }

abbrev pub put_dst : SockAddr → SockTb → SockTb
put_dst a tb = record tb { dport = a.port; dip = a.addr }

-- `none` is an address that is asserted to be there and is not.
abbrev pub with_tuple : Tuple → Option SockAddr → Option SockAddr → Option (SockTb → SockTb)
with_tuple set_src (some s) d = some (put_src s)
with_tuple set_src none d = none
with_tuple set_dst s (some d) = some (put_dst d)
with_tuple set_dst s none = none
with_tuple set_srcdst (some s) (some d) = some (λ tb. put_dst d (put_src s tb))
with_tuple set_srcdst (some s) none = none
with_tuple set_srcdst none d = none
with_tuple other s d = some (λ tb. tb)

unfoldable pub set_socket_table :
    World → ℕ → Option SockAddr → Option SockAddr → Tuple → Option World
set_socket_table w fd s d flag = elim (with_tuple flag s d) [
  | none ↦ none
  | some f ↦ change_socket w fd f
]

unfoldable pub set_socket_state : World → ℕ → ℕ → Option World
set_socket_state w state fd = change_socket w fd (λ tb. record tb { sockstate = state })

abbrev pub with_tc : (ControlBlock → ControlBlock) → SockTb → SockTb
with_tc f tb = record tb { tc = f tb.tc }

unfoldable pub set_tcb : World → ℕ → ℕ → ℕ → Option World
set_tcb w nxt una fd =
    change_socket w fd (with_tc (λ tc. record tc { snd_nxt = nxt; snd_una = una }))

unfoldable pub set_tcb_rcv : World → ℕ → ℕ → Option World
set_tcb_rcv w seq fd = change_socket w fd (with_tc (λ tc. record tc { rcv_nxt = seq }))

unfoldable pub set_tcb_cwnd : World → ℕ → ℕ → Option World
set_tcb_cwnd w size fd = change_socket w fd (with_tc (λ tc. record tc { snd_cwnd = size }))

unfoldable pub set_tcb_awnd : World → ℕ → ℕ → Option World
set_tcb_awnd w size fd = change_socket w fd (with_tc (λ tc. record tc { snd_awnd = size }))

unfoldable pub set_tcb_state : World → CcState → ℕ → Option World
set_tcb_state w state fd = change_socket w fd (with_tc (λ tc. record tc { cc_state = state }))

-- The packets out of order, by sequence number.
unfoldable pub push_hp_recv_buf : SockTb → Packet → SockTb
push_hp_recv_buf tb p = record tb {
  minhp_recv = Heap.push (λ l r. leb r.t.seq l.t.seq) (Packet.copy p) tb.minhp_recv;
}

unfoldable pub ck_num_dupack : SockTb → Bool
ck_num_dupack tb = tb.tc.dupackcount == rexmt_thresh
