-- ===== src/Link.antt =====
-- What a call of the library works on: one socket table of src/lib/tou_sock_table.h with the timer heap and
-- the deque of acknowledgements, the datagrams that wait in the socket, and those sent. Every lookup
-- of the descriptor in a call finds the same table, since a call adds none and deletes none before
-- its last lookup.
use tcpoudp.Prelude.{ℕ, Option, none, some, List, [], ◌∷◌, ◌++◌, length, add32, ◌>>=◌}
use tcpoudp.Packet.{Header, Packet, to_string}
use tcpoudp.Node.{Node}
use tcpoudp.Process.{send}
use tcpoudp.Socket.{SockTb, SockAddr, Datagram}
use tcpoudp.Timer.{add}

-- A datagram that waits in the socket: from where, and its bytes.
pub record Arrival : Type 0 where
  pub from : SockAddr
  pub content : List ℕ

-- `tp` is the local pointer of `run`, and `none` where it is not initialised; `peer` is `sockaddrs`
-- of `processTou`; `st` is the table's address.
pub record Link : Type 0 where
  pub st : ℕ
  pub tb : SockTb
  pub timerheap : List Node
  pub ackdeque : List Node
  pub inbox : List Arrival
  pub wire : List Datagram
  pub peer : SockAddr
  pub tp : Option Packet
  pub rv : ℕ

-- What a call is given from outside: `malloc`, what fresh memory holds, and the clock.
pub record Env : Type 0 where
  pub malloc : ℕ → Option (List ℕ)
  pub junk : Header
  pub old : Node
  pub now : ℕ

-- TIMER_ID_SNDPKT
abbrev pub timer_id_sndpkt : ℕ
timer_id_sndpkt = 20

-- `sendto` the peer of the table.
abbrev pub transmit : Packet → Link → Link
transmit p l = record l {
  wire =
      l.wire
      ++ (record { fd = l.tb.sockd; ip = l.tb.dip; port = l.tb.dport; content = to_string p } ∷ []);
}

abbrev pub transmit_some : Option Packet → Link → Link
transmit_some none l = l
transmit_some (some p) l = transmit p l

-- What `send` does with each packet: it goes out, and gets a timer.
unfoldable pub arm : Env → List Packet → Link → Link
arm env [] l = l
arm env (p ∷ ps) l = arm env ps (record (transmit p l) {
  timerheap =
      add env.old l.tb.sockd timer_id_sndpkt (add32 p.t.seq (length p.buf)) l.st p.buf env.now
        l.tb.tc.t_rto l.timerheap;
})

-- `processTou::send` with its datagrams and timers; it reads the peer, the timeout and the descriptor,
-- which the loop leaves as they are.
unfoldable pub send_link : Env → Link → Option Link
send_link env l = do (ps, tb) ← send env.junk l.tb; some (arm env ps (record l { tb = tb }))
