-- ===== src/Api/Close.antt =====
-- `touClose` and the closing thread `closer::dothis` of src/lib/tou.cpp. They send and receive the memory
-- of a packet object, whose layout is the compiler's and so an argument. The lock `socktabmutex1` makes
-- each branch one atomic step, and `touClose` waits for the thread. `none` is an abort, undefined
-- behaviour, or a call of `recvfrom` for which no datagram comes.
pub mod Teardown
pub mod Fin
mod Tests
use tcpoudp.Prelude.{
  ℕ, ◌+◌, ◌*◌, Bool, true, false, Option, none, some, List, [], ◌∷◌, ◌++◌, length, take, ◌==◌, ◌&&◌,
  if◌then◌else◌, ◌>>=◌,
}
use tcpoudp.Congestion.{smss}
use tcpoudp.Packet.{Header, Packet, new_sized, clean}
use tcpoudp.Socket.{
  SockTb, SockAddr, World, get_socket_table, set_socket_state, del_socket_table, at_cell,
  tous_close_wait,
}

-- TOUS_FIN_WAIT_1, TOUS_TIME_WAIT
abbrev pub tous_fin_wait_1 : ℕ
tous_fin_wait_1 = 6

abbrev pub tous_time_wait : ℕ
tous_time_wait = 10

-- An object of `touPkg`: its fields, and the address that the pointer `buf` holds.
pub record Object : Type 0 where
  pub packet : Packet
  pub at : ℕ

-- What the compiler makes of such an object: `sizeof`, the bytes of its memory, and what it is after
-- bytes were written over it.
pub record Layout : Type 0 where
  pub size : ℕ
  pub image : Object → List ℕ
  pub written : Object → List ℕ → Object

-- `clean` of an object whose text stands at `own`: `buf->clear()` follows the pointer.
unfoldable pub clean_object : ℕ → Object → Option Object
clean_object own o = if o.at == own then some (record o { packet = clean o.packet }) else none

-- `sendto` of the object's memory to an address.
abbrev pub send_object : Layout → ℕ → SockAddr → Object → World → World
send_object y sd to o w = record w {
  wire = w.wire ++ (record { fd = sd; ip = to.addr; port = to.port; content = y.image o } ∷ []);
}

-- The peer of a table, as `assignaddr` gives it.
abbrev pub peer_of : SockTb → SockAddr
peer_of tb = record { addr = tb.dip; port = tb.dport }

-- What a close leaves: the shared state, and the descriptors closed, one for each call of `close`.
pub record Closing : Type 0 where
  pub world : World
  pub closed : List ℕ

-- What a close is given: the layout, what the memory of a new header held, where the text of the
-- thread's packet stands, and what the memory of the second `sockaddrs` of `dothis` held, which
-- hides the first and is never set.
pub record Surroundings : Type 0 where
  pub layout : Layout
  pub junk : Header
  pub own : ℕ
  pub stray : SockAddr

-- The packet `tp` of a new `closer`.
abbrev pub closer_packet : Surroundings → Object
closer_packet x = record { packet = new_sized x.junk smss; at = x.own }

-- The FIN ACK, which leaves the other fields of `tp` as they are.
unfoldable pub fin_ack : Object → Object
fin_ack o = record o {
  packet = record o.packet { t = record o.packet.t { fin = true; ack = true; seq = 2 } };
}

-- `dothis` after the peer's FIN: the datagram `got` is the one that `recvfrom` takes. The
-- descriptor is closed on an ACK, and then once more in every case.
unfoldable pub server_close : Surroundings → ℕ → SockTb → List ℕ → World → Closing
server_close x sd tb got w =
    let o = fin_ack (closer_packet x) in
    let o' = x.layout.written o (take x.layout.size got) in
    record {
      world = send_object x.layout sd (peer_of tb) o w;
      closed = if o'.packet.t.ack then sd ∷ sd ∷ [] else sd ∷ [];
    }

-- The ACK of the FIN ACK, in a packet that was cleaned.
unfoldable pub last_ack : Object → Object
last_ack o = record o { packet = record o.packet { t = record o.packet.t { ack = true; seq = 3 } } }

-- `dothis` on the side that sent the first FIN.
unfoldable pub client_close : Surroundings → ℕ → List ℕ → World → Option Closing
client_close x sd got w = do
  w₁ ← set_socket_state w tous_fin_wait_1 sd
  let o = x.layout.written (closer_packet x) (take x.layout.size got)
  w₂ ← (if o.packet.t.fin && o.packet.t.ack then set_socket_state w₁ tous_time_wait sd else some w₁)
  o' ← clean_object x.own o
  some (record {
    world = del_socket_table (send_object x.layout sd x.stray (last_ack o') w₂) sd;
    closed = sd ∷ [];
  })

-- `closer::dothis`, for the datagrams that come to the descriptor.
unfoldable pub dothis : Surroundings → ℕ → List (List ℕ) → World → Option Closing
dothis x sd inbox w = do
  p ← get_socket_table w sd
  tb ← at_cell w p
  elim inbox [
    | [] ↦ none
    | got ∷ rest ↦
        if tb.sockstate == tous_close_wait
        then some (server_close x sd tb got w)
        else client_close x sd got w
  ]

-- The FIN of `touClose`, in a packet without bytes whose text stands at `at`.
unfoldable pub fin_packet : Surroundings → ℕ → Object
fin_packet x at =
    let p = clean (new_sized x.junk 0) in
    record {
      packet = record p { t = record p.t { seq = 0; fin = true; ack_seq = 0 + 1 } };
      at = at;
    }

-- `touClose`; the client sends its FIN before the thread starts.
unfoldable pub tou_close : Surroundings → ℕ → ℕ → List (List ℕ) → World → Option Closing
tou_close x at sd inbox w = do
  p ← get_socket_table w sd
  tb ← at_cell w p
  (if tb.sockstate == tous_close_wait
      then dothis x sd inbox w
      else dothis x sd inbox (send_object x.layout sd (peer_of tb) (fin_packet x at) w))
