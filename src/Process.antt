-- ===== src/Process.antt =====
-- The sending and receiving of src/lib/processtou.h and processtou.cpp, on one socket table. The mutexes
-- of the table make each function one atomic step on it. `none` is an abort (`exit`, a failed
-- assertion, an exception) or undefined behaviour.
pub mod Plain
pub mod Receive
pub mod Ack
pub mod Recovery
pub mod Turns
pub mod Turn
pub mod Sending
pub mod Delivery
pub mod Validity
pub mod Sends
pub mod Single
mod Tests
use tcpoudp.Prelude.{
  ℕ, suc, zero, ◌+◌, ◌-◌, ◌*◌, ◌/◌, ◌%◌, Bool, true, false, Option, none, some, List, [], ◌∷◌,
  length, take, ltb, leb, ◌==◌, ◌&&◌, if◌then◌else◌, add32, sub32, word, half_word, minus_one,
  nonpositive, lt_int, ◌>>=◌, Attempt, aborts, spins, gives, given,
}
use tcpoudp.Buffer.{CircularBuffer, insert, remove, get_at, get_total_elements, get_av_size}
use tcpoudp.Congestion.{CcState, err, ss, ca, fr, unknown, ControlBlock, smss, addwnd, getwnd}
use tcpoudp.Packet.{Header, Packet, new_packet, put_header_seq, get_seq}
use tcpoudp.Socket.{
  SockTb, RunState, end_run, syn, fin, ack_without_data, match_expected, less_expected,
  more_expected, tous_established, with_tc, delack_immed,
}

-- The number of packets that congestion avoidance sends, of an `int` of bytes.
unfoldable pub cal_num_caxmit : ℕ → ℕ
cal_num_caxmit size =
    if leb half_word size
    then (word - (word - size) / smss) % word
    else if size / smss % 2 == 1
    then (if size % smss == 0 then size / smss - 1 else size / smss + 1)
    else size / smss

pub data AckResult : Type 0 where
  bigger equal smaller : AckResult

-- `addwnd` is called for an old acknowledgement too.
unfoldable pub proc_ack : SockTb → Packet → Option (AckResult × SockTb)
proc_ack tb p =
    if ltb tb.tc.snd_una p.t.ack_seq
    then (do
      (e, tc) ← addwnd tb.tc
      some (bigger, record tb { tc = record tc { snd_una = p.t.ack_seq } }))
    else if p.t.ack_seq == tb.tc.snd_una
    then some (equal, tb)
    else (do (e, tc) ← addwnd tb.tc; some (smaller, record tb { tc = tc }))

-- `processGetPktState`; `none` is its `exit(1)`.
unfoldable pub classify : SockTb → Packet → Option RunState
classify tb p =
    let est = tb.sockstate == tous_established in
    let with_data = p.t.ack && ltb 0 (length p.buf) in
    if p.t.syn
    then some syn
    else if p.t.fin
    then some fin
    else if p.t.ack && (est && (length p.buf == 0 && leb p.t.ack_seq tb.tc.snd_nxt))
    then some ack_without_data
    else if with_data && (p.t.seq == tb.tc.rcv_nxt && est)
    then some match_expected
    else if with_data && (ltb p.t.seq tb.tc.rcv_nxt && est)
    then some less_expected
    else if with_data && (ltb tb.tc.rcv_nxt p.t.seq && est)
    then some more_expected
    else none

module _ (malloc : ℕ → Option (List ℕ)) where
  -- `putcircbuf` and `setCbData`: the block goes to the receive buffer, whole or not at all.
  unfoldable pub putcircbuf : SockTb → List ℕ → Option (ℕ × SockTb)
  putcircbuf tb s = do
    (n, cb) ← insert malloc tb.cb_recv s (length s)
    some (n, record tb { cb_recv = cb })

  -- The packet that is next in order is put into the buffer, and `rcv_nxt` moves behind it.
  unfoldable pub recover_one : SockTb → Packet → Option (Bool × SockTb)
  recover_one tb p = do
    (n, tb') ← putcircbuf tb p.buf
    (if lt_int 0 n
        then some (true, with_tc (λ tc. record tc { rcv_nxt = add32 p.t.seq (length p.buf) }) tb')
        else some (false, tb'))

  -- `do_proc_pkt_rec` over the heap of packets out of order; `minhp_recv` is left as the packets
  -- that stay. `none` is the failed assertion on a packet older than `rcv_nxt`.
  unfoldable pub recover : List Packet → SockTb → Option (ℕ × SockTb)
  recover [] tb = some (0, record tb { minhp_recv = [] })
  recover (p ∷ rest) tb =
      if ltb p.t.seq tb.tc.rcv_nxt
      then none
      else if p.t.seq == tb.tc.rcv_nxt
      then elim (recover_one tb p) [
        | none ↦ none
        | some (true, tb') ↦ recover rest tb'
        | some (false, tb') ↦ some (minus_one, record tb' { minhp_recv = p ∷ rest })
      ]
      else some (0, record tb { minhp_recv = p ∷ rest })

  -- `proc_pkt_rec`
  unfoldable pub proc_pkt_rec : SockTb → Option (ℕ × SockTb)
  proc_pkt_rec tb = elim tb.minhp_recv [
    | [] ↦ some (0, tb)
    | p ∷ rest ↦ do
      (r, tb') ← recover (p ∷ rest) tb
      some (r, with_tc (λ tc. record tc { t_delack_state = delack_immed }) tb')
  ]

-- The space that the window leaves, and the table with the window stored.
unfoldable pub get_send_size : SockTb → ℕ × SockTb
get_send_size tb =
    let g = getwnd tb.tc in
    let edge = add32 tb.tc.snd_una g.0 in
    ((if leb tb.tc.snd_nxt edge then sub32 edge tb.tc.snd_nxt else 0), record tb { tc = g.1 })

-- At most `len` bytes from the send buffer; the result is -1 if they are not removed too.
unfoldable pub popsndq : SockTb → ℕ → ℕ × List ℕ × SockTb
popsndq tb len =
    let f = get_at tb.cb_send len in
    let r = remove tb.cb_send f.ret in
    if lt_int 0 f.ret
    then ((if f.ret == r.0 then f.ret else minus_one), f.bytes, record tb { cb_send = r.1 })
    else (f.ret, f.bytes, tb)

-- A data packet at `snd_nxt`. `junk` is what the memory of the new header held.
unfoldable pub gen_pkt : Header → SockTb → List ℕ → Packet
unfolding new_packet put_header_seq
gen_pkt junk tb payload =
    let p = put_header_seq (new_packet junk payload) tb.tc.snd_nxt tb.tc.rcv_nxt in
    record p { t = record p.t { ack = true } }

-- MIN_SEND_SIZE
abbrev pub min_send_size : ℕ
min_send_size = 1400

abbrev pub in_ca : CcState → Bool
in_ca ca = true
in_ca err = false
in_ca ss = false
in_ca fr = false
in_ca unknown = false

-- Whether the loop of `send` stops at the window.
abbrev pub stops : SockTb → ℕ → ℕ → Bool
stops tb size xmit_cnt =
    if in_ca tb.tc.cc_state then nonpositive xmit_cnt else lt_int size min_send_size

-- A packet goes out before the others.
unfoldable pub ahead : Packet → Attempt (List Packet × SockTb) → Attempt (List Packet × SockTb)
ahead p aborts = aborts
ahead p spins = spins
ahead p (gives (ps, tb)) = gives (p ∷ ps, tb)

module _ (junk : Header) where
  -- One turn of the loop of `send`: a packet of at most one segment. `none` is the exception of a
  -- text of negative length.
  unfoldable pub send_one : SockTb → ℕ → Option (Packet × SockTb)
  send_one tb size =
      let r = popsndq tb (if lt_int size smss then size else smss) in
      if leb half_word r.0
      then none
      else some (
        gen_pkt junk r.2 (take r.0 r.1),
        with_tc (λ tc. record tc { snd_nxt = add32 tc.snd_nxt r.0 }) r.2,
      )

  -- The loop of `send`, with the packets in the order in which they go out; each is also given a
  -- timer. It `spins` at the end of the fuel.
  unfoldable pub send_turns : ℕ → SockTb → ℕ → Attempt (List Packet × SockTb)
  send_turns zero tb xmit_cnt = spins
  send_turns (suc fuel) tb xmit_cnt =
      let g = get_send_size tb in
      let turn : Attempt (List Packet × SockTb) = elim (send_one g.1 g.0) [
        | none ↦ aborts
        | some (p, tb') ↦ ahead p (send_turns fuel tb' (sub32 xmit_cnt 1))
      ] in
      if lt_int 0 (get_total_elements tb.cb_send)
      then (if stops g.1 g.0 xmit_cnt then gives ([], g.1) else turn)
      else gives ([], tb)

  -- What the loop gives.
  unfoldable pub send_loop : ℕ → SockTb → ℕ → Option (List Packet × SockTb)
  send_loop fuel tb xmit_cnt = given (send_turns fuel tb xmit_cnt)

  -- The call, on fuel for the bytes stored and for the packets of congestion avoidance.
  unfoldable pub send_attempt : SockTb → Attempt (List Packet × SockTb)
  send_attempt tb =
      let g = get_send_size tb in
      let xmit_cnt = cal_num_caxmit g.0 in
      send_turns (g.1.cb_send.tot_el + xmit_cnt + 1) g.1 xmit_cnt

  -- `processTou::send`
  unfoldable pub send : SockTb → Option (List Packet × SockTb)
  send tb = given (send_attempt tb)
