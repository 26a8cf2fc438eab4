-- ===== src/Run.antt =====
-- `processTou::run` of src/lib/processtou.cpp: the state machine that takes datagrams from the socket. The
-- clock is read as one time in a call; a datagram that arrives during a call and is not taken by it
-- is one that arrives later. `none` is an abort or undefined behaviour; failures of `ioctl` and of
-- `sendto` are left out.
pub mod Termination
mod Tests
pub mod Blocks
pub mod Validity
pub mod Invariant
pub mod Round
pub mod Reception
pub mod Deleted
pub mod Calls
pub mod Reordering
pub mod Datagram
pub mod Streams
pub mod Acknowledging
use tcpoudp.Prelude.{
  ℕ, zero, suc, ◌+◌, ◌*◌, Bool, true, false, Option, none, some, List, [], ◌∷◌, length, take, ltb,
  ◌==◌, ◌&&◌, not, if◌then◌else◌, add32, minus_one, nonpositive, lt_int, ◌>>=◌, is_spin,
}
use tcpoudp.Buffer.{get_av_size}
use tcpoudp.Congestion.{ControlBlock, setdwnd}
use tcpoudp.Delack.{Acknowledged, proc_delack}
use tcpoudp.Link.{Arrival, Link, Env, timer_id_sndpkt, transmit_some, send_link}
use tcpoudp.Packet.{Packet, parse}
use tcpoudp.Process.{
  AckResult, bigger, equal, smaller, proc_ack, send_attempt, classify, putcircbuf, proc_pkt_rec,
}
use tcpoudp.Socket.{
  SockTb, SockAddr, World, RunState, end_run, syn, fin, ack_without_data, match_expected,
  less_expected, more_expected, sendback_ack, no_sendback_ack, get_pkt, clear_get_pkt, pkt_recovery,
  with_tc, put_dst, push_hp_recv_buf, ck_num_dupack, delack_immed, tous_syn_received,
  tous_close_wait,
}
use tcpoudp.Timer.{delete_timer, rexmit_for_dup_ack}

-- RECVBUFSIZE
abbrev pub recv_buf_size : ℕ
recv_buf_size = 2000

-- `pendPacketLen`: the length of the next datagram, or 0.
abbrev pub pend_packet_len : Link → ℕ
pend_packet_len l = elim l.inbox [ [] ↦ 0 | a ∷ rest ↦ length a.content ]

-- `run_recvfrom`: `rv` is its result, -1 where nothing waits.
unfoldable pub recv_in : Env → Link → List Arrival → Option Link
recv_in env l [] = some (record l { rv = minus_one })
recv_in env l (a ∷ rest) =
    let c = take recv_buf_size a.content in
    let got : Option Link = (do
      p ← parse env.junk c
      some (record l { inbox = rest; peer = a.from; rv = length c; tp = some p })) in
    if length c == 0 then some (record l { inbox = rest; peer = a.from; rv = 0 }) else got

unfoldable pub run_recvfrom : Env → Link → Option Link
run_recvfrom env l = recv_in env l l.inbox

-- Where a state leads: to another, out of the function, or into a loop of `send` that outruns its fuel.
pub data Next : Type 0 where
  goto : RunState → Link → Next
  leave : ℕ → Link → Next
  outrun : Next

-- `processGetPktState` on the packet that was received.
unfoldable pub to_state : Link → Option Next
to_state l = do p ← l.tp; s ← classify l.tb p; some (goto s l)

-- The cases PROCESS_GET_PKT and, after its `delete`, PROCESS_CLEAR_GET_PKT.
unfoldable pub fetch_pkt : Env → Link → Option Next
fetch_pkt env l = do
  l' ← run_recvfrom env l
  (if nonpositive l'.rv then some (leave minus_one l') else to_state l')

-- The table after `setdwnd`.
abbrev pub counted : Packet → Link → SockTb
counted p l = with_tc (λ tc. (setdwnd tc p.t.ack_seq).1) l.tb

-- A repeated acknowledgement: the third sends the packet again.
unfoldable pub rexmit_link : Env → Packet → Link → Option Link
rexmit_link env p l = do
  r ←
      rexmit_for_dup_ack env.junk env.old env.now l.tb.tc l.tb.sockd timer_id_sndpkt p.t.ack_seq
        l.timerheap
  some (transmit_some r.sent (record l { timerheap = r.heap }))

unfoldable pub on_dup_ack : Env → Packet → Link → Option Link
on_dup_ack env p l =
    let l' = record l { tb = counted p l } in
    if ck_num_dupack l'.tb then rexmit_link env p l' else some l'

-- The inner switch of PROCESS_ACK_WITHOUT_DATA.
unfoldable pub on_ack_result : Env → Packet → AckResult → Link → Option Link
on_ack_result env p bigger l = do
  (heap, tc) ← delete_timer l.tb.sockd timer_id_sndpkt p.t.ack_seq env.now l.st l.timerheap l.tb.tc
  some (record l { tb = record l.tb { tc = tc }; timerheap = heap })
on_ack_result env p smaller l = some l
on_ack_result env p equal l = on_dup_ack env p l

unfoldable pub on_ack : Env → Packet → Link → Option Link
on_ack env p l = do (r, tb) ← proc_ack l.tb p; on_ack_result env p r (record l { tb = tb })

-- PROCESS_ACK_WITH_DATA_MATCH_EXPECTED_SEQ: the result of `putcircbuf` is not looked at.
unfoldable pub on_match : Env → Packet → Link → Option Link
on_match env p l = do
  (n, tb) ←
      putcircbuf env.malloc
        (with_tc (λ tc. record tc { rcv_nxt = add32 p.t.seq (length p.buf) }) l.tb) p.buf
  some (record l { tb = tb })

abbrev pub set_runstate : RunState → Link → Link
set_runstate s l = record l { tb = record l.tb { runstate = s } }

-- PROCESS_PKT_RECOVERY, at the result of `proc_pkt_rec`.
abbrev pub recovered : ℕ → Link → Next
recovered r l =
    if r == 0
    then goto sendback_ack (set_runstate get_pkt l)
    else goto no_sendback_ack (set_runstate pkt_recovery l)

unfoldable pub on_recovery : Env → Link → Option Next
on_recovery env l = do
  (r, tb) ← proc_pkt_rec env.malloc l.tb
  some (recovered r (record l { tb = tb }))

-- PROCESS_ACK_WITH_DATA_MORE_EXPECTED_SEQ
unfoldable pub on_more : Packet → Link → Link
on_more p l = record l {
  tb = with_tc (λ tc. record tc { t_delack_state = delack_immed }) (push_hp_recv_buf l.tb p);
}

-- Another datagram waits, and the buffer has room for it.
abbrev pub may_get : Link → Bool
may_get l = ltb 0 (pend_packet_len l) && not (lt_int (get_av_size l.tb.cb_recv) recv_buf_size)

abbrev pub is_get_pkt : RunState → Bool
is_get_pkt get_pkt = true
is_get_pkt end_run = false
is_get_pkt syn = false
is_get_pkt fin = false
is_get_pkt ack_without_data = false
is_get_pkt match_expected = false
is_get_pkt less_expected = false
is_get_pkt more_expected = false
is_get_pkt sendback_ack = false
is_get_pkt no_sendback_ack = false
is_get_pkt clear_get_pkt = false
is_get_pkt pkt_recovery = false

-- PROCESS_ACK_DATARECSUCC_NO_SENDBACK_ACK
unfoldable pub after_data : Link → Next
after_data l = goto (if may_get l && is_get_pkt l.tb.runstate then clear_get_pkt else end_run) l

-- PROCESS_ACK_DATARECSUCC_SENDBACK_ACK, which falls through.
abbrev pub answered : Acknowledged → Link → Link
answered a l = record (transmit_some a.sent l) {
  ackdeque = a.deque;
  tb = record l.tb { tc = a.tc };
}

unfoldable pub on_sendback : Env → Link → Option Next
on_sendback env l = do
  a ← proc_delack env.junk env.old l.tb.sockd l.st env.now l.tb.tc l.ackdeque
  some (after_data (answered a l))

-- PROCESS_SYN and PROCESS_FIN
unfoldable pub on_syn : Packet → Link → Link
on_syn p l = record l {
  tb =
      with_tc (λ tc. record tc { rcv_nxt = add32 p.t.seq 1 })
        (record (put_dst l.peer l.tb) { sockstate = tous_syn_received });
}

unfoldable pub on_fin : Link → Link
on_fin l = record l { tb = record l.tb { sockstate = tous_close_wait } }

-- The end of the loop: `delete tp`, and the return.
abbrev pub finish : Link → Option Next
finish l = do p ← l.tp; some (leave l.rv (record l { tp = none }))

-- PROCESS_ACK_WITHOUT_DATA
unfoldable pub on_ack_without_data : Env → Link → Option Next
on_ack_without_data env l = do
  p ← l.tp
  l₁ ← on_ack env p l
  (if is_spin (send_attempt env.junk l₁.tb)
      then some outrun
      else (do l₂ ← send_link env l₁; some (goto end_run l₂)))

-- One round of the loop, or its end; `delete tp` and every use of the packet follow the pointer.
unfoldable pub step : Env → RunState → Link → Option Next
step env end_run l = finish l
step env get_pkt l = fetch_pkt env l
step env clear_get_pkt l = do p ← l.tp; fetch_pkt env (record l { tp = none })
step env syn l = do p ← l.tp; some (goto end_run (on_syn p l))
step env fin l = some (goto end_run (on_fin l))
step env ack_without_data l = on_ack_without_data env l
step env pkt_recovery l = on_recovery env l
step env match_expected l = do p ← l.tp; l' ← on_match env p l; some (goto pkt_recovery l')
step env less_expected l = some (goto (if may_get l then clear_get_pkt else end_run) l)
step env more_expected l = do p ← l.tp; some (goto sendback_ack (on_more p l))
step env sendback_ack l = on_sendback env l
step env no_sendback_ack l = some (after_data l)

pub data Outcome : Type 0 where
  aborted unfinished : Outcome
  returned : ℕ → Link → Outcome

-- The loop, on fuel; `unfinished` is its end, or that of the loop of `send`.
unfoldable pub run_loop : Env → ℕ → RunState → Link → Outcome
run_loop env zero s l = unfinished
run_loop env (suc fuel) s l = elim (step env s l) [
  | none ↦ aborted
  | some (goto s' l') ↦ run_loop env fuel s' l'
  | some (leave r l') ↦ returned r l'
  | some outrun ↦ unfinished
]

-- The call with the lock: four rounds for each datagram, and the rounds of the first state.
unfoldable pub run : Env → Link → Outcome
run env l = run_loop env (4 * length l.inbox + 5) l.tb.runstate (record l { tp = none; rv = 0 })

-- `run` with the result of its `try_lock`: 0 at once where another thread has the lock.
unfoldable pub try_run : Env → Bool → Link → Outcome
try_run env true l = run env l
try_run env false l = returned 0 l
