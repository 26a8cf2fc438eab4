-- ===== src/Delack.antt =====
-- The delayed acknowledgements of src/lib/timer.cpp, timer_mng.cpp and processtou.cpp: the deque of their
-- nodes and the states TOUS_DELACK_*. `ack_deque_mtx` makes each function one atomic step. `none` is
-- an abort.
pub mod Alternation
pub mod Ready
mod Tests
use tcpoudp.Prelude.{
  ℕ, ◌+◌, ◌-◌, ◌*◌, ◌/◌, ◌%◌, Bool, true, false, Option, none, some, List, [], ◌∷◌, length, min,
  ltb, leb, ◌==◌, ◌&&◌, not, if◌then◌else◌, add32, sub32, word, half_word, minus_one, lt_int,
}
use tcpoudp.Congestion.{ControlBlock, settwnd}
use tcpoudp.Packet.{Header, Packet, new_packet, put_header_seq, new_sized, clean}
use tcpoudp.Node.{Node, new_rexmit, new_ack, new_data}
use tcpoudp.Node
use tcpoudp.Socket.{
  SockTb, with_tc, delack_xmit, delack_que, delack_quexmit, delack_expxmit, delack_immed,
}

abbrev pub delayed_ack_time : ℕ
delayed_ack_time = 200

abbrev pub prompt_ack_time : ℕ
prompt_ack_time = 500

-- `timerCk::update_ack`
unfoldable pub update_ack : ControlBlock → ℕ → Node → Node
update_ack tc now n = record n {
  p_id = tc.rcv_nxt;
  push_ackms = add32 now prompt_ack_time;
  nagle_ackms = add32 now delayed_ack_time;
}

-- `timerMng::get_ack_node`, as the test on a node.
abbrev pub is_ack_node : ℕ → ℕ → Node → Bool
is_ack_node cid tid n = n.c_id == cid && n.t_id == tid

-- `timerMng::update_ack`: the first node of the connection is set anew, and a missing one added in
-- the state TOUS_DELACK_XMIT alone; `none` is its `exit(1)`.
unfoldable pub update_ack_deque :
    Node → ℕ → ℕ → ℕ → ℕ → ControlBlock → ℕ → List Node → Option (List Node)
update_ack_deque junk cid tid st state tc now [] =
    if state == delack_xmit
    then some (
        Node.copy (
          new_ack junk cid tid tc.rcv_nxt (add32 now prompt_ack_time) (add32 now delayed_ack_time)
            st)
        ∷ [])
    else none
update_ack_deque junk cid tid st state tc now (n ∷ ns) =
    let rest : Option (List Node) = elim (update_ack_deque junk cid tid st state tc now ns) [
      | none ↦ none
      | some ns' ↦ some (n ∷ ns')
    ] in
    if is_ack_node cid tid n then some (update_ack tc now n ∷ ns) else rest

-- The bare acknowledgement that `sendack` and `gen_pkt` send.
unfoldable pub ack_packet : Header → ControlBlock → Packet
ack_packet junk tc =
    let p = put_header_seq (clean (new_sized junk 0)) tc.snd_nxt tc.rcv_nxt in
    record p { t = record p.t { ack = true } }

-- What a round over one node of the deque leaves.
pub record Delayed : Type 0 where
  pub sent : Option Packet
  pub node : Node
  pub tc : ControlBlock

-- The acknowledgement is sent, and the node and the state set anew; the assertion of `sendack` fails
-- where the node is ahead of `rcv_nxt`.
unfoldable pub send_delayed : Header → ControlBlock → ℕ → ℕ → Node → Option Delayed
send_delayed junk tc now state n =
    if ltb tc.rcv_nxt n.p_id
    then none
    else some (record {
      sent = some (ack_packet junk tc);
      node = update_ack tc now n;
      tc = record tc { t_delack_state = state };
    })

-- `proc_delack_xmit`
unfoldable pub proc_delack_xmit : Header → ControlBlock → ℕ → Node → Option Delayed
proc_delack_xmit junk tc now n =
    let idle : Option Delayed = some (record { sent = none; node = n; tc = tc }) in
    let s = tc.t_delack_state in
    if s == delack_immed
    then idle
    else if s == delack_xmit
    then (if ltb n.nagle_ackms now then send_delayed junk tc now delack_quexmit n else idle)
    else if s == delack_quexmit
    then (if ltb n.push_ackms now then send_delayed junk tc now delack_expxmit n else idle)
    else if s == delack_expxmit
    then (if ltb n.push_ackms now then send_delayed junk tc now delack_expxmit n else idle)
    else if s == delack_que
    then (if ltb n.push_ackms now then send_delayed junk tc now delack_expxmit n else idle)
    else none

-- What `processTou::proc_delack` leaves.
pub record Acknowledged : Type 0 where
  pub sent : Option Packet
  pub deque : List Node
  pub tc : ControlBlock

-- TIMER_ID_DELACK
abbrev pub timer_id_delack : ℕ
timer_id_delack = 10

-- `processTou::proc_delack` for the table at `st` with descriptor `fd`.
unfoldable pub proc_delack :
    Header → Node → ℕ → ℕ → ℕ → ControlBlock → List Node → Option Acknowledged
proc_delack junk old fd st now tc deque =
    let s = tc.t_delack_state in
    if s == delack_que
    then elim (update_ack_deque old fd timer_id_delack st delack_que tc now deque) [
      | none ↦ none
      | some d ↦
          some (record { sent = none; deque = d; tc = record tc { t_delack_state = delack_xmit } })
    ]
    else if leb 1 s && leb s 5
    then elim (update_ack_deque old fd timer_id_delack st delack_xmit tc now deque) [
      | none ↦ none
      | some d ↦ some (record {
        sent = some (ack_packet junk tc);
        deque = d;
        tc = record tc { t_delack_state = delack_que };
      })
    ]
    else none
