-- ===== src/Timer.antt =====
-- The timers of src/lib/timer.h, timer.cpp and timer_mng.cpp: the estimate of the round trip, the heap
-- of packets not acknowledged, and retransmission. `timer_heap_mtx` makes each function one atomic
-- step. `none` is an abort.
pub mod Expiry
pub mod Postpone
pub mod Rto
pub mod Clear
pub mod Payload
pub mod Again
mod Tests
use tcpoudp.Prelude.{
  ℕ, zero, suc, ◌||◌, ◌+◌, ◌-◌, ◌*◌, ◌/◌, ◌%◌, Bool, true, false, Option, none, some, List, [], ◌∷◌,
  length, min, ltb, leb, ◌==◌, ◌&&◌, not, if◌then◌else◌, add32, sub32, word, half_word, minus_one,
  lt_int,
}
use tcpoudp.Congestion.{ControlBlock, settwnd}
use tcpoudp.Packet.{Header, Packet, new_packet, put_header_seq, new_sized, clean}
use tcpoudp.Node.{Node, new_rexmit, new_ack, new_data}
use tcpoudp.Node
use tcpoudp.Socket.{
  SockTb, with_tc, delack_xmit, delack_que, delack_quexmit, delack_expxmit, delack_immed,
}

-- `getTimeMs` at a time of `gettimeofday`.
unfoldable pub get_time_ms : ℕ → ℕ → ℕ
get_time_ms sec usec = sec % 1000000 * 1000 + usec / 1000

-- A round trip is 10 ms at least.
abbrev pub sample : Node → ℕ → ℕ
sample n recv_t = let cur = sub32 recv_t n.xmitms in if lt_int cur 10 then 10 else cur

-- The multiple of `u` that is nearest to `x`; of two, the even one.
unfoldable pub nearest : ℕ → ℕ → ℕ
nearest u x =
    let q = x / u in
    let r = x % u * 2 in if ltb r u || r == u && q % 2 == 0 then q * u else (q + 1) * u

-- `x` in single precision: 24 bits, in units of `u` or of a larger power of two.
unfoldable pub single_from : ℕ → ℕ → ℕ → ℕ
single_from zero u x = nearest u x
single_from (suc k) u x =
    let rest = single_from k (u * 2) x in if ltb x (16777216 * u) then nearest u x else rest

-- A `long` as a float: ten doublings of the unit reach above its 32 bits.
unfoldable pub single : ℕ → ℕ
single x = single_from 10 1 x

-- The product of a `long` by a float of `w` eighths, as a `long`.
unfoldable pub weighted : ℕ → ℕ → ℕ
weighted x w = single (single x * w) / 8

-- `cal_rto`, with `t_rtt_alpha` in eighths.
unfoldable pub cal_rto : Node → ℕ → ControlBlock → ControlBlock
cal_rto n recv_t tc =
    if leb half_word n.xmitms
    then tc
    else (let rtt =
          weighted tc.t_rtt tc.t_rtt_alpha + weighted (sample n recv_t) (8 - tc.t_rtt_alpha) in
        record tc { t_rtt = rtt; t_rto = tc.t_rto_beta * rtt % word })

-- TOU_MAX_TIMEO
abbrev pub max_timeo : ℕ
max_timeo = 64000

unfoldable pub cal_backoff_rto : ControlBlock → ControlBlock
cal_backoff_rto tc = record tc { t_rto = min max_timeo (tc.t_rto * 2 % word) }

-- `proc_clear_ackedpkt()` with the `snd_una` of the table that the first node belongs to.
unfoldable pub clear_acked : ℕ → List Node → List Node
clear_acked una [] = []
clear_acked una (n ∷ ns) = if leb n.p_id una then clear_acked una ns else n ∷ ns

abbrev pub belongs : ℕ → ℕ → Node → Bool
belongs cid tid n = n.t_id == tid && n.c_id == cid

-- `proc_clear_ackedpkt(cid, tid, una_seq, recv_t)`: the heap that is left, and the node from which
-- the round trip is measured. `none` is its `exit(1)`.
unfoldable pub clear_acked_for : ℕ → ℕ → ℕ → List Node → Option (List Node × Option Node)
clear_acked_for cid tid una [] = some ([], none)
clear_acked_for cid tid una (n ∷ ns) =
    let rest = clear_acked_for cid tid una ns in
    if belongs cid tid n
    then (if ltb n.p_id una
        then rest
        else if n.p_id == una
        then some (ns, some n)
        else some (n ∷ ns, none))
    else none

-- What `cal_rto` does to the block of the table at `st`: it writes to the table that the node points
-- to, and leaves this one where that is another.
unfoldable pub cal_rto_at : ℕ → Node → ℕ → ControlBlock → ControlBlock
cal_rto_at st n recv_t tc = if n.st == st then cal_rto n recv_t tc else tc

-- `timerMng::delete_timer`, on the heap and the block of the table at `st`.
unfoldable pub delete_timer :
    ℕ → ℕ → ℕ → ℕ → ℕ → List Node → ControlBlock → Option (List Node × ControlBlock)
delete_timer cid tid una now st heap tc = elim (clear_acked_for cid tid una heap) [
  | none ↦ none
  | some (heap', none) ↦ some (heap', tc)
  | some (heap', some n) ↦ some (heap', cal_rto_at st n now tc)
]

-- The packet that `sendpkt` sends for a node; `none` follows a null payload.
unfoldable pub sendpkt : Header → Node → ControlBlock → Option Packet
sendpkt junk n tc = elim n.payload [
  | none ↦ none
  | some b ↦
      let p = put_header_seq (new_packet junk b) (sub32 n.p_id (length b)) tc.rcv_nxt in
      some (record p { t = record p.t { ack = true } })
]

-- `timerMng::add`
unfoldable pub add : Node → ℕ → ℕ → ℕ → ℕ → List ℕ → ℕ → ℕ → List Node → List Node
add junk cid tid pid st payload now rto heap =
    Node.push (new_data junk cid tid pid st payload now rto) heap

-- What a fast retransmission leaves: whether it sent, the packet and the heap.
pub record Rexmit : Type 0 where
  pub sent : Option Packet
  pub heap : List Node

module _ (junk : Header) (old : Node) (now : ℕ) (tc : ControlBlock) where
  -- `rexmit_for_dup_ack`
  unfoldable pub rexmit_for_dup_ack : ℕ → ℕ → ℕ → List Node → Option Rexmit
  rexmit_for_dup_ack cid tid pid [] = some (record { sent = none; heap = [] })
  rexmit_for_dup_ack cid tid pid (n ∷ ns) =
      let rest = rexmit_for_dup_ack cid tid pid ns in
      elim n.payload [
        | none ↦ none
        | some b ↦
            let start = sub32 n.p_id (length b) in
            if belongs cid tid n && start == pid
            then some (record {
              sent = sendpkt junk n tc;
              heap = Node.push (new_rexmit old cid tid n.p_id n.st b minus_one now tc.t_rto) ns;
            })
            else if belongs cid tid n && ltb start pid
            then rest
            else none
      ]

-- One node of `postpone_timer`: what goes to the second heap. The outer `none` is the failed
-- assertion, the inner a node that is dropped.
unfoldable pub postpone_node : ℕ → ℕ → ℕ → ℕ → Node → Option (Option Node)
postpone_node cid tid seq rto n =
    if not (n.c_id == cid && n.t_id == tid)
    then some (some n)
    else if ltb seq n.p_id
    then (if lt_int 0 n.xmitms then some (some (record n { ms = add32 n.xmitms rto })) else none)
    else if ltb n.p_id seq
    then some none
    else some (some n)

unfoldable pub postpone_all : ℕ → ℕ → ℕ → ℕ → List Node → List Node → Option (List Node)
postpone_all cid tid seq rto [] temp = some temp
postpone_all cid tid seq rto (n ∷ ns) temp = elim (postpone_node cid tid seq rto n) [
  | none ↦ none
  | some none ↦ postpone_all cid tid seq rto ns temp
  | some (some m) ↦ postpone_all cid tid seq rto ns (Node.push m temp)
]

unfoldable pub push_back : List Node → List Node → List Node
push_back [] heap = heap
push_back (n ∷ ns) heap = push_back ns (Node.push n heap)

unfoldable pub postpone_timer : ℕ → ℕ → ℕ → ℕ → List Node → Option (List Node)
postpone_timer cid tid seq rto heap = elim (postpone_all cid tid seq rto heap []) [
  | none ↦ none
  | some temp ↦ some (push_back temp [])
]

-- The head of a heap, as `top()` reads it.
abbrev pub on_top {ℓ} : {A : Type ℓ} → A → (Node → A) → List Node → A
on_top d f [] = d
on_top d f (n ∷ ns) = f n

-- What one round of `proc_sndpkt` leaves.
pub record Fired : Type 0 where
  pub sent : Option Packet
  pub heap : List Node
  pub tc : ControlBlock

-- A node that ran out: sent again, its timer set anew, the others put off, and the window closed.
unfoldable pub fire : Header → ℕ → Node → List Node → ControlBlock → Option Fired
fire junk now n ns tc =
    let again = record (Node.copy n) { xmitms = minus_one; ms = add32 (tc.t_rto * 2 % word) now } in
    let heap = Node.push again ns in
    let late =
      on_top (some heap)
        (λ top. postpone_timer top.c_id top.t_id top.p_id (tc.t_rto * 2 % word) heap) heap in
    elim (sendpkt junk n tc) [
      | none ↦ none
      | some p ↦ elim (if ltb (length heap) 8 then late else some heap) [
        | none ↦ none
        | some heap' ↦ some (record { sent = some p; heap = heap'; tc = (settwnd tc).1 })
      ]
    ]

-- `proc_sndpkt`, where one table owns the nodes.
unfoldable pub proc_sndpkt : Header → ℕ → List Node → ControlBlock → Option Fired
proc_sndpkt junk now heap tc = elim (clear_acked tc.snd_una heap) [
  | [] ↦ some (record { sent = none; heap = []; tc = tc })
  | n ∷ ns ↦
      if ltb n.ms now
      then fire junk now n ns tc
      else some (record { sent = none; heap = n ∷ ns; tc = tc })
]
