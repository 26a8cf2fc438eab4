-- ===== src/Thread/Empty.antt =====
-- A turn of the timer thread of timer.cpp that receives the acknowledgement of the last packet.
use tcpoudp.Prelude.{
  aborts, spins, gives, attempt, Bool, Option, ℕ, suc, ◌+◌, ◌*◌, ◌≤◌, ◌<◌, ◌≡◌, refl, sym, ap, ◌∙◌,
  true, false, none, some, ◌>>=◌, List, [], ◌∷◌, length, length-take, arith, leb, half_word,
}
use tcpoudp.Buffer.{get_total_elements}
use tcpoudp.Congestion.{ControlBlock, addwnd}
use tcpoudp.Congestion.Bounds.{IsValid, addwnd-Added}
use tcpoudp.Link.{Arrival, Link, Env, timer_id_sndpkt, arm, send_link}
use tcpoudp.Node.{Node}
use tcpoudp.Packet.{Header, Packet, parse}
use tcpoudp.Process.{cal_num_caxmit, bigger, proc_ack, classify, get_send_size, send, send_loop}
use tcpoudp.Run.{
  try_run, Outcome, aborted, unfinished, returned, run, run_loop, step, goto, recv_buf_size, on_ack,
  on_ack_result, on_ack_without_data,
}
use tcpoudp.Run.Round.{run_loop-goto, run_loop-leave, step-end, fresh, holding, text, step-get_pkt}
use tcpoudp.Process.Turns.{send_attempt-ends, send_lem, send_loop-suc}
use tcpoudp.Socket.{RunState, SockTb, get_pkt, ack_without_data, end_run, tous_established}
use tcpoudp.Timer.{delete_timer, clear_acked_for, cal_rto_at, belongs}
use tcpoudp.Thread.Drain.{next, drain-turn, drain-emptied}
use tcpoudp.Thread.{frees, drain, proc_delack, delack_nodes, after_delack, doit_turn, resend}

-- One datagram waits, which parses as `q` and acknowledges the packet of the only timer, the last one.
pub record LastAck (env : Env) (l : Link) (from : Arrival) (q : Packet) (n : Node) : Type 0 where
  pub state : l.tb.runstate ≡ get_pkt
  pub waiting : l.inbox ≡ from ∷ []
  pub reads : parse env.junk (text from) ≡ some q
  pub established : l.tb.sockstate ≡ tous_established
  pub ack : q.t.ack ≡ true
  pub syn : q.t.syn ≡ false
  pub fin : q.t.fin ≡ false
  pub bytes : length q.buf ≡ 0
  pub newer : l.tb.tc.snd_una < q.t.ack_seq
  pub sent : q.t.ack_seq ≤ l.tb.tc.snd_nxt
  pub block : IsValid l.tb.tc
  pub nothing_to_send : l.tb.cb_send.tot_el ≡ 0
  pub heap : l.timerheap ≡ n ∷ []
  pub owner : belongs l.tb.sockd timer_id_sndpkt n ≡ true
  pub end : n.p_id ≡ q.t.ack_seq
  pub no_acks : l.ackdeque ≡ []

send-empty :
    (junk : Header) (tb : SockTb)
    → tb.cb_send.tot_el ≡ 0
    → send junk tb ≡ some ([], (get_send_size tb).1)
unfolding get_send_size get_total_elements
send-empty junk tb e =
    let x = cal_num_caxmit (get_send_size tb).0 in
    let more : (k : ℕ) → k + x + 1 ≡ suc (k + x) = λ k. omega arith in
    send_lem junk tb
    ∙ ap (λ (k : ℕ). send_loop junk k (get_send_size tb).1 x) (more tb.cb_send.tot_el)
    ∙ send_loop-suc junk (tb.cb_send.tot_el + x) (get_send_size tb).1 x
    ∙ rw e refl

proc_ack-newer :
    (tb : SockTb) (p : Packet) (tc : ControlBlock)
    → tb.tc.snd_una < p.t.ack_seq
    → addwnd tb.tc ≡ some (0, tc)
    → proc_ack tb p ≡ some (bigger, record tb { tc = record tc { snd_una = p.t.ack_seq } })
unfolding proc_ack
proc_ack-newer tb p tc h e = ground (arith, h, e)

delete_timer-last :
    (cid tid una now st : ℕ) (n : Node) (tc : ControlBlock)
    → belongs cid tid n ≡ true
    → n.p_id ≡ una
    → delete_timer cid tid una now st (n ∷ []) tc ≡ some ([], cal_rto_at st n now tc)
unfolding delete_timer clear_acked_for
delete_timer-last cid tid una now st n tc b e = ground (arith, b, e)

small : (k : ℕ) → k ≤ recv_buf_size → leb half_word k ≡ false
small k h = ground arith

proc_delack-none : (env : Env) (l : Link) → l.ackdeque ≡ [] → proc_delack env l ≡ some l
unfolding proc_delack delack_nodes
proc_delack-none env l e =
    at_once l.ackdeque e ∙ ap (λ (d : List Node). some (record l { ackdeque = d })) (sym e)
  where
    at_once :
        (d : List Node)
        → d ≡ []
        → (delack_nodes env d l >>= λ r. some (record r.1 { ackdeque = r.0 }))
          ≡ some (record l { ackdeque = [] })
    at_once [] e = refl
    at_once (n ∷ ns) e = absurd (cc)

module _ (env : Env) (l : Link) (from : Arrival) (q : Packet) (n : Node)
    (h : LastAck env l from q n) where
  classify-ack : classify l.tb q ≡ some ack_without_data
  unfolding classify
  classify-ack = ground (arith, h.established, h.ack, h.syn, h.fin, h.bytes, h.sent)

  abbrev received : Link
  received = holding l from [] q

  module _ (tc : ControlBlock) (e : addwnd l.tb.tc ≡ some (0, tc)) where
    abbrev cleared : Link
    cleared = record received {
      tb = record l.tb { tc = cal_rto_at l.st n env.now (record tc { snd_una = q.t.ack_seq }) };
      timerheap = [];
    }

    on_ack-last : on_ack env q received ≡ some cleared
    unfolding on_ack on_ack_result
    on_ack-last =
        rw
          (
            proc_ack-newer l.tb q tc h.newer e,
            h.heap,
            delete_timer-last l.tb.sockd timer_id_sndpkt q.t.ack_seq env.now l.st n
                (record tc { snd_una = q.t.ack_seq }) h.owner h.end,
          )
          refl

    abbrev quiet : Link
    quiet = record cleared { tb = (get_send_size cleared.tb).1 }

    send_link-quiet : send_link env cleared ≡ some quiet
    unfolding send_link arm
    send_link-quiet = rw (send-empty env.junk cleared.tb h.nothing_to_send) refl

    step-ack : step env ack_without_data received ≡ some (goto end_run quiet)
    unfolding step on_ack_without_data
    step-ack = rw (on_ack-last, send_attempt-ends env.junk cleared.tb, send_link-quiet) refl

    run-last : run env l ≡ returned (length (text from)) (record quiet { tp = none })
    unfolding run
    run-last =
        ap (λ (w : List Arrival). run_loop env (4 * length w + 5) l.tb.runstate (fresh l)) h.waiting
        ∙ ap (λ (s : RunState). run_loop env 9 s (fresh l)) h.state
        ∙ run_loop-goto env 8 get_pkt ack_without_data (fresh l) received
            (step-get_pkt env l from [] q h.waiting h.reads ack_without_data classify-ack)
        ∙ run_loop-goto env 7 ack_without_data end_run received quiet step-ack
        ∙ run_loop-leave env 6 end_run quiet (record quiet { tp = none }) (length (text from))
            (step-end env q quiet refl)

    not_negative : leb half_word (length (text from)) ≡ false
    not_negative =
        small (length (text from)) (omega (arith, length-take recv_buf_size from.content))

    drain-last : (tries : List Bool) → 0 < frees tries → drain env tries l ≡ aborted
    unfolding try_run
    drain-last [] f = absurd (omega arith)
    drain-last (false ∷ tries) f = drain-turn env false tries l n [] h.heap ∙ drain-last tries f
    drain-last (true ∷ tries) f =
        drain-turn env true tries l n [] h.heap
        ∙ ap (next env tries) run-last
        ∙ ap
            (λ (b : Bool). elim b [
              | true ↦ returned (length (text from)) (record quiet { tp = none })
              | false ↦ drain env tries (record quiet { tp = none })
            ])
            not_negative
        ∙ drain-emptied env tries (record quiet { tp = none }) refl

  -- A turn of the timer thread that receives the acknowledgement of the last packet, with no other
  -- timer and nothing to send, no delayed acknowledgement, and a valid congestion block, and that
  -- finds the lock of run free at least once, has undefined behaviour: after run clears the heap,
  -- the thread reads its top.
  pub doit_turn-aborts : (tries : List Bool) → 0 < frees tries → doit_turn env tries l ≡ aborts
  unfolding doit_turn after_delack
  doit_turn-aborts tries f =
      let (tc, e, a) = addwnd-Added l.tb.tc h.block in
      ap (λ (o : Option Link). elim o [ none ↦ aborts | some l' ↦ after_delack env tries l' ])
        (proc_delack-none env l h.no_acks)
      ∙ stops l.timerheap (drain env tries l) h.heap (drain-last tc e tries f)
    where
      stops :
          (heap : List Node) (o : Outcome)
          → heap ≡ n ∷ []
          → o ≡ aborted
          → elim heap [
            | [] ↦ gives l
            | m ∷ ns ↦ elim o [
              | aborted ↦ aborts
              | unfinished ↦ spins
              | returned r l' ↦ attempt (resend env l')
            ]
          ]
            ≡ aborts
      stops [] o e f = absurd (cc)
      stops (m ∷ ns) aborted e f = refl
      stops (m ∷ ns) unfinished e f = absurd (cc)
      stops (m ∷ ns) (returned r l') e f = absurd (cc)
