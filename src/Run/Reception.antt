-- ===== src/Run/Reception.antt =====
-- A call of `run` in processtou.cpp that finds one datagram, with the bytes that are next in order.
use tcpoudp.Prelude.{
  ℕ, ◌+◌, ◌-◌, ◌*◌, ◌<◌, ◌≤◌, ◌≡◌, ◌≢◌, refl, ap, subst, Holds, ◌∙◌, true, false, none, some, List,
  [], ◌∷◌, ◌++◌, length, arith, inl, inr, Bool-cases, half_word, take, add32, length-take,
}
use tcpoudp.Buffer.{CircularBuffer, insert}
use tcpoudp.Buffer.Bounds
use tcpoudp.Buffer.Insertion.{insert_cases, insert-refused}
use tcpoudp.Buffer.Contents.{contents}
use tcpoudp.Buffer
use tcpoudp.Congestion.{ControlBlock}
use tcpoudp.Delack.{
  proc_delack, update_ack_deque, ack_packet, timer_id_delack, is_ack_node, update_ack,
}
use tcpoudp.Link.{Arrival, Link, Env, transmit}
use tcpoudp.Node.{Node}
use tcpoudp.Packet.{Packet, Header, parse, put_header_seq, clean, new_sized}
use tcpoudp.Process.{classify, putcircbuf, proc_pkt_rec}
use tcpoudp.Socket.{
  RunState, SockTb, end_run, match_expected, sendback_ack, get_pkt, pkt_recovery, with_tc,
  delack_xmit, delack_que, tous_established,
}
use tcpoudp.Run.Round.{run_loop-goto, run_loop-leave, step-end, fresh, holding, text, step-get_pkt}
use tcpoudp.Run.Blocks.{parse-short}
use tcpoudp.Run.{
  goto, recv_buf_size, on_match, on_recovery, after_data, on_sendback, step, returned, run_loop,
  run,
}

-- What the call leaves besides the buffer: `rcv_nxt` is behind the data, which is acknowledged.
pub record Answered (env : Env) (l : Link) (q : Packet) (l' : Link) : Type 0 where
  pub next : l'.tb.tc.rcv_nxt ≡ add32 l.tb.tc.rcv_nxt (length q.buf)
  pub acknowledged :
      (p : Packet) × (p.t.ack ≡ true)
      × (p.t.ack_seq ≡ add32 l.tb.tc.rcv_nxt (length q.buf))
      × (l'.wire ≡ (transmit p l).wire)
  pub reply :
      (tc : ControlBlock) × (tc.rcv_nxt ≡ add32 l.tb.tc.rcv_nxt (length q.buf))
      × (tc.snd_nxt ≡ l.tb.tc.snd_nxt)
      × (l'.wire ≡ (transmit (ack_packet env.junk tc) l).wire)
  pub taken : l'.inbox ≡ []
  pub state : l'.tb.sockstate ≡ l.tb.sockstate
  pub buffer : Buffer.Bounds.IsValid l'.tb.cb_recv

-- One datagram waits, it parses as `q`, and it is the data that the table expects next, with none out
-- of order; the acknowledgement is not delayed.
pub record Expected (env : Env) (l : Link) (from : Arrival) (q : Packet) : Type 0 where
  pub state : l.tb.runstate ≡ get_pkt
  pub waiting : l.inbox ≡ from ∷ []
  pub reads : parse env.junk (take recv_buf_size from.content) ≡ some q
  pub established : l.tb.sockstate ≡ tous_established
  pub ack : q.t.ack ≡ true
  pub syn : q.t.syn ≡ false
  pub fin : q.t.fin ≡ false
  pub bytes : 0 < length q.buf
  pub next : q.t.seq ≡ l.tb.tc.rcv_nxt
  pub ordered : l.tb.minhp_recv ≡ []
  pub delack_lo : 1 ≤ l.tb.tc.t_delack_state
  pub delack_hi : l.tb.tc.t_delack_state ≤ 5
  pub prompt : l.tb.tc.t_delack_state ≢ delack_que

update_ack_deque-xmit :
    (old : Node) (cid tid st : ℕ) (tc : ControlBlock) (now : ℕ) (deque : List Node)
    → (d : List Node) × (update_ack_deque old cid tid st delack_xmit tc now deque ≡ some d)
unfolding update_ack_deque
update_ack_deque-xmit old cid tid st tc now [] = (_, refl)
update_ack_deque-xmit old cid tid st tc now (n ∷ ns) =
    let (d, e) = update_ack_deque-xmit old cid tid st tc now ns in
    elim (Bool-cases (is_ack_node cid tid n)) [
      | inl b ↦ (update_ack tc now n ∷ ns, ground (arith, b))
      | inr b ↦ (n ∷ d, ground (arith, b, e))
    ]

pub proc_delack-xmit :
    (junk : Header) (old : Node) (fd st now : ℕ) (tc : ControlBlock) (deque : List Node)
    → 1 ≤ tc.t_delack_state
    → tc.t_delack_state ≤ 5
    → tc.t_delack_state ≢ delack_que
    → (d : List Node) × (proc_delack junk old fd st now tc deque
        ≡ some (record {
          sent = some (ack_packet junk tc);
          deque = d;
          tc = record tc { t_delack_state = delack_que };
        }))
unfolding proc_delack
proc_delack-xmit junk old fd st now tc deque lo hi ne =
    let (d, e) = update_ack_deque-xmit old fd timer_id_delack st tc now deque in
    (d, ground (arith, e))

module _ (env : Env) (l : Link) (from : Arrival) (q : Packet) (h : Expected env l from q) where
  classify-expected : classify l.tb q ≡ some match_expected
  unfolding classify
  classify-expected = ground (arith, h.established, h.ack, h.syn, h.fin, h.bytes, h.next)

  abbrev start : Link
  start = fresh l

  abbrev received : Link
  received = holding l from [] q

  first : step env get_pkt start ≡ some (goto match_expected received)
  first = step-get_pkt env l from [] q h.waiting h.reads match_expected classify-expected

  abbrev moved : SockTb
  moved = with_tc (λ tc. record tc { rcv_nxt = add32 q.t.seq (length q.buf) }) l.tb

  module _ (n : ℕ) (cb : CircularBuffer)
      (e : insert env.malloc l.tb.cb_recv q.buf (length q.buf) ≡ some (n, cb)) where
    abbrev put : Link
    put = record received { tb = record moved { cb_recv = cb } }

    step-match : step env match_expected received ≡ some (goto pkt_recovery put)
    unfolding step on_match putcircbuf
    step-match = rw e refl

    abbrev ready : Link
    ready = record put { tb = record put.tb { runstate = get_pkt } }

    step-recovery : step env pkt_recovery put ≡ some (goto sendback_ack ready)
    unfolding step on_recovery proc_pkt_rec
    step-recovery = rw h.ordered refl

    -- The acknowledgement that goes out, and the table it leaves.
    abbrev acked : Link
    acked = transmit (ack_packet env.junk ready.tb.tc) ready

    abbrev done : SockTb
    done = with_tc (λ tc. record tc { t_delack_state = delack_que }) ready.tb

    step-sendback :
        (d : List Node) × (step env sendback_ack ready
          ≡ some (goto end_run (record acked { tb = done; ackdeque = d })))
    unfolding step on_sendback after_data
    step-sendback =
        let (d, e) =
          proc_delack-xmit env.junk env.old l.tb.sockd l.st env.now ready.tb.tc l.ackdeque
            h.delack_lo h.delack_hi h.prompt in
        (d, rw e refl)

    run-expected :
        (d : List Node) × (run env l
          ≡ returned (length (text from)) (record acked { tb = done; ackdeque = d; tp = none }))
    unfolding run
    run-expected =
        let (d, e) = step-sendback in
        (
          d,
          ap (λ (w : List Arrival). run_loop env (4 * length w + 5) l.tb.runstate start) h.waiting
              ∙ ap (λ (s : RunState). run_loop env 9 s start) h.state
              ∙ run_loop-goto env 8 get_pkt match_expected start received first
              ∙ run_loop-goto env 7 match_expected pkt_recovery received put step-match
              ∙ run_loop-goto env 6 pkt_recovery sendback_ack put ready step-recovery
              ∙ run_loop-goto env 5 sendback_ack end_run ready
                  (record acked { tb = done; ackdeque = d }) e
              ∙ run_loop-leave env 4 end_run (record acked { tb = done; ackdeque = d })
                  (record acked { tb = done; ackdeque = d; tp = none }) (length (text from))
                  (step-end env q (record acked { tb = done; ackdeque = d }) refl),
        )

    Answered-expected :
        (d : List Node)
        → Buffer.Bounds.IsValid cb
        → Answered env l q (record acked { tb = done; ackdeque = d; tp = none })
    unfolding ack_packet put_header_seq clean new_sized
    Answered-expected d v = record {
      next = ap (λ (s : ℕ). add32 s (length q.buf)) h.next;
      acknowledged = (
        ack_packet env.junk ready.tb.tc,
        refl,
        ap (λ (s : ℕ). add32 s (length q.buf)) h.next,
        refl,
      );
      reply = (ready.tb.tc, ap (λ (s : ℕ). add32 s (length q.buf)) h.next, refl, refl);
      taken = refl;
      state = refl;
      buffer = v;
    }

  pub short_payload : length q.buf < half_word
  short_payload =
      subst (Holds (λ (p : Packet). length p.buf < half_word)) h.reads
        (parse-short env (text from) (omega (arith, length-take recv_buf_size from.content)))

  module _ (v : Buffer.Bounds.IsValid l.tb.cb_recv) where
    -- A call of run that finds one datagram, which parses as data that is next in order on an
    -- established connection with none out of order and no delayed acknowledgement, and which leaves
    -- room in the valid receive buffer, returns: the data is behind the bytes stored, rcv_nxt behind
    -- the data, and one acknowledgement of it is sent.
    pub run-delivers :
        length q.buf < l.tb.cb_recv.size - l.tb.cb_recv.tot_el
        → (l' : Link) × (run env l ≡ returned (length (take recv_buf_size from.content)) l')
          × (contents l'.tb.cb_recv ≡ contents l.tb.cb_recv ++ q.buf)
          × Answered env l q l'
    run-delivers room = elim (insert_cases env.malloc l.tb.cb_recv q.buf v h.bytes short_payload) [
      | inl (_, c, e, u, stored, _, _) ↦
          let (d, r) = run-expected (length q.buf) c e in
          (_, r, stored, Answered-expected (length q.buf) c e d u)
      | inr (full, _) ↦ absurd (omega (arith, room, full))
    ]

    -- On an established connection with nothing kept out of order, a valid receive buffer and one of
    -- the five delayed-acknowledgement states but delack_que, where a call of run starts with a new
    -- packet and finds one datagram that parses as data next in order, with an ACK and neither SYN
    -- nor FIN, for which the buffer has no room, the data is lost: the call returns and leaves the
    -- buffer as it was, but moves rcv_nxt behind the data and acknowledges it.
    pub run-loses :
        l.tb.cb_recv.size - l.tb.cb_recv.tot_el ≤ length q.buf
        → (l' : Link) × (run env l ≡ returned (length (take recv_buf_size from.content)) l')
          × (l'.tb.cb_recv ≡ l.tb.cb_recv)
          × Answered env l q l'
    run-loses full =
        let e = insert-refused env.malloc l.tb.cb_recv q.buf v short_payload full in
        let (d, r) = run-expected 0 l.tb.cb_recv e in
        (_, r, refl, Answered-expected 0 l.tb.cb_recv e d v)
