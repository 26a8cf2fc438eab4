-- ===== src/Run/Calls.antt =====
-- Calls of `run` in processtou.cpp that find one datagram of data: one ahead of what is expected, and one
-- that closes the gap before a packet in the heap.
use tcpoudp.Prelude.{
  ℕ, suc, ◌+◌, ◌*◌, ◌<◌, ◌≡◌, refl, ap, ◌∙◌, true, false, Option, none, some, ◌>>=◌, List, [], ◌∷◌,
  length, arith, half_word, ◌==◌, ltb, lt_int, add32,
}
use tcpoudp.Buffer.{CircularBuffer, insert}
use tcpoudp.Delack.{ack_packet}
use tcpoudp.Link.{Arrival, Link, Env, transmit}
use tcpoudp.Node.{Node}
use tcpoudp.Packet.{Packet, parse}
use tcpoudp.Process.{classify, putcircbuf, recover_one, recover, proc_pkt_rec}
use tcpoudp.Socket.{
  RunState, SockTb, end_run, match_expected, more_expected, sendback_ack, get_pkt, pkt_recovery,
  with_tc, delack_que, delack_immed, tous_established, push_hp_recv_buf,
}
use tcpoudp.Run.{
  goto, on_match, on_more, on_recovery, after_data, on_sendback, step, returned, run_loop, run,
}
use tcpoudp.Run.Round.{run_loop-goto, run_loop-leave, step-end, fresh, holding, text, step-get_pkt}
use tcpoudp.Run.Reception.{proc_delack-xmit}

-- A packet of data.
pub record IsData (q : Packet) : Type 0 where
  pub ack : q.t.ack ≡ true
  pub syn : q.t.syn ≡ false
  pub fin : q.t.fin ≡ false
  pub bytes : 0 < length q.buf

positive : (k : ℕ) → 0 < k → k < half_word → lt_int 0 k ≡ true
positive k h q = ground arith

not_older : (a b : ℕ) → a ≡ b → ltb a b ≡ false
not_older a b e = ground (arith, e)

is_next : (a b : ℕ) → a ≡ b → (a == b) ≡ true
is_next a b e = ground (arith, e)

proc_pkt_rec-one :
    (malloc : ℕ → Option (List ℕ)) (tb tb' : SockTb) (p : Packet)
    → tb.minhp_recv ≡ p ∷ []
    → recover malloc (p ∷ []) tb ≡ some (0, tb')
    → proc_pkt_rec malloc tb
      ≡ some (0, with_tc (λ tc. record tc { t_delack_state = delack_immed }) tb')
unfolding proc_pkt_rec
proc_pkt_rec-one malloc tb tb' p e r = over tb.minhp_recv e
  where
    over :
        (heap : List Packet)
        → heap ≡ p ∷ []
        → elim heap as (λ k. Option (ℕ × SockTb)) [
          | [] ↦ some (0, tb)
          | p' ∷ rest ↦ do
            (n, tb₁) ← recover malloc (p' ∷ rest) tb
            some (n, with_tc (λ tc. record tc { t_delack_state = delack_immed }) tb₁)
        ]
          ≡ some (0, with_tc (λ tc. record tc { t_delack_state = delack_immed }) tb')
    over heap e = rw (e, r) refl

-- From a state that acknowledges at once to the end of the call.
module _ (env : Env) (l : Link) (q : Packet) (held : l.tp ≡ some q) (idle : l.inbox ≡ [])
    (immed : l.tb.tc.t_delack_state ≡ delack_immed) where
  abbrev answered : List Node → Link
  answered d = record (transmit (ack_packet env.junk l.tb.tc) l) {
    tb = with_tc (λ tc. record tc { t_delack_state = delack_que }) l.tb;
    ackdeque = d;
  }

  step-sendback : (d : List Node) × (step env sendback_ack l ≡ some (goto end_run (answered d)))
  unfolding step on_sendback after_data
  step-sendback =
      let (d, e) =
        proc_delack-xmit env.junk env.old l.tb.sockd l.st env.now l.tb.tc l.ackdeque
          (omega (arith, immed)) (omega (arith, immed)) (λ w. omega (arith, immed, w)) in
      (d, rw (e, idle) refl)

  closes :
      (fuel : ℕ)
      → (d : List Node) × (run_loop env (suc (suc fuel)) sendback_ack l
          ≡ returned l.rv (record (answered d) { tp = none }))
  closes fuel =
      let (d, e) = step-sendback in
      (
        d,
        run_loop-goto env (suc fuel) sendback_ack end_run l (answered d) e
            ∙ run_loop-leave env fuel end_run (answered d) (record (answered d) { tp = none }) l.rv
                (step-end env q (answered d) held),
      )

module _ (env : Env) (l : Link) (from : Arrival) (q : Packet) (ready : l.tb.runstate ≡ get_pkt)
    (waiting : l.inbox ≡ from ∷ []) (reads : parse env.junk (text from) ≡ some q)
    (established : l.tb.sockstate ≡ tous_established) (data_packet : IsData q) where
  abbrev received : Link
  received = holding l from [] q

  begins : (s : RunState) → classify l.tb q ≡ some s → run env l ≡ run_loop env 8 s received
  unfolding run
  begins s c =
      ap (λ (w : List Arrival). run_loop env (4 * length w + 5) l.tb.runstate (fresh l)) waiting
      ∙ ap (λ (s : RunState). run_loop env 9 s (fresh l)) ready
      ∙ run_loop-goto env 8 get_pkt s (fresh l) received
          (step-get_pkt env l from [] q waiting reads s c)

  -- The packet is ahead of what is expected.
  module _ (ahead : l.tb.tc.rcv_nxt < q.t.seq) where
    classify-more : classify l.tb q ≡ some more_expected
    unfolding classify
    classify-more = ground (
      arith, established, data_packet.ack, data_packet.syn, data_packet.fin, data_packet.bytes,
      ahead,
    )

    step-more : step env more_expected received ≡ some (goto sendback_ack (on_more q received))
    unfolding step
    step-more = refl

    pub run-more :
        (d : List Node) × (l' : Link) × (run env l ≡ returned (length (text from)) l')
        × (l'.tb
            ≡ with_tc (λ tc. record tc { t_delack_state = delack_que }) (push_hp_recv_buf l.tb q))
    unfolding on_more push_hp_recv_buf
    run-more =
        let (d, e) = closes env (on_more q received) q refl refl refl 5 in
        (
          d,
          _,
          begins more_expected classify-more
              ∙ run_loop-goto env 7 more_expected sendback_ack received (on_more q received)
                  step-more
              ∙ e,
          refl,
        )

  -- The packet is expected, and the one behind it is in the heap.
  module _ (next : q.t.seq ≡ l.tb.tc.rcv_nxt) (p : Packet) (heap : l.tb.minhp_recv ≡ p ∷ [])
      (follows : p.t.seq ≡ add32 q.t.seq (length q.buf)) (some_bytes : 0 < length p.buf)
      (short : length p.buf < half_word) (c₁ c₂ : CircularBuffer)
      (e₁ : insert env.malloc l.tb.cb_recv q.buf (length q.buf) ≡ some (length q.buf, c₁))
      (e₂ : insert env.malloc c₁ p.buf (length p.buf) ≡ some (length p.buf, c₂)) where
    classify-match : classify l.tb q ≡ some match_expected
    unfolding classify
    classify-match = ground (
      arith, established, data_packet.ack, data_packet.syn, data_packet.fin, data_packet.bytes,
      next,
    )

    abbrev moved : ℕ → CircularBuffer → SockTb
    moved n c = record (with_tc (λ tc. record tc { rcv_nxt = n }) l.tb) { cb_recv = c }

    abbrev put : Link
    put = record received { tb = moved (add32 q.t.seq (length q.buf)) c₁ }

    step-match : step env match_expected received ≡ some (goto pkt_recovery put)
    unfolding step on_match putcircbuf
    step-match = rw e₁ refl

    recover_one-last :
        (tb : SockTb)
        → tb.cb_recv ≡ c₁
        → recover_one env.malloc tb p
          ≡ some (
            true,
            with_tc
                (λ tc. record tc { rcv_nxt = add32 p.t.seq (length p.buf) })
                (record tb { cb_recv = c₂ }),
          )
    unfolding recover_one putcircbuf
    recover_one-last tb e =
        rw (ap (λ (c : CircularBuffer). insert env.malloc c p.buf (length p.buf)) e ∙ e₂, counted)
          refl
      where
        counted : lt_int 0 (length p.buf) ≡ true
        counted = positive (length p.buf) some_bytes short

    abbrev filled : SockTb
    filled = record (moved (add32 p.t.seq (length p.buf)) c₂) { minhp_recv = [] }

    recover-last : recover env.malloc (p ∷ []) put.tb ≡ some (0, filled)
    unfolding recover
    recover-last =
        rw
          (
            not_older p.t.seq (add32 q.t.seq (length q.buf)) follows,
            is_next p.t.seq (add32 q.t.seq (length q.buf)) follows,
            recover_one-last put.tb refl,
          )
          refl

    abbrev recovered : Link
    recovered = record put {
      tb = record (with_tc (λ tc. record tc { t_delack_state = delack_immed }) filled) {
        runstate = get_pkt;
      };
    }

    step-recovery : step env pkt_recovery put ≡ some (goto sendback_ack recovered)
    unfolding step on_recovery
    step-recovery = rw (proc_pkt_rec-one env.malloc put.tb filled p heap recover-last) refl

    pub run-fills :
        (l' : Link) × (run env l ≡ returned (length (text from)) l')
        × (l'.tb.cb_recv ≡ c₂)
        × (l'.tb.tc.rcv_nxt ≡ add32 p.t.seq (length p.buf))
        × (l'.tb.minhp_recv ≡ [])
    run-fills =
        let (d, e) = closes env recovered q refl refl refl 4 in
        (
          _,
          begins match_expected classify-match
              ∙ run_loop-goto env 7 match_expected pkt_recovery received put step-match
              ∙ run_loop-goto env 6 pkt_recovery sendback_ack put recovered step-recovery
              ∙ e,
          refl,
          refl,
          refl,
        )
