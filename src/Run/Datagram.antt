-- ===== src/Run/Datagram.antt =====
-- The rounds of `run` in processtou.cpp on one datagram of data that is next in order, whichever follow it.
use tcpoudp.Prelude.{
  ℕ, suc, ◌-◌, ◌<◌, ◌≡◌, refl, ap, subst, Holds, ◌∙◌, Option, none, some, List, [], ◌++◌, length,
  arith, inl, inr, half_word, add32, length-take,
}
use tcpoudp.Buffer.{CircularBuffer, insert, get_av_size}
use tcpoudp.Buffer
use tcpoudp.Buffer.Insertion.{insert_cases}
use tcpoudp.Buffer.Contents.{contents}
use tcpoudp.Congestion.{ControlBlock}
use tcpoudp.Delack.{Acknowledged}
use tcpoudp.Delack.Ready.{Delays, Delayed, proc_delack-Delayed}
use tcpoudp.Link.{Arrival, Link, Env, transmit_some, transmit}
use tcpoudp.Packet.{Packet, parse}
use tcpoudp.Process.{classify, putcircbuf, proc_pkt_rec}
use tcpoudp.Socket.{
  Datagram, RunState, match_expected, sendback_ack, get_pkt, pkt_recovery, with_tc,
  tous_established,
}
use tcpoudp.Run.Round.{run_loop-goto, holding, text}
use tcpoudp.Run.Blocks.{parse-short}
use tcpoudp.Run.Calls.{IsData}
use tcpoudp.Run.{
  goto, recv_buf_size, on_match, on_recovery, after_data, on_sendback, answered, step, run_loop,
}

-- An established connection between two calls, with nothing out of order.
pub record IsReceiving (l : Link) : Type 0 where
  pub state : l.tb.runstate ≡ get_pkt
  pub established : l.tb.sockstate ≡ tous_established
  pub ordered : l.tb.minhp_recv ≡ []
  pub delays : Delays l.tb.sockd l.tb.tc l.ackdeque
  pub buffer : Buffer.Bounds.IsValid l.tb.cb_recv

module _ (env : Env) (l : Link) (a : Arrival) (rest : List Arrival) (q : Packet) (v : IsReceiving l)
    (reads : parse env.junk (text a) ≡ some q) (d : IsData q)
    (next : q.t.seq ≡ l.tb.tc.rcv_nxt) where
  pub classify-next : classify l.tb q ≡ some match_expected
  unfolding classify
  classify-next = ground (arith, v.established, d.ack, d.syn, d.fin, d.bytes, next)

  short_payload : length q.buf < half_word
  short_payload =
      subst (Holds (λ (p : Packet). length p.buf < half_word)) reads
        (parse-short env (text a) (omega (arith, length-take recv_buf_size a.content)))

  abbrev received : Link
  received = holding l a rest q

  module _ (cb : CircularBuffer)
      (e : insert env.malloc l.tb.cb_recv q.buf (length q.buf) ≡ some (length q.buf, cb)) where
    abbrev put : Link
    put = record received {
      tb = record (with_tc (λ tc. record tc { rcv_nxt = add32 q.t.seq (length q.buf) }) l.tb) {
        cb_recv = cb;
      };
    }

    step-match : step env match_expected received ≡ some (goto pkt_recovery put)
    unfolding step on_match putcircbuf
    step-match = rw e refl

    abbrev ready : Link
    ready = record put { tb = record put.tb { runstate = get_pkt } }

    step-recovery : step env pkt_recovery put ≡ some (goto sendback_ack ready)
    unfolding step on_recovery proc_pkt_rec
    step-recovery = rw (v.ordered) refl

    ready-Delays : Delays ready.tb.sockd ready.tb.tc ready.ackdeque
    ready-Delays = record { lo = v.delays.lo; hi = v.delays.hi; node = v.delays.node }

    -- What the rounds of one datagram leave.
    record Took (l₁ : Link) : Type 0 where
      buffer : l₁.tb.cb_recv ≡ cb
      nxt : l₁.tb.tc.rcv_nxt ≡ add32 l.tb.tc.rcv_nxt (length q.buf)
      inbox : l₁.inbox ≡ rest
      held : l₁.tp ≡ some q
      again : IsReceiving l₁

    step-sendback :
        Buffer.Bounds.IsValid cb
        → (l₁ : Link) × (step env sendback_ack ready ≡ some (after_data l₁)) × Took l₁
    unfolding step on_sendback
    step-sendback u =
        let (r, g, t) =
          proc_delack-Delayed env.old ready.tb.sockd ready.st env.now ready.tb.tc env.junk
            ready.ackdeque ready-Delays in
        (answered r ready, rw g refl, either r t r.sent)
      where
        left :
            (r : Acknowledged)
            → Delayed env.old ready.tb.sockd ready.st env.now ready.tb.tc r
            → (w : List Datagram)
            → Took
                (record ready { wire = w; ackdeque = r.deque; tb = record ready.tb { tc = r.tc } })
        left r t w = record {
          buffer = refl;
          nxt =
              ap (λ (tc : ControlBlock). tc.rcv_nxt) t.block
              ∙ ap (λ (k : ℕ). add32 k (length q.buf)) next;
          inbox = refl;
          held = refl;
          again = record {
            state = refl;
            established = v.established;
            ordered = v.ordered;
            delays = t.again;
            buffer = u;
          };
        }

        either :
            (r : Acknowledged)
            → Delayed env.old ready.tb.sockd ready.st env.now ready.tb.tc r
            → (p : Option Packet)
            → Took (record (transmit_some p ready) {
              ackdeque = r.deque;
              tb = record ready.tb { tc = r.tc };
            })
        either r t none = left r t ready.wire
        either r t (some p) = left r t (transmit p ready).wire

    takes :
        Buffer.Bounds.IsValid cb
        → (l₁ : Link) × ((fuel : ℕ) (s : RunState)
            → after_data l₁ ≡ goto s l₁
            → run_loop env (suc (suc (suc fuel))) match_expected received ≡ run_loop env fuel s l₁)
          × Took l₁
    takes u =
        let (l₁, e, t) = step-sendback u in
        (
          l₁,
          λ fuel s g.
              run_loop-goto env (suc (suc fuel)) match_expected pkt_recovery received put step-match
              ∙ run_loop-goto env (suc fuel) pkt_recovery sendback_ack put ready step-recovery
              ∙ run_loop-goto env fuel sendback_ack s ready l₁ (e ∙ ap some g),
          t,
        )

  -- One datagram, where the buffer has room for it.
  pub record One (l₁ : Link) : Type 0 where
    pub goes :
        (fuel : ℕ) (s : RunState)
        → after_data l₁ ≡ goto s l₁
        → run_loop env (suc (suc (suc fuel))) match_expected received ≡ run_loop env fuel s l₁
    pub bytes : contents l₁.tb.cb_recv ≡ contents l.tb.cb_recv ++ q.buf
    pub room :
        l₁.tb.cb_recv.size - l₁.tb.cb_recv.tot_el
        ≡ l.tb.cb_recv.size - l.tb.cb_recv.tot_el - length q.buf
    pub nxt : l₁.tb.tc.rcv_nxt ≡ add32 l.tb.tc.rcv_nxt (length q.buf)
    pub inbox : l₁.inbox ≡ rest
    pub held : l₁.tp ≡ some q
    pub again : IsReceiving l₁

  pub one : length q.buf < l.tb.cb_recv.size - l.tb.cb_recv.tot_el → (l₁ : Link) × One l₁
  one fits = elim (insert_cases env.malloc l.tb.cb_recv q.buf v.buffer d.bytes short_payload) [
    | inr (full, _) ↦ absurd (omega (arith, fits, full))
    | inl (_, cb, e, u, stored, size, tot) ↦
        let (l₁, g, t) = takes cb e u in
        (
          l₁,
          record {
            goes = g;
            bytes = ap contents t.buffer ∙ stored;
            room =
                ap (λ (c : CircularBuffer). c.size - c.tot_el) t.buffer ∙ omega (arith, size, tot);
            nxt = t.nxt;
            inbox = t.inbox;
            held = t.held;
            again = t.again;
          },
        )
  ]
