-- ===== src/Run/Acknowledging.antt =====
-- A call of `run` in processtou.cpp that finds one acknowledgement of data that was sent.
use tcpoudp.Prelude.{
  ℕ, ◌+◌, ◌*◌, ◌<◌, ◌≤◌, ◌≡◌, refl, ap, subst, ◌∙◌, true, false, Option, none, some, List, [], ◌∷◌,
  ◌++◌, length, arith, word,
}
use tcpoudp.Buffer.Contents.{contents}
use tcpoudp.Congestion.{ControlBlock, addwnd, max_wnd}
use tcpoudp.Congestion.Bounds.{IsValid, addwnd-Added}
use tcpoudp.Link.{Arrival, Link, Env, timer_id_sndpkt, arm, send_link}
use tcpoudp.Node.{Node}
use tcpoudp.Packet.{Packet, parse}
use tcpoudp.Process.{bigger, classify, proc_ack, send}
use tcpoudp.Process.Recovery.{payloads}
use tcpoudp.Process.Sending.{Chain, send-Sent}
use tcpoudp.Process.Turn.{IsReady}
use tcpoudp.Process.Turns.{send_attempt-ends}
use tcpoudp.Socket.{RunState, SockTb, end_run, ack_without_data, get_pkt, tous_established}
use tcpoudp.Timer.{cal_rto, cal_rto_at, clear_acked_for, delete_timer}
use tcpoudp.Timer.Clear.{Ascending, unacked, clear_acked_for-unacked}
use tcpoudp.Run.{goto, on_ack, on_ack_result, on_ack_without_data, step, returned, run_loop, run}
use tcpoudp.Run.Round.{run_loop-goto, run_loop-leave, step-end, fresh, holding, text, step-get_pkt}

-- One datagram waits, which parses as `q`, an acknowledgement of some of the data sent and not
-- acknowledged before, at a ready sender whose timers are in order.
pub record IsAnswered (env : Env) (l : Link) (from : Arrival) (q : Packet) : Type 0 where
  pub state : l.tb.runstate ≡ get_pkt
  pub waiting : l.inbox ≡ from ∷ []
  pub reads : parse env.junk (text from) ≡ some q
  pub established : l.tb.sockstate ≡ tous_established
  pub ack : q.t.ack ≡ true
  pub syn : q.t.syn ≡ false
  pub fin : q.t.fin ≡ false
  pub bytes : length q.buf ≡ 0
  pub newer : l.tb.tc.snd_una < q.t.ack_seq
  pub sent : q.t.ack_seq ≤ l.tb.tc.snd_nxt
  pub block : IsValid l.tb.tc
  pub ready : IsReady l.tb
  pub far : q.t.ack_seq + max_wnd < word
  pub timers : Ascending l.tb.sockd timer_id_sndpkt 0 l.timerheap

-- What the call has done: `snd_una` has moved, the timers of what is acknowledged are gone, and what
-- the window now admits is sent, each packet with a timer.
pub record Advanced (env : Env) (l : Link) (from : Arrival) (q : Packet) (l' : Link) : Type 0 where
  pub packets : List Packet
  pub table : SockTb
  pub una : table.tc.snd_una ≡ q.t.ack_seq
  pub bytes : payloads packets ++ contents table.cb_send ≡ contents l.tb.cb_send
  pub chain : Chain l.tb.tc.snd_nxt packets
  pub next : table.tc.snd_nxt ≡ l.tb.tc.snd_nxt + length (payloads packets)
  pub link :
      l'
      ≡ record (arm env packets (record (holding l from [] q) {
        tb = table;
        timerheap = unacked q.t.ack_seq l.timerheap;
      })) { tp = none }

cal_rto_at-kept :
    (st : ℕ) (n : Node) (now : ℕ) (tc : ControlBlock)
    → ((cal_rto_at st n now tc).snd_una ≡ tc.snd_una)
      × ((cal_rto_at st n now tc).snd_nxt ≡ tc.snd_nxt)
unfolding cal_rto_at cal_rto
cal_rto_at-kept st n now tc = ground arith

-- The clearing keeps the sequence numbers, whether a round trip is measured or not.
delete_timer-unacked :
    (cid tid una now st : ℕ) (heap : List Node) (tc : ControlBlock)
    → Ascending cid tid 0 heap
    → (tc' : ControlBlock) × (delete_timer cid tid una now st heap tc
        ≡ some (unacked una heap, tc'))
      × (tc'.snd_una ≡ tc.snd_una)
      × (tc'.snd_nxt ≡ tc.snd_nxt)
unfolding delete_timer
delete_timer-unacked cid tid una now st heap tc a =
    let (m, e, _) = clear_acked_for-unacked cid tid una 0 heap a in either m e
  where
    either :
        (m : Option Node)
        → clear_acked_for cid tid una heap ≡ some (unacked una heap, m)
        → (tc' : ControlBlock) × (delete_timer cid tid una now st heap tc
            ≡ some (unacked una heap, tc'))
          × (tc'.snd_una ≡ tc.snd_una)
          × (tc'.snd_nxt ≡ tc.snd_nxt)
    either none e = (tc, rw (e, delete_timer) refl, refl, refl)
    either (some n) e =
        let (u, x) = cal_rto_at-kept st n now tc in
        (cal_rto_at st n now tc, rw (e, delete_timer) refl, u, x)

proc_ack-bigger :
    (tb : SockTb) (p : Packet) (tc : ControlBlock)
    → tb.tc.snd_una < p.t.ack_seq
    → addwnd tb.tc ≡ some (0, tc)
    → proc_ack tb p ≡ some (bigger, record tb { tc = record tc { snd_una = p.t.ack_seq } })
unfolding proc_ack
proc_ack-bigger tb p tc h e = ground (arith, h, e)

-- `arm` keeps what it does not use.
arm-tp : (env : Env) (ps : List Packet) (l : Link) → (arm env ps l).tp ≡ l.tp
unfolding arm
arm-tp env [] l = refl
arm-tp env (p ∷ ps) l = arm-tp env ps _

module _ (env : Env) (l : Link) (from : Arrival) (q : Packet) (h : IsAnswered env l from q) where
  classify-answer : classify l.tb q ≡ some ack_without_data
  unfolding classify
  classify-answer = ground (arith, h.established, h.ack, h.syn, h.fin, h.bytes, h.sent)

  abbrev received : Link
  received = holding l from [] q

  -- After the acknowledgement and the timers, with the block that they leave.
  abbrev cleared : ControlBlock → Link
  cleared tc = record received {
    tb = record l.tb { tc = tc };
    timerheap = unacked q.t.ack_seq l.timerheap;
  }

  clears :
      (tc : ControlBlock) × (on_ack env q received ≡ some (cleared tc))
      × (tc.snd_una ≡ q.t.ack_seq)
      × (tc.snd_nxt ≡ l.tb.tc.snd_nxt)
  unfolding on_ack on_ack_result
  clears =
      let (tc, e, a) = addwnd-Added l.tb.tc h.block in
      let (tc', g, una, nxt) =
        delete_timer-unacked l.tb.sockd timer_id_sndpkt q.t.ack_seq env.now l.st l.timerheap
          (record tc { snd_una = q.t.ack_seq }) h.timers in
      (tc', rw (proc_ack-bigger l.tb q tc h.newer e, g) refl, una, nxt ∙ a.nxt)

  module _ (tc : ControlBlock) (acked : on_ack env q received ≡ some (cleared tc))
      (una : tc.snd_una ≡ q.t.ack_seq) (nxt : tc.snd_nxt ≡ l.tb.tc.snd_nxt) where
    cleared-IsReady : IsReady (cleared tc).tb
    cleared-IsReady = record {
      buffer = h.ready.buffer;
      order = omega (arith, una, nxt, h.sent);
      nxt_fits = omega (arith, nxt, h.ready.nxt_fits);
      far = omega (arith, una, h.far);
    }

    module _ (ps : List Packet) (tb : SockTb)
        (e : send env.junk (cleared tc).tb ≡ some (ps, tb)) where
      abbrev sent_on : Link
      sent_on = arm env ps (record (cleared tc) { tb = tb })

      step-ack : step env ack_without_data received ≡ some (goto end_run sent_on)
      unfolding step on_ack_without_data send_link
      step-ack = rw (acked, send_attempt-ends env.junk (cleared tc).tb, e) refl

      run-ack : run env l ≡ returned sent_on.rv (record sent_on { tp = none })
      unfolding run
      run-ack =
          ap (λ (w : List Arrival). run_loop env (4 * length w + 5) l.tb.runstate (fresh l))
            h.waiting
          ∙ ap (λ (s : RunState). run_loop env 9 s (fresh l)) h.state
          ∙ run_loop-goto env 8 get_pkt ack_without_data (fresh l) received
              (step-get_pkt env l from [] q h.waiting h.reads ack_without_data classify-answer)
          ∙ run_loop-goto env 7 ack_without_data end_run received sent_on step-ack
          ∙ run_loop-leave env 6 end_run sent_on (record sent_on { tp = none }) sent_on.rv
              (step-end env q sent_on (arm-tp env ps (record (cleared tc) { tb = tb })))

  -- A call of run that finds one datagram, an acknowledgement of some of the data sent and not
  -- acknowledged before, on an established connection that is ready to send, far from the end of the
  -- sequence numbers, with a valid congestion block and its timers in order, returns: snd_una is the
  -- acknowledgement, the timers of what is acknowledged are gone and the others stay, and a prefix
  -- of the bytes to send goes out, each packet with a timer, numbered without gaps from snd_nxt.
  pub run-Advanced : (l' : Link) × (run env l ≡ returned l'.rv l') × Advanced env l from q l'
  run-Advanced =
      let (tc, acked, una, nxt) = clears in
      let (ps, tb, e, s) = send-Sent env.junk (cleared tc).tb (cleared-IsReady tc acked una nxt) in
      (
        record (sent_on tc acked una nxt ps tb e) { tp = none },
        run-ack tc acked una nxt ps tb e,
        record {
          packets = ps;
          table = tb;
          una = s.una ∙ una;
          bytes = s.bytes;
          chain = subst (λ (k : ℕ). Chain k ps) nxt s.chain;
          next = omega (arith, s.next, nxt);
          link = refl;
        },
      )
