-- ===== src/Api/Answer.antt =====
-- A sender of tou.cpp that hears the acknowledgement of the block it sent last, in run of processtou.cpp.
use tcpoudp.Prelude.{
  ℕ, ◌+◌, ◌≤◌, ◌<◌, ◌≡◌, refl, sym, ap, subst, ◌∙◌, true, false, some, List, [], ◌∷◌, ◌++◌, length,
  length-append, arith, word, add32, take,
}
use tcpoudp.Buffer.Contents.{contents}
use tcpoudp.Buffer.Reading.{length-contents}
use tcpoudp.Congestion.{smss, max_wnd}
use tcpoudp.Congestion.Bounds.{IsValid}
use tcpoudp.Link.{Arrival, Link, Env, arm, timer_id_sndpkt}
use tcpoudp.Node.{Node, new_data}
use tcpoudp.Node
use tcpoudp.Packet.{Packet, parse, clear_flag, put_header_seq, new_packet}
use tcpoudp.Process.{gen_pkt}
use tcpoudp.Process.Recovery.{payloads}
use tcpoudp.Process.Sending.{Chain}
use tcpoudp.Process.Turn.{IsReady}
use tcpoudp.Run.{recv_buf_size, returned, run}
use tcpoudp.Run.Acknowledging.{IsAnswered, Advanced, run-Advanced}
use tcpoudp.Socket.{SockTb, SockAddr, get_pkt, tous_established}
use tcpoudp.Timer.{add}
use tcpoudp.Timer.Clear.{Ascending, unacked}
use tcpoudp.Api.Transfer.{arm-tb}
use tcpoudp.Run.Round.{holding}
use tcpoudp.Api.Hearing.{hear, last_text}
use tcpoudp.Api.Delivery.{IsOpen, WroteOne}

-- A sender on an established connection with no timer, far from the end of the sequence numbers.
pub record IsQuiet (c : Link) (n : ℕ) : Type 0 where
  pub state : c.tb.runstate ≡ get_pkt
  pub established : c.tb.sockstate ≡ tous_established
  pub block : IsValid c.tb.tc
  pub timers : c.timerheap ≡ []
  pub far : c.tb.tc.snd_nxt + n + max_wnd < word

no_packets :
    (k : ℕ) (ps : List Packet) (rest : List ℕ)
    → Chain k ps
    → length (payloads ps ++ rest) ≡ 0
    → ps ≡ []
no_packets k [] rest c e = refl
no_packets k (p ∷ ps) rest (_, pos, _, _) e = absurd (
    omega
      (arith, length-append (p.buf ++ payloads ps) rest, length-append p.buf (payloads ps), pos, e))

no_bytes : (xs : List ℕ) → length xs ≡ 0 → xs ≡ []
no_bytes [] e = refl
no_bytes (x ∷ xs) e = absurd (omega arith)

unacked_one : (una : ℕ) (n : Node) → n.p_id ≤ una → unacked una (n ∷ []) ≡ []
unacked_one una n h = ground arith

-- Where nothing is sent on, only the timers that are cleared go.
timerheap-Advanced :
    (env : Env) (l : Link) (from : Arrival) (q : Packet) (l' : Link) (a : Advanced env l from q l')
    → a.packets ≡ []
    → l'.timerheap ≡ unacked q.t.ack_seq l.timerheap
unfolding arm
timerheap-Advanced env l from q l' a e =
    ap (λ (k : Link). k.timerheap) a.link ∙ ap (λ (ps : List Packet). (arm env ps base).timerheap) e
  where
    base : Link
    base = record (holding l from [] q) {
      tb = a.table;
      timerheap = unacked q.t.ack_seq l.timerheap;
    }

tb-Advanced :
    (env : Env) (l : Link) (from : Arrival) (q : Packet) (l' : Link) (a : Advanced env l from q l')
    → l'.tb ≡ a.table
tb-Advanced env l from q l' a = ap (λ (k : Link). k.tb) a.link ∙ arm-tb env a.packets _

module _ (es : Env) (s : List ℕ) (c : Link) (o : IsOpen es c.tb (length s))
    (q : IsQuiet c (length s)) (some_bytes : 0 < length s) (one : length s ≤ smss) (c₁ : Link)
    (w : WroteOne es s c o some_bytes one c₁) where
  -- The timer of the packet.
  abbrev timer : Node
  timer = Node.copy (
      new_data es.old c.tb.sockd timer_id_sndpkt (add32 c.tb.tc.snd_nxt (length s)) c.st s es.now
        c.tb.tc.t_rto)

  table_lem : c₁.tb ≡ w.table
  unfolding arm
  table_lem = ap (λ (l : Link). l.tb) w.link

  timers_lem : c₁.timerheap ≡ timer ∷ []
  unfolding arm add Node.push gen_pkt new_packet put_header_seq clear_flag
  timers_lem =
      ap (λ (l : Link). l.timerheap) w.link
      ∙ ap
          (λ (t : SockTb).
            add es.old t.sockd timer_id_sndpkt (add32 c.tb.tc.snd_nxt (length s)) c.st s es.now
              t.tc.t_rto c.timerheap)
          w.kept
      ∙ ap
          (add es.old c.tb.sockd timer_id_sndpkt (add32 c.tb.tc.snd_nxt (length s)) c.st s es.now
            c.tb.tc.t_rto)
          q.timers

  full : c₁.tb ≡ record c.tb {
    cb_send = w.table.cb_send;
    tc = record c.tb.tc { snd_wnd = w.table.tc.snd_wnd; snd_nxt = w.table.tc.snd_nxt };
  }
  full = table_lem ∙ w.kept

  una_lem : c₁.tb.tc.snd_una ≡ c.tb.tc.snd_una
  una_lem = ap (λ (t : SockTb). t.tc.snd_una) full

  nxt_lem : c₁.tb.tc.snd_nxt ≡ c.tb.tc.snd_nxt + length s
  nxt_lem = ap (λ (t : SockTb). t.tc.snd_nxt) table_lem ∙ w.nxt

  block_lem : IsValid c₁.tb.tc
  block_lem = subst IsValid (sym (ap (λ (t : SockTb). t.tc) full)) (ground (arith, q.block))

  ready_lem : IsReady c₁.tb
  ready_lem = subst IsReady (sym table_lem) w.ready

  timers-Ascending : Ascending c₁.tb.sockd timer_id_sndpkt 0 c₁.timerheap
  unfolding Node.copy new_data
  timers-Ascending =
      subst (Ascending c₁.tb.sockd timer_id_sndpkt 0) (sym timers_lem)
        (sym (ap (λ (t : SockTb). t.sockd) full), refl, omega (arith, q.far, some_bytes), tt)

  -- The sender hears the acknowledgement `p` of the block.
  module _ (from : SockAddr) (r : Link) (p : Packet)
      (reads : parse es.junk (take recv_buf_size (last_text r.wire)) ≡ some p)
      (ack : p.t.ack ≡ true) (syn : p.t.syn ≡ false) (fin : p.t.fin ≡ false) (bare : p.buf ≡ [])
      (expects : p.t.ack_seq ≡ c.tb.tc.snd_nxt + length s) where
    answered : IsAnswered es (hear from r c₁) (record { from = from; content = last_text r.wire }) p
    answered = record {
      state = ap (λ (t : SockTb). t.runstate) full ∙ q.state;
      waiting = refl;
      reads = reads;
      established = ap (λ (t : SockTb). t.sockstate) full ∙ q.established;
      ack = ack;
      syn = syn;
      fin = fin;
      bytes = ap length bare;
      newer = omega (arith, una_lem, expects, o.ready.order, some_bytes);
      sent = omega (arith, nxt_lem, expects);
      block = block_lem;
      ready = ready_lem;
      far = omega (arith, expects, q.far);
      timers = timers-Ascending;
    }

    -- What the sender leaves of its side.
    pub settles :
        (c' : Link) × (run es (hear from r c₁) ≡ returned c'.rv c')
        × (c'.tb.tc.snd_una ≡ c.tb.tc.snd_nxt + length s)
        × (c'.tb.tc.snd_nxt ≡ c.tb.tc.snd_nxt + length s)
        × (c'.timerheap ≡ [])
        × (contents c'.tb.cb_send ≡ [])
    unfolding Node.copy new_data
    settles =
        let (c', e, a) =
          run-Advanced es (hear from r c₁) (record { from = from; content = last_text r.wire }) p
            answered in
        let none_stored : length (contents c₁.tb.cb_send) ≡ 0 =
          length-contents c₁.tb.cb_send 0 ready_lem.buffer
          ∙ ap (λ (t : SockTb). t.cb_send.tot_el) table_lem
          ∙ w.drained in
        let quiet =
          no_packets (hear from r c₁).tb.tc.snd_nxt a.packets (contents a.table.cb_send) a.chain
            (ap length a.bytes ∙ none_stored) in
        let tb = tb-Advanced es (hear from r c₁) _ p c' a in
        (
          c',
          e,
          ap (λ (t : SockTb). t.tc.snd_una) tb ∙ a.una ∙ expects,
          ap (λ (t : SockTb). t.tc.snd_nxt) tb
              ∙ a.next
              ∙ omega (arith, nxt_lem, ap (λ (ps : List Packet). length (payloads ps)) quiet),
          timerheap-Advanced es (hear from r c₁) _ p c' a quiet
              ∙ ap (unacked p.t.ack_seq) timers_lem
              ∙ cleared,
          ap (λ (t : SockTb). contents t.cb_send) tb
              ∙ no_bytes (contents a.table.cb_send) (
                  omega (
                    arith,
                    none_stored,
                    ap length a.bytes,
                    length-append (payloads a.packets) (contents a.table.cb_send),
                  )),
        )
      where
        cleared : unacked p.t.ack_seq (timer ∷ []) ≡ []
        cleared = unacked_one p.t.ack_seq timer (omega (arith, expects, q.far))
