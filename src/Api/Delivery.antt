-- ===== src/Api/Delivery.antt =====
-- A block from the application of one side to that of the other: touSend, run and touRecv.
use tcpoudp.Prelude.{
  ℕ, ◌+◌, ◌≤◌, ◌<◌, ◌≡◌, ◌≢◌, refl, ap, ◌∙◌, some, List, [], ◌∷◌, ◌++◌, length, arith, inl, inr,
  word, short_word, half_word,
}
use tcpoudp.Buffer.{CircularBuffer, insert}
use tcpoudp.Buffer
use tcpoudp.Buffer.Insertion.{insert_cases}
use tcpoudp.Buffer.Contents.{contents}
use tcpoudp.Buffer.Reading.{length-contents}
use tcpoudp.Congestion.{ss, smss}
use tcpoudp.Link.{Link, Env, arm, send_link}
use tcpoudp.Packet.{Packet, to_string, new_packet, put_header_seq, clear_flag}
use tcpoudp.Packet.RoundTrip.{IsWellFormed}
use tcpoudp.Process.{min_send_size, gen_pkt, send}
use tcpoudp.Process.Turn.{IsReady, room}
use tcpoudp.Process.Sending.{measured}
use tcpoudp.Process.Single.{send-whole}
use tcpoudp.Run.{returned, run}
use tcpoudp.Run.Reception.{Expected}
use tcpoudp.Socket.{SockTb, Datagram, SockAddr, get_pkt, tous_established, delack_que}
use tcpoudp.Api.{pushsndq, tou_send, tou_recv}
use tcpoudp.Api.Hearing.{hear, heard, last_text, reads-hear}
use tcpoudp.Api.Stream.{run-tou_recv}

-- A sender that has nothing stored, in slow start with an open window.
pub record IsOpen (env : Env) (tb : SockTb) (n : ℕ) : Type 0 where
  pub ready : IsReady tb
  pub slow : tb.tc.cc_state ≡ ss
  pub empty : tb.cb_send.tot_el ≡ 0
  pub fits : n < tb.cb_send.size
  pub opened : min_send_size ≤ room tb
  pub window : n ≤ room tb
  pub ack_fits : tb.tc.rcv_nxt < word
  pub memory : env.junk.window < short_word

-- A receiver that has read all and expects the byte at `seq` next.
pub record IsListening (tb : SockTb) (seq n : ℕ) : Type 0 where
  pub state : tb.runstate ≡ get_pkt
  pub established : tb.sockstate ≡ tous_established
  pub next : seq ≡ tb.tc.rcv_nxt
  pub ordered : tb.minhp_recv ≡ []
  pub delack_lo : 1 ≤ tb.tc.t_delack_state
  pub delack_hi : tb.tc.t_delack_state ≤ 5
  pub prompt : tb.tc.t_delack_state ≢ delack_que
  pub buffer : Buffer.Bounds.IsValid tb.cb_recv
  pub empty : tb.cb_recv.tot_el ≡ 0
  pub fits : n < tb.cb_recv.size

module _ (env : Env) (s : List ℕ) (l : Link) (h : IsOpen env l.tb (length s))
    (some_bytes : 0 < length s) (one : length s ≤ smss) where
  -- The packet that goes out.
  abbrev pub packet : Packet
  packet = gen_pkt env.junk (measured l.tb) s

  pub packet-IsWellFormed : IsWellFormed packet
  unfolding gen_pkt new_packet put_header_seq clear_flag
  packet-IsWellFormed = record {
    seq_fits = h.ready.nxt_fits;
    mag_fits = omega arith;
    ack_fits = h.ack_fits;
    window_fits = h.memory;
    whole = refl;
  }

  none_stored : contents l.tb.cb_send ≡ []
  none_stored =
      nothing (contents l.tb.cb_send) (length-contents l.tb.cb_send 0 h.ready.buffer ∙ h.empty)
    where
      nothing : (xs : List ℕ) → length xs ≡ 0 → xs ≡ []
      nothing [] z = refl
      nothing (x ∷ xs) z = absurd (omega arith)

  module _ (cb : CircularBuffer) (v : Buffer.Bounds.IsValid cb)
      (stored : contents cb ≡ contents l.tb.cb_send ++ s)
      (tot : cb.tot_el ≡ l.tb.cb_send.tot_el + length s) where
    abbrev filled : SockTb
    filled = record l.tb { cb_send = cb }

    filled-IsReady : IsReady filled
    filled-IsReady = record {
      buffer = v;
      order = h.ready.order;
      nxt_fits = h.ready.nxt_fits;
      far = h.ready.far;
    }

    all_stored : contents cb ≡ s
    all_stored = stored ∙ ap (λ (xs : List ℕ). xs ++ s) none_stored

    send-packet :
        (tb' : SockTb) × (send env.junk filled ≡ some (packet ∷ [], tb'))
        × (tb'.tc.snd_nxt ≡ l.tb.tc.snd_nxt + length s)
        × (tb'.cb_send.tot_el ≡ 0)
        × IsReady tb'
        × (tb' ≡ record l.tb {
          cb_send = tb'.cb_send;
          tc = record l.tb.tc { snd_wnd = tb'.tc.snd_wnd; snd_nxt = tb'.tc.snd_nxt };
        })
    unfolding gen_pkt
    send-packet =
        let (tb', e, i) =
          send-whole env.junk filled filled-IsReady h.slow (omega (arith, tot, some_bytes, h.empty))
            (omega (arith, tot, one, h.empty)) h.opened (omega (arith, tot, h.window, h.empty)) in
        (
          tb',
          e ∙ ap (λ (xs : List ℕ). some (gen_pkt env.junk (measured l.tb) xs ∷ [], tb')) all_stored,
          omega (arith, i.nxt, tot, h.empty),
          i.drained,
          i.ready,
          i.table,
        )

  -- What `touSend` leaves: one datagram more, one timer more, and the table.
  pub record WroteOne (c' : Link) : Type 0 where
    pub table : SockTb
    pub link : c' ≡ arm env (packet ∷ []) (record l { tb = table })
    pub nxt : table.tc.snd_nxt ≡ l.tb.tc.snd_nxt + length s
    pub drained : table.cb_send.tot_el ≡ 0
    pub ready : IsReady table
    pub kept : table ≡ record l.tb {
      cb_send = table.cb_send;
      tc = record l.tb.tc { snd_wnd = table.tc.snd_wnd; snd_nxt = table.tc.snd_nxt };
    }

  pub sends_one :
      (c' : Link) × (tou_send env s l ≡ some (length s, c'))
      × (d : Datagram) × (c'.wire ≡ l.wire ++ (d ∷ []))
      × (d.content ≡ to_string packet)
      × WroteOne c'
  unfolding tou_send pushsndq send_link arm
  sends_one =
      elim (insert_cases env.malloc l.tb.cb_send s h.ready.buffer some_bytes (omega (arith, one))) [
        | inl (_, cb, e, v, stored, _, tot) ↦
            let (tb', g, nxt, drained, ready, kept) = send-packet cb v stored tot in
            (
              arm env (packet ∷ []) (record l { tb = tb' }),
              rw (e, g) refl,
              _,
              refl,
              refl,
              record {
                table = tb';
                link = refl;
                nxt = nxt;
                drained = drained;
                ready = ready;
                kept = kept;
              },
            )
        | inr (full, _) ↦ absurd (omega (arith, full, h.fits, h.empty))
      ]

-- The datagram, heard by a receiver that expects it.
pub expects :
    (es er : Env) (from : SockAddr) (s : List ℕ) (c r : Link) (p : 0 < length s)
    (one : length s ≤ smss) (o : IsOpen es c.tb (length s))
    → IsListening r.tb c.tb.tc.snd_nxt (length s)
    → (c' : Link) (d : Datagram) → c'.wire ≡ c.wire ++ (d ∷ [])
    → d.content ≡ to_string (packet es s c o p one)
    → Expected er
        (hear from c' r)
        (record { from = from; content = last_text c'.wire })
        (heard er (packet es s c o p one))
unfolding gen_pkt new_packet put_header_seq clear_flag
expects es er from s c r p one o w c' d sent printed = record {
  state = w.state;
  waiting = refl;
  reads =
      reads-hear er (packet es s c o p one) (packet-IsWellFormed es s c o p one) one c.wire d c'
        sent printed;
  established = w.established;
  ack = refl;
  syn = refl;
  fin = refl;
  bytes = p;
  next = w.next;
  ordered = w.ordered;
  delack_lo = w.delack_lo;
  delack_hi = w.delack_hi;
  prompt = w.prompt;
}

-- Where a ready sender in slow start with nothing stored, the words of its header in range, and a
-- window open for it sends a block of one to SMSS bytes by touSend, and its datagram is alone at an
-- established receiver that expects the sender's next byte, has read all, has room for the block,
-- holds nothing out of order and delays no acknowledgement, all three calls succeed: touSend accepts
-- the block, run returns, and touRecv with a positive length that is enough returns exactly the
-- block.
pub tou_send-tou_recv :
    (es er : Env) (from : SockAddr) (s : List ℕ) (c r : Link) (n : ℕ)
    → 0 < length s
    → length s ≤ smss
    → IsOpen es c.tb (length s)
    → IsListening r.tb c.tb.tc.snd_nxt (length s)
    → length s ≤ n
    → n < half_word
    → (c' r' : Link) × (k : ℕ) × (tou_send es s c ≡ some (length s, c'))
      × (run er (hear from c' r) ≡ returned k r')
      × ((tou_recv n r').0 ≡ length s)
      × ((tou_recv n r').1 ≡ s)
unfolding gen_pkt new_packet put_header_seq clear_flag
tou_send-tou_recv es er from s c r n p one o w fits small =
    let (c', e, d, sent, printed, _) = sends_one es s c o p one in
    let x = expects es er from s c r p one o w c' d sent printed in
    let (k, r', g, count, bytes) =
      run-tou_recv er (hear from c' r) _ _ n x w.buffer w.empty w.fits fits small in
    (c', r', k, e, g, count, bytes)
