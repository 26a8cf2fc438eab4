-- ===== src/Api/Transfer.antt =====
-- A block of any size from the application of one side to that of the other: touSend of tou.cpp, the
-- datagrams that go out, and run and touRecv at the other side.
use tcpoudp.Prelude.{
  ℕ, ◌+◌, ◌-◌, ◌≤◌, ◌<◌, ◌≡◌, refl, sym, ap, subst, ◌∙◌, some, Holds, List, [], ◌∷◌, ◌++◌,
  append_assoc, append-nil, map, length, length-append, arith, inl, inr, word, short_word,
  half_word, nonpositive, false, add32,
}
use tcpoudp.Buffer.Insertion.{insert_cases}
use tcpoudp.Buffer.Contents.{contents}
use tcpoudp.Buffer.Reading.{length-contents}
use tcpoudp.Link.{Arrival, Link, Env, arm, send_link}
use tcpoudp.Packet.{Packet, to_string}
use tcpoudp.Process.Plain.{ArePlain, All, send-ArePlain}
use tcpoudp.Process.Recovery.{payloads}
use tcpoudp.Process.Sending.{Chain, send-Sent}
use tcpoudp.Process.Turn.{IsReady}
use tcpoudp.Run.{returned, run, recv_buf_size}
use tcpoudp.Run.Datagram.{IsReceiving}
use tcpoudp.Run.Streams.{Stream, behind, run-Received}
use tcpoudp.Socket.{SockTb, SockAddr, Datagram}
use tcpoudp.Api.{pushsndq, tou_send, tou_recv}
use tcpoudp.Api.Hearing.{heard, parse-heard}
use tcpoudp.Api.Stream.{Read, tou_recv-Read}

-- The datagrams that a side sends, and how they wait at the other.
abbrev pub datagrams : SockTb → List Packet → List Datagram
datagrams tb ps =
    map (λ p. record { fd = tb.sockd; ip = tb.dip; port = tb.dport; content = to_string p }) ps

abbrev pub arrivals : SockAddr → List Datagram → List Arrival
arrivals from ds = map (λ d. record { from = from; content = d.content }) ds

arm-wire :
    (env : Env) (ps : List Packet) (l : Link) → (arm env ps l).wire ≡ l.wire ++ datagrams l.tb ps
unfolding arm
arm-wire env [] l = sym (append-nil l.wire)
arm-wire env (p ∷ ps) l = arm-wire env ps _ ∙ append_assoc l.wire _ (datagrams l.tb ps)

pub arm-tb : (env : Env) (ps : List Packet) (l : Link) → (arm env ps l).tb ≡ l.tb
unfolding arm
arm-tb env [] l = refl
arm-tb env (p ∷ ps) l = arm-tb env ps _

payloads-heard : (env : Env) (ps : List Packet) → payloads (map (heard env) ps) ≡ payloads ps
payloads-heard env [] = refl
payloads-heard env (p ∷ ps) = ap (◌++◌ p.buf) (payloads-heard env ps)

behind-heard :
    (env : Env) (ps : List Packet) (k : ℕ)
    → k + length (payloads ps) < word
    → behind k (map (heard env) ps) ≡ k + length (payloads ps)
behind-heard env [] k h = omega arith
behind-heard env (p ∷ ps) k h =
    let n = length-append p.buf (payloads ps) in
    let e : add32 k (length p.buf) ≡ k + length p.buf = omega (arith, h, n) in
    ap (λ (j : ℕ). behind j (map (heard env) ps)) e
    ∙ behind-heard env ps (k + length p.buf) (omega (arith, h, n))
    ∙ omega (arith, n)

-- Printed packets are read as a stream of data.
module _ (es er : Env) (from : SockAddr) (tb : SockTb) (ack : ℕ) (ack_fits : ack < word)
    (memory : es.junk.window < short_word) where
  Stream-arrivals :
      (ps : List Packet) (k : ℕ)
      → k + length (payloads ps) < word
      → Chain k ps
      → ArePlain es.junk ack ps
      → Stream er k (arrivals from (datagrams tb ps)) (map (heard er) ps)
  Stream-arrivals [] k h c a = tt
  Stream-arrivals (p ∷ ps) k h (s, pos, most, c) (a, rest) =
      let n = length-append p.buf (payloads ps) in
      let e : k + length p.buf ≡ add32 k (length p.buf) = omega (arith, h, n) in
      (
        parse-heard er p
            (record {
              seq_fits = omega (arith, s, h, n);
              mag_fits = a.magic;
              ack_fits = omega (arith, a.expects, ack_fits);
              window_fits = omega (arith, a.window, memory);
              whole = a.whole;
            })
            most,
        record { ack = a.ack; syn = a.syn; fin = a.fin; bytes = pos },
        s,
        subst (λ (j : ℕ). Stream er j (arrivals from (datagrams tb ps)) (map (heard er) ps)) e
            (Stream-arrivals ps (k + length p.buf) (omega (arith, h, n)) c rest),
      )

-- A sender, and a receiver that expects the byte it sends next.
pub record IsConnected (c r : Link) : Type 0 where
  pub sender : IsReady c.tb
  pub ack_fits : c.tb.tc.rcv_nxt < word
  pub receiver : IsReceiving r
  pub agree : r.tb.tc.rcv_nxt ≡ c.tb.tc.snd_nxt

-- What a block has become: bytes at the receiver, in order, and bytes that wait at the sender.
pub record Carried (s : List ℕ) (c r c' r' : Link) : Type 0 where
  pub bytes :
      contents r'.tb.cb_recv ++ contents c'.tb.cb_send
      ≡ contents r.tb.cb_recv ++ (contents c.tb.cb_send ++ s)
  pub again : IsConnected c' r'
  pub reads : (n : ℕ) → nonpositive n ≡ false → Read n r' (tou_recv n r')

module _ (es er : Env) (from : SockAddr) (s : List ℕ) (c r : Link) (h : IsConnected c r)
    (memory : es.junk.window < short_word) (some_bytes : 0 < length s)
    (small : length s < half_word) (fits : length s < c.tb.cb_send.size - c.tb.cb_send.tot_el)
    (room : c.tb.cb_send.tot_el + length s + recv_buf_size
      ≤ r.tb.cb_recv.size - r.tb.cb_recv.tot_el) where
  -- What the sender does.
  record Sends : Type 0 where
    packets : List Packet
    table : SockTb
    call : tou_send es s c ≡ some (length s, arm es packets (record c { tb = table }))
    bytes : payloads packets ++ contents table.cb_send ≡ contents c.tb.cb_send ++ s
    chain : Chain c.tb.tc.snd_nxt packets
    plain : ArePlain es.junk c.tb.tc.rcv_nxt packets
    kept : table.tc.rcv_nxt ≡ c.tb.tc.rcv_nxt
    next : table.tc.snd_nxt ≡ c.tb.tc.snd_nxt + length (payloads packets)
    no_wrap : c.tb.tc.snd_nxt + length (payloads packets) < word
    ready : IsReady table

  sends : Sends
  unfolding tou_send pushsndq send_link
  sends = elim (insert_cases es.malloc c.tb.cb_send s h.sender.buffer some_bytes small) [
    | inr (full, _) ↦ absurd (omega (arith, full, fits))
    | inl (_, cb, e, u, stored, _, _) ↦
        let tb : SockTb = record c.tb { cb_send = cb } in
        let v : IsReady tb = record {
          buffer = u;
          order = h.sender.order;
          nxt_fits = h.sender.nxt_fits;
          far = h.sender.far;
        } in
        let (ps, tb', g, t) = send-Sent es.junk tb v in
        let (plain, kept) =
          subst (Holds (All es.junk c.tb.tc.rcv_nxt)) g (send-ArePlain es.junk tb) in
        record {
          packets = ps;
          table = tb';
          call = rw (e, g) refl;
          bytes = t.bytes ∙ stored;
          chain = t.chain;
          plain = plain;
          kept = kept;
          next = t.next;
          no_wrap = omega (arith, t.inside, v.order, v.nxt_fits, v.far);
          ready = record {
            buffer = t.buffer;
            order = omega (arith, t.una, t.next, v.order);
            nxt_fits = omega (arith, t.next, t.inside, v.order, v.nxt_fits, v.far);
            far = omega (arith, t.una, v.far);
          };
        }
  ]

  less : (x : Sends) → length (payloads x.packets) ≤ c.tb.cb_send.tot_el + length s
  less x = omega (
    arith,
    ap length x.bytes,
    length-append (payloads x.packets) (contents x.table.cb_send),
    length-append (contents c.tb.cb_send) s,
    length-contents c.tb.cb_send 0 h.sender.buffer,
  )

  -- Where a ready sender stands at the sequence number that its established receiver expects, with
  -- the words of its header in range, the receiver holding nothing out of order, and the block, not
  -- empty, fits the send buffer, and the receive buffer has room for the bytes that wait, the block
  -- and a largest datagram: touSend accepts the whole block; whatever datagrams it sends, when they
  -- arrive in order, one call of run takes them all and returns; then the bytes received and the
  -- bytes that wait at the sender are those there were and the block, in order, the two sides are
  -- again so connected, and touRecv reads the bytes received.
  pub tou_send-Carried :
      (c' : Link) × (ds : List Datagram) × (r' : Link) × (tou_send es s c ≡ some (length s, c'))
      × (c'.wire ≡ c.wire ++ ds)
      × (run er (record r { inbox = arrivals from ds }) ≡ returned r'.rv r')
      × Carried s c r c' r'
  tou_send-Carried =
      let x = sends in
      let c' = arm es x.packets (record c { tb = x.table }) in
      let same = arm-tb es x.packets (record c { tb = x.table }) in
      let ds = datagrams x.table x.packets in
      let (r', e, t) =
        run-Received er (record r { inbox = arrivals from ds }) (map (heard er) x.packets)
          (record {
            state = h.receiver.state;
            established = h.receiver.established;
            ordered = h.receiver.ordered;
            delays = h.receiver.delays;
            buffer = h.receiver.buffer;
          })
          (subst (λ (k : ℕ). Stream er k (arrivals from ds) (map (heard er) x.packets))
            (sym h.agree)
            (Stream-arrivals es er from x.table c.tb.tc.rcv_nxt h.ack_fits memory x.packets
              c.tb.tc.snd_nxt x.no_wrap x.chain x.plain))
          (omega (arith, room, ap length (payloads-heard er x.packets), less x)) in
      (
        c',
        ds,
        r',
        x.call,
        arm-wire es x.packets (record c { tb = x.table }),
        e,
        record {
          bytes =
              ap (λ (tb : SockTb). contents r'.tb.cb_recv ++ contents tb.cb_send) same
              ∙ ap (λ (xs : List ℕ). xs ++ contents x.table.cb_send)
                  (t.bytes ∙ ap (◌++◌ (contents r.tb.cb_recv)) (payloads-heard er x.packets))
              ∙ append_assoc (contents r.tb.cb_recv) (payloads x.packets) (contents x.table.cb_send)
              ∙ ap (◌++◌ (contents r.tb.cb_recv)) x.bytes;
          again = record {
            sender = subst IsReady (sym same) x.ready;
            ack_fits = omega (arith, ap (λ (tb : SockTb). tb.tc.rcv_nxt) same, x.kept, h.ack_fits);
            receiver = t.again;
            agree =
                t.next
                ∙ ap (λ (k : ℕ). behind k (map (heard er) x.packets)) h.agree
                ∙ behind-heard er x.packets c.tb.tc.snd_nxt x.no_wrap
                ∙ sym x.next
                ∙ sym (ap (λ (tb : SockTb). tb.tc.snd_nxt) same);
          };
          reads = λ n p. tou_recv-Read r' t.again.buffer n p;
        },
      )
