-- ===== src/Process/Delivery.antt =====
-- From the buffer of a sender to the buffer of its receiver, by processtou.cpp: `send`, and the recovery
-- of packets.
use tcpoudp.Prelude.{
  ℕ, ◌+◌, ◌-◌, ◌<◌, ◌≤◌, ◌≡◌, refl, sym, ap, ◌∙◌, subst, Option, some, List, [], ◌∷◌, ◌++◌,
  append_assoc, append-nil, arith, length, length-append, word, inl, inr,
}
use tcpoudp.Buffer.Bounds
use tcpoudp.Buffer.Contents.{contents}
use tcpoudp.Buffer.Reading.{length-contents}
use tcpoudp.Packet.{Header, Packet}
use tcpoudp.Socket.{SockTb, with_tc}
use tcpoudp.Process.{recover, send}
use tcpoudp.Process.Recovery.{payloads, recover_one_cases}
use tcpoudp.Process.Turn.{IsReady}
use tcpoudp.Process.Sending.{Chain, send-Sent}

-- What the receiver has after it took packets, which came without gaps.
pub record Delivered (ps : List Packet) (rb rb' : SockTb) : Type 0 where
  pub stored : contents rb'.cb_recv ≡ contents rb.cb_recv ++ payloads ps
  pub next : rb'.tc.rcv_nxt ≡ rb.tc.rcv_nxt + length (payloads ps)
  pub rest : rb'.minhp_recv ≡ []
  pub valid : Bounds.IsValid rb'.cb_recv

module _ (malloc : ℕ → Option (List ℕ)) where
  recover-Delivered :
      (ps : List Packet) (rb : SockTb)
      → Bounds.IsValid rb.cb_recv
      → Chain rb.tc.rcv_nxt ps
      → rb.tc.rcv_nxt + length (payloads ps) < word
      → length (payloads ps) < rb.cb_recv.size - rb.cb_recv.tot_el
      → (rb' : SockTb) × (recover malloc ps rb ≡ some (0, rb')) × Delivered ps rb rb'
  unfolding recover
  recover-Delivered [] rb v c w l = (
    record rb { minhp_recv = [] },
    refl,
    record {
      stored = sym (append-nil (contents rb.cb_recv));
      next = omega arith;
      rest = refl;
      valid = v;
    },
  )
  recover-Delivered (p ∷ ps) rb v (s, pos, most, c) w l =
      let n = length-append p.buf (payloads ps) in
      elim (recover_one_cases malloc rb p v pos (omega (arith, most)) (omega (arith, n, w, s))) [
        | inr (_, full) ↦ absurd (omega (arith, n, full, l))
        | inl (cb, q, v', t, z, e) ↦
            let rb₁ : SockTb =
              with_tc (λ tc. record tc { rcv_nxt = p.t.seq + length p.buf })
                (record rb { cb_recv = cb }) in
            let (rb', g, d) =
              recover-Delivered ps rb₁ v' (subst (λ (k : ℕ). Chain (k + length p.buf) ps) (sym s) c)
                (omega (arith, n, w, s)) (omega (arith, n, l, z, e)) in
            (
              rb',
              ground (arith, q, g),
              record {
                stored =
                    d.stored
                    ∙ ap (λ (x : List ℕ). x ++ payloads ps) t
                    ∙ append_assoc (contents rb.cb_recv) p.buf (payloads ps);
                next = omega (arith, d.next, n, s);
                rest = d.rest;
                valid = d.valid;
              },
            )
      ]

  -- Where a ready sender stands at the sequence number that its receiver expects, and the valid
  -- receive buffer has room for all that is in the send buffer and more, the packets of one send,
  -- recovered in order, lose, double and reorder nothing: the bytes received and those still to send
  -- are the bytes that the two buffers held, the receiver expects what the sender sends next, and no
  -- packet is left.
  pub send-recover :
      (junk : Header) (tb rb : SockTb)
      → IsReady tb
      → Bounds.IsValid rb.cb_recv
      → rb.tc.rcv_nxt ≡ tb.tc.snd_nxt
      → tb.cb_send.tot_el < rb.cb_recv.size - rb.cb_recv.tot_el
      → (ps : List Packet) × (tb' : SockTb) × (rb' : SockTb) × (send junk tb ≡ some (ps, tb'))
        × (recover malloc ps rb ≡ some (0, rb'))
        × (contents rb'.cb_recv ++ contents tb'.cb_send
            ≡ contents rb.cb_recv ++ contents tb.cb_send)
        × (rb'.tc.rcv_nxt ≡ tb'.tc.snd_nxt)
        × (rb'.minhp_recv ≡ [])
  send-recover junk tb rb v u e room =
      let (ps, tb', g, s) = send-Sent junk tb v in
      let sent = length-append (payloads ps) (contents tb'.cb_send) in
      let less : length (payloads ps) ≤ tb.cb_send.tot_el =
        omega (arith, ap length s.bytes, sent, length-contents tb.cb_send 0 v.buffer) in
      let (rb', h, d) =
        recover-Delivered ps rb u (subst (λ (k : ℕ). Chain k ps) (sym e) s.chain)
          (omega (arith, s.inside, v.far, v.order, v.nxt_fits, e)) (omega (arith, less, room)) in
      (
        ps,
        tb',
        rb',
        g,
        h,
        ap (λ (x : List ℕ). x ++ contents tb'.cb_send) d.stored
            ∙ append_assoc (contents rb.cb_recv) (payloads ps) (contents tb'.cb_send)
            ∙ ap (λ (x : List ℕ). contents rb.cb_recv ++ x) s.bytes,
        omega (arith, d.next, s.next, e),
        d.rest,
      )
