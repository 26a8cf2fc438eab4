-- ===== src/Run/Reordering.antt =====
-- Two calls of `run` in processtou.cpp, on two datagrams of data that arrive in the wrong order.
use tcpoudp.Prelude.{
  ℕ, ◌+◌, ◌-◌, ◌<◌, ◌≡◌, refl, sym, subst, ap, ◌∙◌, some, Holds, List, [], ◌∷◌, ◌++◌, append_assoc,
  length, arith, inl, inr, word, half_word, take_all, length-take,
}
use tcpoudp.Buffer.{CircularBuffer, insert}
use tcpoudp.Buffer
use tcpoudp.Buffer.Insertion.{insert_cases}
use tcpoudp.Buffer.Contents.{contents}
use tcpoudp.Link.{Arrival, Link, Env}
use tcpoudp.Packet.{Packet, parse}
use tcpoudp.Packet
use tcpoudp.Socket.{SockTb, get_pkt, tous_established, push_hp_recv_buf}
use tcpoudp.Run.{recv_buf_size, returned, run}
use tcpoudp.Run.Blocks.{parse-short}
use tcpoudp.Run.Round.{text}
use tcpoudp.Run.Calls.{IsData, run-more, run-fills}

module _ (env : Env) (l : Link) (from₁ from₂ : Arrival) (q₁ q₂ : Packet) where
  -- The later packet arrives first, and the earlier one is what the valid table expects.
  pub record Swapped : Type 0 where
    pub ready : l.tb.runstate ≡ get_pkt
    pub waiting : l.inbox ≡ from₂ ∷ []
    pub established : l.tb.sockstate ≡ tous_established
    pub ordered : l.tb.minhp_recv ≡ []
    pub reads₁ : parse env.junk (text from₁) ≡ some q₁
    pub reads₂ : parse env.junk (text from₂) ≡ some q₂
    pub data₁ : IsData q₁
    pub data₂ : IsData q₂
    pub whole : q₂.buflen ≡ length q₂.buf
    pub next : q₁.t.seq ≡ l.tb.tc.rcv_nxt
    pub follows : q₂.t.seq ≡ q₁.t.seq + length q₁.buf
    pub no_wrap : q₂.t.seq + length q₂.buf < word
    pub buffer : Buffer.Bounds.IsValid l.tb.cb_recv
    pub room : length q₁.buf + length q₂.buf < l.tb.cb_recv.size - l.tb.cb_recv.tot_el

  module _ (h : Swapped) where
    copied : (Packet.copy q₂).buf ≡ q₂.buf
    unfolding Packet.copy
    copied = take_all q₂.buflen q₂.buf (omega (arith, h.whole))

    seq-copied : (Packet.copy q₂).t.seq ≡ q₂.t.seq
    unfolding Packet.copy
    seq-copied = refl

    pushed : (push_hp_recv_buf l.tb q₂).minhp_recv ≡ Packet.copy q₂ ∷ []
    unfolding push_hp_recv_buf
    pushed = rw h.ordered refl

    short :
        (q : Packet) (from : Arrival)
        → parse env.junk (text from) ≡ some q
        → length q.buf < half_word
    short q from e =
        subst (Holds (λ (p : Packet). length p.buf < half_word)) e
          (parse-short env (text from) (omega (arith, length-take recv_buf_size from.content)))

    -- What the first call leaves of the table.
    record AfterFirst (l' : Link) : Type 0 where
      state : l'.tb.runstate ≡ get_pkt
      established : l'.tb.sockstate ≡ tous_established
      next : q₁.t.seq ≡ l'.tb.tc.rcv_nxt
      heap : l'.tb.minhp_recv ≡ Packet.copy q₂ ∷ []
      buffer : l'.tb.cb_recv ≡ l.tb.cb_recv

    first_call : (l' : Link) × (run env l ≡ returned (length (text from₂)) l') × AfterFirst l'
    unfolding push_hp_recv_buf
    first_call =
        let (d, l', e, t) =
          run-more env l from₂ q₂ h.ready h.waiting h.reads₂ h.established h.data₂
            (omega (arith, h.next, h.follows, h.data₁.bytes)) in
        (
          l',
          e,
          record {
            state = ap (λ (tb : SockTb). tb.runstate) t ∙ h.ready;
            established = ap (λ (tb : SockTb). tb.sockstate) t ∙ h.established;
            next = h.next ∙ sym (ap (λ (tb : SockTb). tb.tc.rcv_nxt) t);
            heap = ap (λ (tb : SockTb). tb.minhp_recv) t ∙ pushed;
            buffer = ap (λ (tb : SockTb). tb.cb_recv) t;
          },
        )

    -- The two insertions of the second call.
    record Stored : Type 0 where
      c₁ : CircularBuffer
      c₂ : CircularBuffer
      e₁ : insert env.malloc l.tb.cb_recv q₁.buf (length q₁.buf) ≡ some (length q₁.buf, c₁)
      e₂ : insert env.malloc c₁ q₂.buf (length q₂.buf) ≡ some (length q₂.buf, c₂)
      bytes : contents c₂ ≡ contents l.tb.cb_recv ++ (q₁.buf ++ q₂.buf)

    stored : Stored
    stored =
        elim (insert_cases env.malloc l.tb.cb_recv q₁.buf h.buffer h.data₁.bytes
          (short q₁ from₁ h.reads₁)) [
            | inl (_, c₁, e₁, v₁, s₁, z₁, t₁) ↦
                elim (insert_cases env.malloc c₁ q₂.buf v₁ h.data₂.bytes
                  (short q₂ from₂ h.reads₂)) [
                    | inl (_, c₂, e₂, _, s₂, _, _) ↦ record {
                      c₁ = c₁;
                      c₂ = c₂;
                      e₁ = e₁;
                      e₂ = e₂;
                      bytes =
                          s₂
                          ∙ ap (λ (xs : List ℕ). xs ++ q₂.buf) s₁
                          ∙ append_assoc (contents l.tb.cb_recv) q₁.buf q₂.buf;
                    }
                    | inr (full, _) ↦ absurd (omega (arith, full, h.room, z₁, t₁))
                  ]
            | inr (full, _) ↦ absurd (omega (arith, full, h.room))
          ]

    -- Where two datagrams of data follow each other from rcv_nxt on without a wrap, on an
    -- established connection with nothing out of order and room for both in the valid receive
    -- buffer, and the later one, whose packet gives its payload's length, arrives before the
    -- earlier, two calls of run return and undo it: the bytes of both are behind the bytes stored,
    -- in order, rcv_nxt is behind them, and no packet is left out of order.
    pub run-reorders :
        (l₁ l₂ : Link) × (run env l ≡ returned (length (text from₂)) l₁)
        × (run env (record l₁ { inbox = from₁ ∷ [] }) ≡ returned (length (text from₁)) l₂)
        × (contents l₂.tb.cb_recv ≡ contents l.tb.cb_recv ++ (q₁.buf ++ q₂.buf))
        × (l₂.tb.tc.rcv_nxt ≡ q₂.t.seq + length q₂.buf)
        × (l₂.tb.minhp_recv ≡ [])
    run-reorders =
        let (l₁, e, a) = first_call in
        let s = stored in
        let (l₂, g, cb, nxt, heap) =
          run-fills env (record l₁ { inbox = from₁ ∷ [] }) from₁ q₁ a.state refl h.reads₁
            a.established h.data₁ a.next (Packet.copy q₂) a.heap
            (omega (arith, seq-copied, h.follows, h.no_wrap))
            (omega (arith, ap length copied, h.data₂.bytes))
            (omega (arith, ap length copied, short q₂ from₂ h.reads₂)) s.c₁ s.c₂
            (ap (λ (c : CircularBuffer). insert env.malloc c q₁.buf (length q₁.buf)) a.buffer
              ∙ s.e₁)
            (subst (λ (xs : List ℕ). insert env.malloc s.c₁ xs (length xs) ≡ some (length xs, s.c₂))
              (sym copied) s.e₂) in
        (
          l₁,
          l₂,
          e,
          g,
          ap contents cb ∙ s.bytes,
          nxt ∙ omega (arith, seq-copied, ap length copied, h.no_wrap),
          heap,
        )
