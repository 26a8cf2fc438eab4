-- ===== src/Process/Recovery.antt =====
-- The recovery of packets that came out of order, in processtou.cpp.
use tcpoudp.Prelude.{
  ℕ, ◌+◌, ◌-◌, ◌≤◌, ◌<◌, ◌≡◌, refl, sym, ap, ◌∙◌, true, false, Option, none, some, List, [], ◌∷◌,
  ◌++◌, append_assoc, append-nil, length, length-append, arith, half_word, word, ◌⊎◌, inl, inr,
  ℕ_discrete, minus_one,
}
use tcpoudp.Buffer.{CircularBuffer}
use tcpoudp.Buffer.Bounds
use tcpoudp.Buffer.Contents.{contents}
use tcpoudp.Buffer.Insertion.{insert_cases}
use tcpoudp.Packet.{Packet}
use tcpoudp.Socket.{SockTb, with_tc}
use tcpoudp.Process.{putcircbuf, recover_one, recover}

-- The packets lie apart from `k` on: each holds bytes, and starts at the end of the one before or
-- later; none reaches the end of the sequence numbers.
abbrev pub Apart : ℕ → List Packet → Type 0
Apart k [] = Unit {0}
Apart k (p ∷ ps) =
    (k ≤ p.t.seq)
    × (0 < length p.buf)
    × (length p.buf < half_word)
    × (p.t.seq + length p.buf < word)
    × Apart (p.t.seq + length p.buf) ps

abbrev pub payloads : List Packet → List ℕ
payloads [] = []
payloads (p ∷ ps) = p.buf ++ payloads ps

-- Why the recovery ended: nothing was left, there is a gap before the next packet, or the buffer has
-- no room for it.
abbrev pub Ended : ℕ → SockTb → Type 0
Ended r tb = Ends tb.minhp_recv
  where
    Ends : List Packet → Type 0
    Ends [] = r ≡ 0
    Ends (p ∷ ps) =
        ((r ≡ 0) × (tb.tc.rcv_nxt < p.t.seq))
        ⊎ ((r ≡ minus_one)
            × (tb.tc.rcv_nxt ≡ p.t.seq)
            × (tb.cb_recv.size - tb.cb_recv.tot_el ≤ length p.buf))

-- What a recovery from `heap` has done.
pub record Recovered (heap : List Packet) (tb : SockTb) (r : ℕ) (tb' : SockTb) : Type 0 where
  pub taken : List Packet
  pub split : heap ≡ taken ++ tb'.minhp_recv
  pub stored : contents tb'.cb_recv ≡ contents tb.cb_recv ++ payloads taken
  pub next : tb'.tc.rcv_nxt ≡ tb.tc.rcv_nxt + length (payloads taken)
  pub valid : Bounds.IsValid tb'.cb_recv
  pub ended : Ended r tb'

module _ (malloc : ℕ → Option (List ℕ)) where
  pub recover_one_cases :
      (tb : SockTb) (p : Packet)
      → Bounds.IsValid tb.cb_recv
      → 0 < length p.buf
      → length p.buf < half_word
      → p.t.seq + length p.buf < word
      → ((cb : CircularBuffer) × (recover_one malloc tb p
            ≡ some (
              true,
              with_tc
                  (λ tc. record tc { rcv_nxt = p.t.seq + length p.buf })
                  (record tb { cb_recv = cb }),
            ))
          × Bounds.IsValid cb
          × (contents cb ≡ contents tb.cb_recv ++ p.buf)
          × (cb.size ≡ tb.cb_recv.size)
          × (cb.tot_el ≡ tb.cb_recv.tot_el + length p.buf))
        ⊎ ((recover_one malloc tb p ≡ some (false, tb))
            × (tb.cb_recv.size - tb.cb_recv.tot_el ≤ length p.buf))
  unfolding recover_one putcircbuf
  recover_one_cases tb p v l h s = elim (insert_cases malloc tb.cb_recv p.buf v l h) [
    | inl (q, cb, e, v', c, z, t) ↦ inl (cb, ground (arith, e), v', c, z, t)
    | inr (q, e) ↦ inr (ground (arith, e), q)
  ]

  -- On packets that lie apart, in order, from rcv_nxt on, the recovery never fails its assertion: it
  -- stores a prefix of them in order behind the bytes in the valid receive buffer, moves rcv_nxt by
  -- these bytes, keeps the others, and ends at the end, at a gap or at a full buffer.
  pub recover-Recovered :
      (heap : List Packet) (tb : SockTb)
      → Bounds.IsValid tb.cb_recv
      → Apart tb.tc.rcv_nxt heap
      → (r : ℕ) × (tb' : SockTb) × (recover malloc heap tb ≡ some (r, tb'))
        × Recovered heap tb r tb'
  unfolding recover
  recover-Recovered [] tb v a = (
    0,
    record tb { minhp_recv = [] },
    refl,
    record {
      taken = [];
      split = refl;
      stored = sym (append-nil (contents tb.cb_recv));
      next = omega arith;
      valid = v;
      ended = refl;
    },
  )
  recover-Recovered (p ∷ ps) tb v a = elim (ℕ_discrete p.t.seq tb.tc.rcv_nxt) [
    | no ne ↦ (
      0,
      record tb { minhp_recv = p ∷ ps },
      ground arith,
      record {
        taken = [];
        split = refl;
        stored = sym (append-nil (contents tb.cb_recv));
        next = omega arith;
        valid = v;
        ended = inl (refl, omega arith);
      },
    )
    | yes e ↦ elim (recover_one_cases tb p v a.1 a.2 a.3) [
      | inr (q, full) ↦ (
        minus_one,
        record tb { minhp_recv = p ∷ ps },
        ground (arith, q),
        record {
          taken = [];
          split = refl;
          stored = sym (append-nil (contents tb.cb_recv));
          next = omega arith;
          valid = v;
          ended = inr (refl, sym e, full);
        },
      )
      | inl (cb, q, v', c, _, _) ↦
          let tb₁ : SockTb =
            with_tc (λ tc. record tc { rcv_nxt = p.t.seq + length p.buf })
              (record tb { cb_recv = cb }) in
          let (r, tb', g, d) = recover-Recovered ps tb₁ v' a.4 in
          (
            r,
            tb',
            ground (arith, q, g),
            record {
              taken = p ∷ d.taken;
              split = ap (λ (t : List Packet). p ∷ t) d.split;
              stored =
                  d.stored
                  ∙ ap (λ (t : List ℕ). t ++ payloads d.taken) c
                  ∙ append_assoc (contents tb.cb_recv) p.buf (payloads d.taken);
              next = omega (arith, d.next, length-append p.buf (payloads d.taken));
              valid = d.valid;
              ended = d.ended;
            },
          )
    ]
  ]

  -- Where two packets of one sequence number are on top of the heap, the first not empty, next in
  -- order, short of the end of the sequence numbers, and fitting the valid receive buffer, the
  -- recovery fails its assertion.
  pub recover-duplicate :
      (tb : SockTb) (p q : Packet) (rest : List Packet)
      → Bounds.IsValid tb.cb_recv
      → p.t.seq ≡ tb.tc.rcv_nxt
      → q.t.seq ≡ p.t.seq
      → 0 < length p.buf
      → length p.buf < tb.cb_recv.size - tb.cb_recv.tot_el
      → p.t.seq + length p.buf < word
      → recover malloc (p ∷ q ∷ rest) tb ≡ none
  unfolding recover
  recover-duplicate tb p q rest v e d l room s =
      elim (recover_one_cases tb p v l (omega (arith, v.small)) s) [
        | inl (cb, g, _, _, _, _) ↦ ground (arith, g)
        | inr (_, full) ↦ absurd (omega arith)
      ]
