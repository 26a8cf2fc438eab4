-- ===== src/Process/Sending.antt =====
-- The sending side of processtou.cpp: what `send` takes out of the buffer, and how far `snd_nxt` moves.
use tcpoudp.Prelude.{
  ℕ, zero, suc, ◌+◌, ◌*◌, ◌≤◌, ◌<◌, ◌≡◌, refl, sym, ap, subst, ◌∙◌, true, false, some, List, [],
  ◌∷◌, ◌++◌, append_assoc, length, length-append, arith, half_word, inl, inr, dec_lt, sub32, min,
  Bool-cases,
}
use tcpoudp.Buffer.{get_total_elements}
use tcpoudp.Buffer.Bounds
use tcpoudp.Buffer.Contents.{contents}
use tcpoudp.Congestion.{ControlBlock, CcState, smss, max_wnd}
use tcpoudp.Packet.{Header, Packet}
use tcpoudp.Process.Receive.{cal_num_caxmit_bounds}
use tcpoudp.Process.Recovery.{payloads}
use tcpoudp.Socket.{SockTb}
use tcpoudp.Process.{cal_num_caxmit, send_one, in_ca, stops, send_loop, send}
use tcpoudp.Process.Turns.{send_loop-suc, send_lem}
use tcpoudp.Process.Turn.{
  window, IsReady, room, get_send_size_lem, send_one_lem, Turn, send_one-Turn,
}

-- Packets with bytes, of a segment at most, numbered one behind the other from `k` on.
abbrev pub Chain : ℕ → List Packet → Type 0
Chain k [] = Unit {0}
Chain k (p ∷ ps) =
    (p.t.seq ≡ k) × (0 < length p.buf) × (length p.buf ≤ smss) × Chain (k + length p.buf) ps

-- What `send` has done.
pub record Sent (tb : SockTb) (ps : List Packet) (tb' : SockTb) : Type 0 where
  pub bytes : payloads ps ++ contents tb'.cb_send ≡ contents tb.cb_send
  pub chain : Chain tb.tc.snd_nxt ps
  pub next : tb'.tc.snd_nxt ≡ tb.tc.snd_nxt + length (payloads ps)
  pub inside : length (payloads ps) ≤ room tb
  pub una : tb'.tc.snd_una ≡ tb.tc.snd_una
  pub buffer : Bounds.IsValid tb'.cb_send

-- In congestion avoidance the packets that are left to send fit the window.
abbrev Pace : SockTb → ℕ → Type 0
Pace tb xmit_cnt =
    in_ca tb.tc.cc_state ≡ true → (xmit_cnt < half_word) × (xmit_cnt * smss < room tb + smss)

abbrev pub measured : SockTb → SockTb
measured tb = record tb { tc = record tb.tc { snd_wnd = window tb } }

room-stops :
    (tb : SockTb) (xmit_cnt : ℕ)
    → Pace tb xmit_cnt
    → IsReady tb
    → stops (measured tb) (room tb) xmit_cnt ≡ false
    → 0 < room tb
room-stops tb xmit_cnt c v e = ground arith

nothing-Sent :
    (tb tb' : SockTb)
    → tb'.cb_send ≡ tb.cb_send
    → tb'.tc.snd_nxt ≡ tb.tc.snd_nxt
    → tb'.tc.snd_una ≡ tb.tc.snd_una
    → IsReady tb
    → Sent tb [] tb'
nothing-Sent tb tb' e n u v = record {
  bytes = ap contents e;
  chain = tt;
  next = omega arith;
  inside = omega arith;
  una = u;
  buffer = subst Bounds.IsValid (sym e) v.buffer;
}

send_one_cases :
    (junk : Header) (tb : SockTb)
    → IsReady tb
    → 0 < room tb
    → 0 < tb.cb_send.tot_el
    → (p : Packet) × (tb₁ : SockTb) × (send_one junk (measured tb) (room tb) ≡ some (p, tb₁))
      × Turn (measured tb) (room tb) p tb₁
send_one_cases junk tb v pos h = (
  _,
  _,
  send_one_lem junk (measured tb) (room tb) v.buffer pos (omega arith) (omega arith) h,
  send_one-Turn junk (measured tb) (room tb) v.buffer pos (omega arith) (omega arith) h,
)

module _ (tb : SockTb) (p : Packet) (tb₁ : SockTb) (t : Turn (measured tb) (room tb) p tb₁)
    (v : IsReady tb) where
  nxt₁ : tb₁.tc.snd_nxt ≡ tb.tc.snd_nxt + length p.buf
  nxt₁ = ap (λ (tc : ControlBlock). tc.snd_nxt) t.tc_after

  una₁ : tb₁.tc.snd_una ≡ tb.tc.snd_una
  una₁ = ap (λ (tc : ControlBlock). tc.snd_una) t.tc_after

  window₁ : window tb₁ ≡ window tb
  window₁ = ap (λ (tc : ControlBlock). min (min tc.snd_cwnd tc.snd_awnd) max_wnd) t.tc_after

  state₁ : tb₁.tc.cc_state ≡ tb.tc.cc_state
  state₁ = ap (λ (tc : ControlBlock). tc.cc_state) t.tc_after

  turn-IsReady : 0 < room tb → IsReady tb₁
  turn-IsReady h = record {
    buffer = t.buffer;
    order = omega (arith, nxt₁, una₁);
    nxt_fits = omega (arith, nxt₁, t.count);
    far = omega (arith, una₁);
  }

  turn-Pace :
      (xmit_cnt : ℕ)
      → Pace tb xmit_cnt
      → 0 < room tb
      → stops (measured tb) (room tb) xmit_cnt ≡ false
      → Pace tb₁ (sub32 xmit_cnt 1)
  turn-Pace xmit_cnt c h e q =
      let (small, fit) = c (subst (λ (s : CcState). in_ca s ≡ true) state₁ q) in
      let go : 0 < xmit_cnt = ground (arith, state₁) in
      (omega arith, omega (arith, nxt₁, una₁, window₁, t.count))

  turn-Sent :
      (ps : List Packet) (tb₂ : SockTb)
      → 0 < length p.buf
      → 0 < room tb
      → Sent tb₁ ps tb₂
      → Sent tb (p ∷ ps) tb₂
  turn-Sent ps tb₂ pos h s = record {
    bytes =
        append_assoc p.buf (payloads ps) (contents tb₂.cb_send) ∙ ap (◌++◌ p.buf) s.bytes ∙ t.bytes;
    chain = (t.seq, pos, omega (arith, t.count), subst (λ (k : ℕ). Chain k ps) nxt₁ s.chain);
    next = omega (arith, s.next, nxt₁, length-append p.buf (payloads ps));
    inside =
        omega (arith, s.inside, nxt₁, una₁, window₁, t.count, length-append p.buf (payloads ps));
    una = s.una ∙ una₁;
    buffer = s.buffer;
  }

module _ (junk : Header) where
  -- With fuel for the bytes stored, the loop ends, and has done what `Sent` says.
  send_loop-Sent :
      (fuel : ℕ) (tb : SockTb) (xmit_cnt : ℕ)
      → IsReady tb
      → Pace tb xmit_cnt
      → tb.cb_send.tot_el < fuel
      → (ps : List Packet) × (tb' : SockTb) × (send_loop junk fuel tb xmit_cnt ≡ some (ps, tb'))
        × Sent tb ps tb'
  unfolding get_total_elements
  send_loop-Sent zero tb xmit_cnt v c f = absurd (omega arith)
  send_loop-Sent (suc fuel) tb xmit_cnt v c f = elim (dec_lt 0 tb.cb_send.tot_el) [
    | no h ↦ (
      [],
      tb,
      send_loop-suc junk fuel tb xmit_cnt ∙ ground arith,
      nothing-Sent tb tb refl refl refl v,
    )
    | yes h ↦ elim (Bool-cases (stops (measured tb) (room tb) xmit_cnt)) [
      | inl e ↦ (
        [],
        measured tb,
        send_loop-suc junk fuel tb xmit_cnt ∙ ground (arith, get_send_size_lem tb v),
        nothing-Sent tb (measured tb) refl refl refl v,
      )
      | inr e ↦
          let pos = room-stops tb xmit_cnt c v e in
          let (p, tb₁, one, t) = send_one_cases junk tb v pos h in
          let (ps, tb', g, s) =
            send_loop-Sent fuel tb₁ (sub32 xmit_cnt 1) (turn-IsReady tb p tb₁ t v pos)
              (turn-Pace tb p tb₁ t v xmit_cnt c pos e) (omega (arith, t.left, t.count)) in
          (
            p ∷ ps,
            tb',
            send_loop-suc junk fuel tb xmit_cnt ∙ ground (arith, get_send_size_lem tb v, one, g),
            turn-Sent tb p tb₁ t v ps tb' (omega (arith, t.count)) pos s,
          )
    ]
  ]

  -- On a ready table (its send buffer valid, snd_una not ahead of snd_nxt, both far enough from the
  -- end of the sequence numbers) send ends without an abort: it takes a prefix out of the send
  -- buffer, in packets of one to SMSS bytes numbered without gaps from snd_nxt, moves snd_nxt behind
  -- them, keeps snd_una, and stays in the room that the window leaves.
  pub send-Sent :
      (tb : SockTb)
      → IsReady tb
      → (ps : List Packet) × (tb' : SockTb) × (send junk tb ≡ some (ps, tb')) × Sent tb ps tb'
  send-Sent tb v =
      let b = cal_num_caxmit_bounds (room tb) (omega (arith, v.far)) in
      let (ps, tb', g, s) =
        send_loop-Sent (tb.cb_send.tot_el + cal_num_caxmit (room tb) + 1) (measured tb)
          (cal_num_caxmit (room tb))
          (record { buffer = v.buffer; order = v.order; nxt_fits = v.nxt_fits; far = v.far })
          (λ _. (omega arith, b.1)) (omega arith) in
      (
        ps,
        tb',
        send_lem junk tb ∙ rw (get_send_size_lem tb v) g,
        record {
          bytes = s.bytes;
          chain = s.chain;
          next = s.next;
          inside = s.inside;
          una = s.una;
          buffer = s.buffer;
        },
      )
