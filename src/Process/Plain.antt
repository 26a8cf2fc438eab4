-- ===== src/Process/Plain.antt =====
-- The header of each packet that `send` of processtou.cpp makes.
use tcpoudp.Prelude.{
  ℕ, zero, suc, ◌<◌, ◌≡◌, refl, sym, subst, ◌∙◌, true, false, Option, none, some, List, [], ◌∷◌,
  half_word, if◌then◌else◌, lt_int, sub32, Holds, Holds-if, leb, length, word, arith, take,
}
use tcpoudp.Buffer.{get_total_elements}
use tcpoudp.Congestion.{smss, getwnd}
use tcpoudp.Packet.{Header, Packet, new_packet, put_header_seq, clear_flag}
use tcpoudp.Process.Turns.{send_loop-suc, send_lem}
use tcpoudp.Process.{send_turns, get_send_size, popsndq, gen_pkt, send_one, send_loop, send, stops}
use tcpoudp.Socket.{SockTb}

-- ACK is the only flag, `k` the acknowledgement, and the window what the memory held.
pub record IsPlain (junk : Header) (k : ℕ) (p : Packet) : Type 0 where
  pub ack : p.t.ack ≡ true
  pub syn : p.t.syn ≡ false
  pub fin : p.t.fin ≡ false
  pub whole : p.buflen ≡ length p.buf
  pub expects : p.t.ack_seq ≡ k
  pub magic : p.t.mag < word
  pub window : p.t.window ≡ junk.window

abbrev pub ArePlain : Header → ℕ → List Packet → Type 0
ArePlain junk k [] = Unit {0}
ArePlain junk k (p ∷ ps) = IsPlain junk k p × ArePlain junk k ps

get_send_size-rcv_nxt : (tb : SockTb) → (get_send_size tb).1.tc.rcv_nxt ≡ tb.tc.rcv_nxt
unfolding get_send_size getwnd
get_send_size-rcv_nxt tb = refl

popsndq-rcv_nxt : (tb : SockTb) (n : ℕ) → (popsndq tb n).2.tc.rcv_nxt ≡ tb.tc.rcv_nxt
unfolding popsndq
popsndq-rcv_nxt tb n = ground arith

module _ (junk : Header) where
  gen_pkt-IsPlain :
      (tb : SockTb) (s : List ℕ) (k : ℕ) → tb.tc.rcv_nxt ≡ k → IsPlain junk k (gen_pkt junk tb s)
  unfolding gen_pkt new_packet put_header_seq clear_flag
  gen_pkt-IsPlain tb s k e = record {
    ack = refl;
    syn = refl;
    fin = refl;
    whole = refl;
    expects = e;
    magic = omega arith;
    window = refl;
  }

  -- What a turn gives.
  abbrev One : ℕ → Packet × SockTb → Type 0
  One k r = IsPlain junk k r.0 × (r.1.tc.rcv_nxt ≡ k)

  abbrev pub All : ℕ → List Packet × SockTb → Type 0
  All k r = ArePlain junk k r.0 × (r.1.tc.rcv_nxt ≡ k)

  send_one-IsPlain :
      (tb : SockTb) (n k : ℕ) → tb.tc.rcv_nxt ≡ k → Holds (One k) (send_one junk tb n)
  unfolding send_one
  send_one-IsPlain tb n k e =
      let m = if lt_int n smss then n else smss in
      let r = popsndq tb m in
      let kept = popsndq-rcv_nxt tb m ∙ e in
      Holds-if (One k) (leb half_word r.0) none _ tt
        (gen_pkt-IsPlain r.2 (take r.0 r.1) k kept, kept)

  send_loop-IsPlain :
      (fuel : ℕ) (tb : SockTb) (x k : ℕ)
      → tb.tc.rcv_nxt ≡ k
      → Holds (All k) (send_loop junk fuel tb x)
  unfolding send_loop send_turns
  send_loop-IsPlain zero tb x k e = tt
  send_loop-IsPlain (suc fuel) tb x k e =
      let g = get_send_size tb in
      let kept = get_send_size-rcv_nxt tb ∙ e in
      subst (Holds (All k)) (sym (send_loop-suc junk fuel tb x)) (
        Holds-if (All k) (lt_int 0 (get_total_elements tb.cb_send)) _ _
          (Holds-if (All k) (stops g.1 g.0 x) _ _ (tt, kept)
            (turn (send_one junk g.1 g.0) (send_one-IsPlain g.1 g.0 k kept)
              (λ tb' e'. send_loop-IsPlain fuel tb' (sub32 x 1) k e')))
          (tt, e))
    where
      rest :
          (p : Packet) (o : Option (List Packet × SockTb))
          → IsPlain junk k p
          → Holds (All k) o
          → Holds (All k) (elim o [ none ↦ none | some (ps, tb₂) ↦ some (p ∷ ps, tb₂) ])
      rest p none h u = tt
      rest p (some (ps, tb₂)) h (u, e') = ((h, u), e')

      turn :
          (o : Option (Packet × SockTb))
          → Holds (One k) o
          → ((tb' : SockTb)
              → tb'.tc.rcv_nxt ≡ k
              → Holds (All k) (send_loop junk fuel tb' (sub32 x 1)))
          → Holds (All k) (elim o [
            | none ↦ none
            | some (p, tb') ↦ elim (send_loop junk fuel tb' (sub32 x 1)) [
              | none ↦ none
              | some (ps, tb₂) ↦ some (p ∷ ps, tb₂)
            ]
          ])
      turn none u ih = tt
      turn (some (p, tb')) (h, e') ih = rest p (send_loop junk fuel tb' (sub32 x 1)) h (ih tb' e')

  -- Every packet that send makes is plain, with the acknowledgement that the table expects, which
  -- stays.
  pub send-ArePlain : (tb : SockTb) → Holds (All tb.tc.rcv_nxt) (send junk tb)
  send-ArePlain tb =
      subst (Holds (All tb.tc.rcv_nxt)) (sym (send_lem junk tb))
        (send_loop-IsPlain _ _ _ tb.tc.rcv_nxt (get_send_size-rcv_nxt tb))
