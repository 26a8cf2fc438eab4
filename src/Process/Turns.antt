-- ===== src/Process/Turns.antt =====
-- The loop of `send` in processtou.cpp, turn by turn: what it gives, and that it ends.
use tcpoudp.Prelude.{
  ℕ, zero, suc, ◌+◌, ◌<◌, ◌≤◌, ◌≡◌, refl, sym, ap, subst, ◌∙◌, true, false, Option, none, some,
  List, [], ◌∷◌, lt_int, sub32, if◌then◌else◌, arith, inl, inr, Bool-cases, ltb, word, half_word,
  Attempt, aborts, spins, gives, given, given-if, is_spin, Holds, Holds-if, leb,
}
use tcpoudp.Buffer.{CircularBuffer, get_at, fetch, fetch_parts, remove, get_total_elements}
use tcpoudp.Congestion.{ControlBlock, smss, getwnd}
use tcpoudp.Packet.{Header, Packet}
use tcpoudp.Process.{
  get_send_size, popsndq, send_one, send_turns, send_loop, send_attempt, send, stops, ahead, in_ca,
  cal_num_caxmit, min_send_size,
}
use tcpoudp.Socket.{SockTb}

module _ (junk : Header) where
  -- The loop without the fuel's end: a turn, and the others.
  pub send_loop-suc :
      (fuel : ℕ) (tb : SockTb) (x : ℕ)
      → send_loop junk (suc fuel) tb x ≡ (
          let g = get_send_size tb in
          if lt_int 0 (get_total_elements tb.cb_send)
          then (if stops g.1 g.0 x then some ([], g.1) else elim (send_one junk g.1 g.0) [
            | none ↦ none
            | some (p, tb') ↦ elim (send_loop junk fuel tb' (sub32 x 1)) [
              | none ↦ none
              | some (ps, tb₂) ↦ some (p ∷ ps, tb₂)
            ]
          ])
          else some ([], tb))
  unfolding send_loop send_turns ahead
  send_loop-suc fuel tb x =
      let g = get_send_size tb in
      given-if (lt_int 0 (get_total_elements tb.cb_send)) _ _
      ∙ ap
          (λ (o : Option (List Packet × SockTb)).
            if lt_int 0 (get_total_elements tb.cb_send) then o else some ([], tb))
          (given-if (stops g.1 g.0 x) _ _
            ∙ ap
                (λ (o : Option (List Packet × SockTb)).
                  if stops g.1 g.0 x then some ([], g.1) else o)
                (turn (send_one junk g.1 g.0)))
    where
      rest :
          (p : Packet) (o : Attempt (List Packet × SockTb))
          → given (ahead p o) ≡ elim (given o) [ none ↦ none | some (ps, tb₂) ↦ some (p ∷ ps, tb₂) ]
      rest p aborts = refl
      rest p spins = refl
      rest p (gives (ps, tb₂)) = refl

      turn :
          (o : Option (Packet × SockTb))
          → given (elim o [
            | none ↦ aborts
            | some (p, tb') ↦ ahead p (send_turns junk fuel tb' (sub32 x 1))
          ])
            ≡ elim o [
              | none ↦ none
              | some (p, tb') ↦ elim (given (send_turns junk fuel tb' (sub32 x 1))) [
                | none ↦ none
                | some (ps, tb₂) ↦ some (p ∷ ps, tb₂)
              ]
            ]
      turn none = refl
      turn (some (p, tb')) = rest p (send_turns junk fuel tb' (sub32 x 1))

-- A turn takes a byte out of the buffer, and leaves the state of the congestion control.
record Taken (tb : SockTb) (tb' : SockTb) : Type 0 where
  state : in_ca tb'.tc.cc_state ≡ in_ca tb.tc.cc_state
  bytes : in_ca tb.tc.cc_state ≡ false → tb'.cb_send.tot_el < tb.cb_send.tot_el

-- The fuel is enough: above the packets to come in congestion avoidance, above the bytes else.
record IsEnough (fuel : ℕ) (tb : SockTb) (xmit_cnt : ℕ) : Type 0 where
  paced : in_ca tb.tc.cc_state ≡ true → xmit_cnt < fuel
  unpaced : in_ca tb.tc.cc_state ≡ false → tb.cb_send.tot_el < fuel

ret-get_at :
    (c : CircularBuffer) (n : ℕ)
    → 0 < n
    → n < half_word
    → 0 < c.tot_el
    → (get_at c n).ret ≡ (if ltb c.tot_el n then c.tot_el else n)
unfolding get_at fetch fetch_parts
ret-get_at c n h k s = ground arith

tot_el-remove :
    (c : CircularBuffer) (n : ℕ)
    → 0 < n
    → n < half_word
    → n ≤ c.tot_el
    → (remove c n).1.tot_el < c.tot_el
unfolding remove
tot_el-remove c n h k s = ground arith

tot_el-popsndq :
    (tb : SockTb) (n : ℕ)
    → 0 < n
    → n < half_word
    → 0 < tb.cb_send.tot_el
    → (popsndq tb n).2.cb_send.tot_el < tb.cb_send.tot_el
unfolding popsndq
tot_el-popsndq tb n h k s =
    let m : ℕ = if ltb tb.cb_send.tot_el n then tb.cb_send.tot_el else n in
    let small : (0 < m) × (m < half_word) × (m ≤ tb.cb_send.tot_el) = ground arith in
    rw (ret-get_at tb.cb_send n h k s)
      (ground (arith, tot_el-remove tb.cb_send m small.0 small.1 small.2))

get_send_size_bound : (tb : SockTb) → (get_send_size tb).0 < word
unfolding get_send_size
get_send_size_bound tb = ground arith

popsndq-tc : (tb : SockTb) (n : ℕ) → (popsndq tb n).2.tc ≡ tb.tc
unfolding popsndq
popsndq-tc tb n = ground arith

-- The bytes of a turn outside congestion avoidance.
segment :
    (size : ℕ)
    → size < word
    → lt_int size min_send_size ≡ false
    → (0 < (if lt_int size smss then size else smss))
      × ((if lt_int size smss then size else smss) < half_word)
segment size b e = ground arith

module _ (junk : Header) where
  send_one-Taken :
      (tb : SockTb) (size : ℕ)
      → size < word
      → 0 < tb.cb_send.tot_el
      → (in_ca tb.tc.cc_state ≡ false → lt_int size min_send_size ≡ false)
      → Holds (λ r. Taken tb r.1) (send_one junk tb size)
  unfolding send_one
  send_one-Taken tb size b s f =
      let n : ℕ = if lt_int size smss then size else smss in
      Holds-if (λ (r : Packet × SockTb). Taken tb r.1) (leb half_word (popsndq tb n).0) none _ tt
        (record {
          state = ap (λ (tc : ControlBlock). in_ca tc.cc_state) (popsndq-tc tb n);
          bytes = λ e. let (p, q) = segment size b (f e) in tot_el-popsndq tb n p q s;
        })

  is_spin-ahead :
      (p : Packet) (o : Attempt (List Packet × SockTb))
      → is_spin o ≡ false
      → is_spin (ahead p o) ≡ false
  unfolding ahead
  is_spin-ahead p aborts e = refl
  is_spin-ahead p spins e = e
  is_spin-ahead p (gives (ps, tb)) e = refl

  stored : (k : ℕ) → lt_int 0 k ≡ true → 0 < k
  stored k e = ground arith

  -- What is left of the fuel after a turn is enough.
  IsEnough-turn :
      (fuel : ℕ) (tb tb' : SockTb) (size x : ℕ)
      → IsEnough (suc fuel) tb x
      → stops tb size x ≡ false
      → Taken tb tb'
      → IsEnough fuel tb' (sub32 x 1)
  IsEnough-turn fuel tb tb' size x f e t = record {
    paced = λ q.
        let q' : in_ca tb.tc.cc_state ≡ true = sym t.state ∙ q in ground (arith, f.paced q', q');
    unpaced = λ q.
        let q' : in_ca tb.tc.cc_state ≡ false = sym t.state ∙ q in
        omega (arith, f.unpaced q', t.bytes q');
  }

  full_size :
      (tb : SockTb) (size x : ℕ)
      → stops tb size x ≡ false
      → in_ca tb.tc.cc_state ≡ false
      → lt_int size min_send_size ≡ false
  full_size tb size x e q = ground (arith, q)

  measured-IsEnough :
      (fuel x : ℕ) (tb : SockTb) → IsEnough fuel tb x → IsEnough fuel (get_send_size tb).1 x
  unfolding get_send_size getwnd
  measured-IsEnough fuel x tb f = record { paced = f.paced; unpaced = f.unpaced }

  tot_el-measured : (tb : SockTb) → (get_send_size tb).1.cb_send ≡ tb.cb_send
  unfolding get_send_size
  tot_el-measured tb = refl

  -- With enough fuel the loop does not come to its end.
  send_turns-ends :
      (fuel : ℕ) (tb : SockTb) (x : ℕ)
      → IsEnough fuel tb x
      → is_spin (send_turns junk fuel tb x) ≡ false
  unfolding send_turns get_total_elements
  send_turns-ends zero tb x f = elim (Bool-cases (in_ca tb.tc.cc_state)) [
    | inl e ↦ absurd (omega (arith, f.paced e))
    | inr e ↦ absurd (omega (arith, f.unpaced e))
  ]
  send_turns-ends (suc fuel) tb x f =
      let g = get_send_size tb in
      elim (Bool-cases (lt_int 0 tb.cb_send.tot_el)) [
        | inr e ↦ rw e refl
        | inl e ↦ elim (Bool-cases (stops g.1 g.0 x)) [
          | inl q ↦ rw (e, q) refl
          | inr q ↦
              rw (e, q)
                (turn (send_one junk g.1 g.0)
                  (send_one-Taken g.1 g.0 (get_send_size_bound tb)
                    (subst (λ (c : CircularBuffer). 0 < c.tot_el) (sym (tot_el-measured tb))
                      (stored tb.cb_send.tot_el e))
                    (full_size g.1 g.0 x q))
                  (λ tb' t.
                    send_turns-ends fuel tb' (sub32 x 1)
                      (IsEnough-turn fuel g.1 tb' g.0 x (measured-IsEnough (suc fuel) x tb f) q t)))
        ]
      ]
    where
      turn :
          (o : Option (Packet × SockTb))
          → Holds (λ r. Taken (get_send_size tb).1 r.1) o
          → ((tb' : SockTb)
              → Taken (get_send_size tb).1 tb'
              → is_spin (send_turns junk fuel tb' (sub32 x 1)) ≡ false)
          → is_spin (elim o [
            | none ↦ aborts
            | some (p, tb') ↦ ahead p (send_turns junk fuel tb' (sub32 x 1))
          ])
            ≡ false
      turn none t ih = refl
      turn (some (p, tb')) t ih = is_spin-ahead p (send_turns junk fuel tb' (sub32 x 1)) (ih tb' t)

  pub send_lem :
      (tb : SockTb)
      → send junk tb ≡ (
          let g = get_send_size tb in
          send_loop junk (g.1.cb_send.tot_el + cal_num_caxmit g.0 + 1) g.1 (cal_num_caxmit g.0))
  unfolding send send_attempt send_loop
  send_lem tb = refl

  -- On every table a call of send ends.
  pub send_attempt-ends : (tb : SockTb) → is_spin (send_attempt junk tb) ≡ false
  unfolding send_attempt
  send_attempt-ends tb =
      send_turns-ends _ (get_send_size tb).1 (cal_num_caxmit (get_send_size tb).0)
        (record { paced = λ e. omega arith; unpaced = λ e. omega arith })
