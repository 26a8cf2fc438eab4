-- ===== src/Congestion/Episode.antt =====
-- A whole fast recovery of tou_ss_ca.cpp, from the first repeated acknowledgement to the new one.
use tcpoudp.Prelude.{
  ℕ, zero, suc, ◌+◌, ◌*◌, ◌/◌, ◌≡◌, refl, ap, ◌∙◌, some, List, [], ◌∷◌, ◌++◌, replicate, arith, max,
  min,
}
use tcpoudp.Congestion.{
  CcState, ca, fr, ControlBlock, smss, max_wnd, addwnd_in, addwnd, setdwnd_in, setdwnd, inflate,
  count_dup,
}
use tcpoudp.Congestion.Bounds.{IsValid, Event, dup_ack, new_ack, step, run}
use tcpoudp.Congestion.Recovery.{IsOpen, setdwnd_counts, setdwnd_enters}

abbrev recovered : ControlBlock → ControlBlock
recovered tc = record tc { cc_state = ca; snd_cwnd = min tc.snd_ssthresh max_wnd; dupackcount = 0 }

advance :
    (tc tc' : ControlBlock) (n : ℕ) (es : List Event)
    → setdwnd tc n ≡ (0, tc')
    → run tc (dup_ack n ∷ es) ≡ run tc' es
unfolding run step
advance tc tc' n es e = ap (λ (r : ℕ × ControlBlock). run r.1 es) e

-- In fast retransmit the window swells, and the new acknowledgement forgets it.
leave_fr :
    (k n : ℕ) (tc : ControlBlock)
    → tc.cc_state ≡ fr
    → run tc (replicate k (dup_ack n) ++ (new_ack ∷ [])) ≡ some (recovered tc)
unfolding run step addwnd addwnd_in setdwnd setdwnd_in inflate count_dup
leave_fr zero n tc e = ground arith
leave_fr (suc k) n tc e =
    advance tc (inflate (count_dup tc n)) n (replicate k (dup_ack n) ++ (new_ack ∷ []))
      (ap (λ (s : CcState). setdwnd_in s tc n) e)
    ∙ leave_fr k n (inflate (count_dup tc n)) e

-- On a valid block in slow start or congestion avoidance that counted no repeated acknowledgement,
-- three of snd_una, any number more, and a new acknowledgement lead to congestion avoidance with
-- half the window (two segments at least) as threshold and as window, up to half the buffer.
pub run-recovers :
    (k : ℕ) (tc : ControlBlock)
    → IsOpen tc.cc_state
    → IsValid tc
    → tc.dupackcount ≡ 0
    → run tc (replicate (suc (suc (suc k))) (dup_ack tc.snd_una) ++ (new_ack ∷ []))
      ≡ some (record tc {
        cc_state = ca;
        dupackcount = 0;
        snd_ssthresh = max (tc.snd_cwnd / 2) (2 * smss);
        snd_cwnd = min (max (tc.snd_cwnd / 2) (2 * smss)) max_wnd;
      })
unfolding run step
run-recovers k tc o v z =
    let n = tc.snd_una in
    let es = replicate k (dup_ack n) ++ (new_ack ∷ []) in
    let tc₁ = record tc { dupackcount = tc.dupackcount + 1 } in
    let tc₂ = record tc { dupackcount = tc.dupackcount + 1 + 1 } in
    let half = max (tc.snd_cwnd / 2) (2 * smss) in
    let tc₃ = record tc {
      cc_state = fr;
      dupackcount = 3;
      snd_ssthresh = half;
      snd_cwnd = half + 3 * smss;
    } in
    advance tc tc₁ n (dup_ack n ∷ dup_ack n ∷ es) (setdwnd_counts tc o (omega arith))
    ∙ advance tc₁ tc₂ n (dup_ack n ∷ es) (setdwnd_counts tc₁ o (omega arith))
    ∙ advance tc₂ tc₃ n es (setdwnd_enters tc₂ o (ground (arith, v)) (omega arith))
    ∙ leave_fr k n tc₃ refl
