-- ===== src/Run/Termination.antt =====
-- The loop of `run` in processtou.cpp ends: every round takes a datagram or leads on.
use tcpoudp.Prelude.{
  ℕ, zero, suc, ◌+◌, ◌*◌, ◌≤◌, ◌<◌, ◌≡◌, ◌≢◌, refl, sym, ap, Bool, true, false, Option, none, some,
  List, [], ◌∷◌, length, arith, inl, inr, ◌⊎◌, Holds, Holds-bind, Holds-then, Holds-if,
  if◌then◌else◌, take, ◌==◌, ◌&&◌, nonpositive, add32,
}
use tcpoudp.Link.{Arrival, Link, Env, timer_id_sndpkt, arm, send_link, transmit_some}
use tcpoudp.Packet.{Packet, parse}
use tcpoudp.Process.{
  AckResult, bigger, equal, smaller, send, classify, proc_ack, putcircbuf, proc_pkt_rec,
}
use tcpoudp.Process.Turns.{send_attempt-ends}
use tcpoudp.Socket.{
  RunState, end_run, syn, fin, ack_without_data, match_expected, less_expected, more_expected,
  sendback_ack, no_sendback_ack, get_pkt, clear_get_pkt, pkt_recovery, with_tc, ck_num_dupack,
}
use tcpoudp.Delack.{proc_delack}
use tcpoudp.Timer.{delete_timer, rexmit_for_dup_ack}
use tcpoudp.Run.{
  on_ack_result, recovered, answered, is_get_pkt, Next, goto, leave, outrun, recv_buf_size, recv_in,
  on_ack_without_data, run_recvfrom, fetch_pkt, on_dup_ack, rexmit_link, counted, on_ack, on_match,
  on_recovery, on_more, after_data, may_get, on_sendback, on_syn, on_fin, to_state, step, aborted,
  unfinished, returned, run_loop, run,
}

-- The rounds that a state may lead through with the datagram it has.
abbrev pub rank : RunState → ℕ
rank end_run = 0
rank syn = 1
rank fin = 1
rank ack_without_data = 1
rank match_expected = 4
rank less_expected = 2
rank more_expected = 3
rank sendback_ack = 2
rank no_sendback_ack = 2
rank get_pkt = 1
rank clear_get_pkt = 1
rank pkt_recovery = 3

pub rank_bound : (s : RunState) → rank s ≤ 4
rank_bound end_run = omega arith
rank_bound syn = omega arith
rank_bound fin = omega arith
rank_bound ack_without_data = omega arith
rank_bound match_expected = omega arith
rank_bound less_expected = omega arith
rank_bound more_expected = omega arith
rank_bound sendback_ack = omega arith
rank_bound no_sendback_ack = omega arith
rank_bound get_pkt = omega arith
rank_bound clear_get_pkt = omega arith
rank_bound pkt_recovery = omega arith

abbrev pub rounds : RunState → Link → ℕ
rounds s l = 4 * length l.inbox + rank s

-- The datagrams stay.
abbrev Keeps : Link → Link → Type 0
Keeps l l' = l'.inbox ≡ l.inbox

-- From `m` datagrams in a state of rank `k` the loop goes on with fewer rounds to come, or ends with
-- no more datagrams.
abbrev pub Shrinks : ℕ → ℕ → Next → Type 0
Shrinks m k (leave r l) = length l.inbox ≤ m
Shrinks m k (goto s l) = rounds s l < 4 * m + k
Shrinks m k outrun = ⊥

inbox-transmit_some : (p : Option Packet) (l : Link) → (transmit_some p l).inbox ≡ l.inbox
inbox-transmit_some none l = refl
inbox-transmit_some (some p) l = refl

module _ (env : Env) where
  inbox-arm : (ps : List Packet) (l : Link) → (arm env ps l).inbox ≡ l.inbox
  unfolding arm
  inbox-arm [] l = refl
  inbox-arm (p ∷ ps) l = inbox-arm ps _

  send_link-Keeps : (l : Link) → Holds (Keeps l) (send_link env l)
  unfolding send_link
  send_link-Keeps l = Holds-then (Keeps l) (send env.junk l.tb) _ (λ a. inbox-arm a.0 _)

  rexmit_link-Keeps : (p : Packet) (l : Link) → Holds (Keeps l) (rexmit_link env p l)
  unfolding rexmit_link
  rexmit_link-Keeps p l =
      Holds-then (Keeps l)
        (rexmit_for_dup_ack env.junk env.old env.now l.tb.tc l.tb.sockd timer_id_sndpkt p.t.ack_seq
          l.timerheap)
        _ (λ r. inbox-transmit_some r.sent _)

  on_dup_ack-Keeps : (p : Packet) (l : Link) → Holds (Keeps l) (on_dup_ack env p l)
  unfolding on_dup_ack
  on_dup_ack-Keeps p l =
      Holds-if (Keeps l) (ck_num_dupack (counted p l)) _ _
        (rexmit_link-Keeps p (record l { tb = counted p l })) refl

  on_ack_result-Keeps :
      (p : Packet) (r : AckResult) (l : Link) → Holds (Keeps l) (on_ack_result env p r l)
  unfolding on_ack_result
  on_ack_result-Keeps p bigger l =
      Holds-then (Keeps l)
        (delete_timer l.tb.sockd timer_id_sndpkt p.t.ack_seq env.now l.st l.timerheap l.tb.tc) _
        (λ a. refl)
  on_ack_result-Keeps p smaller l = refl
  on_ack_result-Keeps p equal l = on_dup_ack-Keeps p l

  on_ack-Keeps : (p : Packet) (l : Link) → Holds (Keeps l) (on_ack env p l)
  unfolding on_ack
  on_ack-Keeps p l = Holds-then (Keeps l) (proc_ack l.tb p) _ (λ a. on_ack_result-Keeps p a.0 _)

  on_match-Keeps : (p : Packet) (l : Link) → Holds (Keeps l) (on_match env p l)
  unfolding on_match
  on_match-Keeps p l =
      Holds-then (Keeps l)
        (putcircbuf env.malloc
          (with_tc (λ tc. record tc { rcv_nxt = add32 p.t.seq (length p.buf) }) l.tb) p.buf)
        _ (λ a. refl)

  -- A datagram is taken, or the function is left.
  abbrev pub Taken : List Arrival → Link → Type 0
  Taken waiting l' =
      ((nonpositive l'.rv ≡ true) × (length l'.inbox ≤ length waiting))
      ⊎ (length l'.inbox + 1 ≡ length waiting)

  pub recv_in-Taken :
      (l : Link) (waiting : List Arrival)
      → l.inbox ≡ waiting
      → Holds (Taken waiting) (recv_in env l waiting)
  unfolding recv_in
  recv_in-Taken l [] e = inl (refl, omega (arith, ap length e))
  recv_in-Taken l (a ∷ rest) e =
      Holds-if (Taken (a ∷ rest)) (length (take recv_buf_size a.content) == 0) _ _
        (inl (refl, omega arith))
        (Holds-then (Taken (a ∷ rest)) (parse env.junk (take recv_buf_size a.content)) _
          (λ p. inr (omega arith)))

  to_state-Shrinks : (n : ℕ) (l : Link) → length l.inbox + 1 ≡ n → Holds (Shrinks n 1) (to_state l)
  unfolding to_state
  to_state-Shrinks n l e =
      Holds-then (Shrinks n 1) l.tp _
        (λ p. Holds-then (Shrinks n 1) (classify l.tb p) _ (λ s. omega (arith, e, rank_bound s)))

  fetch_pkt-Shrinks : (l : Link) → Holds (Shrinks (length l.inbox) 1) (fetch_pkt env l)
  unfolding fetch_pkt run_recvfrom
  fetch_pkt-Shrinks l =
      Holds-bind (Taken l.inbox) (Shrinks (length l.inbox) 1) (recv_in env l l.inbox) _
        (recv_in-Taken l l.inbox refl)
        (λ l' t. elim t [
          | inl (e, k) ↦ rw e (omega (arith, k))
          | inr e ↦
              Holds-if (Shrinks (length l.inbox) 1) (nonpositive l'.rv) _ _ (omega (arith, e))
                (to_state-Shrinks (length l.inbox) l' e)
        ])

  may_go :
      (n : ℕ) (b : Bool) (l : Link)
      → n ≡ length l.inbox
      → Shrinks n 2 (goto (if b then clear_get_pkt else end_run) l)
  may_go n true l e = omega (arith, e)
  may_go n false l e = omega (arith, e)

  on_sendback-Shrinks : (l : Link) → Holds (Shrinks (length l.inbox) 2) (on_sendback env l)
  unfolding on_sendback after_data
  on_sendback-Shrinks l =
      Holds-then (Shrinks (length l.inbox) 2)
        (proc_delack env.junk env.old l.tb.sockd l.st env.now l.tb.tc l.ackdeque) _
        (λ a.
          may_go (length l.inbox) (may_get (answered a l) && is_get_pkt l.tb.runstate)
            (answered a l) (sym (ap length (inbox-transmit_some a.sent l))))

  recovers : (r : ℕ) (l : Link) → Shrinks (length l.inbox) 3 (recovered r l)
  recovers r l = ground arith

  on_recovery-Shrinks : (l : Link) → Holds (Shrinks (length l.inbox) 3) (on_recovery env l)
  unfolding on_recovery
  on_recovery-Shrinks l =
      Holds-then (Shrinks (length l.inbox) 3) (proc_pkt_rec env.malloc l.tb) _
        (λ a. recovers a.0 (record l { tb = a.1 }))

  on_ack_without_data-Shrinks :
      (l : Link) → Holds (Shrinks (length l.inbox) 1) (on_ack_without_data env l)
  unfolding on_ack_without_data
  on_ack_without_data-Shrinks l =
      let P = Shrinks (length l.inbox) 1 in
      Holds-then P l.tp _ (λ p.
        Holds-bind (Keeps l) P (on_ack env p l) _ (on_ack-Keeps p l) (λ l₁ k.
          rw (send_attempt-ends env.junk l₁.tb) (
            Holds-bind (Keeps l₁) P (send_link env l₁) _ (send_link-Keeps l₁)
              (λ l₂ k₂. omega (arith, ap length k, ap length k₂)))))

  pub step-Shrinks :
      (s : RunState) (l : Link) → Holds (Shrinks (length l.inbox) (rank s)) (step env s l)
  unfolding step after_data on_syn on_fin on_more
  step-Shrinks end_run l =
      Holds-then (Shrinks (length l.inbox) (rank end_run)) l.tp _ (λ p. omega arith)
  step-Shrinks get_pkt l = fetch_pkt-Shrinks l
  step-Shrinks clear_get_pkt l =
      Holds-then (Shrinks (length l.inbox) (rank clear_get_pkt)) l.tp _
        (λ p. fetch_pkt-Shrinks (record l { tp = none }))
  step-Shrinks syn l = Holds-then (Shrinks (length l.inbox) (rank syn)) l.tp _ (λ p. omega arith)
  step-Shrinks fin l = omega arith
  step-Shrinks ack_without_data l = on_ack_without_data-Shrinks l
  step-Shrinks pkt_recovery l = on_recovery-Shrinks l
  step-Shrinks match_expected l =
      let P = Shrinks (length l.inbox) (rank match_expected) in
      Holds-then P l.tp _ (λ p.
        Holds-bind (Keeps l) P (on_match env p l) _ (on_match-Keeps p l)
          (λ l' k. omega (arith, ap length k)))
  step-Shrinks less_expected l = may_go (length l.inbox) (may_get l) l refl
  step-Shrinks more_expected l =
      Holds-then (Shrinks (length l.inbox) (rank more_expected)) l.tp _ (λ p. omega arith)
  step-Shrinks sendback_ack l = on_sendback-Shrinks l
  step-Shrinks no_sendback_ack l = may_go (length l.inbox) _ l refl

  run_loop-ends :
      (fuel : ℕ) (s : RunState) (l : Link) → rounds s l < fuel → run_loop env fuel s l ≢ unfinished
  unfolding run_loop
  run_loop-ends zero s l h = absurd (omega arith)
  run_loop-ends (suc fuel) s l h =
      ends (step env s l) (step-Shrinks s l)
        (λ s' l' k. run_loop-ends fuel s' l' (omega (arith, k, h)))
    where
      ends :
          (o : Option Next)
          → Holds (Shrinks (length l.inbox) (rank s)) o
          → ((s' : RunState) (l' : Link)
              → rounds s' l' < rounds s l
              → run_loop env fuel s' l' ≢ unfinished)
          → elim o [
            | none ↦ aborted
            | some (goto s' l') ↦ run_loop env fuel s' l'
            | some (leave r l') ↦ returned r l'
            | some outrun ↦ unfinished
          ]
            ≢ unfinished
      ends none k ih = λ e. cc
      ends (some (leave r l')) k ih = λ e. cc
      ends (some outrun) k ih = absurd k
      ends (some (goto s' l')) k ih = ih s' l' k

  -- On every link a call of run ends: the state machine within four rounds for each datagram that
  -- waits and five more, and the loop of send within one turn for each byte stored and each packet
  -- that congestion avoidance allows, and one more.
  pub run-ends : (l : Link) → run env l ≢ unfinished
  unfolding run
  run-ends l =
      run_loop-ends (4 * length l.inbox + 5) l.tb.runstate (record l { tp = none; rv = 0 })
        (omega (arith, rank_bound l.tb.runstate))
