-- ===== src/Run/Invariant.antt =====
-- The invariant that the rounds of `run` in processtou.cpp keep.
use tcpoudp.Prelude.{
  ℕ, zero, suc, ◌+◌, ◌*◌, ◌<◌, Option, none, some, length, arith, half_word, add32, Holds,
  Holds-bind, Holds-then,
}
use tcpoudp.Link.{Link, Env}
use tcpoudp.Packet.{Packet}
use tcpoudp.Process.{
  AckResult, bigger, equal, smaller, send, classify, proc_ack, putcircbuf, proc_pkt_rec,
}
use tcpoudp.Process
use tcpoudp.Process.Validity.{
  Good, runstate-IsValid, sockstate-IsValid, peer-IsValid, block-IsValid, rcv_nxt-IsValid,
  putcircbuf-IsValid, proc_ack-IsValid, proc_pkt_rec-IsValid, push_hp_recv_buf-IsValid,
}
use tcpoudp.Socket.{
  RunState, end_run, syn, fin, ack_without_data, match_expected, less_expected, more_expected,
  sendback_ack, no_sendback_ack, get_pkt, clear_get_pkt, pkt_recovery, put_dst, tous_syn_received,
  tous_close_wait, delack_immed, push_hp_recv_buf,
}
use tcpoudp.Run.Validity.{
  IsShort, IsValid, GoodNext, table-IsValid, on_match-IsValid, fetch_pkt-IsValid,
  on_sendback-IsValid, on_recovery-IsValid, on_ack_without_data-IsValid,
}
use tcpoudp.Run.{
  Next, goto, leave, outrun, on_match, on_more, after_data, on_syn, on_fin, step, Outcome, aborted,
  unfinished, returned, run_loop, run,
}

-- What a call that returns leaves is valid.
abbrev pub EndsValid : Outcome → Type 0
EndsValid aborted = Unit {0}
EndsValid unfinished = Unit {0}
EndsValid (returned r l) = IsValid l

module _ (env : Env) where
  end-IsValid : (l : Link) → IsValid l → Holds GoodNext (step env end_run l)
  unfolding step
  end-IsValid l v = Holds-then GoodNext l.tp _ (λ p. record { table = v.table; packet = tt })

  on_syn-IsValid : (p : Packet) (l : Link) → IsValid l → IsValid (on_syn p l)
  unfolding on_syn
  on_syn-IsValid p l v = table-IsValid l v _ (
      rcv_nxt-IsValid (record (put_dst l.peer l.tb) { sockstate = tous_syn_received })
        (sockstate-IsValid (put_dst l.peer l.tb) (peer-IsValid l.tb v.table l.peer)
          tous_syn_received)
        (add32 p.t.seq 1))

  on_more-IsValid :
      (p : Packet) (l : Link) → length p.buf < half_word → IsValid l → IsValid (on_more p l)
  unfolding on_more
  on_more-IsValid p l h v =
      let u = push_hp_recv_buf-IsValid l.tb v.table p h in
      table-IsValid l v _ (
        block-IsValid (push_hp_recv_buf l.tb p) u
          (record (push_hp_recv_buf l.tb p).tc { t_delack_state = delack_immed })
          (ground (arith, u.block)))

  -- The packet of a valid link, where there is one.
  short_packet : (l : Link) → IsValid l → Holds (λ (p : Packet). length p.buf < half_word) l.tp
  short_packet l v = short l.tp v.packet
    where
      short : (o : Option Packet) → IsShort o → Holds (λ (p : Packet). length p.buf < half_word) o
      short none h = tt
      short (some p) h = h

  step-IsValid : (s : RunState) (l : Link) → IsValid l → Holds GoodNext (step env s l)
  unfolding step after_data on_fin
  step-IsValid end_run l v = end-IsValid l v
  step-IsValid get_pkt l v = fetch_pkt-IsValid env l v
  step-IsValid clear_get_pkt l v = Holds-then GoodNext l.tp _ (λ p.
      fetch_pkt-IsValid env (record l { tp = none }) (record { table = v.table; packet = tt }))
  step-IsValid syn l v = Holds-then GoodNext l.tp _ (λ p. on_syn-IsValid p l v)
  step-IsValid fin l v = table-IsValid l v _ (sockstate-IsValid l.tb v.table tous_close_wait)
  step-IsValid ack_without_data l v = on_ack_without_data-IsValid env l v
  step-IsValid pkt_recovery l v = on_recovery-IsValid env l v
  step-IsValid match_expected l v =
      Holds-bind (λ (p : Packet). length p.buf < half_word) GoodNext l.tp _ (short_packet l v)
        (λ p h.
          Holds-bind IsValid GoodNext (on_match env p l) _ (on_match-IsValid env p l h v)
            (λ l' u. u))
  step-IsValid less_expected l v = v
  step-IsValid more_expected l v =
      Holds-bind (λ (p : Packet). length p.buf < half_word) GoodNext l.tp _ (short_packet l v)
        (λ p h. on_more-IsValid p l h v)
  step-IsValid sendback_ack l v = on_sendback-IsValid env l v
  step-IsValid no_sendback_ack l v = v

  run_loop-IsValid :
      (fuel : ℕ) (s : RunState) (l : Link) → IsValid l → EndsValid (run_loop env fuel s l)
  unfolding run_loop
  run_loop-IsValid zero s l v = tt
  run_loop-IsValid (suc fuel) s l v =
      ends (step env s l) (step-IsValid s l v) (λ s' l' u. run_loop-IsValid fuel s' l' u)
    where
      ends :
          (o : Option Next)
          → Holds GoodNext o
          → ((s' : RunState) (l' : Link) → IsValid l' → EndsValid (run_loop env fuel s' l'))
          → EndsValid (elim o [
            | none ↦ aborted
            | some (goto s' l') ↦ run_loop env fuel s' l'
            | some (leave r l') ↦ returned r l'
            | some outrun ↦ unfinished
          ])
      ends none u ih = tt
      ends (some (leave r l')) u ih = u
      ends (some outrun) u ih = tt
      ends (some (goto s' l')) u ih = ih s' l' u

  -- Whatever datagrams wait, a call of run on a valid table (both buffers and the congestion control
  -- valid, the payloads out of order fitting an int) that returns leaves a valid table, and no
  -- packet that is held.
  pub run-EndsValid : (l : Link) → Process.Validity.IsValid l.tb → EndsValid (run env l)
  unfolding run
  run-EndsValid l v =
      run_loop-IsValid (4 * length l.inbox + 5) l.tb.runstate (record l { tp = none; rv = 0 })
        (record { table = v; packet = tt })
