-- ===== src/Run/Validity.antt =====
-- What a call of `run` in processtou.cpp keeps of its table and its packet, and the operations that keep it.
use tcpoudp.Prelude.{
  ℕ, ◌<◌, Bool, true, false, Option, none, some, List, [], ◌∷◌, length, length-take, arith,
  half_word, take, ◌==◌, if◌then◌else◌, nonpositive, add32, Holds, Holds-bind, Holds-then, Holds-if,
  is_spin, is_spin,
}
use tcpoudp.Congestion.{ControlBlock, setdwnd}
use tcpoudp.Congestion
use tcpoudp.Congestion.Bounds.{setdwnd-IsValid}
use tcpoudp.Delack.{Acknowledged, proc_delack}
use tcpoudp.Link.{Arrival, Link, Env, timer_id_sndpkt, arm, send_link, transmit_some}
use tcpoudp.Node.{Node}
use tcpoudp.Packet.{Packet, parse}
use tcpoudp.Process.{
  send_attempt, AckResult, bigger, equal, smaller, send, classify, proc_ack, putcircbuf,
  proc_pkt_rec,
}
use tcpoudp.Process
use tcpoudp.Process.Validity.{
  Good, runstate-IsValid, sockstate-IsValid, peer-IsValid, block-IsValid, rcv_nxt-IsValid,
  putcircbuf-IsValid, proc_ack-IsValid, proc_pkt_rec-IsValid, push_hp_recv_buf-IsValid,
}
use tcpoudp.Process.Sends.{send-IsValid}
use tcpoudp.Socket.{RunState, SockTb, get_pkt, pkt_recovery, with_tc, ck_num_dupack}
use tcpoudp.Timer.{delete_timer, rexmit_for_dup_ack}
use tcpoudp.Run.Blocks.{delete_timer-IsValid, proc_delack-IsValid, parse-short}
use tcpoudp.Run.{
  on_ack_result, Next, goto, leave, outrun, recv_buf_size, recv_in, on_ack_without_data,
  run_recvfrom, fetch_pkt, on_dup_ack, rexmit_link, counted, on_ack, on_match, on_recovery,
  after_data, on_sendback, to_state,
}

abbrev pub IsShort : Option Packet → Type 0
IsShort none = Unit {0}
IsShort (some p) = length p.buf < half_word

-- The table is valid, and the packet's payload fits an `int`.
pub record IsValid (l : Link) : Type 0 where
  pub table : Process.Validity.IsValid l.tb
  pub packet : IsShort l.tp

abbrev pub GoodNext : Next → Type 0
GoodNext (goto s l) = IsValid l
GoodNext (leave r l) = IsValid l
GoodNext outrun = Unit {0}

module _ (l : Link) (v : IsValid l) where
  pub table-IsValid : (tb : SockTb) → Process.Validity.IsValid tb → IsValid (record l { tb = tb })
  table-IsValid tb u = record { table = u; packet = v.packet }

  IsValid-transmit_some : (p : Option Packet) → IsValid (transmit_some p l)
  IsValid-transmit_some none = v
  IsValid-transmit_some (some p) = record { table = v.table; packet = v.packet }

module _ (env : Env) where
  IsValid-arm : (ps : List Packet) (l : Link) → IsValid l → IsValid (arm env ps l)
  unfolding arm
  IsValid-arm [] l v = v
  IsValid-arm (p ∷ ps) l v = IsValid-arm ps _ (record { table = v.table; packet = v.packet })

  send_link-IsValid : (l : Link) → IsValid l → Holds IsValid (send_link env l)
  unfolding send_link
  send_link-IsValid l v =
      Holds-bind Good IsValid (send env.junk l.tb) _ (send-IsValid env.junk l.tb v.table)
        (λ r u. IsValid-arm r.0 _ (table-IsValid l v r.1 u))

  rexmit_link-IsValid : (p : Packet) (l : Link) → IsValid l → Holds IsValid (rexmit_link env p l)
  unfolding rexmit_link
  rexmit_link-IsValid p l v =
      Holds-then IsValid
        (rexmit_for_dup_ack env.junk env.old env.now l.tb.tc l.tb.sockd timer_id_sndpkt p.t.ack_seq
          l.timerheap)
        _
        (λ r.
          IsValid-transmit_some (record l { timerheap = r.heap })
            (record { table = v.table; packet = v.packet }) r.sent)

  on_dup_ack-IsValid : (p : Packet) (l : Link) → IsValid l → Holds IsValid (on_dup_ack env p l)
  unfolding on_dup_ack
  on_dup_ack-IsValid p l v =
      let u = table-IsValid l v (counted p l) (
        block-IsValid l.tb v.table (setdwnd l.tb.tc p.t.ack_seq).1
          (setdwnd-IsValid l.tb.tc v.table.block p.t.ack_seq).1) in
      Holds-if IsValid (ck_num_dupack (counted p l)) _ _
        (rexmit_link-IsValid p (record l { tb = counted p l }) u) u

  on_ack_result-IsValid :
      (p : Packet) (r : AckResult) (l : Link) → IsValid l → Holds IsValid (on_ack_result env p r l)
  unfolding on_ack_result
  on_ack_result-IsValid p bigger l v =
      Holds-bind (λ (r : List Node × ControlBlock). Congestion.Bounds.IsValid r.1) IsValid
        (delete_timer l.tb.sockd timer_id_sndpkt p.t.ack_seq env.now l.st l.timerheap l.tb.tc) _
        (delete_timer-IsValid l.tb.sockd timer_id_sndpkt p.t.ack_seq env.now l.st l.timerheap
          l.tb.tc v.table.block)
        (λ r u. record { table = block-IsValid l.tb v.table r.1 u; packet = v.packet })
  on_ack_result-IsValid p smaller l v = v
  on_ack_result-IsValid p equal l v = on_dup_ack-IsValid p l v

  on_ack-IsValid : (p : Packet) (l : Link) → IsValid l → Holds IsValid (on_ack env p l)
  unfolding on_ack
  on_ack-IsValid p l v =
      Holds-bind (Good {A = AckResult}) IsValid (proc_ack l.tb p) _
        (proc_ack-IsValid l.tb v.table p)
        (λ r u. on_ack_result-IsValid p r.0 (record l { tb = r.1 }) (table-IsValid l v r.1 u))

  pub on_match-IsValid :
      (p : Packet) (l : Link)
      → length p.buf < half_word
      → IsValid l
      → Holds IsValid (on_match env p l)
  unfolding on_match
  on_match-IsValid p l h v =
      let tb = with_tc (λ tc. record tc { rcv_nxt = add32 p.t.seq (length p.buf) }) l.tb in
      Holds-bind (Good {A = ℕ}) IsValid (putcircbuf env.malloc tb p.buf) _
        (putcircbuf-IsValid tb (rcv_nxt-IsValid l.tb v.table _) env.malloc p.buf h)
        (λ r u. table-IsValid l v r.1 u)

  recv_in-IsValid :
      (l : Link) (waiting : List Arrival) → IsValid l → Holds IsValid (recv_in env l waiting)
  unfolding recv_in
  recv_in-IsValid l [] v = record { table = v.table; packet = v.packet }
  recv_in-IsValid l (a ∷ rest) v =
      Holds-if IsValid (length (take recv_buf_size a.content) == 0) _ _
        (record { table = v.table; packet = v.packet })
        (Holds-bind (λ (p : Packet). length p.buf < half_word) IsValid
          (parse env.junk (take recv_buf_size a.content)) _
          (parse-short env (take recv_buf_size a.content)
            (omega (arith, length-take recv_buf_size a.content)))
          (λ p h. record { table = v.table; packet = h }))

  to_state-IsValid : (l : Link) → IsValid l → Holds GoodNext (to_state l)
  unfolding to_state
  to_state-IsValid l v =
      Holds-then GoodNext l.tp _ (λ p. Holds-then GoodNext (classify l.tb p) _ (λ s. v))

  pub fetch_pkt-IsValid : (l : Link) → IsValid l → Holds GoodNext (fetch_pkt env l)
  unfolding fetch_pkt run_recvfrom
  fetch_pkt-IsValid l v =
      Holds-bind IsValid GoodNext (recv_in env l l.inbox) _ (recv_in-IsValid l l.inbox v)
        (λ l' u. Holds-if GoodNext (nonpositive l'.rv) _ _ u (to_state-IsValid l' u))

  pub on_sendback-IsValid : (l : Link) → IsValid l → Holds GoodNext (on_sendback env l)
  unfolding on_sendback after_data
  on_sendback-IsValid l v =
      Holds-bind (λ (a : Acknowledged). Congestion.Bounds.IsValid a.tc) GoodNext
        (proc_delack env.junk env.old l.tb.sockd l.st env.now l.tb.tc l.ackdeque) _
        (proc_delack-IsValid env.junk env.old l.tb.sockd l.st env.now l.tb.tc l.ackdeque
          v.table.block)
        (λ a u. record {
          table = block-IsValid l.tb v.table a.tc u;
          packet = (IsValid-transmit_some l v a.sent).packet;
        })

  recovered-IsValid :
      (b : Bool) (x y : Next) → GoodNext x → GoodNext y → GoodNext (if b then x else y)
  recovered-IsValid true x y p q = p
  recovered-IsValid false x y p q = q

  pub on_recovery-IsValid : (l : Link) → IsValid l → Holds GoodNext (on_recovery env l)
  unfolding on_recovery
  on_recovery-IsValid l v =
      Holds-bind (Good {A = ℕ}) GoodNext (proc_pkt_rec env.malloc l.tb) _
        (proc_pkt_rec-IsValid env.malloc l.tb v.table)
        (λ r u. recovered-IsValid (r.0 == 0) _ _ (moved r.1 get_pkt u) (moved r.1 pkt_recovery u))
    where
      moved :
          (tb : SockTb) (s : RunState)
          → Process.Validity.IsValid tb
          → IsValid (record l { tb = record tb { runstate = s } })
      moved tb s u = record { table = runstate-IsValid tb u s; packet = v.packet }

  pub on_ack_without_data-IsValid :
      (l : Link) → IsValid l → Holds GoodNext (on_ack_without_data env l)
  unfolding on_ack_without_data
  on_ack_without_data-IsValid l v = Holds-then GoodNext l.tp _ (λ p.
      Holds-bind IsValid GoodNext (on_ack env p l) _ (on_ack-IsValid p l v) (λ l₁ v₁.
        Holds-if GoodNext (is_spin (send_attempt env.junk l₁.tb)) _ _ tt (
          Holds-bind IsValid GoodNext (send_link env l₁) _ (send_link-IsValid l₁ v₁)
            (λ l₂ v₂. v₂))))
