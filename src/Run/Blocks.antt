-- ===== src/Run/Blocks.antt =====
-- What the timers and the delayed acknowledgements leave of the congestion control in a call of `run` in
-- processtou.cpp, and what a datagram gives.
use tcpoudp.Prelude.{
  ℕ, ◌<◌, Option, none, some, List, length, arith, half_word, leb, ◌≤◌, ◌&&◌, length-drop, ◌==◌,
  Holds, Holds-if, ltb, Bool-cases, inl, inr,
}
use tcpoudp.Congestion.{ControlBlock, setdwnd}
use tcpoudp.Congestion
use tcpoudp.Congestion.Bounds.{setdwnd-IsValid}
use tcpoudp.Delack.{Acknowledged, proc_delack}
use tcpoudp.Link.{Env}
use tcpoudp.Node.{Node}
use tcpoudp.Packet.{header_size, Packet, Header, parse, parsed}
use tcpoudp.Socket.{delack_que}
use tcpoudp.Timer.{delete_timer, clear_acked_for, cal_rto, cal_rto_at}
use tcpoudp.Run.{recv_buf_size}

cal_rto-IsValid :
    (n : Node) (now : ℕ) (tc : ControlBlock)
    → Congestion.Bounds.IsValid tc
    → Congestion.Bounds.IsValid (cal_rto n now tc)
unfolding cal_rto
cal_rto-IsValid n now tc v = ground (arith, v)

cal_rto_at-IsValid :
    (st : ℕ) (n : Node) (now : ℕ) (tc : ControlBlock)
    → Congestion.Bounds.IsValid tc
    → Congestion.Bounds.IsValid (cal_rto_at st n now tc)
unfolding cal_rto_at
cal_rto_at-IsValid st n now tc v = elim (Bool-cases (n.st == st)) [
  | inl e ↦ rw e (cal_rto-IsValid n now tc v)
  | inr e ↦ rw e v
]

pub delete_timer-IsValid :
    (cid tid una now st : ℕ) (heap : List Node) (tc : ControlBlock)
    → Congestion.Bounds.IsValid tc
    → Holds
        (λ (r : List Node × ControlBlock). Congestion.Bounds.IsValid r.1)
        (delete_timer cid tid una now st heap tc)
unfolding delete_timer
delete_timer-IsValid cid tid una now st heap tc v = measured (clear_acked_for cid tid una heap)
  where
    measured :
        (o : Option (List Node × Option Node))
        → Holds
            (λ (r : List Node × ControlBlock). Congestion.Bounds.IsValid r.1)
            (elim o [
              | none ↦ none
              | some (heap', none) ↦ some (heap', tc)
              | some (heap', some n) ↦ some (heap', cal_rto_at st n now tc)
            ])
    measured none = tt
    measured (some (heap', none)) = v
    measured (some (heap', some n)) = cal_rto_at-IsValid st n now tc v

pub proc_delack-IsValid :
    (junk : Header) (old : Node) (fd st now : ℕ) (tc : ControlBlock) (deque : List Node)
    → Congestion.Bounds.IsValid tc
    → Holds
        (λ (a : Acknowledged). Congestion.Bounds.IsValid a.tc)
        (proc_delack junk old fd st now tc deque)
unfolding proc_delack
proc_delack-IsValid junk old fd st now tc deque v =
    let s = tc.t_delack_state in
    Holds-if Kept (s == delack_que) _ _ (kept _ _ (λ d. ground (arith, v)))
      (Holds-if Kept (leb 1 s && leb s 5) _ none (kept _ _ (λ d. ground (arith, v))) tt)
  where
    Kept : Acknowledged → Type 0
    Kept a = Congestion.Bounds.IsValid a.tc

    kept :
        (o : Option (List Node)) (f : List Node → Acknowledged)
        → ((d : List Node) → Kept (f d))
        → Holds Kept (elim o [ none ↦ none | some d ↦ some (f d) ])
    kept none f h = tt
    kept (some d) f h = h d

module _ (env : Env) where
  -- A payload is no longer than the text it is read from.
  pub parse-short :
      (c : List ℕ)
      → length c ≤ recv_buf_size
      → Holds (λ (p : Packet). length p.buf < half_word) (parse env.junk c)
  unfolding parse parsed
  parse-short c h =
      Holds-if (λ (p : Packet). length p.buf < half_word) (ltb (length c) header_size) none _ tt
        (omega (arith, h, length-drop header_size c))
