-- ===== src/Delack/Ready.antt =====
-- Why `processTou::proc_delack` of processtou.cpp does not reach its `exit`: the state and the deque of
-- nodes agree.
use tcpoudp.Prelude.{
  ℕ, ◌≤◌, ◌≡◌, refl, Bool, true, false, ◌||◌, none, some, List, [], ◌∷◌, arith, inl, inr,
  ℕ_discrete, Bool-cases,
}
use tcpoudp.Congestion.{ControlBlock}
use tcpoudp.Packet.{Header}
use tcpoudp.Node.{Node, new_ack}
use tcpoudp.Node
use tcpoudp.Socket.{delack_xmit, delack_que}
use tcpoudp.Delack.{
  update_ack, update_ack_deque, is_ack_node, ack_packet, Acknowledged, timer_id_delack, proc_delack,
}

-- The deque holds a node of the connection.
abbrev pub has_ack : ℕ → List Node → Bool
has_ack fd [] = false
has_ack fd (n ∷ ns) = is_ack_node fd timer_id_delack n || has_ack fd ns

-- The state is one of the five, and where the next acknowledgement is delayed there is a node for it.
pub record Delays (fd : ℕ) (tc : ControlBlock) (deque : List Node) : Type 0 where
  pub lo : 1 ≤ tc.t_delack_state
  pub hi : tc.t_delack_state ≤ 5
  pub node : tc.t_delack_state ≡ delack_que → has_ack fd deque ≡ true

module _ (old : Node) (fd st now : ℕ) (tc : ControlBlock) where
  update_ack_deque-xmit :
      (deque : List Node)
      → (d : List Node) × (update_ack_deque old fd timer_id_delack st delack_xmit tc now deque
          ≡ some d)
        × (has_ack fd d ≡ true)
  unfolding update_ack_deque update_ack new_ack Node.copy
  update_ack_deque-xmit [] = (_, refl, ground arith)
  update_ack_deque-xmit (n ∷ ns) =
      let (d, e, h) = update_ack_deque-xmit ns in
      elim (Bool-cases (is_ack_node fd timer_id_delack n)) [
        | inl b ↦ (update_ack tc now n ∷ ns, ground (arith, b), ground (arith, b))
        | inr b ↦ (n ∷ d, ground (arith, b, e), ground (arith, b, h))
      ]

  update_ack_deque-que :
      (deque : List Node)
      → has_ack fd deque ≡ true
      → (d : List Node) × (update_ack_deque old fd timer_id_delack st delack_que tc now deque
          ≡ some d)
        × (has_ack fd d ≡ true)
  unfolding update_ack_deque update_ack
  update_ack_deque-que [] f = absurd (ground arith)
  update_ack_deque-que (n ∷ ns) f = elim (Bool-cases (is_ack_node fd timer_id_delack n)) [
    | inl b ↦ (update_ack tc now n ∷ ns, ground (arith, b), ground (arith, b))
    | inr b ↦
        let (d, e, h) = update_ack_deque-que ns (ground (arith, b, f)) in
        (n ∷ d, ground (arith, b, e), ground (arith, b, h))
  ]

  -- What `proc_delack` leaves: another such state, and else the block as it was.
  pub record Delayed (r : Acknowledged) : Type 0 where
    pub again : Delays fd r.tc r.deque
    pub block : r.tc ≡ record tc { t_delack_state = r.tc.t_delack_state }

  pub proc_delack-Delayed :
      (junk : Header) (deque : List Node)
      → Delays fd tc deque
      → (r : Acknowledged) × (proc_delack junk old fd st now tc deque ≡ some r) × Delayed r
  unfolding proc_delack
  proc_delack-Delayed junk deque v = elim (ℕ_discrete tc.t_delack_state delack_que) [
    | yes q ↦
        let (d, e, h) = update_ack_deque-que deque (v.node q) in
        (
          record { sent = none; deque = d; tc = record tc { t_delack_state = delack_xmit } },
          ground (arith, q, e),
          record {
            again = record { lo = omega arith; hi = omega arith; node = λ w. h };
            block = refl;
          },
        )
    | no q ↦
        let (d, e, h) = update_ack_deque-xmit deque in
        (
          record {
            sent = some (ack_packet junk tc);
            deque = d;
            tc = record tc { t_delack_state = delack_que };
          },
          ground (arith, q, e, v.lo, v.hi),
          record {
            again = record { lo = omega arith; hi = omega arith; node = λ w. h };
            block = refl;
          },
        )
  ]
