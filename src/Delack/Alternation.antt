-- ===== src/Delack/Alternation.antt =====
-- The delayed acknowledgements of timer.cpp, timer_mng.cpp and processtou.cpp.
use tcpoudp.Prelude.{ℕ, ◌≤◌, ◌≡◌, ◌≢◌, refl, true, none, some, [], ◌∷◌, arith, length, ℕ_discrete}
use tcpoudp.Congestion.{ControlBlock}
use tcpoudp.Packet.{Header, Packet, new_sized, clean, put_header_seq}
use tcpoudp.Node.{Node}
use tcpoudp.Socket.{delack_xmit, delack_que}
use tcpoudp.Delack.{
  update_ack, update_ack_deque, ack_packet, Acknowledged, timer_id_delack, proc_delack,
}

-- What `proc_delack` leaves: it sends in every state but one, and the next state keeps it to every
-- second packet.
pub record Alternated (tc : ControlBlock) (r : Acknowledged) : Type 0 where
  pub waits :
      tc.t_delack_state ≡ delack_que
      → (r.sent ≡ none) × (r.tc ≡ record tc { t_delack_state = delack_xmit })
  pub acks :
      tc.t_delack_state ≢ delack_que
      → (p : Packet) × (r.sent ≡ some p)
        × (p.t.ack_seq ≡ tc.rcv_nxt)
        × (p.t.ack ≡ true)
        × (p.buf ≡ [])
        × (r.tc ≡ record tc { t_delack_state = delack_que })
  pub one : length r.deque ≡ 1

module _ (junk : Header) (old : Node) (fd st now : ℕ) (tc : ControlBlock) where
  -- Where the connection's node is alone in the deque and the state is one of the five, proc_delack
  -- acknowledges rcv_nxt at once in every state but TOUS_DELACK_QUE and goes there, and in that one
  -- sends nothing and goes to TOUS_DELACK_XMIT.
  pub proc_delack-Alternated :
      (n : Node)
      → n.c_id ≡ fd
      → n.t_id ≡ timer_id_delack
      → 1 ≤ tc.t_delack_state
      → tc.t_delack_state ≤ 5
      → (r : Acknowledged) × (proc_delack junk old fd st now tc (n ∷ []) ≡ some r) × Alternated tc r
  unfolding proc_delack update_ack_deque ack_packet put_header_seq clean new_sized
  proc_delack-Alternated n c t a b = elim (ℕ_discrete tc.t_delack_state delack_que) [
    | yes e ↦ (
      record {
        sent = none;
        deque = update_ack tc now n ∷ [];
        tc = record tc { t_delack_state = delack_xmit };
      },
      ground arith,
      record { waits = λ _. (refl, refl); acks = λ ne. absurd (ne e); one = refl },
    )
    | no ne ↦ (
      record {
        sent = some (ack_packet junk tc);
        deque = update_ack tc now n ∷ [];
        tc = record tc { t_delack_state = delack_que };
      },
      ground arith,
      record {
        waits = λ e. absurd (ne e);
        acks = λ _. (ack_packet junk tc, refl, refl, refl, refl, refl);
        one = refl;
      },
    )
  ]

  -- The first packet of a connection in the state TOUS_DELACK_QUE ends the program, for its node is
  -- missing and is added in no state but TOUS_DELACK_XMIT.
  pub proc_delack-exits :
      tc.t_delack_state ≡ delack_que → proc_delack junk old fd st now tc [] ≡ none
  unfolding proc_delack update_ack_deque
  proc_delack-exits h = ground arith
