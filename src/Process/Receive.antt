-- ===== src/Process/Receive.antt =====
-- The receiving side of processtou.cpp: which state a packet leads to, and what an acknowledgement does.
use tcpoudp.Prelude.{
  ℕ, ◌+◌, ◌*◌, ◌%◌, ◌≤◌, ◌<◌, ◌≡◌, ◌≢◌, true, false, none, some, length, arith, half_word, ◌⊎◌, inl,
  inr,
}
use tcpoudp.Congestion.{smss}
use tcpoudp.Packet.{Packet}
use tcpoudp.Socket.{
  SockTb, ack_without_data, match_expected, less_expected, more_expected, tous_established,
}
use tcpoudp.Process.{cal_num_caxmit, classify}

-- For a size that is not negative as an int, the number of packets for congestion avoidance is even,
-- and their bytes are within one segment of the size.
pub cal_num_caxmit_bounds :
    (size : ℕ)
    → size < half_word
    → (cal_num_caxmit size % 2 ≡ 0)
      × (cal_num_caxmit size * smss < size + smss)
      × (size ≤ cal_num_caxmit size * smss + smss)
unfolding cal_num_caxmit
cal_num_caxmit_bounds size h = ground arith

-- The packets that end the program: neither SYN nor FIN, and no acknowledgement on an established
-- connection, or an empty one of something not sent yet.
abbrev pub Unexpected : SockTb → Packet → Type 0
Unexpected tb p =
    (p.t.ack ≡ false)
    ⊎ ((tb.sockstate ≢ tous_established) ⊎ ((length p.buf ≡ 0) × (tb.tc.snd_nxt < p.t.ack_seq)))

module _ (tb : SockTb) (p : Packet) (no_syn : p.t.syn ≡ false) (no_fin : p.t.fin ≡ false) where
  -- On a packet that is neither SYN nor FIN and has no ACK, or reaches a connection that is not
  -- established, or is empty and acknowledges what was not sent, processGetPktState ends the
  -- program.
  pub classify-exits : Unexpected tb p → classify tb p ≡ none
  unfolding classify
  classify-exits (inl h) = ground arith
  classify-exits (inr (inl h)) = ground arith
  classify-exits (inr (inr h)) = ground arith

  -- On an established connection a packet with ACK and neither SYN nor FIN leads, empty and of what
  -- was sent, to the state of acknowledgements, and with data to the state given by its place
  -- against rcv_nxt.
  pub classify_lem :
      p.t.ack ≡ true
      → tb.sockstate ≡ tous_established
      → ((length p.buf ≡ 0) → p.t.ack_seq ≤ tb.tc.snd_nxt → classify tb p ≡ some ack_without_data)
        × (0 < length p.buf
            → ((classify tb p ≡ some match_expected) × (p.t.seq ≡ tb.tc.rcv_nxt))
              ⊎ (((classify tb p ≡ some less_expected) × (p.t.seq < tb.tc.rcv_nxt))
                  ⊎ ((classify tb p ≡ some more_expected) × (tb.tc.rcv_nxt < p.t.seq))))
  unfolding classify
  classify_lem a e = ((λ l h. ground arith), (λ l. ground arith))
