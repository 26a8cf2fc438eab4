-- ===== src/Timer/Payload.antt =====
-- The packet that a timer node sends again, by timer.cpp and timer_node.cpp.
use tcpoudp.Prelude.{
  ℕ, ◌+◌, ◌≤◌, ◌<◌, ◌≡◌, refl, true, some, List, [], ◌∷◌, arith, length, word, add32,
}
use tcpoudp.Congestion.{ControlBlock}
use tcpoudp.Packet.{Header, Packet, new_packet, put_header_seq}
use tcpoudp.Node.{Node, until_nul, new_data}
use tcpoudp.Node
use tcpoudp.Timer.{sendpkt}

-- No byte is 0.
abbrev pub HasNoNul : List ℕ → Type 0
HasNoNul [] = Unit {0}
HasNoNul (x ∷ xs) = (0 < x) × HasNoNul xs

until_nul_all : (xs : List ℕ) → HasNoNul xs → until_nul xs ≡ xs
until_nul_all [] h = refl
until_nul_all (x ∷ xs) (p, h) = ground (arith, until_nul_all xs h)

module _ (junk : Header) (old : Node) (cid tid seq st now rto : ℕ) (tc : ControlBlock) where
  -- The node that the heap stores for the packet whose first byte is `seq`.
  abbrev pub stored : List ℕ → Node
  stored b = Node.copy (new_data old cid tid (add32 seq (length b)) st b now rto)

  -- A packet of at most 1456 bytes, none of them 0, with a sequence number of 32 bits, is sent again
  -- from its timer node, which is a copy, with the sequence number and the bytes it had and the
  -- current rcv_nxt.
  pub sendpkt-new_data :
      (b : List ℕ)
      → HasNoNul b
      → seq < word
      → length b ≤ 1456
      → (p : Packet) × (sendpkt junk (stored b) tc ≡ some p)
        × (p.t.seq ≡ seq)
        × (p.buf ≡ b)
        × (p.t.ack_seq ≡ tc.rcv_nxt)
        × (p.t.ack ≡ true)
  unfolding sendpkt new_data Node.copy new_packet put_header_seq
  sendpkt-new_data b h s l =
      (_, refl, ground (arith, until_nul_all b h), until_nul_all b h, refl, refl)

  -- A packet of at most 1456 bytes that starts with a byte 0, with a sequence number of 32 bits, is
  -- sent again from its timer node without its bytes, with the sequence number of its end.
  pub sendpkt-nul :
      (b : List ℕ)
      → seq < word
      → length b ≤ 1455
      → (p : Packet) × (sendpkt junk (stored (0 ∷ b)) tc ≡ some p)
        × (p.buf ≡ [])
        × (p.t.seq ≡ add32 seq (length b + 1))
  unfolding sendpkt new_data Node.copy new_packet put_header_seq
  sendpkt-nul b s l = (_, refl, refl, omega arith)
