-- ===== src/Timer/Again.antt =====
-- The fast retransmission of timer.cpp.
use tcpoudp.Prelude.{
  ℕ, ◌<◌, ◌≤◌, ◌≡◌, refl, true, some, List, [], ◌∷◌, ◌++◌, arith, length, sub32, minus_one, add32,
}
use tcpoudp.Congestion.{ControlBlock}
use tcpoudp.Packet.{Header, Packet, new_packet, put_header_seq}
use tcpoudp.Node.{Node, new_data, new_rexmit, heap_comp, until_nul}
use tcpoudp.Node
use tcpoudp.Timer.{Rexmit, rexmit_for_dup_ack, sendpkt}

-- A node of a connection with a payload whose first byte is at `seq`.
pub record Holds (cid tid : ℕ) (n : Node) (seq : ℕ) (b : List ℕ) : Type 0 where
  pub conn : n.c_id ≡ cid
  pub timer : n.t_id ≡ tid
  pub bytes : n.payload ≡ some b
  pub start : sub32 n.p_id (length b) ≡ seq

-- Nodes of a connection whose packets start before `pid`.
abbrev pub Earlier : ℕ → ℕ → ℕ → List Node → Type 0
Earlier cid tid pid [] = Unit {0}
Earlier cid tid pid (n ∷ ns) =
    ((seq : ℕ) × (b : List ℕ) × Holds cid tid n seq b × (seq < pid)) × Earlier cid tid pid ns

-- Nodes of a connection that end after `last`.
abbrev pub Later : ℕ → ℕ → List Node → Type 0
Later cid last [] = Unit {0}
Later cid last (n ∷ ns) = (n.c_id ≡ cid) × (last < n.p_id)

-- What the retransmission of `n` leaves.
pub record Resent (cid tid pid : ℕ) (b : List ℕ) (n : Node) (after : List Node) (tc : ControlBlock)
    (now : ℕ) (r : Rexmit) : Type 0 where
  pub packet : Packet
  pub sent : r.sent ≡ some packet
  pub seq : packet.t.seq ≡ pid
  pub buf : packet.buf ≡ b
  pub again : Node
  pub heap : r.heap ≡ again ∷ after
  pub ends : again.p_id ≡ n.p_id
  pub unmeasured : again.xmitms ≡ minus_one
  pub fires : again.ms ≡ add32 now tc.t_rto

below_later : (x v : Node) → x.c_id ≡ v.c_id → v.p_id ≤ x.p_id → heap_comp x v ≡ true
unfolding heap_comp
below_later x v c p = ground arith

module _ (junk : Header) (old : Node) (now : ℕ) (tc : ControlBlock) (cid tid pid : ℕ) (n : Node)
    (b : List ℕ) (h : Holds cid tid n pid b) (after : List Node)
    (later : Later cid n.p_id after) where
  abbrev renewed : Node
  renewed = Node.copy (new_rexmit old cid tid n.p_id n.st b minus_one now tc.t_rto)

  on_top_again :
      (xs : List Node)
      → Later cid n.p_id xs
      → Node.push (new_rexmit old cid tid n.p_id n.st b minus_one now tc.t_rto) xs ≡ renewed ∷ xs
  unfolding Node.push Node.copy new_rexmit new_data
  on_top_again [] l = refl
  on_top_again (x ∷ xs) l = rw (below_later x renewed (l.0) (omega arith)) refl

  abbrev out : Packet
  out = record (put_header_seq (new_packet junk b) pid tc.rcv_nxt) {
    t = record (put_header_seq (new_packet junk b) pid tc.rcv_nxt).t { ack = true };
  }

  sent_lem : sendpkt junk n tc ≡ some out
  unfolding sendpkt
  sent_lem = rw (h.bytes, h.start) refl

  first :
      rexmit_for_dup_ack junk old now tc cid tid pid (n ∷ after)
      ≡ some (record { sent = some out; heap = renewed ∷ after })
  unfolding rexmit_for_dup_ack
  first = rw h.bytes (ground (arith, h.start, h.conn, h.timer, sent_lem, on_top_again after later))

  skip :
      (before : List Node)
      → Earlier cid tid pid before
      → rexmit_for_dup_ack junk old now tc cid tid pid (before ++ (n ∷ after))
        ≡ some (record { sent = some out; heap = renewed ∷ after })
  unfolding rexmit_for_dup_ack
  skip [] e = first
  skip (m ∷ before) ((seq, c, k, lt), e) =
      rw k.bytes (ground (arith, k.start, k.conn, k.timer, skip before e))

  -- On a heap that holds one connection's nodes with payloads, some whose packets start before pid,
  -- then one whose packet starts at pid, then, if any, one that ends later, a fast retransmission
  -- ends without an abort: it sends the bytes of that packet at pid, drops the nodes before it, and
  -- leaves its node on top, with its end, marked as not to be measured, and set to fire one timeout
  -- from now, above the nodes behind it.
  pub rexmit_for_dup_ack-Resent :
      (before : List Node)
      → Earlier cid tid pid before
      → (r : Rexmit) × (rexmit_for_dup_ack junk old now tc cid tid pid (before ++ (n ∷ after))
          ≡ some r)
        × Resent cid tid pid b n after tc now r
  unfolding put_header_seq new_packet Node.copy new_rexmit new_data
  rexmit_for_dup_ack-Resent before e = (
    record { sent = some out; heap = renewed ∷ after },
    skip before e,
    record {
      packet = out;
      sent = refl;
      seq = refl;
      buf = refl;
      again = renewed;
      heap = refl;
      ends = refl;
      unmeasured = refl;
      fires = refl;
    },
  )
