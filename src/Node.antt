-- ===== src/Node.antt =====
-- The timer nodes of src/lib/timer.h and timer_node.cpp, and the order of the timer heap. A `long`
-- is its 32-bit pattern. `junk` is what the memory of a new node held: a constructor sets some of
-- the fields.
use tcpoudp.Prelude.{ℕ, Bool, Option, none, some, List, [], ◌∷◌, ◌==◌, leb, if◌then◌else◌, add32}
use tcpoudp.Heap

-- `class node_t`; `st` is the address of a socket table.
pub record Node : Type 0 where
  pub c_id : ℕ
  pub t_id : ℕ
  pub p_id : ℕ
  pub st : ℕ
  pub payload : Option (List ℕ)
  pub ms : ℕ
  pub xmitms : ℕ
  pub push_ackms : ℕ
  pub nagle_ackms : ℕ

-- A text read as a C string.
abbrev pub until_nul : List ℕ → List ℕ
until_nul [] = []
until_nul (x ∷ xs) = if x == 0 then [] else x ∷ until_nul xs

-- The copy constructor and the assignment: `new string(nt.payload->data())`.
unfoldable pub copy : Node → Node
copy n = record n { payload = elim n.payload [ none ↦ none | some b ↦ some (until_nul b) ] }

-- A node for a packet sent at `now`, on a connection whose timeout is `rto`.
unfoldable pub new_data : Node → ℕ → ℕ → ℕ → ℕ → List ℕ → ℕ → ℕ → Node
new_data junk c t p s payload now rto = record junk {
  c_id = c;
  t_id = t;
  p_id = p;
  st = s;
  payload = some payload;
  xmitms = now;
  ms = add32 now rto;
}

-- A node for a packet sent again: `xmit` is what its `xmitms` is to be.
unfoldable pub new_rexmit : Node → ℕ → ℕ → ℕ → ℕ → List ℕ → ℕ → ℕ → ℕ → Node
unfolding new_data
new_rexmit junk c t p s payload xmit now rto = record (new_data junk c t p s payload now rto) {
  xmitms = xmit;
}

-- A node for a delayed acknowledgement.
unfoldable pub new_ack : Node → ℕ → ℕ → ℕ → ℕ → ℕ → ℕ → Node
new_ack junk c t p pms nms s = record junk {
  c_id = c;
  t_id = t;
  p_id = p;
  st = s;
  push_ackms = pms;
  nagle_ackms = nms;
  payload = none;
}

-- `heapComp`: by connection, then by sequence number.
unfoldable pub heap_comp : Node → Node → Bool
heap_comp l r = if l.c_id == r.c_id then leb r.p_id l.p_id else leb r.c_id l.c_id

-- `timerheap.push(n)` stores a copy.
unfoldable pub push : Node → List Node → List Node
push n heap = Heap.push heap_comp (copy n) heap
