-- ===== src/Process/Validity.antt =====
-- The invariant of a socket table, and what receiving and sending in processtou.cpp do to it.
use tcpoudp.Prelude.{
  ℕ, ◌<◌, Bool, true, false, Option, none, some, ◌>>=◌, List, [], ◌∷◌, length, length-take, arith,
  half_word, inl, inr, Bool-cases, if◌then◌else◌, lt_int, nonpositive, minus_one, add32, Holds,
  Holds-bind, Holds-if, ltb, ◌==◌, leb,
}
use tcpoudp.Buffer
use tcpoudp.Buffer.{CircularBuffer, insert, remove, get_at, get_total_elements}
use tcpoudp.Buffer.Insertion.{insert-IsValid}
use tcpoudp.Buffer.Refine.{remove-nonpositive}
use tcpoudp.Buffer.Reading.{remove-Removed}
use tcpoudp.Congestion
use tcpoudp.Congestion.{ControlBlock, getwnd, addwnd, smss}
use tcpoudp.Congestion.Bounds.{addwnd-Added}
use tcpoudp.Packet.{Header, Packet}
use tcpoudp.Packet
use tcpoudp.Process.{
  proc_ack, putcircbuf, recover_one, recover, proc_pkt_rec, get_send_size, popsndq,
}
use tcpoudp.Socket.{SockTb, SockAddr, RunState, put_dst, with_tc, delack_immed, push_hp_recv_buf}
use tcpoudp.Heap

-- The payload fits an `int`.
abbrev pub AllShort : List Packet → Type 0
AllShort [] = Unit {0}
AllShort (p ∷ ps) = (length p.buf < half_word) × AllShort ps

-- Both buffers and the congestion control are valid, and the packets out of order are short.
pub record IsValid (tb : SockTb) : Type 0 where
  pub send_buf : Buffer.Bounds.IsValid tb.cb_send
  pub recv_buf : Buffer.Bounds.IsValid tb.cb_recv
  pub block : Congestion.Bounds.IsValid tb.tc
  pub packets : AllShort tb.minhp_recv

-- Results with a valid table.
abbrev pub Good {ℓ} : {A : Type ℓ} → A × SockTb → Type 0
Good r = IsValid r.1

AllShort-push :
    (p : Packet) (ps : List Packet)
    → length p.buf < half_word
    → AllShort ps
    → AllShort (Heap.push (λ l r. leb r.t.seq l.t.seq) p ps)
AllShort-push p [] h a = (h, tt)
AllShort-push p (q ∷ ps) h a = ground (arith, AllShort-push p ps h a.1)

pub remove-IsValid :
    (c : CircularBuffer) (n : ℕ) → Buffer.Bounds.IsValid c → Buffer.Bounds.IsValid (remove c n).1
remove-IsValid c n v = elim (Bool-cases (nonpositive n)) [
  | inl e ↦ rw (remove-nonpositive c n e) v
  | inr e ↦ (remove-Removed c n v e).valid
]

module _ (tb : SockTb) (v : IsValid tb) where
  pub recv_buf-IsValid :
      (c : CircularBuffer) → Buffer.Bounds.IsValid c → IsValid (record tb { cb_recv = c })
  recv_buf-IsValid c u = record {
    send_buf = v.send_buf;
    recv_buf = u;
    block = v.block;
    packets = v.packets;
  }

  pub send_buf-IsValid :
      (c : CircularBuffer) → Buffer.Bounds.IsValid c → IsValid (record tb { cb_send = c })
  send_buf-IsValid c u = record {
    send_buf = u;
    recv_buf = v.recv_buf;
    block = v.block;
    packets = v.packets;
  }

  pub block-IsValid :
      (tc : ControlBlock) → Congestion.Bounds.IsValid tc → IsValid (record tb { tc = tc })
  block-IsValid tc u = record {
    send_buf = v.send_buf;
    recv_buf = v.recv_buf;
    block = u;
    packets = v.packets;
  }

  pub packets-IsValid : (ps : List Packet) → AllShort ps → IsValid (record tb { minhp_recv = ps })
  packets-IsValid ps a = record {
    send_buf = v.send_buf;
    recv_buf = v.recv_buf;
    block = v.block;
    packets = a;
  }

  -- What the validity does not read.
  pub runstate-IsValid : (s : RunState) → IsValid (record tb { runstate = s })
  runstate-IsValid s = record {
    send_buf = v.send_buf;
    recv_buf = v.recv_buf;
    block = v.block;
    packets = v.packets;
  }

  pub sockstate-IsValid : (n : ℕ) → IsValid (record tb { sockstate = n })
  sockstate-IsValid n = record {
    send_buf = v.send_buf;
    recv_buf = v.recv_buf;
    block = v.block;
    packets = v.packets;
  }

  pub peer-IsValid : (a : SockAddr) → IsValid (put_dst a tb)
  peer-IsValid a = record {
    send_buf = v.send_buf;
    recv_buf = v.recv_buf;
    block = v.block;
    packets = v.packets;
  }

  -- A change of the block that keeps what its validity reads.
  pub rcv_nxt-IsValid : (n : ℕ) → IsValid (with_tc (λ tc. record tc { rcv_nxt = n }) tb)
  rcv_nxt-IsValid n = block-IsValid (record tb.tc { rcv_nxt = n }) (ground (arith, v.block))

  pub snd_nxt-IsValid : (n : ℕ) → IsValid (with_tc (λ tc. record tc { snd_nxt = n }) tb)
  snd_nxt-IsValid n = block-IsValid (record tb.tc { snd_nxt = n }) (ground (arith, v.block))

  pub putcircbuf-IsValid :
      (malloc : ℕ → Option (List ℕ)) (s : List ℕ)
      → length s < half_word
      → Holds Good (putcircbuf malloc tb s)
  unfolding putcircbuf
  putcircbuf-IsValid malloc s h =
      Holds-bind (λ (r : ℕ × CircularBuffer). Buffer.Bounds.IsValid r.1) Good
        (insert malloc tb.cb_recv s (length s)) _ (insert-IsValid malloc tb.cb_recv s v.recv_buf h)
        (λ r u. recv_buf-IsValid r.1 u)

  addwnd-IsValid : Holds (λ (r : ℕ × ControlBlock). Congestion.Bounds.IsValid r.1) (addwnd tb.tc)
  addwnd-IsValid = let (tc', e, a) = addwnd-Added tb.tc v.block in rw (e, Holds) a.valid

  pub proc_ack-IsValid : (p : Packet) → Holds Good (proc_ack tb p)
  unfolding proc_ack
  proc_ack-IsValid p =
      let V = λ (r : ℕ × ControlBlock). Congestion.Bounds.IsValid r.1 in
      Holds-if Good (ltb tb.tc.snd_una p.t.ack_seq) _ _
        (Holds-bind V Good (addwnd tb.tc) _ addwnd-IsValid
          (λ r u. block-IsValid (record r.1 { snd_una = p.t.ack_seq }) (ground (arith, u))))
        (Holds-if Good (p.t.ack_seq == tb.tc.snd_una) _ _ v
          (Holds-bind V Good (addwnd tb.tc) _ addwnd-IsValid (λ r u. block-IsValid r.1 u)))

  pub popsndq-IsValid : (n : ℕ) → IsValid (popsndq tb n).2
  unfolding popsndq
  popsndq-IsValid n =
      either (lt_int 0 (get_at tb.cb_send n).ret) _ _
        (send_buf-IsValid (remove tb.cb_send (get_at tb.cb_send n).ret).1
          (remove-IsValid tb.cb_send (get_at tb.cb_send n).ret v.send_buf))
        v
    where
      either :
          (b : Bool) (x y : ℕ × List ℕ × SockTb)
          → IsValid x.2
          → IsValid y.2
          → IsValid (if b then x else y).2
      either true x y p q = p
      either false x y p q = q

  pub get_send_size-IsValid : IsValid (get_send_size tb).1
  unfolding get_send_size getwnd
  get_send_size-IsValid = block-IsValid (getwnd tb.tc).1 (ground (arith, v.block))

  pub push_hp_recv_buf-IsValid :
      (p : Packet) → length p.buf < half_word → IsValid (push_hp_recv_buf tb p)
  unfolding push_hp_recv_buf Packet.copy
  push_hp_recv_buf-IsValid p h = packets-IsValid _ (
      AllShort-push (Packet.copy p) tb.minhp_recv (omega (arith, h, length-take p.buflen p.buf))
        v.packets)

module _ (malloc : ℕ → Option (List ℕ)) where
  recover_one-IsValid :
      (tb : SockTb) (p : Packet)
      → IsValid tb
      → length p.buf < half_word
      → Holds Good (recover_one malloc tb p)
  unfolding recover_one
  recover_one-IsValid tb p v h =
      Holds-bind (Good {A = ℕ}) (Good {A = Bool}) (putcircbuf malloc tb p.buf) _
        (putcircbuf-IsValid tb v malloc p.buf h)
        (λ r u.
          Holds-if Good (lt_int 0 r.0) _ _ (rcv_nxt-IsValid r.1 u (add32 p.t.seq (length p.buf))) u)

  recover-IsValid :
      (heap : List Packet) (tb : SockTb)
      → AllShort heap
      → IsValid tb
      → Holds Good (recover malloc heap tb)
  unfolding recover
  recover-IsValid [] tb a v = packets-IsValid tb v [] tt
  recover-IsValid (p ∷ ps) tb a v = Holds-if Good (ltb p.t.seq tb.tc.rcv_nxt) _ _ tt (
      Holds-if Good (p.t.seq == tb.tc.rcv_nxt) _ _
        (goes_on (recover_one malloc tb p) (recover_one-IsValid tb p v a.0)
          (λ tb' u. recover-IsValid ps tb' a.1 u))
        (packets-IsValid tb v (p ∷ ps) a))
    where
      goes_on :
          (o : Option (Bool × SockTb))
          → Holds Good o
          → ((tb' : SockTb) → IsValid tb' → Holds Good (recover malloc ps tb'))
          → Holds Good (elim o [
            | none ↦ none
            | some (true, tb') ↦ recover malloc ps tb'
            | some (false, tb') ↦ some (minus_one, record tb' { minhp_recv = p ∷ ps })
          ])
      goes_on none u ih = tt
      goes_on (some (true, tb')) u ih = ih tb' u
      goes_on (some (false, tb')) u ih = packets-IsValid tb' u (p ∷ ps) a

  pub proc_pkt_rec-IsValid : (tb : SockTb) → IsValid tb → Holds Good (proc_pkt_rec malloc tb)
  unfolding proc_pkt_rec
  proc_pkt_rec-IsValid tb v = in_order tb.minhp_recv v.packets
    where
      in_order :
          (heap : List Packet)
          → AllShort heap
          → Holds (Good {A = ℕ}) (elim heap [
            | [] ↦ some (0, tb)
            | p ∷ rest ↦ do
              (r, tb') ← recover malloc (p ∷ rest) tb
              some (r, with_tc (λ tc. record tc { t_delack_state = delack_immed }) tb')
          ])
      in_order [] a = v
      in_order (p ∷ rest) a =
          Holds-bind (Good {A = ℕ}) (Good {A = ℕ}) (recover malloc (p ∷ rest) tb) _
            (recover-IsValid (p ∷ rest) tb a v)
            (λ r u.
              block-IsValid r.1 u (record r.1.tc { t_delack_state = delack_immed })
                (ground (arith, u.block)))
