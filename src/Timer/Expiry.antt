-- ===== src/Timer/Expiry.antt =====
-- A timer that runs out: `timerCk::proc_sndpkt` of timer.cpp on the nodes of one connection.
use tcpoudp.Prelude.{
  ℕ, ◌*◌, ◌%◌, ◌≤◌, ◌<◌, ◌≡◌, refl, sym, subst, ap, ap₂, ◌∙◌, true, false, Option, none, some, List,
  [], ◌∷◌, length, map, arith, word, add32, sub32, minus_one, ltb, if◌then◌else◌, leb, lt→ltb,
  Bool-cases, inl, inr,
}
use tcpoudp.Congestion.{ControlBlock, settwnd}
use tcpoudp.Packet.{Header, Packet, new_packet, put_header_seq}
use tcpoudp.Node.{Node, heap_comp, until_nul}
use tcpoudp.Node
use tcpoudp.Timer.{Fired, sendpkt, on_top, postpone_timer, clear_acked, fire, proc_sndpkt}
use tcpoudp.Timer.Clear.{Ascending, unacked, clear_acked-unacked}
use tcpoudp.Timer.Postpone.{Timed, postponed, Ascending-mono, postpone_timer-postponed}

-- What `fire` has done with the node `n`, whose payload is `b`, above `ns`.
pub record Expired (now : ℕ) (tc : ControlBlock) (n : Node) (b : List ℕ) (ns : List Node)
    (r : Fired) : Type 0 where
  pub packet : Packet
  pub sent : r.sent ≡ some packet
  pub seq : packet.t.seq ≡ sub32 n.p_id (length b)
  pub bytes : packet.buf ≡ b
  pub block : r.tc ≡ (settwnd tc).1
  pub again : Node
  pub heap :
      r.heap
      ≡ again
        ∷ (if ltb (length (n ∷ ns)) 8
            then map Node.copy (postponed n.p_id (tc.t_rto * 2 % word) ns)
            else ns)
  pub ends : again.p_id ≡ n.p_id
  pub unmeasured : again.xmitms ≡ minus_one
  pub fires : again.ms ≡ add32 (tc.t_rto * 2 % word) now

below_later : (x v : Node) → x.c_id ≡ v.c_id → v.p_id ≤ x.p_id → heap_comp x v ≡ true
unfolding heap_comp
below_later x v c p = ground (arith, c)

unacked-Ascending :
    (cid tid una low : ℕ) (ns : List Node)
    → Ascending cid tid low ns
    → Ascending cid tid low (unacked una ns)
unacked-Ascending cid tid una low [] a = tt
unacked-Ascending cid tid una low (n ∷ ns) (c, t, l, a) = elim (Bool-cases (leb n.p_id una)) [
  | inl e ↦ rw e (
      Ascending-mono cid tid low n.p_id (unacked una ns) (omega arith)
        (unacked-Ascending cid tid una n.p_id ns a))
  | inr e ↦ rw e (c, t, l, unacked-Ascending cid tid una n.p_id ns a)
]

module _ (junk : Header) (now : ℕ) (tc : ControlBlock) (cid tid low : ℕ) (n : Node) (ns : List Node)
    (b : List ℕ) (bytes : n.payload ≡ some b) (a : Ascending cid tid low (n ∷ ns))
    (m : Timed n.p_id ns) where
  abbrev rto : ℕ
  rto = tc.t_rto * 2 % word

  abbrev renewed : Node
  renewed = record (Node.copy n) { xmitms = minus_one; ms = add32 rto now }

  on_top_again :
      (xs : List Node) → Ascending cid tid n.p_id xs → Node.push renewed xs ≡ Node.copy renewed ∷ xs
  unfolding Node.push Node.copy
  on_top_again [] l = refl
  on_top_again (x ∷ xs) l =
      rw (below_later x (Node.copy renewed) (l.0 ∙ sym (a.0)) (omega arith)) refl

  abbrev out : Packet
  out =
      let p = put_header_seq (new_packet junk b) (sub32 n.p_id (length b)) tc.rcv_nxt in
      record p { t = record p.t { ack = true } }

  sent_lem : sendpkt junk n tc ≡ some out
  unfolding sendpkt
  sent_lem = rw bytes refl

  postponed_self :
      postponed n.p_id rto (Node.copy renewed ∷ ns) ≡ Node.copy renewed ∷ postponed n.p_id rto ns
  unfolding Node.copy
  postponed_self = ground arith

  late :
      postpone_timer
        (Node.copy renewed).c_id
        (Node.copy renewed).t_id
        (Node.copy renewed).p_id
        rto
        (Node.copy renewed ∷ ns)
      ≡ some (map Node.copy (Node.copy renewed ∷ postponed n.p_id rto ns))
  unfolding Node.copy
  late =
      ap (λ (c : ℕ). postpone_timer c n.t_id n.p_id rto (Node.copy renewed ∷ ns)) a.0
      ∙ ap (λ (t : ℕ). postpone_timer cid t n.p_id rto (Node.copy renewed ∷ ns)) a.1
      ∙ postpone_timer-postponed cid tid n.p_id rto low (Node.copy renewed ∷ ns) a
          ((λ h. absurd (omega (arith, h))), m)
      ∙ ap (λ (xs : List Node). some (map Node.copy xs)) postponed_self

  abbrev left : List Node → Fired
  left heap = record { sent = some out; heap = heap; tc = (settwnd tc).1 }

  -- `fire` once the packet is made and the others are put off.
  abbrev results : Option Packet → Option (List Node) → Option Fired
  results sent heap = elim sent [
    | none ↦ none
    | some p ↦ elim heap [
      | none ↦ none
      | some heap' ↦ some (record { sent = some p; heap = heap'; tc = (settwnd tc).1 })
    ]
  ]

  abbrev put_off_on : List Node → Option (List Node)
  put_off_on heap =
      if ltb (length heap) 8
      then on_top (some heap) (λ top. postpone_timer top.c_id top.t_id top.p_id rto heap) heap
      else some heap

  fire_lem : fire junk now n ns tc ≡ results (some out) (put_off_on (Node.copy renewed ∷ ns))
  unfolding fire
  fire_lem = ap₂ results sent_lem (ap put_off_on (on_top_again ns (a.3)))

  put_off-few :
      ltb (length (n ∷ ns)) 8 ≡ true
      → put_off_on (Node.copy renewed ∷ ns)
        ≡ some (map Node.copy (Node.copy renewed ∷ postponed n.p_id rto ns))
  put_off-few e = rw e late

  put_off-many :
      ltb (length (n ∷ ns)) 8 ≡ false
      → put_off_on (Node.copy renewed ∷ ns) ≡ some (Node.copy renewed ∷ ns)
  put_off-many e = rw e refl

  fire-Expired : (r : Fired) × (fire junk now n ns tc ≡ some r) × Expired now tc n b ns r
  unfolding Node.copy put_header_seq new_packet
  fire-Expired = elim (Bool-cases (ltb (length (n ∷ ns)) 8)) [
    | inl e ↦ (
      left (map Node.copy (Node.copy renewed ∷ postponed n.p_id rto ns)),
      fire_lem ∙ ap (results (some out)) (put_off-few e),
      record {
        packet = out;
        sent = refl;
        seq = refl;
        bytes = refl;
        block = refl;
        again = Node.copy (Node.copy renewed);
        heap = rw e refl;
        ends = refl;
        unmeasured = refl;
        fires = refl;
      },
    )
    | inr e ↦ (
      left (Node.copy renewed ∷ ns),
      fire_lem ∙ ap (results (some out)) (put_off-many e),
      record {
        packet = out;
        sent = refl;
        seq = refl;
        bytes = refl;
        block = refl;
        again = Node.copy renewed;
        heap = rw e refl;
        ends = refl;
        unmeasured = refl;
        fires = refl;
      },
    )
  ]

module _ (junk : Header) (now : ℕ) (tc : ControlBlock) (cid tid low : ℕ) (heap : List Node)
    (a : Ascending cid tid low heap) where
  -- From the nodes that are not acknowledged on.
  abbrev on_unacked : List Node → Option Fired
  on_unacked [] = some (record { sent = none; heap = []; tc = tc })
  on_unacked (n ∷ ns) =
      if ltb n.ms now
      then fire junk now n ns tc
      else some (record { sent = none; heap = n ∷ ns; tc = tc })

  starts :
      (xs : List Node) → unacked tc.snd_una heap ≡ xs → proc_sndpkt junk now heap tc ≡ on_unacked xs
  unfolding proc_sndpkt
  starts xs e =
      over (clear_acked tc.snd_una heap) (clear_acked-unacked cid tid tc.snd_una low heap a ∙ e)
    where
      over :
          (ys : List Node)
          → ys ≡ xs
          → elim ys as (λ x. Option Fired) [
            | [] ↦ some (record { sent = none; heap = []; tc = tc })
            | n ∷ ns ↦
                if ltb n.ms now
                then fire junk now n ns tc
                else some (record { sent = none; heap = n ∷ ns; tc = tc })
          ]
            ≡ on_unacked xs
      over [] q = ap on_unacked q
      over (y ∷ ys) q = ap on_unacked q

  -- On a heap that holds one connection's nodes in order, where the first node that is not
  -- acknowledged has a payload and ran out, and those behind it were sent at times that are positive
  -- as a long, a turn of the sending timer drops the acknowledged nodes, sends the bytes of that
  -- node again at their sequence number, closes the window as at a timeout, and leaves the node on
  -- top, not to be measured and to fire two timeouts from now, above the nodes behind it, which are
  -- put off too where they are fewer than seven.
  pub proc_sndpkt-Expired :
      (n : Node) (ns : List Node) (b : List ℕ)
      → unacked tc.snd_una heap ≡ n ∷ ns
      → n.payload ≡ some b
      → n.ms < now
      → Timed n.p_id ns
      → (r : Fired) × (proc_sndpkt junk now heap tc ≡ some r) × Expired now tc n b ns r
  proc_sndpkt-Expired n ns b e bytes late m =
      let (r, f, x) =
        fire-Expired junk now tc cid tid low n ns b bytes
          (subst (Ascending cid tid low) e (unacked-Ascending cid tid tc.snd_una low heap a)) m in
      (r, starts (n ∷ ns) e ∙ rw (lt→ltb n.ms now late) f, x)
