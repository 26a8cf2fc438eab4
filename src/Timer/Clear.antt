-- ===== src/Timer/Clear.antt =====
-- What an acknowledgement takes off the timer heap, by timer.cpp.
use tcpoudp.Prelude.{
  ℕ, ◌≤◌, ◌<◌, ◌≡◌, ◌≢◌, refl, sym, ap, ◌∙◌, Option, none, some, List, [], ◌∷◌, arith, dec_lt,
  ℕ_discrete, if◌then◌else◌, leb,
}
use tcpoudp.Node.{Node}
use tcpoudp.Timer.{clear_acked, clear_acked_for}

-- The nodes that an acknowledgement of `una` leaves.
abbrev pub unacked : ℕ → List Node → List Node
unacked una [] = []
unacked una (n ∷ ns) = if leb n.p_id una then unacked una ns else n ∷ unacked una ns

-- The nodes of one connection, in the order of their last bytes, all above `low`.
abbrev pub Ascending : ℕ → ℕ → ℕ → List Node → Type 0
Ascending cid tid low [] = Unit {0}
Ascending cid tid low (n ∷ ns) =
    (n.c_id ≡ cid) × (n.t_id ≡ tid) × (low < n.p_id) × Ascending cid tid n.p_id ns

unacked-all :
    (cid tid una low : ℕ) (ns : List Node)
    → una ≤ low
    → Ascending cid tid low ns
    → unacked una ns ≡ ns
unacked-all cid tid una low [] h a = refl
unacked-all cid tid una low (n ∷ ns) h (a, b, c, d) =
    ground (arith, unacked-all cid tid una n.p_id ns (omega arith) d)

-- On a heap that holds one connection's nodes in order, the clearing for an acknowledgement succeeds
-- and leaves exactly the nodes whose last byte is not acknowledged, and a node from which the round
-- trip is measured ends at the acknowledgement.
pub clear_acked_for-unacked :
    (cid tid una low : ℕ) (ns : List Node)
    → Ascending cid tid low ns
    → (m : Option Node) × (clear_acked_for cid tid una ns ≡ some (unacked una ns, m))
      × ((n : Node) → m ≡ some n → n.p_id ≡ una)
unfolding clear_acked_for
clear_acked_for-unacked cid tid una low [] a = (none, refl, λ k e. absurd (cc))
clear_acked_for-unacked cid tid una low (n ∷ ns) (a, b, c, d) = elim (dec_lt n.p_id una) [
  | yes h ↦
      let (m, e, q) = clear_acked_for-unacked cid tid una n.p_id ns d in (m, ground (arith, e), q)
  | no h ↦ elim (ℕ_discrete n.p_id una) [
    | yes e ↦ (
      some n,
      ground (arith, unacked-all cid tid una n.p_id ns (omega arith) d),
      λ k q. sym (ap (λ (o : Option Node). elim o [ none ↦ 0 | some x ↦ x.p_id ]) q) ∙ e,
    )
    | no ne ↦ (
      none,
      ground (arith, unacked-all cid tid una n.p_id ns (omega arith) d),
      λ k q. absurd (cc),
    )
  ]
]

pub clear_acked-unacked :
    (cid tid una low : ℕ) (ns : List Node)
    → Ascending cid tid low ns
    → clear_acked una ns ≡ unacked una ns
unfolding clear_acked
clear_acked-unacked cid tid una low [] a = refl
clear_acked-unacked cid tid una low (n ∷ ns) (a, b, c, d) =
    ground (arith, clear_acked-unacked cid tid una n.p_id ns d, unacked-all cid tid una n.p_id ns)

-- A node of another connection at the top of the heap ends the program, whatever is acknowledged.
pub clear_acked_for-exits :
    (cid tid una : ℕ) (n : Node) (ns : List Node)
    → n.c_id ≢ cid
    → clear_acked_for cid tid una (n ∷ ns) ≡ none
unfolding clear_acked_for
clear_acked_for-exits cid tid una n ns h = ground arith

-- The timer thread drops a node by its sequence number alone, whichever connection it belongs to.
pub clear_acked-drops :
    (una : ℕ) (n : Node) (ns : List Node)
    → n.p_id ≤ una
    → clear_acked una (n ∷ ns) ≡ clear_acked una ns
unfolding clear_acked
clear_acked-drops una n ns h = ground arith
