-- ===== src/Timer/Postpone.antt =====
-- `timerCk::postpone_timer` of timer.cpp: two heaps, and what comes of it.
use tcpoudp.Prelude.{
  ℕ, ◌≤◌, ◌<◌, ◌≡◌, refl, sym, subst, ap, ap₂, ◌∙◌, true, false, Option, none, some, List, [], ◌∷◌,
  ◌++◌, append_assoc, append-nil, map, arith, half_word, add32, ltb, ◌==◌, if◌then◌else◌, dec_lt,
  Bool-cases, inl, inr,
}
use tcpoudp.Node.{Node, heap_comp, until_nul}
use tcpoudp.Node
use tcpoudp.Timer.{postpone_node, postpone_all, push_back, postpone_timer}
use tcpoudp.Timer.Clear.{Ascending}

-- A node at `seq` stays, and a later one fires `rto` after it was sent.
abbrev pub put_off : ℕ → ℕ → Node → Node
put_off seq rto n = if n.p_id == seq then n else record n { ms = add32 n.xmitms rto }

put_off-ids :
    (seq rto : ℕ) (n : Node)
    → ((put_off seq rto n).c_id ≡ n.c_id)
      × ((put_off seq rto n).t_id ≡ n.t_id)
      × ((put_off seq rto n).p_id ≡ n.p_id)
put_off-ids seq rto n = ground arith

-- The nodes after an acknowledgement of all before `seq`: those are dropped, and the others put
-- off.
abbrev pub postponed : ℕ → ℕ → List Node → List Node
postponed seq rto [] = []
postponed seq rto (n ∷ ns) =
    if ltb n.p_id seq then postponed seq rto ns else put_off seq rto n ∷ postponed seq rto ns

-- The nodes behind `seq` were sent once, at a time that is positive as a long.
abbrev pub Timed : ℕ → List Node → Type 0
Timed seq [] = Unit {0}
Timed seq (n ∷ ns) = (seq < n.p_id → (0 < n.xmitms) × (n.xmitms < half_word)) × Timed seq ns

-- Nodes of a connection that end at `top` at most.
abbrev Below : ℕ → ℕ → List Node → Type 0
Below cid top [] = Unit {0}
Below cid top (n ∷ ns) = (n.c_id ≡ cid) × (n.p_id ≤ top) × Below cid top ns

Below-mono : (cid j k : ℕ) (ns : List Node) → j ≤ k → Below cid j ns → Below cid k ns
Below-mono cid j k [] h b = tt
Below-mono cid j k (n ∷ ns) h (c, l, b) = (c, omega arith, Below-mono cid j k ns h b)

Below-append :
    (cid top : ℕ) (n : Node) (ns : List Node)
    → n.c_id ≡ cid
    → n.p_id ≤ top
    → Below cid top ns
    → Below cid top (ns ++ (n ∷ []))
Below-append cid top n [] c l b = (c, l, tt)
Below-append cid top n (m ∷ ns) c l (c', l', b) = (c', l', Below-append cid top n ns c l b)

pub Ascending-mono :
    (cid tid j k : ℕ) (ns : List Node) → j ≤ k → Ascending cid tid k ns → Ascending cid tid j ns
Ascending-mono cid tid j k [] h a = tt
Ascending-mono cid tid j k (n ∷ ns) h (c, t, l, a) = (c, t, omega arith, a)

earlier : (x v : Node) → x.c_id ≡ v.c_id → x.p_id < v.p_id → heap_comp x v ≡ false
unfolding heap_comp
earlier x v c l = ground (arith, c)

module _ (cid tid : ℕ) where
  -- A node above all others goes to the end.
  push-last :
      (n : Node) (heap : List Node) (top : ℕ)
      → n.c_id ≡ cid
      → top < n.p_id
      → Below cid top heap
      → Node.push n heap ≡ heap ++ (Node.copy n ∷ [])
  unfolding Node.push Node.copy
  push-last n [] top c l b = refl
  push-last n (x ∷ heap) top c l (c', l', b) =
      rw (earlier x (Node.copy n) (c' ∙ sym c) (omega arith))
        (ap (◌∷◌ x) (push-last n heap top c l b))

  push_back_lem :
      (ns heap : List Node) (low : ℕ)
      → Ascending cid tid low ns
      → Below cid low heap
      → push_back ns heap ≡ heap ++ map Node.copy ns
  unfolding push_back Node.copy
  push_back_lem [] heap low a b = sym (append-nil heap)
  push_back_lem (n ∷ ns) heap low (c, t, l, a) b =
      ap (push_back ns) (push-last n heap low c l b)
      ∙ push_back_lem ns (heap ++ (Node.copy n ∷ [])) n.p_id a (
          Below-append cid n.p_id (Node.copy n) heap c (omega arith)
            (Below-mono cid low n.p_id heap (omega arith) b))
      ∙ append_assoc heap (Node.copy n ∷ []) (map Node.copy ns)

  module _ (seq rto : ℕ) where
    node_dropped :
        (n : Node)
        → n.c_id ≡ cid
        → n.t_id ≡ tid
        → n.p_id < seq
        → postpone_node cid tid seq rto n ≡ some none
    unfolding postpone_node
    node_dropped n c t h = ground (arith, c, t)

    node_kept :
        (n : Node)
        → n.c_id ≡ cid
        → n.t_id ≡ tid
        → seq ≤ n.p_id
        → (seq < n.p_id → (0 < n.xmitms) × (n.xmitms < half_word))
        → postpone_node cid tid seq rto n ≡ some (some (put_off seq rto n))
    unfolding postpone_node
    node_kept n c t h m = ground (arith, c, t, m)

    postpone_all_lem :
        (ns temp : List Node) (low : ℕ)
        → Ascending cid tid low ns
        → Timed seq ns
        → Below cid low temp
        → postpone_all cid tid seq rto ns temp ≡ some (temp ++ map Node.copy (postponed seq rto ns))
    unfolding postpone_all Node.copy
    postpone_all_lem [] temp low a m b = ap some (sym (append-nil temp))
    postpone_all_lem (n ∷ ns) temp low (c, t, l, a) (m, ms) b = elim (dec_lt n.p_id seq) [
      | yes h ↦
          let d : ltb n.p_id seq ≡ true = ground arith in
          rw (node_dropped n c t h, postpone_all, d)
            (postpone_all_lem ns temp n.p_id a ms (Below-mono cid low n.p_id temp (omega arith) b))
      | no h ↦
          let d : ltb n.p_id seq ≡ false = ground arith in
          let k = put_off seq rto n in
          let (kc, kt, kp) = put_off-ids seq rto n in
          rw (node_kept n c t (omega arith) m, postpone_all, d)
            (ap (postpone_all cid tid seq rto ns)
                (push-last k temp low (kc ∙ c) (omega (arith, kp)) b)
              ∙ postpone_all_lem ns (temp ++ (Node.copy k ∷ [])) n.p_id a ms (
                  Below-append cid n.p_id (Node.copy k) temp (kc ∙ c) (omega (arith, kp))
                    (Below-mono cid low n.p_id temp (omega arith) b))
              ∙ ap some
                  (append_assoc temp (Node.copy k ∷ []) (map Node.copy (postponed seq rto ns))))
    ]

    Ascending-postponed :
        (ns : List Node) (low : ℕ)
        → Ascending cid tid low ns
        → Ascending cid tid low (map Node.copy (postponed seq rto ns))
    unfolding Node.copy
    Ascending-postponed [] low a = tt
    Ascending-postponed (n ∷ ns) low (c, t, l, a) = elim (dec_lt n.p_id seq) [
      | yes h ↦
          let d : ltb n.p_id seq ≡ true = ground arith in
          rw d (
            Ascending-mono cid tid low n.p_id (map Node.copy (postponed seq rto ns)) (omega arith)
              (Ascending-postponed ns n.p_id a))
      | no h ↦
          let d : ltb n.p_id seq ≡ false = ground arith in
          let (kc, kt, kp) = put_off-ids seq rto n in
          rw d (
            kc ∙ c,
            kt ∙ t,
            omega (arith, kp),
            subst (λ (k : ℕ). Ascending cid tid k (map Node.copy (postponed seq rto ns))) (sym kp)
                (Ascending-postponed ns n.p_id a),
          )
    ]

until_nul_twice : (xs : List ℕ) → until_nul (until_nul xs) ≡ until_nul xs
until_nul_twice [] = refl
until_nul_twice (x ∷ xs) = elim (Bool-cases (x == 0)) [
  | inl e ↦ rw e refl
  | inr e ↦ rw e (rw e (ap (◌∷◌ x) (until_nul_twice xs)))
]

copy-copy : (n : Node) → Node.copy (Node.copy n) ≡ Node.copy n
unfolding Node.copy
copy-copy n = ap (λ (b : Option (List ℕ)). record n { payload = b }) (twice n.payload)
  where
    twice :
        (b : Option (List ℕ))
        → elim (elim b as (λ x. Option (List ℕ)) [ none ↦ none | some s ↦ some (until_nul s) ])
            as (λ x. Option (List ℕ)) [ none ↦ none | some s ↦ some (until_nul s) ]
          ≡ elim b as (λ x. Option (List ℕ)) [ none ↦ none | some s ↦ some (until_nul s) ]
    twice none = refl
    twice (some s) = ap some (until_nul_twice s)

map-copy_twice : (ns : List Node) → map Node.copy (map Node.copy ns) ≡ map Node.copy ns
map-copy_twice [] = refl
map-copy_twice (n ∷ ns) = ap₂ ◌∷◌ (copy-copy n) (map-copy_twice ns)

-- On a heap that holds one connection's nodes in order, those behind seq sent at times that are
-- positive as a long, postpone_timer never fails its assertion and gives what a single pass gives:
-- the nodes before seq are dropped, the one at seq stays, each later one fires one timeout after it
-- was sent, and every payload is cut at its first byte 0 by the copying.
pub postpone_timer-postponed :
    (cid tid seq rto low : ℕ) (heap : List Node)
    → Ascending cid tid low heap
    → Timed seq heap
    → postpone_timer cid tid seq rto heap ≡ some (map Node.copy (postponed seq rto heap))
unfolding postpone_timer
postpone_timer-postponed cid tid seq rto low heap a m =
    rw (postpone_all_lem cid tid seq rto heap [] low a m tt, postpone_timer)
      (ap some (
        push_back_lem cid tid (map Node.copy (postponed seq rto heap)) [] low
          (Ascending-postponed cid tid seq rto heap low a) tt
        ∙ map-copy_twice (postponed seq rto heap)))
