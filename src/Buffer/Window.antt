-- ===== src/Buffer/Window.antt =====
-- What the two-stretch copy of `CircularBuffer::insert` leaves at each place of the ring.
use tcpoudp.Prelude.{
  ℕ, ◌+◌, ◌-◌, ◌≤◌, ◌<◌, ◌≡◌, ap, ◌∙◌, List, arith, ◌⊎◌, inl, inr, length, get_or, take, drop,
  copy_in, length-copy_in, get_or-copy_in_before, get_or-copy_in_after, get_or-copy_in_inside,
  get_or-take, get_or-drop, length-take_le, length-drop,
}

-- One stretch, which ends where the ring does or before.
module _ (mem src : List ℕ) (cap ti n : ℕ) (full : length mem ≡ cap) (enough : n ≤ length src)
    (fits : ti + n ≤ cap) where
  pub one_stretch_new :
      (k : ℕ) → k < n → get_or (copy_in mem ti (take n src)) (ti + k) 0 ≡ get_or src k 0
  one_stretch_new k q =
      get_or-copy_in_inside mem ti (take n src) k 0 (omega (arith, length-take_le n src enough))
        (omega (arith, length-take_le n src enough))
      ∙ get_or-take n src k 0 q

  pub one_stretch_old :
      (i : ℕ) → (i < ti) ⊎ (ti + n ≤ i) → get_or (copy_in mem ti (take n src)) i 0 ≡ get_or mem i 0
  one_stretch_old i (inl q) = get_or-copy_in_before mem ti (take n src) i 0 q
  one_stretch_old i (inr q) =
      get_or-copy_in_after mem ti (take n src) i 0 (omega (arith, length-take_le n src enough))

-- Two stretches: up to the end, and on from the start.
abbrev pub two_stretches : List ℕ → List ℕ → ℕ → ℕ → ℕ → List ℕ
two_stretches mem src cap ti n =
    copy_in (copy_in mem ti (take (cap - ti) src)) 0 (take (n - (cap - ti)) (drop (cap - ti) src))

pub length-two_stretches :
    (mem src : List ℕ) (cap ti n : ℕ) → length (two_stretches mem src cap ti n) ≡ length mem
length-two_stretches mem src cap ti n =
    length-copy_in (copy_in mem ti (take (cap - ti) src)) 0
      (take (n - (cap - ti)) (drop (cap - ti) src))
    ∙ length-copy_in mem ti (take (cap - ti) src)

module _ (mem src : List ℕ) (cap ti n : ℕ) (full : length mem ≡ cap) (enough : n ≤ length src)
    (inside : ti < cap) (over : cap < ti + n) (room : n ≤ cap) where
  abbrev head_part : List ℕ
  head_part = copy_in mem ti (take (cap - ti) src)

  abbrev tail_part : List ℕ
  tail_part = drop (cap - ti) src

  abbrev both : List ℕ
  both = two_stretches mem src cap ti n

  length-head_part : length head_part ≡ cap
  length-head_part = length-copy_in mem ti (take (cap - ti) src) ∙ full

  tail_enough : n - (cap - ti) ≤ length tail_part
  tail_enough = omega (arith, length-drop (cap - ti) src)

  two_stretches_head : (i : ℕ) → n - (cap - ti) ≤ i → get_or both i 0 ≡ get_or head_part i 0
  two_stretches_head i q =
      one_stretch_old head_part tail_part cap 0 (n - (cap - ti)) length-head_part tail_enough
        (omega arith) i (inr (omega arith))

  pub two_stretches_first : (k : ℕ) → k < cap - ti → get_or both (ti + k) 0 ≡ get_or src k 0
  two_stretches_first k q =
      two_stretches_head (ti + k) (omega arith)
      ∙ one_stretch_new mem src cap ti (cap - ti) full (omega arith) (omega arith) k q

  pub two_stretches_second :
      (k : ℕ) → k < n - (cap - ti) → get_or both k 0 ≡ get_or src (cap - ti + k) 0
  two_stretches_second k q =
      ap (λ (t : ℕ). get_or both t 0) shift
      ∙ one_stretch_new head_part tail_part cap 0 (n - (cap - ti)) length-head_part tail_enough
          (omega arith) k q
      ∙ get_or-drop (cap - ti) src k 0
    where
      shift : k ≡ 0 + k
      shift = omega arith

  pub two_stretches_old : (i : ℕ) → n - (cap - ti) ≤ i → i < ti → get_or both i 0 ≡ get_or mem i 0
  two_stretches_old i p q =
      two_stretches_head i p
      ∙ one_stretch_old mem src cap ti (cap - ti) full (omega arith) (omega arith) i (inl q)
