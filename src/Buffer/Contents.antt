-- ===== src/Buffer/Contents.antt =====
-- What the ring of circ_buf.cpp holds, as a list, and what storing does to it.
use tcpoudp.Prelude.{
  ℕ, ◌+◌, ◌-◌, ◌%◌, ◌≤◌, ◌<◌, ◌≡◌, sym, ap, ap₂, ◌∙◌, List, ◌++◌, arith, ◌⊎◌, inl, inr, dec_le,
  dec_lt, length, get_or, take, copy_in, mod_cases, tabulate, tabulate_ext, tabulate-append,
  slice-tabulate,
}
use tcpoudp.Buffer.{CircularBuffer, memory, store}
use tcpoudp.Buffer.Window.{
  two_stretches, one_stretch_new, one_stretch_old, two_stretches_first, two_stretches_second,
  two_stretches_old,
}
use tcpoudp.Buffer.Bounds.{IsValid, tail_in, store-one, store-two}

-- The bytes stored, the oldest first.
abbrev pub contents : CircularBuffer → List ℕ
contents c = tabulate c.tot_el (λ k. get_or (memory c) ((c.hi + k) % c.size) 0)

module _ (c : CircularBuffer) (src : List ℕ) (n : ℕ) (v : IsValid c) (fits : n ≤ c.size - c.tot_el)
    (enough : n ≤ length src) where
  -- Where the old bytes lie, and where the new ones go.
  old_place :
      n ≤ c.size - c.ti
      → (k : ℕ) → k < c.tot_el
      → ((c.hi + k) % c.size < c.ti) ⊎ (c.ti + n ≤ (c.hi + k) % c.size)
  old_place q k h = elim (dec_lt ((c.hi + k) % c.size) c.ti) [
    | yes p ↦ inl p
    | no p ↦ inr (ground (arith, mod_cases (c.hi + k) c.size, mod_cases (c.hi + c.tot_el) c.size))
  ]

  new_place : (k : ℕ) → k < n → c.ti + k < c.size → (c.hi + (c.tot_el + k)) % c.size ≡ c.ti + k
  new_place k h q =
      ground (arith, mod_cases (c.hi + (c.tot_el + k)) c.size, mod_cases (c.hi + c.tot_el) c.size)

  new_place_round :
      (k : ℕ) → k < n → c.size ≤ c.ti + k → (c.hi + (c.tot_el + k)) % c.size ≡ k - (c.size - c.ti)
  new_place_round k h q =
      ground (arith, mod_cases (c.hi + (c.tot_el + k)) c.size, mod_cases (c.hi + c.tot_el) c.size)

  old_place_round :
      c.size - c.ti < n
      → (k : ℕ) → k < c.tot_el
      → (n - (c.size - c.ti) ≤ (c.hi + k) % c.size) × ((c.hi + k) % c.size < c.ti)
  old_place_round q k h =
      ground (arith, mod_cases (c.hi + k) c.size, mod_cases (c.hi + c.tot_el) c.size)

  -- A block that agrees with the old one on the old bytes, and with the source on the new.
  spliced :
      (m : List ℕ)
      → ((k : ℕ)
          → k < c.tot_el
          → get_or m ((c.hi + k) % c.size) 0 ≡ get_or (memory c) ((c.hi + k) % c.size) 0)
      → ((k : ℕ) → k < n → get_or m ((c.hi + (c.tot_el + k)) % c.size) 0 ≡ get_or src k 0)
      → tabulate (c.tot_el + n) (λ k. get_or m ((c.hi + k) % c.size) 0) ≡ contents c ++ take n src
  spliced m old new =
      sym (tabulate-append c.tot_el n (λ k. get_or m ((c.hi + k) % c.size) 0))
      ∙ ap₂ ◌++◌ (tabulate_ext c.tot_el _ _ old) (
          tabulate_ext n _ _ (λ k h. new k h ∙ ap (λ (t : ℕ). get_or src t 0) (shift k))
          ∙ sym (slice-tabulate src 0 n 0 (omega arith)))
    where
      shift : (k : ℕ) → k ≡ 0 + k
      shift k = omega arith

  contents-one :
      n ≤ c.size - c.ti
      → tabulate
          (c.tot_el + n)
          (λ k. get_or (copy_in (memory c) c.ti (take n src)) ((c.hi + k) % c.size) 0)
        ≡ contents c ++ take n src
  contents-one q =
      spliced (copy_in (memory c) c.ti (take n src))
        (λ k h.
          one_stretch_old (memory c) src c.size c.ti n v.storage enough (omega (arith, tail_in c v))
            _ (old_place q k h))
        (λ k h. rw (new_place k h (omega (arith, tail_in c v))) (
          one_stretch_new (memory c) src c.size c.ti n v.storage enough (omega (arith, tail_in c v))
            k h))

  contents-two :
      c.size - c.ti < n
      → tabulate
          (c.tot_el + n)
          (λ k. get_or (two_stretches (memory c) src c.size c.ti n) ((c.hi + k) % c.size) 0)
        ≡ contents c ++ take n src
  contents-two q =
      spliced (two_stretches (memory c) src c.size c.ti n)
        (λ k h.
          let p = old_place_round q k h in
          two_stretches_old (memory c) src c.size c.ti n v.storage enough (tail_in c v)
            (omega arith) (omega arith) _ p.0 p.1)
        (λ k h. elim (dec_lt (c.ti + k) c.size) [
          | yes p ↦ rw (new_place k h p) (
              two_stretches_first (memory c) src c.size c.ti n v.storage enough (tail_in c v)
                (omega arith) (omega arith) k (omega arith))
          | no p ↦ rw (new_place_round k h (omega arith)) (
              two_stretches_second (memory c) src c.size c.ti n v.storage enough (tail_in c v)
                (omega arith) (omega arith) (k - (c.size - c.ti)) (omega arith)
              ∙ ap (λ (t : ℕ). get_or src t 0) (back k p))
        ])
    where
      back : (k : ℕ) → ¬ (c.ti + k < c.size) → c.size - c.ti + (k - (c.size - c.ti)) ≡ k
      back k p = omega (arith, tail_in c v)

  -- Storing the first n bytes of a block, where they fit the valid ring and the block has them,
  -- appends them to the contents.
  pub contents-store : contents (store c (memory c) src n).buffer ≡ contents c ++ take n src
  contents-store = elim (dec_le n (c.size - c.ti)) [
    | yes q ↦ rw (store-one c src n v fits q) (contents-one q)
    | no q ↦ rw (store-two c src n v fits (omega arith)) (contents-two (omega arith))
  ]
