-- ===== src/Buffer/Reading.antt =====
-- The reads and the removal of circ_buf.cpp, in terms of the bytes stored.
use tcpoudp.Prelude.{
  ℕ, ◌+◌, ◌-◌, ◌%◌, ◌≤◌, ◌<◌, ◌≡◌, zero, suc, ◌∷◌, refl, sym, ap, ◌∙◌, some, List, [], arith, false,
  dec_le, dec_lt, length, get_or, take, drop, mod_cases, sub32, min, tabulate, tabulate_ext,
  tabulate-append, slice-tabulate, take-tabulate, drop-tabulate, length-tabulate, nonpositive,
  drop_all, take_all,
}
use native.Mathlib.Nat.{mod-add-mod}
use tcpoudp.Buffer.{CircularBuffer, memory, fetch_parts, fetch, get_at, remove}
use tcpoudp.Buffer.Bounds.{IsValid}
use tcpoudp.Buffer.Contents.{contents}

-- The bytes at `n` places from `start` on, round the ring.
abbrev pub round : CircularBuffer → ℕ → ℕ → List ℕ
round c start n = tabulate n (λ k. get_or (memory c) ((start + k) % c.size) 0)

module _ (c : CircularBuffer) (start n : ℕ) (v : IsValid c) (inside : start < c.size)
    (most : n ≤ c.size) where
  room_lem : sub32 c.size start ≡ c.size - start
  room_lem = omega arith

  first_stretch : (m : ℕ) → m ≤ c.size - start → take m (drop start (memory c)) ≡ round c start m
  first_stretch m q =
      slice-tabulate (memory c) start m 0 (omega (arith, v.storage))
      ∙ tabulate_ext m _ _ (λ k h. ap (λ (t : ℕ). get_or (memory c) t 0) (place k h))
    where
      place : (k : ℕ) → k < m → start + k ≡ (start + k) % c.size
      place k h = ground (arith, mod_cases (start + k) c.size)

  second_stretch :
      c.size - start < n
      → take (n - (c.size - start)) (memory c)
        ≡ tabulate
            (n - (c.size - start))
            (λ k. get_or (memory c) ((start + (c.size - start + k)) % c.size) 0)
  second_stretch q =
      slice-tabulate (memory c) 0 (n - (c.size - start)) 0 (omega (arith, v.storage))
      ∙ tabulate_ext (n - (c.size - start)) _ _
          (λ k h. ap (λ (t : ℕ). get_or (memory c) t 0) (place k h))
    where
      place : (k : ℕ) → k < n - (c.size - start) → 0 + k ≡ (start + (c.size - start + k)) % c.size
      place k h = ground (arith, mod_cases (start + (c.size - start + k)) c.size)

  pub fetch_lem :
      0 < n
      → fetch c start n
        ≡ record { ret = n; bytes = round c start n; end = some ((start + n) % c.size) }
  unfolding fetch fetch_parts
  fetch_lem pos = elim (dec_le n (c.size - start)) [
    | yes q ↦ ground (arith, room_lem, first_stretch n q, mod_cases (start + n) c.size)
    | no q ↦ ground (
      arith,
      room_lem,
      first_stretch (c.size - start),
      second_stretch,
      mod_cases (start + n) c.size,
      tabulate-append (c.size - start) (n - (c.size - start))
          (λ k. get_or (memory c) ((start + k) % c.size) 0),
      whole,
    )
  ]
    where
      whole :
          c.size - start < n
          → round c start (c.size - start + (n - (c.size - start))) ≡ round c start n
      whole q = ap (round c start) (omega arith)

pub drop-none : (xs : List ℕ) (n : ℕ) → length xs ≡ 0 → drop n xs ≡ xs
drop-none [] zero h = refl
drop-none [] (suc n) h = refl
drop-none (x ∷ xs) n h = absurd (omega arith)

module _ (c : CircularBuffer) (n : ℕ) (v : IsValid c) where
  pub length-contents : length (contents c) ≡ c.tot_el
  length-contents = length-tabulate c.tot_el (λ k. get_or (memory c) ((c.hi + k) % c.size) 0)

  -- A read from the head gives the oldest bytes, at most `n`, and changes nothing.
  pub get_at_lem :
      nonpositive n ≡ false
      → 0 < c.tot_el
      → get_at c n ≡ record {
        ret = min n c.tot_el;
        bytes = take n (contents c);
        end = some ((c.hi + min n c.tot_el) % c.size);
      }
  unfolding get_at
  get_at_lem p q = elim (dec_lt c.tot_el n) [
    | yes h ↦ ground (arith, fetch_lem c c.hi c.tot_el v, take_all n (contents c), length-contents)
    | no h ↦ ground (
      arith,
      fetch_lem c c.hi n v,
      take-tabulate n c.tot_el (λ k. get_or (memory c) ((c.hi + k) % c.size) 0),
    )
  ]

  pub remove-empty : c.tot_el ≡ 0 → remove c n ≡ (0, c)
  unfolding remove
  remove-empty h = ground arith

  module _ (some_bytes : nonpositive n ≡ false) (stored : 0 < c.tot_el) where
    remove-most : c.tot_el < n → remove c n ≡ (c.tot_el, record c { hi = c.ti; tot_el = 0 })
    unfolding remove
    remove-most h = ground arith

    remove-part :
        n ≤ c.tot_el
        → remove c n ≡ (n, record c { hi = (c.hi + n) % c.size; tot_el = c.tot_el - n })
    unfolding remove
    remove-part h = ground arith

  drained-IsValid : IsValid (record c { hi = c.ti; tot_el = 0 })
  drained-IsValid = ground (arith, mod_cases (c.hi + c.tot_el) c.size, mod_cases (c.ti + 0) c.size)

  module _ (h : n ≤ c.tot_el) where
    advanced-IsValid : IsValid (record c { hi = (c.hi + n) % c.size; tot_el = c.tot_el - n })
    advanced-IsValid = ground (
      arith,
      mod_cases (c.hi + n) c.size,
      mod_cases (c.hi + c.tot_el) c.size,
      mod_cases ((c.hi + n) % c.size + (c.tot_el - n)) c.size,
    )

    contents-advanced :
        tabulate (c.tot_el - n) (λ k. get_or (memory c) (((c.hi + n) % c.size + k) % c.size) 0)
        ≡ drop n (contents c)
    contents-advanced =
        tabulate_ext (c.tot_el - n) _ _ (λ k q.
          ap (λ (t : ℕ). get_or (memory c) t 0)
            (mod-add-mod (c.hi + n) c.size k ∙ ap (λ (t : ℕ). t % c.size) (regroup k)))
        ∙ sym (drop-tabulate n c.tot_el (λ k. get_or (memory c) ((c.hi + k) % c.size) 0) h)
      where
        regroup : (k : ℕ) → c.hi + n + k ≡ c.hi + (n + k)
        regroup k = omega arith

  -- What a removal of `n` bytes must have done.
  pub record Removed (r : ℕ × CircularBuffer) : Type 0 where
    pub count : r.0 ≡ min n c.tot_el
    pub rest : contents r.1 ≡ drop n (contents c)
    pub valid : IsValid r.1
    pub same_size : r.1.size ≡ c.size

  pub remove-Removed : nonpositive n ≡ false → Removed (remove c n)
  remove-Removed p = elim (dec_lt 0 c.tot_el) [
    | no h ↦ rw (remove-empty (omega arith)) (record {
      count = omega arith;
      rest = sym (drop-none (contents c) n (omega (arith, length-contents)));
      valid = v;
      same_size = refl;
    })
    | yes h ↦ elim (dec_lt c.tot_el n) [
      | yes q ↦ rw (remove-most p h q) (record {
        count = omega arith;
        rest = sym (drop_all n (contents c) (omega (arith, length-contents)));
        valid = drained-IsValid;
        same_size = refl;
      })
      | no q ↦ rw (remove-part p h (omega arith)) (record {
        count = omega arith;
        rest = contents-advanced (omega arith);
        valid = advanced-IsValid (omega arith);
        same_size = refl;
      })
    ]
  ]
