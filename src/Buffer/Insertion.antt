-- ===== src/Buffer/Insertion.antt =====
-- What `insert` of circ_buf.cpp does to a valid buffer.
use tcpoudp.Prelude.{
  ℕ, ◌+◌, ◌-◌, ◌≤◌, ◌<◌, ◌≡◌, refl, sym, ap, ◌∙◌, Option, some, none, List, [], ◌++◌, arith, dec_lt,
  length, half_word, inl, inr, ◌⊎◌, take_all, Holds,
}
use tcpoudp.Buffer.{CircularBuffer, memory, store, store_parts, insert_into, insert_at, insert}
use tcpoudp.Buffer.Bounds.{IsValid, store-IsValid, sub_total}
use tcpoudp.Buffer.Contents.{contents, contents-store}

-- A block that is there.
allocated : (c : CircularBuffer) → IsValid c → c.buf ≡ some (memory c)
allocated c v = by_cases c.buf refl
  where
    by_cases : (b : Option (List ℕ)) → c.buf ≡ b → c.buf ≡ some (memory c)
    by_cases none e = absurd (omega (arith, v.positive, v.storage, ap length (empty e)))
      where
        empty : c.buf ≡ none → memory c ≡ []
        empty e' = rw (e', memory)
    by_cases (some m) e = rw (e, memory)

with_block : (c : CircularBuffer) → IsValid c → record c { buf = some (memory c) } ≡ c
with_block c v = ap (λ (b : Option (List ℕ)). record c { buf = b }) (sym (allocated c v))

pub size-store :
    (c : CircularBuffer) (mem src : List ℕ) (n : ℕ) → (store c mem src n).buffer.size ≡ c.size
unfolding store store_parts
size-store c mem src n = ground arith

total-store :
    (c : CircularBuffer) (src : List ℕ)
    → IsValid c
    → length src < c.size - c.tot_el
    → (store c (memory c) src (length src)).buffer.tot_el ≡ c.tot_el + length src
unfolding store store_parts
total-store c src v q = ground arith

ret-store : (c : CircularBuffer) (mem src : List ℕ) (n : ℕ) → (store c mem src n).ret ≡ n
unfolding store store_parts
ret-store c mem src n = ground arith

module _ (malloc : ℕ → Option (List ℕ)) where
  module _ (c : CircularBuffer) (src : List ℕ) (v : IsValid c) where
    insert_into-taken :
        0 < length src
        → length src < half_word
        → length src < c.size - c.tot_el
        → insert_into c (memory c) src (length src) ≡ some (store c (memory c) src (length src))
    unfolding insert_into
    insert_into-taken p s q = ground (arith, sub_total c v)

    pub insert-taken :
        0 < length src
        → length src < half_word
        → length src < c.size - c.tot_el
        → insert malloc c src (length src)
          ≡ some (length src, (store c (memory c) src (length src)).buffer)
    unfolding insert insert_at
    insert-taken p s q = ground (
      arith,
      sub_total c v,
      allocated c v,
      ap (λ (d : CircularBuffer). insert_into d (memory c) src (length src)) (with_block c v),
      insert_into-taken p s q,
      ret-store c (memory c) src (length src),
    )

    pub insert-refused :
        length src < half_word
        → c.size - c.tot_el ≤ length src
        → insert malloc c src (length src) ≡ some (0, c)
    unfolding insert
    insert-refused s q = ground (arith, sub_total c v)

    pub insert-nothing : length src ≡ 0 → insert malloc c src (length src) ≡ some (0, c)
    unfolding insert insert_at
    insert-nothing e = ground arith

  -- An insertion either takes the whole block, or leaves the buffer as it was.
  pub insert_cases :
      (c : CircularBuffer) (src : List ℕ)
      → IsValid c
      → 0 < length src
      → length src < half_word
      → ((length src < c.size - c.tot_el)
          × (c' : CircularBuffer) × (insert malloc c src (length src) ≡ some (length src, c'))
          × IsValid c'
          × (contents c' ≡ contents c ++ src)
          × (c'.size ≡ c.size)
          × (c'.tot_el ≡ c.tot_el + length src))
        ⊎ ((c.size - c.tot_el ≤ length src) × (insert malloc c src (length src) ≡ some (0, c)))
  insert_cases c src v p s = elim (dec_lt (length src) (c.size - c.tot_el)) [
    | no q ↦ inr (omega arith, insert-refused c src v s (omega arith))
    | yes q ↦ inl (
      q,
      (store c (memory c) src (length src)).buffer,
      insert-taken c src v p s q,
      store-IsValid c src (length src) v (omega arith) (omega arith),
      contents-store c src (length src) v (omega arith) (omega arith)
          ∙ ap (◌++◌ (contents c)) (take_all (length src) src (omega arith)),
      size-store c (memory c) src (length src),
      total-store c src v q,
    )
  ]

  -- Whatever an insertion does, the buffer stays valid.
  pub insert-IsValid :
      (c : CircularBuffer) (src : List ℕ)
      → IsValid c
      → length src < half_word
      → Holds (λ (r : ℕ × CircularBuffer). IsValid r.1) (insert malloc c src (length src))
  insert-IsValid c src v s = elim (dec_lt 0 (length src)) [
    | no z ↦ rw (insert-nothing c src v (omega arith), Holds) v
    | yes p ↦ elim (insert_cases c src v p s) [
      | inl (_, c', e, v', _, _, _) ↦ rw (e, Holds) v'
      | inr (_, e) ↦ rw (e, Holds) v
    ]
  ]
