-- ===== src/Buffer/Setup.antt =====
-- Where a buffer of circ_buf.cpp comes from: the constructor, `setSize`, and the first insertion.
use tcpoudp.Prelude.{
  ℕ, ◌<◌, ◌≡◌, Option, some, List, [], arith, length, half_word, tabulate_count, mod_cases, ◌+◌,
  ◌%◌, get_or,
}
use tcpoudp.Buffer.{CircularBuffer, set_size, get_av_size}
use tcpoudp.Buffer.Bounds.{IsValid}
use tcpoudp.Buffer.Contents.{contents}

module _ (malloc : ℕ → Option (List ℕ)) (n : ℕ) (m : List ℕ) (got : malloc n ≡ some m) where
  set_size_lem :
      (c : CircularBuffer)
      → 0 < n
      → n < half_word
      → set_size malloc c n ≡ (1, record c { size = n; buf = some m })
  unfolding set_size
  set_size_lem c p s = ground arith

  -- After setSize to a positive size that fits an int and for which malloc gives a block of that
  -- size, a buffer without bytes whose indices are equal and lie in the new ring is valid and empty.
  pub set_size-IsValid :
      (c : CircularBuffer)
      → length m ≡ n
      → 0 < n
      → n < half_word
      → c.tot_el ≡ 0
      → c.hi < n
      → c.ti ≡ c.hi
      → IsValid (set_size malloc c n).1 × (contents (set_size malloc c n).1 ≡ [])
  set_size-IsValid c l p s e h t = rw (set_size_lem c p s) (
    ground (arith, mod_cases (c.hi + c.tot_el) n),
    tabulate_count {m = c.tot_el} {n = 0} (λ k. get_or m ((c.hi + k) % n) 0) e,
  )

  -- After setSize to a positive size below the number of bytes stored, which fits an int, where
  -- malloc gives a block, the free space reported is more than the whole ring.
  pub set_size-shrink :
      (c : CircularBuffer)
      → 0 < n
      → n < c.tot_el
      → c.tot_el < half_word
      → n < get_av_size (set_size malloc c n).1
  unfolding set_size get_av_size
  set_size-shrink c p h s = ground arith
