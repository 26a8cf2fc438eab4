-- ===== src/Buffer/Bounds.antt =====
-- The invariant of `CircularBuffer` and what each member of circ_buf.cpp does to it.
use native.Mathlib.Nat.{mod_self}
use tcpoudp.Prelude.{
  ℕ, ◌+◌, ◌-◌, ◌%◌, ◌≤◌, ◌<◌, ◌≡◌, some, List, arith, dec_le, length, take, copy_in, mod_cases,
  length-copy_in, half_word, sub32, add32,
}
use tcpoudp.Buffer.{CircularBuffer, memory, store_parts, store}
use tcpoudp.Buffer.Window.{two_stretches, length-two_stretches}

-- The head lies in the ring, the tail stands behind what is stored, and the block is there.
pub record IsValid (c : CircularBuffer) : Type 0 where
  pub positive : 0 < c.size
  pub small : c.size < half_word
  pub head_in : c.hi < c.size
  pub count_in : c.tot_el ≤ c.size
  pub tail_at : c.ti ≡ (c.hi + c.tot_el) % c.size
  pub storage : length (memory c) ≡ c.size

module _ (c : CircularBuffer) (v : IsValid c) where
  pub tail_in : c.ti < c.size
  tail_in = omega arith

  -- `m_uiSize - m_uiTi` and `m_uiSize - m_uiTotEl` do not wrap.
  pub sub_tail : sub32 c.size c.ti ≡ c.size - c.ti
  sub_tail = omega arith

  pub sub_total : sub32 c.size c.tot_el ≡ c.size - c.tot_el
  sub_total = omega arith

module _ (c : CircularBuffer) (src : List ℕ) (n : ℕ) (v : IsValid c)
    (fits : n ≤ c.size - c.tot_el) where
  pub store-one :
      n ≤ c.size - c.ti
      → store c (memory c) src n ≡ record {
        ret = n;
        span = some (c.ti, (c.ti + n) % c.size);
        buffer = record c {
          ti = (c.ti + n) % c.size;
          tot_el = c.tot_el + n;
          buf = some (copy_in (memory c) c.ti (take n src));
        };
      }
  unfolding store store_parts
  store-one q = ground (arith, sub_tail c v, tail_in c v)

  pub store-two :
      c.size - c.ti < n
      → store c (memory c) src n ≡ record {
        ret = n;
        span = some (c.ti, n - (c.size - c.ti));
        buffer = record c {
          ti = n - (c.size - c.ti);
          tot_el = c.tot_el + n;
          buf = some (two_stretches (memory c) src c.size c.ti n);
        };
      }
  unfolding store store_parts
  store-two q = ground (arith, sub_tail c v, tail_in c v, lap)
    where
      lap : add32 c.ti (c.size - c.ti) % c.size ≡ 0
      lap =
          let whole : add32 c.ti (c.size - c.ti) ≡ c.size = omega arith in
          rw whole (mod_self c.size)

module _ (c : CircularBuffer) (src : List ℕ) (n : ℕ) (v : IsValid c) (fits : n ≤ c.size - c.tot_el)
    (enough : n ≤ length src) where
  -- Storing the first n bytes of a block, where they fit the valid ring and the block has them,
  -- leaves a valid buffer.
  pub store-IsValid : IsValid (store c (memory c) src n).buffer
  store-IsValid = elim (dec_le n (c.size - c.ti)) [
    | yes q ↦ rw (store-one c src n v fits q) (one q)
    | no q ↦ rw (store-two c src n v fits (omega arith)) (two (omega arith))
  ]
    where
      one :
          n ≤ c.size - c.ti
          → IsValid (record c {
            ti = (c.ti + n) % c.size;
            tot_el = c.tot_el + n;
            buf = some (copy_in (memory c) c.ti (take n src));
          })
      one q = ground (
        arith,
        length-copy_in (memory c) c.ti (take n src),
        mod_cases (c.hi + c.tot_el) c.size,
        mod_cases (c.hi + (c.tot_el + n)) c.size,
        mod_cases (c.ti + n) c.size,
      )

      two :
          c.size - c.ti < n
          → IsValid (record c {
            ti = n - (c.size - c.ti);
            tot_el = c.tot_el + n;
            buf = some (two_stretches (memory c) src c.size c.ti n);
          })
      two q = ground (
        arith,
        length-two_stretches (memory c) src c.size c.ti n,
        mod_cases (c.hi + c.tot_el) c.size,
        mod_cases (c.hi + (c.tot_el + n)) c.size,
      )
