-- ===== src/Buffer.antt =====
-- The byte ring of src/lib/circ_buf.h and circ_buf.cpp. `cb_mtx` makes every member but the insertion with
-- positions one atomic step; a function that updates the object returns its result beside the new
-- object. An `int` or `unsigned` is its 32-bit pattern, a `char` any number.
pub mod Window
pub mod Bounds
pub mod Contents
pub mod Reading
pub mod Queue
pub mod Insertion
pub mod Refine
pub mod Setup
mod Tests
use tcpoudp.Prelude.{
  ℕ, ◌%◌, Option, none, some, List, [], ◌++◌, take, drop, copy_in, ltb, ◌==◌, if◌then◌else◌, add32,
  sub32, minus_one, nonpositive, lt_int,
}

-- The members of `CircularBuffer`; `buf` is `none` where `m_buf` is NULL.
pub record CircularBuffer : Type 0 where
  pub size : ℕ
  pub hi : ℕ
  pub ti : ℕ
  pub tot_el : ℕ
  pub buf : Option (List ℕ)

abbrev pub dsize : ℕ
dsize = 4096

-- The constructor.
unfoldable pub new_buffer : CircularBuffer
new_buffer = record { size = dsize; hi = 0; ti = 0; tot_el = 0; buf = none }

-- The bytes behind `m_buf`.
abbrev pub memory : CircularBuffer → List ℕ
memory c = elim c.buf [ none ↦ [] | some m ↦ m ]

-- What the insertion with positions leaves: its result, `start` and `end` where it sets them, and
-- the buffer.
pub record Inserted : Type 0 where
  pub ret : ℕ
  pub span : Option (ℕ × ℕ)
  pub buffer : CircularBuffer

-- The two copies: `first` bytes at the tail, and `second` more at the start of the block.
unfoldable pub store_parts : CircularBuffer → List ℕ → List ℕ → ℕ → ℕ → ℕ → Inserted
store_parts c mem src n first second =
    let mem₁ = copy_in mem c.ti (take first src) in
    let ti₁ = add32 c.ti first % c.size in
    if ltb 0 second
    then (record {
      ret = n;
      span = some (c.ti, second);
      buffer = record c {
        ti = second;
        tot_el = add32 c.tot_el n;
        buf = some (copy_in mem₁ ti₁ (take second (drop first src)));
      };
    })
    else (record {
      ret = n;
      span = some (c.ti, ti₁);
      buffer = record c { ti = ti₁; tot_el = add32 c.tot_el n; buf = some mem₁ };
    })

-- The insertion of `n` bytes that fit.
unfoldable pub store : CircularBuffer → List ℕ → List ℕ → ℕ → Inserted
store c mem src n =
    let room = sub32 c.size c.ti in
    if ltb room n then store_parts c mem src n room (sub32 n room) else store_parts c mem src n n 0

-- `none` is the failed `assert(0 < an)`.
unfoldable pub insert_into : CircularBuffer → List ℕ → List ℕ → ℕ → Option Inserted
insert_into c mem src n =
    let an = sub32 c.size c.tot_el in
    if an == 0
    then some (record { ret = 0; span = none; buffer = c })
    else if lt_int 0 an
    then some (store c mem src (if lt_int an n then an else n))
    else none

module _ (malloc : ℕ → Option (List ℕ)) where
  -- `m_buf` where it is set, and a fresh block otherwise.
  abbrev pub allocate : CircularBuffer → Option (List ℕ)
  allocate c = elim c.buf [ none ↦ malloc c.size | some m ↦ some m ]

  unfoldable pub insert_at : CircularBuffer → List ℕ → ℕ → Option Inserted
  insert_at c src n =
      if nonpositive n
      then some (record { ret = 0; span = none; buffer = c })
      else elim (allocate c) [
        | none ↦ some (record { ret = minus_one; span = none; buffer = c })
        | some m ↦ insert_into (record c { buf = some m }) m src n
      ]

  -- Bytes are taken all or none, and only where one place stays free.
  unfoldable pub insert : CircularBuffer → List ℕ → ℕ → Option (ℕ × CircularBuffer)
  insert c src n =
      if ltb n (sub32 c.size c.tot_el)
      then elim (insert_at c src n) [ none ↦ none | some r ↦ some (r.ret, r.buffer) ]
      else some (0, c)

  -- `free` gives the old block back; what it held is lost.
  unfoldable pub set_size : CircularBuffer → ℕ → ℕ × CircularBuffer
  set_size c n = if nonpositive n then (minus_one, c) else elim (malloc n) [
    | none ↦ (minus_one, record c { size = n; buf = none })
    | some m ↦ (1, record c { size = n; buf = some m })
  ]

unfoldable pub remove : CircularBuffer → ℕ → ℕ × CircularBuffer
remove c n =
    if c.tot_el == 0
    then (0, c)
    else if nonpositive n
    then (0, c)
    else if ltb c.tot_el n
    then (c.tot_el, record c { hi = c.ti; tot_el = 0 })
    else (n, record c { hi = add32 c.hi n % c.size; tot_el = sub32 c.tot_el n })

-- What a read leaves: its result, the bytes put at `buf`, and `end` where it is set.
pub record Fetched : Type 0 where
  pub ret : ℕ
  pub bytes : List ℕ
  pub end : Option ℕ

-- The two copies out: `first` bytes from `start`, and `second` more from the start of the block.
unfoldable pub fetch_parts : CircularBuffer → ℕ → ℕ → ℕ → ℕ → Fetched
fetch_parts c start n first second =
    if ltb 0 second
    then (record {
      ret = n;
      bytes = take first (drop start (memory c)) ++ take second (memory c);
      end = some second;
    })
    else (record {
      ret = n;
      bytes = take first (drop start (memory c));
      end = some (add32 start first % c.size);
    })

-- The read of `n` bytes from `start` on, going round at the end.
unfoldable pub fetch : CircularBuffer → ℕ → ℕ → Fetched
fetch c start n =
    let room = sub32 c.size start in
    if ltb room n then fetch_parts c start n room (sub32 n room) else fetch_parts c start n n 0

abbrev pub nothing_fetched : Fetched
nothing_fetched = record { ret = 0; bytes = []; end = none }

-- `getAt(buf, start, n, end)`, which does not compare `n` with what is stored.
unfoldable pub get_at_from : CircularBuffer → ℕ → ℕ → Fetched
get_at_from c start n =
    if nonpositive n
    then nothing_fetched
    else if c.tot_el == 0
    then nothing_fetched
    else fetch c start n

-- `getAt(buf, n, end)`, from the head.
unfoldable pub get_at : CircularBuffer → ℕ → Fetched
get_at c n =
    if nonpositive n
    then nothing_fetched
    else if c.tot_el == 0
    then nothing_fetched
    else fetch c c.hi (if ltb c.tot_el n then c.tot_el else n)

unfoldable pub get_head : CircularBuffer → ℕ
get_head c = c.hi

unfoldable pub get_size : CircularBuffer → ℕ
get_size c = c.size

unfoldable pub get_av_size : CircularBuffer → ℕ
get_av_size c = sub32 c.size c.tot_el

unfoldable pub get_total_elements : CircularBuffer → ℕ
get_total_elements c = c.tot_el
