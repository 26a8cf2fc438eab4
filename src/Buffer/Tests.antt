-- ===== src/Buffer/Tests.antt =====
-- The buffer of circ_buf.cpp on concrete inputs.
use tcpoudp.Prelude.{◌≡◌, refl, some, [], ◌∷◌, arith}
use tcpoudp.Buffer.{
  CircularBuffer, insert, insert_at, insert_into, store, store_parts, remove, get_at, fetch,
  fetch_parts,
}
use tcpoudp.Samples.{zeros, two_free}
use tcpoudp.Buffer.Bounds.{IsValid}
use tcpoudp.Buffer.Contents.{contents}
use tcpoudp.Buffer.Queue
use tcpoudp.Buffer.Queue.{Op, put, drop_front, look}
use tcpoudp.Buffer.Refine.{run, step, run_refines}

-- 8 and 9 round the end of a ring of three places.
abbrev wrapped : CircularBuffer
wrapped = record { size = 3; hi = 2; ti = 1; tot_el = 2; buf = some (9 ∷ 7 ∷ 8 ∷ []) }

wrapped-IsValid : IsValid wrapped
wrapped-IsValid = omega arith

two_free-IsValid : IsValid two_free
two_free-IsValid = omega arith

contents-wrapped : contents wrapped ≡ 8 ∷ 9 ∷ []
contents-wrapped = refl

store_wraps :
    contents (store two_free (9 ∷ 7 ∷ 8 ∷ 1 ∷ 0 ∷ []) (2 ∷ 3 ∷ 4 ∷ []) 3).buffer
    ≡ 1 ∷ 2 ∷ 3 ∷ 4 ∷ []
unfolding store store_parts
store_wraps = refl

run-wrapped :
    run zeros two_free
      (put (2 ∷ 3 ∷ []) ∷ put (5 ∷ 6 ∷ []) ∷ look 9 ∷ drop_front 2 ∷ put (5 ∷ []) ∷ look 2 ∷ [])
    ≡ some ((2, []) ∷ (0, []) ∷ (3, 1 ∷ 2 ∷ 3 ∷ []) ∷ (2, []) ∷ (1, []) ∷ (2, 3 ∷ 5 ∷ []) ∷ [])
unfolding run step insert insert_at insert_into store store_parts remove get_at fetch fetch_parts
run-wrapped = refl

run_refines_example :
    run zeros two_free (put (2 ∷ 3 ∷ []) ∷ drop_front 2 ∷ look 2 ∷ [])
    ≡ some (Queue.run 5 (1 ∷ []) (put (2 ∷ 3 ∷ []) ∷ drop_front 2 ∷ look 2 ∷ []))
run_refines_example = run_refines zeros _ two_free two_free-IsValid (omega arith)
