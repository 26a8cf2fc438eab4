-- ===== src/Buffer/Queue.antt =====
-- What a `CircularBuffer` promises its clients: a bounded queue of bytes. It takes a block of bytes
-- whole or not at all, and one place always stays free.
use tcpoudp.Prelude.{
  ℕ, ◌+◌, List, [], ◌∷◌, ◌++◌, length, take, drop, min, ltb, if◌then◌else◌, nonpositive,
}

-- The calls of a client: `insert(buf, length buf)`, `remove(n)` and `getAt(buf, n, end)`.
pub data Op : Type 0 where
  put : List ℕ → Op
  drop_front : ℕ → Op
  look : ℕ → Op

-- What it sees: the result, and the bytes read.
abbrev pub Reply : Type 0
Reply = ℕ × List ℕ

unfoldable pub step : ℕ → List ℕ → Op → Reply × List ℕ
step cap q (put src) =
    if ltb (length q + length src) cap then ((length src, []), q ++ src) else ((0, []), q)
step cap q (drop_front n) =
    if nonpositive n then ((0, []), q) else ((min n (length q), []), drop n q)
step cap q (look n) = if nonpositive n then ((0, []), q) else ((min n (length q), take n q), q)

unfoldable pub run : ℕ → List ℕ → List Op → List Reply
run cap q [] = []
run cap q (op ∷ ops) = let (r, q') = step cap q op in r ∷ run cap q' ops
