-- ===== src/Buffer/Refine.antt =====
-- circ_buf.cpp implements the bounded queue of `Buffer.Queue`.
use tcpoudp.Prelude.{
  ℕ, ◌-◌, ◌<◌, ◌≡◌, zero, suc, refl, Option, some, none, List, [], ◌∷◌, ◌++◌, arith, true, dec_lt,
  length, take, half_word, nonpositive, Bool-cases, inl, inr, append-nil, take_all,
}
use tcpoudp.Buffer.{CircularBuffer, nothing_fetched, memory, store, insert, remove, get_at}
use tcpoudp.Buffer.Bounds.{IsValid, store-IsValid}
use tcpoudp.Buffer.Contents.{contents, contents-store}
use tcpoudp.Buffer.Reading.{remove-Removed, get_at_lem, length-contents}
use tcpoudp.Buffer.Queue
use tcpoudp.Buffer.Queue.{Op, put, drop_front, look, Reply}
use tcpoudp.Buffer.Insertion.{size-store, insert-taken, insert-refused, insert-nothing}

-- A block fits an `int`.
abbrev pub FitsInt : Op → Type 0
FitsInt (put src) = length src < half_word
FitsInt (drop_front n) = Unit {0}
FitsInt (look n) = Unit {0}

abbrev pub AllFit : List Op → Type 0
AllFit [] = Unit {0}
AllFit (op ∷ ops) = FitsInt op × AllFit ops

append-empty : (xs ys : List ℕ) → length ys ≡ 0 → xs ++ ys ≡ xs
append-empty xs [] h = append-nil xs
append-empty xs (y ∷ ys) h = absurd (omega arith)

take_nothing : (n : ℕ) (xs : List ℕ) → length xs ≡ 0 → take n xs ≡ []
take_nothing zero xs h = refl
take_nothing (suc n) [] h = refl
take_nothing (suc n) (x ∷ xs) h = absurd (omega arith)

pub remove-nonpositive : (c : CircularBuffer) (n : ℕ) → nonpositive n ≡ true → remove c n ≡ (0, c)
unfolding remove
remove-nonpositive c n e = ground arith

get_at-nonpositive :
    (c : CircularBuffer) (n : ℕ) → nonpositive n ≡ true → get_at c n ≡ nothing_fetched
unfolding get_at
get_at-nonpositive c n e = ground arith

pub get_at-empty : (c : CircularBuffer) (n : ℕ) → c.tot_el ≡ 0 → get_at c n ≡ nothing_fetched
unfolding get_at
get_at-empty c n e = ground arith

module _ (malloc : ℕ → Option (List ℕ)) where
  -- The call of a client on the code, with what it sees; `none` is an abort.
  unfoldable pub step : CircularBuffer → Op → Option (Reply × CircularBuffer)
  step c (put src) = elim (insert malloc c src (length src)) [
    | none ↦ none
    | some (r, c') ↦ some ((r, []), c')
  ]
  step c (drop_front n) = let (r, c') = remove c n in some ((r, []), c')
  step c (look n) = let f = get_at c n in some ((f.ret, f.bytes), c)

  unfoldable pub run : CircularBuffer → List Op → Option (List Reply)
  run c [] = some []
  run c (op ∷ ops) = elim (step c op) [
    | none ↦ none
    | some (r, c') ↦ elim (run c' ops) [ none ↦ none | some rs ↦ some (r ∷ rs) ]
  ]

  -- What one call must leave, against the queue's answer.
  record Refines (size : ℕ) (want : Reply × List ℕ) (got : Option (Reply × CircularBuffer))
      : Type 0 where
    after : CircularBuffer
    answer : got ≡ some (want.0, after)
    holds : contents after ≡ want.1
    valid : IsValid after
    same_size : after.size ≡ size

  module _ (c : CircularBuffer) (v : IsValid c) where
    put-Refines :
        (src : List ℕ)
        → length src < half_word
        → Refines c.size (Queue.step c.size (contents c) (put src)) (step c (put src))
    unfolding step Queue.step
    put-Refines src s = elim (dec_lt (length src) (c.size - c.tot_el)) [
      | no q ↦ record {
        after = c;
        answer = ground (arith, insert-refused malloc c src v s, length-contents c 0 v);
        holds = ground (arith, length-contents c 0 v);
        valid = v;
        same_size = refl;
      }
      | yes q ↦ elim (dec_lt 0 (length src)) [
        | yes p ↦ record {
          after = (store c (memory c) src (length src)).buffer;
          answer = ground (arith, insert-taken malloc c src v p s q, length-contents c 0 v);
          holds = ground (
            arith,
            contents-store c src (length src) v,
            take_all (length src) src,
            length-contents c 0 v,
          );
          valid = store-IsValid c src (length src) v (omega arith) (omega arith);
          same_size = size-store c (memory c) src (length src);
        }
        | no p ↦ record {
          after = c;
          answer = ground (arith, insert-nothing malloc c src v, length-contents c 0 v);
          holds = ground (arith, length-contents c 0 v, append-empty (contents c) src);
          valid = v;
          same_size = refl;
        }
      ]
    ]

    drop-Refines :
        (n : ℕ)
        → Refines c.size (Queue.step c.size (contents c) (drop_front n)) (step c (drop_front n))
    unfolding step Queue.step
    drop-Refines n = elim (Bool-cases (nonpositive n)) [
      | inl e ↦ record {
        after = c;
        answer = ground (arith, remove-nonpositive c n);
        holds = ground arith;
        valid = v;
        same_size = refl;
      }
      | inr e ↦
          let r = remove-Removed c n v e in
          record {
            after = (remove c n).1;
            answer = ground (arith, length-contents c n v);
            holds = rw e r.rest;
            valid = r.valid;
            same_size = r.same_size;
          }
    ]

    look-Refines :
        (n : ℕ) → Refines c.size (Queue.step c.size (contents c) (look n)) (step c (look n))
    unfolding step Queue.step
    look-Refines n = record {
      after = c;
      answer = ground (
        arith,
        get_at-nonpositive c n,
        get_at-empty c n,
        get_at_lem c n v,
        length-contents c n v,
        take_nothing n (contents c),
      );
      holds = ground arith;
      valid = v;
      same_size = refl;
    }

  step-Refines :
      (op : Op) (c : CircularBuffer)
      → IsValid c
      → FitsInt op
      → Refines c.size (Queue.step c.size (contents c) op) (step c op)
  step-Refines (put src) c v s = put-Refines c v src s
  step-Refines (drop_front n) c v s = drop-Refines c v n
  step-Refines (look n) c v s = look-Refines c v n

  -- Over any history of insertions, removals and reads whose blocks fit an int, a valid ring buffer
  -- never fails its assertion and answers each call as the bounded queue of its contents does.
  pub run_refines :
      (ops : List Op) (c : CircularBuffer)
      → IsValid c
      → AllFit ops
      → run c ops ≡ some (Queue.run c.size (contents c) ops)
  unfolding run Queue.run
  run_refines [] c v f = refl
  run_refines (op ∷ ops) c v f =
      let r = step-Refines op c v f.0 in
      ground (arith, r.answer, run_refines ops r.after r.valid f.1, r.holds, r.same_size)
