-- ===== src/Run/Round.antt =====
-- The first round of `run` in processtou.cpp, and how its rounds follow each other.
use tcpoudp.Prelude.{
  ℕ, suc, ◌≤◌, ◌*◌, ◌+◌, ◌≡◌, refl, ap, ◌∙◌, false, none, some, List, ◌∷◌, length, arith, take,
  ◌==◌, nonpositive, length-take,
}
use tcpoudp.Link.{Arrival, Link, Env}
use tcpoudp.Packet.{Packet, header_size, parse}
use tcpoudp.Process.{classify}
use tcpoudp.Socket.{RunState, end_run, get_pkt}
use tcpoudp.Run.{
  goto, leave, recv_buf_size, recv_in, run_recvfrom, fetch_pkt, to_state, step, returned, aborted,
  run_loop, run,
}

pub run_loop-goto :
    (env : Env) (fuel : ℕ) (s s' : RunState) (l l' : Link)
    → step env s l ≡ some (goto s' l')
    → run_loop env (suc fuel) s l ≡ run_loop env fuel s' l'
unfolding run_loop
run_loop-goto env fuel s s' l l' e = rw (e, run_loop) refl

pub run_loop-leave :
    (env : Env) (fuel : ℕ) (s : RunState) (l l' : Link) (r : ℕ)
    → step env s l ≡ some (leave r l')
    → run_loop env (suc fuel) s l ≡ returned r l'
unfolding run_loop
run_loop-leave env fuel s l l' r e = rw (e, run_loop) refl

pub step-end :
    (env : Env) (p : Packet) (l : Link)
    → l.tp ≡ some p
    → step env end_run l ≡ some (leave l.rv (record l { tp = none }))
unfolding step
step-end env p l e = rw e refl

positive : (n : ℕ) → header_size ≤ n → (n == 0) ≡ false
positive n h = ground arith

fits : (n : ℕ) → header_size ≤ n → n ≤ recv_buf_size → nonpositive n ≡ false
fits n h k = ground arith

-- What `run` starts with, and what it holds after its first datagram.
abbrev pub fresh : Link → Link
fresh l = record l { tp = none; rv = 0 }

abbrev pub text : Arrival → List ℕ
text a = take recv_buf_size a.content

abbrev pub holding : Link → Arrival → List Arrival → Packet → Link
holding l a rest q = record l { inbox = rest; peer = a.from; rv = length (text a); tp = some q }

module _ (env : Env) (l : Link) (from : Arrival) (rest : List Arrival) (q : Packet)
    (waiting : l.inbox ≡ from ∷ rest) (reads : parse env.junk (text from) ≡ some q) where
  parse-length : (c : List ℕ) → parse env.junk c ≡ some q → header_size ≤ length c
  unfolding parse
  parse-length c e = ground (arith, e)

  not_empty : (length (text from) == 0) ≡ false
  not_empty = positive (length (text from)) (parse-length (text from) reads)

  some_bytes : nonpositive (length (text from)) ≡ false
  some_bytes =
      fits (length (text from)) (parse-length (text from) reads)
        (omega (arith, length-take recv_buf_size from.content))

  -- A datagram that is read is not empty.
  pub content-long : header_size ≤ length from.content
  content-long =
      omega (arith, parse-length (text from) reads, length-take recv_buf_size from.content)

  recv_in-first : recv_in env l (from ∷ rest) ≡ some (holding l from rest q)
  unfolding recv_in
  recv_in-first = rw (not_empty, reads) refl

  recv-first : run_recvfrom env l ≡ some (holding l from rest q)
  unfolding run_recvfrom
  recv-first = ap (recv_in env l) waiting ∙ recv_in-first

  pub fetch_pkt-first :
      (s : RunState)
      → classify l.tb q ≡ some s
      → fetch_pkt env l ≡ some (goto s (holding l from rest q))
  unfolding fetch_pkt to_state
  fetch_pkt-first s e = rw (recv-first, e, some_bytes) refl

  fetch_pkt-exits : classify l.tb q ≡ none → fetch_pkt env l ≡ none
  unfolding fetch_pkt to_state
  fetch_pkt-exits e = rw (recv-first, e, some_bytes) refl

pub step-get_pkt :
    (env : Env) (l : Link) (from : Arrival) (rest : List Arrival) (q : Packet)
    → l.inbox ≡ from ∷ rest
    → parse env.junk (text from) ≡ some q
    → (s : RunState) → classify l.tb q ≡ some s
    → step env get_pkt (fresh l) ≡ some (goto s (holding l from rest q))
unfolding step
step-get_pkt env l from rest q waiting reads s e =
    fetch_pkt-first env (fresh l) from rest q waiting reads s e

run_loop-exits :
    (env : Env) (fuel : ℕ) (s : RunState) (l : Link)
    → step env s l ≡ none
    → run_loop env (suc fuel) s l ≡ aborted
unfolding run_loop
run_loop-exits env fuel s l e = rw (e, run_loop) refl

-- A packet for which there is no state ends the program.
pub run-exits :
    (env : Env) (l : Link) (from : Arrival) (rest : List Arrival) (q : Packet)
    → l.tb.runstate ≡ get_pkt
    → l.inbox ≡ from ∷ rest
    → parse env.junk (text from) ≡ some q
    → classify l.tb q ≡ none
    → run env l ≡ aborted
unfolding run step
run-exits env l from rest q ready waiting reads e =
    ap (λ (w : List Arrival). run_loop env (4 * length w + 5) l.tb.runstate (fresh l)) waiting
    ∙ ap (λ (s : RunState). run_loop env (4 * length (from ∷ rest) + 5) s (fresh l)) ready
    ∙ ap (λ (k : ℕ). run_loop env k get_pkt (fresh l)) (fuel_lem (4 * length (from ∷ rest)))
    ∙ run_loop-exits env (4 * length (from ∷ rest) + 4) get_pkt (fresh l)
        (fetch_pkt-exits env (fresh l) from rest q waiting reads e)
  where
    fuel_lem : (k : ℕ) → k + 5 ≡ suc (k + 4)
    fuel_lem k = omega arith
