-- ===== src/Thread/Drain.antt =====
-- The timer thread's loop over `run` in timer.cpp ends: a call that has the lock takes a datagram or gives a
-- negative result.
use tcpoudp.Prelude.{
  ℕ, zero, suc, ◌+◌, ◌*◌, ◌≤◌, ◌<◌, ◌≡◌, ◌≢◌, refl, sym, ap, subst, ◌∙◌, Bool, true, false, Option,
  none, some, List, [], ◌∷◌, length, arith, inl, inr, ◌⊎◌, leb, half_word, Holds, Holds-bind,
  Holds-then, Holds-if, nonpositive,
}
use tcpoudp.Process.{classify}
use tcpoudp.Link.{Link, Env}
use tcpoudp.Node.{Node}
use tcpoudp.Run.{
  Next, goto, leave, outrun, step, Outcome, aborted, unfinished, returned, run_loop, run, try_run,
  to_state, fetch_pkt, run_recvfrom, recv_in,
}
use tcpoudp.Run.Termination.{
  rank, rank_bound, Shrinks, step-Shrinks, run-ends, Taken, recv_in-Taken,
}
use tcpoudp.Run.Round.{fresh}
use tcpoudp.Run.Deleted.{IsLate, IsLate-or_get, run-aborts}
use tcpoudp.Socket.{RunState, get_pkt}
use tcpoudp.Thread.{drain, frees}

-- No more datagrams wait than before.
abbrev Within : ℕ → Outcome → Type 0
Within n aborted = Unit {0}
Within n unfinished = Unit {0}
Within n (returned r l) = length l.inbox ≤ n

-- The result is negative, or a datagram was taken.
abbrev Advances : ℕ → Outcome → Type 0
Advances n aborted = Unit {0}
Advances n unfinished = Unit {0}
Advances n (returned r l) = (leb half_word r ≡ true) ⊎ (length l.inbox < n)

abbrev Progress : ℕ → Next → Type 0
Progress n (goto s l) = length l.inbox < n
Progress n (leave r l) = leb half_word r ≡ true
Progress n outrun = ⊥

module _ (env : Env) where
  run_loop-Within :
      (n fuel : ℕ) (s : RunState) (l : Link) → length l.inbox ≤ n → Within n (run_loop env fuel s l)
  unfolding run_loop
  run_loop-Within n zero s l h = tt
  run_loop-Within n (suc fuel) s l h =
      ends (step env s l) (step-Shrinks env s l) (λ s' l' k. run_loop-Within n fuel s' l' k)
    where
      ends :
          (o : Option Next)
          → Holds (Shrinks (length l.inbox) (rank s)) o
          → ((s' : RunState) (l' : Link) → length l'.inbox ≤ n → Within n (run_loop env fuel s' l'))
          → Within n (elim o [
            | none ↦ aborted
            | some (goto s' l') ↦ run_loop env fuel s' l'
            | some (leave r l') ↦ returned r l'
            | some outrun ↦ unfinished
          ])
      ends none k ih = tt
      ends (some (leave r l')) k ih = omega (arith, h, k, rank_bound s)
      ends (some outrun) k ih = absurd k
      ends (some (goto s' l')) k ih = ih s' l' (omega (arith, h, k, rank_bound s))

  to_state-Progress : (n : ℕ) (l : Link) → length l.inbox < n → Holds (Progress n) (to_state l)
  unfolding to_state
  to_state-Progress n l h =
      Holds-then (Progress n) l.tp _ (λ p. Holds-then (Progress n) (classify l.tb p) _ (λ s. h))

  fetch_pkt-Progress : (l : Link) → Holds (Progress (length l.inbox)) (fetch_pkt env l)
  unfolding fetch_pkt run_recvfrom
  fetch_pkt-Progress l =
      Holds-bind (Taken env l.inbox) (Progress (length l.inbox)) (recv_in env l l.inbox) _
        (recv_in-Taken env l l.inbox refl)
        (λ l' t. elim t [
          | inl (e, k) ↦ rw e refl
          | inr e ↦
              Holds-if (Progress (length l.inbox)) (nonpositive l'.rv) _ _ refl
                (to_state-Progress (length l.inbox) l' (omega (arith, e)))
        ])

  run_loop-Advances :
      (fuel : ℕ) (l : Link) → Advances (length l.inbox) (run_loop env (suc fuel) get_pkt l)
  unfolding run_loop step
  run_loop-Advances fuel l = ends (fetch_pkt env l) (fetch_pkt-Progress l)
    where
      goes_on :
          (o : Outcome) (k : ℕ) → k < length l.inbox → Within k o → Advances (length l.inbox) o
      goes_on aborted k h w = tt
      goes_on unfinished k h w = tt
      goes_on (returned r l') k h w = inr (omega (arith, h, w))

      ends :
          (o : Option Next)
          → Holds (Progress (length l.inbox)) o
          → Advances (length l.inbox) (elim o [
            | none ↦ aborted
            | some (goto s' l') ↦ run_loop env fuel s' l'
            | some (leave r l') ↦ returned r l'
            | some outrun ↦ unfinished
          ])
      ends none k = tt
      ends (some (leave r l')) k = inl k
      ends (some outrun) k = absurd k
      ends (some (goto s' l')) k =
          goes_on (run_loop env fuel s' l') (length l'.inbox) k
            (run_loop-Within (length l'.inbox) fuel s' l' (omega arith))

  run_lem :
      (l : Link)
      → l.tb.runstate ≡ get_pkt
      → run env l ≡ run_loop env (suc (4 * length l.inbox + 4)) get_pkt (fresh l)
  unfolding run
  run_lem l e =
      ap (λ (s : RunState). run_loop env (4 * length l.inbox + 5) s (fresh l)) e
      ∙ ap (λ (k : ℕ). run_loop env k get_pkt (fresh l)) (omega arith)

  run-Advances : (l : Link) → Advances (length l.inbox) (run env l)
  run-Advances l = elim (IsLate-or_get env l.tb.runstate) [
    | inl k ↦
        subst (Advances (length l.inbox)) (sym (run-aborts env l (late_get l.tb.runstate k))) tt
    | inr e ↦ from_get l e
  ]
    where
      late_get : (s : RunState) → IsLate s → s ≢ get_pkt
      late_get s k e = subst IsLate e k

      from_get : (l : Link) → l.tb.runstate ≡ get_pkt → Advances (length l.inbox) (run env l)
      from_get l e =
          subst (Advances (length l.inbox)) (sym (run_lem l e))
            (run_loop-Advances (4 * length l.inbox + 4) (fresh l))

  -- What the loop does with the result of a call.
  abbrev pub next : List Bool → Outcome → Outcome
  next tries aborted = aborted
  next tries unfinished = unfinished
  next tries (returned r l) = elim (leb half_word r) [
    | true ↦ returned r l
    | false ↦ drain env tries l
  ]

  -- One turn of the loop, where the heap has a top.
  pub drain-turn :
      (free : Bool) (tries : List Bool) (l : Link) (n : Node) (ns : List Node)
      → l.timerheap ≡ n ∷ ns
      → drain env (free ∷ tries) l ≡ next tries (try_run env free l)
  unfolding drain
  drain-turn free tries l n ns e = held l.timerheap (try_run env free l) e
    where
      at_result :
          (o : Outcome)
          → elim o [
            | aborted ↦ aborted
            | unfinished ↦ unfinished
            | returned r l' ↦ elim (leb half_word r) [
              | true ↦ returned r l'
              | false ↦ drain env tries l'
            ]
          ]
            ≡ next tries o
      at_result aborted = refl
      at_result unfinished = refl
      at_result (returned r l') = refl

      held :
          (heap : List Node) (o : Outcome)
          → heap ≡ n ∷ ns
          → elim heap [
            | [] ↦ aborted
            | m ∷ ms ↦ elim o [
              | aborted ↦ aborted
              | unfinished ↦ unfinished
              | returned r l' ↦ elim (leb half_word r) [
                | true ↦ returned r l'
                | false ↦ drain env tries l'
              ]
            ]
          ]
            ≡ next tries o
      held [] o e = absurd (cc)
      held (m ∷ ms) o e = at_result o

  pub drain-emptied :
      (tries : List Bool) (l : Link) → l.timerheap ≡ [] → drain env tries l ≡ aborted
  unfolding drain
  drain-emptied [] l e = rw e refl
  drain-emptied (free ∷ tries) l e = rw e refl

  -- A result of a call after which the loop ends, if it ends from every link with fewer datagrams.
  next-ends :
      (tries : List Bool) (n : ℕ) (o : Outcome)
      → Advances n o
      → o ≢ unfinished
      → ((l : Link) → length l.inbox < n → drain env tries l ≢ unfinished)
      → next tries o ≢ unfinished
  next-ends tries n aborted a ne ih = λ e. cc
  next-ends tries n unfinished a ne ih = absurd (ne refl)
  next-ends tries n (returned r l) a ne ih = more (leb half_word r) refl a
    where
      more :
          (b : Bool)
          → leb half_word r ≡ b
          → (leb half_word r ≡ true) ⊎ (length l.inbox < n)
          → elim b [ true ↦ returned r l | false ↦ drain env tries l ] ≢ unfinished
      more true e k = λ q. cc
      more false e (inr k) = ih l k
      more false e (inl q) = absurd (cc)

  by_heap :
      (free : Bool) (tries : List Bool) (l : Link)
      → next tries (try_run env free l) ≢ unfinished
      → drain env (free ∷ tries) l ≢ unfinished
  by_heap free tries l k = top l.timerheap refl
    where
      top : (heap : List Node) → l.timerheap ≡ heap → drain env (free ∷ tries) l ≢ unfinished
      top [] e = rw (drain-emptied (free ∷ tries) l e) (λ q. cc)
      top (n ∷ ns) e = rw (drain-turn free tries l n ns e) k

  -- The timer thread's loop over run ends on every link, whatever datagrams wait and however often
  -- another thread has the lock, once it has found the lock free one time more than datagrams wait.
  pub drain-ends :
      (tries : List Bool) (l : Link) → length l.inbox < frees tries → drain env tries l ≢ unfinished
  unfolding try_run
  drain-ends [] l h = absurd (omega arith)
  drain-ends (false ∷ tries) l h = by_heap false tries l (drain-ends tries l h)
  drain-ends (true ∷ tries) l h = by_heap true tries l (
      next-ends tries (length l.inbox) (run env l) (run-Advances l) (run-ends env l)
        (λ l' k. drain-ends tries l' (omega (arith, h, k))))
