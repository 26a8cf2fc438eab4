-- ===== src/Run/Deleted.antt =====
-- A call of `run` in processtou.cpp that starts where the last one left packets out of order.
use tcpoudp.Prelude.{
  ℕ, zero, suc, ◌+◌, ◌*◌, ◌≡◌, ◌≢◌, refl, ◌∙◌, Bool, true, false, Option, none, some, length, inl,
  inr, ◌⊎◌, Holds, Holds-then, ◌==◌, ◌&&◌, if◌then◌else◌,
}
use tcpoudp.Delack.{proc_delack}
use tcpoudp.Link.{Link, Env, transmit_some}
use tcpoudp.Packet.{Packet}
use tcpoudp.Process.{proc_pkt_rec}
use tcpoudp.Socket.{
  RunState, end_run, syn, fin, ack_without_data, match_expected, less_expected, more_expected,
  sendback_ack, no_sendback_ack, get_pkt, clear_get_pkt, pkt_recovery,
}
use tcpoudp.Run.{
  recovered, answered, may_get, is_get_pkt, Next, goto, leave, outrun, on_fin, on_ack_without_data,
  on_recovery, after_data, on_sendback, step, Outcome, aborted, unfinished, returned, run_loop, run,
}
use tcpoudp.Run.Termination.{run-ends}

-- The states that use or delete a packet before they receive one.
abbrev pub IsLate : RunState → Type 0
IsLate get_pkt = ⊥
IsLate end_run = Unit {0}
IsLate syn = Unit {0}
IsLate fin = Unit {0}
IsLate ack_without_data = Unit {0}
IsLate match_expected = Unit {0}
IsLate less_expected = Unit {0}
IsLate more_expected = Unit {0}
IsLate sendback_ack = Unit {0}
IsLate no_sendback_ack = Unit {0}
IsLate clear_get_pkt = Unit {0}
IsLate pkt_recovery = Unit {0}

abbrev Dangles : Next → Type 0
Dangles (goto s l) = IsLate s × (l.tp ≡ none)
Dangles (leave r l) = ⊥
Dangles outrun = ⊥

tp-transmit_some : (p : Option Packet) (l : Link) → (transmit_some p l).tp ≡ l.tp
tp-transmit_some none l = refl
tp-transmit_some (some p) l = refl

module _ (env : Env) where
  may_go :
      (b : Bool) (l : Link) → l.tp ≡ none → Dangles (goto (if b then clear_get_pkt else end_run) l)
  may_go true l e = (tt, e)
  may_go false l e = (tt, e)

  on_sendback-Dangles : (l : Link) → l.tp ≡ none → Holds Dangles (on_sendback env l)
  unfolding on_sendback after_data
  on_sendback-Dangles l e =
      Holds-then Dangles (proc_delack env.junk env.old l.tb.sockd l.st env.now l.tb.tc l.ackdeque) _
        (λ a.
          may_go (may_get (answered a l) && is_get_pkt l.tb.runstate) (answered a l)
            (tp-transmit_some a.sent l ∙ e))

  recovered-Dangles : (r : ℕ) (l : Link) → l.tp ≡ none → Dangles (recovered r l)
  recovered-Dangles r l e = either (r == 0) _ _ (tt, e) (tt, e)
    where
      either : (b : Bool) (x y : Next) → Dangles x → Dangles y → Dangles (if b then x else y)
      either true x y p q = p
      either false x y p q = q

  on_recovery-Dangles : (l : Link) → l.tp ≡ none → Holds Dangles (on_recovery env l)
  unfolding on_recovery
  on_recovery-Dangles l e =
      Holds-then Dangles (proc_pkt_rec env.malloc l.tb) _
        (λ a. recovered-Dangles a.0 (record l { tb = a.1 }) e)

  step-Dangles : (s : RunState) (l : Link) → IsLate s → l.tp ≡ none → Holds Dangles (step env s l)
  unfolding step after_data on_fin on_ack_without_data
  step-Dangles end_run l k e = rw e tt
  step-Dangles clear_get_pkt l k e = rw e tt
  step-Dangles pkt_recovery l k e = on_recovery-Dangles l e
  step-Dangles sendback_ack l k e = on_sendback-Dangles l e
  step-Dangles no_sendback_ack l k e = may_go (may_get l && is_get_pkt l.tb.runstate) l e
  step-Dangles syn l k e = rw e tt
  step-Dangles fin l k e = (tt, e)
  step-Dangles ack_without_data l k e = rw e tt
  step-Dangles match_expected l k e = rw e tt
  step-Dangles less_expected l k e = may_go (may_get l) l e
  step-Dangles more_expected l k e = rw e tt
  step-Dangles get_pkt l k e = absurd k

  abbrev Returns : Outcome → Type 0
  Returns aborted = ⊥
  Returns unfinished = ⊥
  Returns (returned r l) = Unit {0}

  run_loop-Returns :
      (fuel : ℕ) (s : RunState) (l : Link)
      → IsLate s
      → l.tp ≡ none
      → ¬ Returns (run_loop env fuel s l)
  unfolding run_loop
  run_loop-Returns zero s l k e = λ r. r
  run_loop-Returns (suc fuel) s l k e =
      ends (step env s l) (step-Dangles s l k e) (λ s' l' d. run_loop-Returns fuel s' l' d.0 d.1)
    where
      ends :
          (o : Option Next)
          → Holds Dangles o
          → ((s' : RunState) (l' : Link)
              → Dangles (goto s' l')
              → ¬ Returns (run_loop env fuel s' l'))
          → ¬ Returns (elim o [
            | none ↦ aborted
            | some (goto s' l') ↦ run_loop env fuel s' l'
            | some (leave r l') ↦ returned r l'
            | some outrun ↦ unfinished
          ])
      ends none d ih = λ r. r
      ends (some (leave r l')) d ih = absurd d
      ends (some outrun) d ih = absurd d
      ends (some (goto s' l')) d ih = ih s' l' d

  aborts : (o : Outcome) → ¬ Returns o → o ≢ unfinished → o ≡ aborted
  aborts aborted f g = refl
  aborts unfinished f g = absurd (g refl)
  aborts (returned r l) f g = absurd (f tt)

  pub IsLate-or_get : (s : RunState) → IsLate s ⊎ (s ≡ get_pkt)
  IsLate-or_get get_pkt = inr refl
  IsLate-or_get end_run = inl tt
  IsLate-or_get syn = inl tt
  IsLate-or_get fin = inl tt
  IsLate-or_get ack_without_data = inl tt
  IsLate-or_get match_expected = inl tt
  IsLate-or_get less_expected = inl tt
  IsLate-or_get more_expected = inl tt
  IsLate-or_get sendback_ack = inl tt
  IsLate-or_get no_sendback_ack = inl tt
  IsLate-or_get clear_get_pkt = inl tt
  IsLate-or_get pkt_recovery = inl tt

  never-Returns : (l : Link) → IsLate l.tb.runstate → ¬ Returns (run env l)
  unfolding run
  never-Returns l k =
      run_loop-Returns (4 * length l.inbox + 5) l.tb.runstate (record l { tp = none; rv = 0 }) k
        refl

  -- A call of run that starts in any state but that of a new packet aborts, for it uses or deletes a
  -- packet that it never received.
  pub run-aborts : (l : Link) → l.tb.runstate ≢ get_pkt → run env l ≡ aborted
  run-aborts l ne =
      aborts (run env l)
        (elim (IsLate-or_get l.tb.runstate) [ inl k ↦ never-Returns l k | inr e ↦ absurd (ne e) ])
        (run-ends env l)
