-- ===== src/Congestion/Bounds.antt =====
-- The windows that tou_ss_ca.cpp keeps, and how far one event moves them.
use tcpoudp.Prelude.{
  ℕ, ◌+◌, ◌*◌, ◌/◌, ◌≤◌, ◌<◌, ◌≡◌, refl, Option, none, some, List, [], ◌∷◌, arith, min, max, add32,
  ◌≢◌, subst, sym, dec_lt,
}
use tcpoudp.Congestion.{
  CcState, ss, ca, fr, err, unknown, ControlBlock, smss, max_wnd, ck_size, new_ssca, grow_ca,
  addwnd_in, addwnd, getwnd, halved, settwnd_in, settwnd, count_dup, enter_fr, inflate, setdwnd_in,
  setdwnd,
}

abbrev pub IsRunning : CcState → Type 0
IsRunning err = ⊥
IsRunning unknown = ⊥
IsRunning ss = Unit {0}
IsRunning ca = Unit {0}
IsRunning fr = Unit {0}

-- A block in one of the three states, its window between one segment and half the buffer, its
-- threshold at least two segments.
pub record IsValid (tc : ControlBlock) : Type 0 where
  pub running : IsRunning tc.cc_state
  pub window_lo : smss ≤ tc.snd_cwnd
  pub window_hi : tc.snd_cwnd ≤ max_wnd
  pub threshold_lo : 2 * smss ≤ tc.snd_ssthresh
  pub threshold_hi : tc.snd_ssthresh ≤ 2147483647

-- The events that reach the congestion control.
pub data Event : Type 0 where
  new_ack timeout : Event
  dup_ack : ℕ → Event

unfoldable pub step : ControlBlock → Event → Option ControlBlock
step tc new_ack = elim (addwnd tc) [ none ↦ none | some (e, tc') ↦ some tc' ]
step tc timeout = some (settwnd tc).1
step tc (dup_ack n) = some (setdwnd tc n).1

unfoldable pub run : ControlBlock → List Event → Option ControlBlock
run tc [] = some tc
run tc (e ∷ es) = elim (step tc e) [ none ↦ none | some tc' ↦ run tc' es ]

grow-le : (w : ℕ) → smss ≤ w → smss * smss / w ≤ smss
grow-le w h = grind arith

-- The block one congestion avoidance step further.
abbrev pub grown : ControlBlock → ControlBlock
grown tc = record tc {
  snd_cwnd = ck_size (tc.snd_cwnd + smss * smss / tc.snd_cwnd);
  dupackcount = 0;
}

grow_ca_lem :
    (tc : ControlBlock) → smss ≤ tc.snd_cwnd → tc.snd_cwnd ≤ max_wnd → grow_ca tc ≡ some (grown tc)
unfolding grow_ca
grow_ca_lem tc lo hi = ground (arith, grow-le tc.snd_cwnd)

-- What an acknowledgement of new data does to a valid block.
pub record Added (tc tc' : ControlBlock) : Type 0 where
  pub valid : IsValid tc'
  pub count : tc'.dupackcount ≡ 0
  pub threshold : tc'.snd_ssthresh ≡ tc.snd_ssthresh
  pub opens : tc.cc_state ≢ fr → (tc.snd_cwnd ≤ tc'.snd_cwnd) × (tc'.snd_cwnd ≤ tc.snd_cwnd + smss)
  pub recovers :
      tc.cc_state ≡ fr → (tc'.cc_state ≡ ca) × (tc'.snd_cwnd ≡ min tc.snd_ssthresh max_wnd)
  pub left : tc'.cc_state ≢ fr
  pub una : tc'.snd_una ≡ tc.snd_una
  pub nxt : tc'.snd_nxt ≡ tc.snd_nxt

module _ (tc : ControlBlock) (v : IsValid tc) where
  Added-in_ss :
      tc.cc_state ≡ ss
      → tc.snd_cwnd < tc.snd_ssthresh
      → Added tc (record tc { snd_cwnd = ck_size (add32 tc.snd_cwnd smss); dupackcount = 0 })
  Added-in_ss e h = ground arith

  Added-in_ca :
      (s : CcState)
      → tc.cc_state ≢ fr
      → IsRunning s
      → s ≢ fr
      → Added tc (record (grown tc) { cc_state = s })
  Added-in_ca s e r f = ground (arith, grow-le tc.snd_cwnd)

  Added-in_fr :
      tc.cc_state ≡ fr
      → Added tc (record tc { cc_state = ca; snd_cwnd = ck_size tc.snd_ssthresh; dupackcount = 0 })
  Added-in_fr e = ground arith

  addwnd_cases :
      (s : CcState)
      → tc.cc_state ≡ s
      → (tc' : ControlBlock) × (addwnd_in s tc ≡ some (0, tc')) × Added tc tc'
  unfolding addwnd_in
  addwnd_cases err e = absurd (subst IsRunning e v.running)
  addwnd_cases unknown e = absurd (subst IsRunning e v.running)
  addwnd_cases ss e = elim (dec_lt tc.snd_cwnd tc.snd_ssthresh) [
    | yes h ↦ (
      record tc { snd_cwnd = ck_size (add32 tc.snd_cwnd smss); dupackcount = 0 },
      ground arith,
      Added-in_ss e h,
    )
    | no h ↦ (
      record (grown tc) { cc_state = ca },
      ground (arith, grow_ca_lem (record tc { cc_state = ca }) v.window_lo v.window_hi),
      Added-in_ca ca (subst (λ q. q ≢ fr) (sym e) (λ q. cc)) tt (λ q. cc),
    )
  ]
  addwnd_cases ca e = (
    grown tc,
    ground (arith, grow_ca_lem tc v.window_lo v.window_hi),
    Added-in_ca tc.cc_state (subst (λ q. q ≢ fr) (sym e) (λ q. cc)) v.running
        (subst (λ q. q ≢ fr) (sym e) (λ q. cc)),
  )
  addwnd_cases fr e = (_, refl, Added-in_fr e)

  -- On a valid block addwnd succeeds without a division by zero: the block stays valid, the count is
  -- reset, the window opens by a segment at most or, out of fast retransmit, becomes the threshold
  -- up to half the buffer, the state is not fast retransmit, and snd_una and snd_nxt stay.
  pub addwnd-Added : (tc' : ControlBlock) × (addwnd tc ≡ some (0, tc')) × Added tc tc'
  unfolding addwnd
  addwnd-Added = addwnd_cases tc.cc_state refl

-- What a timeout does to a valid block: one segment, slow start, half the window as threshold.
pub record TimedOut (tc tc' : ControlBlock) : Type 0 where
  pub valid : IsValid tc'
  pub state : tc'.cc_state ≡ ss
  pub window : tc'.snd_cwnd ≡ smss
  pub threshold : tc'.snd_ssthresh ≡ max (tc.snd_cwnd / 2) (2 * smss)
  pub count : tc'.dupackcount ≡ 0

module _ (tc : ControlBlock) (v : IsValid tc) where
  settwnd_cases :
      (s : CcState) → tc.cc_state ≡ s → ((settwnd_in s tc).0 ≡ 0) × TimedOut tc (settwnd_in s tc).1
  unfolding settwnd_in halved
  settwnd_cases err e = absurd (subst IsRunning e v.running)
  settwnd_cases unknown e = absurd (subst IsRunning e v.running)
  settwnd_cases ss e = (refl, ground arith)
  settwnd_cases ca e = (refl, ground arith)
  settwnd_cases fr e = (refl, ground arith)

  -- A timeout on a valid block leads to slow start with a window of one segment, a threshold of half
  -- the old window (two segments at least) and a count of 0, and leaves a valid block.
  pub settwnd-TimedOut : ((settwnd tc).0 ≡ 0) × TimedOut tc (settwnd tc).1
  unfolding settwnd
  settwnd-TimedOut = settwnd_cases tc.cc_state refl

  setdwnd_cases :
      (s : CcState) (n : ℕ)
      → tc.cc_state ≡ s
      → ((setdwnd_in s tc n).0 ≡ 0) × IsValid (setdwnd_in s tc n).1
  unfolding setdwnd_in halved enter_fr count_dup inflate
  setdwnd_cases err n e = absurd (subst IsRunning e v.running)
  setdwnd_cases unknown n e = absurd (subst IsRunning e v.running)
  setdwnd_cases ss n e = (refl, ground arith)
  setdwnd_cases ca n e = (refl, ground arith)
  setdwnd_cases fr n e = (refl, ground arith)

  pub setdwnd-IsValid : (n : ℕ) → ((setdwnd tc n).0 ≡ 0) × IsValid (setdwnd tc n).1
  unfolding setdwnd
  setdwnd-IsValid n = setdwnd_cases tc.cc_state n refl

  pub step-IsValid : (e : Event) → (tc' : ControlBlock) × (step tc e ≡ some tc') × IsValid tc'
  unfolding step
  step-IsValid new_ack = let (tc', e, a) = addwnd-Added tc v in (tc', rw (e, step), a.valid)
  step-IsValid timeout = ((settwnd tc).1, refl, settwnd-TimedOut.1.valid)
  step-IsValid (dup_ack n) = ((setdwnd tc n).1, refl, (setdwnd-IsValid n).1)

-- From a valid block every sequence of acknowledgements, duplicates and timeouts runs to its end,
-- without a division by zero, and leaves a valid block.
pub run-IsValid :
    (es : List Event) (tc : ControlBlock)
    → IsValid tc
    → (tc' : ControlBlock) × (run tc es ≡ some tc') × IsValid tc'
unfolding run
run-IsValid [] tc v = (tc, refl, v)
run-IsValid (e ∷ es) tc v =
    let (tc₁, p, v₁) = step-IsValid tc v e in
    let (tc₂, q, v₂) = run-IsValid es tc₁ v₁ in (tc₂, rw (p, run) q, v₂)

-- The constructor makes a valid block of any other.
pub new_ssca-IsValid : (tc : ControlBlock) → IsValid (new_ssca tc)
unfolding new_ssca
new_ssca-IsValid tc = ground arith

-- The window that `getwnd` returns is stored, and never above the congestion window, what the peer
-- offers, or half the buffer.
pub getwnd_bounds :
    (tc : ControlBlock)
    → ((getwnd tc).0 ≡ min (min tc.snd_cwnd tc.snd_awnd) max_wnd)
      × ((getwnd tc).1 ≡ record tc { snd_wnd = (getwnd tc).0 })
unfolding getwnd
getwnd_bounds tc = (ground arith, refl)
