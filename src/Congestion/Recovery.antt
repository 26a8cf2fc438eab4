-- ===== src/Congestion/Recovery.antt =====
-- When tou_ss_ca.cpp enters and leaves fast retransmit, and where congestion avoidance stops growing.
use tcpoudp.Prelude.{ℕ, ◌+◌, ◌*◌, ◌/◌, ◌≤◌, ◌<◌, ◌∙◌, ◌≡◌, refl, some, arith, max}
use tcpoudp.Congestion.{
  CcState, ss, ca, fr, err, unknown, ControlBlock, smss, max_wnd, grow_ca, addwnd_in, addwnd,
  halved, setdwnd_in, setdwnd, count_dup, enter_fr,
}
use tcpoudp.Congestion.Bounds.{IsValid}

-- Outside fast retransmit.
abbrev pub IsOpen : CcState → Type 0
IsOpen ss = Unit {0}
IsOpen ca = Unit {0}
IsOpen _ = ⊥

open_dup :
    (s : CcState) (tc : ControlBlock) (n : ℕ)
    → IsOpen s
    → setdwnd_in s tc n ≡ (0, enter_fr (count_dup tc n))
unfolding setdwnd_in
open_dup ss tc n o = refl
open_dup ca tc n o = refl
open_dup err tc n o = elim o [ ]
open_dup fr tc n o = elim o [ ]
open_dup unknown tc n o = elim o [ ]

-- The first two repeated acknowledgements of `snd_una` only count.
pub setdwnd_counts :
    (tc : ControlBlock)
    → IsOpen tc.cc_state
    → tc.dupackcount < 2
    → setdwnd tc tc.snd_una ≡ (0, record tc { dupackcount = tc.dupackcount + 1 })
unfolding setdwnd count_dup enter_fr
setdwnd_counts tc o h = open_dup tc.cc_state tc tc.snd_una o ∙ ground arith

-- The third enters fast retransmit, with half the window (two segments at least) as threshold and
-- the window three segments above it.
pub setdwnd_enters :
    (tc : ControlBlock)
    → IsOpen tc.cc_state
    → IsValid tc
    → tc.dupackcount ≡ 2
    → setdwnd tc tc.snd_una ≡ (
      0,
      record tc {
        cc_state = fr;
        dupackcount = 3;
        snd_ssthresh = max (tc.snd_cwnd / 2) (2 * smss);
        snd_cwnd = max (tc.snd_cwnd / 2) (2 * smss) + 3 * smss;
      },
    )
unfolding setdwnd count_dup enter_fr halved
setdwnd_enters tc o v h = open_dup tc.cc_state tc tc.snd_una o ∙ ground arith

no_step : (w : ℕ) → smss * smss < w → smss * smss / w ≡ 0
no_step w h = grind arith

-- In congestion avoidance a window above SMSS * SMSS bytes, up to half the buffer, does not grow:
-- only the count is reset.
pub addwnd-stalls :
    (tc : ControlBlock)
    → tc.cc_state ≡ ca
    → smss * smss < tc.snd_cwnd
    → tc.snd_cwnd ≤ max_wnd
    → addwnd tc ≡ some (0, record tc { dupackcount = 0 })
unfolding addwnd addwnd_in grow_ca
addwnd-stalls tc e lo hi = ground (arith, no_step tc.snd_cwnd lo)
