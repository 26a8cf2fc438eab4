-- ===== src/Congestion.antt =====
-- The control block of src/lib/tou_control_block.h and the congestion control of tou_congestion.h
-- and tou_ss_ca.cpp. `sscamutex` makes each function one atomic step on the block. `u_long` is
-- 32 bits wide on the target of config.log; `none` is a division by zero, which traps.
pub mod Bounds
pub mod Recovery
pub mod Episode
mod Tests
use tcpoudp.Prelude.{
  ℕ, ◌+◌, ◌*◌, ◌/◌, ◌%◌, Option, none, some, List, [], ◌∷◌, ltb, ◌==◌, if◌then◌else◌, add32,
  short_word, le_short, min, max,
}

-- `cc_state`: TOU_CC_ERR, TOU_CC_SS, TOU_CC_CA, TOU_CC_FR; any other number is `unknown`.
pub data CcState : Type 0 where
  err ss ca fr unknown : CcState

-- `class tou_cb`. `t_rtt_alpha` is a float that only ever holds TOU_INIT_ALPHA, one eighth; the field counts eighths.
pub record ControlBlock : Type 0 where
  pub cc_state : CcState
  pub t_delack_state : ℕ
  pub t_rto : ℕ
  pub t_rto_beta : ℕ
  pub t_rtt : ℕ
  pub t_rtt_alpha : ℕ
  pub iss : ℕ
  pub irs : ℕ
  pub snd_una : ℕ
  pub snd_nxt : ℕ
  pub rcv_nxt : ℕ
  pub dupackcount : ℕ
  pub snd_wnd : ℕ
  pub rcv_wnd : ℕ
  pub snd_cwnd : ℕ
  pub snd_awnd : ℕ
  pub snd_ssthresh : ℕ

-- TOU_MSS and TOU_SMSS.
abbrev pub smss : ℕ
smss = 1456

abbrev pub max_ssthresh : ℕ
max_ssthresh = 2147483647

abbrev pub max_circular_buf : ℕ
max_circular_buf = 6291456

-- TCPREXMTTHRESH
abbrev pub rexmt_thresh : ℕ
rexmt_thresh = 3

-- Half the circular buffer.
abbrev pub max_wnd : ℕ
max_wnd = max_circular_buf / 2

abbrev pub ck_size : ℕ → ℕ
ck_size wnd = if ltb max_wnd wnd then max_wnd else wnd

-- The constructor `ssca(tou_cb *)`.
unfoldable pub new_ssca : ControlBlock → ControlBlock
new_ssca tc = record tc {
  cc_state = ss;
  snd_cwnd = smss;
  snd_awnd = smss;
  snd_wnd = smss;
  rcv_wnd = smss;
  dupackcount = 0;
  snd_ssthresh = max_ssthresh;
}

-- `snd_cwnd += SMSS * SMSS / snd_cwnd`, and the cap.
unfoldable pub grow_ca : ControlBlock → Option ControlBlock
grow_ca tc =
    if tc.snd_cwnd == 0
    then none
    else some (record tc {
      snd_cwnd = ck_size (add32 tc.snd_cwnd (smss * smss / tc.snd_cwnd));
      dupackcount = 0;
    })

unfoldable pub addwnd_in : CcState → ControlBlock → Option (ℕ × ControlBlock)
addwnd_in err tc = some (1, tc)
addwnd_in unknown tc = some (1, tc)
addwnd_in ss tc =
    if ltb tc.snd_cwnd tc.snd_ssthresh
    then some (0, record tc { snd_cwnd = ck_size (add32 tc.snd_cwnd smss); dupackcount = 0 })
    else elim (grow_ca (record tc { cc_state = ca })) [ none ↦ none | some tc' ↦ some (0, tc') ]
addwnd_in ca tc = elim (grow_ca tc) [ none ↦ none | some tc' ↦ some (0, tc') ]
addwnd_in fr tc =
    some (0, record tc { cc_state = ca; snd_cwnd = ck_size tc.snd_ssthresh; dupackcount = 0 })

-- On an acknowledgement of new data.
unfoldable pub addwnd : ControlBlock → Option (ℕ × ControlBlock)
addwnd tc = addwnd_in tc.cc_state tc

-- The current window, which is stored too.
unfoldable pub getwnd : ControlBlock → ℕ × ControlBlock
getwnd tc = let wnd = ck_size (min tc.snd_cwnd tc.snd_awnd) in (wnd, record tc { snd_wnd = wnd })

unfoldable pub halved : ControlBlock → ℕ
halved tc = max (tc.snd_cwnd / 2) (2 * smss)

unfoldable pub settwnd_in : CcState → ControlBlock → ℕ × ControlBlock
settwnd_in err tc = (1, tc)
settwnd_in unknown tc = (1, tc)
settwnd_in ss tc = (0, record tc { snd_ssthresh = halved tc; snd_cwnd = smss; dupackcount = 0 })
settwnd_in ca tc =
    (0, record tc { cc_state = ss; snd_ssthresh = halved tc; snd_cwnd = smss; dupackcount = 0 })
settwnd_in fr tc =
    (0, record tc { cc_state = ss; snd_ssthresh = halved tc; snd_cwnd = smss; dupackcount = 0 })

-- On a timeout.
unfoldable pub settwnd : ControlBlock → ℕ × ControlBlock
settwnd tc = settwnd_in tc.cc_state tc

-- A repeated acknowledgement is counted, another starts the count anew.
unfoldable pub count_dup : ControlBlock → ℕ → ControlBlock
count_dup tc ack_seq = record tc {
  dupackcount = if ack_seq == tc.snd_una then (tc.dupackcount + 1) % short_word else 1;
}

-- At the threshold the block enters fast retransmit.
unfoldable pub enter_fr : ControlBlock → ControlBlock
enter_fr tc =
    if le_short rexmt_thresh tc.dupackcount
    then record tc {
      cc_state = fr;
      snd_ssthresh = halved tc;
      snd_cwnd = add32 (halved tc) (3 * smss);
    }
    else tc

unfoldable pub inflate : ControlBlock → ControlBlock
inflate tc = record tc { snd_cwnd = ck_size (add32 tc.snd_cwnd smss) }

unfoldable pub setdwnd_in : CcState → ControlBlock → ℕ → ℕ × ControlBlock
setdwnd_in err tc ack_seq = (1, tc)
setdwnd_in unknown tc ack_seq = (1, tc)
setdwnd_in ss tc ack_seq = (0, enter_fr (count_dup tc ack_seq))
setdwnd_in ca tc ack_seq = (0, enter_fr (count_dup tc ack_seq))
setdwnd_in fr tc ack_seq = (0, inflate (count_dup tc ack_seq))

-- On a duplicate acknowledgement.
unfoldable pub setdwnd : ControlBlock → ℕ → ℕ × ControlBlock
setdwnd tc ack_seq = setdwnd_in tc.cc_state tc ack_seq
