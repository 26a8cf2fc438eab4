-- ===== src/Congestion/Tests.antt =====
-- The congestion control on concrete blocks.
use tcpoudp.Prelude.{◌≡◌, ◌++◌, replicate, refl, some, [], ◌∷◌, arith}
use tcpoudp.Congestion.{
  ss, ca, ControlBlock, new_ssca, addwnd_in, addwnd, settwnd_in, settwnd, setdwnd_in, setdwnd,
  grow_ca, halved, count_dup, enter_fr, inflate,
}
use tcpoudp.Congestion.Bounds.{
  IsValid, new_ack, timeout, dup_ack, Added, TimedOut, step, run, addwnd-Added, settwnd-TimedOut,
  run-IsValid,
}
use tcpoudp.Samples.{blank}
use tcpoudp.Congestion.Episode.{run-recovers}

abbrev wide : ControlBlock
wide = record blank { cc_state = ca; snd_cwnd = 2200000 }

blank-IsValid : IsValid blank
blank-IsValid = ground arith

-- Slow start, loss and recovery of a new connection.
run-new :
    run
      (new_ssca blank)
      (new_ack ∷ new_ack ∷ dup_ack 0 ∷ dup_ack 0 ∷ dup_ack 0 ∷ dup_ack 0 ∷ new_ack ∷ timeout ∷ [])
    ≡ some (record blank {
      cc_state = ss;
      snd_cwnd = 1456;
      snd_wnd = 1456;
      snd_awnd = 1456;
      snd_ssthresh = 2912;
    })
unfolding run step new_ssca addwnd addwnd_in settwnd settwnd_in setdwnd setdwnd_in grow_ca halved
    count_dup enter_fr inflate
run-new = refl

addwnd-Added_example : (tc' : ControlBlock) × (addwnd blank ≡ some (0, tc')) × Added blank tc'
addwnd-Added_example = addwnd-Added blank blank-IsValid

settwnd-TimedOut_example : ((settwnd blank).0 ≡ 0) × TimedOut blank (settwnd blank).1
settwnd-TimedOut_example = settwnd-TimedOut blank blank-IsValid

run-IsValid_example :
    (tc' : ControlBlock) × (run blank (new_ack ∷ dup_ack 0 ∷ timeout ∷ []) ≡ some tc') × IsValid tc'
run-IsValid_example = run-IsValid (new_ack ∷ dup_ack 0 ∷ timeout ∷ []) blank blank-IsValid

run-recovers_example :
    run blank (replicate 5 (dup_ack 0) ++ (new_ack ∷ []))
    ≡ some (record blank { cc_state = ca; dupackcount = 0; snd_ssthresh = 7280; snd_cwnd = 7280 })
run-recovers_example = run-recovers 2 blank tt blank-IsValid refl
