-- ===== src/Timer/Tests.antt =====
-- The timers on concrete nodes.
use tcpoudp.Prelude.{ℕ, ◌≡◌, refl, map, Option, some, [], ◌∷◌, arith}
use tcpoudp.Packet.{Packet}
use tcpoudp.Node.{Node}
use tcpoudp.Node
use tcpoudp.Timer.Postpone.{postpone_timer-postponed}
use tcpoudp.Timer.Expiry.{Expired, proc_sndpkt-Expired}
use tcpoudp.Samples.{blank, dirty, node}
use tcpoudp.Timer.{
  postpone_timer, Fired, proc_sndpkt, cal_rto, weighted, single, single_from, nearest,
  clear_acked_for, sendpkt, Rexmit, rexmit_for_dup_ack,
}
use tcpoudp.Timer.Rto.{Measured, cal_rto-Measured}
use tcpoudp.Timer.Clear.{clear_acked_for-unacked}
use tcpoudp.Timer.Again.{Holds, Resent, rexmit_for_dup_ack-Resent}
use tcpoudp.Timer.Payload.{stored, sendpkt-nul}

measured_500 : (cal_rto node 600 blank).t_rtt ≡ 812
unfolding cal_rto weighted single single_from nearest
measured_500 = refl

-- A tie goes to the even one, and above 2 ^ 25 the unit is 4.
rounded : (single 16777217 ≡ 16777216) × (single 16777219 ≡ 16777220) × (single 33554435 ≡ 33554436)
unfolding single single_from nearest
rounded = (refl, refl, refl)

cal_rto-Measured_example : Measured 500 blank (cal_rto node 600 blank)
cal_rto-Measured_example =
    cal_rto-Measured node 600 blank refl refl (omega arith) (omega arith) (omega arith)

clear_acked_for-unacked_example :
    (m : Option Node) × (clear_acked_for 4 1 9 (node ∷ record node { p_id = 12 } ∷ [])
      ≡ some (record node { p_id = 12 } ∷ [], m))
    × ((n : Node) → m ≡ some n → n.p_id ≡ 9)
clear_acked_for-unacked_example =
    clear_acked_for-unacked 4 1 9 0 (node ∷ record node { p_id = 12 } ∷ []) (omega arith)

sendpkt-nul_example :
    (p : Packet) × (sendpkt dirty (stored dirty node 4 1 100 0 5 3000 blank (0 ∷ 8 ∷ [])) blank
      ≡ some p)
    × (p.buf ≡ [])
    × (p.t.seq ≡ 102)
sendpkt-nul_example =
    sendpkt-nul dirty node 4 1 100 0 5 3000 blank (8 ∷ []) (omega arith) (omega arith)

abbrev early : Node
early = record node { p_id = 5 }

node-Holds : Holds 4 1 node 8 (65 ∷ [])
node-Holds = record { conn = refl; timer = refl; bytes = refl; start = omega arith }

rexmit_for_dup_ack-Resent_example :
    (r : Rexmit) × (rexmit_for_dup_ack dirty node 700 blank 4 1 8
        (early ∷ node ∷ record node { p_id = 12 } ∷ [])
      ≡ some r)
    × Resent 4 1 8 (65 ∷ []) node (record node { p_id = 12 } ∷ []) blank 700 r
rexmit_for_dup_ack-Resent_example =
    rexmit_for_dup_ack-Resent dirty node 700 blank 4 1 8 node (65 ∷ []) node-Holds
      (record node { p_id = 12 } ∷ []) (omega arith) (early ∷ [])
      (
        (
          4,
          65 ∷ [],
          record { conn = refl; timer = refl; bytes = refl; start = omega arith },
          omega arith,
        ),
        tt,
      )

-- Three nodes of a connection.
abbrev at_id : ℕ → Node
at_id k = record node { p_id = k }

postpone_timer-postponed_example :
    postpone_timer 4 1 9 6000 (at_id 8 ∷ at_id 9 ∷ at_id 10 ∷ [])
    ≡ some (map Node.copy (at_id 9 ∷ record (at_id 10) { ms = 6100 } ∷ []))
postpone_timer-postponed_example =
    postpone_timer-postponed 4 1 9 6000 0 (at_id 8 ∷ at_id 9 ∷ at_id 10 ∷ []) (omega arith) (
      (λ h. absurd (omega (arith, h))),
      ((λ h. absurd (omega (arith, h))), ((λ h. (omega arith, omega arith)), tt)),
    )

proc_sndpkt-Expired_example :
    (r : Fired) × (proc_sndpkt dirty 4000 (at_id 9 ∷ at_id 10 ∷ []) blank ≡ some r)
    × Expired 4000 blank (at_id 9) (65 ∷ []) (at_id 10 ∷ []) r
proc_sndpkt-Expired_example =
    proc_sndpkt-Expired dirty 4000 blank 4 1 0 (at_id 9 ∷ at_id 10 ∷ []) (omega arith) (at_id 9)
      (at_id 10 ∷ []) (65 ∷ []) refl refl (omega arith) ((λ h. (omega arith, omega arith)), tt)
