-- ===== src/Delack/Tests.antt =====
-- The delayed acknowledgements on concrete nodes.
use tcpoudp.Prelude.{◌≡◌, refl, some, [], ◌∷◌, arith}
use tcpoudp.Congestion.{ControlBlock}
use tcpoudp.Node.{Node}
use tcpoudp.Samples.{blank, dirty, node}
use tcpoudp.Socket.{delack_que}
use tcpoudp.Delack.{timer_id_delack, Acknowledged, proc_delack}
use tcpoudp.Delack.Alternation.{Alternated, proc_delack-Alternated}

abbrev queued : ControlBlock
queued = record blank { t_delack_state = delack_que }

abbrev ack_node : Node
ack_node = record node { t_id = timer_id_delack }

proc_delack-Alternated_example :
    (r : Acknowledged) × (proc_delack dirty node 4 0 50 queued (ack_node ∷ []) ≡ some r)
    × Alternated queued r
proc_delack-Alternated_example =
    proc_delack-Alternated dirty node 4 0 50 queued ack_node refl refl (omega arith) (omega arith)
