-- ===== src/Process/Tests.antt =====
-- Sending and receiving of processtou.cpp on a concrete connection.
use tcpoudp.Prelude.{ℕ, ◌≡◌, refl, some, none, List, [], ◌∷◌, arith}
use tcpoudp.Congestion.{addwnd, addwnd_in, getwnd, smss}
use tcpoudp.Congestion
use tcpoudp.Buffer.{
  remove, get_at, fetch, fetch_parts, get_total_elements, insert, insert_at, insert_into, store,
  store_parts,
}
use tcpoudp.Buffer
use tcpoudp.Packet.{Packet}
use tcpoudp.Samples.{zeros, two_free, blank, dirty, table, one_byte}
use tcpoudp.Socket.{SockTb, tous_close_wait}
use tcpoudp.Process.{AckResult, proc_ack, recover, send}
use tcpoudp.Process.Ack.{Acked, proc_ack-Acked}
use tcpoudp.Process.Recovery.{Recovered, recover-Recovered, recover-duplicate}
use tcpoudp.Process.Turn.{IsReady}
use tcpoudp.Process.Sending.{Sent, send-Sent}

two_free-IsValid : Buffer.Bounds.IsValid two_free
two_free-IsValid = omega arith

blank-IsValid : Congestion.Bounds.IsValid blank
blank-IsValid = ground arith

abbrev waiting : SockTb
waiting = record table { minhp_recv = one_byte 0 ∷ one_byte 1 ∷ one_byte 5 ∷ [] }

abbrev slow : SockTb
slow = record table { tc = record blank { snd_una = 1; snd_nxt = 1; snd_cwnd = 1456 } }

slow-IsValid : Congestion.Bounds.IsValid slow.tc
slow-IsValid = ground arith

abbrev closing : SockTb
closing = record table { sockstate = tous_close_wait }

table-IsReady : IsReady table
table-IsReady = record {
  buffer = two_free-IsValid;
  order = omega arith;
  nxt_fits = omega arith;
  far = omega arith;
}

proc_ack-Acked_example :
    (r : AckResult) × (tb' : SockTb) × (proc_ack table (one_byte 0) ≡ some (r, tb'))
    × Acked table 0 r tb'
proc_ack-Acked_example = proc_ack-Acked table (one_byte 0) blank-IsValid

recover-Recovered_example :
    (r : ℕ) × (tb' : SockTb) × (recover zeros waiting.minhp_recv waiting ≡ some (r, tb'))
    × Recovered waiting.minhp_recv waiting r tb'
recover-Recovered_example =
    recover-Recovered zeros waiting.minhp_recv waiting two_free-IsValid (omega arith)

recover-duplicate_example : recover zeros (one_byte 0 ∷ one_byte 0 ∷ []) table ≡ none
recover-duplicate_example =
    recover-duplicate zeros table (one_byte 0) (one_byte 0) [] two_free-IsValid refl refl
      (omega arith) (omega arith) (omega arith)

send-Sent_example :
    (ps : List Packet) × (tb' : SockTb) × (send dirty table ≡ some (ps, tb')) × Sent table ps tb'
send-Sent_example = send-Sent dirty table table-IsReady
