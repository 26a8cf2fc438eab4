-- ===== src/Thread/Tests.antt =====
-- The timer thread of timer.cpp on a concrete connection.
use tcpoudp.Prelude.{ℕ, Bool, true, false, aborts, ◌≡◌, ◌≢◌, refl, some, List, [], ◌∷◌, take, arith}
use tcpoudp.Link.{Link}
use tcpoudp.Node.{Node}
use tcpoudp.Packet.{Packet, to_string, parse}
use tcpoudp.Packet.RoundTrip.{parse-to_string}
use tcpoudp.Run.{unfinished, recv_buf_size}
use tcpoudp.Samples.{env, node, table, blank, dirty, empty_ring, with_arrival, arriving}
use tcpoudp.Thread.{drain, doit_turn}
use tcpoudp.Thread.Drain.{drain-ends}
use tcpoudp.Thread.Empty.{LastAck, doit_turn-aborts}

-- The acknowledgement of the byte before 9.
abbrev ack_of_9 : Packet
ack_of_9 = record {
  t = record dirty { seq = 0; ack_seq = 9; ack = true; syn = false };
  buf = [];
  buflen = 0;
}

abbrev datagram : List ℕ
datagram = to_string ack_of_9

datagram_reads : parse dirty (take recv_buf_size datagram) ≡ some ack_of_9
unfolding to_string
datagram_reads = parse-to_string dirty ack_of_9 (record {
  seq_fits = omega arith;
  mag_fits = omega arith;
  ack_fits = omega arith;
  window_fits = omega arith;
  whole = refl;
})

-- All is sent, and one timer runs.
abbrev last : Node
last = record node { t_id = 20 }

abbrev hears : Link
hears =
    record (with_arrival datagram
      (record table { cb_send = empty_ring; tc = record blank { snd_nxt = 9 } })) {
        timerheap = last ∷ [];
      }

hears-LastAck : LastAck env hears (arriving datagram) ack_of_9 last
hears-LastAck = record {
  state = refl;
  waiting = refl;
  reads = datagram_reads;
  established = refl;
  ack = refl;
  syn = refl;
  fin = refl;
  bytes = refl;
  newer = omega arith;
  sent = omega arith;
  block = ground arith;
  nothing_to_send = refl;
  heap = refl;
  owner = refl;
  end = refl;
  no_acks = refl;
}

-- Another thread has the lock at first.
abbrev tries : List Bool
tries = false ∷ true ∷ false ∷ true ∷ []

drain-ends_example : drain env tries hears ≢ unfinished
drain-ends_example = drain-ends env tries hears (omega arith)

doit_turn-aborts_example : doit_turn env tries hears ≡ aborts
doit_turn-aborts_example =
    doit_turn-aborts env hears (arriving datagram) ack_of_9 last hears-LastAck tries (omega arith)
