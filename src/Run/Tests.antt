-- ===== src/Run/Tests.antt =====
-- The state machine of processtou.cpp on a concrete connection.
use tcpoudp.Prelude.{ℕ, ◌≡◌, ◌≢◌, refl, some, List, [], ◌∷◌, ◌++◌, length, take, arith}
use tcpoudp.Buffer.Contents.{contents}
use tcpoudp.Buffer
use tcpoudp.Link.{Link}
use tcpoudp.Packet.{to_string, parse}
use tcpoudp.Packet.RoundTrip.{IsWellFormed, parse-to_string}
use tcpoudp.Process.Validity.{IsValid}
use tcpoudp.Run.{aborted, unfinished, returned, run, recv_buf_size}
use tcpoudp.Run.Termination.{run-ends}
use tcpoudp.Run.Reordering.{Swapped, run-reorders}
use tcpoudp.Run.Deleted.{run-aborts}
use tcpoudp.Run.Reception.{Expected, Answered, run-loses}
use tcpoudp.Samples.{
  world, env, idle, table, one_byte, dirty, two_free, full_ring, with_arrival, arriving,
}
use tcpoudp.Socket.{get_socket_table, find, SockTb, pkt_recovery}

abbrev datagram : List ℕ
datagram = to_string (one_byte 0)

one_byte-IsWellFormed : IsWellFormed (one_byte 0)
one_byte-IsWellFormed = record {
  seq_fits = omega arith;
  mag_fits = omega arith;
  ack_fits = omega arith;
  window_fits = omega arith;
  whole = refl;
}

datagram_reads : parse dirty (take recv_buf_size datagram) ≡ some (one_byte 0)
unfolding to_string
datagram_reads = parse-to_string dirty (one_byte 0) one_byte-IsWellFormed

abbrev hears : SockTb → Link
hears tb = with_arrival datagram tb

abbrev full : SockTb
full = record table { cb_recv = full_ring }

hears-Expected : Expected env (hears table) (arriving datagram) (one_byte 0)
hears-Expected = record {
  state = refl;
  waiting = refl;
  reads = datagram_reads;
  established = refl;
  ack = refl;
  syn = refl;
  fin = refl;
  bytes = omega arith;
  next = refl;
  ordered = refl;
  delack_lo = omega arith;
  delack_hi = omega arith;
  prompt = λ e. omega (arith, e);
}

full-Expected : Expected env (hears full) (arriving datagram) (one_byte 0)
full-Expected = record {
  state = refl;
  waiting = refl;
  reads = datagram_reads;
  established = refl;
  ack = refl;
  syn = refl;
  fin = refl;
  bytes = omega arith;
  next = refl;
  ordered = refl;
  delack_lo = omega arith;
  delack_hi = omega arith;
  prompt = λ e. omega (arith, e);
}

two_free-IsValid : Buffer.Bounds.IsValid two_free
two_free-IsValid = omega arith

full_ring-IsValid : Buffer.Bounds.IsValid full_ring
full_ring-IsValid = omega arith

table-IsValid : IsValid table
table-IsValid = record {
  send_buf = two_free-IsValid;
  recv_buf = two_free-IsValid;
  block = ground arith;
  packets = tt;
}

abbrev recovering : Link
recovering = record idle { tb = record table { runstate = pkt_recovery } }

run-ends_example : run env (hears table) ≢ unfinished
run-ends_example = run-ends env (hears table)

run-aborts_example : run env recovering ≡ aborted
run-aborts_example = run-aborts env recovering (λ e. cc)

run-loses_example :
    (l' : Link) × (run env (hears full) ≡ returned (length (take recv_buf_size datagram)) l')
    × (l'.tb.cb_recv ≡ full_ring)
    × Answered env (hears full) (one_byte 0) l'
run-loses_example =
    run-loses env (hears full) (arriving datagram) (one_byte 0) full-Expected full_ring-IsValid
      (omega arith)

world-found : get_socket_table world 4 ≡ some 0
unfolding get_socket_table find
world-found = refl

-- The bytes 0 and 1, the second of which arrives first, and a ring with room for both.
abbrev later : List ℕ
later = to_string (one_byte 1)

abbrev hears_later : Link
hears_later = with_arrival later table

later_reads : parse dirty (take recv_buf_size later) ≡ some (one_byte 1)
unfolding to_string
later_reads = parse-to_string dirty (one_byte 1) (record {
  seq_fits = omega arith;
  mag_fits = omega arith;
  ack_fits = omega arith;
  window_fits = omega arith;
  whole = refl;
})

hears-Swapped :
    Swapped env (hears_later) (arriving datagram) (arriving later) (one_byte 0) (one_byte 1)
hears-Swapped = record {
  ready = refl;
  waiting = refl;
  established = refl;
  ordered = refl;
  reads₁ = datagram_reads;
  reads₂ = later_reads;
  data₁ = record { ack = refl; syn = refl; fin = refl; bytes = omega arith };
  data₂ = record { ack = refl; syn = refl; fin = refl; bytes = omega arith };
  whole = refl;
  next = refl;
  follows = refl;
  no_wrap = omega arith;
  buffer = two_free-IsValid;
  room = omega arith;
}

run-reorders_example :
    (l₁ l₂ : Link) × (run env hears_later ≡ returned (length (take recv_buf_size later)) l₁)
    × (run env (record l₁ { inbox = arriving datagram ∷ [] })
        ≡ returned (length (take recv_buf_size datagram)) l₂)
    × (contents l₂.tb.cb_recv ≡ contents two_free ++ (65 ∷ 65 ∷ []))
    × (l₂.tb.tc.rcv_nxt ≡ 2)
    × (l₂.tb.minhp_recv ≡ [])
run-reorders_example =
    run-reorders env hears_later (arriving datagram) (arriving later) (one_byte 0) (one_byte 1)
      hears-Swapped
