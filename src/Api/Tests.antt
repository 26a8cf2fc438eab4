-- ===== src/Api/Tests.antt =====
-- The interface of tou.cpp on concrete connections.
use tcpoudp.Prelude.{
  ℕ, ◌<◌, ◌≡◌, refl, true, false, some, List, [], ◌∷◌, ◌++◌, arith, word, length-replicate,
}
use tcpoudp.Buffer
use tcpoudp.Packet.{to_string, Packet}
use tcpoudp.Packet.RoundTrip.{IsWellFormed, parse-to_string}
use tcpoudp.Socket.{Datagram}
use tcpoudp.Run.Datagram.{IsReceiving}
use tcpoudp.Run.Streams.{Received, run-Received}
use tcpoudp.Api.Transfer.{arrivals, Carried, tou_send-Carried}
use tcpoudp.Link.{Link, timer_id_sndpkt}
use tcpoudp.Packet.{header_size}
use tcpoudp.Process.Turn.{IsReady}
use tcpoudp.Run.{returned, run}
use tcpoudp.Samples.{
  env, idle, here, there, table, two_free, empty_ring, wide_ring, one_byte, dirty, arriving, node,
}
use tcpoudp.Api.{connect_syn, tou_connect, accept_syn_ack, tou_accept, tou_send, tou_recv}
use tcpoudp.Api.Hearing.{hear}
use tcpoudp.Api.Handshake.{Agreed, handshake_agrees}
use tcpoudp.Api.Cycle.{Settled, tou_send-Settled}
use tcpoudp.Run.Acknowledging.{Advanced, run-Advanced}
use tcpoudp.Api.Stream.{Read, Wrote, tou_recv-Read, tou_send-Wrote}

table-IsReady : IsReady table
table-IsReady = record {
  buffer = omega arith;
  order = omega arith;
  nxt_fits = omega arith;
  far = omega arith;
}

tou_recv-Read_example : Read 3 idle (tou_recv 3 idle)
tou_recv-Read_example = tou_recv-Read idle (omega arith) 3 refl

tou_send-Wrote_example :
    (n : ℕ) × (l' : Link) × (tou_send env (66 ∷ 67 ∷ []) idle ≡ some (n, l'))
    × Wrote env (66 ∷ 67 ∷ []) idle n l'
tou_send-Wrote_example =
    tou_send-Wrote env (66 ∷ 67 ∷ []) idle table-IsReady (omega arith) (omega arith)

handshake_agrees_example :
    (c₁ s₁ c₂ s₂ : Link) × (connect_syn env there 400000 idle ≡ some c₁)
    × (run env (hear here c₁ idle) ≡ returned header_size s₁)
    × (tou_connect env there 400000 (hear there (accept_syn_ack env 70000 400000 s₁) idle)
        ≡ some (true, c₂))
    × (tou_accept env 70000 400000 (hear here c₂ s₁) ≡ some (true, s₂))
    × Agreed c₂.tb s₂.tb
handshake_agrees_example =
    handshake_agrees env env here there 70000 400000 400000 idle idle refl refl refl

-- A sender and a receiver with nothing stored, and a window that is open.
abbrev writer : Link
writer = record idle {
  tb = record table {
    cb_send = record two_free { ti = 3; tot_el = 0 };
    tc = record table.tc { snd_cwnd = 14560 };
  };
}

abbrev reader : Link
reader = record idle { tb = record table { cb_recv = empty_ring } }

tou_send-Settled_example :
    (c₁ r' c' : Link) × (k : ℕ) × (tou_send env (66 ∷ []) writer ≡ some (1, c₁))
    × (run env (hear here c₁ reader) ≡ returned k r')
    × (run env (hear there r' c₁) ≡ returned c'.rv c')
    × Settled (66 ∷ []) writer reader c' r'
tou_send-Settled_example =
    tou_send-Settled env env here there (66 ∷ []) writer reader (omega arith) (omega arith)
      (record {
        ready = record {
          buffer = omega arith;
          order = omega arith;
          nxt_fits = omega arith;
          far = omega arith;
        };
        slow = refl;
        empty = refl;
        fits = omega arith;
        opened = omega arith;
        window = omega arith;
        ack_fits = omega arith;
        memory = omega arith;
      })
      (record {
        state = refl;
        established = refl;
        block = ground arith;
        timers = refl;
        far = omega arith;
      })
      (record {
        state = refl;
        established = refl;
        next = refl;
        ordered = refl;
        delack_lo = omega arith;
        delack_hi = omega arith;
        prompt = λ e. omega (arith, e);
        buffer = omega arith;
        empty = refl;
        fits = omega arith;
      })
      (omega arith)

-- A bare acknowledgement of the three bytes sent, for which there is a timer.
abbrev bare_ack : Packet
bare_ack = record {
  t = record dirty { seq = 0; ack_seq = 3; ack = true; syn = false };
  buf = [];
  buflen = 0;
}

abbrev sent_three : Link
sent_three = record idle {
  tb = record table { tc = record table.tc { snd_nxt = 3 } };
  timerheap = record node { t_id = timer_id_sndpkt; p_id = 3 } ∷ [];
  inbox = arriving (to_string bare_ack) ∷ [];
}

run-Advanced_example :
    (l' : Link) × (run env sent_three ≡ returned l'.rv l')
    × Advanced env sent_three (arriving (to_string bare_ack)) bare_ack l'
unfolding to_string
run-Advanced_example =
    run-Advanced env sent_three (arriving (to_string bare_ack)) bare_ack (record {
      state = refl;
      waiting = refl;
      reads = parse-to_string dirty bare_ack (record {
        seq_fits = omega arith;
        mag_fits = omega arith;
        ack_fits = omega arith;
        window_fits = omega arith;
        whole = refl;
      });
      established = refl;
      ack = refl;
      syn = refl;
      fin = refl;
      bytes = refl;
      newer = omega arith;
      sent = omega arith;
      block = ground arith;
      ready = record {
        buffer = omega arith;
        order = omega arith;
        nxt_fits = omega arith;
        far = omega arith;
      };
      far = omega arith;
      timers = omega arith;
    })

wide_ring-IsValid : Buffer.Bounds.IsValid wide_ring
wide_ring-IsValid = record {
  positive = omega arith;
  small = omega arith;
  head_in = omega arith;
  count_in = omega arith;
  tail_at = refl;
  storage = length-replicate {A = ℕ} 3000 0;
}

-- A receiver with room for more than a datagram.
abbrev wide : Link
wide = record idle { tb = record table { cb_recv = wide_ring } }

wide-IsReceiving : IsReceiving wide
wide-IsReceiving = record {
  state = refl;
  established = refl;
  ordered = refl;
  delays = record { lo = omega arith; hi = omega arith; node = λ e. absurd (omega (arith, e)) };
  buffer = wide_ring-IsValid;
}

tou_send-Carried_example :
    (c' : Link) × (ds : List Datagram) × (r' : Link) × (tou_send env (66 ∷ 67 ∷ []) writer
      ≡ some (2, c'))
    × (c'.wire ≡ [] ++ ds)
    × (run env (record wide { inbox = arrivals here ds }) ≡ returned r'.rv r')
    × Carried (66 ∷ 67 ∷ []) writer wide c' r'
tou_send-Carried_example =
    tou_send-Carried env env here (66 ∷ 67 ∷ []) writer wide
      (record {
        sender = record {
          buffer = omega arith;
          order = omega arith;
          nxt_fits = omega arith;
          far = omega arith;
        };
        ack_fits = omega arith;
        receiver = wide-IsReceiving;
        agree = refl;
      })
      (omega arith) (omega arith) (omega arith) (omega arith) (omega arith)

one_byte-IsWellFormed : (k : ℕ) → k < word → IsWellFormed (one_byte k)
one_byte-IsWellFormed k h = record {
  seq_fits = h;
  mag_fits = omega arith;
  ack_fits = omega arith;
  window_fits = omega arith;
  whole = refl;
}

-- The bytes 0 and 1 wait.
abbrev both : Link
both = record wide {
  inbox = arriving (to_string (one_byte 0)) ∷ arriving (to_string (one_byte 1)) ∷ [];
}

run-Received_example :
    (l' : Link) × (run env both ≡ returned l'.rv l')
    × Received both (one_byte 0 ∷ one_byte 1 ∷ []) l'
unfolding to_string
run-Received_example =
    run-Received env both (one_byte 0 ∷ one_byte 1 ∷ [])
      (record {
        state = refl;
        established = refl;
        ordered = refl;
        delays = wide-IsReceiving.delays;
        buffer = wide_ring-IsValid;
      })
      (
        parse-to_string dirty (one_byte 0) (one_byte-IsWellFormed 0 (omega arith)),
        record { ack = refl; syn = refl; fin = refl; bytes = omega arith },
        refl,
        (
          parse-to_string dirty (one_byte 1) (one_byte-IsWellFormed 1 (omega arith)),
          record { ack = refl; syn = refl; fin = refl; bytes = omega arith },
          refl,
          tt,
        ),
      )
      (omega arith)
