-- ===== src/Api/Cycle.antt =====
-- A block, and the acknowledgement that comes back for it: touSend of tou.cpp, run at the receiver, and run
-- at the sender.
use tcpoudp.Prelude.{
  ℕ, ◌+◌, ◌≤◌, ◌<◌, ◌≡◌, refl, false, some, List, [], ◌++◌, length, nonpositive, arith, word,
}
use tcpoudp.Buffer.Contents.{contents}
use tcpoudp.Congestion.{ControlBlock, smss}
use tcpoudp.Delack.{ack_packet}
use tcpoudp.Link.{Link, Env}
use tcpoudp.Packet.{new_sized, clean, clear_flag, put_header_seq}
use tcpoudp.Packet.RoundTrip.{IsWellFormed}
use tcpoudp.Process.{gen_pkt}
use tcpoudp.Run.{returned, run}
use tcpoudp.Run.Reception.{run-delivers}
use tcpoudp.Socket.{SockAddr}
use tcpoudp.Api.{tou_send, tou_recv}
use tcpoudp.Api.Stream.{Read, tou_recv-Read}
use tcpoudp.Api.Hearing.{hear, heard, reads-hear}
use tcpoudp.Api.Delivery.{IsOpen, IsListening, sends_one, expects}
use tcpoudp.Api.Answer.{IsQuiet, settles}

-- What has come of the block: it is behind the bytes received, and the sender has nothing
-- unacknowledged, no timer and nothing to send.
pub record Settled (s : List ℕ) (c r c' r' : Link) : Type 0 where
  pub received : contents r'.tb.cb_recv ≡ contents r.tb.cb_recv ++ s
  pub una : c'.tb.tc.snd_una ≡ c.tb.tc.snd_nxt + length s
  pub nxt : c'.tb.tc.snd_nxt ≡ c.tb.tc.snd_nxt + length s
  pub timers : c'.timerheap ≡ []
  pub nothing_left : contents c'.tb.cb_send ≡ []
  pub reads : (n : ℕ) → nonpositive n ≡ false → Read n r' (tou_recv n r')

-- The acknowledgement can be printed and read.
ack_packet-IsWellFormed :
    (env : Env) (tc : ControlBlock)
    → tc.snd_nxt < word
    → tc.rcv_nxt < word
    → IsWellFormed (ack_packet env.junk tc)
unfolding ack_packet put_header_seq clean new_sized clear_flag
ack_packet-IsWellFormed env tc a b = record {
  seq_fits = a;
  mag_fits = omega arith;
  ack_fits = b;
  window_fits = omega arith;
  whole = refl;
}

-- Where a ready sender in slow start with nothing stored and no timer, on an established connection
-- with a valid congestion block, the words of its header in range, and a window open for it, sends a
-- block of one to SMSS bytes by touSend, and its datagram is alone at an established receiver that
-- expects the sender's next byte, has read all, has room for the block, holds nothing out of order
-- and delays no acknowledgement, touSend accepts the block, run returns at the receiver, and run at
-- the sender, which finds the answer alone, returns: the block is behind the bytes received, and
-- touRecv reads them; the sender has nothing that is not acknowledged, no timer, and nothing to
-- send.
pub tou_send-Settled :
    (es er : Env) (client server : SockAddr) (s : List ℕ) (c r : Link)
    → 0 < length s
    → length s ≤ smss
    → IsOpen es c.tb (length s)
    → IsQuiet c (length s)
    → IsListening r.tb c.tb.tc.snd_nxt (length s)
    → r.tb.tc.snd_nxt < word
    → (c₁ r' c' : Link) × (k : ℕ) × (tou_send es s c ≡ some (length s, c₁))
      × (run er (hear client c₁ r) ≡ returned k r')
      × (run es (hear server r' c₁) ≡ returned c'.rv c')
      × Settled s c r c' r'
unfolding ack_packet put_header_seq clean new_sized clear_flag gen_pkt
tou_send-Settled es er client server s c r some_bytes one o q h fits =
    let (c₁, e₁, d, sent, printed, w) = sends_one es s c o some_bytes one in
    let x = expects es er client s c r some_bytes one o h c₁ d sent printed in
    let (r', e₂, stored, a) =
      run-delivers er (hear client c₁ r) _ _ x h.buffer (omega (arith, h.empty, h.fits)) in
    let (tc, acks, seq, wire) = a.reply in
    let p = ack_packet er.junk tc in
    let at_end : tc.rcv_nxt ≡ c.tb.tc.snd_nxt + length s = omega (arith, acks, h.next, q.far) in
    let reads =
      reads-hear es p
        (ack_packet-IsWellFormed er tc (omega (arith, seq, fits)) (omega (arith, at_end, q.far)))
        (omega arith) r.wire _ r' wire refl in
    let (c', e₃, una, nxt, timers, nothing) =
      settles es s c o q some_bytes one c₁ w server r' (heard es p) reads refl refl refl refl
        at_end in
    (
      c₁,
      r',
      c',
      _,
      e₁,
      e₂,
      e₃,
      record {
        received = stored;
        una = una;
        nxt = nxt;
        timers = timers;
        nothing_left = nothing;
        reads = λ n p. tou_recv-Read r' a.buffer n p;
      },
    )
