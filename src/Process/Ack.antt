-- ===== src/Process/Ack.antt =====
-- What an acknowledgement does to a table of processtou.cpp.
use tcpoudp.Prelude.{ℕ, ◌<◌, ◌≡◌, refl, some, arith, max, dec_lt, ℕ_discrete}
use tcpoudp.Congestion.{ControlBlock, addwnd}
use tcpoudp.Congestion.Bounds
use tcpoudp.Congestion.Bounds.{Added, addwnd-Added}
use tcpoudp.Packet.{Packet}
use tcpoudp.Socket.{SockTb}
use tcpoudp.Process.{AckResult, bigger, equal, smaller, proc_ack}

-- The block that `addwnd` makes of a valid one.
pub record Opened (tc : ControlBlock) (tc' : ControlBlock) : Type 0 where
  pub made : addwnd tc ≡ some (0, tc')
  pub bounds : Added tc tc'

-- What `proc_ack` leaves on a valid block: `snd_una` never moves back, the block stays valid, and only
-- a repeated acknowledgement leaves it alone.
pub record Acked (tb : SockTb) (ack : ℕ) (r : AckResult) (tb' : SockTb) : Type 0 where
  pub una : tb'.tc.snd_una ≡ max tb.tc.snd_una ack
  pub valid : Bounds.IsValid tb'.tc
  pub newer :
      r ≡ bigger
      → (tb.tc.snd_una < ack)
        × ((tc' : ControlBlock) × Opened tb.tc tc'
            × (tb' ≡ record tb { tc = record tc' { snd_una = ack } }))
  pub same : r ≡ equal → (ack ≡ tb.tc.snd_una) × (tb' ≡ tb)
  pub older :
      r ≡ smaller
      → (ack < tb.tc.snd_una)
        × ((tc' : ControlBlock) × Opened tb.tc tc' × (tb' ≡ record tb { tc = tc' }))

module _ (tb : SockTb) (p : Packet) (v : Bounds.IsValid tb.tc) where
  Acked-newer :
      (tc' : ControlBlock)
      → Opened tb.tc tc'
      → tb.tc.snd_una < p.t.ack_seq
      → Acked tb p.t.ack_seq bigger (record tb { tc = record tc' { snd_una = p.t.ack_seq } })
  Acked-newer tc' a h = record {
    una = omega arith;
    valid = ground (arith, a.bounds.valid);
    newer = λ _. (h, (tc', a, refl));
    same = λ e. absurd (cc);
    older = λ e. absurd (cc);
  }

  Acked-older :
      (tc' : ControlBlock)
      → Opened tb.tc tc'
      → p.t.ack_seq < tb.tc.snd_una
      → Acked tb p.t.ack_seq smaller (record tb { tc = tc' })
  Acked-older tc' a h = record {
    una = omega (arith, a.bounds.una);
    valid = a.bounds.valid;
    newer = λ e. absurd (cc);
    same = λ e. absurd (cc);
    older = λ _. (h, (tc', a, refl));
  }

  Acked-again : p.t.ack_seq ≡ tb.tc.snd_una → Acked tb p.t.ack_seq equal tb
  Acked-again h = record {
    una = omega arith;
    valid = v;
    newer = λ e. absurd (cc);
    same = λ _. (h, refl);
    older = λ e. absurd (cc);
  }

  -- On a valid congestion block proc_ack succeeds, snd_una becomes the larger of itself and the
  -- acknowledgement, and the block stays valid. A newer acknowledgement opens the window by addwnd
  -- and sets snd_una, an older one opens it by addwnd and changes nothing else, and a repeated one
  -- changes nothing; what addwnd makes is within the bounds of Added.
  pub proc_ack-Acked :
      (r : AckResult) × (tb' : SockTb) × (proc_ack tb p ≡ some (r, tb'))
      × Acked tb p.t.ack_seq r tb'
  unfolding proc_ack
  proc_ack-Acked =
      let (tc', e, a) = addwnd-Added tb.tc v in
      let o : Opened tb.tc tc' = record { made = e; bounds = a } in
      elim (dec_lt tb.tc.snd_una p.t.ack_seq) [
        | yes h ↦ (
          bigger,
          record tb { tc = record tc' { snd_una = p.t.ack_seq } },
          ground (arith, e),
          Acked-newer tc' o h,
        )
        | no h ↦ elim (ℕ_discrete p.t.ack_seq tb.tc.snd_una) [
          | yes q ↦ (equal, tb, ground arith, Acked-again q)
          | no q ↦
              (smaller, record tb { tc = tc' }, ground (arith, e), Acked-older tc' o (omega arith))
        ]
      ]
