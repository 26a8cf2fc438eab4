-- ===== src/Timer/Rto.antt =====
-- The estimate of the round trip of timer.cpp.
use tcpoudp.Prelude.{
  ℕ, ◌+◌, ◌-◌, ◌*◌, ◌/◌, refl, ◌∙◌, ◌≤◌, ◌<◌, ◌≡◌, arith, half_word, minus_one, min,
}
use tcpoudp.Congestion.{ControlBlock}
use tcpoudp.Node.{Node}
use tcpoudp.Timer.{
  single, single_from, nearest, weighted, sample, cal_rto, max_timeo, cal_backoff_rto, get_time_ms,
}

-- What a measured acknowledgement does to the estimate, with the weights that the constructor of the
-- block sets: seven eighths of the new sample, and a timeout of twice the estimate.
pub record Measured (s : ℕ) (tc : ControlBlock) (tc' : ControlBlock) : Type 0 where
  pub above : tc.t_rtt + s * 7 < tc'.t_rtt * 8 + 16
  pub below : tc'.t_rtt * 8 ≤ tc.t_rtt + s * 7
  pub double : tc'.t_rto ≡ tc'.t_rtt * 2
  pub floor : 8 ≤ tc'.t_rtt
  pub window : tc'.snd_cwnd ≡ tc.snd_cwnd

-- Single precision is exact below 2 ^ 24.
single_exact : (x : ℕ) → x < 16777216 → single x ≡ x
unfolding single single_from nearest
single_exact x h = ground arith

weighted_exact : (x w : ℕ) → (x < 16777216) × (x * w < 16777216) → weighted x w ≡ x * w / 8
unfolding weighted
weighted_exact x w (a, b) = rw (single_exact x a, single_exact (x * w) b) refl

module _ (n : Node) (now : ℕ) (tc : ControlBlock) where
  -- For a node sent once on a block with the constructor's weights, with seven times the estimate
  -- and seven times the sample below 2 ^ 24, the new estimate is an eighth of the old and seven
  -- eighths of the sample, less than two milliseconds short, it is 8 ms at least, and the timeout is
  -- its double.
  pub cal_rto-Measured :
      tc.t_rtt_alpha ≡ 1
      → tc.t_rto_beta ≡ 2
      → n.xmitms < half_word
      → tc.t_rtt * 7 < 16777216
      → sample n now * 7 < 16777216
      → Measured (sample n now) tc (cal_rto n now tc)
  unfolding cal_rto
  cal_rto-Measured a b x r s =
      let old : weighted tc.t_rtt tc.t_rtt_alpha ≡ tc.t_rtt / 8 =
        rw a (weighted_exact tc.t_rtt 1 (omega arith) ∙ omega arith) in
      let new : weighted (sample n now) (8 - tc.t_rtt_alpha) ≡ sample n now * 7 / 8 =
        rw a (weighted_exact (sample n now) 7 (omega arith)) in
      record {
        above = ground (arith, old, new);
        below = ground (arith, old, new);
        double = ground (arith, old, new);
        floor = ground (arith, old, new);
        window = ground arith;
      }

  -- The round trip of a packet sent again, whose `xmitms` is -1, is not measured.
  pub cal_rto-again : n.xmitms ≡ minus_one → cal_rto n now tc ≡ tc
  unfolding cal_rto
  cal_rto-again h = ground arith

-- A timeout that is not above the maximum is doubled up to the maximum and never falls.
pub cal_backoff_rto_bounds :
    (tc : ControlBlock)
    → tc.t_rto ≤ max_timeo
    → (tc.t_rto ≤ (cal_backoff_rto tc).t_rto)
      × ((cal_backoff_rto tc).t_rto ≤ max_timeo)
      × ((cal_backoff_rto tc).t_rto ≡ min max_timeo (tc.t_rto * 2))
unfolding cal_backoff_rto
cal_backoff_rto_bounds tc h = ground arith

-- From the last second of a million to the next second the clock goes back, by 999999000 ms.
pub get_time_ms-wraps :
    (k u : ℕ)
    → u < 1000000
    → get_time_ms (k * 1000000 + 1000000) u + 999999000 ≡ get_time_ms (k * 1000000 + 999999) u
unfolding get_time_ms
get_time_ms-wraps k u h = omega arith
