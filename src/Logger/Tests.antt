-- ===== src/Logger/Tests.antt =====
-- The logs of tou_logger.cpp on a concrete line.
use tcpoudp.Prelude.{◌≡◌, true, false, some, [], ◌∷◌, arith}
use tcpoudp.Logger.{Logger, log_data, log_timer, log_pkt, log_probe}
use tcpoudp.Logger.Choice.{log_data-chosen}

-- LOGFLAG names the log of packets and the probe.
abbrev quiet : Logger
quiet = record { on = true; flag = 0x90; written = [] }

log_data-chosen_example :
    (true ≡ true
      → log_data quiet (72 ∷ []) log_timer
        ≡ some (record quiet {
          written = (log_timer, 72 ∷ []) ∷ (log_pkt, 72 ∷ []) ∷ (log_probe, 72 ∷ []) ∷ [];
        }))
    × (true ≡ false → log_data quiet (72 ∷ []) log_timer ≡ some quiet)
log_data-chosen_example = log_data-chosen quiet (72 ∷ []) log_timer (omega arith)
