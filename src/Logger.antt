-- ===== src/Logger.antt =====
-- `Logger::logData` of src/lib/tou_logger.h and tou_logger.cpp for a line of text: which logs it is written to.
-- A log is named by its flag, and the message of an error by the flag that has no log of its own.
-- The files and the time before a line are left out.
pub mod Choice
mod Tests
use Prim.Native.Nat.{bit_and, bit_or}
use tcpoudp.Prelude.{
  ℕ, zero, suc, ◌-◌, Bool, Option, none, some, List, [], ◌∷◌, ◌++◌, map, ◌==◌, if◌then◌else◌,
  short_word, true, false, ◌>>=◌,
}
use tcpoudp.Packet.{has_bit}

-- TOULOG_ALL, TOULOG_TIMER, TOULOG_PKTSENT, TOULOG_PKTRECV, TOULOG_PKT, TOULOG_SOCKTB, TOULOG_PTSRN,
-- TOULOG_PROBE
abbrev pub log_all : ℕ
log_all = 0x0001

abbrev pub log_timer : ℕ
log_timer = 0x0002

abbrev pub log_pktsent : ℕ
log_pktsent = 0x0004

abbrev pub log_pktrecv : ℕ
log_pktrecv = 0x0008

abbrev pub log_pkt : ℕ
log_pkt = 0x0010

abbrev pub log_socktb : ℕ
log_socktb = 0x0020

abbrev pub log_terminal : ℕ
log_terminal = 0x0040

abbrev pub log_probe : ℕ
log_probe = 0x0080

-- `logs & ~flag` of an unsigned short.
abbrev pub clear_bit : ℕ → ℕ → ℕ
clear_bit logs flag = bit_and logs (short_word - 1 - flag)

-- The chain of tests: the log that is written, or none.
unfoldable pub next_log : ℕ → Option ℕ
next_log logs =
    if has_bit logs log_all
    then some log_all
    else if has_bit logs log_timer
    then some log_timer
    else if has_bit logs log_pktsent
    then some log_pktsent
    else if has_bit logs log_pktrecv
    then some log_pktrecv
    else if has_bit logs log_pkt
    then some log_pkt
    else if has_bit logs log_socktb
    then some log_socktb
    else if has_bit logs log_terminal
    then some log_terminal
    else none

-- The loop, on fuel, and what it writes to; its last branch writes an error and leaves. `none` is the
-- end of the fuel.
unfoldable pub log_loop : ℕ → ℕ → Option (List ℕ)
log_loop zero logs = none
log_loop (suc fuel) logs = elim (logs == 0) [
  | true ↦ some []
  | false ↦ elim (next_log logs) [
    | none ↦ some (log_probe ∷ [])
    | some flag ↦ elim (log_loop fuel (clear_bit logs flag)) [
      | none ↦ none
      | some rest ↦ some (flag ∷ rest)
    ]
  ]
]

-- LOGON, LOGFLAG and the lines written, each with its log.
pub record Logger : Type 0 where
  pub on : Bool
  pub flag : ℕ
  pub written : List (ℕ × List ℕ)

-- The lines after those that go to some logs.
abbrev pub write_to : Logger → List ℕ → Option (List ℕ) → Option Logger
write_to l line logs =
    logs >>= λ ks. some (record l { written = l.written ++ map (λ k. (k, line)) ks })

-- `logData`: eight rounds are enough, as each clears a flag.
unfoldable pub log_data : Logger → List ℕ → ℕ → Option Logger
log_data l line level = if l.on then write_to l line (log_loop 9 (bit_or l.flag level)) else some l
