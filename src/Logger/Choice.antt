-- ===== src/Logger/Choice.antt =====
-- The logs that a line of tou_logger.cpp is written to.
use Prim.Native.Nat.{bit_or}
use tcpoudp.Prelude.{
  ℕ, zero, suc, ◌<◌, ◌≡◌, refl, ap, ap₂, ◌∙◌, Bool, true, false, ◌&&◌, Option, none, some, List, [],
  ◌∷◌, ◌++◌, map, arith, ◌==◌, if◌then◌else◌, ℕ_discrete,
}
use tcpoudp.Packet.{has_bit}
use tcpoudp.Logger.{
  log_all, log_timer, log_pktsent, log_pktrecv, log_pkt, log_socktb, log_terminal, log_probe,
  next_log, log_loop, Logger, write_to, log_data,
}

-- The flags, in order.
abbrev pub flags : List ℕ
flags =
    log_all ∷ log_timer ∷ log_pktsent ∷ log_pktrecv ∷ log_pkt ∷ log_socktb ∷ log_terminal
    ∷ log_probe ∷ []

-- Those that are set.
abbrev pub chosen : List ℕ → ℕ → List ℕ
chosen [] logs = []
chosen (f ∷ fs) logs = if has_bit logs f then f ∷ chosen fs logs else chosen fs logs

same : List ℕ → List ℕ → Bool
same [] [] = true
same [] (y ∷ ys) = false
same (x ∷ xs) [] = false
same (x ∷ xs) (y ∷ ys) = x == y && same xs ys

same_sound : (xs ys : List ℕ) → same xs ys ≡ true → xs ≡ ys
unfolding same
same_sound [] [] e = refl
same_sound [] (y ∷ ys) e = absurd (cc)
same_sound (x ∷ xs) [] e = absurd (cc)
same_sound (x ∷ xs) (y ∷ ys) e = ap₂ ◌∷◌ (ground (arith, e)) (same_sound xs ys (ground (arith, e)))

same_some : Option (List ℕ) → List ℕ → Bool
same_some none ys = false
same_some (some xs) ys = same xs ys

same_some_sound : (o : Option (List ℕ)) (ys : List ℕ) → same_some o ys ≡ true → o ≡ some ys
unfolding same_some
same_some_sound none ys e = absurd (cc)
same_some_sound (some xs) ys e = ap some (same_sound xs ys e)

agrees : ℕ → Bool
agrees logs = same_some (log_loop 9 logs) (chosen flags logs)

all_below : (ℕ → Bool) → ℕ → Bool
all_below p zero = true
all_below p (suc n) = p n && all_below p n

all_below_sound : (p : ℕ → Bool) (n i : ℕ) → all_below p n ≡ true → i < n → p i ≡ true
unfolding all_below
all_below_sound p zero i e h = absurd (omega arith)
all_below_sound p (suc n) i e h = elim (ℕ_discrete i n) [
  | yes q ↦ ap p q ∙ ground (arith, e)
  | no q ↦ all_below_sound p n i (ground (arith, e)) (omega (arith, q, h))
]

every_agrees : all_below agrees 256 ≡ true
unfolding all_below agrees same same_some log_loop next_log
every_agrees = refl

log_loop-chosen : (logs : ℕ) → logs < 256 → log_loop 9 logs ≡ some (chosen flags logs)
unfolding agrees
log_loop-chosen logs h =
    same_some_sound (log_loop 9 logs) (chosen flags logs)
      (all_below_sound agrees 256 logs every_agrees h)

-- For flags below 2 ^ 8, of LOGFLAG and of the line's level together, logData ends: with LOGON it
-- writes the line once, in the order of the flags, to each log whose flag is set, whether by LOGFLAG
-- or by the level, and an error where the flag of the probe is set; without LOGON it writes nothing.
pub log_data-chosen :
    (l : Logger) (line : List ℕ) (level : ℕ)
    → bit_or l.flag level < 256
    → (l.on ≡ true
        → log_data l line level
          ≡ some (record l {
            written = l.written ++ map (λ k. (k, line)) (chosen flags (bit_or l.flag level));
          }))
      × (l.on ≡ false → log_data l line level ≡ some l)
unfolding log_data
log_data-chosen l line level h = (
  (λ e.
      ap (λ (b : Bool). if b then write_to l line (log_loop 9 (bit_or l.flag level)) else some l) e
      ∙ ap (write_to l line) (log_loop-chosen (bit_or l.flag level) h)),
  (λ e.
      ap (λ (b : Bool). if b then write_to l line (log_loop 9 (bit_or l.flag level)) else some l)
        e),
)
