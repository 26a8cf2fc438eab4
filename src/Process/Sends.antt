-- ===== src/Process/Sends.antt =====
-- The sending of processtou.cpp keeps a valid table.
use tcpoudp.Prelude.{
  ℕ, zero, suc, sym, subst, Option, none, some, List, ◌∷◌, half_word, if◌then◌else◌, lt_int, sub32,
  Holds, Holds-if, leb,
}
use tcpoudp.Buffer.{get_total_elements}
use tcpoudp.Congestion.{smss}
use tcpoudp.Packet.{Header, Packet}
use tcpoudp.Process.Turns.{send_loop-suc, send_lem}
use tcpoudp.Process.{send_turns, get_send_size, popsndq, send_one, send_loop, send, stops}
use tcpoudp.Socket.{SockTb}
use tcpoudp.Process.Validity.{
  IsValid, Good, snd_nxt-IsValid, popsndq-IsValid, get_send_size-IsValid,
}

module _ (junk : Header) where
  send_one-IsValid : (tb : SockTb) (n : ℕ) → IsValid tb → Holds Good (send_one junk tb n)
  unfolding send_one
  send_one-IsValid tb n v =
      let m = if lt_int n smss then n else smss in
      Holds-if (Good {A = Packet}) (leb half_word (popsndq tb m).0) none _ tt
        (snd_nxt-IsValid (popsndq tb m).2 (popsndq-IsValid tb v m) _)

  send_loop-IsValid :
      (fuel : ℕ) (tb : SockTb) (k : ℕ) → IsValid tb → Holds Good (send_loop junk fuel tb k)
  unfolding send_loop send_turns
  send_loop-IsValid zero tb k v = tt
  send_loop-IsValid (suc fuel) tb k v =
      let w = get_send_size-IsValid tb v in
      let g = get_send_size tb in
      subst (Holds Good) (sym (send_loop-suc junk fuel tb k)) (
        Holds-if Good (lt_int 0 (get_total_elements tb.cb_send)) _ _
          (Holds-if Good (stops g.1 g.0 k) _ _ w (
            turn (send_one junk g.1 g.0) (send_one-IsValid g.1 g.0 w)
              (λ tb' u. send_loop-IsValid fuel tb' (sub32 k 1) u)))
          v)
    where
      turn :
          (o : Option (Packet × SockTb))
          → Holds Good o
          → ((tb' : SockTb) → IsValid tb' → Holds Good (send_loop junk fuel tb' (sub32 k 1)))
          → Holds Good (elim o [
            | none ↦ none
            | some (p, tb') ↦ elim (send_loop junk fuel tb' (sub32 k 1)) [
              | none ↦ none
              | some (ps, tb₂) ↦ some (p ∷ ps, tb₂)
            ]
          ])
      turn none u ih = tt
      turn (some (p, tb')) u ih = sent p (send_loop junk fuel tb' (sub32 k 1)) (ih tb' u)
        where
          sent :
              (p : Packet) (o : Option (List Packet × SockTb))
              → Holds Good o
              → Holds Good (elim o [ none ↦ none | some (ps, tb₂) ↦ some (p ∷ ps, tb₂) ])
          sent p none u = tt
          sent p (some (ps, tb₂)) u = u

  pub send-IsValid : (tb : SockTb) → IsValid tb → Holds Good (send junk tb)
  send-IsValid tb v =
      subst (Holds Good) (sym (send_lem junk tb))
        (send_loop-IsValid _ _ _ (get_send_size-IsValid tb v))
