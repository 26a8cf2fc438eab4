-- ===== src/Api/Close/Fin.antt =====
-- What run of processtou.cpp makes of the FIN that `touClose` of tou.cpp sends.
use tcpoudp.Prelude.{
  ℕ, ◌+◌, ◌*◌, ◌≡◌, refl, ap, ◌∙◌, false, some, List, ◌∷◌, ◌++◌, take, arith, inl,
}
use tcpoudp.Link.{Arrival, Link, Env}
use tcpoudp.Packet.{
  Header, Packet, le2, le4, set_bit, parse, parsed, set_flags, new_sized, clean, clear_flag,
}
use tcpoudp.Packet.RoundTrip.{parse_long}
use tcpoudp.Process.Receive.{classify-exits}
use tcpoudp.Run.{recv_buf_size, aborted, run}
use tcpoudp.Run.Round.{run-exits}
use tcpoudp.Socket.{get_pkt}
use tcpoudp.Api.Close.{Object, Layout, Surroundings, fin_packet}

-- The byte of the flags where the first bit-field of `touHeader` is the lowest bit.
abbrev pub lsb_flags : Header → ℕ
lsb_flags h = set_bit h.fin 128 (
    set_bit h.syn 64 (
      set_bit h.rst 32 (
        set_bit h.psh 16
          (set_bit h.ack 8 (set_bit h.ece 4 (set_bit h.cwr 2 (set_bit h.res 1 0)))))))

-- The bytes of the header in the memory of an object, for a compiler that starts a unit of
-- bit-fields at the lowest bit.
abbrev pub lsb_header : Header → List ℕ
lsb_header h =
    le4 h.seq ++ le4 h.mag ++ le4 h.ack_seq ++ ((h.doff + 16 * h.dres) ∷ lsb_flags h ∷ le2 h.window)

pub record IsLsbFirst (y : Layout) : Type 0 where
  pub rest : Object → List ℕ
  pub image : (o : Object) → y.image o ≡ lsb_header o.packet.t ++ rest o

module _ (x : Surroundings) (at : ℕ) (y : IsLsbFirst x.layout) (env : Env) where
  abbrev fin_text : List ℕ
  fin_text = take recv_buf_size (lsb_header (fin_packet x at).packet.t ++ y.rest (fin_packet x at))

  abbrev heard : Packet
  heard = parsed env.junk fin_text

  fin_parsed : parse env.junk fin_text ≡ some heard
  fin_parsed = parse_long env.junk fin_text (omega arith)

  ack-heard : heard.t.ack ≡ false
  unfolding parsed set_flags fin_packet clean new_sized clear_flag
  ack-heard = refl

  syn-heard : heard.t.syn ≡ false
  unfolding parsed set_flags fin_packet clean new_sized clear_flag
  syn-heard = refl

  fin-heard : heard.t.fin ≡ false
  unfolding parsed set_flags fin_packet clean new_sized clear_flag
  fin-heard = refl

  -- Where a compiler starts a unit of bit-fields at the lowest bit, the FIN of touClose, first in
  -- the inbox of any connection whose run starts with a new packet, ends the receiving program: its
  -- flag is read as another one, so the packet has no flag that the state machine knows.
  pub run-fin_packet :
      (l : Link) (a : Arrival) (rest : List Arrival)
      → l.tb.runstate ≡ get_pkt
      → l.inbox ≡ a ∷ rest
      → a.content ≡ x.layout.image (fin_packet x at)
      → run env l ≡ aborted
  run-fin_packet l a rest ready waiting e =
      run-exits env l a rest heard ready waiting
        (ap (λ (c : List ℕ). parse env.junk (take recv_buf_size c)) (e ∙ y.image (fin_packet x at))
          ∙ fin_parsed)
        (classify-exits l.tb heard syn-heard fin-heard (inl ack-heard))
