-- ===== src/Api/Hearing.antt =====
-- How a datagram that one side of a connection sent reaches the other side of tou.cpp.
use tcpoudp.Prelude.{
  ℕ, ◌+◌, ◌≤◌, Bool, ◌≡◌, refl, ap, ◌∙◌, true, false, some, List, [], ◌∷◌, ◌++◌, length,
  length-take, take_all, ltb, arith, take, if◌then◌else◌,
}
use tcpoudp.Congestion.{smss}
use tcpoudp.Link.{Link, Env}
use tcpoudp.Packet.{Packet, header_size, to_string, parse, le4, le2, offset_byte, flag_byte}
use tcpoudp.Packet.RoundTrip.{IsWellFormed, parse-to_string}
use tcpoudp.Socket.{SockAddr, Datagram}
use tcpoudp.Run.{recv_buf_size}
use tcpoudp.Api.{take_datagram}

-- The text of the datagram that was sent last.
abbrev pub last_text : List Datagram → List ℕ
last_text [] = []
last_text (d ∷ []) = d.content
last_text (d ∷ e ∷ ds) = last_text (e ∷ ds)

-- It waits, alone, at the other side.
abbrev pub hear : SockAddr → Link → Link → Link
hear from sender l = record l {
  inbox = record { from = from; content = last_text sender.wire } ∷ [];
}

pub last_text-append : (ds : List Datagram) (d : Datagram) → last_text (ds ++ (d ∷ [])) ≡ d.content
last_text-append [] d = refl
last_text-append (x ∷ []) d = refl
last_text-append (x ∷ y ∷ ds) d = last_text-append (y ∷ ds) d

-- What a side reads of a packet that the other side printed.
abbrev pub heard : Env → Packet → Packet
heard env p = record p { t = record p.t { doff = env.junk.doff; dres = env.junk.dres } }

length-to_string : (p : Packet) → length (to_string p) ≤ header_size + length p.buf
unfolding to_string
length-to_string p = printed (ltb 0 (length p.buf))
  where
    printed :
        (b : Bool)
        → length (
            le4 p.t.seq
            ++ le4 p.t.mag
            ++ le4 p.t.ack_seq
            ++ (offset_byte p.t ∷ flag_byte p.t ∷ le2 p.t.window)
            ++ (if b then take p.buflen p.buf else []))
          ≤ header_size + length p.buf
    printed true = omega (arith, length-take p.buflen p.buf)
    printed false = omega arith

module _ (env : Env) (p : Packet) (w : IsWellFormed p) (small : length p.buf ≤ smss) where
  take-to_string : take recv_buf_size (to_string p) ≡ to_string p
  take-to_string = take_all recv_buf_size (to_string p) (omega (arith, length-to_string p, small))

  pub parse-heard : parse env.junk (take recv_buf_size (to_string p)) ≡ some (heard env p)
  parse-heard = ap (parse env.junk) take-to_string ∙ parse-to_string env.junk p w

  -- A side that hears it.
  module _ (ds : List Datagram) (d : Datagram) (sender : Link) (sent : sender.wire ≡ ds ++ (d ∷ []))
      (printed : d.content ≡ to_string p) where
    pub reads-hear :
        parse env.junk (take recv_buf_size (last_text sender.wire)) ≡ some (heard env p)
    reads-hear =
        ap (λ (t : List ℕ). parse env.junk (take recv_buf_size t))
          (ap last_text sent ∙ last_text-append ds d ∙ printed)
        ∙ parse-heard

    pub take_datagram-hear :
        (from : SockAddr) (l : Link)
        → take_datagram env (hear from sender l) ≡ some (heard env p, record l { inbox = [] })
    unfolding take_datagram
    take_datagram-hear from l = rw reads-hear refl
