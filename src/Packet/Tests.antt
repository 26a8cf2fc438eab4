-- ===== src/Packet/Tests.antt =====
-- Packets of tou_header.cpp on concrete bytes.
use tcpoudp.Prelude.{ℕ, ◌≡◌, refl, some, none, List, [], ◌∷◌, arith}
use tcpoudp.Packet.{
  Packet, new_packet, put_header_seq, to_string, parse, flag_byte, offset_byte, clear_flag,
}
use tcpoudp.Samples.{dirty}
use tcpoudp.Packet.RoundTrip.{IsWellFormed, parse-to_string}

abbrev two_bytes : Packet
two_bytes = record { t = dirty; buf = 0 ∷ 255 ∷ []; buflen = 2 }

abbrev datagram : List ℕ
datagram = 1 ∷ 2 ∷ 0 ∷ 0 ∷ 0x2e ∷ 0xb3 ∷ 0x94 ∷ 0x71 ∷ 0 ∷ 0 ∷ 0 ∷ 1 ∷ 9 ∷ 0x12 ∷ 3 ∷ 0 ∷ 65 ∷ []

printed :
    to_string (put_header_seq (new_packet dirty (65 ∷ [])) 513 0x1000000)
    ≡ 1 ∷ 2 ∷ 0 ∷ 0 ∷ 0x2e ∷ 0xb3 ∷ 0x94 ∷ 0x71 ∷ 0 ∷ 0 ∷ 0 ∷ 1 ∷ 0 ∷ 0 ∷ 1 ∷ 2 ∷ 65 ∷ []
unfolding to_string put_header_seq new_packet flag_byte offset_byte
printed = refl

parse_short : parse dirty (1 ∷ 2 ∷ 3 ∷ []) ≡ none
unfolding parse
parse_short = refl

two_bytes-IsWellFormed : IsWellFormed two_bytes
two_bytes-IsWellFormed = omega arith

parse-to_string_example :
    parse (clear_flag dirty) (to_string two_bytes)
    ≡ some (record two_bytes { t = record dirty { doff = 0; dres = 0 } })
unfolding clear_flag
parse-to_string_example = parse-to_string (clear_flag dirty) two_bytes two_bytes-IsWellFormed
