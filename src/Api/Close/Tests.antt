-- ===== src/Api/Close/Tests.antt =====
-- `touClose` of tou.cpp on a concrete connection, for the layout of a compiler that starts a unit of
-- bit-fields at the lowest bit.
use tcpoudp.Prelude.{
  ℕ, ◌≡◌, refl, some, List, [], ◌∷◌, ◌++◌, arith, length, leb, get_or, if◌then◌else◌,
}
use tcpoudp.Packet.{new_sized, clear_flag, le4, word4_at, has_bit}
use tcpoudp.Run.{aborted, run}
use tcpoudp.Samples.{world, table, dirty, env, there, arriving, with_arrival}
use tcpoudp.Socket.{get_socket_table, find}
use tcpoudp.Socket.Table.{IsValid}
use tcpoudp.Api.Close.{
  Object, Layout, Surroundings, Closing, tou_close, fin_packet, fin_ack, closer_packet, peer_of,
}
use tcpoudp.Api.Close.Teardown.{Freed, ack_object, object_datagram, tou_close-Freed}
use tcpoudp.Api.Close.Fin.{lsb_header, IsLsbFirst, run-fin_packet}

-- The header, the pointer and the length.
abbrev lsb_image : Object → List ℕ
lsb_image o = lsb_header o.packet.t ++ (le4 o.at ++ le4 o.packet.buflen)

abbrev lsb_written : Object → List ℕ → Object
lsb_written o b = record {
  packet = record o.packet {
    t = record o.packet.t {
      seq = word4_at b 0;
      mag = word4_at b 4;
      ack_seq = word4_at b 8;
      ack = has_bit (get_or b 13 0) 8;
      fin = has_bit (get_or b 13 0) 128;
    };
  };
  at = (if leb 20 (length b) then word4_at b 16 else o.at);
}

abbrev lsb_layout : Layout
lsb_layout = record { size = 24; image = lsb_image; written = lsb_written }

lsb_layout-IsLsbFirst : IsLsbFirst lsb_layout
lsb_layout-IsLsbFirst = record { rest = λ o. le4 o.at ++ le4 o.packet.buflen; image = λ o. refl }

abbrev surroundings : Surroundings
surroundings = record { layout = lsb_layout; junk = dirty; own = 4096; stray = there }

-- The peer's FIN ACK, whose text stands at an address of the peer.
abbrev reply : ℕ → List ℕ
reply at = lsb_image (fin_ack (record (closer_packet surroundings) { at = at }))

world-found : get_socket_table world 4 ≡ some 0
unfolding get_socket_table find
world-found = refl

world-IsValid : IsValid world
unfolding find
world-IsValid = record { live = (omega arith, tt); distinct = ((λ fd e. refl), tt) }

tou_close-Freed_example :
    (c : Closing) × (tou_close surroundings 8192 4 (reply 4096 ∷ []) world ≡ some c)
    × Freed world 4 0
        (record table { sockstate = 10 })
        (object_datagram lsb_layout 4 (peer_of table) (fin_packet surroundings 8192)
          ∷ object_datagram lsb_layout 4 there (ack_object surroundings 4 0 table (reply 4096))
          ∷ [])
        c
unfolding fin_ack new_sized clear_flag
tou_close-Freed_example =
    tou_close-Freed surroundings 8192 4 0 table world world-found refl (reply 4096) []
      (λ e. omega (arith, e)) world-IsValid refl

run-fin_packet_example :
    run env (with_arrival (lsb_image (fin_packet surroundings 8192)) table) ≡ aborted
run-fin_packet_example =
    run-fin_packet surroundings 8192 lsb_layout-IsLsbFirst env
      (with_arrival (lsb_image (fin_packet surroundings 8192)) table)
      (arriving (lsb_image (fin_packet surroundings 8192))) [] refl refl refl
