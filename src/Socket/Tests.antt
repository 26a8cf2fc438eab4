-- ===== src/Socket/Tests.antt =====
-- The vector of socket tables on concrete tables.
use tcpoudp.Prelude.{ℕ, ◌≡◌, ◌≢◌, refl, some, none, [], ◌∷◌, arith}
use tcpoudp.Packet
use tcpoudp.Samples.{zeros, table, world, one_byte}
use tcpoudp.Socket.{
  SockTb, find, get_socket_table, add_socket_table, del_socket_table, push_hp_recv_buf,
}
use tcpoudp.Socket.Table.{IsValid, add_lem, del_lem}

world-IsValid : IsValid world
unfolding find
world-IsValid = record { live = (omega arith, tt); distinct = ((λ fd h. refl), tt) }

found_two : get_socket_table (add_socket_table zeros table world 9) 9 ≡ some 1
unfolding get_socket_table add_socket_table find
found_two = refl

add_lem_example :
    (get_socket_table (add_socket_table zeros table world 9) 9 ≡ some 1)
    × ((other : ℕ)
        → other ≢ 9
        → get_socket_table (add_socket_table zeros table world 9) other
          ≡ get_socket_table world other)
    × IsValid (add_socket_table zeros table world 9)
unfolding get_socket_table find
add_lem_example = add_lem zeros table world world-IsValid 9 refl

del_lem_example :
    (get_socket_table (del_socket_table world 4) 4 ≡ none)
    × ((other : ℕ)
        → other ≢ 4
        → get_socket_table (del_socket_table world 4) other ≡ get_socket_table world other)
    × IsValid (del_socket_table world 4)
del_lem_example = del_lem world world-IsValid 4

abbrev waiting : SockTb
waiting = record table { minhp_recv = one_byte 2 ∷ one_byte 7 ∷ [] }

pushed :
    (push_hp_recv_buf waiting (one_byte 5)).minhp_recv ≡ one_byte 2 ∷ one_byte 5 ∷ one_byte 7 ∷ []
unfolding push_hp_recv_buf Packet.copy
pushed = refl
