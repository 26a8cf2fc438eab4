-- ===== src/Api/Close/Teardown.antt =====
-- What `touClose` and `closer::dothis` of tou.cpp do to the tables and the descriptors.
use tcpoudp.Prelude.{
  ℕ, ◌≡◌, ◌≢◌, refl, ap, ◌∙◌, Bool, true, false, none, some, List, [], ◌∷◌, ◌++◌, append_assoc,
  arith, take, set, get_elem?-set_self, ◌==◌, ◌&&◌, if◌then◌else◌,
}
use tcpoudp.Packet.{clean}
use tcpoudp.Socket.{
  SockTb, SockAddr, Datagram, World, get_socket_table, set_socket_state, del_socket_table, at_cell,
  tous_close_wait,
}
use tcpoudp.Socket.Table.{IsValid, del_lem}
use tcpoudp.Socket.Change.{changed_lem, lookup-set, set-IsValid, get_elem?-bound}
use tcpoudp.Api.Close.{
  Object, Layout, Surroundings, Closing, tous_fin_wait_1, tous_time_wait, clean_object, send_object,
  peer_of, closer_packet, server_close, last_ack, client_close, dothis, fin_packet, tou_close,
}

-- What a change of the state of the table at `p` leaves.
record Left (w : World) (p : ℕ) (tb : SockTb) (w' : World) : Type 0 where
  valid : IsValid w'
  lookup : (fd : ℕ) → get_socket_table w' fd ≡ get_socket_table w fd
  cell : at_cell w' p ≡ some tb
  wire : w'.wire ≡ w.wire

-- A datagram with the memory of an object.
abbrev pub object_datagram : Layout → ℕ → SockAddr → Object → Datagram
object_datagram y sd to o = record { fd = sd; ip = to.addr; port = to.port; content = y.image o }

set_socket_state-Left :
    (w : World) (sd p st : ℕ) (tb : SockTb)
    → get_socket_table w sd ≡ some p
    → at_cell w p ≡ some tb
    → IsValid w
    → (w' : World) × (set_socket_state w st sd ≡ some w')
      × Left w p (record tb { sockstate = st }) w'
unfolding set_socket_state
set_socket_state-Left w sd p st tb found there v =
    let new : SockTb = record tb { sockstate = st } in
    (
      record w { cells = set w.cells p new },
      changed_lem w sd p tb found there (λ t. record t { sockstate = st }),
      record {
        valid = set-IsValid w sd p tb found there new refl v;
        lookup = lookup-set w sd p tb found there new refl;
        cell = get_elem?-set_self w.cells p new (get_elem?-bound w.cells p tb there);
        wire = refl;
      },
    )

is_same : (a b : ℕ) → a ≡ b → (a == b) ≡ true
is_same a b e = ground (arith, e)

differs : (a b : ℕ) → a ≢ b → (a == b) ≡ false
differs a b e = ground (arith, e)

-- What the thread has of the datagram that it took.
abbrev pub taken : Surroundings → List ℕ → Object
taken x got = x.layout.written (closer_packet x) (take x.layout.size got)

-- The descriptor is free again: it is not found, and closed once.
pub record Freed (w : World) (sd p : ℕ) (tb : SockTb) (sent : List Datagram) (c : Closing)
    : Type 0 where
  pub gone : get_socket_table c.world sd ≡ none
  pub others : (fd : ℕ) → fd ≢ sd → get_socket_table c.world fd ≡ get_socket_table w fd
  pub valid : IsValid c.world
  pub table : at_cell c.world p ≡ some tb
  pub wire : c.world.wire ≡ w.wire ++ sent
  pub closed : c.closed ≡ sd ∷ []

module _ (x : Surroundings) (sd p : ℕ) (tb : SockTb) (got : List ℕ) where
  -- The state that the thread leaves: TIME_WAIT after a FIN ACK.
  abbrev pub last_state : ℕ
  last_state =
      if (taken x got).packet.t.fin && (taken x got).packet.t.ack
      then tous_time_wait
      else tous_fin_wait_1

  abbrev pub ack_object : Object
  ack_object = last_ack (record (taken x got) { packet = clean (taken x got).packet })

  module _ (w : World) (found : get_socket_table w sd ≡ some p) (there : at_cell w p ≡ some tb)
      (v : IsValid w) where
    -- The two changes of the state.
    states :
        (b : Bool)
        → (w₁ : World) × (w₂ : World) × (set_socket_state w tous_fin_wait_1 sd ≡ some w₁)
          × ((if b then set_socket_state w₁ tous_time_wait sd else some w₁) ≡ some w₂)
          × Left w p (record tb { sockstate = (if b then tous_time_wait else tous_fin_wait_1) }) w₂
    states false =
        let (w₁, e, k) = set_socket_state-Left w sd p tous_fin_wait_1 tb found there v in
        (w₁, w₁, e, refl, k)
    states true =
        let tb₁ : SockTb = record tb { sockstate = tous_fin_wait_1 } in
        let (w₁, e, k) = set_socket_state-Left w sd p tous_fin_wait_1 tb found there v in
        let (w₂, g, j) =
          set_socket_state-Left w₁ sd p tous_time_wait tb₁ (k.lookup sd ∙ found) k.cell k.valid in
        (
          w₁,
          w₂,
          e,
          g,
          record {
            valid = j.valid;
            lookup = λ fd. j.lookup fd ∙ k.lookup fd;
            cell = j.cell;
            wire = j.wire ∙ k.wire;
          },
        )

    client_close-Freed :
        (taken x got).at ≡ x.own
        → (c : Closing) × (client_close x sd got w ≡ some c)
          × Freed w sd p
              (record tb { sockstate = last_state })
              (object_datagram x.layout sd x.stray ack_object ∷ [])
              c
    unfolding client_close clean_object get_socket_table del_socket_table
    client_close-Freed kept =
        let b = (taken x got).packet.t.fin && (taken x got).packet.t.ack in
        let (w₁, w₂, e, g, k) = states b in
        let w₃ = send_object x.layout sd x.stray ack_object w₂ in
        let (gone, others, valid) =
          del_lem w₃ (record { live = k.valid.live; distinct = k.valid.distinct }) sd in
        (
          record { world = del_socket_table w₃ sd; closed = sd ∷ [] },
          rw (e, g, is_same (taken x got).at x.own kept) refl,
          record {
            gone = gone;
            others = λ fd ne. others fd ne ∙ k.lookup fd;
            valid = valid;
            table = k.cell;
            wire =
                ap
                  (λ (ds : List Datagram).
                    ds ++ (object_datagram x.layout sd x.stray ack_object ∷ []))
                  k.wire;
            closed = refl;
          },
        )

module _ (x : Surroundings) (at sd p : ℕ) (tb : SockTb) (w : World)
    (found : get_socket_table w sd ≡ some p) (there : at_cell w p ≡ some tb) (got : List ℕ)
    (rest : List (List ℕ)) where
  abbrev fin_sent : World
  fin_sent = send_object x.layout sd (peer_of tb) (fin_packet x at) w

  dothis_lem :
      (w' : World)
      → get_socket_table w' sd ≡ some p
      → at_cell w' p ≡ some tb
      → dothis x sd (got ∷ rest) w' ≡ (
          if tb.sockstate == tous_close_wait
          then some (server_close x sd tb got w')
          else client_close x sd got w')
  unfolding dothis
  dothis_lem w' f t = rw (f, t) refl

  tou_close_lem : tou_close x at sd (got ∷ rest) w ≡ (
      if tb.sockstate == tous_close_wait
      then dothis x sd (got ∷ rest) w
      else dothis x sd (got ∷ rest) fin_sent)
  unfolding tou_close
  tou_close_lem = rw (found, there) refl

  module _ (open_state : tb.sockstate ≢ tous_close_wait) where
    as_client : tou_close x at sd (got ∷ rest) w ≡ client_close x sd got fin_sent
    unfolding get_socket_table
    as_client =
        let d = differs tb.sockstate tous_close_wait open_state in
        tou_close_lem ∙ rw d (dothis_lem fin_sent found there ∙ rw d refl)

    -- On a valid vector of tables, for a descriptor found at a table that is not in CLOSE_WAIT, and
    -- a datagram that leaves the pointer of the closing thread's packet as it was, touClose sends
    -- its FIN to the peer and the last ACK to the address in the second sockaddrs, which is not set,
    -- closes the descriptor once and deletes its table, which the thread left in TIME_WAIT after a
    -- FIN ACK and else in FIN_WAIT_1; every other descriptor is found where it was, and the vector
    -- stays valid.
    pub tou_close-Freed :
        IsValid w
        → (taken x got).at ≡ x.own
        → (c : Closing) × (tou_close x at sd (got ∷ rest) w ≡ some c)
          × Freed w sd p
              (record tb { sockstate = last_state x sd p tb got })
              (object_datagram x.layout sd (peer_of tb) (fin_packet x at)
                ∷ object_datagram x.layout sd x.stray (ack_object x sd p tb got)
                ∷ [])
              c
    unfolding get_socket_table
    tou_close-Freed v kept =
        let (c, e, f) =
          client_close-Freed x sd p tb got fin_sent found there
            (record { live = v.live; distinct = v.distinct }) kept in
        (
          c,
          as_client ∙ e,
          record {
            gone = f.gone;
            others = f.others;
            valid = f.valid;
            table = f.table;
            wire =
                f.wire
                ∙ append_assoc w.wire
                    (object_datagram x.layout sd (peer_of tb) (fin_packet x at) ∷ [])
                    (object_datagram x.layout sd x.stray (ack_object x sd p tb got) ∷ []);
            closed = f.closed;
          },
        )
