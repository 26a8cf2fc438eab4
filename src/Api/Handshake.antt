-- ===== src/Api/Handshake.antt =====
-- The handshake of tou.cpp between the two sides, over their datagrams.
use tcpoudp.Prelude.{
  ℕ, ◌+◌, ◌*◌, ◌%◌, ◌≡◌, refl, ap, ◌∙◌, true, false, none, some, List, [], ◌∷◌, length, arith, take,
  ◌==◌, if◌then◌else◌, add32, nonpositive,
}
use tcpoudp.Congestion.{ControlBlock}
use tcpoudp.Link.{Arrival, Link, Env, transmit}
use tcpoudp.Packet.{Packet, header_size, to_string, parse, put_header_seq, clean, new_sized}
use tcpoudp.Packet.RoundTrip.{IsWellFormed}
use tcpoudp.Process.{classify}
use tcpoudp.Socket.{SockTb, SockAddr, RunState, get_pkt, syn, end_run, put_dst, tous_established}
use tcpoudp.Run.{returned, run, run_loop, step, goto, recv_buf_size, on_syn}
use tcpoudp.Run.Round.{run_loop-goto, run_loop-leave, step-end, fresh, holding, text, step-get_pkt}
use tcpoudp.Api.Hearing.{last_text, hear, last_text-append, heard, reads-hear, take_datagram-hear}
use tcpoudp.Api.{
  connect_syn, connect_reply, tou_connect, accept_syn_ack, accept_ack, tou_accept, take_datagram,
  syn_packet, syn_ack_packet, final_ack, tous_syn_sent, accepting, accepted, replied, initial,
}

-- Both sides are connected, and each expects what the other sends next and has nothing outstanding.
pub record Agreed (c s : SockTb) : Type 0 where
  pub client : c.sockstate ≡ tous_established
  pub server : s.sockstate ≡ tous_established
  pub to_server : s.tc.rcv_nxt ≡ c.tc.snd_nxt
  pub to_client : c.tc.rcv_nxt ≡ s.tc.snd_nxt
  pub client_done : c.tc.snd_una ≡ c.tc.snd_nxt
  pub server_done : s.tc.snd_una ≡ s.tc.snd_nxt

chosen : (x y : ℕ) → (if x == x then x else y) ≡ x
chosen x y = ground arith

-- A call of `run` that finds a SYN.
module _ (env : Env) (l : Link) (from : Arrival) (q : Packet) (waiting : l.inbox ≡ from ∷ [])
    (reads : parse env.junk (text from) ≡ some q) (state : l.tb.runstate ≡ get_pkt)
    (is_syn : q.t.syn ≡ true) where
  classify-syn : classify l.tb q ≡ some syn
  unfolding classify
  classify-syn = rw is_syn refl

  abbrev opened : Link
  opened = on_syn q (holding l from [] q)

  step-syn : step env syn (holding l from [] q) ≡ some (goto end_run opened)
  unfolding step
  step-syn = refl

  tp-opened : opened.tp ≡ some q
  unfolding on_syn
  tp-opened = refl

  run-syn : run env l ≡ returned opened.rv (record opened { tp = none })
  unfolding run
  run-syn =
      ap (λ (w : List Arrival). run_loop env (4 * length w + 5) l.tb.runstate (fresh l)) waiting
      ∙ ap (λ (s : RunState). run_loop env 9 s (fresh l)) state
      ∙ run_loop-goto env 8 get_pkt syn (fresh l) (holding l from [] q)
          (step-get_pkt env l from [] q waiting reads syn classify-syn)
      ∙ run_loop-goto env 7 syn end_run (holding l from [] q) opened step-syn
      ∙ run_loop-leave env 6 end_run opened (record opened { tp = none }) opened.rv
          (step-end env q opened tp-opened)

-- The client after its SYN.
abbrev syn_out : Env → SockAddr → ℕ → Link → Link
syn_out env dst rcvbuf l = transmit (syn_packet env) (record l {
  tb = record (put_dst dst l.tb) {
    sockstate = tous_syn_sent;
    tc = record (initial rcvbuf l.tb.tc) { snd_nxt = add32 0 1; snd_una = 0; rcv_nxt = 0 };
  };
})

-- The client after a reply, whatever it was.
abbrev connected : Env → SockAddr → ℕ → Packet → List Arrival → Link → Link
connected env dst rcvbuf p rest l =
    let tc = replied p (syn_out env dst rcvbuf l).tb.tc in
    transmit (final_ack env tc) (record (syn_out env dst rcvbuf l) {
      inbox = rest;
      tb = record (syn_out env dst rcvbuf l).tb { sockstate = tous_established; tc = tc };
    })

connect_syn_lem :
    (env : Env) (dst : SockAddr) (rcvbuf : ℕ) (l : Link)
    → nonpositive rcvbuf ≡ false
    → connect_syn env dst rcvbuf l ≡ some (syn_out env dst rcvbuf l)
unfolding connect_syn
connect_syn_lem env dst rcvbuf l e = rw e refl

module _ (ec es : Env) (src dst : SockAddr) (rand rc rs : ℕ) (c s : Link) where
  -- The client after its SYN.
  abbrev syn_sent : Link → Link
  syn_sent l = syn_out ec dst rc l

  abbrev syn_heard : Packet
  syn_heard = heard es (syn_packet ec)

  abbrev syn_from : Arrival
  syn_from = record { from = src; content = last_text (syn_sent c).wire }

  abbrev listener : Link
  listener = hear src (syn_sent c) s

  -- The server after the SYN.
  abbrev server_1 : Link
  server_1 = record (on_syn syn_heard (holding listener syn_from [] syn_heard)) { tp = none }

  syn-IsWellFormed : IsWellFormed (syn_packet ec)
  unfolding put_header_seq clean new_sized
  syn-IsWellFormed = record {
    seq_fits = omega arith;
    mag_fits = omega arith;
    ack_fits = omega arith;
    window_fits = omega arith;
    whole = refl;
  }

  server_hears : s.tb.runstate ≡ get_pkt → run es listener ≡ returned server_1.rv server_1
  unfolding put_header_seq clean new_sized
  server_hears e =
      run-syn es listener syn_from syn_heard refl
        (reads-hear es (syn_packet ec) syn-IsWellFormed (omega arith) c.wire _ (syn_sent c) refl
          refl)
        e refl

  abbrev syn_ack : Packet
  syn_ack = syn_ack_packet es (accepting rand rs server_1.tb).tc

  abbrev server_2 : Link
  server_2 = accept_syn_ack es rand rs server_1

  syn_ack-IsWellFormed : IsWellFormed syn_ack
  unfolding put_header_seq clean new_sized on_syn
  syn_ack-IsWellFormed = record {
    seq_fits = omega arith;
    mag_fits = omega arith;
    ack_fits = omega arith;
    window_fits = omega arith;
    whole = refl;
  }

  abbrev client_tc : ControlBlock
  client_tc = replied (heard ec syn_ack) (syn_sent c).tb.tc

  -- The client at the end.
  abbrev client : Link
  client = transmit (final_ack ec client_tc) (record (syn_sent c) {
    inbox = [];
    tb = record (syn_sent c).tb { sockstate = tous_established; tc = client_tc };
  })

  client_hears :
      nonpositive rc ≡ false → tou_connect ec dst rc (hear dst server_2 c) ≡ some (true, client)
  unfolding tou_connect connect_reply accept_syn_ack put_header_seq clean new_sized
  client_hears e =
      rw
        (
          connect_syn_lem ec dst rc (hear dst server_2 c) e,
          take_datagram-hear ec syn_ack syn_ack-IsWellFormed (omega arith) server_1.wire _ server_2
              refl refl dst (syn_sent c),
        )
        refl

  abbrev last_ack : Packet
  last_ack = final_ack ec client_tc

  last_ack-IsWellFormed : IsWellFormed last_ack
  unfolding put_header_seq clean new_sized on_syn
  last_ack-IsWellFormed = record {
    seq_fits = omega arith;
    mag_fits = omega arith;
    ack_fits = omega arith;
    window_fits = omega arith;
    whole = refl;
  }

  -- The server at the end.
  abbrev server : Link
  server = record server_2 { inbox = []; tb = accepted (heard es last_ack) server_2.tb }

  server_accepts :
      nonpositive rs ≡ false
      → tou_accept es rand rs (hear src client server_1) ≡ some (true, server)
  unfolding tou_accept accept_ack accept_syn_ack put_header_seq clean new_sized on_syn
  server_accepts e =
      rw
        (
          e,
          take_datagram-hear es last_ack last_ack-IsWellFormed (omega arith) (syn_sent c).wire _
              client refl refl src server_2,
        )
        refl

  agree : Agreed client.tb server.tb
  unfolding accept_syn_ack put_header_seq clean new_sized on_syn
  agree = record {
    client = refl;
    server = refl;
    to_server = refl;
    to_client = refl;
    client_done = refl;
    server_done = chosen (add32 (rand % 65535) 1) (rand % 65535);
  }

  syn_length : server_1.rv ≡ header_size
  unfolding on_syn to_string put_header_seq clean new_sized
  syn_length = ap (λ (t : List ℕ). length (take recv_buf_size t)) (last_text-append c.wire _)

  -- Where both sides have a receive buffer of a positive size and the server's run starts with a new
  -- packet, the handshake succeeds over its printed datagrams: run takes the SYN, touAccept's SYN
  -- ACK lets touConnect return true, whose ACK lets touAccept return true; both sides are then
  -- established, each expects the sequence number that the other sends next, and all that was sent
  -- is acknowledged.
  pub handshake_agrees :
      nonpositive rc ≡ false
      → nonpositive rs ≡ false
      → s.tb.runstate ≡ get_pkt
      → (c₁ s₁ c₂ s₂ : Link) × (connect_syn ec dst rc c ≡ some c₁)
        × (run es (hear src c₁ s) ≡ returned header_size s₁)
        × (tou_connect ec dst rc (hear dst (accept_syn_ack es rand rs s₁) c) ≡ some (true, c₂))
        × (tou_accept es rand rs (hear src c₂ s₁) ≡ some (true, s₂))
        × Agreed c₂.tb s₂.tb
  handshake_agrees hc hs ready = (
    syn_sent c,
    server_1,
    client,
    server,
    connect_syn_lem ec dst rc c hc,
    server_hears ready ∙ ap (λ (n : ℕ). returned n server_1) syn_length,
    client_hears hc,
    server_accepts hs,
    agree,
  )

-- With a receive buffer of a positive size, touConnect succeeds on any datagram that parses,
-- whatever its flags and its sender: the connection is established, rcv_nxt is one above the
-- packet's sequence number, and snd_una is its acknowledgement.
pub tou_connect-unchecked :
    (env : Env) (dst : SockAddr) (rcvbuf : ℕ) (a : Arrival) (rest : List Arrival) (p : Packet)
    (l : Link)
    → nonpositive rcvbuf ≡ false
    → l.inbox ≡ a ∷ rest
    → parse env.junk (text a) ≡ some p
    → (l' : Link) × (tou_connect env dst rcvbuf l ≡ some (true, l'))
      × (l'.tb.sockstate ≡ tous_established)
      × (l'.tb.tc.rcv_nxt ≡ add32 p.t.seq 1)
      × (l'.tb.tc.snd_una ≡ p.t.ack_seq)
      × (l'.tb.tc.snd_nxt ≡ 1)
unfolding tou_connect connect_reply take_datagram
tou_connect-unchecked env dst rcvbuf a rest p l h w r = (
  connected env dst rcvbuf p rest l,
  rw (connect_syn_lem env dst rcvbuf l h, w, r) refl,
  refl,
  refl,
  refl,
  refl,
)
