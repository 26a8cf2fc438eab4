-- ===== src/Samples.antt =====
-- Concrete states that the tests of the modules share.
use tcpoudp.Prelude.{ℕ, true, false, Option, none, some, List, [], ◌∷◌, replicate}
use tcpoudp.Buffer.{CircularBuffer}
use tcpoudp.Congestion.{ss, ControlBlock}
use tcpoudp.Packet.{Header, Packet}
use tcpoudp.Node.{Node}
use tcpoudp.Socket.{SockTb, SockAddr, World, get_pkt, tous_established}
use tcpoudp.Link.{Arrival, Link, Env}

abbrev pub zeros : ℕ → Option (List ℕ)
zeros n = some (replicate n 0)

-- Five places, of which one is taken.
abbrev pub two_free : CircularBuffer
two_free = record { size = 5; hi = 3; ti = 4; tot_el = 1; buf = some (9 ∷ 7 ∷ 8 ∷ 1 ∷ 0 ∷ []) }

abbrev pub blank : ControlBlock
blank = record {
  cc_state = ss;
  t_delack_state = 1;
  t_rto = 3000;
  t_rto_beta = 2;
  t_rtt = 3000;
  t_rtt_alpha = 1;
  iss = 0;
  irs = 0;
  snd_una = 0;
  snd_nxt = 0;
  rcv_nxt = 0;
  dupackcount = 0;
  snd_wnd = 1456;
  rcv_wnd = 1456;
  snd_cwnd = 14560;
  snd_awnd = 60000;
  snd_ssthresh = 8000;
}

-- Memory that held something else.
abbrev pub dirty : Header
dirty = record {
  seq = 7;
  mag = 7;
  ack_seq = 7;
  doff = 5;
  dres = 3;
  res = true;
  cwr = false;
  ece = true;
  ack = false;
  psh = true;
  rst = false;
  syn = true;
  fin = false;
  window = 513;
}

-- An established connection with one byte received.
abbrev pub table : SockTb
table = record {
  sockd = 4;
  sockstate = tous_established;
  runstate = get_pkt;
  sport = 7000;
  dport = 7001;
  sip = [];
  dip = [];
  tc = blank;
  cb_send = two_free;
  cb_recv = two_free;
  minhp_recv = [];
}

abbrev pub world : World
world = record { cells = table ∷ []; stbq = 0 ∷ []; timerheap = []; ackdeque = []; wire = [] }

-- A packet with one byte at a sequence number.
abbrev pub one_byte : ℕ → Packet
one_byte k = record {
  t = record dirty { seq = k; ack_seq = 0; ack = true; syn = false };
  buf = 65 ∷ [];
  buflen = 1;
}

abbrev pub node : Node
node = record {
  c_id = 4;
  t_id = 1;
  p_id = 9;
  st = 0;
  payload = some (65 ∷ []);
  ms = 3000;
  xmitms = 100;
  push_ackms = 0;
  nagle_ackms = 0;
}

-- Two places of which none is taken, and a ring that is full.
abbrev pub empty_ring : CircularBuffer
empty_ring = record { size = 2; hi = 0; ti = 0; tot_el = 0; buf = some (0 ∷ 0 ∷ []) }

abbrev pub full_ring : CircularBuffer
full_ring = record { size = 2; hi = 0; ti = 1; tot_el = 1; buf = some (66 ∷ 0 ∷ []) }

-- Three thousand places of which none is taken.
abbrev pub wide_ring : CircularBuffer
wide_ring = record { size = 3000; hi = 0; ti = 0; tot_el = 0; buf = some (replicate 3000 0) }

abbrev pub here : SockAddr
here = record { addr = 49 ∷ []; port = 7000 }

abbrev pub there : SockAddr
there = record { addr = 50 ∷ []; port = 7001 }

abbrev pub env : Env
env = record { malloc = zeros; junk = dirty; old = node; now = 1000 }

-- The connection with nothing on the way.
abbrev pub idle : Link
idle = record {
  st = 0;
  tb = table;
  timerheap = [];
  ackdeque = [];
  inbox = [];
  wire = [];
  peer = there;
  tp = none;
  rv = 0;
}

-- A datagram arrives.
abbrev pub arriving : List ℕ → Arrival
arriving content = record { from = there; content = content }

abbrev pub with_arrival : List ℕ → SockTb → Link
with_arrival content tb = record idle { tb = tb; inbox = arriving content ∷ [] }
