-- ===== src/Process/Turn.antt =====
-- One turn of the loop of `send` in processtou.cpp: the packet it makes, and what it leaves.
use tcpoudp.Prelude.{
  ℕ, ◌+◌, ◌-◌, ◌≤◌, ◌<◌, ◌≡◌, refl, sym, ap, ◌∙◌, some, List, ◌++◌, length, length-append, arith,
  word, dec_lt, lt_int, min, take, drop, take_all, drop_all, length-take, take-append-drop,
  if◌then◌else◌,
}
use tcpoudp.Buffer.{remove}
use tcpoudp.Buffer.Bounds
use tcpoudp.Buffer.Contents.{contents}
use tcpoudp.Buffer.Reading.{Removed, remove-Removed, get_at_lem, length-contents}
use tcpoudp.Congestion.{smss, max_wnd, getwnd}
use tcpoudp.Packet.{Header, Packet}
use tcpoudp.Socket.{SockTb}
use tcpoudp.Process.{get_send_size, popsndq, gen_pkt, send_one}

-- The window of a table.
abbrev pub window : SockTb → ℕ
window tb = min (min tb.tc.snd_cwnd tb.tc.snd_awnd) max_wnd

-- A valid send buffer, `snd_una` not ahead of `snd_nxt`, and sequence numbers far from the wrap.
pub record IsReady (tb : SockTb) : Type 0 where
  pub buffer : Bounds.IsValid tb.cb_send
  pub order : tb.tc.snd_una ≤ tb.tc.snd_nxt
  pub nxt_fits : tb.tc.snd_nxt < word
  pub far : tb.tc.snd_una + max_wnd < word

abbrev pub room : SockTb → ℕ
room tb = tb.tc.snd_una + window tb - tb.tc.snd_nxt

module _ (tb : SockTb) (v : IsReady tb) where
  pub get_send_size_lem :
      get_send_size tb ≡ (room tb, record tb { tc = record tb.tc { snd_wnd = window tb } })
  unfolding get_send_size getwnd
  get_send_size_lem = ground arith

pub drop-min : (n : ℕ) (xs : List ℕ) → drop (min n (length xs)) xs ≡ drop n xs
drop-min n xs = elim (dec_lt (length xs) n) [
  | no h ↦ let e : min n (length xs) ≡ n = omega arith in ap (λ (t : ℕ). drop t xs) e
  | yes h ↦ drop_all (min n (length xs)) xs (omega arith) ∙ sym (drop_all n xs (omega arith))
]

module _ (tb : SockTb) (n : ℕ) (v : Bounds.IsValid tb.cb_send) (pos : 0 < n) (most : n ≤ smss)
    (stored : 0 < tb.cb_send.tot_el) where
  removed :
      Removed tb.cb_send (min n tb.cb_send.tot_el) v (remove tb.cb_send (min n tb.cb_send.tot_el))
  removed = remove-Removed tb.cb_send (min n tb.cb_send.tot_el) v (ground arith)

  -- The bytes that `popsndq` takes are the oldest, and just they are removed.
  pub popsndq_lem : popsndq tb n ≡ (
    min n tb.cb_send.tot_el,
    take n (contents tb.cb_send),
    record tb { cb_send = (remove tb.cb_send (min n tb.cb_send.tot_el)).1 },
  )
  unfolding popsndq
  popsndq_lem = ground (arith, get_at_lem tb.cb_send n v, removed.count)

  length-taken : length (take n (contents tb.cb_send)) ≡ min n tb.cb_send.tot_el
  length-taken = length-take n (contents tb.cb_send) ∙ ap (min n) (length-contents tb.cb_send n v)

  pub popped_bytes :
      take n (contents tb.cb_send) ++ contents (remove tb.cb_send (min n tb.cb_send.tot_el)).1
      ≡ contents tb.cb_send
  popped_bytes =
      ap (◌++◌ (take n (contents tb.cb_send))) (
        removed.rest
        ∙ ap (λ (t : ℕ). drop (min n t) (contents tb.cb_send))
            (sym (length-contents tb.cb_send n v))
        ∙ drop-min n (contents tb.cb_send))
      ∙ take-append-drop n (contents tb.cb_send)

-- What one turn does: the oldest bytes go out in a packet at `snd_nxt`, which moves behind them.
pub record Turn (tb : SockTb) (size : ℕ) (p : Packet) (tb' : SockTb) : Type 0 where
  pub count : length p.buf ≡ min (min size smss) tb.cb_send.tot_el
  pub bytes : p.buf ++ contents tb'.cb_send ≡ contents tb.cb_send
  pub seq : p.t.seq ≡ tb.tc.snd_nxt
  pub tc_after : tb'.tc ≡ record tb.tc { snd_nxt = tb.tc.snd_nxt + length p.buf }
  pub buffer : Bounds.IsValid tb'.cb_send
  pub left : tb'.cb_send.tot_el + length p.buf ≡ tb.cb_send.tot_el

module _ (junk : Header) (tb : SockTb) (size : ℕ) (v : Bounds.IsValid tb.cb_send)
    (some_room : 0 < size) (fits : size ≤ max_wnd) (no_wrap : tb.tc.snd_nxt + size < word)
    (stored : 0 < tb.cb_send.tot_el) where
  abbrev n : ℕ
  n = min size smss

  abbrev pub out : Packet
  out = gen_pkt junk tb (take n (contents tb.cb_send))

  abbrev pub after : SockTb
  after = record tb {
    cb_send = (remove tb.cb_send (min n tb.cb_send.tot_el)).1;
    tc = record tb.tc { snd_nxt = tb.tc.snd_nxt + min n tb.cb_send.tot_el };
  }

  pick : (if lt_int size smss then size else smss) ≡ n
  pick = ground arith

  trim :
      take (min n tb.cb_send.tot_el) (take n (contents tb.cb_send)) ≡ take n (contents tb.cb_send)
  trim =
      take_all (min n tb.cb_send.tot_el) (take n (contents tb.cb_send))
        (omega (arith, length-taken tb n v (omega arith) (omega arith) stored))

  pub send_one_lem : send_one junk tb size ≡ some (out, after)
  unfolding send_one gen_pkt
  send_one_lem = ground (arith, pick, trim, popsndq_lem tb n v (omega arith) (omega arith) stored)

  pub send_one-Turn : Turn tb size out after
  unfolding gen_pkt
  send_one-Turn =
      let l = length-taken tb n v (omega arith) (omega arith) stored in
      let r = removed tb n v (omega arith) (omega arith) stored in
      record {
        count = l;
        bytes = popped_bytes tb n v (omega arith) (omega arith) stored;
        seq = refl;
        tc_after = ap (λ (t : ℕ). record tb.tc { snd_nxt = tb.tc.snd_nxt + t }) (sym l);
        buffer = r.valid;
        left = omega (
          arith,
          ap length (popped_bytes tb n v (omega arith) (omega arith) stored),
          length-append (take n (contents tb.cb_send))
              (contents (remove tb.cb_send (min n tb.cb_send.tot_el)).1),
          length-contents (remove tb.cb_send (min n tb.cb_send.tot_el)).1 0 r.valid,
          length-contents tb.cb_send 0 v,
        );
      }
