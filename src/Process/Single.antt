-- ===== src/Process/Single.antt =====
-- `send` of processtou.cpp where one packet takes all that is in the buffer.
use tcpoudp.Prelude.{
  ℕ, suc, ◌+◌, ◌-◌, ◌≤◌, ◌<◌, ◌≡◌, refl, ap, ◌∙◌, true, false, some, [], ◌∷◌, take_all, min, arith,
  sub32, lt_int, word,
}
use tcpoudp.Buffer.{get_total_elements}
use tcpoudp.Buffer.Contents.{contents}
use tcpoudp.Buffer.Reading.{length-contents}
use tcpoudp.Congestion.{ss, smss, max_wnd}
use tcpoudp.Packet.{Header, Packet}
use tcpoudp.Process.{
  cal_num_caxmit, stops, min_send_size, gen_pkt, get_send_size, send_one, send_loop, send,
}
use tcpoudp.Process.Turns.{send_loop-suc, send_lem}
use tcpoudp.Process.Turn.{IsReady, room, get_send_size_lem, send_one_lem, send_one-Turn, out, after}
use tcpoudp.Process.Sending.{measured}
use tcpoudp.Socket.{SockTb}

send_loop-done :
    (junk : Header) (fuel : ℕ) (tb : SockTb) (k : ℕ)
    → tb.cb_send.tot_el ≡ 0
    → send_loop junk (suc fuel) tb k ≡ some ([], tb)
unfolding get_total_elements
send_loop-done junk fuel tb k e = send_loop-suc junk fuel tb k ∙ rw e refl

positive : (k : ℕ) → 0 < k → k ≤ smss → lt_int 0 k ≡ true
positive k h q = ground arith

roomy : (k : ℕ) → min_send_size ≤ k → k ≤ max_wnd → lt_int k min_send_size ≡ false
roomy k h q = ground arith

module _ (junk : Header) (tb : SockTb) (v : IsReady tb) (slow : tb.tc.cc_state ≡ ss)
    (stored : 0 < tb.cb_send.tot_el) (one : tb.cb_send.tot_el ≤ smss)
    (opened : min_send_size ≤ room tb) (fits : tb.cb_send.tot_el ≤ room tb) where
  some_room : 0 < room tb
  some_room = omega arith

  inside : room tb ≤ max_wnd
  inside = omega arith

  no_wrap : tb.tc.snd_nxt + room tb < word
  no_wrap = omega (arith, v.far, v.order, v.nxt_fits)

  abbrev rest : SockTb
  rest = after junk (measured tb) (room tb) v.buffer some_room inside no_wrap stored

  -- The packet.
  abbrev pub whole : Packet
  whole = gen_pkt junk (measured tb) (contents tb.cb_send)

  out_lem : out junk (measured tb) (room tb) v.buffer some_room inside no_wrap stored ≡ whole
  out_lem = ap (gen_pkt junk (measured tb)) (
      take_all (min (room tb) smss) (contents tb.cb_send)
        (omega (arith, length-contents tb.cb_send 0 v.buffer, fits, one)))

  send_one-whole : send_one junk (measured tb) (room tb) ≡ some (whole, rest)
  send_one-whole =
      send_one_lem junk (measured tb) (room tb) v.buffer some_room inside no_wrap stored
      ∙ ap (λ (p : Packet). some (p, rest)) out_lem

  drained : rest.cb_send.tot_el ≡ 0
  drained =
      let t = send_one-Turn junk (measured tb) (room tb) v.buffer some_room inside no_wrap stored in
      omega (arith, t.left, t.count, fits, one)

  has_some : lt_int 0 tb.cb_send.tot_el ≡ true
  has_some = positive tb.cb_send.tot_el stored (omega (arith, one))

  get_send_size-again : get_send_size (measured tb) ≡ (room tb, measured tb)
  get_send_size-again =
      get_send_size_lem (measured tb)
        (record { buffer = v.buffer; order = v.order; nxt_fits = v.nxt_fits; far = v.far })

  goes_on : stops (measured tb) (room tb) (cal_num_caxmit (room tb)) ≡ false
  goes_on = rw slow (roomy (room tb) opened inside)

  send_loop-whole :
      (fuel : ℕ)
      → send_loop junk (suc (suc fuel)) (measured tb) (cal_num_caxmit (room tb))
        ≡ some (whole ∷ [], rest)
  unfolding get_total_elements
  send_loop-whole fuel =
      send_loop-suc junk (suc fuel) (measured tb) (cal_num_caxmit (room tb))
      ∙ rw
          (
            has_some,
            get_send_size-again,
            goes_on,
            send_one-whole,
            send_loop-done junk fuel rest (sub32 (cal_num_caxmit (room tb)) 1) drained,
          )
          refl

  -- All goes out in one packet, and `snd_nxt` moves behind it.
  pub record IsSent (tb' : SockTb) : Type 0 where
    pub nxt : tb'.tc.snd_nxt ≡ tb.tc.snd_nxt + tb.cb_send.tot_el
    pub drained : tb'.cb_send.tot_el ≡ 0
    pub ready : IsReady tb'
    pub table : tb' ≡ record tb {
      cb_send = tb'.cb_send;
      tc = record tb.tc { snd_wnd = tb'.tc.snd_wnd; snd_nxt = tb'.tc.snd_nxt };
    }

  rest-IsSent : IsSent rest
  rest-IsSent =
      let t = send_one-Turn junk (measured tb) (room tb) v.buffer some_room inside no_wrap stored in
      record {
        nxt = omega (arith, fits, one);
        drained = drained;
        ready = record {
          buffer = t.buffer;
          order = omega (arith, v.order);
          nxt_fits = omega (arith, fits, one, no_wrap);
          far = v.far;
        };
        table = refl;
      }

  pub send-whole : (tb' : SockTb) × (send junk tb ≡ some (whole ∷ [], tb')) × IsSent tb'
  send-whole = (
    rest,
    send_lem junk tb
        ∙ rw (get_send_size_lem tb v) (
            ap (λ (k : ℕ). send_loop junk k (measured tb) (cal_num_caxmit (room tb)))
              (fuel_lem tb.cb_send.tot_el (cal_num_caxmit (room tb)) stored)
            ∙ send_loop-whole (tb.cb_send.tot_el + cal_num_caxmit (room tb) - 1)),
    rest-IsSent,
  )
    where
      fuel_lem : (k x : ℕ) → 0 < k → k + x + 1 ≡ suc (suc (k + x - 1))
      fuel_lem k x h = omega arith
