-- ===== src/Api/Stream.antt =====
-- What the application writes and reads through tou.cpp.
use tcpoudp.Prelude.{
  ℕ, suc, zero, ◌+◌, ◌-◌, ◌≤◌, ◌<◌, ◌≡◌, ◌≢◌, refl, sym, ap, ◌∙◌, false, some, List, [], ◌∷◌, ◌++◌,
  length, arith, inl, inr, ◌⊎◌, half_word, take, drop, take_all, length-take, min, nonpositive,
  dec_lt, ◌==◌, if◌then◌else◌, minus_one,
}
use tcpoudp.Buffer.{CircularBuffer, insert, remove, get_at, nothing_fetched}
use tcpoudp.Buffer
use tcpoudp.Buffer.Insertion.{insert_cases}
use tcpoudp.Buffer.Contents.{contents}
use tcpoudp.Buffer.Reading.{length-contents, drop-none, remove-empty, get_at_lem, remove-Removed}
use tcpoudp.Buffer.Refine.{get_at-empty}
use tcpoudp.Link.{Arrival, Link, Env, arm, send_link}
use tcpoudp.Packet.{Packet}
use tcpoudp.Process.Recovery.{payloads}
use tcpoudp.Process.Turn.{IsReady, drop-min}
use tcpoudp.Process.Sending.{Sent, Chain, send-Sent}
use tcpoudp.Run.{returned, run}
use tcpoudp.Run.Reception.{Expected, run-delivers}
use tcpoudp.Socket.{SockTb, tous_close_wait, tous_established}
use tcpoudp.Api.{pushsndq, tou_send, tou_recv}

-- What a read of at most `n` bytes gives: the oldest bytes, which leave the buffer, and as result
-- their number, or 0 where the peer has closed.
pub record Read (n : ℕ) (l : Link) (r : ℕ × List ℕ × Link) : Type 0 where
  pub bytes : r.1 ≡ take n (contents l.tb.cb_recv)
  pub rest : contents r.2.tb.cb_recv ≡ drop n (contents l.tb.cb_recv)
  pub opened : l.tb.sockstate ≢ tous_close_wait → r.0 ≡ length r.1
  pub closed : l.tb.sockstate ≡ tous_close_wait → r.0 ≡ 0
  pub buffer : Buffer.Bounds.IsValid r.2.tb.cb_recv

take-none : (xs : List ℕ) (n : ℕ) → length xs ≡ 0 → take n xs ≡ []
take-none [] zero h = refl
take-none [] (suc n) h = refl
take-none (x ∷ xs) n h = absurd (omega arith)

outcome_open :
    (s removed ret : ℕ)
    → s ≢ tous_close_wait
    → removed ≡ ret
    → (if s == tous_close_wait then 0 else if removed == ret then ret else minus_one) ≡ ret
outcome_open s removed ret ne e = ground (arith, ne, e)

outcome_closed : (s x : ℕ) → s ≡ tous_close_wait → (if s == tous_close_wait then 0 else x) ≡ 0
outcome_closed s x e = ground (arith, e)

module _ (l : Link) (v : Buffer.Bounds.IsValid l.tb.cb_recv) (n : ℕ)
    (some_bytes : nonpositive n ≡ false) where
  -- What the two buffer calls give, whether there are bytes or not.
  record Taken : Type 0 where
    ret : (get_at l.tb.cb_recv n).ret ≡ min n l.tb.cb_recv.tot_el
    bytes : (get_at l.tb.cb_recv n).bytes ≡ take n (contents l.tb.cb_recv)
    count : (remove l.tb.cb_recv (min n l.tb.cb_recv.tot_el)).0 ≡ min n l.tb.cb_recv.tot_el
    rest :
        contents (remove l.tb.cb_recv (min n l.tb.cb_recv.tot_el)).1
        ≡ drop n (contents l.tb.cb_recv)
    buffer : Buffer.Bounds.IsValid (remove l.tb.cb_recv (min n l.tb.cb_recv.tot_el)).1

  nothing : l.tb.cb_recv.tot_el ≡ 0 → Taken
  nothing z =
      let c = l.tb.cb_recv in
      let none_stored : (length (contents c) ≡ 0) = omega (arith, length-contents c n v, z) in
      let e : (min n c.tot_el ≡ 0) = omega (arith, z) in
      record {
        ret = rw (get_at-empty c n z) (sym e);
        bytes = rw (get_at-empty c n z) (sym (take-none (contents c) n none_stored));
        count = rw (remove-empty c (min n c.tot_el) v z) (sym e);
        rest =
            rw (remove-empty c (min n c.tot_el) v z) (sym (drop-none (contents c) n none_stored));
        buffer = rw (remove-empty c (min n c.tot_el) v z) v;
      }

  something : 0 < l.tb.cb_recv.tot_el → Taken
  something h =
      let r = remove-Removed l.tb.cb_recv (min n l.tb.cb_recv.tot_el) v (ground arith) in
      record {
        ret = rw (get_at_lem l.tb.cb_recv n v some_bytes h) refl;
        bytes = rw (get_at_lem l.tb.cb_recv n v some_bytes h) refl;
        count = omega (arith, r.count);
        rest =
            r.rest
            ∙ ap (λ (m : ℕ). drop (min n m) (contents l.tb.cb_recv))
                (sym (length-contents l.tb.cb_recv n v))
            ∙ drop-min n (contents l.tb.cb_recv);
        buffer = r.valid;
      }

  taken : Taken
  taken = elim (dec_lt 0 l.tb.cb_recv.tot_el) [ yes h ↦ something h | no h ↦ nothing (omega arith) ]

  size : (get_at l.tb.cb_recv n).ret ≡ length (get_at l.tb.cb_recv n).bytes
  size =
      taken.ret
      ∙ omega (
        arith,
        ap length taken.bytes,
        length-take n (contents l.tb.cb_recv),
        length-contents l.tb.cb_recv n v,
      )

  -- On a valid receive buffer touRecv with a positive length gives the oldest bytes and removes
  -- them, and its result is their number, or 0 where the peer has closed.
  pub tou_recv-Read : Read n l (tou_recv n l)
  unfolding tou_recv
  tou_recv-Read =
      let t = taken in
      record {
        bytes = t.bytes;
        rest = rw (t.ret) t.rest;
        opened = λ e.
            outcome_open l.tb.sockstate (remove l.tb.cb_recv (get_at l.tb.cb_recv n).ret).0
              (get_at l.tb.cb_recv n).ret e (rw t.ret t.count)
            ∙ size;
        closed = λ e. outcome_closed l.tb.sockstate _ e;
        buffer = rw (t.ret) t.buffer;
      }

-- What a write does: the bytes that are accepted, all or none, the packets that go out, and the table.
pub record Wrote (env : Env) (s : List ℕ) (l : Link) (n : ℕ) (l' : Link) : Type 0 where
  pub packets : List Packet
  pub table : SockTb
  pub sends : l' ≡ arm env packets (record l { tb = table })
  pub accepted :
      ((n ≡ length s) × (payloads packets ++ contents table.cb_send ≡ contents l.tb.cb_send ++ s))
      ⊎ ((n ≡ 0)
          × (l.tb.cb_send.size - l.tb.cb_send.tot_el ≤ length s)
          × (payloads packets ++ contents table.cb_send ≡ contents l.tb.cb_send))
  pub chain : Chain l.tb.tc.snd_nxt packets
  pub next : table.tc.snd_nxt ≡ l.tb.tc.snd_nxt + length (payloads packets)

module _ (env : Env) (s : List ℕ) (l : Link) (v : IsReady l.tb) where
  -- The rest of the call, from what the insertion left.
  sends :
      (n : ℕ) (cb : CircularBuffer)
      → insert env.malloc l.tb.cb_send s (length s) ≡ some (n, cb)
      → Buffer.Bounds.IsValid cb
      → (ps : List Packet) × (tb : SockTb) × (tou_send env s l
          ≡ some (n, arm env ps (record l { tb = tb })))
        × Sent (record l.tb { cb_send = cb }) ps tb
  unfolding tou_send pushsndq send_link
  sends n cb e u =
      let (ps, tb, g, t) =
        send-Sent env.junk (record l.tb { cb_send = cb })
          (record { buffer = u; order = v.order; nxt_fits = v.nxt_fits; far = v.far }) in
      (ps, tb, rw (e, g) refl, t)

  -- On a ready table touSend of a block that is not empty and fits an int succeeds: the block is
  -- accepted whole, or not at all where the send buffer has no room for it; the packets that go out,
  -- with their timers, and the bytes left are the bytes that were there and the block, and the
  -- packets are numbered without gaps from snd_nxt.
  pub tou_send-Wrote :
      0 < length s
      → length s < half_word
      → (n : ℕ) × (l' : Link) × (tou_send env s l ≡ some (n, l')) × Wrote env s l n l'
  tou_send-Wrote p h = elim (insert_cases env.malloc l.tb.cb_send s v.buffer p h) [
    | inl (_, cb, e, u, stored, _, _) ↦
        let (ps, tb, g, t) = sends (length s) cb e u in
        (
          length s,
          _,
          g,
          record {
            packets = ps;
            table = tb;
            sends = refl;
            accepted = inl (refl, t.bytes ∙ stored);
            chain = t.chain;
            next = t.next;
          },
        )
    | inr (full, e) ↦
        let (ps, tb, g, t) = sends 0 l.tb.cb_send e v.buffer in
        (
          0,
          _,
          g,
          record {
            packets = ps;
            table = tb;
            sends = refl;
            accepted = inr (refl, full, t.bytes);
            chain = t.chain;
            next = t.next;
          },
        )
  ]

-- Where the datagram of an expected packet waits, the valid receive buffer is empty and larger than
-- the payload, run returns, and touRecv with a positive length that is enough then returns the
-- payload's length and exactly its bytes.
pub run-tou_recv :
    (env : Env) (l : Link) (from : Arrival) (q : Packet) (n : ℕ)
    → Expected env l from q
    → Buffer.Bounds.IsValid l.tb.cb_recv
    → l.tb.cb_recv.tot_el ≡ 0
    → length q.buf < l.tb.cb_recv.size
    → length q.buf ≤ n
    → n < half_word
    → (r : ℕ) × (l' : Link) × (run env l ≡ returned r l')
      × ((tou_recv n l').0 ≡ length q.buf)
      × ((tou_recv n l').1 ≡ q.buf)
run-tou_recv env l from q n h v empty room fits small =
    let (l', e, stored, a) = run-delivers env l from q h v (omega (arith, empty, room)) in
    let t = tou_recv-Read l' a.buffer n (ground (arith, h.bytes)) in
    let all =
      t.bytes
      ∙ ap (take n) (
          stored
          ∙ ap (λ (xs : List ℕ). xs ++ q.buf)
              (none_left (contents l.tb.cb_recv) (length-contents l.tb.cb_recv n v ∙ empty)))
      ∙ take_all n q.buf fits in
    (
      _,
      l',
      e,
      t.opened (λ w. still_open l'.tb.sockstate (a.state ∙ h.established) w) ∙ ap length all,
      all,
    )
  where
    still_open : (s : ℕ) → s ≡ tous_established → s ≢ tous_close_wait
    still_open s e w = omega (arith, e, w)

    none_left : (xs : List ℕ) → length xs ≡ 0 → xs ≡ []
    none_left [] z = refl
    none_left (x ∷ xs) z = absurd (omega arith)
