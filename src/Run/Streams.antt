-- ===== src/Run/Streams.antt =====
-- A call of `run` in processtou.cpp that finds any number of datagrams of data, one behind the other.
use tcpoudp.Prelude.{
  ℕ, suc, ◌+◌, ◌-◌, ◌*◌, ◌≤◌, ◌<◌, ◌≡◌, refl, sym, ap, subst, ◌∙◌, true, false, none, some, List,
  [], ◌∷◌, ◌++◌, append_assoc, append-nil, length, length-append, arith, add32, ltb, lt_int, sub32,
  minus_one,
}
use tcpoudp.Buffer.{CircularBuffer, insert, get_av_size}
use tcpoudp.Buffer
use tcpoudp.Buffer.Contents.{contents}
use tcpoudp.Link.{Arrival, Link, Env}
use tcpoudp.Packet.{Packet, parse}
use tcpoudp.Process.{classify}
use tcpoudp.Process.Recovery.{payloads}
use tcpoudp.Socket.{RunState, end_run, match_expected, get_pkt, clear_get_pkt}
use tcpoudp.Run.Round.{
  run_loop-goto, run_loop-leave, step-end, fresh, holding, text, fetch_pkt-first, content-long,
  step-get_pkt,
}
use tcpoudp.Run.Calls.{IsData}
use tcpoudp.Run.{
  goto, leave, fetch_pkt, run_recvfrom, recv_in, recv_buf_size, after_data, step, returned,
  run_loop, run,
}
use tcpoudp.Run.Datagram.{IsReceiving, classify-next, One, one}

-- The datagrams give packets of data, the first of them at `k` and each other behind the one before.
abbrev pub Stream : Env → ℕ → List Arrival → List Packet → Type 0
Stream env k [] [] = Unit {0}
Stream env k [] (q ∷ qs) = ⊥
Stream env k (a ∷ xs) [] = ⊥
Stream env k (a ∷ xs) (q ∷ qs) =
    (parse env.junk (text a) ≡ some q)
    × IsData q
    × (q.t.seq ≡ k)
    × Stream env (add32 k (length q.buf)) xs qs

-- The sequence number behind a list of packets that starts at `k`.
abbrev pub behind : ℕ → List Packet → ℕ
behind k [] = k
behind k (q ∷ qs) = behind (add32 k (length q.buf)) qs

-- What a call has received.
pub record Received (l : Link) (qs : List Packet) (l' : Link) : Type 0 where
  pub bytes : contents l'.tb.cb_recv ≡ contents l.tb.cb_recv ++ payloads qs
  pub next : l'.tb.tc.rcv_nxt ≡ behind l.tb.tc.rcv_nxt qs
  pub taken : l'.inbox ≡ []
  pub again : IsReceiving l'

-- Where a datagram follows and the buffer has room for a largest one, the machine takes it.
goes_on :
    (l : Link) (b : Arrival) (rest : List Arrival)
    → l.inbox ≡ b ∷ rest
    → 0 < length b.content
    → l.tb.runstate ≡ get_pkt
    → recv_buf_size ≤ l.tb.cb_recv.size - l.tb.cb_recv.tot_el
    → Buffer.Bounds.IsValid l.tb.cb_recv
    → after_data l ≡ goto clear_get_pkt l
unfolding after_data get_av_size
goes_on l b rest e pos st room v = rw (e, st, waits, fits) refl
  where
    waits : ltb 0 (length b.content) ≡ true
    waits = ground arith

    fits : lt_int (sub32 l.tb.cb_recv.size l.tb.cb_recv.tot_el) recv_buf_size ≡ false
    fits = ground (arith, v.small, room)

ends : (l : Link) → l.inbox ≡ [] → after_data l ≡ goto end_run l
unfolding after_data
ends l e = rw e refl

step-clear :
    (env : Env) (l : Link) (b : Arrival) (rest : List Arrival) (p q : Packet)
    → l.inbox ≡ b ∷ rest
    → l.tp ≡ some q
    → parse env.junk (text b) ≡ some p
    → (s : RunState) → classify l.tb p ≡ some s
    → step env clear_get_pkt l ≡ some (goto s (holding l b rest p))
unfolding step
step-clear env l b rest p q waits held reads s c =
    rw held (fetch_pkt-first env (record l { tp = none }) b rest p waits reads s c)

-- Four rounds for each datagram, and one for each that follows.
abbrev rounds : List Arrival → ℕ → ℕ
rounds [] x = suc (suc (suc (suc x)))
rounds (b ∷ xs) x = suc (suc (suc (suc (rounds xs x))))

rounds_lem : (xs : List Arrival) (x : ℕ) → rounds xs x ≡ 4 * length xs + 4 + x
rounds_lem [] x = omega arith
rounds_lem (b ∷ xs) x = omega (arith, rounds_lem xs x)

module _ (env : Env) (x : ℕ) where
  -- The machine stands behind the first datagram.
  last :
      (l : Link) (a : Arrival) (q : Packet) (l₁ : Link)
      → (v : IsReceiving l) → (r : parse env.junk (text a) ≡ some q) → (d : IsData q)
      → (e : q.t.seq ≡ l.tb.tc.rcv_nxt) → One env l a [] q v r d e l₁
      → (l' : Link) × (run_loop env (rounds [] x) match_expected (holding l a [] q)
          ≡ returned l'.rv l')
        × Received l (q ∷ []) l'
  last l a q l₁ v r d e o = (
    record l₁ { tp = none },
    o.goes (suc x) end_run (ends l₁ o.inbox)
        ∙ run_loop-leave env x end_run l₁ (record l₁ { tp = none }) l₁.rv
            (step-end env q l₁ o.held),
    record {
      bytes = o.bytes ∙ ap (◌++◌ (contents l.tb.cb_recv)) (sym (append-nil q.buf));
      next = o.nxt;
      taken = o.inbox;
      again = record {
        state = o.again.state;
        established = o.again.established;
        ordered = o.again.ordered;
        delays = o.again.delays;
        buffer = o.again.buffer;
      };
    },
  )

  streams :
      (xs : List Arrival) (qs : List Packet) (l : Link) (a : Arrival) (q : Packet)
      → IsReceiving l
      → Stream env l.tb.tc.rcv_nxt (a ∷ xs) (q ∷ qs)
      → length (payloads (q ∷ qs)) + recv_buf_size ≤ l.tb.cb_recv.size - l.tb.cb_recv.tot_el
      → (l' : Link) × (run_loop env (rounds xs x) match_expected (holding l a xs q)
          ≡ returned l'.rv l')
        × Received l (q ∷ qs) l'
  streams [] [] l a q v (reads, d, next, _) room =
      let (l₁, o) = one env l a [] q v reads d next (omega (arith, room, length-append q.buf [])) in
      last l a q l₁ v reads d next o
  streams [] (q₂ ∷ qs) l a q v (_, _, _, tail) room = absurd tail
  streams (b ∷ xs) [] l a q v (_, _, _, tail) room = absurd tail
  streams (b ∷ xs) (q₂ ∷ qs) l a q v (reads, d, next, tail) room =
      let n = length-append q.buf (payloads (q₂ ∷ qs)) in
      let (l₁, o) = one env l a (b ∷ xs) q v reads d next (omega (arith, room, n)) in
      let (reads₂, d₂, next₂, tail₂) = tail in
      let tail₁ : Stream env l₁.tb.tc.rcv_nxt (b ∷ xs) (q₂ ∷ qs) =
        subst (λ (k : ℕ). Stream env k (b ∷ xs) (q₂ ∷ qs)) (sym o.nxt) tail in
      let (l', e, t) = streams xs qs l₁ b q₂ o.again tail₁ (omega (arith, room, n, o.room)) in
      (
        l',
        o.goes (suc (rounds xs x)) clear_get_pkt (
              goes_on l₁ b xs o.inbox (omega (arith, content-long env l₁ b xs q₂ o.inbox reads₂))
                o.again.state (omega (arith, room, n, o.room)) o.again.buffer)
            ∙ run_loop-goto env (rounds xs x) clear_get_pkt match_expected l₁ (holding l₁ b xs q₂) (
                step-clear env l₁ b xs q₂ q o.inbox o.held reads₂ match_expected
                  (classify-next env l₁ b xs q₂ o.again reads₂ d₂ (next₂ ∙ sym o.nxt)))
            ∙ e,
        record {
          bytes =
              t.bytes
              ∙ ap (λ (ys : List ℕ). ys ++ payloads (q₂ ∷ qs)) o.bytes
              ∙ append_assoc (contents l.tb.cb_recv) q.buf (payloads (q₂ ∷ qs));
          next = t.next ∙ ap (λ (k : ℕ). behind k (q₂ ∷ qs)) o.nxt;
          taken = t.taken;
          again = t.again;
        },
      )

-- Where nothing waits the call ends at once.
abbrev nothing : Link → Link
nothing l = record (fresh l) { rv = minus_one }

step-nothing :
    (env : Env) (l : Link)
    → l.inbox ≡ []
    → step env get_pkt (fresh l) ≡ some (leave minus_one (nothing l))
unfolding step fetch_pkt run_recvfrom recv_in
step-nothing env l e = rw e refl

-- A call of run on an established connection with nothing out of order and a valid receive buffer,
-- that finds datagrams, if any, whose packets are data, one behind the other from rcv_nxt on, and
-- room for all of their bytes and a largest datagram, takes all of them and returns.
pub run-Received :
    (env : Env) (l : Link) (qs : List Packet)
    → IsReceiving l
    → Stream env l.tb.tc.rcv_nxt l.inbox qs
    → length (payloads qs) + recv_buf_size ≤ l.tb.cb_recv.size - l.tb.cb_recv.tot_el
    → (l' : Link) × (run env l ≡ returned l'.rv l') × Received l qs l'
unfolding run
run-Received env l qs v s room = by_inbox l.inbox refl qs s room
  where
    starts :
        (xs : List Arrival)
        → l.inbox ≡ xs
        → run env l ≡ run_loop env (4 * length xs + 5) get_pkt (fresh l)
    starts xs waits =
        ap (λ (w : List Arrival). run_loop env (4 * length w + 5) l.tb.runstate (fresh l)) waits
        ∙ ap (λ (s : RunState). run_loop env (4 * length xs + 5) s (fresh l)) v.state

    by_inbox :
        (xs : List Arrival)
        → l.inbox ≡ xs
        → (qs : List Packet) → Stream env l.tb.tc.rcv_nxt xs qs
        → length (payloads qs) + recv_buf_size ≤ l.tb.cb_recv.size - l.tb.cb_recv.tot_el
        → (l' : Link) × (run env l ≡ returned l'.rv l') × Received l qs l'
    by_inbox [] waits [] s room = (
      nothing l,
      starts [] waits
          ∙ run_loop-leave env 4 get_pkt (fresh l) (nothing l) minus_one (step-nothing env l waits),
      record {
        bytes = sym (append-nil (contents l.tb.cb_recv));
        next = refl;
        taken = waits;
        again = record {
          state = v.state;
          established = v.established;
          ordered = v.ordered;
          delays = v.delays;
          buffer = v.buffer;
        };
      },
    )
    by_inbox [] waits (q ∷ qs) s room = absurd s
    by_inbox (a ∷ xs) waits [] s room = absurd s
    by_inbox (a ∷ xs) waits (q ∷ qs) (reads, d, next, tail) room =
        let (l', e, t) = streams env 4 xs qs l a q v (reads, d, next, tail) room in
        (
          l',
          starts (a ∷ xs) waits
              ∙ ap (λ (k : ℕ). run_loop env k get_pkt (fresh l)) (omega (arith, rounds_lem xs 4))
              ∙ run_loop-goto env (rounds xs 4) get_pkt match_expected (fresh l) (holding l a xs q)
                  (step-get_pkt env l a xs q waits reads match_expected
                    (classify-next env l a xs q v reads d next))
              ∙ e,
          t,
        )
