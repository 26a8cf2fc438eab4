-- ===== src/Socket/Change.antt =====
-- What a change of one table of tou_sock_table.cpp leaves of the others, and the heap of packets out of order.
use tcpoudp.Prelude.{
  ℕ, zero, suc, ◌<◌, ◌≡◌, ◌≢◌, refl, sym, Bool, subst, ap, ◌∙◌, false, Option, none, some, List, [],
  ◌∷◌, arith, length, get_elem?, set, get_elem?-set_self, get_elem?-set_ne, ◌==◌, ℕ_discrete,
  length-set,
}
use tcpoudp.Socket.Table.{Live, Distinct, IsValid}
use tcpoudp.Socket.{
  SockTb, World, is_for, find, get_socket_table, at_cell, change, change_socket, with_tc, set_tcb,
}

-- What a change `f` of the table at `p` has done.
pub record Changed (w : World) (p : ℕ) (tb : SockTb) (w' : World) : Type 0 where
  pub here : at_cell w' p ≡ some tb
  pub elsewhere : (q : ℕ) → q ≢ p → at_cell w' q ≡ at_cell w q
  pub lookup : (fd : ℕ) → get_socket_table w' fd ≡ get_socket_table w fd
  pub queue : w'.stbq ≡ w.stbq

pub get_elem?-bound :
    (cells : List SockTb) (p : ℕ) (tb : SockTb) → get_elem? cells p ≡ some tb → p < length cells
get_elem?-bound [] p tb e = absurd (cc)
get_elem?-bound (c ∷ cells) zero tb e = omega arith
get_elem?-bound (c ∷ cells) (suc p) tb e = omega (arith, get_elem?-bound cells p tb e)

module _ (cells : List SockTb) (p : ℕ) (old new : SockTb) (there : get_elem? cells p ≡ some old)
    (keeps : new.sockd ≡ old.sockd) where
  abbrev owned : ℕ → Option SockTb → Bool
  owned fd t = elim t [ none ↦ false | some tb ↦ tb.sockd == fd ]

  is_for-set : (fd q : ℕ) → is_for (set cells p new) fd q ≡ is_for cells fd q
  is_for-set fd q = elim (ℕ_discrete p q) [
    | yes e ↦
        let now : get_elem? (set cells p new) q ≡ some new =
          subst (λ (t : ℕ). get_elem? (set cells p new) t ≡ some new) e
            (get_elem?-set_self cells p new (get_elem?-bound cells p old there)) in
        let before : get_elem? cells q ≡ some old =
          subst (λ (t : ℕ). get_elem? cells t ≡ some old) e there in
        ap (owned fd) now ∙ ap (λ (t : ℕ). t == fd) keeps ∙ sym (ap (owned fd) before)
    | no ne ↦ ap (owned fd) (get_elem?-set_ne cells new ne)
  ]

  find-set : (ps : List ℕ) (fd : ℕ) → find (set cells p new) ps fd ≡ find cells ps fd
  unfolding find
  find-set [] fd = refl
  find-set (q ∷ ps) fd = rw (is_for-set fd q, find-set ps fd) refl

  Live-set : (ps : List ℕ) → Live cells ps → Live (set cells p new) ps
  Live-set [] l = tt
  Live-set (q ∷ ps) l = (omega (arith, l.0, length-set cells p new), Live-set ps l.1)

  Distinct-set : (ps : List ℕ) → Distinct cells ps → Distinct (set cells p new) ps
  Distinct-set [] d = tt
  Distinct-set (q ∷ ps) d =
      (λ fd e. find-set ps fd ∙ d.0 fd (sym (is_for-set fd q) ∙ e), Distinct-set ps d.1)

module _ (w : World) (fd p : ℕ) (tb : SockTb) (found : get_socket_table w fd ≡ some p)
    (there : at_cell w p ≡ some tb) where
  pub lookup-set :
      (new : SockTb)
      → new.sockd ≡ tb.sockd
      → (other : ℕ)
      → get_socket_table (record w { cells = set w.cells p new }) other ≡ get_socket_table w other
  unfolding get_socket_table
  lookup-set new keeps other = find-set w.cells p tb new there keeps w.stbq other

  -- A change that keeps the descriptor keeps the vector valid.
  pub set-IsValid :
      (new : SockTb)
      → new.sockd ≡ tb.sockd
      → IsValid w
      → IsValid (record w { cells = set w.cells p new })
  set-IsValid new keeps v = record {
    live = Live-set w.cells p tb new there keeps w.stbq v.live;
    distinct = Distinct-set w.cells p tb new there keeps w.stbq v.distinct;
  }

  pub changed_lem :
      (f : SockTb → SockTb)
      → change_socket w fd f ≡ some (record w { cells = set w.cells p (f tb) })
  changed_lem f =
      ap (λ (o : Option ℕ). elim o [ none ↦ none | some q ↦ change w q f ]) found
      ∙ ap
          (λ (o : Option SockTb). elim o [
            | none ↦ none
            | some t ↦ some (record w { cells = set w.cells p (f t) })
          ])
          there

  change_socket-Changed :
      (f : SockTb → SockTb)
      → (f tb).sockd ≡ tb.sockd
      → (w' : World) × (change_socket w fd f ≡ some w') × Changed w p (f tb) w'
  change_socket-Changed f keeps = (
    record w { cells = set w.cells p (f tb) },
    changed_lem f,
    record {
      here = get_elem?-set_self w.cells p (f tb) (get_elem?-bound w.cells p tb there);
      elsewhere = λ q ne. get_elem?-set_ne w.cells (f tb) (λ e. ne (sym e));
      lookup = lookup-set (f tb) keeps;
      queue = refl;
    },
  )

  -- For a descriptor that is found at a table that exists, setTCB succeeds: it sets snd_nxt and
  -- snd_una of that table and nothing else of it, every other table stays, and every descriptor is
  -- found where it was.
  pub set_tcb-Changed :
      (nxt una : ℕ)
      → (w' : World) × (set_tcb w nxt una fd ≡ some w')
        × Changed w p (record tb { tc = record tb.tc { snd_nxt = nxt; snd_una = una } }) w'
  unfolding set_tcb
  set_tcb-Changed nxt una =
      change_socket-Changed (with_tc (λ tc. record tc { snd_nxt = nxt; snd_una = una })) refl
