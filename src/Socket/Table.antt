-- ===== src/Socket/Table.antt =====
-- The vector of socket tables: tou_sock_table.cpp's add, find, delete and change together.
use tcpoudp.Prelude.{
  ℕ, zero, suc, ◌<◌, ◌≡◌, ◌≢◌, refl, sym, ap, ◌∙◌, true, false, Option, none, some, List, [], ◌∷◌,
  ◌++◌, arith, length, get_elem?, length-append, ◌==◌, if◌then◌else◌, Bool-cases, Option-cases, inl,
  inr,
}
use tcpoudp.Socket.{
  SockTb, World, is_for, find, erase, get_socket_table, add_socket_table, new_sock_tb,
  del_socket_table,
}

module _ {ℓ} {A : Type ℓ} where
  get_elem?-append_left :
      (xs ys : List A) (i : ℕ) → i < length xs → get_elem? (xs ++ ys) i ≡ get_elem? xs i
  get_elem?-append_left [] ys i h = elim h [ ]
  get_elem?-append_left (x ∷ xs) ys zero h = refl
  get_elem?-append_left (x ∷ xs) ys (suc i) h = get_elem?-append_left xs ys i (omega arith)

  get_elem?-append_end : (xs : List A) (y : A) → get_elem? (xs ++ (y ∷ [])) (length xs) ≡ some y
  get_elem?-append_end [] y = refl
  get_elem?-append_end (x ∷ xs) y = get_elem?-append_end xs y

-- Pointers to tables that exist, no two of them with one descriptor.
abbrev pub Live : List SockTb → List ℕ → Type 0
Live cells [] = Unit {0}
Live cells (p ∷ ps) = (p < length cells) × Live cells ps

abbrev pub Distinct : List SockTb → List ℕ → Type 0
Distinct cells [] = Unit {0}
Distinct cells (p ∷ ps) =
    ((fd : ℕ) → is_for cells fd p ≡ true → find cells ps fd ≡ none) × Distinct cells ps

pub record IsValid (w : World) : Type 0 where
  pub live : Live w.cells w.stbq
  pub distinct : Distinct w.cells w.stbq

find-cells :
    (cells : List SockTb) (tb : SockTb) (ps : List ℕ) (fd : ℕ)
    → Live cells ps
    → find (cells ++ (tb ∷ [])) ps fd ≡ find cells ps fd
unfolding find
find-cells cells tb [] fd l = refl
find-cells cells tb (p ∷ ps) fd l =
    ground (arith, get_elem?-append_left cells (tb ∷ []) p l.0, find-cells cells tb ps fd l.1)

find-append_some :
    (cells : List SockTb) (ps qs : List ℕ) (fd p : ℕ)
    → find cells ps fd ≡ some p
    → find cells (ps ++ qs) fd ≡ some p
unfolding find
find-append_some cells [] qs fd p e = cc
find-append_some cells (q ∷ ps) qs fd p e = ground (arith, find-append_some cells ps qs fd p)

find-append_none :
    (cells : List SockTb) (ps qs : List ℕ) (fd : ℕ)
    → find cells ps fd ≡ none
    → find cells (ps ++ qs) fd ≡ find cells qs fd
unfolding find
find-append_none cells [] qs fd e = refl
find-append_none cells (q ∷ ps) qs fd e = ground (arith, find-append_none cells ps qs fd)

module _ (malloc : ℕ → Option (List ℕ)) (junk : SockTb) (w : World) (v : IsValid w) (fd : ℕ) where
  added : SockTb
  added = record (new_sock_tb malloc junk) { sockd = fd }

  is_for-added :
      (other : ℕ) → is_for (w.cells ++ (added ∷ [])) other (length w.cells) ≡ (fd == other)
  unfolding added new_sock_tb
  is_for-added other = rw (get_elem?-append_end w.cells added, is_for)

  get-add_self :
      get_socket_table w fd ≡ none
      → get_socket_table (add_socket_table malloc junk w fd) fd ≡ some (length w.cells)
  unfolding get_socket_table add_socket_table find added
  get-add_self e =
      find-append_none (w.cells ++ (added ∷ [])) w.stbq (length w.cells ∷ []) fd
        (find-cells w.cells added w.stbq fd v.live ∙ e)
      ∙ ground (arith, is_for-added fd)

  get-add_other :
      (other : ℕ)
      → other ≢ fd
      → get_socket_table (add_socket_table malloc junk w fd) other ≡ get_socket_table w other
  unfolding get_socket_table add_socket_table find added
  get-add_other other ne = elim (Option-cases (find w.cells w.stbq other)) [
    | inl e ↦
        find-append_none (w.cells ++ (added ∷ [])) w.stbq (length w.cells ∷ []) other
          (find-cells w.cells added w.stbq other v.live ∙ e)
        ∙ ground (arith, is_for-added other)
    | inr (p, e) ↦
        find-append_some (w.cells ++ (added ∷ [])) w.stbq (length w.cells ∷ []) other p
          (find-cells w.cells added w.stbq other v.live ∙ e)
        ∙ sym e
  ]

module _ (cells : List SockTb) (tb : SockTb) where
  Live-add : (ps : List ℕ) → Live cells ps → Live (cells ++ (tb ∷ [])) (ps ++ (length cells ∷ []))
  Live-add [] l = (omega (arith, length-append cells (tb ∷ [])), tt)
  Live-add (p ∷ ps) l = (omega (arith, l.0, length-append cells (tb ∷ [])), Live-add ps l.1)

  is_for-append :
      (fd p : ℕ) → p < length cells → is_for (cells ++ (tb ∷ [])) fd p ≡ is_for cells fd p
  is_for-append fd p h = ground (arith, get_elem?-append_left cells (tb ∷ []) p h)

  is_for-end : (fd : ℕ) → is_for (cells ++ (tb ∷ [])) fd (length cells) ≡ (tb.sockd == fd)
  is_for-end fd = rw (get_elem?-append_end cells tb, is_for) refl

  find-add :
      (ps : List ℕ) (fd : ℕ)
      → Live cells ps
      → fd ≢ tb.sockd
      → find cells ps fd ≡ none
      → find (cells ++ (tb ∷ [])) (ps ++ (length cells ∷ [])) fd ≡ none
  unfolding find
  find-add ps fd l ne e =
      find-append_none (cells ++ (tb ∷ [])) ps (length cells ∷ []) fd
        (find-cells cells tb ps fd l ∙ e)
      ∙ ground (arith, is_for-end fd)

  Distinct-add :
      (ps : List ℕ)
      → Live cells ps
      → Distinct cells ps
      → find cells ps tb.sockd ≡ none
      → Distinct (cells ++ (tb ∷ [])) (ps ++ (length cells ∷ []))
  unfolding find
  Distinct-add [] l d e = ((λ fd h. refl), tt)
  Distinct-add (p ∷ ps) l d e = elim (Bool-cases (is_for cells tb.sockd p)) [
    | inl h ↦ absurd (ground (arith, h, e))
    | inr h ↦ (
      (λ fd g.
          let q : is_for cells fd p ≡ true = sym (is_for-append fd p l.0) ∙ g in
          find-add ps fd l.1 (λ same. absurd (ground (arith, q, h, same))) (d.0 fd q)),
      Distinct-add ps l.1 d.1 (ground (arith, h, e)),
    )
  ]

module _ (cells : List SockTb) (fd : ℕ) where
  is_for-other :
      (other p : ℕ) → other ≢ fd → is_for cells fd p ≡ true → is_for cells other p ≡ false
  is_for-other other p ne e = ground arith

  find-erase_self : (ps : List ℕ) → Distinct cells ps → find cells (erase cells ps fd) fd ≡ none
  unfolding find erase
  find-erase_self [] d = refl
  find-erase_self (p ∷ ps) d = ground (arith, d.0 fd, find-erase_self ps d.1)

  find-erase_other :
      (ps : List ℕ) (other : ℕ)
      → other ≢ fd
      → find cells (erase cells ps fd) other ≡ find cells ps other
  unfolding find erase
  find-erase_other [] other ne = refl
  find-erase_other (p ∷ ps) other ne = elim (Bool-cases (is_for cells fd p)) [
    | inl e ↦ rw (e, is_for-other other p ne e) refl
    | inr e ↦
        rw e (ap (λ t. if is_for cells other p then some p else t) (find-erase_other ps other ne))
  ]

  find-erase-none :
      (ps : List ℕ) (other : ℕ)
      → find cells ps other ≡ none
      → find cells (erase cells ps fd) other ≡ none
  unfolding find erase
  find-erase-none [] other e = refl
  find-erase-none (p ∷ ps) other e = ground (arith, find-erase-none ps other)

  Live-erase : (ps : List ℕ) → Live cells ps → Live cells (erase cells ps fd)
  unfolding erase
  Live-erase [] l = tt
  Live-erase (p ∷ ps) l = ground (arith, Live-erase ps l.1)

  Distinct-erase : (ps : List ℕ) → Distinct cells ps → Distinct cells (erase cells ps fd)
  unfolding erase
  Distinct-erase [] d = tt
  Distinct-erase (p ∷ ps) d = elim (Bool-cases (is_for cells fd p)) [
    | inl e ↦ rw e d.1
    | inr e ↦ rw e ((λ other h. find-erase-none ps other (d.0 other h)), Distinct-erase ps d.1)
  ]

module _ (w : World) (v : IsValid w) (fd : ℕ) where
  -- On a valid vector of tables a descriptor whose table is deleted is not found again, every other
  -- is found where it was, and the vector stays valid.
  pub del_lem :
      (get_socket_table (del_socket_table w fd) fd ≡ none)
      × ((other : ℕ)
          → other ≢ fd
          → get_socket_table (del_socket_table w fd) other ≡ get_socket_table w other)
      × IsValid (del_socket_table w fd)
  unfolding get_socket_table del_socket_table
  del_lem = (
    find-erase_self w.cells fd w.stbq v.distinct,
    λ other ne. find-erase_other w.cells fd w.stbq other ne,
    record {
      live = Live-erase w.cells fd w.stbq v.live;
      distinct = Distinct-erase w.cells fd w.stbq v.distinct;
    },
  )

module _ (malloc : ℕ → Option (List ℕ)) (junk : SockTb) (w : World) (v : IsValid w) (fd : ℕ) where
  -- On a valid vector of tables a descriptor that is not there is found, after it is added, at a new
  -- table, every other descriptor is found where it was, and the vector stays valid.
  pub add_lem :
      get_socket_table w fd ≡ none
      → (get_socket_table (add_socket_table malloc junk w fd) fd ≡ some (length w.cells))
        × ((other : ℕ)
            → other ≢ fd
            → get_socket_table (add_socket_table malloc junk w fd) other ≡ get_socket_table w other)
        × IsValid (add_socket_table malloc junk w fd)
  unfolding get_socket_table add_socket_table added
  add_lem e = (
    get-add_self malloc junk w v fd e,
    get-add_other malloc junk w v fd,
    record {
      live = Live-add w.cells (added malloc junk w v fd) w.stbq v.live;
      distinct = Distinct-add w.cells (added malloc junk w v fd) w.stbq v.live v.distinct e;
    },
  )
