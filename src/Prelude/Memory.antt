-- ===== src/Prelude/Memory.antt =====
-- Memory as a list of bytes, and `memcpy` into it.
use Prim.Native.Nat.{ℕ, zero, suc, ◌+◌, ◌≤◌, ◌<◌}
use mathlib.Core.Path.{◌≡◌, refl, ap, ◌∙◌}
use mathlib.Core.List.{List, [], ◌∷◌}
use native.Mathlib.Omega.{arith}
use tcpoudp.Prelude.Lists.{length, get_or, take, drop, length-take}

-- `memcpy(m + p, src, length src)`. What the source would write behind the end of `m` is undefined
-- behaviour there, and dropped here.
abbrev pub copy_in {ℓ} : {A : Type ℓ} → List A → ℕ → List A → List A
copy_in [] p src = []
copy_in (x ∷ m) zero [] = x ∷ m
copy_in (x ∷ m) zero (s ∷ src) = s ∷ copy_in m zero src
copy_in (x ∷ m) (suc p) src = x ∷ copy_in m p src

module _ {ℓ} {A : Type ℓ} where
  pub length-copy_in : (m : List A) (p : ℕ) (src : List A) → length (copy_in m p src) ≡ length m
  length-copy_in [] p src = refl
  length-copy_in (x ∷ m) zero [] = refl
  length-copy_in (x ∷ m) zero (s ∷ src) = ap suc (length-copy_in m zero src)
  length-copy_in (x ∷ m) (suc p) src = ap suc (length-copy_in m p src)

  -- Outside the stretch that is written nothing changes.
  pub get_or-copy_in_before :
      (m : List A) (p : ℕ) (src : List A) (i : ℕ) (d : A)
      → i < p
      → get_or (copy_in m p src) i d ≡ get_or m i d
  get_or-copy_in_before [] p src i d h = refl
  get_or-copy_in_before (x ∷ m) zero src i d h = elim h [ ]
  get_or-copy_in_before (x ∷ m) (suc p) src zero d h = refl
  get_or-copy_in_before (x ∷ m) (suc p) src (suc i) d h =
      get_or-copy_in_before m p src i d (omega arith)

  pub get_or-copy_in_after :
      (m : List A) (p : ℕ) (src : List A) (i : ℕ) (d : A)
      → p + length src ≤ i
      → get_or (copy_in m p src) i d ≡ get_or m i d
  get_or-copy_in_after [] p src i d h = refl
  get_or-copy_in_after (x ∷ m) zero [] i d h = refl
  get_or-copy_in_after (x ∷ m) zero (s ∷ src) zero d h = absurd (omega arith)
  get_or-copy_in_after (x ∷ m) zero (s ∷ src) (suc i) d h =
      get_or-copy_in_after m zero src i d (omega arith)
  get_or-copy_in_after (x ∷ m) (suc p) src zero d h = refl
  get_or-copy_in_after (x ∷ m) (suc p) src (suc i) d h =
      get_or-copy_in_after m p src i d (omega arith)

  -- Inside it the bytes of the source stand.
  pub get_or-copy_in_inside :
      (m : List A) (p : ℕ) (src : List A) (k : ℕ) (d : A)
      → p + length src ≤ length m
      → k < length src
      → get_or (copy_in m p src) (p + k) d ≡ get_or src k d
  get_or-copy_in_inside [] p [] k d h q = elim q [ ]
  get_or-copy_in_inside [] p (s ∷ src) k d h q = absurd (omega arith)
  get_or-copy_in_inside (x ∷ m) zero [] k d h q = elim q [ ]
  get_or-copy_in_inside (x ∷ m) zero (s ∷ src) zero d h q = refl
  get_or-copy_in_inside (x ∷ m) zero (s ∷ src) (suc k) d h q =
      ap (λ (t : ℕ). get_or (s ∷ copy_in m zero src) t d) (shift k)
      ∙ get_or-copy_in_inside m zero src k d (omega arith) (omega arith)
    where
      shift : (j : ℕ) → 0 + suc j ≡ suc (0 + j)
      shift j = omega arith
  get_or-copy_in_inside (x ∷ m) (suc p) src k d h q =
      ap (λ (t : ℕ). get_or (x ∷ copy_in m p src) t d) (shift p k)
      ∙ get_or-copy_in_inside m p src k d (omega arith) q
    where
      shift : (i j : ℕ) → suc i + j ≡ suc (i + j)
      shift i j = omega arith

  pub get_or-take :
      (n : ℕ) (xs : List A) (k : ℕ) (d : A) → k < n → get_or (take n xs) k d ≡ get_or xs k d
  get_or-take zero xs k d h = elim h [ ]
  get_or-take (suc n) [] k d h = refl
  get_or-take (suc n) (x ∷ xs) zero d h = refl
  get_or-take (suc n) (x ∷ xs) (suc k) d h = get_or-take n xs k d (omega arith)

  pub get_or-drop :
      (n : ℕ) (xs : List A) (k : ℕ) (d : A) → get_or (drop n xs) k d ≡ get_or xs (n + k) d
  get_or-drop zero xs k d = ap (λ (t : ℕ). get_or xs t d) (shift k)
    where
      shift : (j : ℕ) → j ≡ 0 + j
      shift j = omega arith
  get_or-drop (suc n) [] k d = refl
  get_or-drop (suc n) (x ∷ xs) k d =
      get_or-drop n xs k d ∙ ap (λ (t : ℕ). get_or (x ∷ xs) t d) (shift n k)
    where
      shift : (i j : ℕ) → suc (i + j) ≡ suc i + j
      shift i j = omega arith

  pub length-take_le : (n : ℕ) (xs : List A) → n ≤ length xs → length (take n xs) ≡ n
  length-take_le n xs h = omega (arith, length-take n xs)
