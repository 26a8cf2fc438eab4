-- ===== src/Prelude/Tables.antt =====
-- Lists given index by index: how a stretch of memory is compared with a list.
use Prim.Native.Nat.{ℕ, zero, suc, ◌+◌, ◌-◌, ◌≤◌, ◌<◌, ◌%◌}
use mathlib.Core.Path.{◌≡◌, refl, ap, ap₂, ◌∙◌}
use mathlib.Core.List.{List, [], ◌∷◌, ◌++◌}
use native.Mathlib.Omega.{arith}
use native.Mathlib.Nat.{mod-eq_of_lt, mod-eq-sub-mod}
use tcpoudp.Prelude.Tests.{ltb, if◌then◌else◌}
use tcpoudp.Prelude.Lists.{length, get_or, take, drop}

-- `f 0, f 1, …, f (n - 1)`.
abbrev pub tabulate {ℓ} : {A : Type ℓ} → ℕ → (ℕ → A) → List A
tabulate zero f = []
tabulate (suc n) f = f 0 ∷ tabulate n (λ k. f (suc k))

module _ {ℓ} {A : Type ℓ} where
  pub length-tabulate : (n : ℕ) (f : ℕ → A) → length (tabulate n f) ≡ n
  length-tabulate zero f = refl
  length-tabulate (suc n) f = ap suc (length-tabulate n (λ k. f (suc k)))

  pub tabulate_ext :
      (n : ℕ) (f g : ℕ → A) → ((k : ℕ) → k < n → f k ≡ g k) → tabulate n f ≡ tabulate n g
  tabulate_ext zero f g h = refl
  tabulate_ext (suc n) f g h =
      ap₂ ◌∷◌ (h 0 (omega arith))
        (tabulate_ext n (λ k. f (suc k)) (λ k. g (suc k)) (λ k p. h (suc k) (omega arith)))

  pub tabulate_count : {m n : ℕ} (f : ℕ → A) → m ≡ n → tabulate m f ≡ tabulate n f
  tabulate_count f e = ap (λ (t : ℕ). tabulate t f) e

  get_or_index : (xs : List A) {i j : ℕ} (d : A) → i ≡ j → get_or xs i d ≡ get_or xs j d
  get_or_index xs d e = ap (λ (t : ℕ). get_or xs t d) e

  pub tabulate-append :
      (m n : ℕ) (f : ℕ → A) → tabulate m f ++ tabulate n (λ k. f (m + k)) ≡ tabulate (m + n) f
  tabulate-append zero n f =
      tabulate_ext n (λ k. f (0 + k)) f (λ k p. ap f (omega arith))
      ∙ tabulate_count {m = n} {n = 0 + n} f (omega arith)
  tabulate-append (suc m) n f =
      ap (λ (t : List A). f 0 ∷ (tabulate m (λ k. f (suc k)) ++ t))
        (tabulate_ext n (λ k. f (suc m + k)) (λ k. f (suc (m + k))) (λ k p. ap f (omega arith)))
      ∙ ap (λ (t : List A). f 0 ∷ t) (tabulate-append m n (λ k. f (suc k)))
      ∙ tabulate_count {m = suc (m + n)} {n = suc m + n} f (omega arith)

  pub take-tabulate : (n m : ℕ) (f : ℕ → A) → n ≤ m → take n (tabulate m f) ≡ tabulate n f
  take-tabulate zero m f h = refl
  take-tabulate (suc n) zero f h = absurd (omega arith)
  take-tabulate (suc n) (suc m) f h =
      ap (λ (t : List A). f 0 ∷ t) (take-tabulate n m (λ k. f (suc k)) (omega arith))

  pub drop-tabulate :
      (n m : ℕ) (f : ℕ → A) → n ≤ m → drop n (tabulate m f) ≡ tabulate (m - n) (λ k. f (n + k))
  drop-tabulate zero m f h =
      tabulate_count {m = m} {n = m - 0} f (omega arith)
      ∙ tabulate_ext (m - 0) f (λ k. f (0 + k)) (λ k p. ap f (omega arith))
  drop-tabulate (suc n) zero f h = absurd (omega arith)
  drop-tabulate (suc n) (suc m) f h =
      drop-tabulate n m (λ k. f (suc k)) (omega arith)
      ∙ tabulate_count {m = m - n} {n = suc m - suc n} (λ k. f (suc (n + k))) (omega arith)
      ∙ tabulate_ext (suc m - suc n) (λ k. f (suc (n + k))) (λ k. f (suc n + k))
          (λ k p. ap f (omega arith))

  -- A stretch of a list, read index by index.
  pub slice-tabulate :
      (xs : List A) (p n : ℕ) (d : A)
      → p + n ≤ length xs
      → take n (drop p xs) ≡ tabulate n (λ k. get_or xs (p + k) d)
  slice-tabulate xs zero zero d h = refl
  slice-tabulate [] zero (suc n) d h = absurd (omega arith)
  slice-tabulate (x ∷ xs) zero (suc n) d h = ap₂ ◌∷◌ refl (
      slice-tabulate xs zero n d (omega arith)
      ∙ tabulate_ext n (λ k. get_or xs (0 + k) d) (λ k. get_or (x ∷ xs) (0 + suc k) d)
          (λ k q. get_or_index (x ∷ xs) {i = suc (0 + k)} {j = 0 + suc k} d (omega arith)))
  slice-tabulate [] (suc p) zero d h = refl
  slice-tabulate [] (suc p) (suc n) d h = absurd (omega arith)
  slice-tabulate (x ∷ xs) (suc p) n d h =
      slice-tabulate xs p n d (omega arith)
      ∙ tabulate_ext n (λ k. get_or xs (p + k) d) (λ k. get_or (x ∷ xs) (suc p + k) d)
          (λ k q. get_or_index (x ∷ xs) {i = suc (p + k)} {j = suc p + k} d (omega arith))

-- One step round a ring of `c` places.
pub mod_cases : (x c : ℕ) → x < c + c → 0 < c → x % c ≡ (if ltb x c then x else x - c)
mod_cases x c h p = grind (arith, mod-eq_of_lt, mod-eq-sub-mod)
