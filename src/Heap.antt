-- ===== src/Heap.antt =====
-- `std::priority_queue` as src/lib uses it: its elements in the order in which they come to the top.
-- Both comparisons of the source are `>=` on a key, so an element goes above those with its key;
-- the library leaves the order of equal keys open.
use tcpoudp.Prelude.{
  ℕ, ◌+◌, ◌≤◌, ◌≡◌, Bool, List, [], ◌∷◌, arith, length, if◌then◌else◌, leb, Bool-cases, inl, inr,
}
use mathlib.Core.List.{Perm}
use mathlib.Core.List.Perm

-- `push`. `below x v` is the source's comparison: `x` does not come before `v`.
abbrev pub push {ℓ} : {A : Type ℓ} → (A → A → Bool) → A → List A → List A
push below v [] = v ∷ []
push below v (x ∷ xs) = if below x v then v ∷ x ∷ xs else x ∷ push below v xs

module _ {ℓ} {A : Type ℓ} (below : A → A → Bool) where
  -- Nothing is lost and nothing made up.
  pub push-perm : (v : A) (xs : List A) → Perm (push below v xs) (v ∷ xs)
  push-perm v [] = Perm.refl (v ∷ [])
  push-perm v (x ∷ xs) = elim (Bool-cases (below x v)) [
    | inl e ↦ rw e (Perm.refl (v ∷ x ∷ xs))
    | inr e ↦ rw e (Perm.trans (Perm.cons x (push-perm v xs)) (Perm.swap v x xs))
  ]

  pub length-push : (v : A) (xs : List A) → length (push below v xs) ≡ length xs + 1
  length-push v [] = omega arith
  length-push v (x ∷ xs) = ground (arith, length-push v xs)

-- A heap on a key: no element comes before one with a smaller key.
module _ {ℓ} {A : Type ℓ} (key : A → ℕ) where
  abbrev pub AtLeast : ℕ → List A → Type 0
  AtLeast k [] = Unit {0}
  AtLeast k (x ∷ xs) = (k ≤ key x) × AtLeast k xs

  abbrev pub Sorted : List A → Type 0
  Sorted [] = Unit {0}
  Sorted (x ∷ xs) = AtLeast (key x) xs × Sorted xs

  abbrev pub by_key : A → A → Bool
  by_key x v = leb (key v) (key x)

  pub AtLeast-mono : {j k : ℕ} (xs : List A) → j ≤ k → AtLeast k xs → AtLeast j xs
  AtLeast-mono [] h a = tt
  AtLeast-mono (x ∷ xs) h a = (omega arith, AtLeast-mono xs h a.1)

  pub AtLeast-push :
      (k : ℕ) (v : A) (xs : List A) → k ≤ key v → AtLeast k xs → AtLeast k (push by_key v xs)
  AtLeast-push k v [] h a = (h, tt)
  AtLeast-push k v (x ∷ xs) h a = ground (arith, AtLeast-push k v xs h a.1)

  pub Sorted-push : (v : A) (xs : List A) → Sorted xs → Sorted (push by_key v xs)
  Sorted-push v [] s = (tt, tt)
  Sorted-push v (x ∷ xs) s = ground (
    arith,
    Sorted-push v xs s.1,
    AtLeast-push (key x) v xs,
    AtLeast-mono {j = key v} {k = key x} xs,
  )
