-- ===== src/Prelude/Count.antt =====
-- How many elements of a list pass a test, and how one write changes that number.
use Prim.Native.Nat.{ℕ, zero, suc, ◌+◌, ◌<◌}
use mathlib.Core.Path.{◌≡◌, refl}
use mathlib.Core.Logic.{inl, inr}
use mathlib.Core.Bool.{Bool, true, false}
use mathlib.Core.Option.{some}
use mathlib.Core.List.{List, [], ◌∷◌}
use native.Mathlib.Omega.{arith}
use os_lab.Prelude.Tests.{if◌then◌else◌, Bool-cases}
use os_lab.Prelude.Lists.{get_elem?, set}

abbrev pub bit : Bool → ℕ
bit b = if b then 1 else 0

module _ {ℓ} {A : Type ℓ} (f : A → Bool) where
  unfoldable pub count : List A → ℕ
  count [] = 0
  count (x ∷ xs) = bit (f x) + count xs

  pub count-set :
      (xs : List A) (i : ℕ) (v : A) {x : A}
      → get_elem? xs i ≡ some x
      → count (set xs i v) + bit (f x) ≡ count xs + bit (f v)
  unfolding count
  count-set [] i v h = ground arith
  count-set (y ∷ xs) zero v h = ground arith
  count-set (y ∷ xs) (suc i) v {x} h = omega (arith, count-set xs i v h)

  pub count-pos_of_get :
      (xs : List A) (i : ℕ) {x : A} → get_elem? xs i ≡ some x → f x ≡ true → 0 < count xs
  unfolding count
  count-pos_of_get [] i h t = ground arith
  count-pos_of_get (y ∷ xs) zero h t = ground arith
  count-pos_of_get (y ∷ xs) (suc i) h t = omega (arith, count-pos_of_get xs i h t)

  pub elem_of_count_pos :
      (xs : List A) → 0 < count xs → (i : ℕ) × (x : A) × (get_elem? xs i ≡ some x) × (f x ≡ true)
  unfolding count
  elem_of_count_pos [] h = absurd (omega arith)
  elem_of_count_pos (y ∷ xs) h = elim (Bool-cases (f y)) [
    | inl t ↦ (0, y, refl, t)
    | inr e ↦ let (i, x, g, t) = elem_of_count_pos xs (ground arith) in (suc i, x, g, t)
  ]

  pub fails_of_count_zero :
      (xs : List A) → count xs ≡ 0 → (i : ℕ) (x : A) → get_elem? xs i ≡ some x → f x ≡ false
  fails_of_count_zero xs h i x g = elim (Bool-cases (f x)) [
    | inr e ↦ e
    | inl t ↦ absurd (omega (arith, count-pos_of_get xs i g t))
  ]
