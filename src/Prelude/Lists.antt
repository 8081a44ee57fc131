-- ===== src/Prelude/Lists.antt =====
-- Lists measured and indexed by native numbers, under the library's names.
use Prim.Native.Nat.{ℕ, zero, suc, ◌+◌, ◌-◌, ◌<◌, min}
use mathlib.Core.Path.{◌≡◌, refl, ap}
use mathlib.Core.Logic.{◌≢◌}
use mathlib.Core.List.{List, [], ◌∷◌, ◌++◌, map}
use mathlib.Core.Option.{Option, none, some}
use mathlib.Core.Bool.{Bool, true, false}
use native.Mathlib.Omega.{arith}
use os_lab.Prelude.Tests.{if◌then◌else◌, ◌==◌, ltb}

module _ {ℓ} {A : Type ℓ} where
  abbrev pub length : List A → ℕ
  length [] = 0
  length (x ∷ xs) = suc (length xs)

  abbrev pub get_elem? : List A → ℕ → Option A
  get_elem? [] i = none
  get_elem? (x ∷ xs) zero = some x
  get_elem? (x ∷ xs) (suc i) = get_elem? xs i

  -- A write out of bounds changes nothing.
  abbrev pub set : List A → ℕ → A → List A
  set [] i v = []
  set (x ∷ xs) zero v = v ∷ xs
  set (x ∷ xs) (suc i) v = x ∷ set xs i v

  pub length-append : (xs ys : List A) → length (xs ++ ys) ≡ length xs + length ys
  length-append [] ys = omega arith
  length-append (x ∷ xs) ys = omega (arith, length-append xs ys)

module _ {ℓ} {A : Type ℓ} where
  pub length-set : (xs : List A) (i : ℕ) (v : A) → length (set xs i v) ≡ length xs
  length-set [] i v = refl
  length-set (x ∷ xs) zero v = refl
  length-set (x ∷ xs) (suc i) v = ap suc (length-set xs i v)

  pub get_elem?-set_self :
      (xs : List A) (i : ℕ) (v : A) → i < length xs → get_elem? (set xs i v) i ≡ some v
  get_elem?-set_self [] i v h = elim h [ ]
  get_elem?-set_self (x ∷ xs) zero v h = refl
  get_elem?-set_self (x ∷ xs) (suc i) v h = get_elem?-set_self xs i v (omega arith)

  pub get_elem?-set_ne :
      (xs : List A) {i j : ℕ} (v : A) → i ≢ j → get_elem? (set xs i v) j ≡ get_elem? xs j
  get_elem?-set_ne [] v h = refl
  get_elem?-set_ne (x ∷ xs) {i = zero} {j = zero} v h = absurd (h refl)
  get_elem?-set_ne (x ∷ xs) {i = zero} {j = suc j} v h = refl
  get_elem?-set_ne (x ∷ xs) {i = suc i} {j = zero} v h = refl
  get_elem?-set_ne (x ∷ xs) {i = suc i} {j = suc j} v h = get_elem?-set_ne xs v (λ e. h (ap suc e))

module _ {ℓ} {A : Type ℓ} where
  abbrev pub get_or : List A → ℕ → A → A
  get_or [] i d = d
  get_or (x ∷ xs) zero d = x
  get_or (x ∷ xs) (suc i) d = get_or xs i d

  abbrev pub take : ℕ → List A → List A
  take zero xs = []
  take (suc n) [] = []
  take (suc n) (x ∷ xs) = x ∷ take n xs

  abbrev pub drop : ℕ → List A → List A
  drop zero xs = xs
  drop (suc n) [] = []
  drop (suc n) (x ∷ xs) = drop n xs

  abbrev pub replicate : ℕ → A → List A
  replicate zero a = []
  replicate (suc n) a = a ∷ replicate n a

  pub take-append-drop : (n : ℕ) (xs : List A) → take n xs ++ drop n xs ≡ xs
  take-append-drop zero xs = refl
  take-append-drop (suc n) [] = refl
  take-append-drop (suc n) (x ∷ xs) = rw (take-append-drop n xs)

  pub length-take : (n : ℕ) (xs : List A) → length (take n xs) ≡ min n (length xs)
  length-take zero xs = omega arith
  length-take (suc n) [] = omega arith
  length-take (suc n) (x ∷ xs) = omega (arith, length-take n xs)

  pub length-drop : (n : ℕ) (xs : List A) → length (drop n xs) ≡ length xs - n
  length-drop zero xs = omega arith
  length-drop (suc n) [] = omega arith
  length-drop (suc n) (x ∷ xs) = omega (arith, length-drop n xs)

  pub length-replicate : (n : ℕ) (a : A) → length (replicate n a) ≡ n
  length-replicate zero a = refl
  length-replicate (suc n) a = ap suc (length-replicate n a)

  pub length-map {κ} : {B : Type κ} (xs : List A) (f : A → B) → length (map f xs) ≡ length xs
  length-map [] f = refl
  length-map (x ∷ xs) f = ap suc (length-map xs f)

abbrev pub later : Option ℕ → Option ℕ
later none = none
later (some i) = some (suc i)

module _ {ℓ} {A : Type ℓ} (f : A → Bool) where
  -- The first index whose element passes the test.
  unfoldable pub find_index : List A → Option ℕ
  find_index [] = none
  find_index (x ∷ xs) = if f x then some 0 else later (find_index xs)

  -- It passes, nothing before it does, and `none` means that nothing passes.
  pub find_index-some :
      (xs : List A) {i : ℕ}
      → find_index xs ≡ some i
      → (x : A) × (get_elem? xs i ≡ some x) × (f x ≡ true)
  unfolding find_index
  find_index-some [] h = cc
  find_index-some (y ∷ xs) {i = zero} h = (y, refl, ground arith)
  find_index-some (y ∷ xs) {i = suc i} h = find_index-some xs {i = i} (ground arith)

  pub find_index-none :
      (xs : List A) → find_index xs ≡ none → (i : ℕ) {x : A} → get_elem? xs i ≡ some x → f x ≡ false
  unfolding find_index
  find_index-none [] h i g = cc
  find_index-none (y ∷ xs) h zero g = ground arith
  find_index-none (y ∷ xs) h (suc i) g = ground (arith, find_index-none xs (ground arith) i g)

module _ {ℓ} {A : Type ℓ} where
  pub set-set : (xs : List A) (i : ℕ) (v w : A) → set (set xs i v) i w ≡ set xs i w
  set-set [] i v w = refl
  set-set (x ∷ xs) zero v w = refl
  set-set (x ∷ xs) (suc i) v w = ap (λ (l : List A). x ∷ l) (set-set xs i v w)

  pub set_same : (xs : List A) (i : ℕ) {x : A} → get_elem? xs i ≡ some x → set xs i x ≡ xs
  set_same [] i h = refl
  set_same (y ∷ xs) zero h = ground arith
  set_same (y ∷ xs) (suc i) h = ap (λ (l : List A). y ∷ l) (set_same xs i h)

  pub lt_of_get_elem? : (xs : List A) (i : ℕ) {x : A} → get_elem? xs i ≡ some x → i < length xs
  lt_of_get_elem? [] i h = cc
  lt_of_get_elem? (y ∷ xs) zero h = omega arith
  lt_of_get_elem? (y ∷ xs) (suc i) h = omega (arith, lt_of_get_elem? xs i h)

  pub get_elem?_of_lt : (xs : List A) (i : ℕ) → i < length xs → (x : A) × (get_elem? xs i ≡ some x)
  get_elem?_of_lt [] i h = elim h [ ]
  get_elem?_of_lt (y ∷ xs) zero h = (y, refl)
  get_elem?_of_lt (y ∷ xs) (suc i) h = get_elem?_of_lt xs i (omega arith)

  -- A write at a valid index.
  pub get_elem?-set :
      (xs : List A) (i j : ℕ) (v : A) {x : A}
      → get_elem? xs i ≡ some x
      → get_elem? (set xs i v) j ≡ (if i == j then some v else get_elem? xs j)
  get_elem?-set [] i j v h = cc
  get_elem?-set (y ∷ xs) zero zero v h = ground arith
  get_elem?-set (y ∷ xs) zero (suc j) v h = ground arith
  get_elem?-set (y ∷ xs) (suc i) zero v h = ground arith
  get_elem?-set (y ∷ xs) (suc i) (suc j) v h = ground (arith, get_elem?-set xs i j v h)

  pub get_or-set :
      (xs : List A) (i j : ℕ) (v d : A)
      → i < length xs
      → get_or (set xs i v) j d ≡ (if j == i then v else get_or xs j d)
  get_or-set [] i j v d h = elim h [ ]
  get_or-set (y ∷ xs) zero zero v d h = ground arith
  get_or-set (y ∷ xs) zero (suc j) v d h = ground arith
  get_or-set (y ∷ xs) (suc i) zero v d h = ground arith
  get_or-set (y ∷ xs) (suc i) (suc j) v d h = ground (arith, get_or-set xs i j v d (omega arith))

  pub get_or-take :
      (n : ℕ) (xs : List A) (i : ℕ) (d : A) → i < n → get_or (take n xs) i d ≡ get_or xs i d
  get_or-take zero xs i d h = elim h [ ]
  get_or-take (suc n) [] i d h = refl
  get_or-take (suc n) (x ∷ xs) zero d h = refl
  get_or-take (suc n) (x ∷ xs) (suc i) d h = get_or-take n xs i d (omega arith)

  pub get_or-drop :
      (n : ℕ) (xs : List A) (i : ℕ) (d : A) → get_or (drop n xs) i d ≡ get_or xs (n + i) d
  get_or-drop zero xs i d = ground arith
  get_or-drop (suc n) [] i d = ground arith
  get_or-drop (suc n) (x ∷ xs) i d =
      let e : suc n + i ≡ suc (n + i) = omega arith in rw e (get_or-drop n xs i d)

  pub get_or-append :
      (xs ys : List A) (i : ℕ) (d : A)
      → get_or (xs ++ ys) i d
        ≡ (if ltb i (length xs) then get_or xs i d else get_or ys (i - length xs) d)
  get_or-append [] ys i d = ground arith
  get_or-append (x ∷ xs) ys zero d = ground arith
  get_or-append (x ∷ xs) ys (suc i) d = ground (arith, get_or-append xs ys i d)

  -- Two lists with the same elements at the same places.
  pub list_ext :
      (xs ys : List A) (d : A)
      → length xs ≡ length ys
      → ((i : ℕ) → i < length xs → get_or xs i d ≡ get_or ys i d)
      → xs ≡ ys
  list_ext [] [] d e h = refl
  list_ext [] (y ∷ ys) d e h = absurd (omega arith)
  list_ext (x ∷ xs) [] d e h = absurd (omega arith)
  list_ext (x ∷ xs) (y ∷ ys) d e h =
      cc (h 0 (omega arith), list_ext xs ys d (omega arith) (λ i lt. h (suc i) (omega arith)))
