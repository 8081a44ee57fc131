-- ===== src/Fs/Blocks/Bits.antt =====
-- The bits of the free map: a write of one bit, read back.
use os_lab.Prelude.{
  ℕ, ◌+◌, ◌/◌, ◌%◌, ◌^◌, ◌-◌, ◌<◌, ◌≡◌, ◌==◌, if◌then◌else◌, Bool, true, false, ◌&&◌, ◌||◌, zero,
  suc, ltb, arith, refl, Bool-cases, inl, inr, both_true,
}
use os_lab.Fs.{Block}
use os_lab.Fs.Blocks.{is_set, set_bit, clear_bit}

-- A test that holds for every number below `n`.
every : ℕ → (ℕ → Bool) → Bool
every zero p = true
every (suc n) p = p n && every n p

every_lem : (n : ℕ) (p : ℕ → Bool) → every n p ≡ true → (x : ℕ) → x < n → p x ≡ true
unfolding every
every_lem zero p h x lt = absurd (omega arith)
every_lem (suc n) p h x lt =
    let (a, b) = both_true (p n) (every n p) h in
    elim (Bool-cases (x == n)) [
      | inl e ↦ let same : x ≡ n = ground arith in rw same a
      | inr e ↦ every_lem n p b x (ground arith)
    ]

abbrev bit_of : ℕ → ℕ → ℕ
bit_of x k = x / 2 ^ k % 2

-- Adding the bit `k` to a byte that lacks it, and taking it from one that has it.
abbrev sets_right : ℕ → ℕ → ℕ → Bool
sets_right x k j =
    bit_of x k == 1
    || (bit_of (x + 2 ^ k) j == (if j == k then 1 else bit_of x j) && ltb (x + 2 ^ k) 256)

abbrev clears_right : ℕ → ℕ → ℕ → Bool
clears_right x k j =
    bit_of x k == 0
    || (bit_of (x - 2 ^ k) j == (if j == k then 0 else bit_of x j) && ltb (x - 2 ^ k) 256)

abbrev table : (ℕ → ℕ → ℕ → Bool) → Bool
table test = every 256 (λ x. every 8 (λ k. every 8 (λ j. test x k j)))

sets_table : table sets_right ≡ true
unfolding every
sets_table = refl

clears_table : table clears_right ≡ true
unfolding every
clears_table = refl

table_lem :
    (test : ℕ → ℕ → ℕ → Bool)
    → table test ≡ true
    → (x k j : ℕ) → x < 256
    → k < 8
    → j < 8
    → test x k j ≡ true
table_lem test h x k j p q r =
    every_lem 8 (λ j. test x k j)
      (every_lem 8 (λ k. every 8 (λ j. test x k j))
        (every_lem 256 (λ x. every 8 (λ k. every 8 (λ j. test x k j))) h x p) k q)
      j r

abbrev pub HasBytes : Block → Type 0
HasBytes b = (j : ℕ) → b j < 256

module _ (b : Block) (wide : HasBytes b) (i : ℕ) where
  sets_lem : (j : ℕ) → sets_right (b (i / 8)) (i % 8) (j % 8) ≡ true
  sets_lem j =
      table_lem sets_right sets_table (b (i / 8)) (i % 8) (j % 8) (wide (i / 8)) (omega arith)
        (omega arith)

  clears_lem : (j : ℕ) → clears_right (b (i / 8)) (i % 8) (j % 8) ≡ true
  clears_lem j =
      table_lem clears_right clears_table (b (i / 8)) (i % 8) (j % 8) (wide (i / 8)) (omega arith)
        (omega arith)

  pub is_set-set_bit :
      is_set b i ≡ false → (j : ℕ) → is_set (set_bit i b) j ≡ (if j == i then true else is_set b j)
  unfolding set_bit
  is_set-set_bit clear j = ground (arith, sets_lem j)

  pub is_set-clear_bit :
      is_set b i ≡ true
      → (j : ℕ) → is_set (clear_bit i b) j ≡ (if j == i then false else is_set b j)
  unfolding clear_bit
  is_set-clear_bit used j = ground (arith, clears_lem j)

  pub HasBytes-set_bit : is_set b i ≡ false → HasBytes (set_bit i b)
  unfolding set_bit
  HasBytes-set_bit clear j = ground (arith, sets_lem 0, wide j)

  pub HasBytes-clear_bit : is_set b i ≡ true → HasBytes (clear_bit i b)
  unfolding clear_bit
  HasBytes-clear_bit used j = ground (arith, clears_lem 0, wide j)
