-- ===== src/Format/Digits.antt =====
-- The digits of a number: how many there are, and in what order.
use os_lab.Prelude.{
  ℕ, ◌-◌, ◌/◌, ◌%◌, ◌^◌, ◌<◌, ◌≤◌, ◌≡◌, ◌==◌, ◌⊎◌, ◌&&◌, inl, inr, if◌then◌else◌, Bool, List, [],
  ◌∷◌, ◌++◌, zero, suc, arith, refl, ap, ◌∙◌, Bool-cases, length, length-append, get_or,
  append_assoc,
}
use mathlib.Core.List.{reverse, reverse-append}
use os_lab.Format.{digits_of, number_buf, is_negative}

-- `k` digits are enough for `x`.
abbrev pub Short : ℕ → ℕ → ℕ → Type 0
Short base zero x = ⊥
Short base (suc k) x = (x / base ≡ 0) ⊎ Short base k (x / base)

-- Ten digits are enough for a word, and eight to the base 16.
pub Short-ten : (x : ℕ) → x < 2 ^ 32 → Short 10 10 x
Short-ten x h = inr (inr (inr (inr (inr (inr (inr (inr (inr (inl (omega arith))))))))))

Short-sixteen : (x : ℕ) → x < 2 ^ 32 → Short 16 8 x
Short-sixteen x h = inr (inr (inr (inr (inr (inr (inr (inl (omega arith))))))))

length-digits_of :
    (k fuel : ℕ) (table : List ℕ) (base x : ℕ)
    → Short base k x
    → length (digits_of fuel table base x) ≤ k
unfolding digits_of
length-digits_of zero fuel table base x h = absurd h
length-digits_of (suc k) zero table base x h = omega arith
length-digits_of (suc k) (suc fuel) table base x (inl z) = rw z (omega arith)
length-digits_of (suc k) (suc fuel) table base x (inr h) =
    ground (arith, length-digits_of k fuel table base (x / base) h)

-- printint does not write past its buffer of 16 bytes: for a word and the bases 10 and 16, with or
-- without a sign and whatever the digits look like, the buffer gets at most 11 bytes.
pub number_buf_bounds :
    (table : List ℕ) (signed : Bool) (x : ℕ)
    → x < 2 ^ 32
    → (length (number_buf table 10 signed x) ≤ 11) × (length (number_buf table 16 signed x) ≤ 11)
unfolding number_buf
number_buf_bounds table signed x h = elim (Bool-cases (signed && is_negative x)) [
  | inr plain ↦ rw plain (
    omega (arith, length-digits_of 10 32 table 10 x (Short-ten x h)),
    omega (arith, length-digits_of 8 32 table 16 x (Short-sixteen x h)),
  )
  | inl minus ↦
      let word : 2 ^ 32 - x < 2 ^ 32 = ground arith in
      rw minus (
        omega (
          arith,
          length-append (digits_of 32 table 10 (2 ^ 32 - x)) (b'-' ∷ []),
          length-digits_of 10 32 table 10 (2 ^ 32 - x) (Short-ten (2 ^ 32 - x) word),
        ),
        omega (
          arith,
          length-append (digits_of 32 table 16 (2 ^ 32 - x)) (b'-' ∷ []),
          length-digits_of 8 32 table 16 (2 ^ 32 - x) (Short-sixteen (2 ^ 32 - x) word),
        ),
      )
]

-- The digits in the order in which they are written, with what follows them.
pub reverse-digits_of :
    (fuel : ℕ) (table : List ℕ) (base x : ℕ) (rest : List ℕ)
    → reverse (digits_of (suc fuel) table base x) ++ rest
      ≡ (if x / base == 0 then [] else reverse (digits_of fuel table base (x / base)))
        ++ (get_or table (x % base) 0 ∷ rest)
unfolding digits_of
reverse-digits_of fuel table base x rest = elim (Bool-cases (x / base == 0)) [
  | inl z ↦ rw z refl
  | inr n ↦ rw n (
      ap (λ ds. ds ++ rest)
        (reverse-append (get_or table (x % base) 0 ∷ []) (digits_of fuel table base (x / base)))
      ∙ append_assoc (reverse (digits_of fuel table base (x / base)))
          (get_or table (x % base) 0 ∷ []) rest)
]
