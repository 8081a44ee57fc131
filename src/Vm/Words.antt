-- ===== src/Vm/Words.antt =====
-- Words and pages in memory, and the flags of an entry.
use Prim.Native.Nat.{bit_or, bit_or-bitwise, digits, max}
use os_lab.Prelude.{
  ℕ, ◌+◌, ◌*◌, ◌/◌, ◌%◌, ◌^◌, ◌<◌, ◌≤◌, ◌≡◌, ◌&&◌, if◌then◌else◌, ◌⊎◌, zero, suc, ltb, leb, arith,
  refl, ◌∙◌,
}
use os_lab.Strings.{Memory, memset, store}
use os_lab.Fs.{uint_at, put_uint}

abbrev or_digits : ℕ → ℕ → ℕ → ℕ
or_digits n a b = digits (λ b. b) max n a b

or_digits_fuel : (n m a b : ℕ) → a ≤ n → a ≤ m → or_digits n a b ≡ or_digits m a b
or_digits_fuel zero zero a b p q = refl
or_digits_fuel zero (suc m) zero b p q = refl
or_digits_fuel zero (suc m) (suc a) b p q = absurd (omega arith)
or_digits_fuel (suc n) zero zero b p q = refl
or_digits_fuel (suc n) zero (suc a) b p q = absurd (omega arith)
or_digits_fuel (suc n) (suc m) zero b p q = refl
or_digits_fuel (suc n) (suc m) (suc a) b p q =
    omega (arith, or_digits_fuel n m (suc a / 2) (b / 2) (omega arith) (omega arith))

zero-bit_or : (b : ℕ) → bit_or 0 b ≡ b
zero-bit_or b = bit_or-bitwise 0 b

bit_or_step : (a b : ℕ) → bit_or a b ≡ bit_or (a / 2) (b / 2) * 2 + max (a % 2) (b % 2)
bit_or_step zero b = omega (arith, zero-bit_or b, zero-bit_or (b / 2))
bit_or_step (suc a) b = omega (
  arith,
  bit_or-bitwise (suc a) b,
  bit_or-bitwise (suc a / 2) (b / 2),
  or_digits_fuel a (suc a / 2) (suc a / 2) (b / 2) (omega arith) (omega arith),
)

bit_or-zero_fuel : (n a : ℕ) → a ≤ n → bit_or a 0 ≡ a
bit_or-zero_fuel zero zero h = zero-bit_or 0
bit_or-zero_fuel zero (suc a) h = absurd (omega arith)
bit_or-zero_fuel (suc n) zero h = zero-bit_or 0
bit_or-zero_fuel (suc n) (suc a) h =
    omega (arith, bit_or_step (suc a) 0, bit_or-zero_fuel n (suc a / 2) (omega arith))

-- The flags PTE_P | PTE_W | PTE_U of a page's address.
pub bit_or_seven : (a : ℕ) → a % 8 ≡ 0 → bit_or a 7 ≡ a + 7
bit_or_seven a h = omega (
  arith,
  bit_or_step a 7,
  bit_or_step (a / 2) 3,
  bit_or_step (a / 2 / 2) 1,
  bit_or-zero_fuel (a / 2 / 2 / 2) (a / 2 / 2 / 2) (omega arith),
)

pub memset_lem :
    (d c n : ℕ) (m : Memory) (a : ℕ)
    → memset d c n m a ≡ (if leb d a && ltb a (d + n) then c % 256 else m a)
unfolding memset
memset_lem d c zero m a = ground arith
memset_lem d c (suc n) m a = memset_lem (d + 1) c n (store d (c % 256) m) a ∙ ground arith

pub put_uint-other : (o x : ℕ) (m : Memory) (a : ℕ) → (a < o) ⊎ (o + 4 ≤ a) → put_uint o x m a ≡ m a
unfolding put_uint
put_uint-other o x m a h = ground arith

pub uint_at-same : (o x : ℕ) (m : Memory) → x < 2 ^ 32 → uint_at (put_uint o x m) o ≡ x
unfolding uint_at put_uint
uint_at-same o x m h = ground arith

pub uint_at-eq :
    (o : ℕ) (m m' : Memory)
    → ((a : ℕ) → o ≤ a → a < o + 4 → m' a ≡ m a)
    → uint_at m' o ≡ uint_at m o
unfolding uint_at
uint_at-eq o m m' h = omega (
  arith,
  h o (omega arith) (omega arith),
  h (o + 1) (omega arith) (omega arith),
  h (o + 2) (omega arith) (omega arith),
  h (o + 3) (omega arith) (omega arith),
)

pub uint_at-zero : (o : ℕ) (m : Memory) → ((a : ℕ) → o ≤ a → a < o + 4 → m a ≡ 0) → uint_at m o ≡ 0
unfolding uint_at
uint_at-zero o m h = omega (
  arith,
  h o (omega arith) (omega arith),
  h (o + 1) (omega arith) (omega arith),
  h (o + 2) (omega arith) (omega arith),
  h (o + 3) (omega arith) (omega arith),
)
