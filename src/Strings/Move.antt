-- ===== src/Strings/Move.antt =====
-- memmove copies areas that overlap; strlen and safestrcpy end.
use os_lab.Prelude.{
  ℕ, ◌<◌, ◌≤◌, if◌then◌else◌, leb, ◌≡◌, ◌⊎◌, arith, ◌&&◌, ◌+◌, ltb, suc, ◌-◌, ◌∙◌, zero, Bool-cases,
  inl, ◌↔◌, inr, refl,
}
use os_lab.Strings.{Memory, copy_down, copy_up, store, memmove, memcmp, pos}
use os_lab.Prelude.Int.{pos}

-- A byte of the target area has the old byte of the source; all others are as they were.
abbrev moved : ℕ → ℕ → ℕ → Memory → Memory
moved d s n m a = if leb d a && ltb a (d + n) then m (s + (a - d)) else m a

copy_down_lem : (d s n : ℕ) (m : Memory) → s < d → (a : ℕ) → copy_down d s n m a ≡ moved d s n m a
unfolding copy_down
copy_down_lem d s zero m lt a = ground arith
copy_down_lem d s (suc n) m lt a =
    copy_down_lem d s n (store (d + n) (m (s + n)) m) lt a ∙ ground arith

copy_up_lem :
    (d s n : ℕ) (m : Memory) → (d ≤ s) ⊎ (s + n ≤ d) → (a : ℕ) → copy_up d s n m a ≡ moved d s n m a
unfolding copy_up
copy_up_lem d s zero m ok a = ground arith
copy_up_lem d s (suc n) m ok a =
    copy_up_lem (d + 1) (s + 1) n (store d (m s) m) (omega arith) a ∙ ground arith

-- After memmove every byte of the target area has the byte that the source held at the same place
-- before, and every other byte is as it was, also where the two areas overlap.
pub memmove_lem : (d s n : ℕ) (m : Memory) (a : ℕ) → memmove d s n m a ≡ moved d s n m a
unfolding memmove
memmove_lem d s n m a = elim (Bool-cases (ltb s d && ltb d (s + n))) [
  | inl overlap ↦ rw overlap (copy_down_lem d s n m (ground arith) a)
  | inr apart ↦ rw apart (
      copy_up_lem d s n m
        (elim (Bool-cases (ltb s d)) [
          | inl below ↦ inr (ground arith)
          | inr above ↦ inl (ground arith)
        ])
        a)
]

same_of_zero :
    (m : Memory) (v1 v2 n : ℕ)
    → memcmp m v1 v2 n ≡ pos 0
    → (i : ℕ) → i < n
    → m (v1 + i) ≡ m (v2 + i)
unfolding memcmp
same_of_zero m v1 v2 zero h i lt = absurd (omega arith)
same_of_zero m v1 v2 (suc n) h zero lt = ground arith
same_of_zero m v1 v2 (suc n) h (suc i) lt =
    ground (arith, same_of_zero m (v1 + 1) (v2 + 1) n (ground arith) i (omega arith))

zero_of_same :
    (m : Memory) (v1 v2 n : ℕ)
    → ((i : ℕ) → i < n → m (v1 + i) ≡ m (v2 + i))
    → memcmp m v1 v2 n ≡ pos 0
unfolding memcmp
zero_of_same m v1 v2 zero h = refl
zero_of_same m v1 v2 (suc n) h = ground (
  arith,
  h 0 (omega arith),
  zero_of_same m (v1 + 1) (v2 + 1) n (λ i lt. ground (arith, h (i + 1) (omega arith))),
)

-- memcmp gives 0 exactly for areas that hold the same bytes.
memcmp_zero :
    (m : Memory) (v1 v2 n : ℕ)
    → (memcmp m v1 v2 n ≡ pos 0) ↔ ((i : ℕ) → i < n → m (v1 + i) ≡ m (v2 + i))
memcmp_zero m v1 v2 n = (same_of_zero m v1 v2 n, zero_of_same m v1 v2 n)
