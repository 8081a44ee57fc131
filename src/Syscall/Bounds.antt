-- ===== src/Syscall/Bounds.antt =====
-- The checks of user pointers.
use os_lab.Prelude.{
  ℕ, ◌≤◌, ◌≡◌, some, ◌^◌, ◌<◌, ◌+◌, suc, ◌≢◌, Bool-cases, arith, ◌↔◌, ◌==◌, ◌-◌, inl, inr, ap, zero,
}
use os_lab.Syscall.{argptr, find_nul, fetchstr, argptr_at, Memory, argint, pos}
use os_lab.Prelude.Int.{pos}

-- For a process below KERNBASE: a pointer that argptr accepts for a size of less than 2 GB has its
-- block inside the process; and a block inside the process is accepted.
pub argptr_bounds :
    (m : Memory) (sz esp n size i : ℕ)
    → sz ≤ 2 ^ 31
    → size < 2 ^ 31
    → i < 2 ^ 32
    → argint m sz esp n ≡ some i
    → (argptr m sz esp n (pos size) ≡ some i) ↔ ((i < sz) × (i + size ≤ sz))
unfolding argptr argptr_at
argptr_bounds m sz esp n size i small few word e =
    rw (e, argptr) (λ h. (ground arith, ground arith), λ h. ground arith)

-- The string that fetchstr accepts lies in the process: its length is that of the bytes before the
-- first zero byte, which is inside; and -1 means that there is no zero byte from there to the end.
find_nul-some :
    (m : Memory) (left addr n r : ℕ)
    → find_nul m left addr n ≡ some r
    → (n ≤ r) × (r < n + left) × (m (addr + r) ≡ 0)
unfolding find_nul
find_nul-some m zero addr n r h = cc
find_nul-some m (suc left) addr n r h = elim (Bool-cases (m (addr + n) == 0)) [
  | inl e ↦ (ground arith, ground arith, ground arith)
  | inr e ↦
      let (a, b, c) = find_nul-some m left addr (n + 1) r (ground arith) in
      (omega arith, omega arith, c)
]

find_nul_before :
    (m : Memory) (left addr n r : ℕ)
    → find_nul m left addr n ≡ some r
    → (j : ℕ) → n ≤ j
    → j < r
    → m (addr + j) ≢ 0
unfolding find_nul
find_nul_before m zero addr n r h j lo hi = cc
find_nul_before m (suc left) addr n r h j lo hi = elim (Bool-cases (m (addr + n) == 0)) [
  | inl e ↦ absurd (ground arith)
  | inr e ↦ elim (Bool-cases (n == j)) [
    | inl at ↦
        let same : n ≡ j = ground arith in λ z. ground (arith, ap (λ (x : ℕ). m (addr + x)) same)
    | inr ne ↦ find_nul_before m left addr (n + 1) r (ground arith) j (ground arith) hi
  ]
]

-- If fetchstr returns a length, the string starts and ends inside the process: the byte at its
-- length is zero and lies below the size, and no byte before it is zero.
pub fetchstr_bounds :
    (m : Memory) (sz addr r : ℕ)
    → fetchstr m sz addr ≡ some r
    → (addr + r < sz) × (m (addr + r) ≡ 0) × ((j : ℕ) → j < r → m (addr + j) ≢ 0)
unfolding fetchstr
fetchstr_bounds m sz addr r h =
    let inside : addr < sz = ground arith in
    let found : find_nul m (sz - addr) addr 0 ≡ some r = ground arith in
    let (a, b, c) = find_nul-some m (sz - addr) addr 0 r found in
    (omega arith, c, λ j lt. find_nul_before m (sz - addr) addr 0 r found j (omega arith) lt)
