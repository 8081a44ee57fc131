-- ===== src/Fs/Blocks/Laws.antt =====
-- What balloc and bfree do to the free map and to the blocks.
use os_lab.Prelude.{
  ℕ, ◌+◌, ◌*◌, ◌%◌, ◌-◌, ◌<◌, ◌≤◌, ◌≡◌, ◌==◌, ◌⊎◌, Bool, true, false, none, some, zero, suc, ltb,
  arith, refl, Bool-cases, Option-cases, inl, inr, ap, ◌∙◌, sym,
}
use os_lab.Fs.{Disk, Superblock, bblock, bpb, Result, ok, panic, out_of_blocks}
use os_lab.Fs.Blocks.{is_set, scan_bits, mark_used, balloc_from}
use os_lab.Fs.Blocks.Bits.{HasBytes}

-- The bit of block `c` in the free map.
abbrev pub is_used : Superblock → Disk → ℕ → Bool
is_used sb d c = is_set (d (bblock c sb)) (c % bpb)

-- A disk of bytes whose free map lies on it and has its own blocks in use.
pub record HasMap (sb : Superblock) (d : Disk) : Type 0 where
  pub wide : (b : ℕ) → HasBytes (d b)
  pub inside : (c : ℕ) → c < sb.size → bblock c sb < sb.size
  pub reserved : (c : ℕ) → c < sb.size → is_used sb d (bblock c sb) ≡ true

scan-none :
    (n : ℕ) (sb : Superblock) (d : Disk) (b bi : ℕ)
    → scan_bits n sb d b bi ≡ none
    → (j : ℕ) → bi ≤ j
    → j < bi + n
    → b + j < sb.size
    → is_set (d (bblock b sb)) j ≡ true
unfolding scan_bits
scan-none zero sb d b bi h j lo hi lt = absurd (omega arith)
scan-none (suc n) sb d b bi h j lo hi lt = elim (Bool-cases (j == bi)) [
  | inl e ↦ ground arith
  | inr e ↦ scan-none n sb d b (bi + 1) (ground arith) j (ground arith) (omega arith) lt
]

scan-some :
    (n : ℕ) (sb : Superblock) (d : Disk) (b bi r : ℕ)
    → scan_bits n sb d b bi ≡ some r
    → (bi ≤ r) × (r < bi + n) × (b + r < sb.size) × (is_set (d (bblock b sb)) r ≡ false)
unfolding scan_bits
scan-some zero sb d b bi r h = cc
scan-some (suc n) sb d b bi r h = elim (Bool-cases (ltb (b + bi) sb.size)) [
  | inr out ↦ absurd (ground arith)
  | inl within ↦ elim (Bool-cases (is_set (d (bblock b sb)) bi)) [
    | inl e ↦
        let (p, q, s, t) = scan-some n sb d b (bi + 1) r (ground arith) in
        (omega arith, omega arith, s, t)
    | inr e ↦
        let same : bi ≡ r = ground arith in (omega arith, omega arith, ground arith, rw same at e)
  ]
]

scan_first :
    (n : ℕ) (sb : Superblock) (d : Disk) (b bi r : ℕ)
    → scan_bits n sb d b bi ≡ some r
    → (j : ℕ) → bi ≤ j
    → j < r
    → is_set (d (bblock b sb)) j ≡ true
unfolding scan_bits
scan_first zero sb d b bi r h j lo hi = cc
scan_first (suc n) sb d b bi r h j lo hi = elim (Bool-cases (is_set (d (bblock b sb)) bi)) [
  | inl e ↦ elim (Bool-cases (j == bi)) [
    | inl at ↦ ground arith
    | inr ne ↦ scan_first n sb d b (bi + 1) r (ground arith) j (ground arith) hi
  ]
  | inr e ↦ absurd (ground arith)
]

-- Where the search from `b` on, a multiple of BPB, ends.
abbrev Searched : Superblock → ℕ → Disk → Result (ℕ × Disk) → Type 0
Searched sb b d r =
    ((r ≡ panic out_of_blocks) × ((c : ℕ) → b ≤ c → c < sb.size → is_used sb d c ≡ true))
    ⊎ ((a : ℕ) × (i : ℕ) × (r ≡ ok (a + i, mark_used a i sb d))
        × (a % bpb ≡ 0)
        × (i < bpb)
        × (a + i < sb.size)
        × (is_used sb d (a + i) ≡ false)
        × ((c : ℕ) → b ≤ c → c < a + i → is_used sb d c ≡ true))

-- The bit `j` of the map block of `b`.
pub used_bit :
    (sb : Superblock) (d : Disk) (b j : ℕ)
    → b % bpb ≡ 0
    → j < bpb
    → is_used sb d (b + j) ≡ is_set (d (bblock b sb)) j
used_bit sb d b j al lt =
    let blk : bblock (b + j) sb ≡ bblock b sb = omega arith in
    let bit : (b + j) % bpb ≡ j = omega arith in rw (blk) (rw bit refl)

module _ (sb : Superblock) (d : Disk) (b : ℕ) (al : b % bpb ≡ 0) where
  -- The bits of one map block, for the numbers of blocks.
  all_used :
      (hi : ℕ)
      → hi ≤ bpb
      → ((j : ℕ) → j < hi → b + j < sb.size → is_set (d (bblock b sb)) j ≡ true)
      → (c : ℕ) → b ≤ c
      → c < b + hi
      → c < sb.size
      → is_used sb d c ≡ true
  all_used hi small h c lo up lt =
      let same : b + (c - b) ≡ c = omega arith in
      ap (is_used sb d) (sym same)
      ∙ (used_bit sb d b (c - b) al (omega arith) ∙ h (c - b) (omega arith) (omega arith))

pub balloc_from-Searched :
    (n : ℕ) (sb : Superblock) (b : ℕ) (d : Disk)
    → sb.size ≤ b + n * bpb
    → b % bpb ≡ 0
    → Searched sb b d (balloc_from n sb b d)
unfolding balloc_from
balloc_from-Searched zero sb b d enough al = inl (refl, λ c lo lt. absurd (omega arith))
balloc_from-Searched (suc n) sb b d enough al = elim (Bool-cases (ltb b sb.size)) [
  | inr past ↦ rw past (inl (refl, λ c lo lt. absurd (ground arith)))
  | inl within ↦ rw within (elim (Option-cases (scan_bits bpb sb d b 0)) [
    | inr (i, e) ↦
        let (p, q, s, t) = scan-some bpb sb d b 0 i e in
        rw e (
          inr (
            b,
            i,
            refl,
            al,
            q,
            s,
            used_bit sb d b i al q ∙ t,
            λ c lo hi.
                all_used sb d b al i (omega arith)
                  (λ j jl jb. scan_first bpb sb d b 0 i e j (omega arith) jl) c lo hi (omega arith),
          ))
    | inl e ↦
        let here = λ (c : ℕ) (lo : b ≤ c) (hi : c < b + bpb) (lt : c < sb.size).
          all_used sb d b al bpb (omega arith)
            (λ j jl jb. scan-none bpb sb d b 0 e j (omega arith) jl jb) c lo hi lt in
        rw e (elim (balloc_from-Searched n sb (b + bpb) d (omega arith) (omega arith)) [
          | inl (r, u) ↦ inl (
            r,
            λ c lo lt. elim (Bool-cases (ltb c (b + bpb))) [
              | inl near ↦ here c lo (ground arith) lt
              | inr far ↦ u c (ground arith) lt
            ],
          )
          | inr (a, i, r, al', q, s, t, u) ↦ inr (
            a,
            i,
            r,
            al',
            q,
            s,
            t,
            λ c lo lt. elim (Bool-cases (ltb c (b + bpb))) [
              | inl near ↦ here c lo (ground arith) (omega arith)
              | inr far ↦ u c (ground arith) lt
            ],
          )
        ])
  ])
]
