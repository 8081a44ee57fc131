-- ===== src/Fs/Inodes/Cache.antt =====
-- The cache of inodes has at most one entry for an inode.
use os_lab.Prelude.{
  ℕ, ◌+◌, ◌<◌, ◌≡◌, ◌≢◌, ◌==◌, ◌⊎◌, true, false, arith, refl, Bool-cases, Option-cases, inl, inr,
  List, get_elem?, set, find_index, find_index-some, find_index-none, get_elem?-set,
  get_elem?-set_self, get_elem?-set_ne, lt_of_get_elem?, some, none,
}
use os_lab.Fs.{ok, panic, no_cache_entry}
use os_lab.Fs.Inodes.{Inode, holds, is_empty, recycled, recycle_at, iget_at, iget}

abbrev pub IsUnique : List Inode → Type 0
IsUnique c =
    (i j : ℕ) (p q : Inode)
    → get_elem? c i ≡ some p
    → get_elem? c j ≡ some q
    → 0 < p.ref
    → 0 < q.ref
    → p.dev ≡ q.dev
    → p.inum ≡ q.inum
    → i ≡ j

-- A write that keeps the inode, or makes an entry of an inode that no other entry has.
IsUnique-set :
    (c : List Inode) (i : ℕ) (p q : Inode)
    → IsUnique c
    → get_elem? c i ≡ some p
    → ((j : ℕ) (r : Inode)
        → i ≢ j
        → get_elem? c j ≡ some r
        → 0 < r.ref
        → 0 < q.ref
        → q.dev ≡ r.dev
        → q.inum ≡ r.inum
        → ⊥)
    → IsUnique (set c i q)
IsUnique-set c i p q u g new a b x y gx gy rx ry ed ei = elim (Bool-cases (i == a)) [
  | inl at ↦ elim (Bool-cases (i == b)) [
    | inl at' ↦ ground arith
    | inr ne ↦
        let xq : x ≡ q = ground (arith, get_elem?-set c i a q g) in
        let yo : get_elem? c b ≡ some y = ground (arith, get_elem?-set c i b q g) in
        absurd (new b y (ground arith) yo ry (ground arith) (ground arith) (ground arith))
  ]
  | inr ne ↦
      let xo : get_elem? c a ≡ some x = ground (arith, get_elem?-set c i a q g) in
      elim (Bool-cases (i == b)) [
        | inl at' ↦
            let yq : y ≡ q = ground (arith, get_elem?-set c i b q g) in
            absurd (new a x (ground arith) xo rx (ground arith) (ground arith) (ground arith))
        | inr ne' ↦ u a b x y xo (ground (arith, get_elem?-set c i b q g)) rx ry ed ei
      ]
]

-- A used entry for the inode; the entry `old` becomes `p`.
abbrev IsFor : ℕ → ℕ → Inode → Type 0
IsFor dev inum p = (0 < p.ref) × (p.dev ≡ dev) × (p.inum ≡ inum)

abbrev Hit : ℕ → ℕ → Inode → Inode → Type 0
Hit dev inum old p = IsFor dev inum old × (p ≡ record old { ref = old.ref + 1 })

abbrev Recycled : ℕ → ℕ → List Inode → Inode → Inode → Type 0
Recycled dev inum c old p =
    ((j : ℕ) (q : Inode) → get_elem? c j ≡ some q → ¬ IsFor dev inum q)
    × (old.ref ≡ 0)
    × (p ≡ record old { dev = dev; inum = inum; ref = 1; valid = false })

-- The two outcomes of iget.
abbrev pub Gotten : ℕ → ℕ → List Inode → Type 0
Gotten dev inum c =
    ((iget dev inum c ≡ panic no_cache_entry)
      × ((j : ℕ) (p : Inode) → get_elem? c j ≡ some p → (0 < p.ref) × (¬ IsFor dev inum p)))
    ⊎ ((i : ℕ) × (c' : List Inode) × (old : Inode) × (p : Inode) × (iget dev inum c ≡ ok (i, c'))
        × (get_elem? c i ≡ some old)
        × (get_elem? c' i ≡ some p)
        × (Hit dev inum old p ⊎ Recycled dev inum c old p)
        × IsUnique c'
        × ((j : ℕ) → i ≢ j → get_elem? c' j ≡ get_elem? c j))

not-IsFor : (dev inum : ℕ) (p : Inode) → holds dev inum p ≡ false → ¬ IsFor dev inum p
not-IsFor dev inum p e (a, b, c) = ground arith

holds-IsFor : (dev inum : ℕ) (p : Inode) → holds dev inum p ≡ true → IsFor dev inum p
holds-IsFor dev inum p e = (ground arith, ground arith, ground arith)

module _ (dev inum : ℕ) (c : List Inode) (u : IsUnique c) where
  got_held : (i : ℕ) → find_index (holds dev inum) c ≡ some i → Gotten dev inum c
  unfolding iget iget_at
  got_held i e =
      let (p, g, h) = find_index-some (holds dev inum) c e in
      let q : Inode = record p { ref = p.ref + 1 } in
      inr (
        i,
        set c i q,
        p,
        q,
        rw e (rw (g, iget_at) refl),
        g,
        get_elem?-set_self c i q (lt_of_get_elem? c i g),
        inl (holds-IsFor dev inum p h, refl),
        IsUnique-set c i p q u g
            (λ j r ne gr pos_r pos_q ed ei. ne (u i j p r g gr (ground arith) pos_r ed ei)),
        λ j ne. get_elem?-set_ne c q ne,
      )

  got_fresh :
      (i : ℕ)
      → find_index (holds dev inum) c ≡ none
      → find_index is_empty c ≡ some i
      → Gotten dev inum c
  unfolding iget iget_at recycle_at
  got_fresh i e l =
      let (p, g, h) = find_index-some is_empty c l in
      let q : Inode = recycled dev inum p in
      inr (
        i,
        set c i q,
        p,
        q,
        rw e (rw l (rw (g, recycle_at) refl)),
        g,
        get_elem?-set_self c i q (lt_of_get_elem? c i g),
        inr (
          λ j r gr. not-IsFor dev inum r (find_index-none (holds dev inum) c e j gr),
          ground arith,
          refl,
        ),
        IsUnique-set c i p q u g (λ j r ne gr pos_r pos_q ed ei.
            ground (arith, find_index-none (holds dev inum) c e j gr)),
        λ j ne. get_elem?-set_ne c q ne,
      )

  got_full : find_index (holds dev inum) c ≡ none → find_index is_empty c ≡ none → Gotten dev inum c
  unfolding iget iget_at recycle_at
  got_full e l = inl (
    rw e (rw l refl),
    λ j p g. (
      ground (arith, find_index-none is_empty c l j g),
      not-IsFor dev inum p (find_index-none (holds dev inum) c e j g),
    ),
  )

-- In a cache with at most one used entry for an inode: iget panics only if every entry is used for
-- another inode. Otherwise it gives an entry: the used one for the inode, which gets one reference
-- more and keeps all else; or, if there is none, an entry without references, which is now for the
-- inode, with one reference and `valid` off. Every other entry is as before, and the cache has at
-- most one used entry for an inode again.
pub iget-Gotten : (dev inum : ℕ) (c : List Inode) → IsUnique c → Gotten dev inum c
iget-Gotten dev inum c u = elim (Option-cases (find_index (holds dev inum) c)) [
  | inr (i, e) ↦ got_held dev inum c u i e
  | inl e ↦ elim (Option-cases (find_index is_empty c)) [
    | inr (i, l) ↦ got_fresh dev inum c u i e l
    | inl l ↦ got_full dev inum c u e l
  ]
]
