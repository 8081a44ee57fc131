-- ===== src/Bcache/Get.antt =====
-- What bget gives its caller.
use os_lab.Prelude.{
  ℕ, ◌≡◌, ◌≢◌, ◌⊎◌, some, none, true, false, arith, get_elem?, Option-cases, find_index,
  find_index-some, find_index-none, inl, inr, set, get_elem?-set_self, get_elem?-set_ne,
  lt_of_get_elem?, Bool-cases, suc, zero, refl, [], ◌∷◌, Bool, ◌<◌, ◌+◌,
}
use os_lab.Bcache.{
  Buf, Cache, caches, is_idle, recycled, find_last_index, recycle_at, bget_at, bget, ok, panic,
  no_buffers,
}

last_index-some :
    (f : Buf → Bool) (c : Cache) {i : ℕ}
    → find_last_index f c ≡ some i
    → (b : Buf) × (get_elem? c i ≡ some b) × (f b ≡ true)
unfolding find_last_index
last_index-some f [] h = cc
last_index-some f (b ∷ bs) {i} h = elim (Option-cases (find_last_index f bs)) [
  | inr (j, e) ↦
      let (d, g, t) = last_index-some f bs e in let at : i ≡ suc j = ground arith in (d, rw at g, t)
  | inl e ↦ elim (Bool-cases (f b)) [
    | inl t ↦ let at : i ≡ 0 = ground arith in (b, rw at refl, t)
    | inr n ↦ absurd (ground arith)
  ]
]

last_index-none :
    (f : Buf → Bool) (c : Cache)
    → find_last_index f c ≡ none
    → (i : ℕ) {b : Buf} → get_elem? c i ≡ some b
    → f b ≡ false
unfolding find_last_index
last_index-none f [] h i g = cc
last_index-none f (b ∷ bs) h zero g = elim (Option-cases (find_last_index f bs)) [
  | inr (j, e) ↦ absurd (ground arith)
  | inl e ↦ ground arith
]
last_index-none f (b ∷ bs) h (suc i) g = elim (Option-cases (find_last_index f bs)) [
  | inr (j, e) ↦ absurd (ground arith)
  | inl e ↦ last_index-none f bs e i g
]

-- What the scan from head.prev passes is behind the index.
last_index-behind :
    (f : Buf → Bool) (c : Cache) (i : ℕ)
    → find_last_index f c ≡ some i
    → (j : ℕ) {b : Buf} → i < j
    → get_elem? c j ≡ some b
    → f b ≡ false
unfolding find_last_index
last_index-behind f [] i h j lt g = cc
last_index-behind f (b ∷ bs) i h zero lt g = absurd (omega arith)
last_index-behind f (b ∷ bs) i h (suc j) lt g = elim (Option-cases (find_last_index f bs)) [
  | inl e ↦ last_index-none f bs e j g
  | inr (l, e) ↦ let at : i ≡ suc l = ground arith in last_index-behind f bs l e j (omega arith) g
]

-- The buffer is for this block; nobody refers to it, and it has no writes that are not on disk.
abbrev Has : ℕ → ℕ → Buf → Type 0
Has dev blockno b = (b.dev ≡ dev) × (b.blockno ≡ blockno)

abbrev IsFree : Buf → Type 0
IsFree b = (b.refcnt ≡ 0) × (b.is_dirty ≡ false)

-- The buffer `old` of the cache `c`, at the index `i`, becomes `b`.
abbrev Hit : ℕ → ℕ → Buf → Buf → Type 0
Hit dev blockno old b = Has dev blockno old × (b ≡ record old { refcnt = old.refcnt + 1 })

abbrev Recycled : ℕ → ℕ → Cache → ℕ → Buf → Buf → Type 0
Recycled dev blockno c i old b =
    ((j : ℕ) (d : Buf) → get_elem? c j ≡ some d → ¬ Has dev blockno d)
    × IsFree old
    × ((j : ℕ) (d : Buf) → i < j → get_elem? c j ≡ some d → ¬ IsFree d)
    × (b ≡ record old {
      dev = dev;
      blockno = blockno;
      is_valid = false;
      is_dirty = false;
      refcnt = 1;
    })

-- The two outcomes of bget.
abbrev pub Got : ℕ → ℕ → Cache → Type 0
Got dev blockno c =
    ((bget dev blockno c ≡ panic no_buffers)
      × ((j : ℕ) (b : Buf) → get_elem? c j ≡ some b → (¬ Has dev blockno b) × (¬ IsFree b)))
    ⊎ ((i : ℕ) × (c' : Cache) × (old : Buf) × (b : Buf) × (bget dev blockno c ≡ ok (i, c'))
        × (get_elem? c i ≡ some old)
        × (get_elem? c' i ≡ some b)
        × (Hit dev blockno old b ⊎ Recycled dev blockno c i old b)
        × ((j : ℕ) → i ≢ j → get_elem? c' j ≡ get_elem? c j))

not-Has : (dev blockno : ℕ) (b : Buf) → caches dev blockno b ≡ false → ¬ Has dev blockno b
not-Has dev blockno b e (p, q) = ground arith

not-IsFree : (b : Buf) → is_idle b ≡ false → ¬ IsFree b
not-IsFree b e (p, q) = ground arith

is_idle-IsFree : (b : Buf) → is_idle b ≡ true → IsFree b
is_idle-IsFree b e = (ground arith, ground arith)

module _ (dev blockno : ℕ) (c : Cache) where
  Got-cached : (i : ℕ) → find_index (caches dev blockno) c ≡ some i → Got dev blockno c
  unfolding bget bget_at
  Got-cached i e =
      let (b, g, t) = find_index-some (caches dev blockno) c e in
      let b' : Buf = record b { refcnt = b.refcnt + 1 } in
      inr (
        i,
        set c i b',
        b,
        b',
        rw e (rw (g, bget_at) refl),
        g,
        get_elem?-set_self c i b' (lt_of_get_elem? c i g),
        inl ((ground arith, ground arith), refl),
        λ j ne. get_elem?-set_ne c b' ne,
      )

  Got-recycled :
      (i : ℕ)
      → find_index (caches dev blockno) c ≡ none
      → find_last_index is_idle c ≡ some i
      → Got dev blockno c
  unfolding bget bget_at recycle_at
  Got-recycled i e l =
      let (b, g, t) = last_index-some is_idle c l in
      let b' : Buf = recycled dev blockno b in
      inr (
        i,
        set c i b',
        b,
        b',
        rw e (rw l (rw (g, recycle_at) refl)),
        g,
        get_elem?-set_self c i b' (lt_of_get_elem? c i g),
        inr (
          λ j d gd. not-Has dev blockno d (find_index-none (caches dev blockno) c e j gd),
          is_idle-IsFree b t,
          λ j d lt gd. not-IsFree d (last_index-behind is_idle c i l j lt gd),
          refl,
        ),
        λ j ne. get_elem?-set_ne c b' ne,
      )

  Got-none :
      find_index (caches dev blockno) c ≡ none
      → find_last_index is_idle c ≡ none
      → Got dev blockno c
  unfolding bget bget_at recycle_at
  Got-none e l = inl (
    rw e (rw l refl),
    λ j b g. (
      not-Has dev blockno b (find_index-none (caches dev blockno) c e j g),
      not-IsFree b (last_index-none is_idle c l j g),
    ),
  )

-- bget panics only if no buffer is for the block and none is free, that is, without references and
-- not dirty. Otherwise it gives the place of a buffer: one that is for the block, which gets one
-- reference more and keeps all else; or, if there is none, the last free one of the list, the least
-- recently used, which is now for the block, with one reference and B_VALID and B_DIRTY off. Every
-- other buffer is as it was.
pub bget-Got : (dev blockno : ℕ) (c : Cache) → Got dev blockno c
bget-Got dev blockno c = elim (Option-cases (find_index (caches dev blockno) c)) [
  | inr (i, e) ↦ Got-cached dev blockno c i e
  | inl e ↦ elim (Option-cases (find_last_index is_idle c)) [
    | inr (i, l) ↦ Got-recycled dev blockno c i e l
    | inl l ↦ Got-none dev blockno c e l
  ]
]
