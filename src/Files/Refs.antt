-- ===== src/Files/Refs.antt =====
-- The reference counts of the table of open files.
use os_lab.Prelude.{
  ◌⊎◌, ℕ, ◌∷◌, ◌+◌, get_elem?, ◌≡◌, [], some, set, arith, none, ◌<◌, zero, Option-cases, find_index,
  inl, ap, Option, inr, find_index-some, sym, ◌∙◌, refl, lt_of_get_elem?, set-set,
  get_elem?-set_self, set_same,
}
use os_lab.Files.{
  Table, File, get_elem?, some, set, filealloc, none, suc, filedup, ok, fileclose, nothing, closing,
  panic, filedup_panic, fileclose_panic, filealloc_at, filedup_at, fileclose_at, find_index,
  fd_none, is_free, Option,
}

-- The sum of the references to the entries.
pub refs : Table → ℕ
refs [] = 0
refs (f ∷ t) = f.ref + refs t

refs-set :
    (t : Table) (i : ℕ) (g : File) {f : File}
    → get_elem? t i ≡ some f
    → refs (set t i g) + f.ref ≡ refs t + g.ref
unfolding refs
refs-set [] i g h = cc
refs-set (x ∷ t) zero g h = ground arith
refs-set (x ∷ t) (suc i) g h = omega (arith, refs-set t i g h)

filealloc-none : (t : Table) → find_index is_free t ≡ none → filealloc t ≡ (none, t)
unfolding filealloc filealloc_at
filealloc-none t e = rw e refl

filealloc-some :
    (t : Table) (j : ℕ) (x : File)
    → find_index is_free t ≡ some j
    → get_elem? t j ≡ some x
    → filealloc t ≡ (some j, set t j (record x { ref = 1 }))
unfolding filealloc filealloc_at
filealloc-some t j x e g = rw e (rw (g, filealloc_at) refl)

-- filealloc takes a free entry, or finds none.
pub filealloc-cases :
    (t : Table)
    → (filealloc t ≡ (none, t))
      ⊎ ((i : ℕ) × (x : File) × (filealloc t ≡ (some i, set t i (record x { ref = 1 })))
          × (get_elem? t i ≡ some x)
          × (x.ref ≡ 0))
filealloc-cases t = elim (Option-cases (find_index is_free t)) [
  | inl e ↦ inl (filealloc-none t e)
  | inr (j, e) ↦
      let (x, gx, fr) = find_index-some is_free t e in
      inr (j, x, filealloc-some t j x e gx, gx, ground arith)
]

module _ (t : Table) (i : ℕ) (f : File) (g : get_elem? t i ≡ some f) where
  alloc_new : (filealloc t).0 ≡ some i → (f.ref ≡ 0) × (refs (filealloc t).1 ≡ refs t + 1)
  alloc_new h = elim (Option-cases (find_index is_free t)) [
    | inl e ↦ absurd (ground (arith, ap (λ (r : Option ℕ × Table). r.0) (filealloc-none t e)))
    | inr (j, e) ↦
        let (x, gx, fr) = find_index-some is_free t e in
        let step : filealloc t ≡ (some j, set t j (record x { ref = 1 })) =
          filealloc-some t j x e gx in
        let at : j ≡ i = ground (arith, ap (λ (r : Option ℕ × Table). r.0) step) in
        let same : some x ≡ some f = (sym gx ∙ ap (get_elem? t) at) ∙ g in
        let zero_refs : x.ref ≡ 0 = ground arith in
        (
          ground arith,
          ap (λ (r : Option ℕ × Table). refs r.1) step
              ∙ omega (arith, refs-set t j (record x { ref = 1 }) gx),
        )
  ]

  unused_panics :
      f.ref ≡ 0 → (filedup t i ≡ panic filedup_panic) × (fileclose t i ≡ panic fileclose_panic)
  unfolding filedup filedup_at fileclose fileclose_at
  unused_panics e = (rw (g, filedup_at) (ground arith), rw (g, fileclose_at) (ground arith))

-- filedup of an entry in use succeeds and adds one reference; the fileclose after it succeeds, hands
-- nothing on, and gives the table as it was before.
pub dup_close :
    (t : Table) (i : ℕ) (f : File)
    → get_elem? t i ≡ some f
    → 0 < f.ref
    → (t' : Table) × (filedup t i ≡ ok t')
      × (refs t' ≡ refs t + 1)
      × (fileclose t' i ≡ ok (nothing, t))
unfolding filedup filedup_at fileclose fileclose_at
dup_close t i f g used =
    let t' : Table = set t i (record f { ref = f.ref + 1 }) in
    let here : get_elem? t' i ≡ some (record f { ref = f.ref + 1 }) =
      get_elem?-set_self t i (record f { ref = f.ref + 1 }) (lt_of_get_elem? t i g) in
    let back : set t' i f ≡ t = set-set t i (record f { ref = f.ref + 1 }) f ∙ set_same t i g in
    (
      t',
      rw (g, filedup_at) (ground arith),
      omega (arith, refs-set t i (record f { ref = f.ref + 1 }) g),
      rw (here, fileclose_at) (ground (arith, back)),
    )

-- In a table with one reference to an entry, fileclose of the entry succeeds, takes the reference
-- away and hands the file on, to the pipe or the inode layer; a filedup or a fileclose after it
-- panics.
close_frees :
    (t : Table) (i : ℕ) (f : File)
    → get_elem? t i ≡ some f
    → f.ref ≡ 1
    → (t' : Table) × (fileclose t i ≡ ok (closing f, t'))
      × (refs t' + 1 ≡ refs t)
      × (filedup t' i ≡ panic filedup_panic)
      × (fileclose t' i ≡ panic fileclose_panic)
unfolding fileclose fileclose_at
close_frees t i f g e =
    let q : File = record f { ref = 0; type = fd_none } in
    let (a, b) =
      unused_panics (set t i q) i q (get_elem?-set_self t i q (lt_of_get_elem? t i g)) refl in
    (set t i q, rw (g, fileclose_at) (ground arith), omega (arith, refs-set t i q g), a, b)

-- If filealloc gives an entry, it was free before, and the table has one reference more.
pub filealloc-refs :
    (t : Table) (i : ℕ) (f : File)
    → get_elem? t i ≡ some f
    → (filealloc t).0 ≡ some i
    → (f.ref ≡ 0) × (refs (filealloc t).1 ≡ refs t + 1)
filealloc-refs t i f g h = alloc_new t i f g h
