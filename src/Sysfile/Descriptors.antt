-- ===== src/Sysfile/Descriptors.antt =====
-- The descriptors of a process: what fdalloc, filealloc and the reading of an argument give.
use os_lab.Prelude.{
  ℕ, List, Option, ◌≡◌, ◌⊎◌, true, get_or, none, get_elem?, some, arith, set, ◌<◌, ◌∷◌,
  Option-cases, count-set, inl, count-pos_of_get, refl, suc, find_index, inr, find_index-some, [],
  ◌∙◌, zero, ap,
}
use os_lab.Prelude.Int.{ℤ, pos_part, to_int}
use os_lab.Files.{File, filealloc}
use os_lab.Files.Refs.{filealloc-cases}
use os_lab.Sysfile.{Sys, argfd, argfd_at, fdalloc, fdalloc_at, has_no_file, argint}
use os_lab.Sysfile.Counts.{Counted, with_one, names, ref_at, Counted-set}
use os_lab.Syscall.{argint}

none_of_has_no_file : (d : Option ℕ) → has_no_file d ≡ true → d ≡ none
none_of_has_no_file none h = refl
none_of_has_no_file (some f) h = absurd (ground arith)

get_or-get_elem? :
    (o : List (Option ℕ)) (i : ℕ) (f : ℕ) → get_or o i none ≡ some f → get_elem? o i ≡ some (some f)
get_or-get_elem? [] i f h = ground arith
get_or-get_elem? (x ∷ o) zero f h = ground arith
get_or-get_elem? (x ∷ o) (suc i) f h = get_or-get_elem? o i f h

module _ (s : Sys) (o : ℕ → ℕ) where
  -- fdalloc gives a descriptor that was free, or finds none.
  pub fdalloc-cases :
      (f : ℕ)
      → (fdalloc f s ≡ (none, s))
        ⊎ ((fd : ℕ) × (get_elem? s.ofile fd ≡ some none)
            × (fdalloc f s ≡ (some fd, record s { ofile = set s.ofile fd (some f) })))
  unfolding fdalloc fdalloc_at
  fdalloc-cases f = elim (Option-cases (find_index has_no_file s.ofile)) [
    | inl e ↦ inl (rw (e, fdalloc_at) refl)
    | inr (fd, e) ↦
        let (d, g, u) = find_index-some has_no_file s.ofile e in
        inr (fd, g ∙ ap some (none_of_has_no_file d u), rw (e, fdalloc_at) refl)
  ]

  -- A free descriptor takes the reference in hand.
  pub put-Counted :
      (fd f : ℕ)
      → get_elem? s.ofile fd ≡ some none
      → Counted (with_one f o) s
      → Counted o (record s { ofile = set s.ofile fd (some f) })
  put-Counted fd f g c i = omega (arith, c i, count-set (names i) s.ofile fd (some f) g)

  -- Taking a descriptor away leaves its reference in hand.
  pub drop-Counted :
      (fd f : ℕ)
      → get_elem? s.ofile fd ≡ some (some f)
      → Counted o s
      → Counted (with_one f o) (record s { ofile = set s.ofile fd none })
  drop-Counted fd f g c i = omega (arith, c i, count-set (names i) s.ofile fd none g)

  -- filealloc puts the reference to a free entry in hand, or finds none.
  pub filealloc-Counted :
      Counted o s
      → (filealloc s.files ≡ (none, s.files))
        ⊎ ((f : ℕ) × (x : File) × (filealloc s.files
              ≡ (some f, set s.files f (record x { ref = 1 })))
            × (get_elem? s.files f ≡ some x)
            × (x.ref ≡ 0)
            × Counted (with_one f o) (record s { files = set s.files f (record x { ref = 1 }) }))
  filealloc-Counted c = elim (filealloc-cases s.files) [
    | inl e ↦ inl e
    | inr (f, x, e, g, z) ↦ inr (
      f,
      x,
      e,
      g,
      z,
      Counted-set s.files f g (record x { ref = 1 }) o (with_one f o) s refl (λ i. ground arith) c,
    )
  ]

  -- A file that a descriptor names has a reference.
  pub ref_of_descriptor :
      (fd f : ℕ) → get_elem? s.ofile fd ≡ some (some f) → Counted o s → 0 < ref_at s.files f
  ref_of_descriptor fd f g c =
      omega (arith, c f, count-pos_of_get (names f) s.ofile fd g (ground arith))

argfd_at-in_use :
    (o : List (Option ℕ)) (v : ℤ) (fd f : ℕ)
    → argfd_at o v ≡ some (fd, f)
    → get_elem? o fd ≡ some (some f)
unfolding argfd_at
argfd_at-in_use o v fd f h = elim (Option-cases (get_or o (pos_part v) none)) [
  | inl e ↦ absurd (ground arith)
  | inr (f', e) ↦ ground (arith, get_or-get_elem? o (pos_part v) f' e)
]

module _ (size esp : ℕ) (s : Sys) (n : ℕ) where
  -- The descriptor that argfd reads is in use.
  pub argfd-in_use :
      (fd f : ℕ) → argfd size esp s n ≡ some (fd, f) → get_elem? s.ofile fd ≡ some (some f)
  unfolding argfd
  argfd-in_use fd f h = elim (Option-cases (argint s.memory size esp n)) [
    | inl e ↦ absurd (ground arith)
    | inr (w, e) ↦ argfd_at-in_use s.ofile (to_int w) fd f (ground arith)
  ]
