-- ===== src/Sysfile/Counts.antt =====
-- The reference counts of the table of open files, and the descriptors that they count.
use os_lab.Prelude.{
  ℕ, Bool, Option, get_elem?, if◌then◌else◌, ◌==◌, some, set, none, ◌+◌, ◌-◌, false, ◌≡◌, ◌<◌, refl,
  sym, ap, ◌∙◌, arith, inl, inr, count, bit, get_elem?-set, Bool-cases, ltb, ◌∷◌, true,
}
use os_lab.Files.{
  Table, File, ok, filedup, fileclose, filedup_at, fileclose_at, fd_none, closing, nothing,
}
use os_lab.Sysfile.{Sys, close_entry}

-- The references of an entry; none past the end of the table.
abbrev pub ref_of : Option File → ℕ
ref_of none = 0
ref_of (some x) = x.ref

abbrev pub ref_at : Table → ℕ → ℕ
ref_at t i = ref_of (get_elem? t i)

abbrev pub names : ℕ → Option ℕ → Bool
names i none = false
names i (some j) = i == j

-- Every entry counts the descriptors of the process that name it, and those that others hold.
abbrev pub Counted : (ℕ → ℕ) → Sys → Type 0
Counted others s = (i : ℕ) → ref_at s.files i ≡ count (names i) s.ofile + others i

-- One reference to `f` more, in the hands of the code.
abbrev pub with_one : ℕ → (ℕ → ℕ) → ℕ → ℕ
with_one f others i = others i + bit (i == f)

get_of_ref : (o : Option File) → 0 < ref_of o → (x : File) × (o ≡ some x)
get_of_ref none h = absurd (omega arith)
get_of_ref (some x) h = (x, refl)

module _ (t : Table) (f : ℕ) {x : File} (g : get_elem? t f ≡ some x) where
  ref_at-set : (y : File) (i : ℕ) → ref_at (set t f y) i ≡ (if i == f then y.ref else ref_at t i)
  ref_at-set y i = ap ref_of (get_elem?-set t f i y g) ∙ ground arith

  -- A write that changes the count of one entry.
  pub Counted-set :
      (y : File) (o o' : ℕ → ℕ) (s : Sys)
      → s.files ≡ t
      → ((i : ℕ) → o' i + (if i == f then x.ref else 0) ≡ o i + (if i == f then y.ref else 0))
      → Counted o s
      → Counted o' (record s { files = set t f y })
  Counted-set y o o' s e d c i =
      let here : ref_at t f ≡ x.ref = ap ref_of g in
      let old : ref_at t i ≡ count (names i) s.ofile + o i = ap (λ z. ref_at z i) (sym e) ∙ c i in
      let move = d i in
      elim (Bool-cases (i == f)) [
        | inl q ↦
            let same : i ≡ f = ground arith in
            let at : ref_at t i ≡ x.ref = ap (ref_at t) same ∙ here in
            ground (arith, ref_at-set y i)
        | inr n ↦ ground (arith, ref_at-set y i)
      ]

module _ (s : Sys) (f : ℕ) (x : File) (g : get_elem? s.files f ≡ some x) (used : 0 < x.ref) where
  filedup_used : filedup s.files f ≡ ok (set s.files f (record x { ref = x.ref + 1 }))
  unfolding filedup filedup_at
  filedup_used = rw (g, filedup_at) (ground arith)

  close_shared :
      ltb 0 (x.ref - 1) ≡ true
      → close_entry f s
        ≡ ok (record s {
          files = set s.files f (record x { ref = x.ref - 1 });
          closed = nothing ∷ s.closed;
        })
  unfolding close_entry fileclose fileclose_at
  close_shared more =
      let e : fileclose s.files f ≡ ok (nothing, set s.files f (record x { ref = x.ref - 1 })) =
        rw (g, fileclose_at) (ground arith) in
      rw (e, close_entry) refl

  close_last :
      ltb 0 (x.ref - 1) ≡ false
      → close_entry f s
        ≡ ok (record s {
          files = set s.files f (record x { ref = 0; type = fd_none });
          closed = closing x ∷ s.closed;
        })
  unfolding close_entry fileclose fileclose_at
  close_last last =
      let e : fileclose s.files f
          ≡ ok (closing x, set s.files f (record x { ref = 0; type = fd_none })) =
        rw (g, fileclose_at) (ground arith) in
      rw (e, close_entry) refl

-- filedup puts a reference in hand.
pub filedup-Counted :
    (s : Sys) (f : ℕ) (o : ℕ → ℕ)
    → Counted o s
    → 0 < ref_at s.files f
    → (t : Table) × (filedup s.files f ≡ ok t) × Counted (with_one f o) (record s { files = t })
filedup-Counted s f o c p =
    let (x, g) = get_of_ref (get_elem? s.files f) p in
    let y : File = record x { ref = x.ref + 1 } in
    let used : 0 < x.ref = omega (arith, ap ref_of g) in
    (
      set s.files f y,
      filedup_used s f x g used,
      Counted-set s.files f g y o (with_one f o) s refl (λ i. ground arith) c,
    )

-- A reference in hand is a reference of the entry.
ref_of_hand : (s : Sys) (f : ℕ) (o : ℕ → ℕ) → Counted (with_one f o) s → 0 < ref_at s.files f
ref_of_hand s f o c =
    let at : ref_at s.files f ≡ count (names f) s.ofile + (o f + bit (f == f)) = c f in
    let self : bit (f == f) ≡ 1 = ground arith in omega arith

-- fileclose takes the one in hand.
pub close_entry-Counted :
    (s : Sys) (f : ℕ) (o : ℕ → ℕ)
    → Counted (with_one f o) s
    → (s' : Sys) × (close_entry f s ≡ ok s') × (s'.ofile ≡ s.ofile) × Counted o s'
close_entry-Counted s f o c =
    let (x, g) = get_of_ref (get_elem? s.files f) (ref_of_hand s f o c) in
    let used : 0 < x.ref = omega (arith, ap ref_of g, ref_of_hand s f o c) in
    elim (Bool-cases (ltb 0 (x.ref - 1))) [
      | inl more ↦
          let y : File = record x { ref = x.ref - 1 } in
          (
            record s { files = set s.files f y; closed = nothing ∷ s.closed },
            close_shared s f x g used more,
            refl,
            Counted-set s.files f g y (with_one f o) o s refl (λ i. ground arith) c,
          )
      | inr last ↦
          let y : File = record x { ref = 0; type = fd_none } in
          (
            record s { files = set s.files f y; closed = closing x ∷ s.closed },
            close_last s f x g used last,
            refl,
            Counted-set s.files f g y (with_one f o) o s refl (λ i. ground arith) c,
          )
    ]
