-- ===== src/Sysfile/Pipes.antt =====
-- pipealloc and sys_pipe: the references that they take, and give back when they fail.
use os_lab.Prelude.{
  ℕ, Option, ◌≡◌, Bool, get_elem?, some, arith, none, ◌⊎◌, not, false, set, ap, subst, true, inl,
  ◌∙◌, sym, inr, get_elem?-set_self, lt_of_get_elem?, refl, ◌≢◌, get_elem?-set_ne,
}
use os_lab.Files.{Table, File, Result, ok, fd_pipe}
use os_lab.Sysfile.{Sys, pipealloc, pipe_ends, close_entry, then_close, update, pipe_end, no_pipe}
use os_lab.Sysfile.Counts.{Counted, with_one, close_entry-Counted, Counted-set}
use os_lab.Sysfile.Descriptors.{filealloc-Counted}

-- The file `f` is the end of the pipe `p` that writes, or the one that reads.
abbrev pub IsEnd : Table → ℕ → ℕ → Bool → Type 0
IsEnd t p f writes =
    (x : File) × (get_elem? t f ≡ some x)
    × (x.type ≡ fd_pipe)
    × (x.pipe ≡ p)
    × (x.readable ≡ not writes)
    × (x.writable ≡ writes)

update_at :
    (t : Table) (f : ℕ) (h : File → File) {x : File}
    → get_elem? t f ≡ some x
    → update t f h ≡ set t f (h x)
update_at t f h g = rw (g, update) refl

pipe_end-IsEnd :
    (t : Table) (f p : ℕ) (w : Bool) {x : File}
    → get_elem? t f ≡ some x
    → IsEnd (update t f (pipe_end p w)) p f w
pipe_end-IsEnd t f p w {x} g = (
  pipe_end p w x,
  ap (λ z. get_elem? z f) (update_at t f (pipe_end p w) g)
      ∙ get_elem?-set_self t f (pipe_end p w x) (lt_of_get_elem? t f g),
  refl,
  refl,
  refl,
  refl,
)

IsEnd-kept :
    (t : Table) (p f f' : ℕ) (w : Bool) (h : File → File) {x' : File}
    → get_elem? t f' ≡ some x'
    → f' ≢ f
    → IsEnd t p f w
    → IsEnd (update t f' h) p f w
IsEnd-kept t p f f' w h {x'} g ne (x, at, a, b, c, d) = (
  x,
  ap (λ z. get_elem? z f) (update_at t f' h g) ∙ (get_elem?-set_ne t (h x') ne ∙ at),
  a,
  b,
  c,
  d,
)

-- Two references in hand are closed, the first and then the second.
pub close_both :
    (s : Sys) (rf wf : ℕ) (o : ℕ → ℕ)
    → Counted (with_one rf (with_one wf o)) s
    → (s' : Sys) × (then_close (some wf) (close_entry rf s) ≡ ok s')
      × (s'.ofile ≡ s.ofile)
      × Counted o s'
close_both s rf wf o c =
    let (s1, e1, k1, c1) = close_entry-Counted s rf (with_one wf o) c in
    let (s2, e2, k2, c2) = close_entry-Counted s1 wf o c1 in
    (s2, ap (then_close (some wf)) e1 ∙ e2, k2 ∙ k1, c2)

swap_hands :
    (s : Sys) (a b : ℕ) (o : ℕ → ℕ)
    → Counted (with_one a (with_one b o)) s
    → Counted (with_one b (with_one a o)) s
swap_hands s a b o c i = omega (arith, c i)

pub update-Counted :
    (s : Sys) (f : ℕ) (h : File → File) (o : ℕ → ℕ) {x : File}
    → get_elem? s.files f ≡ some x
    → (h x).ref ≡ x.ref
    → Counted o s
    → Counted o (record s { files = update s.files f h })
update-Counted s f h o {x} g same c =
    subst (λ t. Counted o (record s { files = t })) (sym (update_at s.files f h g))
      (Counted-set s.files f g (h x) o o s refl (λ i. ground (arith, same)) c)

module _ (s : Sys) (o : ℕ → ℕ) (c : Counted o s) where
  -- What pipealloc does when it gives -1.
  abbrev NoPipe : Result (Option (ℕ × ℕ) × Sys) → Type 0
  NoPipe r = (s' : Sys) × (r ≡ ok (none, s')) × (s'.ofile ≡ s.ofile) × Counted o s'

  -- Two files, each with one reference in hand.
  abbrev NewPipe : Option ℕ → Result (Option (ℕ × ℕ) × Sys) → Type 0
  NewPipe page r =
      (rf : ℕ) × (wf : ℕ) × (p : ℕ) × (t : Table) × (page ≡ some p)
      × (r ≡ ok (some (rf, wf), record s { files = t }))
      × Counted (with_one rf (with_one wf o)) (record s { files = t })
      × IsEnd t p rf false
      × IsEnd t p wf true

  pipe_two :
      (page : Option ℕ) (t : Table) (f0 f1 : ℕ) {x0 x1 : File}
      → get_elem? t f0 ≡ some x0
      → get_elem? t f1 ≡ some x1
      → f1 ≢ f0
      → Counted (with_one f0 (with_one f1 o)) (record s { files = t })
      → NoPipe (pipe_ends (some f0) (some f1) page (record s { files = t }))
        ⊎ NewPipe page (pipe_ends (some f0) (some f1) page (record s { files = t }))
  unfolding pipe_ends
  pipe_two none t f0 f1 g0 g1 ne c2 =
      let (s', e, k, c') = close_both (record s { files = t }) f0 f1 o c2 in
      inl (s', ap no_pipe e, k, c')
  pipe_two (some p) t f0 f1 {x0} {x1} g0 g1 ne c2 =
      let t1 : Table = update t f0 (pipe_end p false) in
      let o2 : ℕ → ℕ = with_one f0 (with_one f1 o) in
      let here : IsEnd t1 p f0 false = pipe_end-IsEnd t f0 p false g0 in
      let there : get_elem? t1 f1 ≡ some x1 =
        ap (λ z. get_elem? z f1) (update_at t f0 (pipe_end p false) g0)
        ∙ (get_elem?-set_ne t (pipe_end p false x0) (λ q. ne (sym q)) ∙ g1) in
      let a = update-Counted (record s { files = t }) f0 (pipe_end p false) o2 g0 refl c2 in
      let b = update-Counted (record s { files = t1 }) f1 (pipe_end p true) o2 there refl a in
      inr (
        f0,
        f1,
        p,
        update t1 f1 (pipe_end p true),
        refl,
        refl,
        b,
        IsEnd-kept t1 p f0 f1 false (pipe_end p true) there ne here,
        pipe_end-IsEnd t1 f1 p true there,
      )

  pub pipealloc-cases :
      (page : Option ℕ) → NoPipe (pipealloc page s) ⊎ NewPipe page (pipealloc page s)
  unfolding pipealloc pipe_ends
  pipealloc-cases page = elim (filealloc-Counted s o c) [
    | inl e ↦ inl (s, rw (e, pipealloc) refl, refl, c)
    | inr (f0, x0, e0, g0, z0, c0) ↦
        let t1 : Table = set s.files f0 (record x0 { ref = 1 }) in
        let s1 : Sys = record s { files = t1 } in
        let at0 : get_elem? t1 f0 ≡ some (record x0 { ref = 1 }) =
          get_elem?-set_self s.files f0 (record x0 { ref = 1 }) (lt_of_get_elem? s.files f0 g0) in
        elim (filealloc-Counted s1 (with_one f0 o) c0) [
          | inl e1 ↦
              let (s', e, k, c') = close_entry-Counted s1 f0 o c0 in
              inl (s', rw (e0, pipealloc) (rw e1 (ap no_pipe e)), k, c')
          | inr (f1, x1, e1, g1, z1, c1) ↦
              let y1 : File = record x1 { ref = 1 } in
              let ne : f1 ≢ f0 = λ q. absurd (ground (arith, at0, g1, z1, q)) in
              let two =
                pipe_two page (set t1 f1 y1) f0 f1 (get_elem?-set_ne t1 y1 ne ∙ at0)
                  (get_elem?-set_self t1 f1 y1 (lt_of_get_elem? t1 f1 g1)) ne
                  (swap_hands (record s { files = set t1 f1 y1 }) f1 f0 o c1) in
              let step : pipealloc page s
                  ≡ pipe_ends (some f0) (some f1) page (record s { files = set t1 f1 y1 }) =
                rw (e0, pipealloc) (rw e1 refl) in
              subst (λ r. NoPipe r ⊎ NewPipe page r) (sym step) two
        ]
  ]
