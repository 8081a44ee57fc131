-- ===== src/Sysfile/Install.antt =====
-- sys_pipe: the two descriptors of a pipe, and the way back when there are not two.
use os_lab.Prelude.{
  ℕ, ◌≡◌, ◌+◌, set, get_elem?, ◌⊎◌, some, none, inl, ◌≢◌, ap, get_elem?-set_self, ◌∙◌,
  lt_of_get_elem?, set-set, inr, set_same, subst, sym, arith, get_elem?-set_ne, Option, false, true,
  Option-cases, refl,
}
use os_lab.Prelude.Int.{ℤ, pos, negsuc}
use os_lab.Files.{Result, ok, Table}
use os_lab.Sysfile.{
  Sys, fdalloc, first_fd, second_fd, store_word, reply, drop_descriptor, pipe_fds, sys_pipe,
  pipealloc, argptr,
}
use os_lab.Sysfile.Counts.{Counted, with_one}
use os_lab.Sysfile.Pipes.{close_both, IsEnd, pipealloc-cases}
use os_lab.Sysfile.Descriptors.{fdalloc-cases, put-Counted, drop-Counted}
use os_lab.Syscall.{argptr}

-- -1, with the descriptors as they were.
abbrev pub Refused : (ℕ → ℕ) → Sys → Result (ℤ × Sys) → Type 0
Refused o s r = (s' : Sys) × (r ≡ ok (negsuc 0, s')) × (s'.ofile ≡ s.ofile) × Counted o s'

-- 0, with the files `rf` and `wf` in two free descriptors whose numbers are stored at `a`.
abbrev pub Installed : (ℕ → ℕ) → Sys → ℕ → ℕ → ℕ → Result (ℤ × Sys) → Type 0
Installed o s a rf wf r =
    (fd0 : ℕ) × (fd1 : ℕ) × (r
      ≡ ok (
        pos 0,
        record s {
          ofile = set (set s.ofile fd0 (some rf)) fd1 (some wf);
          memory = store_word (a + 4) fd1 (store_word a fd0 s.memory);
        },
      ))
    × (get_elem? s.ofile fd0 ≡ some none)
    × (get_elem? s.ofile fd1 ≡ some none)
    × (fd0 ≢ fd1)
    × Counted o (record s { ofile = set (set s.ofile fd0 (some rf)) fd1 (some wf) })

module _ (s : Sys) (o : ℕ → ℕ) (a rf wf : ℕ) (c : Counted (with_one rf (with_one wf o)) s) where
  second_fd-cases :
      (fd0 : ℕ)
      → get_elem? s.ofile fd0 ≡ some none
      → Refused o s
          (second_fd a rf wf fd0 (fdalloc wf (record s { ofile = set s.ofile fd0 (some rf) })))
        ⊎ Installed o s a rf wf
            (second_fd a rf wf fd0 (fdalloc wf (record s { ofile = set s.ofile fd0 (some rf) })))
  unfolding second_fd
  second_fd-cases fd0 free =
      let s1 : Sys = record s { ofile = set s.ofile fd0 (some rf) } in
      let c1 : Counted (with_one wf o) s1 = put-Counted s (with_one wf o) fd0 rf free c in
      let here : get_elem? s1.ofile fd0 ≡ some (some rf) =
        get_elem?-set_self s.ofile fd0 (some rf) (lt_of_get_elem? s.ofile fd0 free) in
      elim (fdalloc-cases s1 o wf) [
        | inl e ↦
            let back = set-set s.ofile fd0 (some rf) none ∙ set_same s.ofile fd0 free in
            let (s', d, k, c') =
              close_both (drop_descriptor fd0 s1) rf wf o
                (drop-Counted s1 (with_one wf o) fd0 rf here c1) in
            inl (s', ap (second_fd a rf wf fd0) e ∙ ap (reply (negsuc 0)) d, k ∙ back, c')
        | inr (fd1, free1, e) ↦
            let ne : fd0 ≢ fd1 = λ q. absurd (ground (arith, here, free1, q)) in
            inr (
              fd0,
              fd1,
              ap (second_fd a rf wf fd0) e,
              free,
              sym (get_elem?-set_ne s.ofile (some rf) ne) ∙ free1,
              ne,
              put-Counted s1 o fd1 wf free1 c1,
            )
      ]

  pub first_fd-cases :
      Refused o s (first_fd a rf wf (fdalloc rf s))
      ⊎ Installed o s a rf wf (first_fd a rf wf (fdalloc rf s))
  unfolding first_fd
  first_fd-cases = elim (fdalloc-cases s o rf) [
    | inl e ↦
        let (s', d, k, c') = close_both s rf wf o c in
        inl (s', ap (first_fd a rf wf) e ∙ ap (reply (negsuc 0)) d, k, c')
    | inr (fd0, free, e) ↦
        subst (λ r. Refused o s r ⊎ Installed o s a rf wf r) (sym (ap (first_fd a rf wf) e))
          (second_fd-cases fd0 free)
  ]

pipe_fds-cases :
    (s : Sys) (o : ℕ → ℕ) (a : ℕ) (page : Option ℕ)
    → Counted o s
    → Refused o s (pipe_fds a (pipealloc page s))
      ⊎ ((rf : ℕ) × (wf : ℕ) × (p : ℕ) × (t : Table) × (page ≡ some p)
          × Installed o (record s { files = t }) a rf wf (pipe_fds a (pipealloc page s))
          × IsEnd t p rf false
          × IsEnd t p wf true)
unfolding pipe_fds
pipe_fds-cases s o a page c = elim (pipealloc-cases s o c page) [
  | inl (s', e, k, c') ↦ inl (s', ap (pipe_fds a) e, k, c')
  | inr (rf, wf, p, t, q, e, c', r, w) ↦
      let s1 : Sys = record s { files = t } in
      let step : pipe_fds a (pipealloc page s) ≡ first_fd a rf wf (fdalloc rf s1) =
        ap (pipe_fds a) e in
      elim (first_fd-cases s1 o a rf wf c') [
        | inl (s', d, k, c2) ↦ inl (s', step ∙ d, k, c2)
        | inr i ↦ inr (rf, wf, p, t, q, subst (Installed o s1 a rf wf) (sym step) i, r, w)
      ]
]

-- From a state in which every entry counts its references, sys_pipe returns without a panic, every
-- entry counts its references again, and one of two things has happened. Either it gives -1, and the
-- descriptors are as they were; or it gives 0, kalloc gave a page, two different descriptors that were
-- free name two files, the ends of one pipe in that page that read and write, and their numbers stand in
-- user memory at the address that the process gave.
pub sys_pipe_lem :
    (size esp : ℕ) (s : Sys) (o : ℕ → ℕ) (page : Option ℕ)
    → Counted o s
    → Refused o s (sys_pipe size esp page s)
      ⊎ ((a : ℕ) × (rf : ℕ) × (wf : ℕ) × (p : ℕ) × (t : Table) × (page ≡ some p)
          × (argptr s.memory size esp 0 (pos 8) ≡ some a)
          × Installed o (record s { files = t }) a rf wf (sys_pipe size esp page s)
          × IsEnd t p rf false
          × IsEnd t p wf true)
unfolding sys_pipe
sys_pipe_lem size esp s o page c = elim (Option-cases (argptr s.memory size esp 0 (pos 8))) [
  | inl e ↦ inl (s, rw (e, sys_pipe) refl, refl, c)
  | inr (a, e) ↦
      let step : sys_pipe size esp page s ≡ pipe_fds a (pipealloc page s) = rw (e, sys_pipe) refl in
      elim (pipe_fds-cases s o a page c) [
        | inl w ↦ inl (subst (Refused o s) (sym step) w)
        | inr (rf, wf, p, t, q, i, r, w) ↦ inr (
          a,
          rf,
          wf,
          p,
          t,
          q,
          e,
          subst (Installed o (record s { files = t }) a rf wf) (sym step) i,
          r,
          w,
        )
      ]
]
