-- ===== src/Sysfile/Handlers.antt =====
-- The handlers of the calls on descriptors, and the reference counts.
use os_lab.Prelude.{
  ℕ, ◌≡◌, ◌<◌, Option-cases, inl, ap, inr, set, some, refl, ◌∙◌, Option, List, get_elem?,
  get_elem?-set_self, lt_of_get_elem?, ◌∷◌, [],
}
use os_lab.Prelude.Int.{ℤ, pos, negsuc}
use os_lab.Files.{Result, ok, File, panic}
use os_lab.Sysfile.{
  Sys, argfd, fdalloc, dup_into, sys_dup, sys_close, drop_descriptor, reply, open_fd, open_file,
  sys_pipe, open_with, Memory, update, inode_file,
}
use os_lab.Sysfile.Counts.{Counted, ref_at, filedup-Counted, close_entry-Counted, with_one}
use os_lab.Sysfile.Descriptors.{
  fdalloc-cases, argfd-in_use, ref_of_descriptor, drop-Counted, put-Counted, filealloc-Counted,
}
use os_lab.Sysfile.Install.{sys_pipe_lem}
use os_lab.Syscall.{Memory}
use os_lab.Sysfile.Pipes.{update-Counted}

-- The call returns, and every entry still counts its references.
abbrev pub Kept : (ℕ → ℕ) → Result (ℤ × Sys) → Type 0
Kept o r = (n : ℤ) × (s' : Sys) × (r ≡ ok (n, s')) × Counted o s'

module _ (s : Sys) (o : ℕ → ℕ) (c : Counted o s) where
  dup_into-Kept : (f : ℕ) → 0 < ref_at s.files f → Kept o (dup_into f (fdalloc f s))
  unfolding dup_into
  dup_into-Kept f used = elim (fdalloc-cases s o f) [
    | inl e ↦ (negsuc 0, s, ap (dup_into f) e, c)
    | inr (fd, free, e) ↦
        let (t, d, c') = filedup-Counted s f o c used in
        let s' : Sys = record s { files = t } in
        (
          pos fd,
          record s' { ofile = set s.ofile fd (some f) },
          ap (dup_into f) e ∙ (rw (d, dup_into) refl),
          put-Counted s' o fd f free c',
        )
  ]

  module _ (size esp : ℕ) where
    sys_dup-Kept : Kept o (sys_dup size esp s)
    unfolding sys_dup
    sys_dup-Kept = elim (Option-cases (argfd size esp s 0)) [
      | inl e ↦ (negsuc 0, s, rw (e, sys_dup) refl, c)
      | inr ((fd, f), e) ↦
          let g = argfd-in_use size esp s 0 fd f e in
          let (n, s', d, c') = dup_into-Kept f (ref_of_descriptor s o fd f g c) in
          (n, s', rw (e, sys_dup) d, c')
    ]

    sys_close-Kept : Kept o (sys_close size esp s)
    unfolding sys_close
    sys_close-Kept = elim (Option-cases (argfd size esp s 0)) [
      | inl e ↦ (negsuc 0, s, rw (e, sys_close) refl, c)
      | inr ((fd, f), e) ↦
          let g = argfd-in_use size esp s 0 fd f e in
          let (s', d, _, c') =
            close_entry-Counted (drop_descriptor fd s) f o (drop-Counted s o fd f g c) in
          (pos 0, s', rw (e, sys_close) (ap (reply (pos 0)) d), c')
    ]

    sys_pipe-Kept : (page : Option ℕ) → Kept o (sys_pipe size esp page s)
    sys_pipe-Kept page = elim (sys_pipe_lem size esp s o page c) [
      | inl (s', e, _, c') ↦ (negsuc 0, s', e, c')
      | inr (_, _, _, _, _, _, _, (_, _, e, _, _, _, c'), _, _) ↦ (pos 0, _, e, c')
    ]

  open_fd-Kept :
      (ip omode f : ℕ) (x : File)
      → (s1 : Sys) → get_elem? s1.files f ≡ some x
      → Counted (with_one f o) s1
      → Kept o (open_fd ip omode f (fdalloc f s1))
  unfolding open_fd
  open_fd-Kept ip omode f x s1 g c1 = elim (fdalloc-cases s1 o f) [
    | inl e ↦
        let (s', d, _, c') = close_entry-Counted s1 f o c1 in
        (negsuc 0, s', ap (open_fd ip omode f) e ∙ ap (reply (negsuc 0)) d, c')
    | inr (fd, free, e) ↦
        let s2 : Sys = record s1 { ofile = set s1.ofile fd (some f) } in
        (
          pos fd,
          record s2 { files = update s2.files f (inode_file ip omode) },
          ap (open_fd ip omode f) e,
          update-Counted s2 f (inode_file ip omode) o g refl (put-Counted s1 o fd f free c1),
        )
  ]

  open_file-Kept : (ip omode : ℕ) → Kept o (open_file ip omode s)
  unfolding open_file open_with
  open_file-Kept ip omode = elim (filealloc-Counted s o c) [
    | inl e ↦ (negsuc 0, s, rw (e, open_file) refl, c)
    | inr (f, x, e, g, z, c1) ↦
        let y : File = record x { ref = 1 } in
        let s1 : Sys = record s { files = set s.files f y } in
        let (n, s', d, c') =
          open_fd-Kept ip omode f y s1
            (get_elem?-set_self s.files f y (lt_of_get_elem? s.files f g)) c1 in
        (n, s', rw (e, open_file) d, c')
  ]

-- What the process does: a call on its descriptors, with its stack pointer, or a change of its memory.
-- `open_inode` is sys_open from the moment when it has locked an inode.
pub data Event : Type 0 where
  dup : ℕ → Event
  close : ℕ → Event
  pipe : ℕ → Option ℕ → Event
  open_inode : ℕ → ℕ → Event
  remember : Memory → Event

unfoldable pub run_event : ℕ → Event → Sys → Result (ℤ × Sys)
run_event size (dup esp) s = sys_dup size esp s
run_event size (close esp) s = sys_close size esp s
run_event size (pipe esp page) s = sys_pipe size esp page s
run_event size (open_inode ip omode) s = open_file ip omode s
run_event size (remember m) s = ok (pos 0, record s { memory = m })

run_event-Kept :
    (size : ℕ) (e : Event) (s : Sys) (o : ℕ → ℕ) → Counted o s → Kept o (run_event size e s)
unfolding run_event
run_event-Kept size (dup esp) s o c = sys_dup-Kept s o c size esp
run_event-Kept size (close esp) s o c = sys_close-Kept s o c size esp
run_event-Kept size (pipe esp page) s o c = sys_pipe-Kept s o c size esp page
run_event-Kept size (open_inode ip omode) s o c = open_file-Kept s o c ip omode
run_event-Kept size (remember m) s o c = (pos 0, record s { memory = m }, refl, c)

abbrev pub then_run : (Sys → Result Sys) → Result (ℤ × Sys) → Result Sys
then_run f (ok (n, s)) = f s
then_run f (panic e) = panic e

unfoldable pub run_events : ℕ → List Event → Sys → Result Sys
run_events size [] s = ok s
run_events size (e ∷ es) s = then_run (run_events size es) (run_event size e s)

-- From a state in which every entry of the table of open files counts the descriptors of the process
-- that name it and the references that others hold, every sequence of calls to dup, close and pipe, of
-- the end of open, and of changes of user memory returns without a panic, and every entry counts its
-- references again.
pub run_events-Counted :
    (size : ℕ) (es : List Event) (s : Sys) (o : ℕ → ℕ)
    → Counted o s
    → (s' : Sys) × (run_events size es s ≡ ok s') × Counted o s'
unfolding run_events
run_events-Counted size [] s o c = (s, refl, c)
run_events-Counted size (e ∷ es) s o c =
    let (n, s1, d, c1) = run_event-Kept size e s o c in
    let (s', r, c') = run_events-Counted size es s1 o c1 in
    (s', ap (then_run (run_events size es)) d ∙ r, c')
