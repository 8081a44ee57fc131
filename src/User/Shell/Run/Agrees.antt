-- ===== src/User/Shell/Run/Agrees.antt =====
-- runcmd starts what the command means.
use os_lab.Prelude.{
  ℕ, Bool, List, Option, [], ◌∷◌, ◌+◌, ◌-◌, none, some, true, false, ◌≡◌, ◌≢◌, refl, set, get_elem?,
  get_or, zero, suc, arith, ap, find_index, get_elem?-set_ne, get_elem?-set_self, ◌⊎◌, sym,
  lt_of_get_elem?, inl, ◌∙◌, inr, Option-cases,
}
use os_lab.User.Shell.{Cmd, Redir, redir_cmd, list_cmd, back_cmd, pipe_cmd, exec_cmd}
use os_lab.User.Shell.Run.{Process, runcmd, fork1, panic, close, dup}
use os_lab.User.Shell.Run.Machine.{Object, Fds, World, run, opened, pipe_end, slots}
use os_lab.User.Shell.Run.Meaning.{meaning, IsStandard}
use os_lab.User.Shell.Run.Wiring.{undo_two, slots_above, above, slots_free}

get_or_of :
    (t : Fds) (i : ℕ) (o : Object) → get_elem? t i ≡ some (some o) → get_or t i none ≡ some o
get_or_of [] i o h = ground arith
get_or_of (x ∷ t) zero o h = ground arith
get_or_of (x ∷ t) (suc i) o h = get_or_of t i o h

module _ (w : World) (a b r e : Object) (rest : Fds) (i j : ℕ)
    (free_i : get_elem? rest i ≡ some none) (free_j : get_elem? rest j ≡ some none)
    (ne : i ≢ j) where
  -- The descriptors with the two of the pipe.
  abbrev both : Fds
  both = set (set rest i (some r)) j (some e)

  both_r : get_or both i none ≡ some r
  both_r = get_or_of both i r (
      get_elem?-set_ne (set rest i (some r)) (some e) (λ q. ne (sym q))
      ∙ get_elem?-set_self rest i (some r) (lt_of_get_elem? rest i free_i))

  both_e : get_or both j none ≡ some e
  both_e = get_or_of both j e (
      get_elem?-set_self (set rest i (some r)) j (some e)
        (lt_of_get_elem? (set rest i (some r)) j (get_elem?-set_ne rest (some r) ne ∙ free_j)))

  both_closed : set (set both i none) j none ≡ rest
  both_closed = undo_two rest i j (some r) (some e) none ne free_i free_j

  module _ (who : List Bool) (said : List ℕ) (kids : ℕ) (next : Process) where
    run-closes :
        (c d : Option Object)
        → run w who said kids (c ∷ d ∷ both) (close (suc (suc i)) (close (suc (suc j)) next))
          ≡ run w who said kids (c ∷ d ∷ rest) next
    unfolding run
    run-closes c d = ap (λ t. run w who said kids (c ∷ d ∷ t) next) both_closed

    -- The left side of a pipe: the write end becomes its output.
    run-left :
        run w who said kids
          (some a ∷ some b ∷ both)
          (close 1 (dup (suc (suc j)) (close (suc (suc i)) (close (suc (suc j)) next))))
        ≡ run w who said kids (some a ∷ some e ∷ rest) next
    unfolding run find_index
    run-left = rw both_e (run-closes (some a) (some e))

    -- The right side: the read end becomes its input.
    run-right :
        run w who said kids
          (some a ∷ some b ∷ both)
          (close 0 (dup (suc (suc i)) (close (suc (suc i)) (close (suc (suc j)) next))))
        ≡ run w who said kids (some r ∷ some b ∷ rest) next
    unfolding run find_index
    run-right = rw both_r (run-closes (some r) (some b))

abbrev Agrees : Cmd → Type 0
Agrees c =
    (w : World) (who : List Bool) (said : List ℕ) (kids : ℕ) (a b : Object) (rest : Fds)
    → run w who said kids (some a ∷ some b ∷ rest) (runcmd c) ≡ meaning w who said kids a b rest c

redir-Agrees : (c : Cmd) (r : Redir) → (r.fd ≡ 0) ⊎ (r.fd ≡ 1) → Agrees c → Agrees (redir_cmd c r)
unfolding run runcmd meaning find_index
redir-Agrees c r (inl z) h w who said kids a b rest =
    rw z (rw (h w who said kids (opened r.file r.mode) b rest) refl)
redir-Agrees c r (inr z) h w who said kids a b rest =
    rw z (rw (h w who said kids a (opened r.file r.mode) rest) refl)

list-Agrees : (left right : Cmd) → Agrees left → Agrees right → Agrees (list_cmd left right)
unfolding run runcmd meaning fork1 panic
list-Agrees left right l r w who said kids a b rest =
    let again : kids + 1 - 1 ≡ kids = omega arith in
    rw again (rw (l w (true ∷ who) [] 0 a b rest) (rw (r w (false ∷ who) said kids a b rest) refl))

back-Agrees : (c : Cmd) → Agrees c → Agrees (back_cmd c)
unfolding run runcmd meaning fork1 panic
back-Agrees c h w who said kids a b rest = rw (h w (true ∷ who) [] 0 a b rest) refl

-- The table of the three processes of a pipe while they still have its two descriptors.
module _ (w : World) (who : List Bool) (said : List ℕ) (kids : ℕ) (a b : Object) (rest : Fds)
    (i j : ℕ)
    (free : (get_elem? rest i ≡ some none) × (get_elem? rest j ≡ some none) × (i ≢ j)) where
  abbrev left_side : Cmd → Process
  left_side c = close 1 (dup (suc (suc j)) (close (suc (suc i)) (close (suc (suc j)) (runcmd c))))

  abbrev right_side : Cmd → Process
  right_side c = close 0 (dup (suc (suc i)) (close (suc (suc i)) (close (suc (suc j)) (runcmd c))))

  abbrev with_pipe : Fds
  with_pipe =
      some a ∷ some b ∷ set (set rest i (some (pipe_end who false))) j (some (pipe_end who true))

  left-meaning :
      (c : Cmd)
      → Agrees c
      → (you : List Bool)
      → run w you [] 0 with_pipe (left_side c) ≡ meaning w you [] 0 a (pipe_end who true) rest c
  left-meaning c h you =
      run-left w a b (pipe_end who false) (pipe_end who true) rest i j free.0 free.1 free.2 you [] 0
        (runcmd c)
      ∙ h w you [] 0 a (pipe_end who true) rest

  right-meaning :
      (c : Cmd)
      → Agrees c
      → (you : List Bool)
      → run w you [] 0 with_pipe (right_side c) ≡ meaning w you [] 0 (pipe_end who false) b rest c
  right-meaning c h you =
      run-right w a b (pipe_end who false) (pipe_end who true) rest i j free.0 free.1 free.2 you []
        0 (runcmd c)
      ∙ h w you [] 0 (pipe_end who false) b rest

pipe-Agrees : (left right : Cmd) → Agrees left → Agrees right → Agrees (pipe_cmd left right)
unfolding run runcmd meaning fork1 panic
pipe-Agrees left right l r w who said kids a b rest = elim (Option-cases (slots rest)) [
  | inl n ↦
      let up : slots (some a ∷ some b ∷ rest) ≡ none = slots_above a b rest ∙ ap above n in
      rw (up, run) (rw (n, meaning) refl)
  | inr ((i, j), e) ↦
      let up : slots (some a ∷ some b ∷ rest) ≡ some (suc (suc i), suc (suc j)) =
        slots_above a b rest ∙ ap above e in
      let again : kids + 1 + 1 - 1 - 1 ≡ kids = omega arith in
      let free = slots_free rest i j e in
      let lm = left-meaning w who said kids a b rest i j free left l (true ∷ false ∷ who) in
      let rm =
        right-meaning w who said kids a b rest i j free right r (true ∷ false ∷ false ∷ who) in
      rw (up, run) (rw (e, meaning) (rw again (rw lm (rw rm refl))))
]

-- The processes of runcmd end as the command means, if it redirects only descriptors 0 and 1.
pub runcmd-meaning :
    (c : Cmd)
    → IsStandard c
    → (w : World) (who : List Bool) (said : List ℕ) (kids : ℕ) (a b : Object) (rest : Fds)
    → run w who said kids (some a ∷ some b ∷ rest) (runcmd c) ≡ meaning w who said kids a b rest c
unfolding run runcmd meaning
runcmd-meaning (exec_cmd []) s w who said kids a b rest = refl
runcmd-meaning (exec_cmd (name ∷ args)) s w who said kids a b rest = refl
runcmd-meaning (redir_cmd c r) (fd, s) w who said kids a b rest =
    redir-Agrees c r fd (runcmd-meaning c s) w who said kids a b rest
runcmd-meaning (pipe_cmd left right) (l, r) w who said kids a b rest =
    pipe-Agrees left right (runcmd-meaning left l) (runcmd-meaning right r) w who said kids a b rest
runcmd-meaning (list_cmd left right) (l, r) w who said kids a b rest =
    list-Agrees left right (runcmd-meaning left l) (runcmd-meaning right r) w who said kids a b rest
runcmd-meaning (back_cmd c) s w who said kids a b rest =
    back-Agrees c (runcmd-meaning c s) w who said kids a b rest
