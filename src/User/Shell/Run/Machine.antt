-- ===== src/User/Shell/Run/Machine.antt =====
-- A kernel that runs the processes of a command: their descriptors, and how they end. A descriptor is
-- given as the kernel's fdalloc gives it, the lowest that is free.
use os_lab.Prelude.{
  ℕ, Bool, List, Option, [], ◌∷◌, ◌++◌, ◌-◌, ◌+◌, none, some, true, false, if◌then◌else◌, set,
  get_or, find_index,
}
use os_lab.User.Shell.Run.{Process, exit, exec, write, close, dup, open_file, pipe, fork, wait}

-- What a descriptor stands for: a file of the shell, one that was opened, or an end of a pipe, which is
-- named after the process that made it.
pub data Object : Type 0 where
  given : ℕ → Object
  opened : List ℕ → ℕ → Object
  pipe_end : List Bool → Bool → Object

abbrev pub Fds : Type 0
Fds = List (Option Object)

-- How a process ends: as a program with its descriptors, or by exit, with what it wrote to descriptor
-- 2 and the number of children that it has not waited for.
pub data Ending : Type 0 where
  runs : List (List ℕ) → Fds → Ending
  exits : List ℕ → ℕ → Ending

-- Which calls succeed. A process is named by the forks that lead to it.
pub record World : Type 0 where
  pub can_exec : List (List ℕ) → Bool
  pub can_open : List ℕ → ℕ → Bool
  pub can_fork : List Bool → Bool

abbrev pub is_free : Option Object → Bool
is_free none = true
is_free (some o) = false

-- The lowest free descriptor.
abbrev pub lowest : Fds → Option ℕ
lowest t = find_index is_free t

abbrev pub put_at : Option ℕ → Object → Fds → Fds
put_at none o t = t
put_at (some fd) o t = set t fd (some o)

abbrev pub dup_of : Option Object → Fds → Fds
dup_of none t = t
dup_of (some o) t = put_at (lowest t) o t

-- The two descriptors of a pipe.
abbrev pub second_of : ℕ → Option ℕ → Option (ℕ × ℕ)
second_of p0 none = none
second_of p0 (some p1) = some (p0, p1)

abbrev pub slots_from : Fds → Option ℕ → Option (ℕ × ℕ)
slots_from t none = none
slots_from t (some p0) = second_of p0 (lowest (set t p0 (some (given 0))))

abbrev pub slots : Fds → Option (ℕ × ℕ)
slots t = slots_from t (lowest t)

-- All the processes that come of one, each in the order parent's children first. `said` is what the
-- process has written, `kids` its children.
unfoldable pub run : World → List Bool → List ℕ → ℕ → Fds → Process → List Ending
run w who said kids t exit = exits said kids ∷ []
run w who said kids t (exec argv next) =
    let rest = run w who said kids t next in if w.can_exec argv then runs argv t ∷ [] else rest
run w who said kids t (write s next) = run w who (said ++ s) kids t next
run w who said kids t (close fd next) = run w who said kids (set t fd none) next
run w who said kids t (dup fd next) = run w who said kids (dup_of (get_or t fd none) t) next
run w who said kids t (open_file f mode next fail) =
    let good = run w who said kids (put_at (lowest t) (opened f mode) t) next in
    let bad = run w who said kids t fail in if w.can_open f mode then good else bad
run w who said kids t (pipe next fail) = elim (slots t) [
  | none ↦ run w who said kids t fail
  | some (p0, p1) ↦
      run w (false ∷ who) said kids
        (set (set t p0 (some (pipe_end who false))) p1 (some (pipe_end who true))) (next p0 p1)
]
run w who said kids t (fork fail child parent) =
    let bad = run w who said kids t fail in
    let good = run w (true ∷ who) [] 0 t child ++ run w (false ∷ who) said (kids + 1) t parent in
    if w.can_fork who then good else bad
run w who said kids t (wait next) = run w who said (kids - 1) t next
