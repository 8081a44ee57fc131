-- ===== src/Sysfile.antt =====
-- sysfile.c: the file descriptors of a process, and the system calls on them. The arguments stand in
-- user memory, in a process of `size` bytes with the stack pointer `esp`. pipealloc of pipe.c is
-- here too, with what kalloc gives as an argument.
pub mod Counts
pub mod Descriptors
pub mod Handlers
pub mod Pipes
pub mod Install
pub mod Exec
use os_lab.Prelude.{
  ℕ, Bool, List, Option, get_elem?, get_or, if◌then◌else◌, ◌==◌, some, find_index, not, ltb, leb,
  set, ◌-◌, none, ◌+◌, true, ◌%◌, ◌/◌, false, ◌^◌, ◌∷◌, ◌||◌,
}
use os_lab.Prelude.Int.{ℤ, pos, negsuc, to_int, ltb_ℤ, pos_part}
use os_lab.Files.{
  Table, File, Result, ok, panic, bad_file, Closing, filealloc, filedup, fileclose, filestat,
  fileread, filewrite, Layers, fd_none, fd_pipe, fd_inode,
}
use os_lab.Syscall.{Memory, argint, argptr}
use os_lab.Kernel.State.{nofile}

-- The table of open files, the descriptors of the process, what fileclose handed to the pipe and the
-- inode layer, newest first, and user memory.
pub record Sys : Type 0 where
  pub files : Table
  pub ofile : List (Option ℕ)
  pub closed : List Closing
  pub memory : Memory

abbrev has_no_file : Option ℕ → Bool
has_no_file none = true
has_no_file (some f) = false

unfoldable pub argfd_at : List (Option ℕ) → ℤ → Option (ℕ × ℕ)
argfd_at o fd =
    if ltb_ℤ fd (pos 0) || not (ltb_ℤ fd (pos nofile))
    then none
    else (elim (get_or o (pos_part fd) none) [ none ↦ none | some f ↦ some (pos_part fd, f) ])

unfoldable pub fdalloc_at : ℕ → Sys → Option ℕ → Option ℕ × Sys
fdalloc_at f s none = (none, s)
fdalloc_at f s (some fd) = (some fd, record s { ofile = set s.ofile fd (some f) })

-- The descriptor, or -1.
unfoldable pub fdalloc : ℕ → Sys → Option ℕ × Sys
fdalloc f s = fdalloc_at f s (find_index has_no_file s.ofile)

abbrev failed : Sys → Result (ℤ × Sys)
failed s = ok (negsuc 0, s)

-- fileclose, with what it hands on.
unfoldable pub close_entry : ℕ → Sys → Result Sys
close_entry f s = elim (fileclose s.files f) [
  | panic e ↦ panic e
  | ok (c, t) ↦ ok (record s { files = t; closed = c ∷ s.closed })
]

unfoldable pub dup_into : ℕ → Option ℕ × Sys → Result (ℤ × Sys)
dup_into f (none, s) = failed s
dup_into f (some fd, s) = elim (filedup s.files f) [
  | panic e ↦ panic e
  | ok t ↦ ok (pos fd, record s { files = t })
]

abbrev drop_descriptor : ℕ → Sys → Sys
drop_descriptor fd s = record s { ofile = set s.ofile fd none }

abbrev reply : ℤ → Result Sys → Result (ℤ × Sys)
reply n (ok s) = ok (n, s)
reply n (panic e) = panic e

-- f(file, n) for an operation on a file, whose new state replaces the old one.
unfoldable pub transfer : (File → ℕ → Result (ℤ × File)) → ℕ → ℕ → Sys → Result (ℤ × Sys)
transfer op f n s = elim (get_elem? s.files f) [
  | none ↦ panic bad_file
  | some x ↦ elim (op x n) [
    | panic e ↦ panic e
    | ok (r, x') ↦ ok (r, record s { files = set s.files f x' })
  ]
]

-- A change of one file through its pointer.
abbrev pub update : Table → ℕ → (File → File) → Table
update t i g = elim (get_elem? t i) [ none ↦ t | some x ↦ set t i (g x) ]

abbrev pub pipe_end : ℕ → Bool → File → File
pipe_end p writes x = record x {
  type = fd_pipe;
  readable = not writes;
  writable = writes;
  pipe = p;
}

-- The fields that sys_open sets.
abbrev pub inode_file : ℕ → ℕ → File → File
inode_file ip omode x =
    let wronly = (omode % 2 == 1) in
    record x {
      type = fd_inode;
      ip = ip;
      off = 0;
      readable = not wronly;
      writable = wronly || ((omode / 2) % 2 == 1);
    }

abbrev close_if : Option ℕ → Sys → Result Sys
close_if none s = ok s
close_if (some f) s = close_entry f s

abbrev pub then_close : Option ℕ → Result Sys → Result Sys
then_close f (ok s) = close_if f s
then_close f (panic e) = panic e

unfoldable pub open_fd : ℕ → ℕ → ℕ → Option ℕ × Sys → Result (ℤ × Sys)
open_fd ip omode f (none, s) = reply (negsuc 0) (close_entry f s)
open_fd ip omode f (some fd, s) =
    ok (pos fd, record s { files = update s.files f (inode_file ip omode) })

unfoldable pub open_with : ℕ → ℕ → Sys → Option ℕ × Table → Result (ℤ × Sys)
open_with ip omode s (none, t) = failed (record s { files = t })
open_with ip omode s (some f, t) = open_fd ip omode f (fdalloc f (record s { files = t }))

-- sys_open from filealloc on, without the unlocking of the inode `ip`.
unfoldable pub open_file : ℕ → ℕ → Sys → Result (ℤ × Sys)
open_file ip omode s = open_with ip omode s (filealloc s.files)

-- The second entry that pipealloc takes, after the first.
abbrev second : Option ℕ → Table → Option ℕ × Table
second none t = (none, t)
second (some f0) t = filealloc t

abbrev no_pipe : Result Sys → Result (Option (ℕ × ℕ) × Sys)
no_pipe (ok s) = ok (none, s)
no_pipe (panic e) = panic e

unfoldable pub pipe_ends : Option ℕ → Option ℕ → Option ℕ → Sys → Result (Option (ℕ × ℕ) × Sys)
pipe_ends none f1 page s = no_pipe (then_close f1 (ok s))
pipe_ends (some f0) none page s = no_pipe (close_entry f0 s)
pipe_ends (some f0) (some f1) none s = no_pipe (then_close (some f1) (close_entry f0 s))
pipe_ends (some f0) (some f1) (some p) s = ok (
  some (f0, f1),
  record s { files = update (update s.files f0 (pipe_end p false)) f1 (pipe_end p true) },
)

-- The two files of a new pipe in `page`, or -1.
unfoldable pub pipealloc : Option ℕ → Sys → Result (Option (ℕ × ℕ) × Sys)
pipealloc page s =
    let (f0, t) = filealloc s.files in
    let (f1, t') = second f0 t in pipe_ends f0 f1 page (record s { files = t' })

-- *(int*)a = w
abbrev store_word : ℕ → ℕ → Memory → Memory
store_word a w m b = if ltb b a || leb (a + 4) b then m b else (w / 256 ^ (b - a)) % 256

abbrev store_fds : ℕ → ℕ → ℕ → Sys → Sys
store_fds a fd0 fd1 s = record s { memory = store_word (a + 4) fd1 (store_word a fd0 s.memory) }

-- The descriptor of the write end, and the way back when there is none.
unfoldable pub second_fd : ℕ → ℕ → ℕ → ℕ → Option ℕ × Sys → Result (ℤ × Sys)
second_fd a rf wf fd0 (none, s) =
    reply (negsuc 0) (then_close (some wf) (close_entry rf (drop_descriptor fd0 s)))
second_fd a rf wf fd0 (some fd1, s) = ok (pos 0, store_fds a fd0 fd1 s)

unfoldable pub first_fd : ℕ → ℕ → ℕ → Option ℕ × Sys → Result (ℤ × Sys)
first_fd a rf wf (none, s) = reply (negsuc 0) (then_close (some wf) (close_entry rf s))
first_fd a rf wf (some fd0, s) = second_fd a rf wf fd0 (fdalloc wf s)

unfoldable pub pipe_fds : ℕ → Result (Option (ℕ × ℕ) × Sys) → Result (ℤ × Sys)
pipe_fds a (panic e) = panic e
pipe_fds a (ok (none, s)) = failed s
pipe_fds a (ok (some (rf, wf), s)) = first_fd a rf wf (fdalloc rf s)

module _ (size esp : ℕ) where
  unfoldable pub argfd : Sys → ℕ → Option (ℕ × ℕ)
  argfd s n = elim (argint s.memory size esp n) [
    | none ↦ none
    | some w ↦ argfd_at s.ofile (to_int w)
  ]

  unfoldable pub sys_dup : Sys → Result (ℤ × Sys)
  sys_dup s = elim (argfd s 0) [ none ↦ failed s | some (fd, f) ↦ dup_into f (fdalloc f s) ]

  unfoldable pub sys_close : Sys → Result (ℤ × Sys)
  sys_close s = elim (argfd s 0) [
    | none ↦ failed s
    | some (fd, f) ↦ reply (pos 0) (close_entry f (drop_descriptor fd s))
  ]

  -- The count in argument 2 of a buffer in argument 1 that lies in the process.
  abbrev buffer_arg : Sys → Option ℕ
  buffer_arg s = elim (argint s.memory size esp 2) [
    | none ↦ none
    | some w ↦ elim (argptr s.memory size esp 1 (to_int w)) [
      | none ↦ none
      | some p ↦ some (pos_part (to_int w))
    ]
  ]

  unfoldable pub on_buffer : (File → ℕ → Result (ℤ × File)) → Sys → Result (ℤ × Sys)
  on_buffer op s = elim (argfd s 0) [
    | none ↦ failed s
    | some (fd, f) ↦ elim (buffer_arg s) [ none ↦ failed s | some n ↦ transfer op f n s ]
  ]

  unfoldable pub sys_read : Layers → Sys → Result (ℤ × Sys)
  sys_read l s = on_buffer (fileread l) s

  unfoldable pub sys_write : Layers → Sys → Result (ℤ × Sys)
  sys_write l s = on_buffer (filewrite l) s

  unfoldable pub sys_pipe : Option ℕ → Sys → Result (ℤ × Sys)
  sys_pipe page s = elim (argptr s.memory size esp 0 (pos 8)) [
    | none ↦ failed s
    | some a ↦ pipe_fds a (pipealloc page s)
  ]

  -- The result, and the inode that filestat asks with the address where the answer goes; sizeof(*st)
  -- is 20.
  unfoldable sys_fstat : Sys → Result (ℤ × Option (ℕ × ℕ))
  sys_fstat s = elim (argfd s 0) [
    | none ↦ ok (negsuc 0, none)
    | some (fd, f) ↦ elim (argptr s.memory size esp 1 (pos 20)) [
      | none ↦ ok (negsuc 0, none)
      | some st ↦ elim (get_elem? s.files f) [
        | none ↦ panic bad_file
        | some x ↦ elim (filestat x) [
          | none ↦ ok (negsuc 0, none)
          | some ip ↦ ok (pos 0, some (ip, st))
        ]
      ]
    ]
  ]
