-- ===== src/Pipe.antt =====
-- pipe.c: the ring of bytes, its two loops and its ends. What other processes do to the pipe while
-- one sleeps is a parameter.
pub mod Queue
pub mod Transfer
use os_lab.Prelude.{
  ℕ, List, Bool, set, get_or, Option, true, ◌==◌, ◌%◌, [], none, some, if◌then◌else◌, ◌+◌, length,
  suc, false, ◌^◌, ◌∷◌, ◌&&◌, not, ◌||◌, zero,
}
use os_lab.Prelude.Int.{ℤ, pos, negsuc}

abbrev pub pipesize : ℕ
pipesize = 512

-- struct pipe, without its lock. `nread` and `nwrite` are `uint`.
pub record Pipe : Type 0 where
  pub bytes : List ℕ
  pub nread : ℕ
  pub nwrite : ℕ
  pub readopen : Bool
  pub writeopen : Bool

-- What the loops see of the rest of the system at the n-th time that they would sleep: whether the
-- process is killed, and the pipe when it wakes up.
pub record Env : Type 0 where
  pub killed : ℕ → Bool
  pub others : ℕ → Pipe → Pipe

-- The pipe that pipealloc sets up; its bytes are whatever the page held.
unfoldable pub pipe_init : List ℕ → Pipe
pipe_init page = record { bytes = page; nread = 0; nwrite = 0; readopen = true; writeopen = true }

abbrev pub is_full : Pipe → Bool
is_full p = p.nwrite == (p.nread + pipesize) % 2 ^ 32

abbrev pub is_empty : Pipe → Bool
is_empty p = p.nread == p.nwrite

-- p->data[p->nwrite++ % PIPESIZE] = b;
unfoldable pub put : ℕ → Pipe → Pipe
put b p = record p { bytes = set p.bytes (p.nwrite % pipesize) b; nwrite = (p.nwrite + 1) % 2 ^ 32 }

-- p->data[p->nread++ % PIPESIZE]
unfoldable pub get : Pipe → ℕ × Pipe
get p = (get_or p.bytes (p.nread % pipesize) 0, record p { nread = (p.nread + 1) % 2 ^ 32 })

-- The loops of pipewrite, for the bytes that are left; `n` is the result and `t` counts the times
-- of sleep. By fuel: `none` means that the fuel ran out.
unfoldable pub write_loop : ℕ → Env → ℕ → ℕ → List ℕ → Pipe → Option (ℤ × Pipe)
write_loop fuel env n t [] p = some (pos n, p)
write_loop zero env n t (b ∷ bs) p = none
write_loop (suc fuel) env n t (b ∷ bs) p = elim (is_full p) [
  | false ↦ write_loop fuel env n t bs (put b p)
  | true ↦ elim (not p.readopen || env.killed t) [
    | true ↦ some (negsuc 0, p)
    | false ↦ write_loop fuel env n (t + 1) (b ∷ bs) (env.others t p)
  ]
]

unfoldable pub pipewrite : ℕ → Env → List ℕ → Pipe → Option (ℤ × Pipe)
pipewrite fuel env bs p = write_loop fuel env (length bs) 0 bs p

-- for (i = 0; i < n; i++) { if (p->nread == p->nwrite) break; addr[i] = …; }
unfoldable pub read_loop : ℕ → Pipe → List ℕ × Pipe
read_loop zero p = ([], p)
read_loop (suc n) p = elim (is_empty p) [
  | true ↦ ([], p)
  | false ↦ let (bs, p') = read_loop n (get p).1 in ((get p).0 ∷ bs, p')
]

-- while (p->nread == p->nwrite && p->writeopen): the pipe to read from, or the end of a process that
-- was killed.
unfoldable pub read_wait : ℕ → Env → ℕ → Pipe → Option (Bool × Pipe)
read_wait zero env t p = none
read_wait (suc fuel) env t p = elim (is_empty p && p.writeopen) [
  | false ↦ some (true, p)
  | true ↦ elim (env.killed t) [
    | true ↦ some (false, p)
    | false ↦ read_wait fuel env (t + 1) (env.others t p)
  ]
]

-- The result: -1, or the bytes that were copied, whose number the C code returns.
unfoldable pub read_after : ℕ → Option (Bool × Pipe) → Option (Option (List ℕ) × Pipe)
read_after n none = none
read_after n (some (false, p)) = some (none, p)
read_after n (some (true, p)) = let (bs, p') = read_loop n p in some (some bs, p')

unfoldable pub piperead : ℕ → Env → ℕ → Pipe → Option (Option (List ℕ) × Pipe)
piperead fuel env n p = read_after n (read_wait fuel env 0 p)

-- The new pipe, and whether its page is freed.
unfoldable pub pipeclose : Bool → Pipe → Pipe × Bool
pipeclose writable p =
    let p' = if writable then record p { writeopen = false } else record p { readopen = false } in
    (p', not p'.readopen && not p'.writeopen)
