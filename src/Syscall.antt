-- ===== src/Syscall.antt =====
-- syscall.c: the arguments of a system call and its dispatch. User memory is a function from
-- addresses to bytes; `sz` is the size of the process.
pub mod Bounds
use os_lab.Prelude.{
  ℕ, ◌+◌, Option, List, ◌*◌, if◌then◌else◌, none, leb, suc, ◌%◌, some, ◌∷◌, ◌||◌, ◌==◌, ◌-◌, ◌^◌,
  [], ltb, ◌&&◌, zero, length, get_or,
}
use os_lab.Prelude.Int.{ℤ, ltb_ℤ, negsuc, pos, pos_part}

abbrev pub Memory : Type 0
Memory = ℕ → ℕ

-- *(int*)addr, little-endian
abbrev word_at : Memory → ℕ → ℕ
word_at m a = m a + 256 * m (a + 1) + 65536 * m (a + 2) + 16777216 * m (a + 3)

-- `addr + 4` is a `uint`. `none` is -1.
unfoldable pub fetchint : Memory → ℕ → ℕ → Option ℕ
fetchint m sz addr =
    if leb sz addr || ltb sz ((addr + 4) % 2 ^ 32) then none else some (word_at m addr)

-- The loop of fetchstr with `left` bytes up to the end of the process.
unfoldable pub find_nul : Memory → ℕ → ℕ → ℕ → Option ℕ
find_nul m zero addr n = none
find_nul m (suc left) addr n =
    let rest = find_nul m left addr (n + 1) in if m (addr + n) == 0 then some n else rest

-- The length of the string.
unfoldable pub fetchstr : Memory → ℕ → ℕ → Option ℕ
fetchstr m sz addr = if leb sz addr then none else find_nul m (sz - addr) addr 0

-- `esp` is the saved user stack pointer.
unfoldable pub argint : Memory → ℕ → ℕ → ℕ → Option ℕ
argint m sz esp n = fetchint m sz ((esp + 4 + 4 * n) % 2 ^ 32)

unfoldable pub argptr_at : ℕ → ℤ → ℕ → Option ℕ
argptr_at sz size i =
    if ltb_ℤ size (pos 0) || leb sz i || ltb sz ((i + pos_part size) % 2 ^ 32) then none else some i

-- The pointer, if the block of `size` bytes that it points to lies in the process.
unfoldable pub argptr : Memory → ℕ → ℕ → ℕ → ℤ → Option ℕ
argptr m sz esp n size = elim (argint m sz esp n) [ none ↦ none | some i ↦ argptr_at sz size i ]

-- The pointer and the length of the string.
unfoldable pub argstr_at : Memory → ℕ → ℕ → Option (ℕ × ℕ)
argstr_at m sz addr = elim (fetchstr m sz addr) [ none ↦ none | some n ↦ some (addr, n) ]

unfoldable pub argstr : Memory → ℕ → ℕ → ℕ → Option (ℕ × ℕ)
argstr m sz esp n = elim (argint m sz esp n) [ none ↦ none | some a ↦ argstr_at m sz a ]

-- The entries of syscalls[], by number, 0 being no call.
pub data Call : Type 0 where
  sys_fork sys_exit sys_wait sys_pipe sys_read sys_kill sys_exec sys_fstat sys_chdir sys_dup : Call
  sys_getpid sys_sbrk sys_sleep sys_uptime sys_open sys_write sys_mknod sys_unlink sys_link : Call
  sys_mkdir sys_close sys_change_sched_level sys_print_sched_info sys_update_wait_time : Call
  sys_is_higher_waiting sys_set_deadline_for_process : Call

abbrev syscalls : List (Option Call)
syscalls =
    none
    ∷ some sys_fork
    ∷ some sys_exit
    ∷ some sys_wait
    ∷ some sys_pipe
    ∷ some sys_read
    ∷ some sys_kill
    ∷ some sys_exec
    ∷ some sys_fstat
    ∷ some sys_chdir
    ∷ some sys_dup
    ∷ some sys_getpid
    ∷ some sys_sbrk
    ∷ some sys_sleep
    ∷ some sys_uptime
    ∷ some sys_open
    ∷ some sys_write
    ∷ some sys_mknod
    ∷ some sys_unlink
    ∷ some sys_link
    ∷ some sys_mkdir
    ∷ some sys_close
    ∷ none
    ∷ some sys_change_sched_level
    ∷ none
    ∷ some sys_print_sched_info
    ∷ some sys_update_wait_time
    ∷ some sys_is_higher_waiting
    ∷ some sys_set_deadline_for_process
    ∷ []

-- The handler that a number in %eax selects.
unfoldable pub dispatch : ℤ → Option Call
dispatch num =
    if ltb_ℤ (pos 0) num && ltb_ℤ num (pos (length syscalls))
    then get_or syscalls (pos_part num) none
    else none

-- The new %eax: the handler's result, or -1.
unfoldable pub syscall : (Call → ℤ) → ℤ → ℤ
syscall handler num = elim (dispatch num) [ none ↦ negsuc 0 | some c ↦ handler c ]
