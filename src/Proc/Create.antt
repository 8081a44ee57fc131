-- ===== src/Proc/Create.antt =====
-- proc.c: allocproc, userinit, growproc, fork.
use os_lab.Kernel.Monad.{
  K, ◌>>=◌, ◌>>◌, deref, pure, modify, gets, fail, skip, out_of_memory, for_each,
}
use Prim.Native.Nat.{ℕ}
use os_lab.Prelude.Int.{ℤ, pos, negsuc, pos_part, ◌+ℤ◌, neg_part, ltb_ℤ, eqb_ℤ}
use os_lab.Kernel.State.{Proc, embryo, ptable_lock, unused, runnable, nofile}
use os_lab.Prelude.{
  Option, ℕ, List, Bool, ◌∷◌, none, [], if◌then◌else◌, get_or, ◌+◌, ◌==◌, some, ◌^◌, find_index,
  set, ◌-◌, ◌%◌, not, ◌&&◌, take,
}
use os_lab.Proc.Services.{Services}
use os_lab.Spinlock.{acquire, release}
use os_lab.Proc.Access.{write_proc, current, proc_at, is_state, stamp, arrive, add_to_count}

-- The fields that allocproc sets under ptable.lock. `killed` and `last_run` are not among them.
abbrev fresh : ℤ → Proc → Proc
fresh pid p = record p {
  state = embryo;
  pid = pid;
  sched_class = 2;
  sched_level = 2;
  deadline = pos 1_000_000_000;
  arrival_time = pos 0;
  waited_ticks = pos 0;
  consecutive_run = pos 0;
  max_consecutive_run = pos 0;
  rr_ticks = pos 0;
  runnig_time = pos 0;
}

abbrev is_unused : Proc → Bool
is_unused p = is_state p.state unused

-- What is done at `found:`, or if the loop finds no entry.
unfoldable pub claim_at : Option ℕ → K (Option ℕ)
claim_at none = do release ptable_lock; pure none
claim_at (some i) = do
  pid ← gets (λ k. k.next_pid)
  write_proc i (fresh pid)
  modify (λ k. record k { next_pid = k.next_pid +ℤ pos 1 })
  release ptable_lock
  pure (some i)

-- allocproc up to the release of the lock.
unfoldable pub claim_unused : K (Option ℕ)
claim_unused = do acquire ptable_lock; ps ← gets (λ k. k.procs); claim_at (find_index is_unused ps)

-- PGSIZE, KSTACKSIZE
abbrev page_size : ℕ
page_size = 4096

-- strings "initcode" and "" as bytes
abbrev initcode : List ℕ
initcode = b'i' ∷ b'n' ∷ b'i' ∷ b't' ∷ b'c' ∷ b'o' ∷ b'd' ∷ b'e' ∷ []

module _ (sv : Services) where
  -- The kernel stack of entry `i`. The trap frame and the context that the code lays out on it are
  -- not modelled.
  unfoldable pub give_stack : ℕ → K (Option ℕ)
  give_stack i = do
    stack ← sv.kalloc
    write_proc i (λ p. record p { kstack = stack })
    if stack == 0
        then (do write_proc i (λ p. record p { state = unused }); pure none)
        else pure (some i)

  unfoldable pub give_stack_at : Option ℕ → K (Option ℕ)
  give_stack_at none = pure none
  give_stack_at (some i) = give_stack i

  unfoldable pub allocproc : K (Option ℕ)
  allocproc = do found ← claim_unused; give_stack_at found

  -- The last lines of userinit: the first process becomes runnable.
  unfoldable pub userinit_ready : ℕ → K (Unit {0})
  userinit_ready i = do
    acquire ptable_lock
    write_proc i (λ p. record p { state = runnable })
    stamp i arrive
    add_to_count i
    release ptable_lock

  unfoldable pub userinit : K (Unit {0})
  userinit = do
    found ← allocproc
    i ← deref found
    write_proc i (λ p. record p { sched_class = 2; sched_level = 1 })
    modify (λ k. record k { initproc = some i })
    dir ← sv.setupkvm
    write_proc i (λ p. record p { pgdir = dir })
    if dir == 0 then fail out_of_memory else (do
      sv.inituvm dir
      write_proc i (λ p. record p { sz = page_size; name = initcode })
      root ← sv.namei_root
      write_proc i (λ p. record p { cwd = root })
      userinit_ready i)

  -- `sz + n` is arithmetic on `uint`.
  unfoldable pub growproc : ℤ → K ℤ
  growproc n = do
    me ← current
    p ← proc_at me
    let target = (p.sz + 2 ^ 32 + pos_part n - neg_part n) % 2 ^ 32
    sz ←
        if ltb_ℤ (pos 0) n
        then sv.allocuvm p.pgdir p.sz target
        else if ltb_ℤ n (pos 0)
        then sv.deallocuvm p.pgdir p.sz target
        else pure p.sz
    if not (eqb_ℤ n (pos 0)) && sz == 0
        then pure (negsuc 0)
        else (do write_proc me (λ q. record q { sz = sz }); sv.switchuvm me; pure (pos 0))

  -- for (i = 0; i < NOFILE; i++) if (curproc->ofile[i]) np->ofile[i] = filedup(curproc->ofile[i])
  unfoldable pub dup_file : ℕ → ℕ → ℕ → K (Unit {0})
  dup_file me new fd = do
    p ← proc_at me
    let f = get_or p.ofile fd 0
    if f == 0
        then skip
        else (do g ← sv.filedup f; write_proc new (λ q. record q { ofile = set q.ofile fd g }))

  -- The child becomes runnable.
  unfoldable pub fork_ready : ℕ → K (Unit {0})
  fork_ready new = do
    acquire ptable_lock
    write_proc new (λ p. record p { state = runnable })
    stamp new (λ t p. record p { arrival_time = t; waited_ticks = pos 0; last_run = t })
    add_to_count new
    release ptable_lock

  -- From the copy of the memory on, for the new entry.
  unfoldable pub fork_into : ℕ → ℕ → K ℤ
  fork_into me new = do
    p ← proc_at me
    dir ← sv.copyuvm p.pgdir p.sz
    write_proc new (λ q. record q { pgdir = dir })
    if dir == 0
        then (do
          q ← proc_at new
          sv.kfree q.kstack
          write_proc new (λ r. record r { kstack = 0; state = unused })
          pure (negsuc 0))
        else (do
          write_proc new (λ q. record q { sz = p.sz; parent = some me; eax = pos 0 })
          for_each nofile 0 (dup_file me new)
          dir' ← sv.idup p.cwd
          write_proc new (λ q. record q { cwd = dir'; name = take 15 p.name })
          q ← proc_at new
          fork_ready new
          pure q.pid)

  unfoldable pub fork_at : ℕ → Option ℕ → K ℤ
  fork_at me none = pure (negsuc 0)
  fork_at me (some new) = fork_into me new

  unfoldable pub fork : K ℤ
  fork = do me ← current; found ← allocproc; fork_at me found
