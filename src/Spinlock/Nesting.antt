-- ===== src/Spinlock/Nesting.antt =====
-- pushcli and popcli match: what the comment above them in spinlock.c promises, and what acquire
-- and release make of it.
use os_lab.Prelude.{ℕ, zero, suc, ◌+◌, ◌<◌, ◌≡◌, refl, false, arith, ◌∙◌, Bool, true, ap}
use os_lab.Kernel.State.{Kernel, Lock, held, set_held, other_lock, ptable_lock, tickslock, Cpu}
use os_lab.Kernel.Monad.{K, ok, ◌>>=◌, ◌>>◌, skip, panic, acquire_twice}
use os_lab.Spinlock.{pushcli, popcli, set_cpu, acquire, release}
use os_lab.Spinlock.Laws.{
  pushcli_lem, popcli_lem, enter, leave, acquire_lem, release_lem, acquire-held,
}
use os_lab.Kernel.Returns.{Returns}

-- `n` calls of one of them in a row.
repeat : ℕ → K (Unit {0}) → K (Unit {0})
repeat zero m = skip
repeat (suc n) m = do m; repeat n m

-- Inside a section that pushcli has opened, interrupts are off.
abbrev pub IsNested : Kernel → Type 0
IsNested k = 0 < k.cpu.ncli → k.cpu.intr ≡ false

abbrev deepen : ℕ → Kernel → Kernel
deepen n k = set_cpu (record (k.cpu) { ncli = k.cpu.ncli + n }) k

repeat-pushcli :
    (n : ℕ) (k : Kernel)
    → 0 < k.cpu.ncli
    → k.cpu.intr ≡ false
    → repeat n pushcli k ≡ ok tt (deepen n k)
unfolding repeat
repeat-pushcli zero k d off = ground arith
repeat-pushcli (suc n) k d off =
    rw (pushcli_lem k, ◌>>=◌) (repeat-pushcli n (enter k) (omega arith) refl ∙ ground arith)

-- Any number of pops, down to a depth above zero.
repeat-popcli :
    (n : ℕ) (k : Kernel) (d : ℕ)
    → k.cpu.ncli ≡ suc d + n
    → k.cpu.intr ≡ false
    → repeat n popcli k ≡ ok tt (set_cpu (record (k.cpu) { ncli = suc d }) k)
unfolding repeat
repeat-popcli zero k d e off = ground arith
repeat-popcli (suc n) k d e off =
    rw (popcli_lem (suc d + n) k (omega arith) off, ◌>>=◌)
      (repeat-popcli n (leave (suc d + n) k) d refl (ground arith) ∙ ground arith)

-- All the way out: the flag that the outermost push saved comes back.
repeat-popcli_all :
    (n : ℕ) (k : Kernel)
    → k.cpu.ncli ≡ suc n
    → k.cpu.intr ≡ false
    → repeat (suc n) popcli k ≡ ok tt (set_cpu (record (k.cpu) { ncli = 0; intr = k.cpu.intena }) k)
unfolding repeat
repeat-popcli_all zero k e off = rw (popcli_lem 0 k e off, ◌>>=◌) (ground arith)
repeat-popcli_all (suc n) k e off =
    rw (popcli_lem (suc n) k e off, ◌>>=◌)
      (repeat-popcli_all n (leave (suc n) k) refl (ground arith) ∙ ground arith)

-- What a section between pushcli and popcli may rely on, and what it leaves behind.
abbrev pub Restores : Kernel → Kernel → Type 0
Restores k k' = (k'.cpu.ncli ≡ k.cpu.ncli) × (k'.cpu.intr ≡ k.cpu.intr) × (k'.procs ≡ k.procs)

repeat-push_pop :
    (n d : ℕ) (k : Kernel)
    → k.cpu.ncli ≡ d
    → IsNested k
    → Returns (λ _. Restores k) (repeat (suc n) popcli (deepen n (enter k)))
repeat-push_pop n zero k e nested =
    rw (repeat-popcli_all n (deepen n (enter k)) (omega arith) refl) (ground arith)
repeat-push_pop n (suc d) k e nested =
    rw (repeat-popcli (suc n) (deepen n (enter k)) d (omega arith) refl) (ground arith)

-- From a state in which interrupts are off if any section is open, n + 1 calls of pushcli return
-- with interrupts off and the depth n + 1 larger; n + 1 calls of popcli after them return too,
-- with the depth, the interrupt flag and the process table as they were before.
push_pop :
    (n : ℕ) (k : Kernel)
    → IsNested k
    → Returns
        (λ _ m. (m.cpu.intr ≡ false) × (m.cpu.ncli ≡ k.cpu.ncli + suc n))
        (repeat (suc n) pushcli k)
      × Returns (λ _. Restores k) ((repeat (suc n) pushcli >> repeat (suc n) popcli) k)
push_pop n k nested =
    let e : repeat (suc n) pushcli k ≡ ok tt (deepen n (enter k)) = pushes in
    (rw e (ground arith), rw (e, ◌>>=◌) (repeat-push_pop n k.cpu.ncli k refl nested))
  where
    pushes : repeat (suc n) pushcli k ≡ ok tt (deepen n (enter k))
    pushes =
        unfold repeat in rw (pushcli_lem k, ◌>>=◌) (repeat-pushcli n (enter k) (omega arith) refl)

held-set_held : (l : Lock) (b : Bool) (k : Kernel) → held l (set_held l b k) ≡ b
held-set_held ptable_lock b k = refl
held-set_held tickslock b k = refl
held-set_held (other_lock n) b k = ground arith

cpu-set_held : (l : Lock) (b : Bool) (k : Kernel) → (set_held l b k).cpu ≡ k.cpu
cpu-set_held ptable_lock b k = refl
cpu-set_held tickslock b k = refl
cpu-set_held (other_lock n) b k = refl

held-enter : (l : Lock) (k : Kernel) → held l (enter k) ≡ held l k
held-enter ptable_lock k = refl
held-enter tickslock k = refl
held-enter (other_lock n) k = refl

procs-set_held : (l : Lock) (b : Bool) (k : Kernel) → (set_held l b k).procs ≡ k.procs
procs-set_held ptable_lock b k = refl
procs-set_held tickslock b k = refl
procs-set_held (other_lock n) b k = refl

held-leave : (l : Lock) (n : ℕ) (k : Kernel) → held l (leave n k) ≡ held l k
held-leave ptable_lock n k = refl
held-leave tickslock n k = refl
held-leave (other_lock m) n k = refl

module _ (l : Lock) (k : Kernel) where
  -- The state inside the critical section.
  abbrev inner : Kernel
  inner = set_held l true (enter k)

  acquire_steps :
      held l k ≡ false
      → (acquire l k ≡ ok tt inner)
        × (release l inner ≡ ok tt (leave k.cpu.ncli (set_held l false inner)))
  acquire_steps free = (
    acquire_lem l k (held-enter l k ∙ free),
    release_lem l k.cpu.ncli inner (held-set_held l true (enter k))
        (ap (λ (c : Cpu). c.ncli) (cpu-set_held l true (enter k)) ∙ omega arith)
        (ap (λ (c : Cpu). c.intr) (cpu-set_held l true (enter k))),
  )

  leave-Restores : IsNested k → Restores k (leave k.cpu.ncli (set_held l false inner))
  leave-Restores nested =
      let c : (set_held l false inner).cpu ≡ (enter k).cpu =
        cpu-set_held l false inner ∙ cpu-set_held l true (enter k) in
      let p : (set_held l false inner).procs ≡ k.procs =
        procs-set_held l false inner ∙ procs-set_held l true (enter k) in
      rw c (refl, ground (arith, nested), p)

  -- acquire of a lock that this CPU does not hold, from a state in which interrupts are off if any
  -- section is open, returns with the lock held and interrupts off, and a second acquire would
  -- panic. The release after the first one returns with the lock free and the depth, the interrupt
  -- flag and the process table as before.
  pub acquire-release :
      IsNested k
      → held l k ≡ false
      → Returns
          (λ _ m. (held l m ≡ true) × (m.cpu.intr ≡ false) × (acquire l m ≡ panic acquire_twice))
          (acquire l k)
        × Returns (λ _ m. (held l m ≡ false) × Restores k m) ((acquire l >> release l) k)
  acquire-release nested free =
      let (a, r) = acquire_steps free in
      (
        rw a (
          held-set_held l true (enter k),
          ap (λ (c : Cpu). c.intr) (cpu-set_held l true (enter k)),
          acquire-held l inner (held-enter l inner ∙ held-set_held l true (enter k)),
        ),
        rw (a, ◌>>=◌)
            (rw r (
              held-leave l k.cpu.ncli (set_held l false inner) ∙ held-set_held l false inner,
              leave-Restores nested,
            )),
      )
