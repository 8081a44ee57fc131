-- ===== src/Proc/Scheduler.antt =====
-- proc.c: one round of the loop of scheduler.
use os_lab.Kernel.Monad.{K, ◌>>=◌, ◌>>◌, modify, gets, skip, pure}
use os_lab.Proc.Services.{Services}
use Prim.Native.Nat.{ℕ}
use os_lab.Prelude.{ℕ, some, none, true, Option}
use os_lab.Spinlock.{set_cpu, acquire, release}
use os_lab.Proc.Access.{write_proc, take_from_count, stamp}
use os_lab.Kernel.State.{running, ptable_lock}
use os_lab.Proc.Choose.{choose}
use os_lab.Prelude.Int.{pos}

module _ (sv : Services) where
  -- The chosen process, up to the switch.
  unfoldable pub prepare : ℕ → K (Unit {0})
  prepare i = do
    modify (λ k. set_cpu (record (k.cpu) { proc = some i }) k)
    sv.switchuvm i
    write_proc i (λ p. record p { state = running })
    take_from_count i
    write_proc i (λ p. record p { consecutive_run = pos 0; rr_ticks = pos 0; waited_ticks = pos 0 })
    stamp i (λ t p. record p { last_run = t })

  unfoldable pub dispatch : ℕ → K (Unit {0})
  dispatch i = do
    prepare i
    sv.swtch
    sv.switchkvm
    modify (λ k. set_cpu (record (k.cpu) { proc = none }) k)

  unfoldable pub dispatch_at : Option ℕ → K (Unit {0})
  dispatch_at none = skip
  dispatch_at (some i) = dispatch i

  -- One round, from nextrrp to the next nextrrp. sti() turns interrupts on.
  unfoldable pub schedule_round : ℕ → K ℕ
  schedule_round next = do
    modify (λ k. set_cpu (record (k.cpu) { intr = true }) k)
    acquire ptable_lock
    found ← gets (λ k. choose k next)
    modify (λ k. record k { procs = found.1 })
    dispatch_at found.0.chosen
    release ptable_lock
    pure found.0.next_rr
