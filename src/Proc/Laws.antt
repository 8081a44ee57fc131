-- ===== src/Proc/Laws.antt =====
-- What the accesses of proc.c do to the state, for the proofs of its functions.
use os_lab.Kernel.Monad.{◌>>=◌, ok, deref}
use os_lab.Kernel.State.{Kernel, Proc, tickslock, set_held}
use Prim.Native.Nat.{ℕ}
use os_lab.Prelude.{◌<◌, ℕ, ◌≡◌, get_elem?, false, some, set, true, arith, ◌∙◌, refl}
use os_lab.Proc.Access.{
  proc_at, write_proc, add_to_count, take_from_count, stamp, count_up, count_down,
}
use os_lab.Prelude.Int.{ℤ, to_int}
use os_lab.Spinlock.Laws.{acquire_lem, enter, release_lem}

-- A section in which interrupts are off and tickslock is free.
pub record Busy (k : Kernel) : Type 0 where
  pub deep : 0 < k.cpu.ncli
  pub off : k.cpu.intr ≡ false
  pub clock : k.ticks_held ≡ false

module _ (i : ℕ) (k : Kernel) {p : Proc} (here : get_elem? k.procs i ≡ some p) where
  pub proc_at_lem : proc_at i k ≡ ok p k
  unfolding proc_at
  proc_at_lem = rw (here, deref) refl

  pub write_proc_lem :
      (f : Proc → Proc) → write_proc i f k ≡ ok tt (record k { procs = set k.procs i (f p) })
  unfolding write_proc
  write_proc_lem f = rw (proc_at_lem, ◌>>=◌) refl

  pub add_to_count_lem : add_to_count i k ≡ ok tt (record k { counts = count_up p k.counts })
  unfolding add_to_count
  add_to_count_lem = rw (proc_at_lem, ◌>>=◌) refl

  pub take_from_count_lem :
      take_from_count i k ≡ ok tt (record k { counts = count_down p k.counts })
  unfolding take_from_count
  take_from_count_lem = rw (proc_at_lem, ◌>>=◌) refl

module _ (i : ℕ) (k : Kernel) {p : Proc} (here : get_elem? k.procs i ≡ some p) where
  pub stamp_lem :
      (f : ℤ → Proc → Proc)
      → Busy k
      → stamp i f k ≡ ok tt (record k { procs = set k.procs i (f (to_int k.ticks) p) })
  unfolding stamp
  stamp_lem f b =
      rw (acquire_lem tickslock k b.clock, ◌>>=◌)
        (rw (write_proc_lem i (set_held tickslock true (enter k)) here (f (to_int k.ticks)), ◌>>=◌)
          (release_lem tickslock k.cpu.ncli
              (record (set_held tickslock true (enter k)) {
                procs = set k.procs i (f (to_int k.ticks) p);
              })
              refl (omega arith) refl
            ∙ ground (arith, b.deep, b.off, b.clock)))
