-- ===== src/Proc/Wakeup.antt =====
-- proc.c: wakeup1, wakeup, kill.
pub mod Kill
pub mod Wakes
use os_lab.Kernel.Monad.{K, ◌>>=◌, ◌>>◌, gets, for_each, skip, pure}
use Prim.Native.Nat.{ℕ}
use os_lab.Prelude.{
  ℕ, if◌then◌else◌, length, true, Bool, find_index, ◌&&◌, ◌==◌, none, some, Option,
}
use os_lab.Prelude.Int.{ℤ, eqb_ℤ, negsuc, pos}
use os_lab.Proc.Access.{proc_at, write_proc, is_state, stamp, arrive, add_to_count}
use os_lab.Spinlock.{acquire, release}
use os_lab.Kernel.State.{Proc, ptable_lock, sleeping, runnable}

-- The body of the loop of wakeup1 for entry `i`.
unfoldable pub wake_one : ℕ → ℕ → K (Unit {0})
wake_one chan i = do
  p ← proc_at i
  if is_state p.state sleeping && p.chan == chan
      then (do write_proc i (λ q. record q { state = runnable }); stamp i arrive; add_to_count i)
      else skip

unfoldable pub wakeup1 : ℕ → K (Unit {0})
wakeup1 chan = do n ← gets (λ k. length k.procs); for_each n 0 (wake_one chan)

unfoldable pub wakeup : ℕ → K (Unit {0})
wakeup chan = do acquire ptable_lock; wakeup1 chan; release ptable_lock

-- The body of kill for the entry that has the pid.
unfoldable pub kill_one : ℕ → K (Unit {0})
kill_one i = do
  write_proc i (λ p. record p { killed = true })
  p ← proc_at i
  if is_state p.state sleeping
      then (do write_proc i (λ q. record q { state = runnable }); stamp i arrive; add_to_count i)
      else skip

abbrev pub has_pid : ℤ → Proc → Bool
has_pid pid p = eqb_ℤ p.pid pid

-- After the loop over the table: the entry with the pid, if there is one.
unfoldable pub kill_at : Option ℕ → K ℤ
kill_at none = do release ptable_lock; pure (negsuc 0)
kill_at (some i) = do kill_one i; release ptable_lock; pure (pos 0)

unfoldable pub kill : ℤ → K ℤ
kill pid = do acquire ptable_lock; ps ← gets (λ k. k.procs); kill_at (find_index (has_pid pid) ps)
