-- ===== src/Proc/Wakeup/Kill.antt =====
-- wakeup and kill as system calls and other parts of the kernel call them.
use os_lab.Kernel.State.{Kernel, Proc, sleeping, runnable, ptable_lock}
use os_lab.Kernel.Monad.{◌>>=◌, ◌>>◌, pure}
use Prim.Native.Nat.{ℕ}
use os_lab.Prelude.Int.{ℤ, pos, to_int, negsuc, eqb_ℤ→eq}
use os_lab.Prelude.{
  ℕ, if◌then◌else◌, get_elem?, ◌≡◌, some, true, set, get_elem?-set_self, lt_of_get_elem?,
  Bool-cases, inl, set-set, arith, inr, refl, find_index, none, ◌⊎◌, Option, find_index-some,
}
use os_lab.Proc.Access.{is_state}
use os_lab.Proc.Laws.{Busy, write_proc_lem, proc_at_lem}
use os_lab.Proc.Tally.{Tally, Tally-enqueue, Tally-keep}
use os_lab.Proc.Wakeup.{kill_one, kill, has_pid, release, kill_at}
use os_lab.Kernel.Returns.{Returns, Returns-bind}
use os_lab.Proc.Wakeup.Wakes.{make_runnable_lem, woken}
use os_lab.Proc.Quiet.{
  Quiet, Section, inside, Section-inside, unlock_ptable, Quiet-after, Busy-Section, lock_ptable,
  Section-rest,
}
use os_lab.Spinlock.{release}

abbrev struck : ℤ → Proc → Proc
struck t p =
    if is_state p.state sleeping
    then record p { killed = true; state = runnable; arrival_time = t; waited_ticks = pos 0 }
    else record p { killed = true }

module _ (i : ℕ) (k : Kernel) (p : Proc) (here : get_elem? k.procs i ≡ some p) (b : Busy k)
    (t : Tally k.procs k.counts) where
  abbrev k1 : Kernel
  k1 = record k { procs = set k.procs i (record p { killed = true }) }

  here1 : get_elem? k1.procs i ≡ some (record p { killed = true })
  here1 = get_elem?-set_self k.procs i (record p { killed = true }) (lt_of_get_elem? k.procs i here)

  t1 : Tally k1.procs k.counts
  t1 = Tally-keep k.procs k.counts i p (record p { killed = true }) here t refl refl refl

  pub kill_one_lem :
      Returns
        (λ _ k'.
          (k'.procs ≡ set k.procs i (struck (to_int k.ticks) p))
          × Tally k'.procs k'.counts
          × (record k' { procs = k.procs; counts = k.counts } ≡ k))
        (kill_one i k)
  unfolding kill_one
  kill_one_lem = elim (Bool-cases (is_state p.state sleeping)) [
    | inl asleep ↦
        rw (write_proc_lem i k here (λ q. record q { killed = true }), ◌>>=◌)
          (rw (proc_at_lem i k1 here1, ◌>>=◌)
            (rw asleep (
              rw
                (make_runnable_lem i k1 here1
                  (record { deep = b.deep; off = b.off; clock = b.clock }))
                (
                  rw set-set refl,
                  Tally-enqueue k1.procs k.counts i (record p { killed = true })
                      (woken (to_int k.ticks) (record p { killed = true })) here1 t1 (ground arith)
                      refl,
                  refl,
                ))))
    | inr awake ↦
        rw (write_proc_lem i k here (λ q. record q { killed = true }), ◌>>=◌)
          (rw (proc_at_lem i k1 here1, ◌>>=◌) (rw awake (refl, t1, refl)))
  ]

-- The two outcomes of kill.
abbrev pub KillOutcome : ℤ → Kernel → ℤ → Kernel → Type 0
KillOutcome pid k r k' =
    ((find_index (has_pid pid) k.procs ≡ none) × (r ≡ negsuc 0) × (k'.procs ≡ k.procs))
    ⊎ ((i : ℕ) × (p : Proc) × (get_elem? k.procs i ≡ some p)
        × (p.pid ≡ pid)
        × (r ≡ pos 0)
        × (k'.procs ≡ set k.procs i (struck (to_int k.ticks) p)))

module _ (pid : ℤ) (k : Kernel) (q : Quiet k) where
  abbrev s : Section k (inside k)
  s = Section-inside k q

  kill_at_lem :
      (o : Option ℕ)
      → find_index (has_pid pid) k.procs ≡ o
      → Returns (λ r k'. Quiet k' × KillOutcome pid k r k') (kill_at o (inside k))
  unfolding kill_at
  kill_at_lem none e =
      rw (unlock_ptable k (inside k) s, ◌>>=◌)
        (Quiet-after k (inside k) s q q.tally, inl (e, refl, refl))
  kill_at_lem (some i) e =
      let (p, g, is) = find_index-some (has_pid pid) k.procs e in
      Returns-bind _ (λ r k'. Quiet k' × KillOutcome pid k r k') (kill_one i)
        (λ _. (do release ptable_lock; pure (pos 0))) (inside k)
        (kill_one_lem i (inside k) p g (Busy-Section k (inside k) s) q.tally)
        (λ _ k' h.
          let s' : Section k k' = Section-rest k q h.2 in
          rw (unlock_ptable k k' s', ◌>>=◌)
            (Quiet-after k k' s' q h.1, inr (i, p, g, eqb_ℤ→eq p.pid pid is, refl, h.0)))

-- Called with no lock of the scheduler held and counters that agree with the table, kill returns in
-- such a state again. If no entry has the pid it returns -1 and the table is as before. Otherwise
-- it returns 0, and one entry with that pid is marked killed and made RUNNABLE if it slept, with
-- the time of the clock; the other entries are as before.
pub kill_lem :
    (pid : ℤ) (k : Kernel)
    → Quiet k
    → Returns (λ r k'. Quiet k' × KillOutcome pid k r k') (kill pid k)
unfolding kill
kill_lem pid k q =
    rw (lock_ptable k q, ◌>>=◌) (kill_at_lem pid k q (find_index (has_pid pid) k.procs) refl)
