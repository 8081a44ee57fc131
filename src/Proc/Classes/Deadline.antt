-- ===== src/Proc/Classes/Deadline.antt =====
-- set_deadline_for_process.
use os_lab.Kernel.State.{Kernel, Proc, runnable}
use os_lab.Kernel.Monad.{◌>>=◌, ok}
use Prim.Native.Nat.{ℕ}
use os_lab.Prelude.{
  Bool, List, ℕ, ◌==◌, get_elem?, ◌&&◌, ◌≡◌, ◌||◌, some, true, set, arith, count-set, false, ◌⊎◌,
  Bool-cases, find_index, Option, inl, inr, none, refl, find_index-some,
}
use os_lab.Prelude.Int.{ℤ, pos, ltb_ℤ, negsuc, eqb_ℤ→eq}
use os_lab.Proc.Access.{is_state}
use os_lab.Proc.Tally.{Tally, is_rr_queued}
use os_lab.Proc.Classes.{
  to_edf, deadline_counts, set_deadline_for_process, set_deadline_at, has_pid,
}
use os_lab.Proc.Laws.{proc_at_lem, write_proc_lem}
use os_lab.Proc.Choose.{is_edf_runnable, is_fcfs_runnable}
use os_lab.Proc.Quiet.{
  Quiet, Section, inside, Section-inside, unlock_ptable, lock_ptable, Quiet-after,
}
use os_lab.Kernel.Returns.{Returns}
use os_lab.Proc.Wakeup.{has_pid}

-- The levels that go with the classes: 0 with EDF, 1 (RR) or 2 (FCFS) with the normal class.
abbrev is_graded : Proc → Bool
is_graded p =
    (p.sched_class == 1 && p.sched_level == 0)
    || (p.sched_class == 2 && (p.sched_level == 1 || p.sched_level == 2))

abbrev pub AreGraded : List Proc → Type 0
AreGraded ps =
    (i : ℕ) (p : Proc)
    → get_elem? ps i ≡ some p
    → is_state p.state runnable ≡ true
    → is_graded p ≡ true

abbrev with_deadline : ℤ → Proc → Proc
with_deadline d p = record p { sched_level = 0; sched_class = 1; deadline = d }

module _ (i : ℕ) (d : ℤ) (k : Kernel) (p : Proc) (here : get_elem? k.procs i ≡ some p) where
  pub to_edf_lem :
      to_edf i d k
      ≡ ok tt (record k {
        procs = set k.procs i (with_deadline d p);
        counts = deadline_counts p k.counts;
      })
  unfolding to_edf
  to_edf_lem =
      rw (proc_at_lem i k here, ◌>>=◌)
        (write_proc_lem i (record k { counts = deadline_counts p k.counts }) here
          (λ q. record q { sched_level = 0; sched_class = 1; deadline = d }))

  pub Tally-to_edf :
      Tally k.procs k.counts
      → (is_state p.state runnable ≡ true → is_graded p ≡ true)
      → Tally (set k.procs i (with_deadline d p)) (deadline_counts p k.counts)
  unfolding deadline_counts
  Tally-to_edf t graded = record {
    edf =
        ground (arith, t.edf, graded, count-set is_edf_runnable k.procs i (with_deadline d p) here);
    rr = ground (arith, t.rr, graded, count-set is_rr_queued k.procs i (with_deadline d p) here);
    fcfs =
        ground
          (arith, t.fcfs, graded, count-set is_fcfs_runnable k.procs i (with_deadline d p) here);
  }

-- The three outcomes of set_deadline_for_process.
abbrev pub DeadlineOutcome : ℤ → ℤ → Kernel → ℤ → Kernel → Type 0
DeadlineOutcome pid d k r k' =
    ((ltb_ℤ d (pos 0) ≡ true) × (r ≡ negsuc 0) × (k' ≡ k))
    ⊎ ((ltb_ℤ d (pos 0) ≡ false)
        × (find_index (has_pid pid) k.procs ≡ none)
        × (r ≡ negsuc 0)
        × (k'.procs ≡ k.procs))
    ⊎ ((i : ℕ) × (p : Proc) × (get_elem? k.procs i ≡ some p)
        × (p.pid ≡ pid)
        × (r ≡ pos 0)
        × (k'.procs ≡ set k.procs i (with_deadline d p)))

module _ (pid d : ℤ) (k : Kernel) (q : Quiet k) (graded : AreGraded k.procs)
    (fits : ltb_ℤ d (pos 0) ≡ false) where
  abbrev s : Section k (inside k)
  s = Section-inside k q

  set_deadline_at_lem :
      (o : Option ℕ)
      → find_index (has_pid pid) k.procs ≡ o
      → Returns (λ r k'. Quiet k' × DeadlineOutcome pid d k r k') (set_deadline_at d o (inside k))
  unfolding set_deadline_at
  set_deadline_at_lem none e =
      rw (unlock_ptable k (inside k) s, ◌>>=◌)
        (Quiet-after k (inside k) s q q.tally, inr (inl (fits, e, refl, refl)))
  set_deadline_at_lem (some i) e =
      let (p, g, is) = find_index-some (has_pid pid) k.procs e in
      let k1 : Kernel = record (inside k) {
        procs = set k.procs i (with_deadline d p);
        counts = deadline_counts p k.counts;
      } in
      let s1 : Section k k1 = record { cpu = refl; mine = refl; clock = q.clock } in
      rw (to_edf_lem i d (inside k) p g, ◌>>=◌)
        (rw (unlock_ptable k k1 s1, ◌>>=◌)
          (
            Quiet-after k k1 s1 q (Tally-to_edf i d k p g q.tally (graded i p g)),
            inr (inr (i, p, g, eqb_ℤ→eq p.pid pid is, refl, refl)),
          ))

-- Called with no lock of the scheduler held, counters that agree with the table, and a level that
-- goes with the class in every RUNNABLE entry, set_deadline_for_process returns in such a state
-- again. A negative deadline gives -1 and changes nothing; a pid that no entry has gives -1 and
-- leaves the table; otherwise 0 is returned and one entry with the pid is in class 1, at level 0
-- and with the deadline, the other entries being as before.
pub set_deadline_lem :
    (pid d : ℤ) (k : Kernel)
    → Quiet k
    → AreGraded k.procs
    → Returns (λ r k'. Quiet k' × DeadlineOutcome pid d k r k') (set_deadline_for_process pid d k)
unfolding set_deadline_for_process
set_deadline_lem pid d k q graded = elim (Bool-cases (ltb_ℤ d (pos 0))) [
  | inl negative ↦
      let e : set_deadline_for_process pid d k ≡ ok (negsuc 0) k = rw negative refl in
      rw e (q, inl (negative, refl, refl))
  | inr fits ↦
      let e : set_deadline_for_process pid d k
          ≡ set_deadline_at d (find_index (has_pid pid) k.procs) (inside k) =
        rw fits (rw (lock_ptable k q, ◌>>=◌) refl) in
      rw e (set_deadline_at_lem pid d k q graded fits (find_index (has_pid pid) k.procs) refl)
]
