-- ===== src/Proc/Classes/Level.antt =====
-- change_sched_level: where it keeps the counters and where it does not, and the lock that it keeps.
use os_lab.Kernel.State.{Kernel, Proc, runnable, ptable_lock}
use os_lab.Kernel.Monad.{◌>>=◌, ok, panic, acquire_twice}
use Prim.Native.Nat.{ℕ}
use os_lab.Prelude.Int.{ℤ, eqb_ℤ, pos, negsuc, ◌-ℤ◌, ◌+ℤ◌}
use os_lab.Prelude.{
  Bool, ℕ, if◌then◌else◌, ◌==◌, get_elem?, ◌&&◌, ◌≡◌, ◌||◌, some, set, true, false, arith,
  count-set, find_index, none, not, ◌∙◌, ◌⊎◌, refl, Option, inl, find_index-some, inr,
}
use os_lab.Proc.Classes.{
  to_level, level_counts, is_state, change_sched_level, change_at, has_pid, change_found, acquire,
}
use os_lab.Proc.Tally.{Tally, is_rr_queued}
use os_lab.Proc.Laws.{proc_at_lem, write_proc_lem}
use os_lab.Proc.Access.{is_state}
use os_lab.Proc.Choose.{is_edf_runnable, is_fcfs_runnable}
use os_lab.Proc.Quiet.{Quiet, inside, after, Section, unlock_ptable, Section-inside, Quiet-after}
use os_lab.Proc.Wakeup.{has_pid}
use os_lab.Kernel.Returns.{Returns}
use os_lab.Spinlock.{acquire}
use os_lab.Spinlock.Laws.{acquire_lem, acquire-held}

abbrev is_level : ℤ → Bool
is_level target = eqb_ℤ target (pos 1) || eqb_ℤ target (pos 2)

abbrev pub with_level : ℤ → Proc → Proc
with_level target p = record p { sched_level = if eqb_ℤ target (pos 2) then 2 else 1 }

abbrev pub is_normal : Proc → Bool
is_normal p = p.sched_class == 2 && (p.sched_level == 1 || p.sched_level == 2)

module _ (i : ℕ) (target : ℤ) (k : Kernel) (p : Proc) (here : get_elem? k.procs i ≡ some p) where
  pub to_level_lem :
      to_level i target k
      ≡ ok tt (record k {
        procs = set k.procs i (with_level target p);
        counts = level_counts p k.counts;
      })
  unfolding to_level
  to_level_lem =
      rw (proc_at_lem i k here, ◌>>=◌)
        (write_proc_lem i (record k { counts = level_counts p k.counts }) here
          (λ q. record q { sched_level = if eqb_ℤ target (pos 2) then 2 else 1 }))

  pub Tally-to_level :
      Tally k.procs k.counts
      → is_level target ≡ true
      → eqb_ℤ (pos p.sched_level) target ≡ false
      → (is_state p.state runnable ≡ true → is_normal p ≡ true)
      → Tally (set k.procs i (with_level target p)) (level_counts p k.counts)
  unfolding level_counts
  Tally-to_level t fits other normal = record {
    edf =
        ground
          (arith, t.edf, normal, count-set is_edf_runnable k.procs i (with_level target p) here);
    rr = ground (arith, t.rr, normal, count-set is_rr_queued k.procs i (with_level target p) here);
    fcfs =
        ground
          (arith, t.fcfs, normal, count-set is_fcfs_runnable k.procs i (with_level target p) here);
  }

module _ (pid target : ℤ) (k : Kernel) (fits : is_level target ≡ true)
    (free : k.ptable_held ≡ false) where
  change_starts :
      change_sched_level pid target k
      ≡ change_at target (find_index (has_pid pid) k.procs) (inside k)
  unfolding change_sched_level
  change_starts =
      let e : (not (eqb_ℤ target (pos 1)) && not (eqb_ℤ target (pos 2))) ≡ false = ground arith in
      rw e (rw (acquire_lem ptable_lock k free, ◌>>=◌) refl)

  -- The branch that leaves the table alone and the lock held.
  change_keeps_lock :
      (i : ℕ) (p : Proc)
      → find_index (has_pid pid) k.procs ≡ some i
      → get_elem? k.procs i ≡ some p
      → eqb_ℤ (pos p.sched_level) target ≡ true
      → change_sched_level pid target k ≡ ok (negsuc 0) (inside k)
  unfolding change_at change_found
  change_keeps_lock i p e g same =
      change_starts ∙ rw e (rw (proc_at_lem i (inside k) g, ◌>>=◌) (rw same refl))

  pub change_moves :
      (i : ℕ) (p : Proc)
      → find_index (has_pid pid) k.procs ≡ some i
      → get_elem? k.procs i ≡ some p
      → eqb_ℤ (pos p.sched_level) target ≡ false
      → k.ticks_held ≡ false
      → change_sched_level pid target k
        ≡ ok (pos 0) (
            after k (record (inside k) {
              procs = set k.procs i (with_level target p);
              counts = level_counts p k.counts;
            }))
  unfolding change_at change_found
  change_moves i p e g other clock =
      let k1 : Kernel = record (inside k) {
        procs = set k.procs i (with_level target p);
        counts = level_counts p k.counts;
      } in
      let s1 : Section k k1 = record { cpu = refl; mine = refl; clock = clock } in
      change_starts
      ∙ rw e (
          rw (proc_at_lem i (inside k) g, ◌>>=◌)
            (rw other (
              rw (to_level_lem i target (inside k) p g, ◌>>=◌)
                (rw (unlock_ptable k k1 s1, ◌>>=◌) refl))))

-- The outcomes of change_sched_level for a process that is not in the target level.
abbrev pub LevelOutcome : ℤ → ℤ → Kernel → ℤ → Kernel → Type 0
LevelOutcome pid target k r k' =
    ((find_index (has_pid pid) k.procs ≡ none) × (r ≡ negsuc 0) × (k'.procs ≡ k.procs))
    ⊎ ((i : ℕ) × (p : Proc) × (find_index (has_pid pid) k.procs ≡ some i)
        × (get_elem? k.procs i ≡ some p)
        × (r ≡ pos 0)
        × (k'.procs ≡ set k.procs i (with_level target p)))

-- Called with target 1 or 2, no lock of the scheduler held and counters that agree with the table,
-- for a pid whose first entry is of the normal class if RUNNABLE, and not in the target level,
-- change_sched_level returns in such a state again. If no entry has the pid, it returns -1 and
-- leaves the table; otherwise it returns 0 and the first entry with the pid has the target level,
-- the other entries being as before.
pub change_level_lem :
    (pid target : ℤ) (k : Kernel)
    → Quiet k
    → is_level target ≡ true
    → ((i : ℕ) (p : Proc)
        → find_index (has_pid pid) k.procs ≡ some i
        → get_elem? k.procs i ≡ some p
        → (eqb_ℤ (pos p.sched_level) target ≡ false)
          × (is_state p.state runnable ≡ true → is_normal p ≡ true))
    → Returns (λ r k'. Quiet k' × LevelOutcome pid target k r k') (change_sched_level pid target k)
change_level_lem pid target k q fits other = found (find_index (has_pid pid) k.procs) refl
  where
    s : Section k (inside k)
    s = Section-inside k q

    found :
        (o : Option ℕ)
        → find_index (has_pid pid) k.procs ≡ o
        → Returns
            (λ r k'. Quiet k' × LevelOutcome pid target k r k')
            (change_sched_level pid target k)
    found none e =
        let e' : change_sched_level pid target k ≡ ok (negsuc 0) (after k (inside k)) =
          change_starts pid target k fits q.unlocked
          ∙ rw e (unfold change_at in rw (unlock_ptable k (inside k) s, ◌>>=◌) refl) in
        rw e' (Quiet-after k (inside k) s q q.tally, inl (e, refl, refl))
    found (some i) e =
        let (p, g, is) = find_index-some (has_pid pid) k.procs e in
        let (differs, normal) = other i p e g in
        let k1 : Kernel = record (inside k) {
          procs = set k.procs i (with_level target p);
          counts = level_counts p k.counts;
        } in
        let s1 : Section k k1 = record { cpu = refl; mine = refl; clock = q.clock } in
        rw (change_moves pid target k fits q.unlocked i p e g differs q.clock) (
          Quiet-after k k1 s1 q (Tally-to_level i target k p g q.tally fits differs normal),
          inr (i, p, e, g, refl, refl),
        )

-- For a process that is in the target level already, change_sched_level returns -1 and does not
-- release ptable.lock: the lock is held in the state that it returns, and the next acquire of it
-- on this CPU panics.
pub change_level_leaks_lock :
    (pid target : ℤ) (k : Kernel) (i : ℕ) (p : Proc)
    → k.ptable_held ≡ false
    → is_level target ≡ true
    → find_index (has_pid pid) k.procs ≡ some i
    → get_elem? k.procs i ≡ some p
    → eqb_ℤ (pos p.sched_level) target ≡ true
    → Returns
        (λ r k'. (r ≡ negsuc 0) × (k'.procs ≡ k.procs) × (k'.ptable_held ≡ true))
        (change_sched_level pid target k)
      × ((change_sched_level pid target k) ≡ ok (negsuc 0) (inside k))
      × (acquire ptable_lock (inside k) ≡ panic acquire_twice)
change_level_leaks_lock pid target k i p free fits e g same =
    let kept : change_sched_level pid target k ≡ ok (negsuc 0) (inside k) =
      change_keeps_lock pid target k fits free i p e g same in
    (rw kept (refl, refl, refl), kept, acquire-held ptable_lock (inside k) refl)

-- For a RUNNABLE process of the EDF class, at level 0, change_sched_level returns 0 and takes one
-- from count_fcfs and adds one to count_rr, although the process stays in the EDF class and was
-- counted there: from counters that agree with the table it makes counters that do not.
pub change_level_drifts :
    (pid target : ℤ) (k : Kernel) (i : ℕ) (p : Proc)
    → Quiet k
    → is_level target ≡ true
    → find_index (has_pid pid) k.procs ≡ some i
    → get_elem? k.procs i ≡ some p
    → is_state p.state runnable ≡ true
    → p.sched_class ≡ 1
    → p.sched_level ≡ 0
    → Returns
        (λ r k'.
          (r ≡ pos 0)
          × (k'.counts.fcfs ≡ k.counts.fcfs -ℤ pos 1)
          × (k'.counts.rr ≡ k.counts.rr +ℤ pos 1)
          × (k'.procs ≡ set k.procs i (with_level target p))
          × ¬ Tally k'.procs k'.counts)
        (change_sched_level pid target k)
change_level_drifts pid target k i p q fits e g ready edf zero_level =
    rw (change_moves pid target k fits q.unlocked i p e g (ground arith) q.clock) (
      refl,
      unfold level_counts in ground arith,
      unfold level_counts in ground arith,
      refl,
      λ t. drift t,
    )
  where
    drift : ¬ Tally (set k.procs i (with_level target p)) (level_counts p k.counts)
    drift t =
        unfold level_counts in
        ground (arith, t.rr, q.tally.rr, count-set is_rr_queued k.procs i (with_level target p) g)
