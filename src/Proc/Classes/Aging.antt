-- ===== src/Proc/Classes/Aging.antt =====
-- update_wait_time: the clock's pass over the table.
use os_lab.Kernel.State.{Kernel, Proc, runnable, ptable_lock}
use os_lab.Kernel.Monad.{◌>>=◌, ◌>>◌, ok, for_each, pure}
use os_lab.Prelude.Int.{ℤ, ltb_ℤ, ◌-ℤ◌, pos}
use os_lab.Prelude.{
  if◌then◌else◌, ℕ, get_elem?, ◌≡◌, length, some, refl, true, ltb, ◌&&◌, not, inl, inr, ◌∙◌, ap,
  arith, set, ◌<◌, get_elem?-set_self, get_elem?_of_lt, false, lt_of_get_elem?, ◌+◌, length-set,
  Bool-cases, ◌==◌, get_elem?-set, sym, set-set, both_true, not-true,
}
use os_lab.Proc.Quiet.{
  Quiet, Section, after, inside, Quiet-after, unlock_ptable, lock_ptable, Section-inside,
}
use os_lab.Proc.Access.{is_state}
use os_lab.Proc.Tally.{Tally, Tally-keep}
use os_lab.Proc.Classes.{
  is_fcfs, aging_threshold, change_sched_level, level_counts, age_one, update_wait_time, release,
}
use os_lab.Proc.Classes.Level.{Tally-to_level, change_moves}
use os_lab.Kernel.Returns.{Returns, Returns-bind, for_each-Returns}
use os_lab.Proc.Laws.{proc_at_lem, write_proc_lem}
use os_lab.Spinlock.{release}
use os_lab.Proc.Classes.Waiting.{aged, HaveOwnPids, Progress, find_own, reenter}

module _ (now : ℤ) (k0 : Kernel) (quiet : Quiet k0) (own : HaveOwnPids k0.procs) (i : ℕ)
    (k : Kernel) (v : Progress now k0 i k) (p : Proc) (g : get_elem? k0.procs i ≡ some p) where
  here : get_elem? k.procs i ≡ some p
  here = ground (arith, v.entries i p g)

  abbrev waited : ℤ
  waited = now -ℤ p.arrival_time

  -- The entry after the write of `waited_ticks`, then in level 1, then with the new arrival.
  abbrev p1 : Proc
  p1 = record p { waited_ticks = waited }

  abbrev p2 : Proc
  p2 = record p { waited_ticks = waited; sched_level = 1 }

  abbrev p3 : Proc
  p3 = record p { waited_ticks = waited; sched_level = 1; arrival_time = now }

  -- The states after the write, the release, the change of the level, the acquire, the last write.
  abbrev k1 : Kernel
  k1 = record k { procs = set k.procs i p1 }

  abbrev k2 : Kernel
  k2 = after k0 k1

  abbrev k3 : Kernel
  k3 = record (inside k2) { procs = set k1.procs i p2; counts = level_counts p1 k1.counts }

  abbrev k4 : Kernel
  k4 = inside (after k2 k3)

  abbrev k5 : Kernel
  k5 = record k4 { procs = set k4.procs i p3 }

  s1 : Section k0 k1
  s1 = record { cpu = v.sect.cpu; mine = v.sect.mine; clock = v.sect.clock }

  lt : i < length k.procs
  lt = lt_of_get_elem? k.procs i here

  here1 : get_elem? k1.procs i ≡ some p1
  here1 = get_elem?-set_self k.procs i p1 lt

  -- No entry but `i` has its pid, in the table of `k1`.
  own1 :
      (j : ℕ) (q : Proc)
      → is_state p.state runnable ≡ true
      → get_elem? k1.procs j ≡ some q
      → q.pid ≡ p.pid
      → j ≡ i
  own1 j q ready gq same =
      let (q0, g0) =
        get_elem?_of_lt k0.procs j
          (omega (arith, lt_of_get_elem? k1.procs j gq, length-set k.procs i p1, v.size)) in
      elim (Bool-cases (i == j)) [
        | inl e ↦ ground arith
        | inr ne ↦
            own i j p q0 g g0 ready
              (ground (arith, v.entries j q0 g0, get_elem?-set k.procs i j p1 here))
      ]

  -- The table with the aged entry at `i`.
  entries-set :
      (p' : Proc)
      → aged now p ≡ p'
      → (j : ℕ) (q : Proc) → get_elem? k0.procs j ≡ some q
      → get_elem? (set k.procs i p') j ≡ some (if ltb j (i + 1) then aged now q else q)
  entries-set p' e j q gq = elim (Bool-cases (i == j)) [
    | inl same ↦
        let at : i ≡ j = ground arith in
        let pq : some p ≡ some q = (sym g ∙ ap (get_elem? k0.procs) at) ∙ gq in
        ground (arith, get_elem?-set k.procs i j p' here)
    | inr other ↦ ground (arith, v.entries j q gq, get_elem?-set k.procs i j p' here)
  ]

  tally1 : Tally k1.procs k1.counts
  tally1 = Tally-keep k.procs k.counts i p p1 here v.tally refl refl refl

  quiet2 : Quiet k2
  quiet2 = Quiet-after k0 k1 s1 quiet tally1

  s3 : Section k2 k3
  s3 = record { cpu = refl; mine = refl; clock = v.sect.clock }

  -- A process that has waited too long goes to level 1 and arrives anew.
  module _ (ready : is_state p.state runnable ≡ true) (fcfs : is_fcfs p ≡ true) where
    level_moves : change_sched_level p.pid (pos 1) k2 ≡ ok (pos 0) (after k2 k3)
    level_moves =
        change_moves p.pid (pos 1) k2 refl refl i p1
          (find_own k1.procs i p1 here1 (λ j q gq e. own1 j q ready gq e)) here1 (ground arith)
          v.sect.clock

    tally3 : Tally k3.procs k3.counts
    tally3 = Tally-to_level i (pos 1) k1 p1 here1 tally1 refl (ground arith) (λ _. ground arith)

    Quiet-now : Quiet (after k2 k3)
    Quiet-now = Quiet-after k2 k3 s3 quiet2 tally3

    here3 : get_elem? k3.procs i ≡ some p2
    here3 = get_elem?-set_self k1.procs i p2 (lt_of_get_elem? k1.procs i here1)

    module _ (long : ltb_ℤ waited aging_threshold ≡ false) where
      promoted : aged now p ≡ p3
      promoted = rw ready (rw fcfs (rw long refl))

    Progress-promoted : ltb_ℤ waited aging_threshold ≡ false → Progress now k0 (i + 1) k5
    Progress-promoted long = record {
      sect =
          let r : Section k0 k4 = reenter k0 k1 k3 quiet s1 s3 in
          record { cpu = r.cpu; mine = refl; clock = v.sect.clock };
      tally = Tally-keep k3.procs k3.counts i p2 p3 here3 tally3 refl refl refl;
      size =
          length-set k3.procs i p3
          ∙ (length-set k1.procs i p2 ∙ (length-set k.procs i p1 ∙ v.size));
      entries = λ j q gq. rw set-set (rw set-set (entries-set p3 (promoted long) j q gq));
    }

    age_promotes : ltb_ℤ waited aging_threshold ≡ false → age_one now i k ≡ ok tt k5
    unfolding age_one
    age_promotes long =
        rw (proc_at_lem i k here, ◌>>=◌)
          (rw ready (
            rw (write_proc_lem i k here (λ q. record q { waited_ticks = waited }), ◌>>=◌)
              (rw fcfs (
                rw long (
                  rw (unlock_ptable k0 k1 s1, ◌>>=◌)
                    (rw (level_moves, ◌>>=◌)
                      (rw (lock_ptable (after k2 k3) Quiet-now, ◌>>=◌)
                        (write_proc_lem i k4 here3 (λ q. record q { arrival_time = now })))))))))

  -- A process that does not is told its time of waiting.
  Progress-waits :
      is_state p.state runnable ≡ true
      → (is_fcfs p && not (ltb_ℤ waited aging_threshold)) ≡ false
      → Progress now k0 (i + 1) k1
  Progress-waits ready no_wait = record {
    sect = s1;
    tally = tally1;
    size = length-set k.procs i p1 ∙ v.size;
    entries = λ j q gq. entries-set p1 (rw ready (rw no_wait refl)) j q gq;
  }

  Progress-idle : is_state p.state runnable ≡ false → Progress now k0 (i + 1) k
  Progress-idle idle = record {
    sect = v.sect;
    tally = v.tally;
    size = v.size;
    entries = λ j q gq. elim (Bool-cases (i == j)) [
      | inl same ↦
          let at : i ≡ j = ground arith in
          let pq : some p ≡ some q = (sym g ∙ ap (get_elem? k0.procs) at) ∙ gq in
          let keep : aged now p ≡ p = rw idle refl in ground (arith, here)
      | inr other ↦ ground (arith, v.entries j q gq)
    ];
  }

  age_waits :
      is_state p.state runnable ≡ true
      → (is_fcfs p && not (ltb_ℤ waited aging_threshold)) ≡ false
      → age_one now i k ≡ ok tt k1
  unfolding age_one
  age_waits ready no_wait =
      rw (proc_at_lem i k here, ◌>>=◌)
        (rw ready (
          rw (write_proc_lem i k here (λ q. record q { waited_ticks = waited }), ◌>>=◌)
            (rw no_wait refl)))

  age_idle : is_state p.state runnable ≡ false → age_one now i k ≡ ok tt k
  unfolding age_one
  age_idle idle = rw (proc_at_lem i k here, ◌>>=◌) (rw idle refl)

  age_one-Progress : Returns (λ _. Progress now k0 (i + 1)) (age_one now i k)
  age_one-Progress = elim (Bool-cases (is_state p.state runnable)) [
    | inr idle ↦ rw (age_idle idle) (Progress-idle idle)
    | inl ready ↦ elim (Bool-cases (is_fcfs p && not (ltb_ℤ waited aging_threshold))) [
      | inr stays ↦ rw (age_waits ready stays) (Progress-waits ready stays)
      | inl long ↦
          let (fcfs, late) = both_true (is_fcfs p) (not (ltb_ℤ waited aging_threshold)) long in
          let old : ltb_ℤ waited aging_threshold ≡ false = not-true _ late in
          rw (age_promotes ready fcfs old) (Progress-promoted ready fcfs old)
    ]
  ]

-- Called with no lock of the scheduler held and counters that agree with the table, where no other
-- entry has the pid of a RUNNABLE process, update_wait_time returns 0 in such a state again. Every
-- RUNNABLE entry then has the time that it has waited; one of class 2 and level 2 that has waited
-- for at least AGING_THRESHOLD ticks is in level 1 and arrives now; all else in the table is as it
-- was.
pub update_wait_time_lem :
    (now : ℤ) (k : Kernel)
    → Quiet k
    → HaveOwnPids k.procs
    → Returns
        (λ r k'.
          (r ≡ pos 0)
          × Quiet k'
          × (length k'.procs ≡ length k.procs)
          × ((j : ℕ) (p : Proc)
              → get_elem? k.procs j ≡ some p
              → get_elem? k'.procs j ≡ some (aged now p)))
        (update_wait_time now k)
unfolding update_wait_time
update_wait_time_lem now k q own =
    rw (lock_ptable k q, ◌>>=◌)
      (Returns-bind (λ _. Progress now k (length k.procs)) _
        (for_each (length k.procs) 0 (age_one now)) (λ _. (do release ptable_lock; pure (pos 0)))
        (inside k)
        (for_each-Returns (Progress now k) (age_one now) (length k.procs)
          (λ i k' lt v.
            let (p, g) = get_elem?_of_lt k.procs i lt in age_one-Progress now k q own i k' v p g)
          (length k.procs) 0 (inside k) (omega arith)
          (record {
            sect = Section-inside k q;
            tally = q.tally;
            size = refl;
            entries = λ j p g. ground arith;
          }))
        (λ _ k' v.
          rw (unlock_ptable k k' v.sect, ◌>>=◌)
            (
              refl,
              Quiet-after k k' v.sect q v.tally,
              v.size,
              λ j p g. ground (arith, v.entries j p g, lt_of_get_elem? k.procs j g),
            )))
