-- ===== src/Proc/Choose.antt =====
-- proc.c: how scheduler chooses a process.
pub mod Scan
pub mod RoundRobin
pub mod Policy
pub mod Turns
use os_lab.Kernel.State.{Kernel, Proc, runnable}
use Prim.Native.Nat.{ℕ, suc}
use os_lab.Prelude.{
  Bool, Option, List, if◌then◌else◌, ℕ, ◌∷◌, some, none, ◌+◌, ◌&&◌, ◌==◌, true, false, length,
  get_elem?, map, [], zero,
}
use os_lab.Proc.Access.{is_state}
use os_lab.Prelude.Int.{ltb_ℤ, ◌+ℤ◌, pos}

-- The loop of the EDF and of the FCFS branch: among the eligible entries the first that comes
-- before all others. `chosen` is carried as an index with what the entry holds.
unfoldable pub scan :
    (Proc → Bool) → (Proc → Proc → Bool) → List Proc → ℕ → Option (ℕ × Proc) → Option (ℕ × Proc)
scan ok before [] i chosen = chosen
scan ok before (p ∷ ps) i chosen =
    scan ok before ps (i + 1) (
      if ok p && elim chosen [ none ↦ true | some (j, c) ↦ before p c ]
      then some (i, p)
      else chosen)

abbrev pub is_edf_runnable : Proc → Bool
is_edf_runnable p = is_state p.state runnable && p.sched_class == 1

abbrev pub is_fcfs_runnable : Proc → Bool
is_fcfs_runnable p = is_state p.state runnable && (p.sched_class == 2 && p.sched_level == 2)

abbrev earlier_deadline : Proc → Proc → Bool
earlier_deadline p c = ltb_ℤ p.deadline c.deadline

abbrev earlier_arrival : Proc → Proc → Bool
earlier_arrival p c = ltb_ℤ p.arrival_time c.arrival_time

abbrev pub index_of : Option (ℕ × Proc) → Option ℕ
index_of none = none
index_of (some (i, p)) = some i

unfoldable pub pick_edf : List Proc → Option ℕ
pick_edf ps = index_of (scan is_edf_runnable earlier_deadline ps 0 none)

unfoldable pub pick_fcfs : List Proc → Option ℕ
pick_fcfs ps = index_of (scan is_fcfs_runnable earlier_arrival ps 0 none)

-- `p->waited_ticks++` of the FCFS loop.
abbrev wait_more : Proc → Proc
wait_more p = if is_fcfs_runnable p then record p { waited_ticks = p.waited_ticks +ℤ pos 1 } else p

-- The RR branch does not look at the class.
abbrev pub is_rr_runnable : Proc → Bool
is_rr_runnable p = is_state p.state runnable && p.sched_level == 1

-- if (++p == &ptable.proc[NPROC]) p = ptable.proc;
abbrev pub advance : ℕ → ℕ → ℕ
advance n p = if (p + 1) == n then 0 else p + 1

abbrev pub rr_here : Option Proc → Bool
rr_here none = false
rr_here (some q) = is_rr_runnable q

-- The do-while of the RR branch from `p`; `start` is nextrrp. The fuel is the number of entries.
unfoldable pub rr_scan : ℕ → List Proc → ℕ → ℕ → Option ℕ
rr_scan zero ps start p = none
rr_scan (suc fuel) ps start p =
    let rest = rr_scan fuel ps start (advance (length ps) p) in
    if rr_here (get_elem? ps p)
    then some p
    else if advance (length ps) p == start
    then none
    else rest

-- What the scheduler finds: the entry, if any, and the new nextrrp.
pub record Choice : Type 0 where
  pub chosen : Option ℕ
  pub next_rr : ℕ

abbrev pub rr_choice : ℕ → ℕ → Option ℕ → Choice
rr_choice n next none = record { chosen = none; next_rr = next }
rr_choice n next (some p) = record { chosen = some p; next_rr = advance n p }

-- The if-chain on the counters. Only the FCFS branch writes to the table.
unfoldable pub choose : Kernel → ℕ → Choice × List Proc
choose k next =
    if ltb_ℤ (pos 0) k.counts.edf
    then (record { chosen = pick_edf k.procs; next_rr = next }, k.procs)
    else if ltb_ℤ (pos 0) k.counts.rr
    then (rr_choice (length k.procs) next (rr_scan (length k.procs) k.procs next next), k.procs)
    else if ltb_ℤ (pos 0) k.counts.fcfs
    then (record { chosen = pick_fcfs k.procs; next_rr = next }, map wait_more k.procs)
    else (record { chosen = none; next_rr = next }, k.procs)
