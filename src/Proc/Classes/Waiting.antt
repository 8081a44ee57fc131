-- ===== src/Proc/Classes/Waiting.antt =====
-- What a pass of update_wait_time makes of the table, and how far a pass has come.
use os_lab.Kernel.State.{Kernel, Proc, runnable}
use os_lab.Prelude.Int.{ℤ, ltb_ℤ, ◌-ℤ◌, eqb_ℤ_refl, eqb_ℤ→eq}
use os_lab.Prelude.{
  List, if◌then◌else◌, ℕ, get_elem?, ◌≡◌, length, some, refl, true, ltb, find_index, ◌&&◌, not,
  Option-cases, inl, find_index-none, inr, find_index-some, ◌∙◌, ap, arith,
}
use os_lab.Proc.Quiet.{Quiet, Section, after, inside}
use os_lab.Proc.Access.{is_state}
use os_lab.Proc.Tally.{Tally}
use os_lab.Proc.Classes.{is_fcfs, has_pid, aging_threshold}
use os_lab.Proc.Wakeup.{has_pid}

-- An entry after the pass at time `now`.
abbrev pub aged : ℤ → Proc → Proc
aged now p =
    if is_state p.state runnable
    then (if is_fcfs p && not (ltb_ℤ (now -ℤ p.arrival_time) aging_threshold)
        then record p { waited_ticks = now -ℤ p.arrival_time; sched_level = 1; arrival_time = now }
        else record p { waited_ticks = now -ℤ p.arrival_time })
    else p

-- No other entry has the pid of a RUNNABLE process.
abbrev pub HaveOwnPids : List Proc → Type 0
HaveOwnPids ps =
    (i j : ℕ) (p q : Proc)
    → get_elem? ps i ≡ some p
    → get_elem? ps j ≡ some q
    → is_state p.state runnable ≡ true
    → q.pid ≡ p.pid
    → j ≡ i

pub record Progress (now : ℤ) (k0 : Kernel) (i : ℕ) (k : Kernel) : Type 0 where
  pub sect : Section k0 k
  pub tally : Tally k.procs k.counts
  pub size : length k.procs ≡ length k0.procs
  pub entries :
      (j : ℕ) (p : Proc)
      → get_elem? k0.procs j ≡ some p
      → get_elem? k.procs j ≡ some (if ltb j i then aged now p else p)

pub find_own :
    (ps : List Proc) (i : ℕ) (p : Proc)
    → get_elem? ps i ≡ some p
    → ((j : ℕ) (q : Proc) → get_elem? ps j ≡ some q → q.pid ≡ p.pid → j ≡ i)
    → find_index (has_pid p.pid) ps ≡ some i
find_own ps i p g own = elim (Option-cases (find_index (has_pid p.pid) ps)) [
  | inl e ↦ cc (find_index-none (has_pid p.pid) ps e i g, eqb_ℤ_refl p.pid)
  | inr (j, e) ↦
      let (q, gq, same) = find_index-some (has_pid p.pid) ps e in
      e ∙ ap (λ (n : ℕ). some n) (own j q gq (eqb_ℤ→eq q.pid p.pid same))
]

-- A release of ptable.lock and a later acquire lead back into the section.
pub reenter :
    (k k' m : Kernel)
    → Quiet k
    → Section k k'
    → Section (after k k') m
    → Section k (inside (after (after k k') m))
reenter k k' m q s s' = record {
  cpu = rw s'.cpu (rw s.cpu (ground arith));
  mine = refl;
  clock = s'.clock;
}
