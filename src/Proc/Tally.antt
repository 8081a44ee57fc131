-- ===== src/Proc/Tally.antt =====
-- The counters against the table: what count_edf, count_rr and count_fcfs are meant to be.
use os_lab.Kernel.State.{Proc, Counts, runnable}
use os_lab.Prelude.{
  Bool, List, ◌≡◌, ℕ, get_elem?, ◌&&◌, count, some, ◌==◌, false, true, set, arith, count-set,
}
use os_lab.Proc.Access.{is_state, count_up, count_down}
use os_lab.Prelude.Int.{pos}
use os_lab.Proc.Choose.{is_edf_runnable, is_fcfs_runnable}

abbrev pub is_rr_queued : Proc → Bool
is_rr_queued p = is_state p.state runnable && (p.sched_class == 2 && p.sched_level == 1)

-- Each counter is the number of RUNNABLE processes of its class and level.
pub record Tally (ps : List Proc) (c : Counts) : Type 0 where
  pub edf : c.edf ≡ pos (count is_edf_runnable ps)
  pub rr : c.rr ≡ pos (count is_rr_queued ps)
  pub fcfs : c.fcfs ≡ pos (count is_fcfs_runnable ps)

module _ (ps : List Proc) (c : Counts) (i : ℕ) (p q : Proc) (here : get_elem? ps i ≡ some p)
    (t : Tally ps c) where
  pub Tally-enqueue :
      is_state p.state runnable ≡ false
      → is_state q.state runnable ≡ true
      → Tally (set ps i q) (count_up q c)
  unfolding count_up
  Tally-enqueue idle ready = record {
    edf = ground (arith, t.edf, count-set is_edf_runnable ps i q here);
    rr = ground (arith, t.rr, count-set is_rr_queued ps i q here);
    fcfs = ground (arith, t.fcfs, count-set is_fcfs_runnable ps i q here);
  }

  pub Tally-dequeue :
      is_state p.state runnable ≡ true
      → is_state q.state runnable ≡ false
      → Tally (set ps i q) (count_down p c)
  unfolding count_down
  Tally-dequeue ready idle = record {
    edf = ground (arith, t.edf, count-set is_edf_runnable ps i q here);
    rr = ground (arith, t.rr, count-set is_rr_queued ps i q here);
    fcfs = ground (arith, t.fcfs, count-set is_fcfs_runnable ps i q here);
  }

  -- A write that leaves the state, the class and the level alone, or an idle process idle.
  pub Tally-keep :
      is_edf_runnable p ≡ is_edf_runnable q
      → is_rr_queued p ≡ is_rr_queued q
      → is_fcfs_runnable p ≡ is_fcfs_runnable q
      → Tally (set ps i q) c
  Tally-keep e r f = record {
    edf = ground (arith, t.edf, count-set is_edf_runnable ps i q here);
    rr = ground (arith, t.rr, count-set is_rr_queued ps i q here);
    fcfs = ground (arith, t.fcfs, count-set is_fcfs_runnable ps i q here);
  }
