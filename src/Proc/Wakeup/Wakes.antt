-- ===== src/Proc/Wakeup/Wakes.antt =====
-- What wakeup1 and kill do to the table and to the counters.
use os_lab.Kernel.State.{Kernel, Proc, runnable, sleeping}
use os_lab.Kernel.Monad.{◌>>=◌, ◌>>◌, ok, for_each}
use Prim.Native.Nat.{ℕ}
use os_lab.Prelude.Int.{ℤ, pos, to_int}
use os_lab.Prelude.{
  ℕ, Bool, set, get_elem?, ◌≡◌, some, ◌&&◌, ◌==◌, ◌<◌, length, lt_of_get_elem?, get_elem?-set_self,
  set-set, refl, if◌then◌else◌, ltb, ◌+◌, ap, arith, true, false, get_elem?_of_lt, Bool-cases,
  length-set, inl, ◌∙◌, get_elem?-set, inr,
}
use os_lab.Proc.Access.{is_state, count_up, write_proc, stamp, arrive, add_to_count}
use os_lab.Proc.Laws.{Busy, write_proc_lem, stamp_lem, add_to_count_lem, proc_at_lem}
use os_lab.Proc.Tally.{Tally, Tally-enqueue}
use os_lab.Proc.Wakeup.{wake_one, wakeup1}
use os_lab.Kernel.Returns.{Returns, Returns-mono, for_each-Returns}

abbrev pub woken : ℤ → Proc → Proc
woken t p = record p { state = runnable; arrival_time = t; waited_ticks = pos 0 }

abbrev pub sleeps_on : ℕ → Proc → Bool
sleeps_on chan p = is_state p.state sleeping && p.chan == chan

-- The common lines of wakeup1 and kill, for an entry `p`.
abbrev with_woken : ℕ → Proc → Kernel → Kernel
with_woken i p k = record k {
  procs = set k.procs i (woken (to_int k.ticks) p);
  counts = count_up (woken (to_int k.ticks) p) k.counts;
}

module _ (i : ℕ) (k : Kernel) {p : Proc} (here : get_elem? k.procs i ≡ some p) (b : Busy k) where
  pub make_runnable_lem :
      (do write_proc i (λ q. record q { state = runnable }); stamp i arrive; add_to_count i) k
      ≡ ok tt (with_woken i p k)
  make_runnable_lem =
      let at : i < length k.procs = lt_of_get_elem? k.procs i here in
      let p1 : Proc = record p { state = runnable } in
      let p2 : Proc = woken (to_int k.ticks) p in
      let k1 : Kernel = record k { procs = set k.procs i p1 } in
      let k2 : Kernel = record k { procs = set (set k.procs i p1) i p2 } in
      rw (write_proc_lem i k here (λ q. record q { state = runnable }), ◌>>=◌)
        (rw
          (
            stamp_lem i k1 {p = p1} (get_elem?-set_self k.procs i p1 at) arrive
                (record { deep = b.deep; off = b.off; clock = b.clock }),
            ◌>>=◌,
          )
          (rw (add_to_count_lem i k2 {p = p2} (rw set-set (get_elem?-set_self k.procs i p2 at)))
            (rw set-set refl)))

-- What the loop of wakeup1 keeps, after the entries below `i`, from the state `k0` on.
record Progress (chan : ℕ) (k0 : Kernel) (i : ℕ) (k : Kernel) : Type 0 where
  busy : Busy k
  tally : Tally k.procs k.counts
  rest : record k { procs = k0.procs; counts = k0.counts } ≡ k0
  size : length k.procs ≡ length k0.procs
  entries :
      (j : ℕ) (p : Proc)
      → get_elem? k0.procs j ≡ some p
      → get_elem? k.procs j
        ≡ some (if ltb j i && sleeps_on chan p then woken (to_int k0.ticks) p else p)

module _ (chan : ℕ) (k0 : Kernel) (i : ℕ) (k : Kernel) (lt : i < length k0.procs)
    (v : Progress chan k0 i k) where
  ticks-rest : k.ticks ≡ k0.ticks
  ticks-rest = ap (λ (m : Kernel). m.ticks) v.rest

  module _ (p : Proc) (g : get_elem? k0.procs i ≡ some p) where
    untouched : get_elem? k.procs i ≡ some p
    untouched = ground (arith, v.entries i p g)

    Progress-wake : sleeps_on chan p ≡ true → Progress chan k0 (i + 1) (with_woken i p k)
    Progress-wake asleep = record {
      busy = record { deep = v.busy.deep; off = v.busy.off; clock = v.busy.clock };
      tally =
          Tally-enqueue k.procs k.counts i p (woken (to_int k.ticks) p) untouched v.tally
            (ground arith) refl;
      rest = v.rest;
      size = length-set k.procs i (woken (to_int k.ticks) p) ∙ v.size;
      entries = λ j q gq. ground (
        arith,
        v.entries j q gq,
        get_elem?-set k.procs i j (woken (to_int k.ticks) p) untouched,
        ticks-rest,
      );
    }

    Progress-skip : sleeps_on chan p ≡ false → Progress chan k0 (i + 1) k
    Progress-skip awake = record {
      busy = v.busy;
      tally = v.tally;
      rest = v.rest;
      size = v.size;
      entries = λ j q gq. ground (arith, v.entries j q gq);
    }

  wake_one-Progress : Returns (λ _. Progress chan k0 (i + 1)) (wake_one chan i k)
  unfolding wake_one
  wake_one-Progress =
      let (p, g) = get_elem?_of_lt k0.procs i lt in
      elim (Bool-cases (sleeps_on chan p)) [
        | inl asleep ↦
            rw (proc_at_lem i k (untouched p g), ◌>>=◌)
              (rw asleep
                (rw (make_runnable_lem i k (untouched p g) v.busy) (Progress-wake p g asleep)))
        | inr awake ↦
            rw (proc_at_lem i k (untouched p g), ◌>>=◌) (rw awake (Progress-skip p g awake))
      ]

-- Called with ptable.lock held, so that interrupts are off and tickslock is not held, and with
-- counters that agree with the table, wakeup1 returns. Exactly the entries that sleep on the
-- channel are RUNNABLE then, with the time of the clock and no time waited; every other entry is
-- as it was, the counters agree with the new table, and nothing else has changed.
pub wakeup1-wakes :
    (chan : ℕ) (k : Kernel)
    → Busy k
    → Tally k.procs k.counts
    → Returns
        (λ _ k'.
          ((j : ℕ) (p : Proc)
            → get_elem? k.procs j ≡ some p
            → get_elem? k'.procs j
              ≡ some (if sleeps_on chan p then woken (to_int k.ticks) p else p))
          × (length k'.procs ≡ length k.procs)
          × Tally k'.procs k'.counts
          × (record k' { procs = k.procs; counts = k.counts } ≡ k))
        (wakeup1 chan k)
unfolding wakeup1
wakeup1-wakes chan k b t =
    Returns-mono (λ _. Progress chan k (length k.procs)) _
      (for_each (length k.procs) 0 (wake_one chan) k)
      (λ _ k' v. (
        λ j p g. ground (arith, v.entries j p g, lt_of_get_elem? k.procs j g),
        v.size,
        v.tally,
        v.rest,
      ))
      (for_each-Returns (Progress chan k) (wake_one chan) (length k.procs)
        (λ i k' lt v. wake_one-Progress chan k i k' lt v) (length k.procs) 0 k (omega arith)
        (record { busy = b; tally = t; rest = refl; size = refl; entries = λ j p g. ground arith }))
