-- ===== src/Proc/Choose/Policy.antt =====
-- What the scheduler's choice amounts to when the counters agree with the table.
use os_lab.Kernel.State.{Proc, Kernel}
use Prim.Native.Nat.{ℕ}
use os_lab.Prelude.{
  Bool, List, ℕ, get_elem?, ◌<◌, ◌≡◌, count, length, some, true, false, arith, ◌⊎◌, Option-cases,
  none, inr, Option, inl, elem_of_count_pos, lt_of_get_elem?, refl, subst, fails_of_count_zero,
  Bool-cases, ◌≤◌,
}
use os_lab.Proc.Choose.{
  Choice, pick_edf, pick_fcfs, is_edf_runnable, is_fcfs_runnable, is_rr_runnable, rr_choice,
  advance, rr_scan, rr_here, choose,
}
use os_lab.Prelude.Int.{ltb_ℤ, pos}
use os_lab.Proc.Tally.{is_rr_queued, Tally}
use os_lab.Proc.Choose.Scan.{Least, scan-Least, scan_none_lem}
use os_lab.Proc.Choose.RoundRobin.{rr_found, rr_none, ahead, rr_first}

abbrev NoneFits : (Proc → Bool) → List Proc → Type 0
NoneFits f ps = (m : ℕ) (p : Proc) → get_elem? ps m ≡ some p → f p ≡ false

-- The RR branch with nextrrp at `next`: a RUNNABLE entry of level 1, none of which comes before it
-- from `next` on and round the end of the table; and the next search begins behind it.
abbrev RrChoice : List Proc → ℕ → Choice → Type 0
RrChoice ps next c =
    (i : ℕ) × (p : Proc) × (c.chosen ≡ some i)
    × (get_elem? ps i ≡ some p)
    × (is_rr_runnable p ≡ true)
    × ((m : ℕ) (q : Proc)
        → get_elem? ps m ≡ some q
        → is_rr_runnable q ≡ true
        → ahead (length ps) i next ≤ ahead (length ps) m next)
    × (c.next_rr ≡ advance (length ps) i)

-- EDF before RR before FCFS: the least deadline, the next in turn, the least arrival time.
abbrev pub Policy : List Proc → ℕ → Choice → Type 0
Policy ps next c =
    ((i : ℕ) × (c.chosen ≡ some i) × Least is_edf_runnable (λ p. p.deadline) ps i)
    ⊎ (NoneFits is_edf_runnable ps × RrChoice ps next c)
    ⊎ (NoneFits is_edf_runnable ps
        × NoneFits is_rr_queued ps
        × ((i : ℕ) × (c.chosen ≡ some i) × Least is_fcfs_runnable (λ p. p.arrival_time) ps i))
    ⊎ (NoneFits is_edf_runnable ps
        × NoneFits is_rr_queued ps
        × NoneFits is_fcfs_runnable ps
        × (c.chosen ≡ none))

positive : (n : ℕ) → ltb_ℤ (pos 0) (pos n) ≡ true → 0 < n
positive n h = ground arith

not_positive : (n : ℕ) → ltb_ℤ (pos 0) (pos n) ≡ false → n ≡ 0
not_positive n h = ground arith

module _ (ps : List Proc) where
  edf_found :
      0 < count is_edf_runnable ps
      → (i : ℕ) × (pick_edf ps ≡ some i) × Least is_edf_runnable (λ p. p.deadline) ps i
  unfolding pick_edf
  edf_found some_edf = elim (Option-cases (pick_edf ps)) [
    | inr (i, e) ↦ (i, e, scan-Least is_edf_runnable (λ p. p.deadline) ps i e)
    | inl e ↦
        let (m, p, g, t) = elem_of_count_pos is_edf_runnable ps some_edf in
        cc (scan_none_lem is_edf_runnable (λ p. p.deadline) ps e m p g, t)
  ]

  fcfs_found :
      0 < count is_fcfs_runnable ps
      → (i : ℕ) × (pick_fcfs ps ≡ some i) × Least is_fcfs_runnable (λ p. p.arrival_time) ps i
  unfolding pick_fcfs
  fcfs_found some_fcfs = elim (Option-cases (pick_fcfs ps)) [
    | inr (i, e) ↦ (i, e, scan-Least is_fcfs_runnable (λ p. p.arrival_time) ps i e)
    | inl e ↦
        let (m, p, g, t) = elem_of_count_pos is_fcfs_runnable ps some_fcfs in
        cc (scan_none_lem is_fcfs_runnable (λ p. p.arrival_time) ps e m p g, t)
  ]

  rr_choice_lem :
      (next : ℕ)
      → next < length ps
      → 0 < count is_rr_queued ps
      → RrChoice ps next (rr_choice (length ps) next (rr_scan (length ps) ps next next))
  rr_choice_lem next lt some_rr = elim (Option-cases (rr_scan (length ps) ps next next)) [
    | inr (i, e) ↦ here i e (get_elem? ps i) refl (rr_found ps next (length ps) next i e)
    | inl e ↦
        let (m, p, g, t) = elem_of_count_pos is_rr_queued ps some_rr in
        let idle : rr_here (get_elem? ps m) ≡ false =
          rr_none ps next lt e m (lt_of_get_elem? ps m g) in
        absurd (clash m p g t idle)
  ]
    where
      here :
          (i : ℕ)
          → rr_scan (length ps) ps next next ≡ some i
          → (o : Option Proc) → get_elem? ps i ≡ o
          → rr_here (get_elem? ps i) ≡ true
          → RrChoice ps next (rr_choice (length ps) next (rr_scan (length ps) ps next next))
      here i e none g t = absurd (ground arith)
      here i e (some p) g t = rw e (
        i,
        p,
        refl,
        g,
        ground arith,
        λ m q gm r.
            rr_first ps next (length ps) next i m lt (lt_of_get_elem? ps i g)
              (lt_of_get_elem? ps m gm) (rw gm r) e,
        refl,
      )

      clash :
          (m : ℕ) (p : Proc)
          → get_elem? ps m ≡ some p
          → is_rr_queued p ≡ true
          → rr_here (get_elem? ps m) ≡ false
          → ⊥
      clash m p g t idle = ground arith

module _ (k : Kernel) (next : ℕ) (t : Tally k.procs k.counts) where
  has_edf : ltb_ℤ (pos 0) k.counts.edf ≡ true → 0 < count is_edf_runnable k.procs
  has_edf h = positive _ (subst (λ z. ltb_ℤ (pos 0) z ≡ true) t.edf h)

  has_rr : ltb_ℤ (pos 0) k.counts.rr ≡ true → 0 < count is_rr_queued k.procs
  has_rr h = positive _ (subst (λ z. ltb_ℤ (pos 0) z ≡ true) t.rr h)

  has_fcfs : ltb_ℤ (pos 0) k.counts.fcfs ≡ true → 0 < count is_fcfs_runnable k.procs
  has_fcfs h = positive _ (subst (λ z. ltb_ℤ (pos 0) z ≡ true) t.fcfs h)

  no_edf : ltb_ℤ (pos 0) k.counts.edf ≡ false → NoneFits is_edf_runnable k.procs
  no_edf h =
      fails_of_count_zero is_edf_runnable k.procs
        (not_positive _ (subst (λ z. ltb_ℤ (pos 0) z ≡ false) t.edf h))

  no_rr : ltb_ℤ (pos 0) k.counts.rr ≡ false → NoneFits is_rr_queued k.procs
  no_rr h =
      fails_of_count_zero is_rr_queued k.procs
        (not_positive _ (subst (λ z. ltb_ℤ (pos 0) z ≡ false) t.rr h))

  no_fcfs : ltb_ℤ (pos 0) k.counts.fcfs ≡ false → NoneFits is_fcfs_runnable k.procs
  no_fcfs h =
      fails_of_count_zero is_fcfs_runnable k.procs
        (not_positive _ (subst (λ z. ltb_ℤ (pos 0) z ≡ false) t.fcfs h))

-- With counters that agree with the table, and nextrrp in the table, the scheduler chooses as the
-- policy says: if any EDF process is RUNNABLE, one with the least deadline; otherwise, if any
-- process of class 2 and level 1 is RUNNABLE, the first RUNNABLE one of level 1 from nextrrp on and
-- round the end of the table, the next search beginning behind it; otherwise, if any of class 2 and
-- level 2 is RUNNABLE, one with the least arrival time; and none only if there is no such process at
-- all.
pub choose-Policy :
    (k : Kernel) (next : ℕ)
    → Tally k.procs k.counts
    → next < length k.procs
    → Policy k.procs next (choose k next).0
unfolding choose
choose-Policy k next t lt = elim (Bool-cases (ltb_ℤ (pos 0) k.counts.edf)) [
  | inl e ↦ let (i, c, least) = edf_found k.procs (has_edf k next t e) in rw e (inl (i, c, least))
  | inr e ↦ elim (Bool-cases (ltb_ℤ (pos 0) k.counts.rr)) [
    | inl r ↦
        rw e
          (rw r (inr (inl (no_edf k next t e, rr_choice_lem k.procs next lt (has_rr k next t r)))))
    | inr r ↦ elim (Bool-cases (ltb_ℤ (pos 0) k.counts.fcfs)) [
      | inl f ↦ rw e (
          rw r (
            rw f (
              inr (
                inr (
                  inl (
                    no_edf k next t e,
                    no_rr k next t r,
                    fcfs_found k.procs (has_fcfs k next t f),
                  ))))))
      | inr f ↦ rw e (
          rw r (
            rw f (inr (inr (inr (no_edf k next t e, no_rr k next t r, no_fcfs k next t f, refl))))))
    ]
  ]
]
