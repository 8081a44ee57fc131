-- ===== src/Proc/Choose/Turns.antt =====
-- The round robin gives every process its turn.
use os_lab.Kernel.State.{Proc, Kernel}
use os_lab.Prelude.{
  List, ℕ, length, ◌<◌, ◌≡◌, some, ◌+◌, get_elem?, false, true, arith, suc, Bool-cases, zero, inl,
  inr, ◌⊎◌, ◌==◌, refl, count, Option-cases, ap, sym, subst, lt_of_get_elem?, count-pos_of_get,
}
use os_lab.Prelude.Int.{ltb_ℤ, pos}
use os_lab.Proc.Tally.{Tally, is_rr_queued}
use os_lab.Proc.Choose.{rr_scan, rr_here, advance, choose, Choice, rr_choice, is_edf_runnable}
use os_lab.Proc.Choose.RoundRobin.{rr_none, ahead, ahead-advance, advance_lt}

module _ (ps : List Proc) (start i : ℕ) (hi : i < length ps)
    (fits : rr_here (get_elem? ps i) ≡ true) where
  not_passed : (p : ℕ) → rr_here (get_elem? ps p) ≡ false → (p == i) ≡ false
  not_passed p miss = elim (Bool-cases (p == i)) [
    | inr ne ↦ ne
    | inl e ↦ absurd (
        let same : p ≡ i = ground arith in
        let hit = ap (λ z. rr_here (get_elem? ps z)) same in ground arith)
  ]

  -- A search stops at `i`, or its successor begins nearer to `i`.
  rr_nearer :
      (fuel p j : ℕ)
      → p < length ps
      → rr_scan fuel ps start p ≡ some j
      → (j < length ps)
        × ((j ≡ i) ⊎ (ahead (length ps) i (advance (length ps) j) < ahead (length ps) i p))
  unfolding rr_scan
  rr_nearer zero p j hp h = cc
  rr_nearer (suc fuel) p j hp h = elim (Bool-cases (rr_here (get_elem? ps p))) [
    | inl hit ↦
        let at : p ≡ j = ground arith in
        elim (Bool-cases (p == i)) [
          | inl e ↦ (omega arith, inl (ground arith))
          | inr ne ↦
              let near = ahead-advance (length ps) i p hi hp ne in
              (
                omega arith,
                inr (
                    subst (λ z. ahead (length ps) i (advance (length ps) z) < ahead (length ps) i p)
                      at (omega arith)),
              )
        ]
    | inr miss ↦
        let ne : (p == i) ≡ false = not_passed p miss in
        let near = ahead-advance (length ps) i p hi hp ne in
        let (lt, r) =
          rr_nearer fuel (advance (length ps) p) j (advance_lt (length ps) p hp) (ground arith) in
        (lt, elim r [ inl e ↦ inl e | inr m ↦ inr (omega arith) ])
  ]

-- The tables that the scheduler finds, and the nextrrp of each round.
unfoldable pub next_rr_of : (ℕ → Kernel) → ℕ → ℕ → ℕ
next_rr_of ks next zero = next
next_rr_of ks next (suc round) = (choose (ks round) (next_rr_of ks next round)).0.next_rr

-- What the rounds find: counters in agreement, the table of one length, no EDF process, and the entry
-- `i` in the round-robin queue.
abbrev pub Waits : ℕ → ℕ → Kernel → Type 0
Waits n i k =
    Tally k.procs k.counts
    × (length k.procs ≡ n)
    × (count is_edf_runnable k.procs ≡ 0)
    × ((p : Proc) × (get_elem? k.procs i ≡ some p) × (is_rr_queued p ≡ true))

module _ (n i next : ℕ) (k : Kernel) (w : Waits n i k) (lt : next < n) where
  choose_rr :
      choose k next
      ≡ (rr_choice (length k.procs) next (rr_scan (length k.procs) k.procs next next), k.procs)
  unfolding choose
  choose_rr =
      let (t, l, e, (p, g, q)) = w in
      let some_rr = count-pos_of_get is_rr_queued k.procs i g q in
      let no_edf : ltb_ℤ (pos 0) k.counts.edf ≡ false = ground (arith, t.edf) in
      let rr : ltb_ℤ (pos 0) k.counts.rr ≡ true = ground (arith, t.rr) in rw no_edf (rw rr refl)

abbrev Nearer : ℕ → ℕ → ℕ → Choice → Type 0
Nearer n i next c = (c.chosen ≡ some i) ⊎ ((c.next_rr < n) × (ahead n i c.next_rr < ahead n i next))

-- A search that finds an entry chooses `i`, or the next one begins nearer to it.
rr_choice-Nearer :
    (ps : List Proc) (i next : ℕ)
    → i < length ps
    → rr_here (get_elem? ps i) ≡ true
    → next < length ps
    → Nearer (length ps) i next (rr_choice (length ps) next (rr_scan (length ps) ps next next))
rr_choice-Nearer ps i next hi fits lt = elim (Option-cases (rr_scan (length ps) ps next next)) [
  | inl e ↦ absurd (let idle = rr_none ps next lt e i hi in ground arith)
  | inr (j, e) ↦
      let (hj, r) = rr_nearer ps next i hi fits (length ps) next j lt e in
      rw e
        (elim r [ inl at ↦ inl (ap some at) | inr near ↦ inr (advance_lt (length ps) j hj, near) ])
]

rr_here_of_queued :
    (ps : List Proc) (i : ℕ) (p : Proc)
    → get_elem? ps i ≡ some p
    → is_rr_queued p ≡ true
    → rr_here (get_elem? ps i) ≡ true
rr_here_of_queued ps i p g q = rw g (ground arith)

-- A round that finds `i` waiting chooses it, or brings the next one nearer to it.
choose-Nearer :
    (n i next : ℕ) (k : Kernel) → Waits n i k → next < n → Nearer n i next (choose k next).0
choose-Nearer n i next k w lt =
    let (t, l, e, (p, g, q)) = w in
    let step = ap (λ (c : Choice × List Proc). c.0) (choose_rr n i next k w lt) in
    let near =
      rr_choice-Nearer k.procs i next (lt_of_get_elem? k.procs i g)
        (rr_here_of_queued k.procs i p g q) (omega arith) in
    subst (Nearer n i next) (sym step) (
      subst
        (λ m.
          Nearer m i next
            (rr_choice (length k.procs) next (rr_scan (length k.procs) k.procs next next)))
        l near)

module _ (n i next : ℕ) (ks : ℕ → Kernel) (w : (round : ℕ) → Waits n i (ks round)) where
  -- From a round at which the search begins fewer than `d` entries before `i`.
  turn_within :
      (d round : ℕ)
      → next_rr_of ks next round < n
      → ahead n i (next_rr_of ks next round) < d
      → (r : ℕ) × (r < round + d) × ((choose (ks r) (next_rr_of ks next r)).0.chosen ≡ some i)
  unfolding next_rr_of
  turn_within zero round lt near = absurd (omega arith)
  turn_within (suc d) round lt near =
      elim (choose-Nearer n i (next_rr_of ks next round) (ks round) (w round) lt) [
        | inl now ↦ (round, omega arith, now)
        | inr (lt', closer) ↦
            let (r, b, c) = turn_within d (suc round) lt' (omega arith) in (r, omega arith, c)
      ]

-- No starvation in the round-robin queue. Take any sequence of rounds of the scheduler over a table of
-- `n` entries, each searching from where the one before it left nextrrp, with whatever the rest of the
-- system does to the table in between. If every round finds counters that agree with the table, no
-- RUNNABLE process of the EDF class, and the entry `i` RUNNABLE in class 2 and level 1, then one of the
-- first `n` rounds chooses `i`.
pub rr_turn :
    (n i next : ℕ) (ks : ℕ → Kernel)
    → next < n
    → ((round : ℕ) → Waits n i (ks round))
    → (r : ℕ) × (r < n) × ((choose (ks r) (next_rr_of ks next r)).0.chosen ≡ some i)
unfolding next_rr_of
rr_turn n i next ks lt w =
    let (t, l, e, (p, g, q)) = w 0 in
    let hi = lt_of_get_elem? (ks 0).procs i g in
    let (r, b, c) = turn_within n i next ks w n 0 lt (ground arith) in (r, omega arith, c)
