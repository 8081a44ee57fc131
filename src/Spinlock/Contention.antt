-- ===== src/Spinlock/Contention.antt =====
-- The lock word of spinlock.c, with any number of CPUs that call acquire and release in any
-- interleaving. One step is one access to the shared `struct spinlock`.
use Prim.Native.Nat.{ℕ}
use mathlib.Core.Logic.{ite}
use native.Mathlib.Decide.{ℕ_discrete}
use os_lab.Prelude.{◌≡◌, ◌≢◌, refl, Bool, true, false, Option, none, some, arith, ◌==◌, ◌&&◌, not}

-- struct spinlock, without the fields for debugging
pub record Word : Type 0 where
  pub locked : ℕ
  pub cpu : Option ℕ

-- Where a CPU stands: outside; in the loop of acquire; after its exchange; after it has written
-- `lk->cpu`; in release, after it has cleared `lk->cpu`.
pub data Stage : Type 0 where
  outside spinning taken recorded leaving : Stage

pub record System : Type 0 where
  pub word : Word
  pub stage : ℕ → Stage

abbrev pub move : ℕ → Stage → (ℕ → Stage) → ℕ → Stage
move i g f j = ite (ℕ_discrete i j) g (f j)

-- The test of `holding`, by CPU `i`.
unfoldable pub holds : ℕ → Word → Bool
holds i w = not (w.locked == 0) && elim (w.cpu) [ none ↦ false | some c ↦ c == i ]

pub data Step (s : System) : System → Type 0 where
  call_acquire :
      (i : ℕ)
      → s.stage i ≡ outside
      → holds i s.word ≡ false
      → Step s (record s { stage = move i spinning s.stage })
  xchg_busy :
      (i : ℕ)
      → s.stage i ≡ spinning
      → s.word.locked ≢ 0
      → Step s (record s { word = record (s.word) { locked = 1 } })
  xchg_free :
      (i : ℕ)
      → s.stage i ≡ spinning
      → s.word.locked ≡ 0
      → Step s (record { word = record (s.word) { locked = 1 }; stage = move i taken s.stage })
  write_cpu :
      (i : ℕ)
      → s.stage i ≡ taken
      → Step s (record { word = record (s.word) { cpu = some i }; stage = move i recorded s.stage })
  clear_cpu :
      (i : ℕ)
      → s.stage i ≡ recorded
      → holds i s.word ≡ true
      → Step s (record { word = record (s.word) { cpu = none }; stage = move i leaving s.stage })
  unlock :
      (i : ℕ)
      → s.stage i ≡ leaving
      → Step s (record { word = record (s.word) { locked = 0 }; stage = move i outside s.stage })

abbrev pub init : System
init = record { word = record { locked = 0; cpu = none }; stage = λ _. outside }

pub data Reach : System → Type 0 where
  start : Reach init
  later : {s t : System} → Reach s → Step s t → Reach t

-- From the exchange that wins to the store that unlocks.
abbrev pub owns : Stage → Bool
owns taken = true
owns recorded = true
owns leaving = true
owns _ = false

record Inv (s : System) : Type 0 where
  one : (i j : ℕ) → owns (s.stage i) ≡ true → owns (s.stage j) ≡ true → i ≡ j
  free : (i : ℕ) → s.word.locked ≡ 0 → owns (s.stage i) ≡ false
  named : (i : ℕ) → s.stage i ≡ recorded → s.word.cpu ≡ some i
  true_name : (i : ℕ) → s.word.cpu ≡ some i → s.stage i ≡ recorded

Inv-init : Inv init
Inv-init = record {
  one = λ i j p q. cc;
  free = λ i p. refl;
  named = λ i p. cc;
  true_name = λ i p. cc;
}

Step-Inv : {s t : System} → Step s t → Inv s → Inv t
Step-Inv (call_acquire i e h) v = record {
  one = λ a b p q. ground (arith, v.one a b);
  free = λ a p. ground (arith, v.free a);
  named = λ a p. ground (arith, v.named a);
  true_name = λ a p. ground (arith, v.true_name a);
}
Step-Inv (xchg_busy i e h) v = record {
  one = v.one;
  free = λ a p. ground arith;
  named = v.named;
  true_name = v.true_name;
}
Step-Inv (xchg_free i e h) v = record {
  one = λ a b p q. ground (arith, v.one a b, v.free a, v.free b);
  free = λ a p. ground (arith, v.free a);
  named = λ a p. ground (arith, v.named a);
  true_name = λ a p. ground (arith, v.true_name a);
}
Step-Inv (write_cpu i e) v = record {
  one = λ a b p q. ground (arith, v.one a b, v.one a i, v.one i b);
  free = λ a p. ground (arith, v.free a, v.free i);
  named = λ a p. ground (arith, v.named a, v.one a i);
  true_name = λ a p. ground (arith, v.true_name a);
}
Step-Inv (clear_cpu i e h) v = record {
  one = λ a b p q. ground (arith, v.one a b, v.one a i, v.one i b);
  free = λ a p. ground (arith, v.free a, v.free i);
  named = λ a p. ground (arith, v.named a, v.one a i);
  true_name = λ a p. ground (arith, v.true_name a);
}
Step-Inv (unlock i e) v = record {
  one = λ a b p q. ground (arith, v.one a b, v.one a i, v.one i b);
  free = λ a p. ground (arith, v.one a i);
  named = λ a p. ground (arith, v.named a, v.one a i);
  true_name = λ a p. ground (arith, v.true_name a);
}

Reach-Inv : {s : System} → Reach s → Inv s
Reach-Inv start = Inv-init
Reach-Inv (later r st) = Step-Inv st (Reach-Inv r)

-- In every state that the CPUs can reach, two CPUs that own the lock are one, and `holding` is
-- true on a CPU exactly while that CPU is between its write and its clearing of `lk->cpu`.
pub mutual_exclusion :
    {s : System}
    → Reach s
    → ((i j : ℕ) → owns (s.stage i) ≡ true → owns (s.stage j) ≡ true → i ≡ j)
      × ((i : ℕ) → s.stage i ≡ recorded → holds i s.word ≡ true)
      × ((i : ℕ) → holds i s.word ≡ true → s.stage i ≡ recorded)
unfolding holds
mutual_exclusion {s} r =
    (v.one, λ i e. ground (arith, v.named i, v.free i), λ i h. ground (arith, v.true_name i))
  where
    v : Inv s
    v = Reach-Inv r
