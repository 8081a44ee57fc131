-- ===== src/Kernel/Monad.antt =====
-- Kernel code: a function from the kernel's state to a result and a new state, or a panic.
use os_lab.Prelude.{ℕ, suc, zero, ◌+◌, Option, none, some}
use os_lab.Kernel.State.{Kernel}

-- The calls of `panic`, and the access through a null or wild pointer.
pub data Fault : Type 0 where
  acquire_twice release_free popcli_interruptible popcli_underflow : Fault
  mycpu_interruptible unknown_apicid null_pointer : Fault
  sched_ptable_lock sched_locks sched_running sched_interruptible : Fault
  sleep_no_proc init_exiting zombie_exit out_of_memory unexpected_trap : Fault

pub data Outcome (A : Type 0) : Type 0 where
  ok : A → Kernel → Outcome A
  panic : Fault → Outcome A

abbrev pub K : Type 0 → Type 0
K A = Kernel → Outcome A

infixl 5 ◌>>=◌ ◌>>◌
abbrev pub ◌>>=◌ : {A B : Type 0} → K A → (A → K B) → K B
◌>>=◌ m f k = elim (m k) [ ok a k' ↦ f a k' | panic e ↦ panic e ]

abbrev pub ◌>>◌ : {B : Type 0} → K (Unit {0}) → K B → K B
m >> n = m >>= λ _. n

abbrev pub pure : {A : Type 0} → A → K A
pure a k = ok a k

abbrev pub fail : {A : Type 0} → Fault → K A
fail e k = panic e

abbrev pub gets : {A : Type 0} → (Kernel → A) → K A
gets f k = ok (f k) k

abbrev pub modify : (Kernel → Kernel) → K (Unit {0})
modify f k = ok tt (f k)

abbrev pub skip : K (Unit {0})
skip = pure tt

abbrev pub deref : {A : Type 0} → Option A → K A
deref none = fail null_pointer
deref (some a) = pure a

-- for (i = start; i < start + n; i++) body(i)
unfoldable pub for_each : ℕ → ℕ → (ℕ → K (Unit {0})) → K (Unit {0})
for_each zero i body = skip
for_each (suc n) i body = do body i; for_each n (i + 1) body
