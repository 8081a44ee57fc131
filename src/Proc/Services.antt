-- ===== src/Proc/Services.antt =====
-- The parts of the kernel that proc.c calls and that are modelled elsewhere or not at all: an
-- interface of one operation per callee. `swtch` stands for all that happens from the switch away
-- from a process up to the switch back to it.
use os_lab.Kernel.Monad.{K}
use Prim.Native.Nat.{ℕ}
use os_lab.Prelude.{ℕ}

pub record Services : Type 0 where
  pub kalloc : K ℕ
  pub kfree : ℕ → K (Unit {0})
  pub setupkvm : K ℕ
  pub inituvm : ℕ → K (Unit {0})
  pub copyuvm : ℕ → ℕ → K ℕ
  pub freevm : ℕ → K (Unit {0})
  pub allocuvm : ℕ → ℕ → ℕ → K ℕ
  pub deallocuvm : ℕ → ℕ → ℕ → K ℕ
  pub switchuvm : ℕ → K (Unit {0})
  pub switchkvm : K (Unit {0})
  pub filedup : ℕ → K ℕ
  pub fileclose : ℕ → K (Unit {0})
  pub idup : ℕ → K ℕ
  pub iput : ℕ → K (Unit {0})
  pub begin_op : K (Unit {0})
  pub end_op : K (Unit {0})
  pub namei_root : K ℕ
  pub swtch : K (Unit {0})
