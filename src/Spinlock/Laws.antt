-- ===== src/Spinlock/Laws.antt =====
-- What a call of acquire, release or holding does to the state, for the proofs of the callers.
use os_lab.Prelude.{refl, ℕ, suc, ◌+◌, ◌<◌, ◌≡◌, false, ◌==◌, ◌&&◌, if◌then◌else◌, arith, true}
use os_lab.Kernel.State.{Kernel, Lock, ptable_lock, tickslock, other_lock, held, set_held}
use os_lab.Kernel.Monad.{◌>>=◌, ok, panic, acquire_twice, release_free}
use os_lab.Spinlock.{set_cpu, pushcli, popcli, holding, popcli_depth, acquire, release, mycpu}

-- The CPU one level further in, and one level further out.
abbrev pub enter : Kernel → Kernel
enter k =
    set_cpu
      (record (k.cpu) {
        ncli = k.cpu.ncli + 1;
        intr = false;
        intena = if k.cpu.ncli == 0 then k.cpu.intr else k.cpu.intena;
      })
      k

abbrev pub leave : ℕ → Kernel → Kernel
leave n k = set_cpu (record (k.cpu) { ncli = n; intr = (n == 0) && k.cpu.intena }) k

pub pushcli_lem : (k : Kernel) → pushcli k ≡ ok tt (enter k)
unfolding pushcli
pushcli_lem k = ground arith

pub popcli_lem :
    (n : ℕ) (k : Kernel) → k.cpu.ncli ≡ suc n → k.cpu.intr ≡ false → popcli k ≡ ok tt (leave n k)
unfolding popcli popcli_depth
popcli_lem n k d off = rw off (rw (d, popcli_depth) refl)

pub holding_lem :
    (l : Lock) (k : Kernel) → 0 < k.cpu.ncli → k.cpu.intr ≡ false → holding l k ≡ ok (held l k) k
unfolding holding pushcli popcli popcli_depth mycpu
holding_lem ptable_lock k d off = ground arith
holding_lem tickslock k d off = ground arith
holding_lem (other_lock n) k d off = ground arith

-- A free lock is taken, one level further in.
pub acquire_lem :
    (l : Lock) (k : Kernel)
    → held l (enter k) ≡ false
    → acquire l k ≡ ok tt (set_held l true (enter k))
unfolding acquire
acquire_lem l k free =
    rw (pushcli_lem k, ◌>>=◌)
      (rw (holding_lem l (enter k) (omega arith) refl, ◌>>=◌) (rw free refl))

pub acquire-held :
    (l : Lock) (k : Kernel) → held l (enter k) ≡ true → acquire l k ≡ panic acquire_twice
unfolding acquire
acquire-held l k taken =
    rw (pushcli_lem k, ◌>>=◌)
      (rw (holding_lem l (enter k) (omega arith) refl, ◌>>=◌) (rw taken refl))

popcli-set_held :
    (l : Lock) (n : ℕ) (k : Kernel)
    → k.cpu.ncli ≡ suc n
    → k.cpu.intr ≡ false
    → popcli (set_held l false k) ≡ ok tt (leave n (set_held l false k))
popcli-set_held ptable_lock n k d off = popcli_lem n (set_held ptable_lock false k) d off
popcli-set_held tickslock n k d off = popcli_lem n (set_held tickslock false k) d off
popcli-set_held (other_lock m) n k d off = popcli_lem n (set_held (other_lock m) false k) d off

-- A lock that is held is given back, one level further out.
pub release_lem :
    (l : Lock) (n : ℕ) (k : Kernel)
    → held l k ≡ true
    → k.cpu.ncli ≡ suc n
    → k.cpu.intr ≡ false
    → release l k ≡ ok tt (leave n (set_held l false k))
unfolding release
release_lem l n k h d off =
    rw (holding_lem l k (omega arith) off, ◌>>=◌) (rw h (popcli-set_held l n k d off))

release_not_held :
    (l : Lock) (k : Kernel)
    → held l k ≡ false
    → 0 < k.cpu.ncli
    → k.cpu.intr ≡ false
    → release l k ≡ panic release_free
unfolding release
release_not_held l k h d off = rw (holding_lem l k d off, ◌>>=◌) (rw h refl)

pub mycpu_lem : (k : Kernel) → k.cpu.intr ≡ false → mycpu k ≡ ok k.cpu k
unfolding mycpu
mycpu_lem k off = ground arith
