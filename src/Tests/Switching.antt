-- ===== src/Tests/Switching.antt =====
-- yield and sys_sleep with services that do nothing.
use os_lab.Tests.{kernel, shell, Quiet-kernel}
use os_lab.Prelude.{◌≡◌, refl, arith, some, ℕ, inl, sym, ◌∙◌}
use os_lab.Kernel.State.{Kernel}
use os_lab.Kernel.Monad.{skip, pure}
use os_lab.Proc.Services.{Services}
use os_lab.Sysproc.{sys_sleep}
use os_lab.Proc.Switch.Yield.{OnCpu, HandsOver, yield_lem}
use os_lab.Syscall.{Memory, argint, fetchint}
use os_lab.Sysproc.Sleep.{Answered, answer, sys_sleep_lem}

abbrev services : Services
services = record {
  kalloc = pure 0;
  kfree = λ p. skip;
  setupkvm = pure 0;
  inituvm = λ p. skip;
  copyuvm = λ p n. pure 0;
  freevm = λ p. skip;
  allocuvm = λ p m n. pure 0;
  deallocuvm = λ p m n. pure 0;
  switchuvm = λ p. skip;
  switchkvm = skip;
  filedup = λ f. pure f;
  fileclose = λ f. skip;
  idup = λ i. pure i;
  iput = λ i. skip;
  begin_op = skip;
  end_op = skip;
  namei_root = pure 0;
  swtch = skip;
}

OnCpu-kernel : OnCpu 3 kernel
OnCpu-kernel = record { quiet = Quiet-kernel; depth = refl; proc = refl }

yield_lem_example : (k' : Kernel) × HandsOver services 3 kernel shell k'
yield_lem_example = yield_lem services 3 kernel shell OnCpu-kernel refl refl

some_same : (a b : ℕ) → some a ≡ some b → a ≡ b
some_same a b e = cc

abbrev zeros : Memory
zeros a = 0

zero_read : argint zeros 4096 100 0 ≡ some 0
unfolding argint fetchint
zero_read = refl

-- sleep(0)
sys_sleep_lem_example :
    Answered kernel (answer (argint zeros 4096 100 0)) (sys_sleep services zeros 4096 100 1 kernel)
sys_sleep_lem_example =
    sys_sleep_lem services 3 kernel shell OnCpu-kernel refl zeros 4096 100 0
      (λ n e. let same : 0 ≡ n = some_same 0 n (sym zero_read ∙ e) in inl (omega arith))
