-- ===== src/Tests/Turns.antt =====
-- Rounds of the scheduler over two processes of the round-robin queue.
use os_lab.Tests.{kernel, shell, sleeper}
use os_lab.Prelude.{ℕ, ◌∷◌, [], refl, ◌≡◌, some, count, arith, ◌<◌}
use os_lab.Prelude.Int.{pos}
use os_lab.Kernel.State.{Proc, Kernel, runnable}
use os_lab.Proc.Choose.{choose}
use os_lab.Proc.Choose.Turns.{rr_turn, Waits, next_rr_of}

abbrev ready : Proc
ready = record shell { state = runnable }

abbrev queue : Kernel
queue = record kernel {
  procs = ready ∷ sleeper ∷ ready ∷ [];
  counts = record { edf = pos 0; rr = pos 2; fcfs = pos 0 };
}

Waits-queue : Waits 3 2 queue
unfolding count
Waits-queue = (record { edf = refl; rr = refl; fcfs = refl }, refl, refl, (ready, refl, refl))

rr_turn_example :
    (r : ℕ) × (r < 3) × ((choose queue (next_rr_of (λ n. queue) 0 r)).0.chosen ≡ some 2)
rr_turn_example = rr_turn 3 2 0 (λ n. queue) (omega arith) (λ n. Waits-queue)
