-- ===== src/Kernel/Returns.antt =====
-- Total correctness: the code returns, without a panic, and the result and the new state satisfy `Q`.
use os_lab.Prelude.{ℕ, zero, suc, ◌+◌, ◌<◌, arith, ◌≡◌}
use os_lab.Kernel.State.{Kernel}
use os_lab.Kernel.Monad.{Outcome, ok, panic, K, ◌>>=◌, for_each}

abbrev pub Returns : {A : Type 0} → (A → Kernel → Type 0) → Outcome A → Type 0
Returns Q (ok a k) = Q a k
Returns Q (panic e) = ⊥

pub Returns-bind :
    {A B : Type 0} (R : A → Kernel → Type 0) (Q : B → Kernel → Type 0) (m : K A) (f : A → K B)
    (k : Kernel)
    → Returns R (m k)
    → ((a : A) (k' : Kernel) → R a k' → Returns Q (f a k'))
    → Returns Q ((m >>= f) k)
Returns-bind R Q m f k h step = after (m k) h
  where
    after :
        (o : Outcome _) → Returns R o → Returns Q (elim o [ ok a k' ↦ f a k' | panic e ↦ panic e ])
    after (ok a k') r = step a k' r
    after (panic e) r = absurd r

pub Returns-mono :
    {A : Type 0} (R Q : A → Kernel → Type 0) (o : Outcome A)
    → ((a : A) (k : Kernel) → R a k → Q a k)
    → Returns R o
    → Returns Q o
Returns-mono R Q (ok a k) imp h = imp a k h
Returns-mono R Q (panic e) imp h = absurd h

-- A loop whose body takes `P i` to `P (i + 1)`.
pub for_each-Returns :
    (P : ℕ → Kernel → Type 0) (body : ℕ → K (Unit {0})) (top : ℕ)
    → ((i : ℕ) (k : Kernel) → i < top → P i k → Returns (λ _. P (i + 1)) (body i k))
    → (n i : ℕ) (k : Kernel) → i + n ≡ top
    → P i k
    → Returns (λ _. P top) (for_each n i body k)
unfolding for_each
for_each-Returns P body top keep zero i k e h = let e' : i ≡ top = omega arith in rw (← e') h
for_each-Returns P body top keep (suc n) i k e h =
    Returns-bind (λ _. P (i + 1)) (λ _. P top) (body i) (λ _. for_each n (i + 1) body) k
      (keep i k (omega arith) h)
      (λ a k' h'. for_each-Returns P body top keep n (i + 1) k' (omega arith) h')
