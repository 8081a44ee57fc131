-- ===== src/Vm/Rounds.antt =====
-- The rounds of the loops of vm.c, and the fuel that they have.
use os_lab.Prelude.{
  ℕ, ◌+◌, ◌/◌, ◌%◌, ◌^◌, ◌-◌, ◌<◌, ◌≤◌, ◌≡◌, ◌≢◌, ◌==◌, if◌then◌else◌, Bool, true, false, not, zero,
  suc, ltb, leb, arith, refl, inl, inr, Option-cases, ne_of_==,
}
use os_lab.Kalloc.{Layout, kernbase, pgsize, pgroundup, kfree}
use os_lab.Fs.{uint_at}
use os_lab.Vm.{
  Fault, Outcome, map_from, mappages, Ram, free_entry, dealloc_from, done, pgrounddown, free_page,
  endless, ◌>>=◌, fault, last_page, walkpgdir, pte_addr, deallocuvm, is_present, p2v, next_table,
}

abbrev is_end : Fault → Bool
is_end endless = false
is_end _ = true

-- The result is not that of a loop without fuel.
abbrev has_ended : {A : Type 0} → Outcome A → Bool
has_ended (done a) = true
has_ended (fault e) = is_end e

pub record Ended {A : Type 0} (o : Outcome A) : Type 0 where
  pub ended : has_ended o ≡ true

pub Ended-done : {A : Type 0} {a : A} → Ended (done a)
Ended-done = record { ended = refl }

pub Ended-bind :
    {A B : Type 0} (o : Outcome A) {f : A → Outcome B}
    → Ended o
    → ((a : A) → Ended (f a))
    → Ended (o >>= f)
Ended-bind (done a) h k = k a
Ended-bind (fault x) h k = record { ended = h.ended }

pub Ended-if :
    {A : Type 0} (b : Bool) {x y : Outcome A}
    → (b ≡ true → Ended x)
    → (b ≡ false → Ended y)
    → Ended (if b then x else y)
Ended-if true h k = h refl
Ended-if false h k = k refl

pub Ended-fault : {A : Type 0} {e : Fault} → is_end e ≡ true → Ended {A = A} (fault e)
Ended-fault h = record { ended = h }

-- The rounds of mappages from `a`: its pages up to the last, around the end of the addresses.
map_from-Ended :
    (n pgdir a last pa perm : ℕ) (r : Ram)
    → a < 2 ^ 32
    → last < 2 ^ 32
    → a % pgsize ≡ 0
    → last % pgsize ≡ 0
    → (last + 2 ^ 32 - a) % 2 ^ 32 / pgsize < n
    → Ended (map_from n pgdir a last pa perm r)
unfolding map_from
map_from-Ended zero pgdir a last pa perm r la ll aa al lt = absurd (omega arith)
map_from-Ended (suc n) pgdir a last pa perm r la ll aa al lt =
    let pte : ℕ = (walkpgdir pgdir a true r).0 in
    let r1 : Ram = (walkpgdir pgdir a true r).1 in
    Ended-if (pte == 0) (λ e. Ended-done)
      (λ e.
        Ended-if (is_present (uint_at r1.memory pte)) (λ e. Ended-fault refl)
          (λ e.
            Ended-if (a == last) (λ e. Ended-done)
              (λ e.
                map_from-Ended n pgdir ((a + pgsize) % 2 ^ 32) last ((pa + pgsize) % 2 ^ 32) perm _
                  (omega arith) ll (omega arith) al
                  (less a last n la ll aa al (ne_of_== a last e) lt))))
  where
    less :
        (a last n : ℕ)
        → a < 2 ^ 32
        → last < 2 ^ 32
        → a % pgsize ≡ 0
        → last % pgsize ≡ 0
        → a ≢ last
        → (last + 2 ^ 32 - a) % 2 ^ 32 / pgsize < suc n
        → (last + 2 ^ 32 - (a + pgsize) % 2 ^ 32) % 2 ^ 32 / pgsize < n
    less a last n la ll aa al ne lt = omega arith

pub mappages-Ended :
    (pgdir va size pa perm : ℕ) (r : Ram) → va < 2 ^ 32 → Ended (mappages pgdir va size pa perm r)
unfolding mappages
mappages-Ended pgdir va size pa perm r lt =
    map_from-Ended _ pgdir (pgrounddown va) (last_page va size) pa perm r (omega arith)
      (omega arith) (omega arith) (omega arith) (omega arith)

pub free_page-Ended : (l : Layout) (v : ℕ) (r : Ram) → Ended (free_page l v r)
free_page-Ended l v r = elim (Option-cases (kfree l v r.kmem)) [
  | inl e ↦ rw (e, free_page) (Ended-fault refl)
  | inr (k, e) ↦ rw (e, free_page) Ended-done
]

free_entry-Ended : (l : Layout) (pte : ℕ) (r : Ram) → Ended (free_entry l pte r)
unfolding free_entry
free_entry-Ended l pte r =
    let pa : ℕ = pte_addr (uint_at r.memory pte) in
    Ended-if (pa == 0) (λ e. Ended-fault refl)
      (λ e. Ended-bind (free_page l (p2v pa) r) (free_page-Ended l (p2v pa) r) (λ r'. Ended-done))

dealloc_from-Ended :
    (n : ℕ) (l : Layout) (pgdir a oldsz : ℕ) (r : Ram)
    → oldsz ≤ kernbase
    → a < 2 ^ 32 - pgsize
    → a % pgsize ≡ 0
    → (oldsz + (pgsize - 1) - a) / pgsize < n
    → Ended (dealloc_from n l pgdir a oldsz r)
unfolding dealloc_from
dealloc_from-Ended zero l pgdir a oldsz r top le al lt = absurd (omega arith)
dealloc_from-Ended (suc n) l pgdir a oldsz r top le al lt =
    let pte : ℕ = (walkpgdir pgdir a false r).0 in
    Ended-if (not (ltb a oldsz)) (λ e. Ended-done)
      (λ more.
        let below : a < oldsz = ground arith in
        let next : (r' : Ram) → Ended (dealloc_from n l pgdir ((a + pgsize) % 2 ^ 32) oldsz r') =
          λ r'.
            dealloc_from-Ended n l pgdir ((a + pgsize) % 2 ^ 32) oldsz r' top (omega arith)
              (omega arith) (omega arith) in
        Ended-if (pte == 0)
          (λ e.
            dealloc_from-Ended n l pgdir ((next_table a + pgsize) % 2 ^ 32) oldsz r top
              (omega arith) (omega arith) (omega arith))
          (λ e.
            Ended-if (is_present (uint_at r.memory pte))
              (λ e. Ended-bind (free_entry l pte r) (free_entry-Ended l pte r) next) (λ e. next r)))

pub deallocuvm-Ended :
    (l : Layout) (pgdir oldsz newsz : ℕ) (r : Ram)
    → oldsz ≤ kernbase
    → Ended (deallocuvm l pgdir oldsz newsz r)
unfolding deallocuvm
deallocuvm-Ended l pgdir oldsz newsz r top =
    Ended-if (leb oldsz newsz) (λ e. Ended-done)
      (λ e.
        let below : newsz < oldsz = ground arith in
        Ended-bind (dealloc_from (oldsz / pgsize + 2) l pgdir (pgroundup newsz) oldsz r)
          (dealloc_from-Ended (oldsz / pgsize + 2) l pgdir (pgroundup newsz) oldsz r top
            (omega arith) (omega arith) (omega arith))
          (λ r'. Ended-done))
