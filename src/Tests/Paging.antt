-- ===== src/Tests/Paging.antt =====
-- An empty page directory, with two pages for tables; and the theorems on address spaces at it.
use os_lab.Prelude.{ℕ, ◌≡◌, arith, refl, List, [], ◌∷◌, true}
use os_lab.Kalloc.{Layout, kalloc}
use os_lab.Fs.{uint_at}
use os_lab.Vm.{Ram, walkpgdir, deallocuvm, make_table}
use os_lab.Vm.Space.{allocuvm, freevm, copyuvm, copyout}
use os_lab.Vm.Rounds.{Ended}
use os_lab.Vm.Endings.{vm-Ended}
use os_lab.Vm.Walk.{IsReady, WalkOutcome, walkpgdir_lem}

abbrev layout : Layout
layout = record { kernel_end = 0x80110000; phystop = 0xE000000 }

abbrev directory : ℕ
directory = 0x80200000

abbrev ram : Ram
ram = record {
  memory = λ a. 0;
  kmem = record { use_lock = true; freelist = 0x80201000 ∷ 0x80202000 ∷ [] };
}

first_page : (v w : ℕ) (rest more : List ℕ) → ◌≡◌ {A = List ℕ} (v ∷ rest) (w ∷ more) → v ≡ w
first_page v w rest more e = cc

IsReady-ram : IsReady directory 0x403000 ram
unfolding uint_at
IsReady-ram = record {
  aligned = refl;
  table = λ p. absurd (ground arith);
  page = λ v rest e.
      let same : 0x80201000 ≡ v = first_page 0x80201000 v (0x80202000 ∷ []) rest e in
      (omega arith, omega arith, omega arith, λ z. omega arith);
}

-- The entry for 0x403000 is the fourth of the new table.
walk_test : (walkpgdir directory 0x403000 true ram).0 ≡ 0x8020100C
unfolding walkpgdir make_table kalloc uint_at
walk_test = refl

walkpgdir_lem_example : WalkOutcome directory 0x403000 ram (walkpgdir directory 0x403000 true ram)
walkpgdir_lem_example = walkpgdir_lem directory 0x403000 ram IsReady-ram

vm-Ended_example :
    Ended (deallocuvm layout directory 0x5000 0 ram)
    × Ended (allocuvm layout directory 0x5000 0 ram)
    × Ended (freevm layout directory ram)
    × Ended (copyuvm layout 0x80109000 directory 0x5000 ram)
    × Ended (copyout directory 0x3FFC 0x80300000 9 ram)
vm-Ended_example =
    vm-Ended layout 0x80109000 directory 0x5000 0 0x3FFC 0x80300000 9 ram (omega arith)
      (omega arith)
