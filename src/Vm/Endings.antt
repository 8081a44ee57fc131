-- ===== src/Vm/Endings.antt =====
-- The operations on address spaces, and how they come to an end.
use os_lab.Prelude.{
  ℕ, ◌+◌, ◌*◌, ◌/◌, ◌%◌, ◌^◌, ◌-◌, ◌<◌, ◌≤◌, ◌==◌, false, not, zero, suc, ltb, leb, arith, refl,
  List, [], ◌∷◌,
}
use os_lab.Kalloc.{Layout, kernbase, pgsize, pgroundup}
use os_lab.Fs.{uint_at}
use os_lab.Strings.{memset, memmove}
use os_lab.Vm.Space.{
  free_tables, freevm, Kmap, map_kernel, setupkvm, alloc_from, allocuvm, copy_from, copyuvm, uva2ka,
  copy_out, copyout, give_up, copy_failed, out_chunk, kmap,
}
use os_lab.Vm.{
  Ram, new_page, walkpgdir, deallocuvm, with_memory, p2v, pte_addr, is_present, mappages, devspace,
  free_page, npdentries, v2p, is_user, pgrounddown, pte_w, pte_flags, pte_u,
}
use os_lab.Vm.Rounds.{
  Ended, Ended-done, Ended-if, Ended-bind, deallocuvm-Ended, Ended-fault, mappages-Ended,
  free_page-Ended,
}

free_tables-Ended : (n i : ℕ) (l : Layout) (pgdir : ℕ) (r : Ram) → Ended (free_tables n i l pgdir r)
unfolding free_tables
free_tables-Ended zero i l pgdir r = Ended-done
free_tables-Ended (suc n) i l pgdir r =
    let entry : ℕ = uint_at r.memory (pgdir + 4 * i) in
    let next : (r' : Ram) → Ended (free_tables n (i + 1) l pgdir r') =
      free_tables-Ended n (i + 1) l pgdir in
    Ended-if (is_present entry)
      (λ e.
        Ended-bind (free_page l (p2v (pte_addr entry)) r)
          (free_page-Ended l (p2v (pte_addr entry)) r) next)
      (λ e. next r)

freevm-Ended : (l : Layout) (pgdir : ℕ) (r : Ram) → Ended (freevm l pgdir r)
unfolding freevm
freevm-Ended l pgdir r =
    Ended-if (pgdir == 0) (λ e. Ended-fault refl)
      (λ e.
        Ended-bind _
          (Ended-bind (deallocuvm l pgdir kernbase 0 r)
            (deallocuvm-Ended l pgdir kernbase 0 r (omega arith))
            (λ b. free_tables-Ended npdentries 0 l pgdir b.1))
          (λ r'. free_page-Ended l pgdir r'))

abbrev AreAddresses : List Kmap → Type 0
AreAddresses [] = Unit {0}
AreAddresses (k ∷ ks) = (k.virt < 2 ^ 32) × AreAddresses ks

map_kernel-Ended :
    (ks : List Kmap) (l : Layout) (pgdir : ℕ) (r : Ram)
    → AreAddresses ks
    → Ended (map_kernel ks l pgdir r)
unfolding map_kernel
map_kernel-Ended [] l pgdir r h = Ended-done
map_kernel-Ended (k ∷ ks) l pgdir r (h, hs) =
    let size : ℕ = (k.phys_end + 2 ^ 32 - k.phys_start) % 2 ^ 32 in
    Ended-bind (mappages pgdir k.virt size k.phys_start k.perm r)
      (mappages-Ended pgdir k.virt size k.phys_start k.perm r h)
      (λ b.
        Ended-if (b.0) (λ e. map_kernel-Ended ks l pgdir b.1 hs)
          (λ e. Ended-bind (freevm l pgdir b.1) (freevm-Ended l pgdir b.1) (λ r'. Ended-done)))

setupkvm-Ended :
    (l : Layout) (data_start : ℕ) (r : Ram) → data_start < 2 ^ 32 → Ended (setupkvm l data_start r)
unfolding setupkvm
setupkvm-Ended l data_start r h =
    Ended-if ((new_page r).0 == 0) (λ e. Ended-done)
      (λ e.
        Ended-if (ltb devspace (p2v l.phystop)) (λ e. Ended-fault refl)
          (λ e.
            map_kernel-Ended (kmap l data_start) l _ _
              (omega arith, (omega arith, (h, (omega arith, tt))))))

give_up-Ended :
    (l : Layout) (pgdir newsz oldsz : ℕ) (r : Ram)
    → newsz ≤ kernbase
    → Ended (give_up l pgdir newsz oldsz r)
give_up-Ended l pgdir newsz oldsz r top =
    Ended-bind (deallocuvm l pgdir newsz oldsz r) (deallocuvm-Ended l pgdir newsz oldsz r top)
      (λ b. Ended-done)

alloc_from-Ended :
    (n : ℕ) (l : Layout) (pgdir oldsz newsz a : ℕ) (r : Ram)
    → newsz ≤ kernbase
    → (newsz + (pgsize - 1) - a) / pgsize < n
    → Ended (alloc_from n l pgdir oldsz newsz a r)
unfolding alloc_from
alloc_from-Ended zero l pgdir oldsz newsz a r top lt = absurd (omega arith)
alloc_from-Ended (suc n) l pgdir oldsz newsz a r top lt =
    let mem : ℕ = (new_page r).0 in
    let r1 : Ram = (new_page r).1 in
    let r2 : Ram = with_memory r1 (memset mem 0 pgsize r1.memory) in
    Ended-if (not (ltb a newsz)) (λ e. Ended-done)
      (λ more.
        let below : a < newsz = ground arith in
        Ended-if (mem == 0) (λ e. give_up-Ended l pgdir newsz oldsz r1 top)
          (λ e.
            Ended-bind (mappages pgdir a pgsize (v2p mem) (pte_w + pte_u) r2)
              (mappages-Ended pgdir a pgsize (v2p mem) (pte_w + pte_u) r2 (omega arith))
              (λ b.
                Ended-if (b.0)
                  (λ e. alloc_from-Ended n l pgdir oldsz newsz (a + pgsize) b.1 top (omega arith))
                  (λ e.
                    Ended-bind (give_up l pgdir newsz oldsz b.1)
                      (give_up-Ended l pgdir newsz oldsz b.1 top)
                      (λ c.
                        Ended-bind (free_page l mem c.1) (free_page-Ended l mem c.1)
                          (λ r3. Ended-done))))))

allocuvm-Ended :
    (l : Layout) (pgdir oldsz newsz : ℕ) (r : Ram) → Ended (allocuvm l pgdir oldsz newsz r)
unfolding allocuvm
allocuvm-Ended l pgdir oldsz newsz r =
    Ended-if (leb kernbase newsz) (λ e. Ended-done)
      (λ small.
        let top : newsz < kernbase = ground arith in
        Ended-if (ltb newsz oldsz) (λ e. Ended-done)
          (λ grows.
            alloc_from-Ended (newsz / pgsize + 2) l pgdir oldsz newsz (pgroundup oldsz) r
              (omega arith) (omega arith)))

copy_failed-Ended : (l : Layout) (child : ℕ) (r : Ram) → Ended (copy_failed l child r)
copy_failed-Ended l child r =
    Ended-bind (freevm l child r) (freevm-Ended l child r) (λ r'. Ended-done)

copy_from-Ended :
    (n : ℕ) (l : Layout) (pgdir child sz i : ℕ) (r : Ram)
    → sz ≤ kernbase
    → (sz + (pgsize - 1) - i) / pgsize < n
    → Ended (copy_from n l pgdir child sz i r)
unfolding copy_from
copy_from-Ended zero l pgdir child sz i r top lt = absurd (omega arith)
copy_from-Ended (suc n) l pgdir child sz i r top lt =
    let pte : ℕ = (walkpgdir pgdir i false r).0 in
    let entry : ℕ = uint_at r.memory pte in
    let mem : ℕ = (new_page r).0 in
    let r1 : Ram = (new_page r).1 in
    let r2 : Ram = with_memory r1 (memmove mem (p2v (pte_addr entry)) pgsize r1.memory) in
    Ended-if (not (ltb i sz)) (λ e. Ended-done)
      (λ more.
        let below : i < sz = ground arith in
        Ended-if (pte == 0) (λ e. Ended-fault refl)
          (λ e.
            Ended-if (not (is_present entry)) (λ e. Ended-fault refl)
              (λ e.
                Ended-if (mem == 0) (λ e. copy_failed-Ended l child r1)
                  (λ e.
                    Ended-bind (mappages child i pgsize (v2p mem) (pte_flags entry) r2)
                      (mappages-Ended child i pgsize (v2p mem) (pte_flags entry) r2 (omega arith))
                      (λ b.
                        Ended-if (b.0)
                          (λ e.
                            copy_from-Ended n l pgdir child sz (i + pgsize) b.1 top (omega arith))
                          (λ e.
                            Ended-bind (free_page l mem b.1) (free_page-Ended l mem b.1)
                              (λ r3. copy_failed-Ended l child r3)))))))

copyuvm-Ended :
    (l : Layout) (data_start pgdir sz : ℕ) (r : Ram)
    → data_start < 2 ^ 32
    → sz ≤ kernbase
    → Ended (copyuvm l data_start pgdir sz r)
unfolding copyuvm
copyuvm-Ended l data_start pgdir sz r start top =
    Ended-bind (setupkvm l data_start r) (setupkvm-Ended l data_start r start) (λ b.
      Ended-if (b.0 == 0) (λ e. Ended-done)
        (λ e. copy_from-Ended (sz / pgsize + 2) l pgdir b.0 sz 0 b.1 top (omega arith)))

uva2ka-Ended : (pgdir uva : ℕ) (r : Ram) → Ended (uva2ka pgdir uva r)
unfolding uva2ka
uva2ka-Ended pgdir uva r =
    let pte : ℕ = (walkpgdir pgdir uva false r).0 in
    let entry : ℕ = uint_at r.memory pte in
    Ended-if (pte == 0) (λ e. Ended-fault refl)
      (λ e.
        Ended-if (not (is_present entry)) (λ e. Ended-done)
          (λ e. Ended-if (not (is_user entry)) (λ e. Ended-done) (λ e. Ended-done)))

copy_out-Ended :
    (n pgdir va buf len : ℕ) (r : Ram) → len ≤ n → Ended (copy_out n pgdir va buf len r)
unfolding copy_out
copy_out-Ended zero pgdir va buf len r le =
    Ended-if (len == 0) (λ e. Ended-done) (λ e. absurd (ground arith))
copy_out-Ended (suc n) pgdir va buf len r le =
    Ended-if (len == 0) (λ e. Ended-done)
      (λ more.
        let left : 0 < len = ground arith in
        let some_bytes : 0 < out_chunk va len = ground arith in
        Ended-bind (uva2ka pgdir (pgrounddown va) r) (uva2ka-Ended pgdir (pgrounddown va) r) (λ pa0.
          Ended-if (pa0 == 0) (λ e. Ended-done)
            (λ e.
              copy_out-Ended n pgdir ((pgrounddown va + pgsize) % 2 ^ 32) (buf + out_chunk va len)
                (len - out_chunk va len) _ (omega arith))))

-- No loop of these goes on for ever. With the kernel's data below 2 ^ 32: deallocuvm from KERNBASE or less, and allocuvm, freevm, copyuvm of at most KERNBASE bytes, and
-- copyout end, with a result or a panic, for every content of the memory.
pub vm-Ended :
    (l : Layout) (data_start pgdir oldsz newsz va p len : ℕ) (r : Ram)
    → data_start < 2 ^ 32
    → oldsz ≤ kernbase
    → Ended (deallocuvm l pgdir oldsz newsz r)
      × Ended (allocuvm l pgdir oldsz newsz r)
      × Ended (freevm l pgdir r)
      × Ended (copyuvm l data_start pgdir oldsz r)
      × Ended (copyout pgdir va p len r)
unfolding copyout
vm-Ended l data_start pgdir oldsz newsz va p len r start top = (
  deallocuvm-Ended l pgdir oldsz newsz r top,
  allocuvm-Ended l pgdir oldsz newsz r,
  freevm-Ended l pgdir r,
  copyuvm-Ended l data_start pgdir oldsz r start top,
  copy_out-Ended len pgdir va p len r (omega arith),
)
