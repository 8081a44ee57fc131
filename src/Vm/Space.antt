-- ===== src/Vm/Space.antt =====
-- The address spaces of vm.c: the kernel's part, and the pages of a process.
use os_lab.Prelude.{
  ℕ, ◌+◌, ◌*◌, ◌/◌, ◌%◌, ◌^◌, ◌-◌, ◌==◌, if◌then◌else◌, Bool, true, false, not, zero, suc, ltb, leb,
  List, [], ◌∷◌,
}
use os_lab.Prelude.Int.{ℤ, pos, eqb_ℤ}
use os_lab.Strings.{memset, memmove}
use os_lab.Kalloc.{Layout, kernbase, pgsize, pgroundup}
use os_lab.Fs.{uint_at, put_uint, put_bytes, Superblock, Disk, panic, ok}
use os_lab.Fs.Inodes.{Inode}
use os_lab.Fs.Content.{Devsw, readi}
use os_lab.Vm.{
  Ram, extmem, Outcome, pte_w, done, fault, new_page, deallocuvm, walkpgdir, ◌>>=◌, kernlink,
  is_present, no_pgdir, mappages, devspace, too_long, endless, not_aligned, no_entry, null_pointer,
  v2p, free_page, npdentries, p2v, pte_addr, with_memory, is_user, pgrounddown, phystop_too_high,
  pte_u, no_page, pte_flags, in_file,
}

-- struct kmap
pub record Kmap : Type 0 where
  pub virt : ℕ
  pub phys_start : ℕ
  pub phys_end : ℕ
  pub perm : ℕ

-- `data_start` is the symbol `data` of kernel.ld.
abbrev pub kmap : Layout → ℕ → List Kmap
kmap l data_start =
    record { virt = kernbase; phys_start = 0; phys_end = extmem; perm = pte_w }
    ∷ record { virt = kernlink; phys_start = v2p kernlink; phys_end = v2p data_start; perm = 0 }
    ∷ record { virt = data_start; phys_start = v2p data_start; phys_end = l.phystop; perm = pte_w }
    ∷ record { virt = devspace; phys_start = devspace; phys_end = 0; perm = pte_w }
    ∷ []

-- The loop of freevm over the entries of the directory, from `i`.
unfoldable pub free_tables : ℕ → ℕ → Layout → ℕ → Ram → Outcome Ram
free_tables zero i l pgdir r = done r
free_tables (suc n) i l pgdir r =
    let next : Ram → Outcome Ram = free_tables n (i + 1) l pgdir in
    let entry = uint_at r.memory (pgdir + 4 * i) in
    if is_present entry then free_page l (p2v (pte_addr entry)) r >>= next else next r

unfoldable pub freevm : Layout → ℕ → Ram → Outcome Ram
freevm l pgdir r =
    if pgdir == 0
    then fault no_pgdir
    else deallocuvm l pgdir kernbase 0 r
      >>= (λ b. free_tables npdentries 0 l pgdir b.1)
      >>= (λ r'. free_page l pgdir r')

-- The loop of setupkvm: the directory, or 0 if there was no page for a table.
unfoldable pub map_kernel : List Kmap → Layout → ℕ → Ram → Outcome (ℕ × Ram)
map_kernel [] l pgdir r = done (pgdir, r)
map_kernel (k ∷ ks) l pgdir r =
    mappages pgdir k.virt ((k.phys_end + 2 ^ 32 - k.phys_start) % 2 ^ 32) k.phys_start k.perm r
    >>= (λ b.
        if b.0 then map_kernel ks l pgdir b.1 else freevm l pgdir b.1 >>= (λ r'. done (0, r')))

unfoldable pub setupkvm : Layout → ℕ → Ram → Outcome (ℕ × Ram)
setupkvm l data_start r =
    let (pgdir, r1) = new_page r in
    if pgdir == 0
    then done (0, r1)
    else if ltb devspace (p2v l.phystop)
    then fault phystop_too_high
    else map_kernel (kmap l data_start) l pgdir (with_memory r1 (memset pgdir 0 pgsize r1.memory))

-- `init` is the address of the code in the kernel.
unfoldable pub inituvm : ℕ → ℕ → ℕ → Ram → Outcome Ram
inituvm pgdir init sz r =
    let (mem, r1) = new_page r in
    if leb pgsize sz
    then fault too_long
    else if mem == 0
    then fault null_pointer
    else mappages pgdir 0 pgsize (v2p mem) (pte_w + pte_u)
        (with_memory r1 (memset mem 0 pgsize r1.memory))
      >>= (λ b. done (with_memory b.1 (memmove mem init sz b.1.memory)))

abbrev page_part : ℕ → ℕ → ℕ
page_part sz i = if ltb (sz - i) pgsize then sz - i else pgsize

-- The loop of loaduvm from `i`, by fuel. `false` is -1.
unfoldable pub load_from :
    ℕ
    → Devsw
    → Superblock
    → ℕ
    → ℕ
    → Inode
    → ℕ
    → ℕ
    → ℕ
    → Disk
    → Ram
    → Outcome (Bool × Inode × Disk × Ram)
load_from zero dw sb pgdir addr ip offset sz i d r = fault endless
load_from (suc fuel) dw sb pgdir addr ip offset sz i d r =
    let pte = (walkpgdir pgdir ((addr + i) % 2 ^ 32) false r).0 in
    let pa = pte_addr (uint_at r.memory pte) in
    let n = page_part sz i in
    let rest : ℤ → List ℕ → Inode → Disk → Outcome (Bool × Inode × Disk × Ram) = λ c bs ip' d'.
      let r' : Ram = with_memory r (put_bytes (p2v pa) bs r.memory) in
      let go = load_from fuel dw sb pgdir addr ip' offset sz (i + pgsize) d' r' in
      if eqb_ℤ c (pos n) then go else done (false, ip', d', r') in
    if not (ltb i sz)
    then done (true, ip, d, r)
    else if pte == 0
    then fault no_entry
    else elim (readi dw sb ip ((offset + i) % 2 ^ 32) n d) [
      | panic e ↦ fault (in_file e)
      | ok (c, bs, ip', d') ↦ rest c bs ip' d'
    ]

unfoldable pub loaduvm :
    Devsw → Superblock → ℕ → ℕ → Inode → ℕ → ℕ → Disk → Ram → Outcome (Bool × Inode × Disk × Ram)
loaduvm dw sb pgdir addr ip offset sz d r =
    if not (addr % pgsize == 0)
    then fault not_aligned
    else load_from (sz / pgsize + 2) dw sb pgdir addr ip offset sz 0 d r

-- What allocuvm does on an error: 0, with the pages of the call freed again.
abbrev pub give_up : Layout → ℕ → ℕ → ℕ → Ram → Outcome (ℕ × Ram)
give_up l pgdir newsz oldsz r = deallocuvm l pgdir newsz oldsz r >>= (λ b. done (0, b.1))

-- The loop of allocuvm from `a`, by fuel; `newsz` is below KERNBASE, so that `a` does not wrap.
unfoldable pub alloc_from : ℕ → Layout → ℕ → ℕ → ℕ → ℕ → Ram → Outcome (ℕ × Ram)
alloc_from zero l pgdir oldsz newsz a r = fault endless
alloc_from (suc fuel) l pgdir oldsz newsz a r =
    let (mem, r1) = new_page r in
    let r2 : Ram = with_memory r1 (memset mem 0 pgsize r1.memory) in
    let next : Ram → Outcome (ℕ × Ram) = alloc_from fuel l pgdir oldsz newsz (a + pgsize) in
    if not (ltb a newsz)
    then done (newsz, r)
    else if mem == 0
    then give_up l pgdir newsz oldsz r1
    else mappages pgdir a pgsize (v2p mem) (pte_w + pte_u) r2 >>= (λ b.
      if b.0
      then next b.1
      else give_up l pgdir newsz oldsz b.1 >>= (λ c. free_page l mem c.1 >>= (λ r3. done (0, r3))))

unfoldable pub allocuvm : Layout → ℕ → ℕ → ℕ → Ram → Outcome (ℕ × Ram)
allocuvm l pgdir oldsz newsz r =
    if leb kernbase newsz
    then done (0, r)
    else if ltb newsz oldsz
    then done (oldsz, r)
    else alloc_from (newsz / pgsize + 2) l pgdir oldsz newsz (pgroundup oldsz) r

unfoldable pub clearpteu : ℕ → ℕ → Ram → Outcome Ram
clearpteu pgdir uva r =
    let pte = (walkpgdir pgdir uva false r).0 in
    let entry = uint_at r.memory pte in
    if pte == 0
    then fault no_entry
    else done
        (with_memory r (put_uint pte (if is_user entry then entry - pte_u else entry) r.memory))

-- The copy failed: what was made of the child is freed.
abbrev pub copy_failed : Layout → ℕ → Ram → Outcome (ℕ × Ram)
copy_failed l child r = freevm l child r >>= (λ r'. done (0, r'))

-- The loop of copyuvm from `i`, by fuel; `child` is the new directory.
unfoldable pub copy_from : ℕ → Layout → ℕ → ℕ → ℕ → ℕ → Ram → Outcome (ℕ × Ram)
copy_from zero l pgdir child sz i r = fault endless
copy_from (suc fuel) l pgdir child sz i r =
    let pte = (walkpgdir pgdir i false r).0 in
    let entry = uint_at r.memory pte in
    let (mem, r1) = new_page r in
    let r2 : Ram = with_memory r1 (memmove mem (p2v (pte_addr entry)) pgsize r1.memory) in
    let next : Ram → Outcome (ℕ × Ram) = copy_from fuel l pgdir child sz (i + pgsize) in
    if not (ltb i sz)
    then done (child, r)
    else if pte == 0
    then fault no_entry
    else if not (is_present entry)
    then fault no_page
    else if mem == 0
    then copy_failed l child r1
    else mappages child i pgsize (v2p mem) (pte_flags entry) r2
      >>= (λ b. if b.0 then next b.1 else free_page l mem b.1 >>= (λ r3. copy_failed l child r3))

-- `sz` is the size of a process, below KERNBASE, so that `i` does not wrap.
unfoldable pub copyuvm : Layout → ℕ → ℕ → ℕ → Ram → Outcome (ℕ × Ram)
copyuvm l data_start pgdir sz r =
    setupkvm l data_start r
    >>= (λ b. if b.0 == 0 then done (0, b.1) else copy_from (sz / pgsize + 2) l pgdir b.0 sz 0 b.1)

-- The kernel address, or 0. The code follows the pointer that walkpgdir gives without a test.
unfoldable pub uva2ka : ℕ → ℕ → Ram → Outcome ℕ
uva2ka pgdir uva r =
    let pte = (walkpgdir pgdir uva false r).0 in
    let entry = uint_at r.memory pte in
    if pte == 0
    then fault null_pointer
    else if not (is_present entry)
    then done 0
    else if not (is_user entry)
    then done 0
    else done (p2v (pte_addr entry))

-- The bytes of a round of copyout.
abbrev pub out_chunk : ℕ → ℕ → ℕ
out_chunk va len = if ltb len (pgsize - va % pgsize) then len else pgsize - va % pgsize

-- The loop of copyout, by fuel. `false` is -1.
unfoldable pub copy_out : ℕ → ℕ → ℕ → ℕ → ℕ → Ram → Outcome (Bool × Ram)
copy_out zero pgdir va buf len r = if len == 0 then done (true, r) else fault endless
copy_out (suc fuel) pgdir va buf len r =
    let n = out_chunk va len in
    let rest : ℕ → Outcome (Bool × Ram) = λ pa0.
      copy_out fuel pgdir ((pgrounddown va + pgsize) % 2 ^ 32) (buf + n) (len - n)
        (with_memory r (memmove (pa0 + va % pgsize) buf n r.memory)) in
    if len == 0
    then done (true, r)
    else uva2ka pgdir (pgrounddown va) r >>= (λ pa0. if pa0 == 0 then done (false, r) else rest pa0)

-- Every round copies a byte at least.
unfoldable pub copyout : ℕ → ℕ → ℕ → ℕ → Ram → Outcome (Bool × Ram)
copyout pgdir va p len r = copy_out len pgdir va p len r
