-- ===== src/Vm.antt =====
-- vm.c and the macros of mmu.h and memlayout.h: page directories and page tables in the memory of
-- the machine, a byte at each kernel virtual address, and the pages that kalloc gives out.
pub mod Space
pub mod Rounds
pub mod Endings
pub mod Words
pub mod Walk
use os_lab.Prelude.{
  ℕ, ◌+◌, ◌*◌, ◌/◌, ◌%◌, ◌^◌, ◌-◌, ◌==◌, if◌then◌else◌, Bool, true, false, not, none, some, zero,
  suc, ltb, leb,
}
use Prim.Native.Nat.{bit_or}
use os_lab.Strings.{Memory, memset}
use os_lab.Kalloc.{Layout, Kmem, kalloc, kfree, kernbase, pgsize, pgroundup}
use os_lab.Fs.{Failure, uint_at, put_uint}

-- EXTMEM, DEVSPACE, KERNLINK, NPDENTRIES
abbrev pub extmem : ℕ
extmem = 0x100000

abbrev pub devspace : ℕ
devspace = 0xFE000000

abbrev pub kernlink : ℕ
kernlink = kernbase + extmem

abbrev pub npdentries : ℕ
npdentries = 1024

-- PTE_P, PTE_W, PTE_U
abbrev pte_p : ℕ
pte_p = 1

abbrev pub pte_w : ℕ
pte_w = 2

abbrev pub pte_u : ℕ
pte_u = 4

-- PDX, PTX, PGROUNDDOWN, PTE_ADDR, PTE_FLAGS, V2P, P2V
abbrev pub pdx : ℕ → ℕ
pdx va = va / 2 ^ 22 % 1024

abbrev pub ptx : ℕ → ℕ
ptx va = va / 2 ^ 12 % 1024

abbrev pub pgrounddown : ℕ → ℕ
pgrounddown a = a / 4096 * 4096

abbrev pub pte_addr : ℕ → ℕ
pte_addr e = e / 4096 * 4096

abbrev pub pte_flags : ℕ → ℕ
pte_flags e = e % 4096

abbrev pub v2p : ℕ → ℕ
v2p a = (a + 2 ^ 32 - kernbase) % 2 ^ 32

abbrev pub p2v : ℕ → ℕ
p2v a = (a + kernbase) % 2 ^ 32

-- e & PTE_P, e & PTE_U
abbrev pub is_present : ℕ → Bool
is_present e = e % 2 == 1

abbrev pub is_user : ℕ → Bool
is_user e = e / 4 % 2 == 1

pub record Ram : Type 0 where
  pub memory : Memory
  pub kmem : Kmem

-- The calls of panic and a null pointer; `endless` is a loop that ran out of fuel.
pub data Fault : Type 0 where
  remap phystop_too_high kfree_panic no_pgdir no_entry no_page too_long not_aligned : Fault
  null_pointer endless : Fault
  in_file : Failure → Fault

pub data Outcome (A : Type 0) : Type 0 where
  done : A → Outcome A
  fault : Fault → Outcome A

infixl 5 ◌>>=◌
abbrev pub ◌>>=◌ : {A B : Type 0} → Outcome A → (A → Outcome B) → Outcome B
done a >>= f = f a
fault e >>= f = fault e

abbrev pub with_memory : Ram → Memory → Ram
with_memory r m = record r { memory = m }

-- kalloc and kfree on the machine; kfree fills the page with junk.
abbrev pub new_page : Ram → ℕ × Ram
new_page r = ((kalloc r.kmem).0, record r { kmem = (kalloc r.kmem).1 })

abbrev pub free_page : Layout → ℕ → Ram → Outcome Ram
free_page l v r = elim (kfree l v r.kmem) [
  | none ↦ fault kfree_panic
  | some k ↦ done (record { memory = memset v 1 pgsize r.memory; kmem = k })
]

-- A page table is made: a page of zeros, entered in the directory.
unfoldable pub new_table : ℕ → ℕ → Memory → Memory
new_table pde pgtab m =
    put_uint pde (bit_or (v2p pgtab) (pte_p + pte_w + pte_u)) (memset pgtab 0 pgsize m)

unfoldable pub make_table : ℕ → ℕ → Ram → ℕ × Ram
make_table pde va r =
    let (pgtab, r') = new_page r in
    if pgtab == 0
    then (0, r')
    else (pgtab + 4 * ptx va, with_memory r' (new_table pde pgtab r'.memory))

-- The address of the entry for `va`, or the null pointer.
unfoldable pub walkpgdir : ℕ → ℕ → Bool → Ram → ℕ × Ram
walkpgdir pgdir va alloc r =
    let pde = pgdir + 4 * pdx va in
    if is_present (uint_at r.memory pde)
    then (p2v (pte_addr (uint_at r.memory pde)) + 4 * ptx va, r)
    else if not alloc
    then (0, r)
    else make_table pde va r

-- The loop of mappages, by fuel. `false` is -1.
unfoldable pub map_from : ℕ → ℕ → ℕ → ℕ → ℕ → ℕ → Ram → Outcome (Bool × Ram)
map_from zero pgdir a last pa perm r = fault endless
map_from (suc fuel) pgdir a last pa perm r =
    let (pte, r1) = walkpgdir pgdir a true r in
    let r2 : Ram = with_memory r1 (put_uint pte (bit_or (bit_or pa perm) pte_p) r1.memory) in
    let rest = map_from fuel pgdir ((a + pgsize) % 2 ^ 32) last ((pa + pgsize) % 2 ^ 32) perm r2 in
    if pte == 0
    then done (false, r1)
    else if is_present (uint_at r1.memory pte)
    then fault remap
    else if a == last
    then done (true, r2)
    else rest

-- The last page of the range.
abbrev pub last_page : ℕ → ℕ → ℕ
last_page va size = pgrounddown ((va + size + (2 ^ 32 - 1)) % 2 ^ 32)

-- One unit of fuel for each page from the first to the last, around the end of the addresses.
unfoldable pub mappages : ℕ → ℕ → ℕ → ℕ → ℕ → Ram → Outcome (Bool × Ram)
mappages pgdir va size pa perm r =
    map_from ((last_page va size + 2 ^ 32 - pgrounddown va) % 2 ^ 32 / pgsize + 1) pgdir
      (pgrounddown va) (last_page va size) pa perm r

-- The entry at `a` is cleared and its page freed.
unfoldable pub free_entry : Layout → ℕ → Ram → Outcome Ram
free_entry l pte r =
    let pa = pte_addr (uint_at r.memory pte) in
    if pa == 0
    then fault kfree_panic
    else free_page l (p2v pa) r >>= (λ r'. done (with_memory r' (put_uint pte 0 r'.memory)))

-- PGADDR(PDX(a) + 1, 0, 0) - PGSIZE
abbrev pub next_table : ℕ → ℕ
next_table a = ((pdx a + 1) * 2 ^ 22 % 2 ^ 32 + 2 ^ 32 - pgsize) % 2 ^ 32

-- The loop of deallocuvm, by fuel.
unfoldable pub dealloc_from : ℕ → Layout → ℕ → ℕ → ℕ → Ram → Outcome Ram
dealloc_from zero l pgdir a oldsz r = fault endless
dealloc_from (suc fuel) l pgdir a oldsz r =
    let pte = (walkpgdir pgdir a false r).0 in
    let skip = dealloc_from fuel l pgdir ((next_table a + pgsize) % 2 ^ 32) oldsz r in
    let next : Ram → Outcome Ram =
      λ r'. dealloc_from fuel l pgdir ((a + pgsize) % 2 ^ 32) oldsz r' in
    if not (ltb a oldsz)
    then done r
    else if pte == 0
    then skip
    else if is_present (uint_at r.memory pte)
    then free_entry l pte r >>= next
    else next r

-- One unit of fuel for each page below `oldsz`, and one for the test that ends the loop.
unfoldable pub deallocuvm : Layout → ℕ → ℕ → ℕ → Ram → Outcome (ℕ × Ram)
deallocuvm l pgdir oldsz newsz r =
    if leb oldsz newsz
    then done (oldsz, r)
    else dealloc_from (oldsz / pgsize + 2) l pgdir (pgroundup newsz) oldsz r
      >>= (λ r'. done (newsz, r'))
