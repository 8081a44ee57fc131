-- ===== src/Kalloc.antt =====
-- kalloc.c: the list of free pages. The locks are taken only once `use_lock` is set and change
-- nothing else; they are the matter of Spinlock.
pub mod Pages
use os_lab.Prelude.{
  ℕ, Bool, Option, ◌+◌, [], List, not, if◌then◌else◌, ◌∷◌, ◌%◌, some, ◌/◌, false, none, ◌==◌, ◌^◌,
  suc, true, ◌||◌, ◌*◌, leb, ltb, zero, ◌-◌,
}

-- `end` and PHYSTOP, as the virtual addresses between which pages may lie.
pub record Layout : Type 0 where
  pub kernel_end : ℕ
  pub phystop : ℕ

-- KERNBASE
abbrev pub kernbase : ℕ
kernbase = 0x80000000

abbrev pub pgsize : ℕ
pgsize = 4096

pub record Kmem : Type 0 where
  pub use_lock : Bool
  pub freelist : List ℕ

-- (uint)v % PGSIZE || v < end || V2P(v) >= PHYSTOP, which is a panic
abbrev pub is_bad_page : Layout → ℕ → Bool
is_bad_page l v =
    not (v % pgsize == 0) || ltb v l.kernel_end || leb l.phystop ((v + 2 ^ 32 - kernbase) % 2 ^ 32)

-- `none` is the panic. The page's junk is not modelled.
unfoldable pub kfree : Layout → ℕ → Kmem → Option Kmem
kfree l v k = if is_bad_page l v then none else some (record k { freelist = v ∷ k.freelist })

-- The null pointer if there is no page.
unfoldable pub kalloc : Kmem → ℕ × Kmem
kalloc k = elim (k.freelist) [ [] ↦ (0, k) | r ∷ rest ↦ (r, record k { freelist = rest }) ]

-- PGROUNDUP, on `uint`
abbrev pub pgroundup : ℕ → ℕ
pgroundup a = (a + 4095) % 2 ^ 32 / 4096 * 4096

-- for(; p + PGSIZE <= (char*)vend; p += PGSIZE) kfree(p); by fuel
unfoldable pub free_pages : ℕ → Layout → ℕ → ℕ → Kmem → Option Kmem
free_pages zero l p vend k = some k
free_pages (suc fuel) l p vend k = elim (leb (p + pgsize) vend) [
  | true ↦ elim (kfree l p k) [ none ↦ none | some k' ↦ free_pages fuel l (p + pgsize) vend k' ]
  | false ↦ some k
]

-- The fuel is more than the pages of the range.
unfoldable pub freerange : Layout → ℕ → ℕ → Kmem → Option Kmem
freerange l vstart vend k = free_pages (vend / pgsize + 1) l (pgroundup vstart) vend k

unfoldable pub kinit1 : Layout → ℕ → ℕ → Kmem → Option Kmem
kinit1 l vstart vend k = freerange l vstart vend (record k { use_lock = false })

unfoldable pub kinit2 : Layout → ℕ → ℕ → Kmem → Option Kmem
kinit2 l vstart vend k = elim (freerange l vstart vend k) [
  | none ↦ none
  | some k' ↦ some (record k' { use_lock = true })
]
