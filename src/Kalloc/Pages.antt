-- ===== src/Kalloc/Pages.antt =====
-- The pages that freerange puts on the list, and what kalloc and kfree do to each other.
use os_lab.Prelude.{
  ℕ, List, ◌+◌, ◌<◌, ◌%◌, ◌≡◌, ◌∷◌, ◌^◌, ◌≤◌, zero, ◌*◌, some, arith, ◌/◌, false, le→leb, refl,
}
use os_lab.Kalloc.{
  free_pages, freerange, kfree, suc, Layout, kalloc, Kmem, pgsize, kernbase, pgroundup, some,
  is_bad_page, false,
}

-- The pages from `p` on, the last one first, on top of the list.
abbrev pub pages_onto : ℕ → ℕ → List ℕ → List ℕ
pages_onto zero p free = free
pages_onto (suc n) p free = pages_onto n (p + pgsize) (p ∷ free)

kfree_good :
    (l : Layout) (p vend : ℕ) (k : Kmem)
    → p % pgsize ≡ 0
    → l.kernel_end ≤ p
    → kernbase ≤ p
    → p + pgsize ≤ vend
    → vend ≤ kernbase + l.phystop
    → vend < 2 ^ 32
    → kfree l p k ≡ some (record k { freelist = p ∷ k.freelist })
unfolding kfree
kfree_good l p vend k al lo kb hi top wide =
    let e : is_bad_page l p ≡ false = ground arith in rw e refl

free_pages_lem :
    (fuel n : ℕ) (l : Layout) (p vend : ℕ) (k : Kmem)
    → n < fuel
    → p % pgsize ≡ 0
    → l.kernel_end ≤ p
    → kernbase ≤ p
    → p + n * pgsize ≤ vend
    → vend < p + (n + 1) * pgsize
    → vend ≤ kernbase + l.phystop
    → vend < 2 ^ 32
    → free_pages fuel l p vend k ≡ some (record k { freelist = pages_onto n p k.freelist })
unfolding free_pages
free_pages_lem zero n l p vend k lt al lo kb hi end top wide = absurd (omega arith)
free_pages_lem (suc fuel) zero l p vend k lt al lo kb hi end top wide = ground arith
free_pages_lem (suc fuel) (suc n) l p vend k lt al lo kb hi end top wide =
    rw (le→leb (p + pgsize) vend (omega arith), free_pages)
      (rw (kfree_good l p vend k al lo kb (omega arith) top wide, free_pages)
        (free_pages_lem fuel n l (p + pgsize) vend (record k { freelist = p ∷ k.freelist })
          (omega arith) (omega arith) (omega arith) (omega arith) (omega arith) (omega arith) top
          wide))

-- freerange of a range that lies between the end of the kernel and the top of memory does not
-- panic: it adds the n whole pages from the first page boundary on to the list, and no other.
pub freerange_lem :
    (l : Layout) (vstart vend n : ℕ) (k : Kmem)
    → vend < 2 ^ 32
    → vstart + 4095 < 2 ^ 32
    → l.kernel_end ≤ vstart
    → kernbase ≤ vstart
    → vend ≤ kernbase + l.phystop
    → pgroundup vstart + n * pgsize ≤ vend
    → vend < pgroundup vstart + (n + 1) * pgsize
    → freerange l vstart vend k
      ≡ some (record k { freelist = pages_onto n (pgroundup vstart) k.freelist })
unfolding freerange
freerange_lem l vstart vend n k wide start lo kb top hi end =
    free_pages_lem (vend / pgsize + 1) n l (pgroundup vstart) vend k (omega arith) (omega arith)
      (omega arith) (omega arith) hi end top wide

-- kfree of an aligned page between the end of the kernel and the top of memory does not panic; the
-- page is the next that kalloc gives out, and the allocator is then as before.
kalloc-kfree :
    (l : Layout) (v : ℕ) (k : Kmem)
    → v % pgsize ≡ 0
    → l.kernel_end ≤ v
    → kernbase ≤ v
    → v < kernbase + l.phystop
    → v < 2 ^ 32
    → (k' : Kmem) × (kfree l v k ≡ some k') × (kalloc k' ≡ (v, k))
unfolding kfree kalloc
kalloc-kfree l v k al lo kb hi wide =
    let e : is_bad_page l v ≡ false = ground arith in
    (record k { freelist = v ∷ k.freelist }, rw e refl, refl)
