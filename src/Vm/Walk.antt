-- ===== src/Vm/Walk.antt =====
-- walkpgdir: a table is found, or made from a free page.
use os_lab.Prelude.{
  ℕ, ◌+◌, ◌*◌, ◌%◌, ◌^◌, ◌<◌, ◌≤◌, ◌≡◌, ◌≢◌, ◌⊎◌, true, false, arith, refl, ◌∙◌, Bool-cases, inl,
  inr, List, ◌∷◌, [], ap, ◌==◌, ◌/◌,
}
use os_lab.Strings.{Memory, memset}
use os_lab.Kalloc.{kernbase, pgsize, Kmem, kalloc}
use os_lab.Fs.{uint_at}
use os_lab.Vm.{
  Ram, walkpgdir, pdx, is_present, new_table, pte_addr, p2v, v2p, ptx, bit_or, make_table,
}
use os_lab.Vm.Words.{
  put_uint-other, uint_at-zero, uint_at-eq, uint_at-same, bit_or_seven, memset_lem,
}

abbrev entry_of : ℕ → ℕ → Ram → ℕ
entry_of pgdir va r = uint_at r.memory (pgdir + 4 * pdx va)

-- What walkpgdir is called with: a directory that is a page, a table for `va`, if there is one, that
-- is in physical memory below KERNBASE, and a page to be given out that is not the directory.
pub record IsReady (pgdir va : ℕ) (r : Ram) : Type 0 where
  pub aligned : pgdir % pgsize ≡ 0
  pub table : is_present (entry_of pgdir va r) ≡ true → pte_addr (entry_of pgdir va r) < kernbase
  pub page :
      (v : ℕ) (rest : List ℕ)
      → r.kmem.freelist ≡ v ∷ rest
      → (v % pgsize ≡ 0) × (kernbase ≤ v) × (v < 2 ^ 32) × (v ≢ pgdir)

-- A table was made in the page `v`: it is full of zeros, and nothing else has changed but the entry
-- of the directory and the list of free pages.
pub record Made (pgdir va v : ℕ) (r r' : Ram) : Type 0 where
  pub taken : r.kmem.freelist ≡ v ∷ r'.kmem.freelist
  pub zeros : (j : ℕ) → j < 1024 → uint_at r'.memory (v + 4 * j) ≡ 0
  pub frame :
      (a : ℕ)
      → (a < v) ⊎ (v + pgsize ≤ a)
      → (a < pgdir + 4 * pdx va) ⊎ (pgdir + 4 * pdx va + 4 ≤ a)
      → r'.memory a ≡ r.memory a

-- The table that the directory entry of `va` points to, by its kernel address, and the entry of
-- `va` in it: PDX is the upper ten bits of the address, PTX the ten bits below them.
abbrev place_of : ℕ → ℕ → Ram → ℕ
place_of pgdir va r =
    uint_at r.memory (pgdir + 4 * (va / 2 ^ 22 % 2 ^ 10)) / 2 ^ 12 * 2 ^ 12
    + 2 ^ 31
    + 4 * (va / 2 ^ 12 % 2 ^ 10)

-- The entry `pte` for `va` was found, or its table made.
pub record Walked (pgdir va : ℕ) (r : Ram) (pte : ℕ) (r' : Ram) : Type 0 where
  pub exists : pte ≢ 0
  pub again : walkpgdir pgdir va false r' ≡ (pte, r')
  pub place : pte ≡ place_of pgdir va r'
  pub same_table :
      (u : ℕ)
      → u / 2 ^ 22 % 2 ^ 10 ≡ va / 2 ^ 22 % 2 ^ 10
      → (walkpgdir pgdir u false r').0 + 4 * (va / 2 ^ 12 % 2 ^ 10)
        ≡ pte + 4 * (u / 2 ^ 12 % 2 ^ 10)
  pub others :
      (u : ℕ) → pdx u ≢ pdx va → (walkpgdir pgdir u false r').0 ≡ (walkpgdir pgdir u false r).0
  pub change : (r' ≡ r) ⊎ ((v : ℕ) × Made pgdir va v r r')

-- The directory entry that a walk without alloc follows.
walk_found :
    (pgdir va e : ℕ) (r : Ram)
    → entry_of pgdir va r ≡ e
    → is_present e ≡ true
    → walkpgdir pgdir va false r ≡ (p2v (pte_addr e) + 4 * ptx va, r)
unfolding walkpgdir
walk_found pgdir va e r h p = rw h (rw p refl)

-- The walk to another address of the same table.
walk_table :
    (pgdir va u e : ℕ) (r : Ram)
    → entry_of pgdir va r ≡ e
    → is_present e ≡ true
    → pdx u ≡ pdx va
    → (walkpgdir pgdir u false r).0 + 4 * ptx va ≡ p2v (pte_addr e) + 4 * ptx va + 4 * ptx u
walk_table pgdir va u e r h p same =
    ap (λ (w : ℕ × Ram). w.0 + 4 * ptx va)
      (walk_found pgdir u e r (ap (λ x. uint_at r.memory (pgdir + 4 * x)) same ∙ h) p)
    ∙ omega arith

walk_same :
    (pgdir u : ℕ) (r r' : Ram)
    → entry_of pgdir u r' ≡ entry_of pgdir u r
    → (walkpgdir pgdir u false r').0 ≡ (walkpgdir pgdir u false r).0
unfolding walkpgdir
walk_same pgdir u r r' h =
    rw h (elim (Bool-cases (is_present (entry_of pgdir u r))) [
      | inl p ↦ rw p refl
      | inr p ↦ rw p refl
    ])

module _ (pgdir va v : ℕ) (r : Ram) (al : pgdir % pgsize ≡ 0) (av : v % pgsize ≡ 0)
    (lo : kernbase ≤ v) (hi : v < 2 ^ 32) (ne : v ≢ pgdir) where
  abbrev pde : ℕ
  pde = pgdir + 4 * pdx va

  abbrev m1 : Memory
  m1 = new_table pde v r.memory

  -- The entry that is made.
  made : uint_at m1 pde ≡ v2p v + 7
  unfolding new_table
  made =
      uint_at-same pde (bit_or (v2p v) 7) (memset v 0 pgsize r.memory)
        (omega (arith, bit_or_seven (v2p v) (omega arith)))
      ∙ bit_or_seven (v2p v) (omega arith)

  frame_made : (a : ℕ) → (a < v) ⊎ (v + pgsize ≤ a) → (a < pde) ⊎ (pde + 4 ≤ a) → m1 a ≡ r.memory a
  unfolding new_table
  frame_made a h k =
      put_uint-other pde (bit_or (v2p v) 7) (memset v 0 pgsize r.memory) a k
      ∙ (memset_lem v 0 pgsize r.memory a ∙ ground arith)

  zeros_made : (j : ℕ) → j < 1024 → uint_at m1 (v + 4 * j) ≡ 0
  unfolding new_table
  zeros_made j lt = uint_at-zero (v + 4 * j) m1 (λ a ge below.
      put_uint-other pde (bit_or (v2p v) 7) (memset v 0 pgsize r.memory) a (omega arith)
      ∙ (memset_lem v 0 pgsize r.memory a ∙ ground arith))

  others_made :
      (u : ℕ)
      → pdx u ≢ pdx va
      → uint_at m1 (pgdir + 4 * pdx u) ≡ uint_at r.memory (pgdir + 4 * pdx u)
  others_made u apart =
      uint_at-eq (pgdir + 4 * pdx u) r.memory m1
        (λ a ge below. frame_made a (omega arith) (omega arith))

  Walked-made :
      (k : Kmem)
      → r.kmem.freelist ≡ v ∷ k.freelist
      → Walked pgdir va r (v + 4 * ptx va) (record { memory = m1; kmem = k })
  Walked-made k taken = record {
    exists = λ z. absurd (omega arith);
    again =
        walk_found pgdir va (v2p v + 7) (record { memory = m1; kmem = k }) made (ground arith)
        ∙ ap (λ t. (t + 4 * ptx va, record { memory = m1; kmem = k })) (same_page v av lo hi);
    place = omega (arith, made);
    same_table = λ u same.
        walk_table pgdir va u (v2p v + 7) (record { memory = m1; kmem = k }) made (ground arith)
          same
        ∙ ap (λ t. t + 4 * ptx va + 4 * ptx u) (same_page v av lo hi);
    others =
        λ u apart. walk_same pgdir u r (record { memory = m1; kmem = k }) (others_made u apart);
    change = inr (v, record { taken = taken; zeros = zeros_made; frame = frame_made });
  }
    where
      same_page :
          (v : ℕ) → v % pgsize ≡ 0 → kernbase ≤ v → v < 2 ^ 32 → p2v (pte_addr (v2p v + 7)) ≡ v
      same_page v av lo hi = omega arith

Walked-found :
    (pgdir va : ℕ) (r : Ram)
    → is_present (entry_of pgdir va r) ≡ true
    → pte_addr (entry_of pgdir va r) < kernbase
    → Walked pgdir va r (p2v (pte_addr (entry_of pgdir va r)) + 4 * ptx va) r
Walked-found pgdir va r p small = record {
  exists = λ z. absurd (omega arith);
  again = walk_found pgdir va (entry_of pgdir va r) r refl p;
  place = omega arith;
  same_table = λ u same. walk_table pgdir va u (entry_of pgdir va r) r refl p same;
  others = λ u apart. refl;
  change = inl refl;
}

list-cases : (l : List ℕ) → (l ≡ []) ⊎ ((v : ℕ) × (rest : List ℕ) × (l ≡ v ∷ rest))
list-cases [] = inl refl
list-cases (v ∷ rest) = inr (v, rest, refl)

kalloc-none : (k : Kmem) → k.freelist ≡ [] → kalloc k ≡ (0, k)
unfolding kalloc
kalloc-none k e = rw e refl

kalloc-page :
    (k : Kmem) (v : ℕ) (rest : List ℕ)
    → k.freelist ≡ v ∷ rest
    → kalloc k ≡ (v, record k { freelist = rest })
unfolding kalloc
kalloc-page k v rest e = rw e refl

abbrev pub WalkOutcome : ℕ → ℕ → Ram → ℕ × Ram → Type 0
WalkOutcome pgdir va r (pte, r') =
    ((pte ≡ 0) × (r.kmem.freelist ≡ []) × (r'.memory ≡ r.memory)) ⊎ Walked pgdir va r pte r'

-- walkpgdir with alloc set gives the null pointer only if no page is free, and memory is then as
-- before. Otherwise the entry that it gave is the one that the ten bits of the address above the
-- page's offset number, in the table that the directory's entry for its upper ten bits points to.
-- The same walk without alloc finds it; the walk to another address of this table finds the entry
-- as many entries away as the two page numbers are apart; and the walk to an address of another
-- table gives what it gave before. Either nothing has changed, or a table was
-- made: a page is taken off the list, its entries are 0, and every byte outside that page and the
-- entry of the directory is as before.
pub walkpgdir_lem :
    (pgdir va : ℕ) (r : Ram)
    → IsReady pgdir va r
    → WalkOutcome pgdir va r (walkpgdir pgdir va true r)
unfolding walkpgdir make_table
walkpgdir_lem pgdir va r w = elim (Bool-cases (is_present (entry_of pgdir va r))) [
  | inl p ↦ rw p (inr (Walked-found pgdir va r p (w.table p)))
  | inr p ↦ rw p (elim (list-cases (r.kmem.freelist)) [
    | inl e ↦ rw (kalloc-none r.kmem e) (inl (refl, e, refl))
    | inr (v, rest, e) ↦
        let (av, lo, hi, ne) = w.page v rest e in
        let n : (v == 0) ≡ false = ground arith in
        rw (kalloc-page r.kmem v rest e) (
          rw n (
            inr (
              Walked-made pgdir va v r w.aligned av lo hi ne
                (record { use_lock = r.kmem.use_lock; freelist = rest }) e)))
  ])
]
