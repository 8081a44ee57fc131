-- ===== src/Fs/Names/Lookup.antt =====
-- The loop of namex ends.
use os_lab.Prelude.{
  ℕ, ◌+◌, ◌<◌, ◌≡◌, ◌==◌, refl, arith, Bool, Option, none, some, zero, suc, List, [], length,
  Bool-cases, Option-cases, inl, inr, not, ◌&&◌,
}
use os_lab.Fs.{Superblock, Result-cases}
use os_lab.Fs.Content.{Devsw, iunlockput, t_dir}
use os_lab.Fs.Directory.{dirlookup}
use os_lab.Fs.Inodes.{Fs, ilock, deref}
use os_lab.Fs.Names.{skipelem, namex_loop, namex, namex_start, Caller}
use os_lab.Fs.Names.Elements.{length-skipelem}

abbrev pub Ends : {A : Type 0} → Option A → Type 0
Ends {A} o = (a : A) × (o ≡ some a)

module _ (dw : Devsw) (sb : Superblock) (me : Caller) (parent : Bool) where
  loop-Ends :
      (n : ℕ) (path name : List ℕ) (i : ℕ) (f : Fs)
      → length path < n
      → Ends (namex_loop n dw sb me parent path name i f)
  unfolding namex_loop
  loop-Ends zero path name i f h = absurd (omega arith)
  loop-Ends (suc n) path name i f h = elim (Option-cases (skipelem path)) [
    | inl e ↦
        rw (e, namex_loop)
          (elim (Bool-cases parent) [ inl t ↦ rw t (_, refl) | inr t ↦ rw t (_, refl) ])
    | inr (r, e) ↦
        rw (e, namex_loop)
          (elim (Result-cases (ilock sb me.pid i f)) [
            | inl (x, l) ↦ rw l (_, refl)
            | inr (g, l) ↦ rw l (elim (Result-cases (deref g.inodes i)) [
              | inl (x, p) ↦ rw p (_, refl)
              | inr (ip, p) ↦ rw p (elim (Bool-cases (not (ip.type == t_dir))) [
                | inl t ↦ rw t (_, refl)
                | inr t ↦ rw t (elim (Bool-cases (parent && length r.1 == 0)) [
                  | inl s ↦ rw s (_, refl)
                  | inr s ↦ rw s (elim (Result-cases (dirlookup dw sb i r.0 g)) [
                    | inl (x, d) ↦ rw d (_, refl)
                    | inr ((none, k), d) ↦ rw d (_, refl)
                    | inr ((some (next, off), k), d) ↦
                        rw d (elim (Result-cases (iunlockput sb me.pid i k)) [
                          | inl (x, u) ↦ rw u (_, refl)
                          | inr (f', u) ↦ rw u (
                              loop-Ends n r.1 r.0 next f'
                                (omega (arith, length-skipelem path r.0 r.1 e)))
                        ])
                  ])
                ])
              ])
            ])
          ])
  ]

-- The lookup of a path ends, with a result or a panic, for every disk and every cache of inodes:
-- each round of namex takes a part of the path off.
pub namex-Ends :
    (dw : Devsw) (sb : Superblock) (me : Caller) (parent : Bool) (path : List ℕ) (f : Fs)
    → Ends (namex dw sb me parent path f)
unfolding namex
namex-Ends dw sb me parent path f = elim (Result-cases (namex_start me path f)) [
  | inl (x, e) ↦ rw (e, namex) (_, refl)
  | inr (r, e) ↦
      rw (e, namex) (loop-Ends dw sb me parent (length path + 1) path [] r.0 r.1 (omega arith))
]
