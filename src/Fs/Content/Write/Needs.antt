-- ===== src/Fs/Content/Write/Needs.antt =====
-- The blocks that a write needs, round by round.
use os_lab.Prelude.{
  ℕ, ◌+◌, ◌*◌, ◌/◌, ◌%◌, ◌-◌, ◌<◌, ◌≤◌, arith, inl, inr, ◌∙◌, List, length, take, drop, length-drop,
}
use os_lab.Fs.{Disk, Superblock, bsize}
use os_lab.Fs.Inodes.{Inode}
use os_lab.Fs.Content.{maxfile, take, drop}
use os_lab.Fs.Content.Slots.{IsSound}
use os_lab.Fs.Content.Map.{Mapped}
use os_lab.Fs.Content.Short.{
  Short, Wanted, Stays, Spends, Short-widen, Short-trans, Spends-trans, Spends-widen,
}
use os_lab.Fs.Content.Write.Round.{AreBytes, written, written-slot, written-used}

-- The last block of the content that a write of `src` at `off` touches.
abbrev pub last_block : ℕ → List ℕ → ℕ
last_block off src = (off + length src - 1) / bsize

-- The blocks that one round needs, and those of the rounds after it, are needed by the whole write.
pub Wanted-now :
    (off : ℕ) (src : List ℕ) (u : ℕ)
    → 0 < length src
    → Wanted (off / bsize) (off / bsize) u
    → Wanted (off / bsize) (last_block off src) u
Wanted-now off src u more (inl (lo, hi)) = inl (lo, omega arith)
Wanted-now off src u more (inr (e, hi)) = inr (e, omega arith)

pub Wanted-later :
    (off m : ℕ) (src : List ℕ) (u : ℕ)
    → m ≤ length src
    → Wanted ((off + m) / bsize) (last_block (off + m) (drop m src)) u
    → Wanted (off / bsize) (last_block off src) u
Wanted-later off m src u le (inl (lo, hi)) = inl (omega arith, omega (arith, length-drop m src))
Wanted-later off m src u le (inr (e, hi)) = inr (e, omega (arith, length-drop m src))

-- What a round leaves as it is, and which blocks it takes.
module _ (sb : Superblock) (ip ip1 : Inode) (d d1 : Disk) (v : IsSound sb ip d) (src : List ℕ)
    (off m b : ℕ) (le : m ≤ length src) (more : 0 < length src)
    (fits : off % bsize + length (take m src) ≤ bsize) (wide : AreBytes (take m src))
    (lt : off < maxfile * bsize) (p : Mapped sb ip d (off / bsize) b ip1 d1) where
  abbrev pub round : Disk
  round = written sb ip1 d1 p.sound off b (take m src) wide lt fits p.place p.exists

  pub Stays-round : Stays ip d ip1 round
  Stays-round u lu n =
      written-slot sb ip1 d1 p.sound off b (take m src) wide lt fits p.place p.exists u
      ∙ p.stay u lu n

  pub Spends-round : Spends sb (off / bsize) (last_block off src) ip d ip1 round
  Spends-round c lc free = elim (p.spent c lc free) [
    | inl still ↦ inl (
        written-used sb ip1 d1 p.sound off b (take m src) wide lt fits p.place p.exists c lc
        ∙ still)
    | inr (u, lu, w, z, e) ↦ inr (
      u,
      lu,
      Wanted-now off src u more w,
      z,
      written-slot sb ip1 d1 p.sound off b (take m src) wide lt fits p.place p.exists u ∙ e,
    )
  ]

  pub Spends-rounds :
      (ip2 : Inode) (d2 : Disk)
      → Stays ip1 round ip2 d2
      → Spends sb ((off + m) / bsize) (last_block (off + m) (drop m src)) ip1 round ip2 d2
      → Spends sb (off / bsize) (last_block off src) ip d ip2 d2
  Spends-rounds ip2 d2 s t =
      Spends-trans sb (off / bsize) (last_block off src) ip ip1 d round v Stays-round Spends-round
        ip2 d2 s
        (Spends-widen sb ((off + m) / bsize) (last_block (off + m) (drop m src)) (off / bsize)
          (last_block off src) ip1 ip2 round d2 (λ u. Wanted-later off m src u le) t)

  pub Short-rounds :
      Short sb ((off + m) / bsize) (last_block (off + m) (drop m src)) ip1 round
      → Short sb (off / bsize) (last_block off src) ip d
  Short-rounds t =
      Short-trans sb (off / bsize) (last_block off src) ip ip1 d round v Stays-round Spends-round (
        Short-widen sb ((off + m) / bsize) (last_block (off + m) (drop m src)) (off / bsize)
          (last_block off src) ip1 round (λ u. Wanted-later off m src u le) t)
