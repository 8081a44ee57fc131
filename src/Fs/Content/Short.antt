-- ===== src/Fs/Content/Short.antt =====
-- Where the free blocks have gone when there are too few of them for the content of an inode.
use os_lab.Prelude.{
  ℕ, ◌≤◌, ◌<◌, ◌≡◌, ◌≢◌, ◌==◌, true, false, arith, refl, Bool-cases, inl, inr, ◌∙◌, sym, ◌⊎◌, ap,
  eq_of_==, ne_of_==,
}
use os_lab.Fs.{Disk, Superblock, ndirect}
use os_lab.Fs.Inodes.{Inode}
use os_lab.Fs.Content.{maxfile}
use os_lab.Fs.Content.Slots.{slot, IsSound}
use os_lab.Fs.Blocks.Laws.{is_used}

-- The slots that the blocks from `lo` to `hi` of the content need: their own, and that of the
-- indirect block if one of them is not direct.
abbrev pub Wanted : ℕ → ℕ → ℕ → Type 0
Wanted lo hi u = ((lo ≤ u) × (u ≤ hi)) ⊎ ((u ≡ maxfile) × (ndirect ≤ hi))

-- A block that is there stays.
abbrev pub Stays : Inode → Disk → Inode → Disk → Type 0
Stays ip d ip' d' = (u : ℕ) → u ≤ maxfile → slot ip d u ≢ 0 → slot ip' d' u ≡ slot ip d u

-- A block that was free is still free, or fills a wanted slot that was empty.
abbrev pub Spends : Superblock → ℕ → ℕ → Inode → Disk → Inode → Disk → Type 0
Spends sb lo hi ip d ip' d' =
    (c : ℕ)
    → c < sb.size
    → is_used sb d c ≡ false
    → (is_used sb d' c ≡ false)
      ⊎ ((u : ℕ) × (u ≤ maxfile) × Wanted lo hi u × (slot ip d u ≡ 0) × (slot ip' d' u ≡ c))

-- The free blocks are fewer than the empty slots that the blocks from `lo` to `hi` of the content
-- need: all of them have filled such slots, so that no block is free, and one is still empty.
pub record Short (sb : Superblock) (lo hi : ℕ) (ip : Inode) (d : Disk) : Type 0 where
  pub end_inode : Inode
  pub end_disk : Disk
  pub sound : IsSound sb end_inode end_disk
  pub stay : Stays ip d end_inode end_disk
  pub spent : Spends sb lo hi ip d end_inode end_disk
  pub full : (c : ℕ) → c < sb.size → is_used sb end_disk c ≡ true
  pub missing : (u : ℕ) × (u ≤ maxfile) × Wanted lo hi u × (slot end_inode end_disk u ≡ 0)

pub Short-now :
    (sb : Superblock) (s : ℕ) (ip : Inode) (d : Disk)
    → IsSound sb ip d
    → s ≤ maxfile
    → slot ip d s ≡ 0
    → ((c : ℕ) → c < sb.size → is_used sb d c ≡ true)
    → Short sb s s ip d
Short-now sb s ip d v le z full = record {
  end_inode = ip;
  end_disk = d;
  sound = v;
  stay = λ u lu n. refl;
  spent = λ c lc free. inl free;
  full = full;
  missing = (s, le, inl (omega arith, omega arith), z);
}

pub Spends-widen :
    (sb : Superblock) (lo hi lo' hi' : ℕ) (ip ip' : Inode) (d d' : Disk)
    → ((u : ℕ) → Wanted lo hi u → Wanted lo' hi' u)
    → Spends sb lo hi ip d ip' d'
    → Spends sb lo' hi' ip d ip' d'
Spends-widen sb lo hi lo' hi' ip ip' d d' more s c lc free = elim (s c lc free) [
  | inl still ↦ inl still
  | inr (u, le, w, z, e) ↦ inr (u, le, more u w, z, e)
]

pub Short-widen :
    (sb : Superblock) (lo hi lo' hi' : ℕ) (ip : Inode) (d : Disk)
    → ((u : ℕ) → Wanted lo hi u → Wanted lo' hi' u)
    → Short sb lo hi ip d
    → Short sb lo' hi' ip d
Short-widen sb lo hi lo' hi' ip d more s =
    let (u, le, w, z) = s.missing in
    record {
      end_inode = s.end_inode;
      end_disk = s.end_disk;
      sound = s.sound;
      stay = s.stay;
      spent = Spends-widen sb lo hi lo' hi' ip (s.end_inode) d (s.end_disk) more s.spent;
      full = s.full;
      missing = (u, le, more u w, z);
    }

pub Stays-trans :
    (ip ip1 ip2 : Inode) (d d1 d2 : Disk)
    → Stays ip d ip1 d1
    → Stays ip1 d1 ip2 d2
    → Stays ip d ip2 d2
Stays-trans ip ip1 ip2 d d1 d2 a b u le n =
    let e : slot ip1 d1 u ≡ slot ip d u = a u le n in b u le (λ z. n (sym e ∙ z)) ∙ e

module _ (sb : Superblock) (lo hi : ℕ) (ip ip1 : Inode) (d d1 : Disk) (v : IsSound sb ip d)
    (a : Stays ip d ip1 d1) (s : Spends sb lo hi ip d ip1 d1) where
  pub Spends-trans :
      (ip2 : Inode) (d2 : Disk)
      → Stays ip1 d1 ip2 d2
      → Spends sb lo hi ip1 d1 ip2 d2
      → Spends sb lo hi ip d ip2 d2
  Spends-trans ip2 d2 b t c lc free = elim (s c lc free) [
    | inl still ↦ elim (t c lc still) [
      | inl yet ↦ inl yet
      | inr (u, le, w, z, e) ↦ elim (Bool-cases (slot ip d u == 0)) [
        | inl none_there ↦ inr (u, le, w, eq_of_== (slot ip d u) 0 none_there, e)
        | inr there ↦
            let n : slot ip d u ≢ 0 = ne_of_== (slot ip d u) 0 there in
            absurd (n (sym (a u le n) ∙ z))
      ]
    ]
    | inr (u, le, w, z, e) ↦
        inr (u, le, w, z, b u le (λ none_there. not_boot (sym e ∙ none_there)) ∙ e)
  ]
    where
      not_boot : c ≢ 0
      not_boot at = ground (arith, v.boot, free, ap (is_used sb d) at)

  pub Short-trans : Short sb lo hi ip1 d1 → Short sb lo hi ip d
  Short-trans t = record {
    end_inode = t.end_inode;
    end_disk = t.end_disk;
    sound = t.sound;
    stay = Stays-trans ip ip1 (t.end_inode) d d1 (t.end_disk) a t.stay;
    spent = Spends-trans (t.end_inode) (t.end_disk) t.stay t.spent;
    full = t.full;
    missing = t.missing;
  }
