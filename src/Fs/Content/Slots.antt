-- ===== src/Fs/Content/Slots.antt =====
-- The blocks that an inode owns, and what keeps them apart.
use os_lab.Prelude.{
  ℕ, ◌+◌, ◌*◌, ◌/◌, ◌%◌, ◌-◌, ◌^◌, ◌<◌, ◌≤◌, ◌≡◌, ◌≢◌, ◌==◌, if◌then◌else◌, true, arith, Bool-cases,
  inl, inr, ap, ◌∙◌, sym, length, get_or, ltb, eq_of_==, ne_of_==,
}
use os_lab.Fs.{Disk, Superblock, bblock, iblock, ndirect, bsize, uint_at}
use os_lab.Fs.Inodes.{Inode}
use os_lab.Fs.Content.{maxfile}
use os_lab.Fs.Blocks.Laws.{is_used, HasMap}
use os_lab.Fs.Blocks.Alloc.{Takes}

abbrev pub ind : Inode → ℕ
ind ip = get_or ip.addrs ndirect 0

-- The block number in a slot, 0 if there is none: the slots below MAXFILE are the blocks of the
-- content, and the slot MAXFILE is the indirect block.
unfoldable pub slot : Inode → Disk → ℕ → ℕ
slot ip d s =
    if s == maxfile
    then ind ip
    else if ltb s ndirect
    then get_or ip.addrs s 0
    else if ind ip == 0
    then 0
    else uint_at (d (ind ip)) ((s - ndirect) * 4)

-- The byte of the content at a position; a block that is missing counts as zeros.
abbrev pub byte_of : Inode → Disk → ℕ → ℕ
byte_of ip d i = if slot ip d (i / bsize) == 0 then 0 else d (slot ip d (i / bsize)) (i % bsize)

-- A block of the boot loader, the inode's own place on the disk, and the free map.
pub record IsData (sb : Superblock) (ip : Inode) (b : ℕ) : Type 0 where
  pub no_boot : b ≢ 0
  pub no_home : b ≢ iblock ip.inum sb
  pub no_map : (c : ℕ) → c < sb.size → b ≢ bblock c sb

-- The blocks of an inode are in use, hold nothing else, and none stands in two slots.
pub record IsSound (sb : Superblock) (ip : Inode) (d : Disk) : Type 0 where
  pub map : HasMap sb d
  pub small : sb.size ≤ 2 ^ 32
  pub boot : is_used sb d 0 ≡ true
  pub home : is_used sb d (iblock ip.inum sb) ≡ true
  pub home_inside : iblock ip.inum sb < sb.size
  pub home_off_map : (c : ℕ) → c < sb.size → iblock ip.inum sb ≢ bblock c sb
  pub room : length ip.addrs ≡ ndirect + 1
  pub within : (s : ℕ) → s ≤ maxfile → slot ip d s ≢ 0 → slot ip d s < sb.size
  pub used : (s : ℕ) → s ≤ maxfile → slot ip d s ≢ 0 → is_used sb d (slot ip d s) ≡ true
  pub owned : (s : ℕ) → s ≤ maxfile → slot ip d s ≢ 0 → IsData sb ip (slot ip d s)
  pub apart :
      (s t : ℕ) → s ≤ maxfile → t ≤ maxfile → slot ip d s ≢ 0 → slot ip d s ≡ slot ip d t → s ≡ t

module _ (sb : Superblock) (ip : Inode) (d : Disk) (v : IsSound sb ip d) (b : ℕ) (d' : Disk)
    (t : Takes sb d b d') where
  -- A block that balloc gives is new to the inode.
  pub fresh_slot : (s : ℕ) → s ≤ maxfile → slot ip d s ≢ b
  fresh_slot s le e = elim (Bool-cases (slot ip d s == 0)) [
    | inl z ↦ ground (
      arith,
      v.boot,
      t.was_free,
      ap (is_used sb d) e,
      ap (is_used sb d) (eq_of_== (slot ip d s) 0 z),
    )
    | inr n ↦
        ground (arith, t.was_free, v.used s le (ne_of_== (slot ip d s) 0 n), ap (is_used sb d) e)
  ]

  pub fresh-IsData : IsData sb ip b
  fresh-IsData = record {
    no_boot = λ e. ground (arith, v.boot, t.was_free, ap (is_used sb d) e);
    no_home = λ e. ground (arith, v.home, t.was_free, ap (is_used sb d) e);
    no_map = λ c lc e. ground (arith, v.map.reserved c lc, t.was_free, ap (is_used sb d) e);
  }

  -- A slot's block is as before.
  pub kept : (s : ℕ) → s ≤ maxfile → slot ip d s ≢ 0 → d' (slot ip d s) ≡ d (slot ip d s)
  kept s le n =
      let o : IsData sb ip (slot ip d s) = v.owned s le n in
      t.rest (slot ip d s) (fresh_slot s le) (o.no_map b t.within)

-- The inode `ip'` on `d'` has one block more than `ip` on `d`: the fresh block `b` in slot `s`.
pub record Adds (sb : Superblock) (ip : Inode) (d : Disk) (s b : ℕ) (ip' : Inode) (d' : Disk)
    : Type 0 where
  pub map : HasMap sb d'
  pub same_use : (c : ℕ) → c < sb.size → is_used sb d' c ≡ (if c == b then true else is_used sb d c)
  pub same_home : ip'.inum ≡ ip.inum
  pub room : length ip'.addrs ≡ ndirect + 1
  pub slots : (t : ℕ) → t ≤ maxfile → slot ip' d' t ≡ (if t == s then b else slot ip d t)

module _ (sb : Superblock) (ip : Inode) (d : Disk) (v : IsSound sb ip d) (s b : ℕ) (d1 : Disk)
    (t : Takes sb d b d1) (ip' : Inode) (d' : Disk) (a : Adds sb ip d s b ip' d') where
  still_used : (c : ℕ) → c < sb.size → is_used sb d c ≡ true → is_used sb d' c ≡ true
  still_used c lc u = ground (arith, a.same_use c lc)

  pub IsSound-Adds : IsSound sb ip' d'
  IsSound-Adds = record {
    map = a.map;
    small = v.small;
    boot = still_used 0 (omega (arith, t.within)) v.boot;
    home = rw a.same_home (still_used (iblock ip.inum sb) v.home_inside v.home);
    home_inside = rw a.same_home v.home_inside;
    home_off_map = rw a.same_home v.home_off_map;
    room = a.room;
    within = λ u le n. elim (Bool-cases (u == s)) [
      | inl e ↦ ground (arith, a.slots u le, t.within)
      | inr e ↦ ground (arith, a.slots u le, v.within u le)
    ];
    used = λ u le n. elim (Bool-cases (u == s)) [
      | inl e ↦
          let is : slot ip' d' u ≡ b = ground (arith, a.slots u le) in
          rw is (ground (arith, a.same_use b t.within))
      | inr e ↦
          let is : slot ip' d' u ≡ slot ip d u = ground (arith, a.slots u le) in
          rw is (
            still_used (slot ip d u) (v.within u le (λ z. n (is ∙ z)))
              (v.used u le (λ z. n (is ∙ z))))
    ];
    owned = λ u le n. elim (Bool-cases (u == s)) [
      | inl e ↦
          let is : slot ip' d' u ≡ b = ground (arith, a.slots u le) in
          rw is (off_home (fresh-IsData sb ip d v b d1 t))
      | inr e ↦
          let is : slot ip' d' u ≡ slot ip d u = ground (arith, a.slots u le) in
          rw is (off_home (v.owned u le (λ z. n (is ∙ z))))
    ];
    apart = λ u w lu lw n e. elim (Bool-cases (u == s)) [
      | inl at ↦ elim (Bool-cases (w == s)) [
        | inl at' ↦ ground arith
        | inr ne ↦
            absurd (fresh_slot sb ip d v b d1 t w lw (ground (arith, a.slots u lu, a.slots w lw)))
      ]
      | inr ne ↦ elim (Bool-cases (w == s)) [
        | inl at' ↦
            absurd (fresh_slot sb ip d v b d1 t u lu (ground (arith, a.slots u lu, a.slots w lw)))
        | inr ne' ↦
            let iu : slot ip' d' u ≡ slot ip d u = ground (arith, a.slots u lu) in
            let iw : slot ip' d' w ≡ slot ip d w = ground (arith, a.slots w lw) in
            v.apart u w lu lw (λ z. n (iu ∙ z)) (sym iu ∙ (e ∙ iw))
      ]
    ];
  }
    where
      off_home : {x : ℕ} → IsData sb ip x → IsData sb ip' x
      off_home o = record {
        no_boot = o.no_boot;
        no_home = rw a.same_home o.no_home;
        no_map = o.no_map;
      }
