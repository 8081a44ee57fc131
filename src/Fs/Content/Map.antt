-- ===== src/Fs/Content/Map.antt =====
-- bmap gives each block of the content its place, and takes a fresh block if there is none.
use os_lab.Prelude.{
  ℕ, ◌+◌, ◌*◌, ◌-◌, ◌^◌, ◌<◌, ◌≤◌, ◌≡◌, ◌≢◌, ◌==◌, if◌then◌else◌, arith, refl, Bool-cases, inl, inr,
  ap, ◌∙◌, get_or, set, length-set, get_or-set, ne_of_==, ◌/◌, ◌⊎◌, ◌%◌,
}
use os_lab.Fs.{
  Block, Disk, Superblock, ndirect, uint_at, put_uint, put_block, nindirect, bsize, Result, bblock,
  panic, out_of_blocks, ok,
}
use os_lab.Fs.Inodes.{Inode}
use os_lab.Fs.Content.{maxfile}
use os_lab.Fs.Content.Slots.{
  ind, slot, IsSound, kept, Adds, IsSound-Adds, IsData, byte_of, fresh-IsData,
}
use os_lab.Fs.Content.Short.{Short, Stays, Spends}
use os_lab.Fs.Blocks.Alloc.{Takes}
use os_lab.Fs.Blocks.Bits.{HasBytes}
use os_lab.Fs.Blocks.Laws.{HasMap, is_used}
use os_lab.Log.{panic, ok}

module _ (sb : Superblock) (ip : Inode) (d : Disk) (v : IsSound sb ip d) (b : ℕ) (d1 : Disk)
    (t : Takes sb d b d1) where
  same_ind : ind ip ≢ 0 → d1 (ind ip) ≡ d (ind ip)
  unfolding slot
  same_ind n = kept sb ip d v b d1 t maxfile (omega arith) n

  -- addrs[i] = b, for a direct block and for the indirect one.
  abbrev pub with_addr : ℕ → Inode
  with_addr i = record ip { addrs = set ip.addrs i b }

  addr_of :
      (i j : ℕ)
      → i ≤ ndirect
      → get_or (set ip.addrs i b) j 0 ≡ (if j == i then b else get_or ip.addrs j 0)
  addr_of i j le = get_or-set ip.addrs i j b 0 (omega (arith, v.room))

  pub Adds-direct : (i : ℕ) → i < ndirect → Adds sb ip d i b (with_addr i) d1
  unfolding slot
  Adds-direct i lt = record {
    map = t.valid;
    same_use = t.map;
    same_home = refl;
    room = length-set ip.addrs i b ∙ v.room;
    slots = λ s le. elim (Bool-cases (ind ip == 0)) [
      | inl z ↦ ground (arith, addr_of i s (omega arith), addr_of i ndirect (omega arith))
      | inr n ↦ ground (
        arith,
        addr_of i s (omega arith),
        addr_of i ndirect (omega arith),
        ap (λ (x : Block). uint_at x ((s - ndirect) * 4)) (same_ind (ne_of_== (ind ip) 0 n)),
      )
    ];
  }

  no_uint : (o : ℕ) → uint_at (d1 b) o ≡ 0
  unfolding uint_at
  no_uint o = omega (arith, t.zeros o, t.zeros (o + 1), t.zeros (o + 2), t.zeros (o + 3))

  pub Adds-indirect : ind ip ≡ 0 → Adds sb ip d maxfile b (with_addr ndirect) d1
  unfolding slot
  Adds-indirect z = record {
    map = t.valid;
    same_use = t.map;
    same_home = refl;
    room = length-set ip.addrs ndirect b ∙ v.room;
    slots = λ s le. ground (
      arith,
      addr_of ndirect s (omega arith),
      addr_of ndirect ndirect (omega arith),
      no_uint ((s - ndirect) * 4),
    );
  }

uint_at-put_uint :
    (o p x : ℕ) (b : Block)
    → x < 2 ^ 32
    → (uint_at (put_uint (o * 4) x b) (p * 4)) ≡ (if p == o then x else uint_at b (p * 4))
unfolding uint_at put_uint
uint_at-put_uint o p x b h = ground arith

pub HasBytes-put_uint : (o x : ℕ) (b : Block) → HasBytes b → HasBytes (put_uint o x b)
unfolding put_uint
HasBytes-put_uint o x b w j = ground (arith, w j)

-- A write to a block that is none of the map keeps the map.
pub HasMap-put_block :
    (sb : Superblock) (d : Disk) (a : ℕ) (bytes : Block)
    → HasMap sb d
    → ((c : ℕ) → c < sb.size → a ≢ bblock c sb)
    → HasBytes bytes
    → HasMap sb (put_block a bytes d)
      × ((c : ℕ) → c < sb.size → is_used sb (put_block a bytes d) c ≡ is_used sb d c)
HasMap-put_block sb d a bytes m off w = (
  record {
    wide = λ c j. ground (arith, w j, m.wide c j);
    inside = m.inside;
    reserved = λ c lt. same (bblock c sb) (m.inside c lt) ∙ m.reserved c lt;
  },
  same,
)
  where
    same : (c : ℕ) → c < sb.size → is_used sb (put_block a bytes d) c ≡ is_used sb d c
    same c lt = ground (arith, off c lt)

module _ (sb : Superblock) (ip : Inode) (d : Disk) (v : IsSound sb ip d) (b : ℕ) (d1 : Disk)
    (t : Takes sb d b d1) where
  -- a[j] = b, in the indirect block.
  abbrev pub with_entry : ℕ → Disk
  with_entry j = put_block (ind ip) (put_uint (j * 4) b (d1 (ind ip))) d1

  pub Adds-entry :
      (j : ℕ) → j < nindirect → ind ip ≢ 0 → Adds sb ip d (j + ndirect) b ip (with_entry j)
  unfolding slot
  Adds-entry j lt n =
      let o : IsData sb ip (ind ip) = v.owned maxfile (omega arith) n in
      let (m, same) =
        HasMap-put_block sb d1 (ind ip) (put_uint (j * 4) b (d1 (ind ip))) t.valid o.no_map
          (HasBytes-put_uint (j * 4) b (d1 (ind ip)) (t.valid.wide (ind ip))) in
      record {
        map = m;
        same_use = λ c lc. same c lc ∙ t.map c lc;
        same_home = refl;
        room = v.room;
        slots = λ s le. ground (
          arith,
          uint_at-put_uint j (s - ndirect) b (d1 (ind ip)) (omega (arith, t.within, v.small)),
          ap (λ (x : Block). uint_at x ((s - ndirect) * 4)) (same_ind sb ip d v b d1 t n),
        );
      }

-- `ip'` on `d'` is `ip` on `d` with the block `b` in slot `s`, which is new or was there before, and
-- with the same content.
pub record Mapped (sb : Superblock) (ip : Inode) (d : Disk) (s b : ℕ) (ip' : Inode) (d' : Disk)
    : Type 0 where
  pub sound : IsSound sb ip' d'
  pub place : slot ip' d' s ≡ b
  pub exists : b ≢ 0
  pub fields : record ip' { addrs = ip.addrs } ≡ ip
  pub stay : Stays ip d ip' d'
  pub content : (i : ℕ) → i < maxfile * bsize → byte_of ip' d' i ≡ byte_of ip d i
  pub spent : Spends sb s s ip d ip' d'

-- The outcome of a call that may have to allocate: there is a panic only if the free blocks are too
-- few.
abbrev pub MapOutcome : Superblock → Inode → Disk → ℕ → Result (ℕ × Inode × Disk) → Type 0
MapOutcome sb ip d s r =
    ((r ≡ panic out_of_blocks) × Short sb s s ip d)
    ⊎ ((b : ℕ) × (ip' : Inode) × (d' : Disk) × (r ≡ ok (b, ip', d')) × Mapped sb ip d s b ip' d')

-- A block that is there already.
pub Mapped-same :
    (sb : Superblock) (ip : Inode) (d : Disk) (s : ℕ)
    → IsSound sb ip d
    → slot ip d s ≢ 0
    → Mapped sb ip d s (slot ip d s) ip d
Mapped-same sb ip d s v n = record {
  sound = v;
  place = refl;
  exists = n;
  fields = refl;
  stay = λ u le nz. refl;
  content = λ i lt. refl;
  spent = λ c lc free. inl free;
}

module _ (sb : Superblock) (ip : Inode) (d : Disk) (v : IsSound sb ip d) (s b : ℕ)
    (le : s ≤ maxfile) (zero_slot : slot ip d s ≡ 0) (d1 : Disk) (t : Takes sb d b d1) (ip' : Inode)
    (d' : Disk) (a : Adds sb ip d s b ip' d') where
  -- A fresh block of zeros stands for the zeros that were not there.
  pub Mapped-Adds :
      record ip' { addrs = ip.addrs } ≡ ip
      → ((j : ℕ) → d' b j ≡ 0)
      → ((u : ℕ) → u < maxfile → slot ip d u ≢ 0 → d' (slot ip d u) ≡ d (slot ip d u))
      → Mapped sb ip d s b ip' d'
  Mapped-Adds e zeros keep = record {
    sound = IsSound-Adds sb ip d v s b d1 t ip' d' a;
    place = ground (arith, a.slots s le);
    exists = (fresh-IsData sb ip d v b d1 t).no_boot;
    fields = e;
    stay = λ u lu nz. ground (arith, a.slots u lu, zero_slot);
    content = λ i lt. at (i / bsize) (i % bsize) (omega arith);
    spent = λ c lc free. elim (Bool-cases (c == b)) [
      | inr other ↦ inl (ground (arith, a.same_use c lc))
      | inl e ↦ inr (s, le, inl (omega arith, omega arith), zero_slot, ground (arith, a.slots s le))
    ];
  }
    where
      at :
          (u o : ℕ)
          → u < maxfile
          → (if slot ip' d' u == 0 then 0 else d' (slot ip' d' u) o)
            ≡ (if slot ip d u == 0 then 0 else d (slot ip d u) o)
      at u o lt = elim (Bool-cases (u == s)) [
        | inl e ↦
            let same : u ≡ s = ground arith in
            ground (arith, a.slots u (omega arith), zeros o, zero_slot)
        | inr n ↦
            let is : slot ip' d' u ≡ slot ip d u = ground (arith, a.slots u (omega arith)) in
            rw is (elim (Bool-cases (slot ip d u == 0)) [
              | inl z ↦ rw z refl
              | inr z ↦ rw z (ap (λ (x : Block). x o) (keep u lt (ne_of_== (slot ip d u) 0 z)))
            ])
      ]
