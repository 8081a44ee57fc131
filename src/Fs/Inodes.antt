-- ===== src/Fs/Inodes.antt =====
-- Inodes on disk and in the cache: ialloc, iupdate, iget, idup, ilock, iunlock, iput.
pub mod Cache
use os_lab.Prelude.{
  ℕ, ◌+◌, ◌*◌, ◌%◌, ◌-◌, ◌==◌, if◌then◌else◌, Bool, true, false, not, Option, none, some, zero, suc,
  ltb, List, [], ◌∷◌, get_elem?, set, find_index, ◌&&◌, ◌||◌,
}
use os_lab.Prelude.Int.{ℤ, eqb_ℤ}
use os_lab.Fs.{
  Superblock, Block, Disk, put_block, iblock, ipb, ndirect, Result, ok, panic, ◌>>=◌, uint_at,
  put_uint, short_at, put_short, out_of_inodes, no_cache_entry, ilock_panic, ilock_no_type,
  iunlock_panic, null_inode, would_sleep,
}

-- struct inode; `lock` is the pid that holds the sleep lock. A `short` is its 16 bits.
pub record Inode : Type 0 where
  pub dev : ℕ
  pub inum : ℕ
  pub ref : ℕ
  pub lock : Option ℤ
  pub valid : Bool
  pub type : ℕ
  pub major : ℕ
  pub minor : ℕ
  pub nlink : ℕ
  pub size : ℕ
  pub addrs : List ℕ

-- The cache of inodes, and the disk.
pub record Fs : Type 0 where
  pub inodes : List Inode
  pub disk : Disk

-- (struct dinode*)bp->data + inum%IPB, as a byte offset.
abbrev pub dinode_at : ℕ → ℕ
dinode_at inum = inum % ipb * 64

unfoldable pub addrs_at : Block → ℕ → ℕ → List ℕ
addrs_at b o zero = []
addrs_at b o (suc n) = uint_at b o ∷ addrs_at b (o + 4) n

unfoldable pub put_addrs : ℕ → List ℕ → Block → Block
put_addrs o [] b = b
put_addrs o (a ∷ rest) b = put_addrs (o + 4) rest (put_uint o a b)

-- The fields that ilock copies from the disk, and those that iupdate copies to it.
unfoldable pub load_inode : Block → ℕ → Inode → Inode
load_inode b o ip = record ip {
  type = short_at b o;
  major = short_at b (o + 2);
  minor = short_at b (o + 4);
  nlink = short_at b (o + 6);
  size = uint_at b (o + 8);
  addrs = addrs_at b (o + 12) (ndirect + 1);
}

unfoldable pub store_inode : ℕ → Inode → Block → Block
store_inode o ip b = put_addrs (o + 12) ip.addrs (
    put_uint (o + 8) ip.size (
      put_short (o + 6) ip.nlink
        (put_short (o + 4) ip.minor (put_short (o + 2) ip.major (put_short o ip.type b)))))

unfoldable pub iupdate : Superblock → Inode → Disk → Disk
iupdate sb ip d =
    let b = iblock ip.inum sb in put_block b (store_inode (dinode_at ip.inum) ip (d b)) d

abbrev pub holds : ℕ → ℕ → Inode → Bool
holds dev inum ip = ltb 0 ip.ref && ip.dev == dev && ip.inum == inum

abbrev pub is_empty : Inode → Bool
is_empty ip = ip.ref == 0

abbrev pub recycled : ℕ → ℕ → Inode → Inode
recycled dev inum ip = record ip { dev = dev; inum = inum; ref = 1; valid = false }

unfoldable pub recycle_at : ℕ → ℕ → List Inode → Option ℕ → Result (ℕ × List Inode)
recycle_at dev inum c none = panic no_cache_entry
recycle_at dev inum c (some i) = elim (get_elem? c i) [
  | none ↦ panic null_inode
  | some ip ↦ ok (i, set c i (recycled dev inum ip))
]

unfoldable pub iget_at : ℕ → ℕ → List Inode → Option ℕ → Result (ℕ × List Inode)
iget_at dev inum c none = recycle_at dev inum c (find_index is_empty c)
iget_at dev inum c (some i) = elim (get_elem? c i) [
  | none ↦ panic null_inode
  | some ip ↦ ok (i, set c i (record ip { ref = ip.ref + 1 }))
]

-- The loop of iget leaves at the entry that holds the inode, or remembers the first empty one.
unfoldable pub iget : ℕ → ℕ → List Inode → Result (ℕ × List Inode)
iget dev inum c = iget_at dev inum c (find_index (holds dev inum) c)

unfoldable pub deref : List Inode → ℕ → Result Inode
deref c i = elim (get_elem? c i) [ none ↦ panic null_inode | some ip ↦ ok ip ]

unfoldable pub idup : ℕ → List Inode → Result (List Inode)
idup i c = deref c i >>= (λ ip. ok (set c i (record ip { ref = ip.ref + 1 })))

-- for(inum = 1; inum < sb.ninodes; inum++), by the inodes that are left.
unfoldable pub ialloc_from : ℕ → Superblock → ℕ → ℕ → ℕ → Fs → Result (ℕ × Fs)
ialloc_from zero sb dev type inum f = panic out_of_inodes
ialloc_from (suc n) sb dev type inum f =
    let rest = ialloc_from n sb dev type (inum + 1) f in
    let b = iblock inum sb in
    let o = dinode_at inum in
    if short_at (f.disk b) o == 0
    then iget dev inum f.inodes >>= (λ r. ok (
      r.0,
      record {
        inodes = r.1;
        disk =
            put_block b
              (put_short o type (λ j. if ltb j o || not (ltb j (o + 64)) then f.disk b j else 0))
              f.disk;
      },
    ))
    else rest

unfoldable pub ialloc : Superblock → ℕ → ℕ → Fs → Result (ℕ × Fs)
ialloc sb dev type f = ialloc_from (sb.ninodes - 1) sb dev type 1 f

-- The second part of ilock.
unfoldable pub read_inode : Superblock → Disk → Inode → Result Inode
read_inode sb d ip =
    if ip.valid
    then ok ip
    else (let ip' = record (load_inode (d (iblock ip.inum sb)) (dinode_at ip.inum) ip) {
      valid = true;
    } in
        if ip'.type == 0 then panic ilock_no_type else ok ip')

-- acquiresleep by process `me`.
unfoldable pub take_lock : ℤ → Inode → Result Inode
take_lock me ip = elim (ip.lock) [
  | some other ↦ panic would_sleep
  | none ↦ ok (record ip { lock = some me })
]

unfoldable pub ilock : Superblock → ℤ → ℕ → Fs → Result Fs
ilock sb me i f = do
  ip ← deref f.inodes i
  if ip.ref == 0 then panic ilock_panic else (do
    locked ← take_lock me ip
    read ← read_inode sb f.disk locked
    ok (record f { inodes = set f.inodes i read }))

-- holdingsleep
abbrev is_holder : ℤ → Inode → Bool
is_holder me ip = elim (ip.lock) [ none ↦ false | some pid ↦ eqb_ℤ pid me ]

unfoldable pub iunlock : ℤ → ℕ → Fs → Result Fs
iunlock me i f = do
  ip ← deref f.inodes i
  if not (is_holder me ip) || ip.ref == 0
      then panic iunlock_panic
      else ok (record f { inodes = set f.inodes i (record ip { lock = none }) })
