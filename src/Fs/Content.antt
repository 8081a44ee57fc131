-- ===== src/Fs/Content.antt =====
-- The content of inodes: bmap, itrunc, stati, readi and writei, and iput, which discards it.
pub mod Slots
pub mod Short
pub mod Map
pub mod Bmap
pub mod Write
pub mod Read
pub mod Transfer
use os_lab.Prelude.{
  ℕ, ◌+◌, ◌*◌, ◌/◌, ◌%◌, ◌^◌, ◌-◌, ◌==◌, if◌then◌else◌, Bool, false, Option, none, some, zero, suc,
  ltb, leb, List, [], ◌++◌, set, get_or, length, take, drop, ◌&&◌, ◌||◌,
}
use os_lab.Prelude.Int.{ℤ, pos, negsuc}
use os_lab.Fs.{
  Superblock, Disk, put_block, bsize, ndirect, nindirect, Result, ok, panic, ◌>>=◌, uint_at,
  put_uint, bytes_at, put_bytes, bmap_range,
}
use os_lab.Fs.Blocks.{balloc, bfree}
use os_lab.Fs.Inodes.{Inode, Fs, iupdate, deref, take_lock, iunlock}

-- addrs[i], which balloc fills if it is empty.
unfoldable pub bmap_slot : Superblock → ℕ → Inode → Disk → Result (ℕ × Inode × Disk)
bmap_slot sb i ip d =
    if get_or ip.addrs i 0 == 0
    then balloc sb d >>= (λ r. ok (r.0, record ip { addrs = set ip.addrs i r.0 }, r.1))
    else ok (get_or ip.addrs i 0, ip, d)

-- a[bn] in the indirect block at `a`.
unfoldable pub bmap_entry : Superblock → ℕ → ℕ → Inode → Disk → Result (ℕ × Inode × Disk)
bmap_entry sb bn a ip d =
    if uint_at (d a) (bn * 4) == 0
    then balloc sb d >>= (λ r. ok (r.0, ip, put_block a (put_uint (bn * 4) r.0 (r.1 a)) r.1))
    else ok (uint_at (d a) (bn * 4), ip, d)

unfoldable pub bmap : Superblock → ℕ → Inode → Disk → Result (ℕ × Inode × Disk)
bmap sb bn ip d =
    if ltb bn ndirect
    then bmap_slot sb bn ip d
    else if ltb (bn - ndirect) nindirect
    then bmap_slot sb ndirect ip d >>= (λ r. bmap_entry sb (bn - ndirect) r.0 r.1 r.2)
    else panic bmap_range

-- The first loop of itrunc, over `n` entries from `i` on.
unfoldable pub free_direct : ℕ → ℕ → Superblock → Inode → Disk → Result (Inode × Disk)
free_direct zero i sb ip d = ok (ip, d)
free_direct (suc n) i sb ip d =
    if get_or ip.addrs i 0 == 0
    then free_direct n (i + 1) sb ip d
    else bfree sb (get_or ip.addrs i 0) d
      >>= (λ d'. free_direct n (i + 1) sb (record ip { addrs = set ip.addrs i 0 }) d')

-- The loop over the entries of the indirect block at `a`.
unfoldable pub free_entries : ℕ → ℕ → ℕ → Superblock → Disk → Result Disk
free_entries zero j a sb d = ok d
free_entries (suc n) j a sb d =
    if uint_at (d a) (j * 4) == 0
    then free_entries n (j + 1) a sb d
    else bfree sb (uint_at (d a) (j * 4)) d >>= (λ d'. free_entries n (j + 1) a sb d')

unfoldable pub free_indirect : Superblock → Inode → Disk → Result (Inode × Disk)
free_indirect sb ip d =
    let a = get_or ip.addrs ndirect 0 in
    if a == 0 then ok (ip, d) else (do
      freed ← free_entries nindirect 0 a sb d
      d' ← bfree sb a freed
      ok (record ip { addrs = set ip.addrs ndirect 0 }, d'))

unfoldable pub itrunc : Superblock → Inode → Disk → Result (Inode × Disk)
itrunc sb ip d = do
  direct ← free_direct ndirect 0 sb ip d
  all ← free_indirect sb direct.0 direct.1
  let empty = record (all.0) { size = 0 }
  ok (empty, iupdate sb empty all.1)

-- struct stat
pub record Stat : Type 0 where
  pub dev : ℕ
  pub ino : ℕ
  pub type : ℕ
  pub nlink : ℕ
  pub size : ℕ

unfoldable pub stati : Inode → Stat
stati ip = record { dev = ip.dev; ino = ip.inum; type = ip.type; nlink = ip.nlink; size = ip.size }

-- T_DIR, T_FILE, T_DEV, NDEV, MAXFILE
abbrev pub t_dir : ℕ
t_dir = 1

abbrev pub t_file : ℕ
t_file = 2

abbrev pub t_dev : ℕ
t_dev = 3

abbrev ndev : ℕ
ndev = 10

abbrev pub maxfile : ℕ
maxfile = 140

-- devsw: the functions of a device, by major number, if it has them.
pub record Devsw : Type 0 where
  pub read : ℕ → Option (Inode → ℕ → ℤ × List ℕ)
  pub write : ℕ → Option (Inode → List ℕ → ℤ)

-- ip->major < 0 || ip->major >= NDEV
abbrev is_bad_major : Inode → Bool
is_bad_major ip = leb 32768 ip.major || leb ndev ip.major

-- min(n - tot, BSIZE - off%BSIZE), for the bytes that are left.
abbrev pub chunk : ℕ → ℕ → ℕ
chunk left off = if ltb left (bsize - off % bsize) then left else bsize - off % bsize

-- The loop of readi; a round reads at least one byte, so that fuel for each byte is enough.
unfoldable pub read_blocks : ℕ → Superblock → ℕ → ℕ → Inode → Disk → Result (List ℕ × Inode × Disk)
read_blocks zero sb left off ip d = ok ([], ip, d)
read_blocks (suc n) sb left off ip d = if left == 0 then ok ([], ip, d) else (do
  b ← bmap sb (off / bsize) ip d
  let m = chunk left off
  r ← read_blocks n sb (left - m) (off + m) b.1 b.2
  ok (bytes_at (b.2 b.0) (off % bsize) m ++ r.0, r.1, r.2))

-- The result, the bytes at dst, and the inode and the disk, which bmap may change.
unfoldable pub readi :
    Devsw → Superblock → Inode → ℕ → ℕ → Disk → Result (ℤ × List ℕ × Inode × Disk)
readi dw sb ip off n d =
    if ip.type == t_dev
    then (if is_bad_major ip then ok (negsuc 0, [], ip, d) else elim (dw.read ip.major) [
      | none ↦ ok (negsuc 0, [], ip, d)
      | some f ↦ ok ((f ip n).0, (f ip n).1, ip, d)
    ])
    else if ltb ip.size off || ltb ((off + n) % 2 ^ 32) off
    then ok (negsuc 0, [], ip, d)
    else (let n' = if ltb ip.size ((off + n) % 2 ^ 32) then ip.size - off else n in
        read_blocks n' sb n' off ip d >>= (λ r. ok (pos n', r.0, r.1, r.2)))

-- The loop of writei over the bytes that are left.
unfoldable pub write_blocks : ℕ → Superblock → List ℕ → ℕ → Inode → Disk → Result (Inode × Disk)
write_blocks zero sb src off ip d = ok (ip, d)
write_blocks (suc n) sb src off ip d = if length src == 0 then ok (ip, d) else (do
  b ← bmap sb (off / bsize) ip d
  let m = chunk (length src) off
  write_blocks n sb (drop m src) (off + m) b.1
      (put_block b.0 (put_bytes (off % bsize) (take m src) (b.2 b.0)) b.2))

-- The end of writei: a longer file.
unfoldable pub grow_to : Superblock → ℕ → ℕ → Inode → Disk → Inode × Disk
grow_to sb n off ip d =
    if ltb 0 n && ltb ip.size off
    then (record ip { size = off }, iupdate sb (record ip { size = off }) d)
    else (ip, d)

unfoldable pub writei : Devsw → Superblock → Inode → List ℕ → ℕ → Disk → Result (ℤ × Inode × Disk)
writei dw sb ip src off d =
    if ip.type == t_dev
    then (if is_bad_major ip then ok (negsuc 0, ip, d) else elim (dw.write ip.major) [
      | none ↦ ok (negsuc 0, ip, d)
      | some f ↦ ok (f ip src, ip, d)
    ])
    else if ltb ip.size off || ltb ((off + length src) % 2 ^ 32) off
    then ok (negsuc 0, ip, d)
    else if ltb (maxfile * bsize) ((off + length src) % 2 ^ 32)
    then ok (negsuc 0, ip, d)
    else write_blocks (length src) sb src off ip d >>= (λ r.
      let g = grow_to sb (length src) (off + length src) r.0 r.1 in ok (pos (length src), g.0, g.1))

-- The part of iput under the sleep lock: an inode with no links and no other references is freed.
unfoldable pub discard : Superblock → Inode → Disk → Result (Inode × Disk)
discard sb ip d =
    if ip.valid && ip.nlink == 0 && ip.ref == 1
    then itrunc sb ip d >>= (λ r.
      let free = record (r.0) { type = 0 } in
      ok (record free { valid = false }, iupdate sb free r.1))
    else ok (ip, d)

unfoldable pub iput : Superblock → ℤ → ℕ → Fs → Result Fs
iput sb me i f = do
  ip ← deref f.inodes i
  locked ← take_lock me ip
  r ← discard sb locked f.disk
  ok (record {
    inodes = set f.inodes i (record (r.0) { lock = none; ref = r.0.ref - 1 });
    disk = r.1;
  })

unfoldable pub iunlockput : Superblock → ℤ → ℕ → Fs → Result Fs
iunlockput sb me i f = iunlock me i f >>= (λ f'. iput sb me i f')
