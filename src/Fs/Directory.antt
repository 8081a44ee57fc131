-- ===== src/Fs/Directory.antt =====
-- Directories: namecmp, dirlookup and dirlink.
use os_lab.Prelude.{
  ℕ, ◌+◌, ◌-◌, ◌*◌, ◌/◌, ◌%◌, ◌==◌, if◌then◌else◌, not, Option, none, some, zero, suc, List, ◌∷◌,
  ◌++◌, take, drop, length, get_or, set, replicate, ◌&&◌, ltb,
}
use os_lab.Prelude.Int.{ℤ, pos, negsuc, eqb_ℤ}
use os_lab.Strings.{strncmp}
use os_lab.Fs.{
  Superblock, dirsiz, Disk, Result, ok, panic, ◌>>=◌, not_a_directory, directory_read,
  directory_write,
}
use os_lab.Fs.Inodes.{Inode, Fs, iget, deref}
use os_lab.Fs.Content.{Devsw, iput, readi, writei, t_dir}

-- sizeof(struct dirent)
abbrev pub dirent_size : ℕ
dirent_size = 16

-- Two strings in one memory, the first at 0 and the second at DIRSIZ, zeros behind each end.
abbrev side_by_side : List ℕ → List ℕ → ℕ → ℕ
side_by_side s t a = if ltb a dirsiz then get_or s a 0 else get_or t (a - dirsiz) 0

unfoldable pub namecmp : List ℕ → List ℕ → ℤ
namecmp s t = strncmp (side_by_side s t) 0 dirsiz dirsiz

-- de.inum and de.name, in the bytes of an entry.
abbrev pub inum_of : List ℕ → ℕ
inum_of de = get_or de 0 0 + 256 * get_or de 1 0

abbrev name_of : List ℕ → List ℕ
name_of de = drop 2 de

-- One entry: readi must give all its bytes.
unfoldable pub read_dirent : Devsw → Superblock → Inode → ℕ → Disk → Result (List ℕ × Inode × Disk)
read_dirent dw sb dp off d = do
  r ← readi dw sb dp off dirent_size d
  if eqb_ℤ r.0 (pos dirent_size) then ok (r.1, r.2, r.3) else panic directory_read

-- The loop of dirlookup: the number and the offset of the entry with the name. Each round goes on
-- by the size of an entry, so that `dp.size / 16 + 1` rounds are enough.
unfoldable pub lookup_loop :
    ℕ → Devsw → Superblock → List ℕ → ℕ → Inode → Disk → Result (Option (ℕ × ℕ) × Inode × Disk)
lookup_loop zero dw sb name off dp d = ok (none, dp, d)
lookup_loop (suc n) dw sb name off dp d =
    if ltb off dp.size
    then (do
      r ← read_dirent dw sb dp off d
      if not (inum_of r.0 == 0) && eqb_ℤ (namecmp name (name_of r.0)) (pos 0)
          then ok (some (inum_of r.0, off), r.1, r.2)
          else lookup_loop n dw sb name (off + dirent_size) r.1 r.2)
    else ok (none, dp, d)

-- iget of the inode that was found.
unfoldable pub found : ℕ → Option (ℕ × ℕ) → Fs → Result (Option (ℕ × ℕ) × Fs)
found dev none f = ok (none, f)
found dev (some (inum, off)) f =
    iget dev inum f.inodes >>= (λ r. ok (some (r.0, off), record f { inodes = r.1 }))

-- The inode and the offset of the entry, or the null pointer, for the directory at index `i`.
unfoldable pub dirlookup : Devsw → Superblock → ℕ → List ℕ → Fs → Result (Option (ℕ × ℕ) × Fs)
dirlookup dw sb i name f = do
  dp ← deref f.inodes i
  if not (dp.type == t_dir) then panic not_a_directory else (do
    r ← lookup_loop (dp.size / dirent_size + 1) dw sb name 0 dp f.disk
    found dp.dev r.0 (record { inodes = set f.inodes i r.1; disk = r.2 }))

-- The offset of the first empty entry, or that behind the last.
unfoldable pub empty_loop : ℕ → Devsw → Superblock → ℕ → Inode → Disk → Result (ℕ × Inode × Disk)
empty_loop zero dw sb off dp d = ok (off, dp, d)
empty_loop (suc n) dw sb off dp d =
    if ltb off dp.size
    then (do
      r ← read_dirent dw sb dp off d
      if inum_of r.0 == 0
          then ok (off, r.1, r.2)
          else empty_loop n dw sb (off + dirent_size) r.1 r.2)
    else ok (off, dp, d)

-- strncpy(de.name, name, DIRSIZ) and de.inum = inum, as bytes.
abbrev dirent : List ℕ → ℕ → List ℕ
dirent name inum =
    (inum % 256) ∷ (inum / 256 % 256) ∷ (take dirsiz name ++ replicate (dirsiz - length name) 0)

unfoldable pub add_entry : Devsw → Superblock → List ℕ → ℕ → Inode → Disk → Result (Inode × Disk)
add_entry dw sb name inum dp d = do
  r ← empty_loop (dp.size / dirent_size + 1) dw sb 0 dp d
  w ← writei dw sb r.1 (dirent name inum) r.0 r.2
  if eqb_ℤ w.0 (pos dirent_size) then ok (w.1, w.2) else panic directory_write

-- By process `me`: 0, or -1 if the name is there already.
unfoldable pub dirlink : Devsw → Superblock → ℤ → ℕ → List ℕ → ℕ → Fs → Result (ℤ × Fs)
dirlink dw sb me i name inum f = do
  l ← dirlookup dw sb i name f
  elim (l.0) [
    | some (j, off) ↦ iput sb me j l.1 >>= (λ f'. ok (negsuc 0, f'))
    | none ↦ do
      dp ← deref l.1.inodes i
      r ← add_entry dw sb name inum dp l.1.disk
      ok (pos 0, record { inodes = set l.1.inodes i r.0; disk = r.1 })
  ]
