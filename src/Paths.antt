-- ===== src/Paths.antt =====
-- sysfile.c: the calls on paths. A path is its bytes; the strings come from argstr, the modes and the
-- numbers of devices from argint, none of which changes the state.
pub mod State
pub mod Link
pub mod Unlink
pub mod Create
pub mod Balance
pub mod Calls
use os_lab.Prelude.{
  ℕ, ◌+◌, ◌-◌, ◌*◌, ◌/◌, ◌%◌, ◌^◌, ◌==◌, ◌&&◌, ◌||◌, if◌then◌else◌, not, leb, ltb, Option, none,
  some, zero, suc, List, [], ◌∷◌, set, replicate, Bool, true, false,
}
use os_lab.Prelude.Int.{ℤ, pos, negsuc, eqb_ℤ, ltb_ℤ}
use os_lab.Fs.{Superblock, Disk, Result}
use os_lab.Fs.Inodes.{Inode, Fs, ilock, iunlock, ialloc, iupdate, deref}
use os_lab.Fs.Content.{Devsw, iput, iunlockput, writei, t_dir, t_file, t_dev}
use os_lab.Fs.Directory.{dirlookup, dirlink, namecmp, read_dirent, inum_of, dirent_size}
use os_lab.Fs.Names.{Caller, namex}
use os_lab.Paths.State.{
  Store, S, ◌>>=◌, ◌>>◌, pure, fail, lift, lift_unit, inode, begin_op, end_op, stored, ok, panic,
  of_fs, Panic, Outcome, unlink_nlink, unlink_writei, create_dots, create_dirlink, of_files,
  continue,
}

-- ip->nlink++ and ip->nlink--, on a short.
abbrev nlink_up : Inode → Inode
nlink_up ip = record ip { nlink = (ip.nlink + 1) % 2 ^ 16 }

abbrev nlink_down : Inode → Inode
nlink_down ip = record ip { nlink = (ip.nlink + (2 ^ 16 - 1)) % 2 ^ 16 }

-- ip->nlink < 1, on a short.
abbrev has_no_link : Inode → Bool
has_no_link ip = ip.nlink == 0 || leb (2 ^ 15) ip.nlink

abbrev name_dot : List ℕ
name_dot = b'.' ∷ []

abbrev name_dot_dot : List ℕ
name_dot_dot = b'.' ∷ b'.' ∷ []

-- What namei and nameiparent give: the inode or the null pointer, and the last element.
abbrev pub found_path :
    Store → Option (Result (Option ℕ × List ℕ × Fs)) → Option (Outcome (Option ℕ × List ℕ))
found_path s none = none
found_path s (some (Result.ok (i, name, f))) = some (ok (i, name) (record s { fs = f }))
found_path s (some (Result.panic e)) = some (panic (of_fs e))

-- A change of the inode at index `i` in the cache, and iupdate.
unfoldable pub change : Superblock → ℕ → (Inode → Inode) → Fs → Result Fs
change sb i g f = elim (deref f.inodes i) [
  | Result.panic e ↦ Result.panic e
  | Result.ok ip ↦
      Result.ok (record { inodes = set f.inodes i (g ip); disk = iupdate sb (g ip) f.disk })
]

module _ (dw : Devsw) (sb : Superblock) where
  -- The loop of isdirempty from `off` on. Each round goes on by the size of an entry, so that
  -- `size / 16 + 1` rounds are enough.
  unfoldable pub empty_from : ℕ → ℕ → Inode → Disk → Result (Bool × Inode × Disk)
  empty_from zero off dp d = Result.ok (true, dp, d)
  empty_from (suc n) off dp d =
      if ltb off dp.size
      then (elim (read_dirent dw sb dp off d) [
        | Result.panic e ↦ Result.panic e
        | Result.ok (de, dp', d') ↦
            if inum_of de == 0
            then empty_from n (off + dirent_size) dp' d'
            else Result.ok (false, dp', d')
      ])
      else Result.ok (true, dp, d)

  abbrev with_inode : {A : Type 0} → ℕ → Fs → Result (A × Inode × Disk) → Result (A × Fs)
  with_inode i f (Result.ok (a, ip, d)) =
      Result.ok (a, record { inodes = set f.inodes i ip; disk = d })
  with_inode i f (Result.panic e) = Result.panic e

  unfoldable pub isdirempty : ℕ → Fs → Result (Bool × Fs)
  isdirempty i f = elim (deref f.inodes i) [
    | Result.panic e ↦ Result.panic e
    | Result.ok dp ↦
        with_inode i f (empty_from (dp.size / dirent_size + 1) (2 * dirent_size) dp f.disk)
  ]

  -- writei of an entry of zeros.
  unfoldable pub clear_entry : ℕ → ℕ → Fs → Result (ℤ × Fs)
  clear_entry i off f = elim (deref f.inodes i) [
    | Result.panic e ↦ Result.panic e
    | Result.ok dp ↦ with_inode i f (writei dw sb dp (replicate dirent_size 0) off f.disk)
  ]

-- The devices, the super block and the process of a call.
pub record Site : Type 0 where
  pub devices : Devsw
  pub superblock : Superblock
  pub caller : Caller

module _ (w : Site) where
  unfoldable pub lookup : Bool → List ℕ → S (Option ℕ × List ℕ)
  lookup parent path s = found_path s (namex w.devices w.superblock w.caller parent path s.fs)

  abbrev pub lock : ℕ → S (Unit {0})
  lock i = lift_unit (ilock w.superblock w.caller.pid i)

  abbrev pub unlock : ℕ → S (Unit {0})
  unlock i = lift_unit (iunlock w.caller.pid i)

  abbrev pub release_inode : ℕ → S (Unit {0})
  release_inode i = lift_unit (iput w.superblock w.caller.pid i)

  abbrev pub unlock_put : ℕ → S (Unit {0})
  unlock_put i = lift_unit (iunlockput w.superblock w.caller.pid i)

  abbrev pub link : ℕ → List ℕ → ℕ → S ℤ
  link i name inum = lift (dirlink w.devices w.superblock w.caller.pid i name inum)

  abbrev pub find_entry : ℕ → List ℕ → S (Option (ℕ × ℕ))
  find_entry i name = lift (dirlookup w.devices w.superblock i name)

  abbrev pub change_inode : ℕ → (Inode → Inode) → S (Unit {0})
  change_inode i g = lift_unit (change w.superblock i g)

-- end_op and a result.
abbrev pub leave : {A : Type 0} → A → S A
leave a = do end_op; pure a
