-- ===== src/Paths/Create.antt =====
-- create, sys_mkdir, sys_mknod, sys_chdir and sys_open of sysfile.c.
use os_lab.Prelude.{ℕ, ◌==◌, ◌&&◌, ◌%◌, ◌/◌, ◌^◌, not, Option, none, some, List, true, false, Bool}
use os_lab.Prelude.Int.{ℤ, pos, negsuc, ltb_ℤ}
use os_lab.Files.{Result}
use os_lab.Fs.Inodes.{Inode, ialloc}
use os_lab.Fs.Content.{t_dir, t_file, t_dev}
use os_lab.Sysfile.{Sys, open_file}
use os_lab.Paths.State.{
  S, ◌>>=◌, ◌>>◌, pure, fail, lift, inode, begin_op, create_dots, create_dirlink, of_files, branch,
  on_pointer,
}
use os_lab.Paths.{
  Site, lookup, lock, unlock, release_inode, unlock_put, link, find_entry, change_inode, leave,
  nlink_up, name_dot, name_dot_dot,
}

abbrev numbered : ℕ → ℕ → Inode → Inode
numbered major minor ip = record ip { major = major % 2 ^ 16; minor = minor % 2 ^ 16; nlink = 1 }

module _ (w : Site) where
  -- The entries . and .. of a new directory.
  unfoldable pub create_dots_in : ℕ → ℕ → S (Unit {0})
  create_dots_in dp i = do
    change_inode w dp nlink_up
    d ← inode dp
    ip ← inode i
    r ← link w i name_dot ip.inum
    branch (ltb_ℤ r (pos 0)) (fail create_dots) (do
      r' ← link w i name_dot_dot d.inum
      branch (ltb_ℤ r' (pos 0)) (fail create_dots) (pure tt))

  unfoldable pub create_new : ℕ → List ℕ → ℕ → ℕ → ℕ → S (Option ℕ)
  create_new dp name type major minor = do
    d ← inode dp
    i ← lift (ialloc w.superblock d.dev type)
    lock w i
    change_inode w i (numbered major minor)
    branch (type == t_dir) (create_dots_in dp i) (pure tt)
    ip ← inode i
    r ← link w dp name ip.inum
    branch (ltb_ℤ r (pos 0)) (fail create_dirlink) (do unlock_put w dp; pure (some i))

  -- The name is there already.
  unfoldable pub create_old : ℕ → ℕ → ℕ → S (Option ℕ)
  create_old dp i type = do
    unlock_put w dp
    lock w i
    ip ← inode i
    branch (type == t_file && ip.type == t_file) (pure (some i)) (do unlock_put w i; pure none)

  unfoldable pub create_in : ℕ → List ℕ → ℕ → ℕ → ℕ → S (Option ℕ)
  create_in dp name type major minor = do
    lock w dp
    e ← find_entry w dp name
    on_pointer e (create_new dp name type major minor)
        (λ r. let (i, off) = r in create_old dp i type)

  -- The inode, locked, or the null pointer.
  unfoldable pub create : List ℕ → ℕ → ℕ → ℕ → S (Option ℕ)
  create path type major minor = do
    (dp, name) ← lookup w true path
    on_pointer dp (pure none) (λ dp. create_in dp name type major minor)

  -- `iunlockput(ip); end_op(); return 0;`, or -1 for the null pointer.
  unfoldable pub drop_created : Option ℕ → S ℤ
  drop_created none = leave (negsuc 0)
  drop_created (some i) = do unlock_put w i; leave (pos 0)

  unfoldable pub sys_mkdir : Option (List ℕ) → S ℤ
  sys_mkdir none = do begin_op; leave (negsuc 0)
  sys_mkdir (some path) = do begin_op; i ← create path t_dir 0 0; drop_created i

  unfoldable pub sys_mknod : Option (List ℕ) → Option ℕ → Option ℕ → S ℤ
  sys_mknod (some path) (some major) (some minor) = do
    begin_op
    i ← create path t_dev major minor
    drop_created i
  sys_mknod _ _ _ = do begin_op; leave (negsuc 0)

  unfoldable pub chdir_to : ℕ → S (ℤ × ℕ)
  chdir_to i = do
    lock w i
    ip ← inode i
    branch (ip.type == t_dir) (do unlock w i; release_inode w w.caller.cwd; leave (pos 0, i))
        (do unlock_put w i; leave (negsuc 0, w.caller.cwd))

  -- The result, and the new current directory.
  unfoldable pub sys_chdir : Option (List ℕ) → S (ℤ × ℕ)
  sys_chdir none = do begin_op; leave (negsuc 0, w.caller.cwd)
  sys_chdir (some path) = do
    begin_op
    (i, name) ← lookup w false path
    on_pointer i (leave (negsuc 0, w.caller.cwd)) (λ i. chdir_to i)

  -- O_CREATE is 0x200.
  abbrev creates : ℕ → Bool
  creates omode = (omode / 0x200) % 2 == 1

  unfoldable pub open_old : ℕ → ℕ → S (Option ℕ)
  open_old i omode = do
    lock w i
    ip ← inode i
    branch (ip.type == t_dir && not (omode == 0)) (do unlock_put w i; pure none) (pure (some i))

  -- The inode that sys_open finds or creates, locked.
  unfoldable pub open_inode : List ℕ → ℕ → S (Option ℕ)
  open_inode path omode =
      branch (creates omode) (create path t_file 0 0)
        (do (i, name) ← lookup w false path; on_pointer i (pure none) (λ i. open_old i omode))

  -- The file and the descriptor; open_file gives -1 if there is none.
  unfoldable pub open_done : ℕ → Result (ℤ × Sys) → S (ℤ × Sys)
  open_done i (Result.panic e) = fail of_files
  open_done i (Result.ok (fd, d)) =
      branch (ltb_ℤ fd (pos 0)) (do unlock_put w i; leave (fd, d)) (do unlock w i; leave (fd, d))

  unfoldable pub sys_open : Option (List ℕ) → Option ℕ → Sys → S (ℤ × Sys)
  sys_open (some path) (some omode) d = do
    begin_op
    i ← open_inode path omode
    on_pointer i (leave (negsuc 0, d)) (λ i. open_done i (open_file i omode d))
  sys_open _ _ d = pure (negsuc 0, d)
