-- ===== src/Paths/Unlink.antt =====
-- sys_unlink of sysfile.c.
use os_lab.Prelude.{ℕ, ◌==◌, ◌||◌, not, Option, none, some, List, true, false, Bool}
use os_lab.Prelude.Int.{ℤ, pos, negsuc, eqb_ℤ}
use os_lab.Fs.Content.{t_dir}
use os_lab.Fs.Directory.{namecmp, dirent_size}
use os_lab.Paths.State.{
  S, ◌>>=◌, ◌>>◌, pure, fail, lift, inode, begin_op, unlink_nlink, unlink_writei, branch,
  on_pointer,
}
use os_lab.Paths.{
  Site, lookup, lock, unlock_put, find_entry, change_inode, leave, nlink_down, has_no_link,
  name_dot, name_dot_dot, isdirempty, clear_entry, Bool,
}

module _ (w : Site) where
  -- The end of sys_unlink behind `bad`.
  abbrev not_unlinked : ℕ → S ℤ
  not_unlinked dp = do unlock_put w dp; leave (negsuc 0)

  unfoldable pub unlink_entry : ℕ → ℕ → ℕ → Bool → S ℤ
  unlink_entry dp i off is_dir = do
    n ← lift (clear_entry w.devices w.superblock dp off)
    branch (eqb_ℤ n (pos dirent_size))
        (do
          branch is_dir (change_inode w dp nlink_down) (pure tt)
          unlock_put w dp
          change_inode w i nlink_down
          unlock_put w i
          leave (pos 0))
        (fail unlink_writei)

  -- Whether an inode is a directory that is not empty.
  abbrev has_entries : ℕ → Bool → S Bool
  has_entries i is_dir =
      branch is_dir (do empty ← lift (isdirempty w.devices w.superblock i); pure (not empty))
        (pure false)

  unfoldable pub unlink_found : ℕ → ℕ → ℕ → S ℤ
  unlink_found dp i off = do
    lock w i
    ip ← inode i
    branch (has_no_link ip) (fail unlink_nlink) (do
      full ← has_entries i (ip.type == t_dir)
      branch full (do unlock_put w i; not_unlinked dp) (unlink_entry dp i off (ip.type == t_dir)))

  unfoldable pub unlink_in : ℕ → List ℕ → S ℤ
  unlink_in dp name = do
    lock w dp
    branch (eqb_ℤ (namecmp name name_dot) (pos 0) || eqb_ℤ (namecmp name name_dot_dot) (pos 0))
        (not_unlinked dp)
        (do
          e ← find_entry w dp name
          on_pointer e (not_unlinked dp) (λ r. let (i, off) = r in unlink_found dp i off))

  unfoldable pub sys_unlink : Option (List ℕ) → S ℤ
  sys_unlink none = pure (negsuc 0)
  sys_unlink (some path) = do
    begin_op
    (dp, name) ← lookup w true path
    on_pointer dp (leave (negsuc 0)) (λ dp. unlink_in dp name)
