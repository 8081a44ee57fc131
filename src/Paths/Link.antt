-- ===== src/Paths/Link.antt =====
-- sys_link of sysfile.c.
use os_lab.Prelude.{ℕ, ◌==◌, Option, none, some, List, true, false}
use os_lab.Prelude.Int.{ℤ, pos, negsuc, ltb_ℤ}
use os_lab.Fs.Content.{t_dir}
use os_lab.Paths.State.{S, ◌>>=◌, ◌>>◌, pure, inode, begin_op, branch, on_pointer}
use os_lab.Paths.{
  Site, lookup, lock, unlock, release_inode, unlock_put, link, change_inode, leave, nlink_up,
  nlink_down,
}

module _ (w : Site) where
  -- The end of sys_link behind `bad`.
  unfoldable pub unlink_again : ℕ → S ℤ
  unlink_again i = do lock w i; change_inode w i nlink_down; unlock_put w i; leave (negsuc 0)

  unfoldable pub link_into : ℕ → ℕ → List ℕ → S ℤ
  link_into i dp name = do
    lock w dp
    d ← inode dp
    ip ← inode i
    r ← branch (d.dev == ip.dev) (link w dp name ip.inum) (pure (negsuc 0))
    unlock_put w dp
    branch (ltb_ℤ r (pos 0)) (unlink_again i) (do release_inode w i; leave (pos 0))

  unfoldable pub link_inode : ℕ → List ℕ → S ℤ
  link_inode i new = do
    change_inode w i nlink_up
    unlock w i
    (dp, name) ← lookup w true new
    on_pointer dp (unlink_again i) (λ dp. link_into i dp name)

  unfoldable pub link_at : ℕ → List ℕ → S ℤ
  link_at i new = do
    lock w i
    ip ← inode i
    branch (ip.type == t_dir) (do unlock_put w i; leave (negsuc 0)) (link_inode i new)

  -- The paths are those of argstr, if it can read them.
  unfoldable pub sys_link : Option (List ℕ) → Option (List ℕ) → S ℤ
  sys_link none new = pure (negsuc 0)
  sys_link (some old) none = pure (negsuc 0)
  sys_link (some old) (some new) = do
    begin_op
    (i, name) ← lookup w false old
    on_pointer i (leave (negsuc 0)) (λ i. link_at i new)
