-- ===== src/Paths/Calls.antt =====
-- The calls on paths: each begins and ends one operation of the log.
use os_lab.Prelude.{ℕ, List, Bool, Option, some, none}
use os_lab.Paths.{Site}
use os_lab.Files.{Result}
use os_lab.Paths.Link.{unlink_again, link_into, link_inode, link_at, sys_link}
use os_lab.Paths.Unlink.{unlink_entry, unlink_found, unlink_in, sys_unlink}
use os_lab.Paths.Create.{
  create_dots_in, create_new, create_old, create_in, create, chdir_to, open_old, open_inode,
  open_done, drop_created, sys_mkdir, sys_mknod, sys_chdir, sys_open,
}
use os_lab.Paths.Balance.{
  Moves, Moves-pure, Moves-fail, Moves-lift, Moves-leave, Moves-then, Moves-branch,
  Moves-on_pointer, Moves-lookup, Moves-begin,
}
use os_lab.Sysfile.{Sys}
use os_lab.Prelude.Int.{ℤ}

ruleset steps = (
  Moves-lift, Moves-leave, Moves-lookup, Moves-pure, Moves-fail, Moves-then, Moves-branch,
  Moves-on_pointer,
)

module _ (w : Site) where
  unlink_again-Moves : (i : ℕ) → Moves 0 1 (unlink_again w i)
  unfolding unlink_again
  unlink_again-Moves i = search (steps) depth 20

  link_into-Moves : (i : ℕ) (dp : ℕ) (name : List ℕ) → Moves 0 1 (link_into w i dp name)
  unfolding link_into
  link_into-Moves i dp name = search (steps, unlink_again-Moves) depth 20

  link_inode-Moves : (i : ℕ) (new : List ℕ) → Moves 0 1 (link_inode w i new)
  unfolding link_inode
  link_inode-Moves i new = search (steps, unlink_again-Moves, link_into-Moves) depth 20

  link_at-Moves : (i : ℕ) (new : List ℕ) → Moves 0 1 (link_at w i new)
  unfolding link_at
  link_at-Moves i new = search (steps, link_inode-Moves) depth 20

  unlink_entry-Moves :
      (dp : ℕ) (i : ℕ) (off : ℕ) (is_dir : Bool) → Moves 0 1 (unlink_entry w dp i off is_dir)
  unfolding unlink_entry
  unlink_entry-Moves dp i off is_dir = search (steps) depth 20

  unlink_found-Moves : (dp : ℕ) (i : ℕ) (off : ℕ) → Moves 0 1 (unlink_found w dp i off)
  unfolding unlink_found
  unlink_found-Moves dp i off = search (steps, unlink_entry-Moves) depth 20

  unlink_in-Moves : (dp : ℕ) (name : List ℕ) → Moves 0 1 (unlink_in w dp name)
  unfolding unlink_in
  unlink_in-Moves dp name = search (steps, unlink_found-Moves) depth 20

  create_dots_in-Moves : (dp : ℕ) (i : ℕ) → Moves 0 0 (create_dots_in w dp i)
  unfolding create_dots_in
  create_dots_in-Moves dp i = search (steps) depth 20

  create_new-Moves :
      (dp : ℕ) (name : List ℕ) (type : ℕ) (major : ℕ) (minor : ℕ)
      → Moves 0 0 (create_new w dp name type major minor)
  unfolding create_new
  create_new-Moves dp name type major minor = search (steps, create_dots_in-Moves) depth 20

  create_old-Moves : (dp : ℕ) (i : ℕ) (type : ℕ) → Moves 0 0 (create_old w dp i type)
  unfolding create_old
  create_old-Moves dp i type = search (steps) depth 20

  create_in-Moves :
      (dp : ℕ) (name : List ℕ) (type : ℕ) (major : ℕ) (minor : ℕ)
      → Moves 0 0 (create_in w dp name type major minor)
  unfolding create_in
  create_in-Moves dp name type major minor =
      search (steps, create_new-Moves, create_old-Moves) depth 20

  create-Moves :
      (path : List ℕ) (type : ℕ) (major : ℕ) (minor : ℕ)
      → Moves 0 0 (create w path type major minor)
  unfolding create
  create-Moves path type major minor = search (steps, create_in-Moves) depth 20

  chdir_to-Moves : (i : ℕ) → Moves 0 1 (chdir_to w i)
  unfolding chdir_to
  chdir_to-Moves i = search (steps) depth 20

  open_old-Moves : (i : ℕ) (omode : ℕ) → Moves 0 0 (open_old w i omode)
  unfolding open_old
  open_old-Moves i omode = search (steps) depth 20

  open_inode-Moves : (path : List ℕ) (omode : ℕ) → Moves 0 0 (open_inode w path omode)
  unfolding open_inode
  open_inode-Moves path omode = search (steps, create-Moves, open_old-Moves) depth 20

  open_done-Moves : (i : ℕ) (r : Result (ℤ × Sys)) → Moves 0 1 (open_done w i r)
  unfolding open_done
  open_done-Moves i (Result.ok (fd, d)) = search (steps) depth 20
  open_done-Moves i (Result.panic e) = search (steps)

  drop_created-Moves : (i : Option ℕ) → Moves 0 1 (drop_created w i)
  unfolding drop_created
  drop_created-Moves none = search (steps)
  drop_created-Moves (some i) = search (steps) depth 20

  sys_link-Moves : (old new : List ℕ) → Moves 1 1 (sys_link w (some old) (some new))
  unfolding sys_link
  sys_link-Moves old new = Moves-begin 1 _ (search (steps, link_at-Moves) depth 20)

  sys_unlink-Moves : (path : List ℕ) → Moves 1 1 (sys_unlink w (some path))
  unfolding sys_unlink
  sys_unlink-Moves path = Moves-begin 1 _ (search (steps, unlink_in-Moves) depth 20)

  sys_mkdir-Moves : (path : Option (List ℕ)) → Moves 1 1 (sys_mkdir w path)
  unfolding sys_mkdir
  sys_mkdir-Moves none = Moves-begin 1 _ (search (steps) depth 20)
  sys_mkdir-Moves (some path) =
      Moves-begin 1 _ (search (steps, create-Moves, drop_created-Moves) depth 20)

  sys_mknod-Moves :
      (path : Option (List ℕ)) (major minor : Option ℕ) → Moves 1 1 (sys_mknod w path major minor)
  unfolding sys_mknod
  sys_mknod-Moves none major minor = Moves-begin 1 _ (search (steps) depth 20)
  sys_mknod-Moves (some path) none minor = Moves-begin 1 _ (search (steps) depth 20)
  sys_mknod-Moves (some path) (some major) none = Moves-begin 1 _ (search (steps) depth 20)
  sys_mknod-Moves (some path) (some major) (some minor) =
      Moves-begin 1 _ (search (steps, create-Moves, drop_created-Moves) depth 20)

  sys_chdir-Moves : (path : Option (List ℕ)) → Moves 1 1 (sys_chdir w path)
  unfolding sys_chdir
  sys_chdir-Moves none = Moves-begin 1 _ (search (steps) depth 20)
  sys_chdir-Moves (some path) = Moves-begin 1 _ (search (steps, chdir_to-Moves) depth 20)

  sys_open-Moves :
      (path : List ℕ) (omode : ℕ) (d : Sys) → Moves 1 1 (sys_open w (some path) (some omode) d)
  unfolding sys_open
  sys_open-Moves path omode d =
      Moves-begin 1 _ (search (steps, open_inode-Moves, open_done-Moves) depth 20)

-- For every disk, every cache of inodes and every path: link, unlink, mkdir, mknod, chdir and open end,
-- and unless they panic they have begun one operation of the log and ended one, on success and on every
-- way back. For link, unlink and open this takes arguments that can be read; the others begin their
-- operation first.
pub path_calls-Moves :
    (w : Site) (path new : List ℕ) (given : Option (List ℕ)) (major minor : Option ℕ) (omode : ℕ)
    (d : Sys)
    → Moves 1 1 (sys_link w (some path) (some new))
      × Moves 1 1 (sys_unlink w (some path))
      × Moves 1 1 (sys_open w (some path) (some omode) d)
      × Moves 1 1 (sys_mkdir w given)
      × Moves 1 1 (sys_mknod w given major minor)
      × Moves 1 1 (sys_chdir w given)
path_calls-Moves w path new given major minor omode d = (
  sys_link-Moves w path new,
  sys_unlink-Moves w path,
  sys_open-Moves w path omode d,
  sys_mkdir-Moves w given,
  sys_mknod-Moves w given major minor,
  sys_chdir-Moves w given,
)
