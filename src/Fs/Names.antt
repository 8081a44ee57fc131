-- ===== src/Fs/Names.antt =====
-- Paths: skipelem, and namex, which namei and nameiparent call.
pub mod Elements
pub mod Lookup
use os_lab.Prelude.{
  ℕ, ◌+◌, ◌-◌, ◌==◌, if◌then◌else◌, Bool, true, false, not, Option, none, some, zero, suc, List, [],
  ◌∷◌, take, length, ◌||◌, ◌&&◌,
}
use os_lab.Prelude.Int.{ℤ}
use os_lab.Fs.{Superblock, dirsiz, rootino, Result, ok, panic, ◌>>=◌}
use os_lab.Fs.Inodes.{Inode, Fs, iget, idup, ilock, iunlock, deref}
use os_lab.Fs.Content.{Devsw, iput, iunlockput, t_dir}
use os_lab.Fs.Directory.{dirlookup}

-- A path is its bytes without the final zero; a name the same, and of at most DIRSIZ bytes.
abbrev pub slash : ℕ
slash = b'/'

-- while(*path == '/') path++;
unfoldable pub skip_slashes : List ℕ → List ℕ
skip_slashes [] = []
skip_slashes (c ∷ cs) = if c == slash then skip_slashes cs else c ∷ cs

-- The bytes up to the next slash, and those from it on.
unfoldable pub element : List ℕ → List ℕ
element [] = []
element (c ∷ cs) = if c == slash then [] else c ∷ element cs

unfoldable pub after_element : List ℕ → List ℕ
after_element [] = []
after_element (c ∷ cs) = if c == slash then c ∷ cs else after_element cs

-- The name, and the path behind it; `none` is the null pointer.
unfoldable pub skipelem_at : List ℕ → Option (List ℕ × List ℕ)
skipelem_at [] = none
skipelem_at (c ∷ cs) = some (take dirsiz (element (c ∷ cs)), skip_slashes (after_element (c ∷ cs)))

unfoldable pub skipelem : List ℕ → Option (List ℕ × List ℕ)
skipelem path = skipelem_at (skip_slashes path)

-- What the lookups need of the calling process: its pid, and the inode of its directory.
pub record Caller : Type 0 where
  pub pid : ℤ
  pub cwd : ℕ

-- The loop of namex at the inode `i`. Each round takes at least one byte off the path, so that a
-- unit of fuel for each byte, and one to see the end, are enough: `none` means that it ran out. The
-- result is the inode, or the null pointer, and the name of the last element.
unfoldable pub namex_loop :
    ℕ
    → Devsw
    → Superblock
    → Caller
    → Bool
    → List ℕ
    → List ℕ
    → ℕ
    → Fs
    → Option (Result (Option ℕ × List ℕ × Fs))
namex_loop zero dw sb me parent path name i f = none
namex_loop (suc n) dw sb me parent path name i f = elim (skipelem path) [
  | none ↦
      if parent
      then some (iput sb me.pid i f >>= (λ f'. ok (none, name, f')))
      else some (ok (some i, name, f))
  | some (elem, rest) ↦ elim (ilock sb me.pid i f) [
    | panic e ↦ some (panic e)
    | ok g ↦ elim (deref g.inodes i) [
      | panic e ↦ some (panic e)
      | ok ip ↦
          if not (ip.type == t_dir)
          then some (iunlockput sb me.pid i g >>= (λ f'. ok (none, elem, f')))
          else if parent && length rest == 0
          then some (iunlock me.pid i g >>= (λ f'. ok (some i, elem, f')))
          else elim (dirlookup dw sb i elem g) [
            | panic e ↦ some (panic e)
            | ok (none, h) ↦ some (iunlockput sb me.pid i h >>= (λ f'. ok (none, elem, f')))
            | ok (some (next, off), h) ↦ elim (iunlockput sb me.pid i h) [
              | panic e ↦ some (panic e)
              | ok f' ↦ namex_loop n dw sb me parent rest elem next f'
            ]
          ]
    ]
  ]
]

-- Where a path starts: at the root, if it begins with a slash.
unfoldable pub namex_start : Caller → List ℕ → Fs → Result (ℕ × Fs)
namex_start me [] f = idup me.cwd f.inodes >>= (λ c. ok (me.cwd, record f { inodes = c }))
namex_start me (c ∷ cs) f =
    if c == slash
    then iget 1 rootino f.inodes >>= (λ r. ok (r.0, record f { inodes = r.1 }))
    else idup me.cwd f.inodes >>= (λ c'. ok (me.cwd, record f { inodes = c' }))

unfoldable pub namex :
    Devsw → Superblock → Caller → Bool → List ℕ → Fs → Option (Result (Option ℕ × List ℕ × Fs))
namex dw sb me parent path f = elim (namex_start me path f) [
  | panic e ↦ some (panic e)
  | ok (i, g) ↦ namex_loop (length path + 1) dw sb me parent path [] i g
]

unfoldable pub namei :
    Devsw → Superblock → Caller → List ℕ → Fs → Option (Result (Option ℕ × List ℕ × Fs))
namei dw sb me path f = namex dw sb me false path f

unfoldable pub nameiparent :
    Devsw → Superblock → Caller → List ℕ → Fs → Option (Result (Option ℕ × List ℕ × Fs))
nameiparent dw sb me path f = namex dw sb me true path f
