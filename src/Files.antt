-- ===== src/Files.antt =====
-- file.c: the table of open files. Closing the last reference hands the file on, to the pipe or the
-- inode layer.
pub mod Refs
use os_lab.Prelude.{
  ℕ, Bool, List, Option, get_elem?, if◌then◌else◌, ◌==◌, some, find_index, not, ltb, set, ◌-◌, none,
  ◌+◌, suc, true, ◌%◌, false, ◌^◌, zero,
}
use os_lab.Prelude.Int.{ℤ, ltb_ℤ, pos, negsuc, pos_part, eqb_ℤ}

pub data FileType : Type 0 where
  fd_none fd_pipe fd_inode : FileType

-- struct file; pointers are numbers. `ref` is an `int` that the code keeps from going below zero.
pub record File : Type 0 where
  pub type : FileType
  pub ref : ℕ
  pub readable : Bool
  pub writable : Bool
  pub pipe : ℕ
  pub ip : ℕ
  pub off : ℕ

abbrev pub Table : Type 0
Table = List File

-- The panics, and a pointer to no entry.
pub data Failure : Type 0 where
  filedup_panic fileclose_panic fileread_panic filewrite_panic short_filewrite bad_file : Failure

pub data Result (A : Type 0) : Type 0 where
  ok : A → Result A
  panic : Failure → Result A

abbrev pub is_free : File → Bool
is_free f = f.ref == 0

unfoldable pub filealloc_at : Table → Option ℕ → Option ℕ × Table
filealloc_at t none = (none, t)
filealloc_at t (some i) = elim (get_elem? t i) [
  | none ↦ (none, t)
  | some f ↦ (some i, set t i (record f { ref = 1 }))
]

-- The index of the entry, or the null pointer.
unfoldable pub filealloc : Table → Option ℕ × Table
filealloc t = filealloc_at t (find_index is_free t)

unfoldable pub filedup_at : Table → ℕ → Option File → Result Table
filedup_at t i none = panic bad_file
filedup_at t i (some f) =
    if ltb f.ref 1 then panic filedup_panic else ok (set t i (record f { ref = f.ref + 1 }))

unfoldable pub filedup : Table → ℕ → Result Table
filedup t i = filedup_at t i (get_elem? t i)

-- What fileclose does after it has released the table: nothing, pipeclose, or iput in a transaction.
pub data Closing : Type 0 where
  nothing : Closing
  close_pipe : ℕ → Bool → Closing
  put_inode : ℕ → Closing

abbrev pub closing : File → Closing
closing f = elim (f.type) [
  | fd_none ↦ nothing
  | fd_pipe ↦ close_pipe f.pipe f.writable
  | fd_inode ↦ put_inode f.ip
]

unfoldable pub fileclose_at : Table → ℕ → Option File → Result (Closing × Table)
fileclose_at t i none = panic bad_file
fileclose_at t i (some f) =
    if ltb f.ref 1
    then panic fileclose_panic
    else if ltb 0 (f.ref - 1)
    then ok (nothing, set t i (record f { ref = f.ref - 1 }))
    else ok (closing f, set t i (record f { ref = 0; type = fd_none }))

unfoldable pub fileclose : Table → ℕ → Result (Closing × Table)
fileclose t i = fileclose_at t i (get_elem? t i)

-- filestat: whether there is an inode to ask.
unfoldable pub filestat : File → Option ℕ
filestat f = elim (f.type) [ fd_inode ↦ some f.ip | _ ↦ none ]

-- What the pipe and inode layers answer to a read or a write of `n` bytes.
pub record Layers : Type 0 where
  pub piperead : ℕ → ℕ → ℤ
  pub pipewrite : ℕ → ℕ → ℤ
  pub readi : ℕ → ℕ → ℕ → ℤ
  pub writei : ℕ → ℕ → ℕ → ℤ

-- `off += r` if r > 0, on `uint`.
abbrev move_on : File → ℤ → File
move_on f r = if ltb_ℤ (pos 0) r then record f { off = (f.off + pos_part r) % 2 ^ 32 } else f

unfoldable pub fileread : Layers → File → ℕ → Result (ℤ × File)
fileread l f n = if not f.readable then ok (negsuc 0, f) else (elim (f.type) [
  | fd_none ↦ panic fileread_panic
  | fd_pipe ↦ ok (l.piperead f.pipe n, f)
  | fd_inode ↦ ok (l.readi f.ip f.off n, move_on f (l.readi f.ip f.off n))
])

-- ((MAXOPBLOCKS-1-1-2) / 2) * 512
abbrev max_chunk : ℕ
max_chunk = 1536

abbrev chunk : ℕ → ℕ
chunk left = if ltb max_chunk left then max_chunk else left

-- while (i < n): `left` is n - i. By fuel, of which n is enough: a pass that goes on writes a byte.
unfoldable pub write_chunks : ℕ → Layers → File → ℕ → Result (Bool × File)
write_chunks zero l f left = ok (left == 0, f)
write_chunks (suc fuel) l f zero = ok (true, f)
write_chunks (suc fuel) l f (suc left) =
    let r = l.writei f.ip f.off (chunk (suc left)) in
    let f' = move_on f r in
    let rest = write_chunks fuel l f' (suc left - chunk (suc left)) in
    if ltb_ℤ r (pos 0)
    then ok (false, f')
    else if not (eqb_ℤ r (pos (chunk (suc left))))
    then panic short_filewrite
    else rest

unfoldable pub write_done : ℕ → Result (Bool × File) → Result (ℤ × File)
write_done n (ok (true, f)) = ok (pos n, f)
write_done n (ok (false, f)) = ok (negsuc 0, f)
write_done n (panic e) = panic e

unfoldable pub filewrite : Layers → File → ℕ → Result (ℤ × File)
filewrite l f n = if not f.writable then ok (negsuc 0, f) else (elim (f.type) [
  | fd_none ↦ panic filewrite_panic
  | fd_pipe ↦ ok (l.pipewrite f.pipe n, f)
  | fd_inode ↦ write_done n (write_chunks n l f n)
])
