-- ===== src/Fs.antt =====
-- fs.c and fs.h: the file system on one disk. A disk is seen through the buffer cache, as the bytes
-- of each block: bread gives those of a block, a change that log_write records replaces them, and
-- brelse gives the buffer back (see Bcache and Log). Calls that follow a null pointer fail.
pub mod Blocks
pub mod Inodes
pub mod Content
pub mod Directory
pub mod Names
use os_lab.Prelude.{
  ◌≡◌, refl, ◌⊎◌, inl, inr, ℕ, List, ◌==◌, if◌then◌else◌, ◌+◌, ◌*◌, ◌/◌, ◌%◌, ◌^◌, ◌-◌, ◌&&◌, [],
  ◌∷◌, zero, suc, leb, ltb, length, get_or,
}

-- BSIZE, NDIRECT, NINDIRECT, IPB, BPB, DIRSIZ, ROOTINO
abbrev pub bsize : ℕ
bsize = 512

abbrev pub ndirect : ℕ
ndirect = 12

abbrev pub nindirect : ℕ
nindirect = 128

abbrev pub ipb : ℕ
ipb = 8

abbrev pub bpb : ℕ
bpb = 4096

abbrev pub dirsiz : ℕ
dirsiz = 14

abbrev pub rootino : ℕ
rootino = 1

-- struct superblock
pub record Superblock : Type 0 where
  pub size : ℕ
  pub nblocks : ℕ
  pub ninodes : ℕ
  pub nlog : ℕ
  pub logstart : ℕ
  pub inodestart : ℕ
  pub bmapstart : ℕ

-- IBLOCK
abbrev pub iblock : ℕ → Superblock → ℕ
iblock i sb = i / ipb + sb.inodestart

-- BBLOCK
abbrev pub bblock : ℕ → Superblock → ℕ
bblock b sb = b / bpb + sb.bmapstart

-- The bytes of a block, by offset.
abbrev pub Block : Type 0
Block = ℕ → ℕ

abbrev pub Disk : Type 0
Disk = ℕ → Block

abbrev pub put_block : ℕ → Block → Disk → Disk
put_block b bytes d c = if c == b then bytes else d c

-- The calls of panic, a null pointer, and a sleep lock for which the caller would wait.
pub data Failure : Type 0 where
  out_of_blocks freeing_free_block out_of_inodes no_cache_entry : Failure
  ilock_panic ilock_no_type iunlock_panic bmap_range : Failure
  not_a_directory directory_read directory_write null_inode would_sleep : Failure

pub data Result (A : Type 0) : Type 0 where
  ok : A → Result A
  panic : Failure → Result A

infixl 5 ◌>>=◌
abbrev pub ◌>>=◌ : {A B : Type 0} → Result A → (A → Result B) → Result B
ok a >>= f = f a
panic e >>= f = panic e

-- A `uint` in a block, at a byte offset, lowest byte first.
unfoldable pub uint_at : Block → ℕ → ℕ
uint_at b o = b o + 256 * b (o + 1) + 65536 * b (o + 2) + 16777216 * b (o + 3)

unfoldable pub put_uint : ℕ → ℕ → Block → Block
put_uint o v b j =
    if j == o
    then v % 256
    else if j == o + 1
    then v / 256 % 256
    else if j == o + 2
    then v / 65536 % 256
    else if j == o + 3
    then v / 16777216 % 256
    else b j

-- A `short` or `ushort`, as its 16 bits.
unfoldable pub short_at : Block → ℕ → ℕ
short_at b o = b o + 256 * b (o + 1)

unfoldable pub put_short : ℕ → ℕ → Block → Block
put_short o v b j = if j == o then v % 256 else if j == o + 1 then v / 256 % 256 else b j

-- The `n` bytes from an offset.
unfoldable pub bytes_at : Block → ℕ → ℕ → List ℕ
bytes_at b o zero = []
bytes_at b o (suc n) = b o ∷ bytes_at b (o + 1) n

-- memmove into a block.
unfoldable pub put_bytes : ℕ → List ℕ → Block → Block
put_bytes o bs b j = if leb o j && ltb j (o + length bs) then get_or bs (j - o) 0 else b j

-- To split on a computed result and keep the equation.
pub Result-cases :
    {A : Type 0} (r : Result A) → ((e : Failure) × (r ≡ panic e)) ⊎ ((a : A) × (r ≡ ok a))
Result-cases (ok a) = inr (a, refl)
Result-cases (panic e) = inl (e, refl)
