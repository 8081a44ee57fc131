-- ===== src/Bcache.antt =====
-- bio.c: the cache of disk blocks. The linked list is a list, most recently used first; iderw and
-- the disk are parameters. A buffer's sleep lock is the pid of its holder; waiting for it is not
-- modelled, so a lock that another process holds is an outcome of its own.
pub mod Get
use os_lab.Prelude.{
  ℕ, Bool, List, false, Option, find_index, if◌then◌else◌, ◌∷◌, ◌-◌, ◌==◌, none, some, not, suc,
  get_elem?, ◌&&◌, set, [], ◌+◌, true, zero,
}
use os_lab.Prelude.Int.{ℤ, eqb_ℤ}

-- struct buf
pub record Buf : Type 0 where
  pub id : ℕ
  pub dev : ℕ
  pub blockno : ℕ
  pub refcnt : ℕ
  pub is_valid : Bool
  pub is_dirty : Bool
  pub bytes : List ℕ
  pub holder : Option ℤ

abbrev pub Cache : Type 0
Cache = List Buf

pub data Failure : Type 0 where
  no_buffers bwrite_panic brelse_panic : Failure

pub data Result (A : Type 0) : Type 0 where
  ok : A → Result A
  panic : Failure → Result A

abbrev pub caches : ℕ → ℕ → Buf → Bool
caches dev blockno b = b.dev == dev && b.blockno == blockno

abbrev pub is_idle : Buf → Bool
is_idle b = b.refcnt == 0 && not b.is_dirty

abbrev pub recycled : ℕ → ℕ → Buf → Buf
recycled dev blockno b = record b {
  dev = dev;
  blockno = blockno;
  is_valid = false;
  is_dirty = false;
  refcnt = 1;
}

-- The last index that passes a test: the scan from head.prev.
unfoldable pub find_last_index : (Buf → Bool) → Cache → Option ℕ
find_last_index f [] = none
find_last_index f (b ∷ bs) = elim (find_last_index f bs) [
  | some i ↦ some (suc i)
  | none ↦ if f b then some 0 else none
]

unfoldable pub recycle_at : ℕ → ℕ → Cache → Option ℕ → Result (ℕ × Cache)
recycle_at dev blockno c none = panic no_buffers
recycle_at dev blockno c (some i) = elim (get_elem? c i) [
  | none ↦ panic no_buffers
  | some b ↦ ok (i, set c i (recycled dev blockno b))
]

-- bget up to the release of the cache's lock: the place of the buffer and the cache.
unfoldable pub bget_at : ℕ → ℕ → Cache → Option ℕ → Result (ℕ × Cache)
bget_at dev blockno c none = recycle_at dev blockno c (find_last_index is_idle c)
bget_at dev blockno c (some i) = elim (get_elem? c i) [
  | none ↦ panic no_buffers
  | some b ↦ ok (i, set c i (record b { refcnt = b.refcnt + 1 }))
]

unfoldable pub bget : ℕ → ℕ → Cache → Result (ℕ × Cache)
bget dev blockno c = bget_at dev blockno c (find_index (caches dev blockno) c)

-- iderw, on a buffer that is locked: write it if it is dirty, read it otherwise.
pub record Ide : Type 0 where
  pub iderw : Buf → Buf

unfoldable pub read_in : Ide → Buf → Buf
read_in ide b = if not b.is_valid then ide.iderw b else b

-- bwrite by process `pid`.
unfoldable pub bwrite : Ide → ℤ → Buf → Result Buf
bwrite ide pid b = elim (b.holder) [
  | none ↦ panic bwrite_panic
  | some h ↦
      if eqb_ℤ h pid then ok (ide.iderw (record b { is_dirty = true })) else panic bwrite_panic
]

-- The list without the entry at an index.
unfoldable pub remove_at : ℕ → Cache → Cache
remove_at i [] = []
remove_at zero (b ∷ bs) = bs
remove_at (suc i) (b ∷ bs) = b ∷ remove_at i bs

-- The buffer with a reference less, moved to the head if that was the last one.
unfoldable pub drop_ref : ℕ → Buf → Cache → Cache
drop_ref i b c =
    let b' = record b { refcnt = b.refcnt - 1; holder = none } in
    if b'.refcnt == 0 then b' ∷ remove_at i c else set c i b'

-- brelse by process `pid` of the buffer at an index.
unfoldable pub brelse : ℤ → ℕ → Cache → Result Cache
brelse pid i c = elim (get_elem? c i) [
  | none ↦ panic brelse_panic
  | some b ↦ elim (b.holder) [
    | none ↦ panic brelse_panic
    | some h ↦ if eqb_ℤ h pid then ok (drop_ref i b c) else panic brelse_panic
  ]
]
