-- ===== src/Log.antt =====
-- log.c: the log of writes that are grouped into transactions. The disk is a function from block
-- numbers to contents; the buffer cache stands between the log and the disk as the blocks that have
-- been changed in memory (B_DIRTY keeps them there).
pub mod Writes
pub mod Crash
use os_lab.Prelude.{
  ℕ, List, Bool, if◌then◌else◌, ◌∷◌, [], false, Option, ◌==◌, ◌+◌, none, ltb, ◌-◌, ◌++◌, leb, true,
  length, ◌||◌, ◌*◌, some,
}

abbrev maxopblocks : ℕ
maxopblocks = 10

abbrev logsize : ℕ
logsize = 30

-- A block's contents, as a number.
abbrev pub Blocks : Type 0
Blocks = ℕ → ℕ

-- The header block on disk and its copy in memory: `n` and `block[0 .. n - 1]`.
abbrev pub Header : Type 0
Header = List ℕ

-- `disk` has the home locations, `area` the log's data blocks at log.start + 1 + tail, and
-- `disk_head` the header block at log.start.
pub record Disk : Type 0 where
  pub home : Blocks
  pub area : Blocks
  pub disk_head : Header

pub record Log : Type 0 where
  pub size : ℕ
  pub outstanding : ℕ
  pub committing : Bool
  pub lh : Header
  pub cache : Blocks
  pub disk : Disk

pub data Failure : Type 0 where
  log_committing too_big outside_trans : Failure

pub data Result (A : Type 0) : Type 0 where
  ok : A → Result A
  panic : Failure → Result A

abbrev pub store : Blocks → ℕ → ℕ → Blocks
store m a v b = if a == b then v else m b

-- A write of one block by bwrite: a log block, the header, or a home location. What writes to the
-- disk is given as the list of its writes, in the order of the code.
pub data Write : Type 0 where
  to_area to_home : ℕ → ℕ → Write
  to_head : Header → Write

unfoldable pub do_write : Write → Disk → Disk
do_write (to_area tail v) d = record d { area = store d.area tail v }
do_write (to_home b v) d = record d { home = store d.home b v }
do_write (to_head h) d = record d { disk_head = h }

unfoldable pub do_writes : List Write → Disk → Disk
do_writes [] d = d
do_writes (w ∷ ws) d = do_writes ws (do_write w d)

-- The loop of install_trans from `tail` on: log block to home location.
unfoldable pub install_from : ℕ → Header → Blocks → List Write
install_from tail [] area = []
install_from tail (b ∷ bs) area = to_home b (area tail) ∷ install_from (tail + 1) bs area

unfoldable pub install_trans : Header → Blocks → List Write
install_trans h area = install_from 0 h area

-- write_head: the point at which the transaction commits.
unfoldable pub write_head : Header → Write
write_head h = to_head h

-- The loop of write_log from `tail` on: cache block to log block.
unfoldable pub write_log_from : ℕ → Header → Blocks → List Write
write_log_from tail [] cache = []
write_log_from tail (b ∷ bs) cache = to_area tail (cache b) ∷ write_log_from (tail + 1) bs cache

unfoldable pub write_log : Header → Blocks → List Write
write_log h cache = write_log_from 0 h cache

-- read_head, then install, then an empty header.
unfoldable pub recover_from_log : Disk → Disk
recover_from_log d = do_writes (install_trans d.disk_head d.area ++ write_head [] ∷ []) d

unfoldable pub initlog : ℕ → Blocks → Disk → Log
initlog nlog cache d = record {
  size = nlog;
  outstanding = 0;
  committing = false;
  lh = [];
  cache = cache;
  disk = recover_from_log d;
}

-- One test of the loop of begin_op: `none` is to sleep and test again.
unfoldable pub begin_op : Log → Option Log
begin_op l =
    if l.committing
    then none
    else if ltb logsize (length l.lh + (l.outstanding + 1) * maxopblocks)
    then none
    else some (record l { outstanding = l.outstanding + 1 })

-- The writes of commit: install_trans reads the log blocks that write_log has written.
unfoldable pub commit_writes : Log → List Write
commit_writes l =
    if ltb 0 (length l.lh)
    then (let logged = do_writes (write_log l.lh l.cache) l.disk in
        write_log l.lh l.cache
        ++ write_head l.lh ∷ (install_trans l.lh logged.area ++ write_head [] ∷ []))
    else []

-- commit, on the disk and the header.
unfoldable pub commit : Log → Log
commit l = record l { disk = do_writes (commit_writes l) l.disk; lh = [] }

-- The first part of end_op, and whether to commit. `outstanding` is at least one in a transaction.
unfoldable pub end_op_start : Log → Result (Bool × Log)
end_op_start l =
    if l.committing
    then panic log_committing
    else if l.outstanding - 1 == 0
    then ok (true, record l { outstanding = l.outstanding - 1; committing = true })
    else ok (false, record l { outstanding = l.outstanding - 1 })

-- The last part, after commit.
unfoldable pub end_op_finish : Log → Log
end_op_finish l = record l { committing = false }

unfoldable pub end_op_rest : Bool × Log → Log
end_op_rest (true, l) = end_op_finish (commit l)
end_op_rest (false, l) = l

unfoldable pub end_op : Log → Result Log
end_op l = elim (end_op_start l) [ panic e ↦ panic e | ok r ↦ ok (end_op_rest r) ]

abbrev pub is_logged : ℕ → Header → Bool
is_logged b [] = false
is_logged b (x ∷ xs) = x == b || is_logged b xs

-- The loop that absorbs a block that is in the log already.
abbrev absorb : ℕ → Header → Header
absorb b h = if is_logged b h then h else h ++ b ∷ []

-- log_write of block `b`, whose new contents the caller has put into the buffer.
unfoldable pub log_write : ℕ → ℕ → Log → Result Log
log_write b v l =
    if leb logsize (length l.lh) || leb (l.size - 1) (length l.lh)
    then panic too_big
    else if ltb l.outstanding 1
    then panic outside_trans
    else ok (record l { lh = absorb b l.lh; cache = store l.cache b v })
