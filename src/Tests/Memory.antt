-- ===== src/Tests/Memory.antt =====
-- The theorems on locks, memory, strings, pipes, files, the log and user pointers at concrete data.
use os_lab.Tests.{kernel}
use os_lab.Prelude.{
  ◌≡◌, refl, arith, some, ℕ, ◌+◌, true, false, [], ◌∷◌, take, drop, ◌++◌, replicate,
  length-replicate, none, if◌then◌else◌, leb,
}
use os_lab.Prelude.Int.{pos}
use os_lab.Kernel.State.{ptable_lock, held}
use os_lab.Kernel.Monad.{panic, acquire_twice, ◌>>◌}
use os_lab.Kernel.Returns.{Returns}
use os_lab.Spinlock.{acquire, release}
use os_lab.Spinlock.Nesting.{IsNested, Restores, acquire-release}
use os_lab.Spinlock.Contention.{
  System, init, Reach, start, later, call_acquire, owns, holds, recorded, mutual_exclusion, move,
  spinning,
}
use os_lab.Pipe.{Pipe, pipe_init, pipewrite, piperead, Env, put}
use os_lab.Pipe.Queue.{IsValid, contents, put-IsValid, pipe_init-IsValid}
use os_lab.Pipe.Transfer.{pipewrite_lem, piperead_lem}
use os_lab.Strings.{memmove}
use os_lab.Strings.Move.{memmove_lem}
use os_lab.Kalloc.{Kmem, Layout, freerange}
use os_lab.Kalloc.Pages.{freerange_lem, pages_onto}
use os_lab.Files.{File, fd_pipe}
use os_lab.Log.{Log, commit, recover_from_log, do_writes, commit_writes}
use os_lab.Log.Crash.{commit_atomic}
use os_lab.Log.Writes.{new_home}
use os_lab.Bcache.{Buf}
use os_lab.Bcache.Get.{Got, bget-Got}

nested : IsNested kernel
nested d = absurd (omega (arith, d))

acquire-release_example :
    Returns
      (λ _ m.
        (held ptable_lock m ≡ true)
        × (m.cpu.intr ≡ false)
        × (acquire ptable_lock m ≡ panic acquire_twice))
      (acquire ptable_lock kernel)
    × Returns
        (λ _ m. (held ptable_lock m ≡ false) × Restores kernel m)
        ((acquire ptable_lock >> release ptable_lock) kernel)
acquire-release_example = acquire-release ptable_lock kernel nested refl

abbrev one_spins : System
one_spins = record init { stage = move 0 spinning init.stage }

reached : Reach one_spins
unfolding holds
reached = later start (call_acquire 0 refl refl)

mutual_exclusion_example :
    ((i j : ℕ) → owns (one_spins.stage i) ≡ true → owns (one_spins.stage j) ≡ true → i ≡ j)
    × ((i : ℕ) → one_spins.stage i ≡ recorded → holds i one_spins.word ≡ true)
    × ((i : ℕ) → holds i one_spins.word ≡ true → one_spins.stage i ≡ recorded)
mutual_exclusion_example = mutual_exclusion reached

-- A disk with contents b at block b, and a transaction that changed the blocks 5 and 7.
abbrev two_blocks : Log
two_blocks = record {
  size = 30;
  outstanding = 0;
  committing = false;
  lh = 5 ∷ 7 ∷ [];
  cache = λ b. b + 100;
  disk = record { home = λ b. b; area = λ b. 0; disk_head = [] };
}

commit_atomic_example :
    ((n b : ℕ)
      → (recover_from_log (do_writes (take n (commit_writes two_blocks)) two_blocks.disk)).home b
        ≡ (if leb n 2 then b else new_home two_blocks.lh two_blocks.cache two_blocks.disk.home b))
    × ((b : ℕ)
        → (commit two_blocks).disk.home b
          ≡ new_home two_blocks.lh two_blocks.cache two_blocks.disk.home b)
    × ((commit two_blocks).disk.disk_head ≡ [])
    × ((commit two_blocks).lh ≡ [])
commit_atomic_example = commit_atomic two_blocks refl

memmove_lem_example : memmove 2 0 4 (λ a. a) 3 ≡ 1
memmove_lem_example = memmove_lem 2 0 4 (λ a. a) 3

abbrev layout : Layout
layout = record { kernel_end = 0x80110000; phystop = 0xE000000 }

abbrev no_pages : Kmem
no_pages = record { use_lock = false; freelist = [] }

freerange_lem_example :
    freerange layout 0x80200001 0x80204000 no_pages
    ≡ some (record no_pages { freelist = pages_onto 3 0x80201000 [] })
freerange_lem_example =
    freerange_lem layout 0x80200001 0x80204000 3 no_pages (omega arith) (omega arith) (omega arith)
      (omega arith) (omega arith) (omega arith) (omega arith)

abbrev pipe : Pipe
pipe = pipe_init (replicate 512 0)

IsValid-pipe : IsValid pipe
IsValid-pipe = pipe_init-IsValid (replicate 512 0) (length-replicate {A = ℕ} 512 0)

abbrev alone : Env
alone = record { killed = λ n. false; others = λ n p. p }

pipewrite_lem_example :
    (p' : Pipe) × (pipewrite 3 alone (7 ∷ 8 ∷ 9 ∷ []) pipe ≡ some (pos 3, p'))
    × IsValid p'
    × (contents p' ≡ contents pipe ++ (7 ∷ 8 ∷ 9 ∷ []))
unfolding pipe_init
pipewrite_lem_example =
    pipewrite_lem 3 alone (7 ∷ 8 ∷ 9 ∷ []) pipe IsValid-pipe (omega arith) (omega arith)

abbrev piped : Pipe
piped = put 7 pipe

piperead_lem_example :
    (p' : Pipe) × (piperead 1 alone 3 piped ≡ some (some (take 3 (contents piped)), p'))
    × IsValid p'
    × (contents p' ≡ drop 3 (contents piped))
unfolding pipe_init put
piperead_lem_example = piperead_lem 0 alone 3 piped (put-IsValid 7 pipe IsValid-pipe refl) refl

abbrev file : File
file = record {
  type = fd_pipe;
  ref = 1;
  readable = true;
  writable = false;
  pipe = 9;
  ip = 0;
  off = 0;
}

abbrev buffer : Buf
buffer = record {
  id = 0;
  dev = 1;
  blockno = 7;
  refcnt = 0;
  is_valid = true;
  is_dirty = false;
  bytes = [];
  holder = none;
}

bget-Got_example : Got 1 8 (buffer ∷ [])
bget-Got_example = bget-Got 1 8 (buffer ∷ [])
