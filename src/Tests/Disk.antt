-- ===== src/Tests/Disk.antt =====
-- A small disk: the boot block, the super block, a block of inodes, the free map, and four free
-- blocks; and the theorems on the file system and the console at it.
use os_lab.Prelude.{
  ℕ, ◌<◌, ◌≡◌, ◌==◌, ◌⊎◌, if◌then◌else◌, true, false, zero, suc, arith, refl, List, [], ◌∷◌, none,
  some, replicate, length-replicate, get_or, ◌/◌, ◌≢◌,
}
use os_lab.Prelude.Int.{pos}
use os_lab.Fs.{Superblock, Disk, ok, panic, out_of_blocks, freeing_free_block}
use os_lab.Fs.Blocks.{balloc, bfree}
use os_lab.Fs.Blocks.Laws.{HasMap, is_used}
use os_lab.Fs.Blocks.Alloc.{balloc_lem, bfree_lem, Takes}
use os_lab.Fs.Inodes.{Inode}
use os_lab.Fs.Inodes.Cache.{IsUnique, Gotten, iget-Gotten}
use os_lab.Fs.Content.{Devsw, readi, writei, bmap}
use os_lab.Fs.Content.Slots.{IsSound, slot}
use os_lab.Fs.Content.Short.{Short}
use os_lab.Fs.Content.Map.{MapOutcome}
use os_lab.Fs.Content.Bmap.{bmap_lem}
use os_lab.Fs.Content.Write.Round.{AreBytes}
use os_lab.Fs.Content.Transfer.{readi-writei, Stored}
use os_lab.Fs.Names.{skipelem, namex}
use os_lab.Fs.Names.Elements.{skipelem_lem, AllSlashes, Skipped}
use os_lab.Fs.Names.Lookup.{namex-Ends, Ends}
use os_lab.Console.{Console, consoleintr}
use os_lab.Console.Line.{IsOpen, text}
use os_lab.Console.Typing.{consoleintr_lem, press_all}

abbrev super_block : Superblock
super_block = record {
  size = 8;
  nblocks = 4;
  ninodes = 8;
  nlog = 0;
  logstart = 2;
  inodestart = 2;
  bmapstart = 3;
}

-- The blocks 0 to 3 are in use.
abbrev disk : Disk
disk b j = if b == 3 then (if j == 0 then 15 else 0) else 0

HasMap-disk : HasMap super_block disk
HasMap-disk = record {
  wide = λ b j. ground arith;
  inside = λ c lt. omega arith;
  reserved = λ c lt. let same : c / 4096 ≡ 0 = omega arith in rw same refl;
}

abbrev file : Inode
file = record {
  dev = 1;
  inum = 1;
  ref = 1;
  lock = some (pos 4);
  valid = true;
  type = 2;
  major = 0;
  minor = 0;
  nlink = 1;
  size = 0;
  addrs = replicate 13 0;
}

no_address : (n s : ℕ) → get_or {A = ℕ} (replicate n 0) s 0 ≡ 0
no_address zero s = refl
no_address (suc n) zero = refl
no_address (suc n) (suc s) = no_address n s

no_slot : (s : ℕ) → slot file disk s ≡ 0
unfolding slot
no_slot s = ground (arith, no_address 13 s)

IsSound-file : IsSound super_block file disk
IsSound-file = record {
  map = HasMap-disk;
  small = omega arith;
  boot = refl;
  home = refl;
  home_inside = omega arith;
  home_off_map = λ c lt. omega arith;
  room = refl;
  within = λ s le n. absurd (n (no_slot s));
  used = λ s le n. absurd (n (no_slot s));
  owned = λ s le n. absurd (n (no_slot s));
  apart = λ s t ls lt n e. absurd (n (no_slot s));
}

abbrev no_devices : Devsw
no_devices = record { read = λ m. none; write = λ m. none }

abbrev bytes : List ℕ
bytes = 7 ∷ 8 ∷ 9 ∷ []

AreBytes-bytes : AreBytes bytes
AreBytes-bytes i = ground arith

readi-writei_example :
    ((writei no_devices super_block file bytes 0 disk ≡ panic out_of_blocks)
      × Short super_block 0 0 file disk)
    ⊎ ((ip' : Inode) × (d' : Disk) × (writei no_devices super_block file bytes 0 disk
          ≡ ok (pos 3, ip', d'))
        × Stored super_block file disk bytes 0 ip' d'
        × (readi no_devices super_block ip' 0 3 d' ≡ ok (pos 3, bytes, ip', d')))
readi-writei_example =
    readi-writei no_devices super_block bytes 0 file disk (omega arith) (omega arith) (omega arith)
      IsSound-file AreBytes-bytes

bmap_lem_example :
    (slot file disk 12 ≢ 0 → bmap super_block 12 file disk ≡ ok (slot file disk 12, file, disk))
    × MapOutcome super_block file disk 12 (bmap super_block 12 file disk)
bmap_lem_example = bmap_lem super_block file disk 12 IsSound-file (omega arith)

balloc_lem_example :
    ((balloc super_block disk ≡ panic out_of_blocks)
      × ((c : ℕ) → c < 8 → is_used super_block disk c ≡ true))
    ⊎ ((b : ℕ) × (d' : Disk) × (balloc super_block disk ≡ ok (b, d'))
        × Takes super_block disk b d'
        × ((c : ℕ) → c < b → is_used super_block disk c ≡ true))
balloc_lem_example = balloc_lem super_block disk HasMap-disk

bfree_lem_example :
    (d' : Disk) × (bfree super_block 2 disk ≡ ok d')
    × ((c : ℕ) → is_used super_block d' c ≡ (if c == 2 then false else is_used super_block disk c))
    × (bfree super_block 2 d' ≡ panic freeing_free_block)
bfree_lem_example = bfree_lem super_block disk 2 HasMap-disk refl

abbrev cache : List Inode
cache = file ∷ record file { ref = 0 } ∷ []

IsUnique-cache : IsUnique cache
IsUnique-cache zero zero p q gp gq rp rq d n = refl
IsUnique-cache zero (suc zero) p q gp gq rp rq d n = ground arith
IsUnique-cache zero (suc (suc j)) p q gp gq rp rq d n = ground arith
IsUnique-cache (suc zero) j p q gp gq rp rq d n = absurd (ground arith)
IsUnique-cache (suc (suc i)) j p q gp gq rp rq d n = absurd (ground arith)

iget-Gotten_example : Gotten 1 2 cache
iget-Gotten_example = iget-Gotten 1 2 cache IsUnique-cache

abbrev path : List ℕ
path = b'/' ∷ b'a' ∷ b'/' ∷ b'b' ∷ []

skipelem_lem_example :
    ((skipelem path ≡ none) × AllSlashes path)
    ⊎ ((name : List ℕ) × (rest : List ℕ) × (skipelem path ≡ some (name, rest))
        × Skipped path name rest)
skipelem_lem_example = skipelem_lem path

namex-Ends_example : Ends (
    namex no_devices super_block
      (record { pid = pos 4; cwd = 0 })
      false
      path
      (record { inodes = cache; disk = disk }))
namex-Ends_example =
    namex-Ends no_devices super_block (record { pid = pos 4; cwd = 0 }) false path
      (record { inodes = cache; disk = disk })

-- Nothing has been typed yet.
abbrev console : Console
console = record {
  input = record { buf = replicate 128 0; r = 0; w = 0; e = 0 };
  echoed = [];
  woken = false;
  listing = false;
}

IsOpen-console : IsOpen console.input
IsOpen-console = record {
  valid = record {
    room = length-replicate {A = ℕ} 128 0;
    r_uint = omega arith;
    w_uint = omega arith;
    e_uint = omega arith;
    ordered = omega arith;
    fits = omega arith;
  };
  no_end = λ k lt. absurd (omega arith);
}

-- l, x, backspace, s, return
abbrev keys : List ℕ
keys = b'l' ∷ b'x' ∷ 8 ∷ b's' ∷ 13 ∷ []

consoleintr_lem_example :
    IsOpen (consoleintr keys console).input
    × (text (consoleintr keys console).input ≡ press_all keys (text console.input))
consoleintr_lem_example = consoleintr_lem keys console IsOpen-console
