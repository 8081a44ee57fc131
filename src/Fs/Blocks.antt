-- ===== src/Fs/Blocks.antt =====
-- The allocator of disk blocks: bzero, balloc and bfree.
pub mod Bits
pub mod Laws
pub mod Alloc
use os_lab.Prelude.{
  ℕ, ◌+◌, ◌*◌, ◌/◌, ◌%◌, ◌^◌, ◌-◌, ◌==◌, if◌then◌else◌, Bool, Option, none, some, zero, suc, ltb,
}
use os_lab.Fs.{
  Superblock, Block, Disk, put_block, bblock, bpb, Result, ok, panic, out_of_blocks,
  freeing_free_block,
}

-- (data[bi/8] & (1 << (bi % 8))) != 0
abbrev pub is_set : Block → ℕ → Bool
is_set bytes bi = bytes (bi / 8) / 2 ^ (bi % 8) % 2 == 1

abbrev put_byte : ℕ → ℕ → Block → Block
put_byte i v bytes j = if j == i then v else bytes j

-- data[bi/8] |= m, where the bit is clear; data[bi/8] &= ~m, where it is set.
unfoldable pub set_bit : ℕ → Block → Block
set_bit bi bytes = put_byte (bi / 8) (bytes (bi / 8) + 2 ^ (bi % 8)) bytes

unfoldable pub clear_bit : ℕ → Block → Block
clear_bit bi bytes = put_byte (bi / 8) (bytes (bi / 8) - 2 ^ (bi % 8)) bytes

unfoldable pub bzero : ℕ → Disk → Disk
bzero bno d = put_block bno (λ j. 0) d

-- The inner loop of balloc from `bi` on, at most `n` bits.
unfoldable pub scan_bits : ℕ → Superblock → Disk → ℕ → ℕ → Option ℕ
scan_bits zero sb d b bi = none
scan_bits (suc n) sb d b bi =
    let rest = scan_bits n sb d b (bi + 1) in
    if ltb (b + bi) sb.size then (if is_set (d (bblock b sb)) bi then rest else some bi) else none

unfoldable pub mark_used : ℕ → ℕ → Superblock → Disk → Disk
mark_used b bi sb d = bzero (b + bi) (put_block (bblock b sb) (set_bit bi (d (bblock b sb))) d)

-- The outer loop of balloc from `b` on, by fuel.
unfoldable pub balloc_from : ℕ → Superblock → ℕ → Disk → Result (ℕ × Disk)
balloc_from zero sb b d = panic out_of_blocks
balloc_from (suc n) sb b d =
    let rest : Result (ℕ × Disk) = elim (scan_bits bpb sb d b 0) [
      | some bi ↦ ok (b + bi, mark_used b bi sb d)
      | none ↦ balloc_from n sb (b + bpb) d
    ] in
    if ltb b sb.size then rest else panic out_of_blocks

-- One unit of fuel for each block of the free map, and one for the test that ends the loop.
unfoldable pub balloc : Superblock → Disk → Result (ℕ × Disk)
balloc sb d = balloc_from (sb.size / bpb + 2) sb 0 d

unfoldable pub bfree : Superblock → ℕ → Disk → Result Disk
bfree sb b d =
    let bytes = d (bblock b sb) in
    if is_set bytes (b % bpb)
    then ok (put_block (bblock b sb) (clear_bit (b % bpb) bytes) d)
    else panic freeing_free_block
