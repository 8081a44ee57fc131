-- ===== src/Fs/Blocks/Alloc.antt =====
-- balloc and bfree against the free map.
use os_lab.Prelude.{
  ℕ, ◌+◌, ◌%◌, ◌<◌, ◌≡◌, ◌≢◌, ◌==◌, if◌then◌else◌, true, false, arith, ap, sym, ◌∙◌, ◌⊎◌, ◌/◌, refl,
}
use os_lab.Fs.{
  Disk, Superblock, bblock, bpb, panic, ok, out_of_blocks, freeing_free_block, put_block, inl, inr,
}
use os_lab.Fs.Blocks.{is_set, bzero, mark_used, balloc, bfree, clear_bit}
use os_lab.Fs.Blocks.Bits.{is_set-set_bit, HasBytes-set_bit, is_set-clear_bit}
use os_lab.Fs.Blocks.Laws.{used_bit, is_used, HasMap, balloc_from-Searched}
use os_lab.Log.{panic, ok}

-- `d'` is `d` with block `b`, which was free, in use and full of zeros.
pub record Takes (sb : Superblock) (d : Disk) (b : ℕ) (d' : Disk) : Type 0 where
  pub within : b < sb.size
  pub was_free : is_used sb d b ≡ false
  pub zeros : (j : ℕ) → d' b j ≡ 0
  pub map : (c : ℕ) → c < sb.size → is_used sb d' c ≡ (if c == b then true else is_used sb d c)
  pub rest : (c : ℕ) → c ≢ b → c ≢ bblock b sb → d' c ≡ d c
  pub valid : HasMap sb d'

module _ (sb : Superblock) (d : Disk) (m : HasMap sb d) where
  -- A block that is free is no block of the map.
  not_map : (b c : ℕ) → c < sb.size → is_used sb d b ≡ false → bblock c sb ≢ b
  not_map b c lt free e = ground (arith, m.reserved c lt, ap (is_used sb d) e)

  module _ (a i : ℕ) (al : a % bpb ≡ 0) (small : i < bpb) (lt : a + i < sb.size)
      (free : is_used sb d (a + i) ≡ false) where
    blk : bblock (a + i) sb ≡ bblock a sb
    blk = omega arith

    clear : is_set (d (bblock a sb)) i ≡ false
    clear = sym (used_bit sb d a i al small) ∙ free

    taken :
        (c : ℕ)
        → c < sb.size
        → is_used sb (mark_used a i sb d) c ≡ (if c == a + i then true else is_used sb d c)
    unfolding mark_used bzero
    taken c lc = ground (
      arith,
      not_map (a + i) c lc free,
      blk,
      is_set-set_bit (d (bblock a sb)) (m.wide (bblock a sb)) i clear (c % bpb),
    )

    Takes-mark_used : Takes sb d (a + i) (mark_used a i sb d)
    unfolding mark_used bzero
    Takes-mark_used = record {
      within = lt;
      was_free = free;
      zeros = λ j. ground arith;
      map = taken;
      rest = λ c ne nm. ground (arith, blk);
      valid = record {
        wide = λ c j. ground (
          arith,
          m.wide c j,
          HasBytes-set_bit (d (bblock a sb)) (m.wide (bblock a sb)) i clear j,
        );
        inside = m.inside;
        reserved = λ c lc. ground (arith, m.reserved c lc, taken (bblock c sb) (m.inside c lc));
      };
    }

-- On a disk whose map blocks are in use: balloc panics only if every block is in use. Otherwise it
-- gives the first block that is free. It is in use then and full of zeros, and the use of all other
-- blocks, and the bytes of all blocks but it and its map block, are as before.
pub balloc_lem :
    (sb : Superblock) (d : Disk)
    → HasMap sb d
    → ((balloc sb d ≡ panic out_of_blocks) × ((c : ℕ) → c < sb.size → is_used sb d c ≡ true))
      ⊎ ((b : ℕ) × (d' : Disk) × (balloc sb d ≡ ok (b, d'))
          × Takes sb d b d'
          × ((c : ℕ) → c < b → is_used sb d c ≡ true))
unfolding balloc
balloc_lem sb d m = elim (balloc_from-Searched (sb.size / bpb + 2) sb 0 d (omega arith) refl) [
  | inl (r, u) ↦ inl (r, λ c lt. u c (omega arith) lt)
  | inr (a, i, r, al, q, s, t, u) ↦ inr (
    a + i,
    mark_used a i sb d,
    r,
    Takes-mark_used sb d m a i al q s t,
    λ c lt. u c (omega arith) lt,
  )
]

-- bfree of a block in use, that is no block of the map, frees this block and leaves all others in
-- use or free as they were; a second bfree of it panics.
pub bfree_lem :
    (sb : Superblock) (d : Disk) (b : ℕ)
    → HasMap sb d
    → is_used sb d b ≡ true
    → (d' : Disk) × (bfree sb b d ≡ ok d')
      × ((c : ℕ) → is_used sb d' c ≡ (if c == b then false else is_used sb d c))
      × (bfree sb b d' ≡ panic freeing_free_block)
unfolding bfree
bfree_lem sb d b m used =
    let bytes = d (bblock b sb) in
    let d' : Disk = put_block (bblock b sb) (clear_bit (b % bpb) (d (bblock b sb))) d in
    let flips = is_set-clear_bit (d (bblock b sb)) (m.wide (bblock b sb)) (b % bpb) used in
    let gone : is_used sb d' b ≡ false = ground (arith, flips (b % bpb)) in
    (d', rw used refl, λ c. ground (arith, flips (c % bpb)), rw gone refl)
