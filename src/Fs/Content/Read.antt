-- ===== src/Fs/Content/Read.antt =====
-- readi and writei on a sound inode.
use os_lab.Prelude.{
  ℕ, ◌+◌, ◌*◌, ◌/◌, ◌%◌, ◌-◌, ◌<◌, ◌≤◌, ◌≡◌, ◌≢◌, ◌==◌, ◌++◌, zero, suc, arith, refl, Bool-cases,
  inl, inr, ap, ◌∙◌, sym, get_or, ltb, List, [], ◌∷◌, length, ne_of_==, length-append,
  get_or-append,
}
use os_lab.Fs.{Block, Disk, Superblock, bsize, bytes_at, put_short, put_uint, ok, iblock}
use os_lab.Fs.Inodes.{Inode, iupdate, store_inode, put_addrs, dinode_at}
use os_lab.Fs.Content.{maxfile, bmap, chunk, read_blocks}
use os_lab.Fs.Content.Slots.{ind, slot, byte_of, IsSound}
use os_lab.Fs.Content.Map.{HasBytes-put_uint}
use os_lab.Fs.Content.Bmap.{bmap_present, slot-ind}
use os_lab.Fs.Content.Write.{chunk_bounds}
use os_lab.Fs.Content.Write.Round.{same_slot, IsSound-put_block}
use os_lab.Fs.Blocks.Bits.{HasBytes}

length-bytes_at : (b : Block) (o n : ℕ) → length (bytes_at b o n) ≡ n
unfolding bytes_at
length-bytes_at b o zero = refl
length-bytes_at b o (suc n) = omega (arith, length-bytes_at b (o + 1) n)

get_or-bytes_at : (b : Block) (o n k : ℕ) → k < n → get_or (bytes_at b o n) k 0 ≡ b (o + k)
unfolding bytes_at
get_or-bytes_at b o zero k h = elim h [ ]
get_or-bytes_at b o (suc n) zero h = ground arith
get_or-bytes_at b o (suc n) (suc k) h =
    let e : o + 1 + k ≡ o + suc k = omega arith in
    get_or-bytes_at b (o + 1) n k (omega arith) ∙ ap b e

-- A read of blocks that are all there changes nothing, and gives the bytes of the content.
pub read_blocks_lem :
    (n : ℕ) (sb : Superblock) (left off : ℕ) (ip : Inode) (d : Disk)
    → off + left ≤ maxfile * bsize
    → left ≤ n
    → ((i : ℕ) → off ≤ i → i < off + left → slot ip d (i / bsize) ≢ 0)
    → (bs : List ℕ) × (read_blocks n sb left off ip d ≡ ok (bs, ip, d))
      × (length bs ≡ left)
      × ((k : ℕ) → k < left → get_or bs k 0 ≡ byte_of ip d (off + k))
unfolding read_blocks
read_blocks_lem zero sb left off ip d fits enough there =
    ([], refl, omega arith, λ k lt. absurd (omega arith))
read_blocks_lem (suc n) sb left off ip d fits enough there = elim (Bool-cases (left == 0)) [
  | inl e ↦ rw e ([], refl, ground arith, λ k lt. absurd (ground arith))
  | inr more ↦
      let some_left : 0 < left = ground arith in
      let (le, pos_m, small) = chunk_bounds left off some_left in
      let m : ℕ = chunk left off in
      let at : slot ip d (off / bsize) ≢ 0 = there off (omega arith) (omega arith) in
      let found : bmap sb (off / bsize) ip d ≡ ok (slot ip d (off / bsize), ip, d) =
        bmap_present sb ip d (off / bsize) (omega arith) at in
      let (bs, e, l, g) =
        read_blocks_lem n sb (left - m) (off + m) ip d (omega arith) (omega arith)
          (λ i lo hi. there i (omega arith) (omega arith)) in
      let first : List ℕ = bytes_at (d (slot ip d (off / bsize))) (off % bsize) m in
      rw more (
        rw found (
          rw e (
            first ++ bs,
            refl,
            omega (
              arith,
              length-append first bs,
              length-bytes_at (d (slot ip d (off / bsize))) (off % bsize) m,
            ),
            λ k lt. get_or-append first bs k 0 ∙ elim (Bool-cases (ltb k m)) [
              | inl near ↦
                  let same : (off + k) / bsize ≡ off / bsize = ground arith in
                  let o : (off + k) % bsize ≡ off % bsize + k = ground arith in
                  rw (length-bytes_at (d (slot ip d (off / bsize))) (off % bsize) m) (
                    rw near (
                      rw same (
                        rw o (
                          ground (
                            arith,
                            get_or-bytes_at (d (slot ip d (off / bsize))) (off % bsize) m k,
                          )))))
              | inr far ↦
                  let same : off + m + (k - m) ≡ off + k = ground arith in
                  rw (length-bytes_at (d (slot ip d (off / bsize))) (off % bsize) m)
                    (rw far (g (k - m) (ground arith) ∙ ap (byte_of ip d) same))
            ],
          )))
]

HasBytes-put_short : (o x : ℕ) (b : Block) → HasBytes b → HasBytes (put_short o x b)
unfolding put_short
HasBytes-put_short o x b w j = ground (arith, w j)

HasBytes-put_addrs : (o : ℕ) (l : List ℕ) (b : Block) → HasBytes b → HasBytes (put_addrs o l b)
unfolding put_addrs
HasBytes-put_addrs o [] b w = w
HasBytes-put_addrs o (a ∷ l) b w =
    HasBytes-put_addrs (o + 4) l (put_uint o a b) (HasBytes-put_uint o a b w)

HasBytes-store_inode : (o : ℕ) (ip : Inode) (b : Block) → HasBytes b → HasBytes (store_inode o ip b)
unfolding store_inode
HasBytes-store_inode o ip b w = HasBytes-put_addrs (o + 12) ip.addrs _ (
    HasBytes-put_uint (o + 8) ip.size _ (
      HasBytes-put_short (o + 6) ip.nlink _ (
        HasBytes-put_short (o + 4) ip.minor _
          (HasBytes-put_short (o + 2) ip.major _ (HasBytes-put_short o ip.type b w)))))

-- iupdate writes to the inode's own place, which is none of its blocks.
module _ (sb : Superblock) (ip : Inode) (d : Disk) (v : IsSound sb ip d) where
  no_ind : ind ip ≢ 0 → ind ip ≢ iblock ip.inum sb
  no_ind n e =
      (v.owned maxfile (omega arith) (λ z. n (sym (slot-ind sb ip d v) ∙ z))).no_home
        (slot-ind sb ip d v ∙ e)

  new_bytes : HasBytes (store_inode (dinode_at ip.inum) ip (d (iblock ip.inum sb)))
  new_bytes =
      HasBytes-store_inode (dinode_at ip.inum) ip (d (iblock ip.inum sb))
        (v.map.wide (iblock ip.inum sb))

  pub slot-iupdate : (s : ℕ) → slot ip (iupdate sb ip d) s ≡ slot ip d s
  unfolding iupdate
  slot-iupdate =
      same_slot sb ip d v (iblock ip.inum sb)
        (store_inode (dinode_at ip.inum) ip (d (iblock ip.inum sb))) new_bytes v.home_inside
        v.home_off_map no_ind

  pub IsSound-iupdate : IsSound sb ip (iupdate sb ip d)
  unfolding iupdate
  IsSound-iupdate =
      IsSound-put_block sb ip d v (iblock ip.inum sb)
        (store_inode (dinode_at ip.inum) ip (d (iblock ip.inum sb))) new_bytes v.home_inside
        v.home_off_map no_ind

  pub byte_of-iupdate :
      (i : ℕ) → i < maxfile * bsize → byte_of ip (iupdate sb ip d) i ≡ byte_of ip d i
  unfolding iupdate
  byte_of-iupdate i lt = rw slot-iupdate (elim (Bool-cases (slot ip d (i / bsize) == 0)) [
    | inl z ↦ rw z refl
    | inr n ↦
        let other : slot ip d (i / bsize) ≢ iblock ip.inum sb =
          (v.owned (i / bsize) (omega arith) (ne_of_== (slot ip d (i / bsize)) 0 n)).no_home in
        ground arith
  ])
