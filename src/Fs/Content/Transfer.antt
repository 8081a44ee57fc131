-- ===== src/Fs/Content/Transfer.antt =====
-- What is written to an inode is what is read from it.
use os_lab.Prelude.{
  ℕ, ◌*◌, ◌<◌, ◌≡◌, ◌&&◌, if◌then◌else◌, refl, Bool-cases, inl, inr, ◌∙◌, ltb, List, ◌≢◌, ◌+◌,
  length, ◌≤◌, leb, get_or, ◌-◌, ◌/◌, ◌⊎◌, ◌==◌, arith, false, list_ext, ◌||◌, ◌%◌, ◌^◌, ap, sym,
  true,
}
use os_lab.Fs.{Disk, Superblock, bsize, List, length, leb, get_or, panic, ok, out_of_blocks}
use os_lab.Fs.Inodes.{Inode}
use os_lab.Fs.Content.{maxfile, grow_to, Devsw, t_dev, readi, writei, pos, false}
use os_lab.Fs.Content.Slots.{slot, byte_of, IsSound}
use os_lab.Fs.Content.Read.{IsSound-iupdate, byte_of-iupdate, slot-iupdate, read_blocks_lem}
use os_lab.Fs.Content.Short.{Short}
use os_lab.Fs.Content.Write.{write_blocks_lem}
use os_lab.Fs.Content.Write.Needs.{last_block}
use os_lab.Fs.Content.Write.Round.{AreBytes}
use os_lab.Prelude.Int.{pos}

-- The size is no matter for the blocks.
IsSound-resized :
    (sb : Superblock) (ip : Inode) (d : Disk) (n : ℕ)
    → IsSound sb ip d
    → IsSound sb (record ip { size = n }) d
unfolding slot
IsSound-resized sb ip d n v = record {
  map = v.map;
  small = v.small;
  boot = v.boot;
  home = v.home;
  home_inside = v.home_inside;
  home_off_map = v.home_off_map;
  room = v.room;
  within = v.within;
  used = v.used;
  owned = λ s le nz.
      let o = v.owned s le nz in
      record { no_boot = o.no_boot; no_home = o.no_home; no_map = o.no_map };
  apart = v.apart;
}

slot_resized : (ip : Inode) (d : Disk) (n s : ℕ) → slot (record ip { size = n }) d s ≡ slot ip d s
unfolding slot
slot_resized ip d n s = refl

abbrev size_after : ℕ → ℕ → ℕ → ℕ
size_after n off size = if ltb 0 n && ltb size off then off else size

-- The end of writei keeps the content.
record Grown (sb : Superblock) (ip : Inode) (d : Disk) (n off : ℕ) (ip' : Inode) (d' : Disk)
    : Type 0 where
  sound : IsSound sb ip' d'
  size : ip'.size ≡ size_after n off ip.size
  fields : record ip' { size = ip.size } ≡ ip
  bytes : (i : ℕ) → i < maxfile * bsize → byte_of ip' d' i ≡ byte_of ip d i
  slots : (s : ℕ) → slot ip' d' s ≡ slot ip d s

Grown-grow_to :
    (sb : Superblock) (ip : Inode) (d : Disk) (n off : ℕ)
    → IsSound sb ip d
    → Grown sb ip d n off (grow_to sb n off ip d).0 (grow_to sb n off ip d).1
unfolding grow_to
Grown-grow_to sb ip d n off v = elim (Bool-cases (ltb 0 n && ltb ip.size off)) [
  | inr e ↦
      rw e record {
        sound = v;
        size = rw e refl;
        fields = refl;
        bytes = λ i lt. refl;
        slots = λ s. refl;
      }
  | inl e ↦
      let ip1 : Inode = record ip { size = off } in
      let v1 : IsSound sb ip1 d = IsSound-resized sb ip d off v in
      rw e record {
        sound = IsSound-iupdate sb ip1 d v1;
        size = rw e refl;
        fields = refl;
        bytes = λ i lt. byte_of-iupdate sb ip1 d v1 i lt ∙ rw slot_resized refl;
        slots = λ s. slot-iupdate sb ip1 d v1 s ∙ slot_resized ip d off s;
      }
]

-- The inode and the disk after a write of `src` at `off`.
pub record Stored (sb : Superblock) (ip : Inode) (d : Disk) (src : List ℕ) (off : ℕ) (ip' : Inode)
    (d' : Disk) : Type 0 where
  pub sound : IsSound sb ip' d'
  pub size : ip'.size ≡ (if ltb ip.size (off + length src) then off + length src else ip.size)
  pub fields : record ip' { addrs = ip.addrs; size = ip.size } ≡ ip
  pub bytes :
      (i : ℕ)
      → i < maxfile * bsize
      → byte_of ip' d' i
        ≡ (if leb off i && ltb i (off + length src) then get_or src (i - off) 0 else byte_of ip d i)

module _ (dw : Devsw) (sb : Superblock) (src : List ℕ) (off : ℕ) (ip : Inode) (d : Disk)
    (file : ip.type ≢ t_dev) (start : off ≤ ip.size)
    (fits : off + length src ≤ maxfile * bsize) where
  read_back :
      (ip' : Inode) (d' : Disk)
      → ip'.type ≡ ip.type
      → ip'.size ≡ (if ltb ip.size (off + length src) then off + length src else ip.size)
      → ((i : ℕ) → off ≤ i → i < off + length src → slot ip' d' (i / bsize) ≢ 0)
      → ((k : ℕ) → k < length src → byte_of ip' d' (off + k) ≡ get_or src k 0)
      → readi dw sb ip' off (length src) d' ≡ ok (pos (length src), src, ip', d')
  unfolding readi
  read_back ip' d' ty sz there bytes =
      let (bs, e, l, g) =
        read_blocks_lem (length src) sb (length src) off ip' d' fits (omega arith) there in
      let same : bs ≡ src =
        list_ext bs src 0 l (λ k lt. g k (omega arith) ∙ bytes k (omega arith)) in
      let t1 : (ip'.type == t_dev) ≡ false = ground arith in
      let t2 : (ltb ip'.size off || ltb ((off + length src) % 2 ^ 32) off) ≡ false = ground arith in
      let t3 : ltb ip'.size ((off + length src) % 2 ^ 32) ≡ false = ground arith in
      rw t1 (rw t2 (rw t3 (rw e (rw same refl))))

  Stored-all :
      IsSound sb ip d
      → AreBytes src
      → ((writei dw sb ip src off d ≡ panic out_of_blocks)
          × Short sb (off / bsize) (last_block off src) ip d)
        ⊎ ((ip' : Inode) × (d' : Disk) × (writei dw sb ip src off d
              ≡ ok (pos (length src), ip', d'))
            × Stored sb ip d src off ip' d'
            × (readi dw sb ip' off (length src) d' ≡ ok (pos (length src), src, ip', d')))
  unfolding writei
  Stored-all v wide =
      let t1 : (ip.type == t_dev) ≡ false = ground arith in
      let t2 : (ltb ip.size off || ltb ((off + length src) % 2 ^ 32) off) ≡ false = ground arith in
      let t3 : ltb (maxfile * bsize) ((off + length src) % 2 ^ 32) ≡ false = ground arith in
      rw t1 (
        rw t2 (
          rw t3 (elim (write_blocks_lem (length src) sb src off ip d v wide fits (omega arith)) [
            | inl (e, short) ↦ rw e (inl (refl, short))
            | inr (ip1, d1, e, w) ↦
                let g = Grown-grow_to sb ip1 d1 (length src) (off + length src) w.sound in
                let ip2 : Inode = (grow_to sb (length src) (off + length src) ip1 d1).0 in
                let d2 : Disk = (grow_to sb (length src) (off + length src) ip1 d1).1 in
                let size1 : ip1.size ≡ ip.size = ap (λ (x : Inode). x.size) w.fields in
                let size2 : ip2.size
                    ≡ (if ltb ip.size (off + length src) then off + length src else ip.size) =
                  ground (arith, g.size) in
                let type2 : ip2.type ≡ ip.type =
                  ap (λ (x : Inode). x.type) g.fields ∙ ap (λ (x : Inode). x.type) w.fields in
                let fields2 : record ip2 { addrs = ip.addrs; size = ip.size } ≡ ip =
                  ap (λ (x : Inode). record x { addrs = ip.addrs; size = ip.size }) g.fields
                  ∙ (ap (λ (x : Inode). record x { size = ip.size }) w.fields) in
                let bytes2 = λ (i : ℕ) (lt : i < maxfile * bsize). g.bytes i lt ∙ w.bytes i lt in
                rw e (
                  inr (
                    ip2,
                    d2,
                    refl,
                    record { sound = g.sound; size = size2; fields = fields2; bytes = bytes2 },
                    read_back ip2 d2 type2 size2
                        (λ i lo hi z. w.present i lo hi (sym (g.slots (i / bsize)) ∙ z))
                        (λ k lt.
                          let within : (leb off (off + k) && ltb (off + k) (off + length src))
                              ≡ true =
                            ground arith in
                          let index : off + k - off ≡ k = omega arith in
                          bytes2 (off + k) (omega arith) ∙ rw within (rw index refl)),
                  ))
          ])))

-- For a sound inode that is no device, a start within the file and an end below the greatest size:
-- writei panics only for want of blocks: no more of them are free than fill the empty slots that the
-- blocks of the write need, with that of the indirect block unless they are all direct, and one of
-- these stays empty. Otherwise it returns the number of bytes. The inode is sound again and as long
-- as before or up to the end of the write; its content has the bytes where they were written, and is
-- as before everywhere else. And readi of the same place gives exactly these bytes, and changes
-- nothing.
pub readi-writei :
    (dw : Devsw) (sb : Superblock) (src : List ℕ) (off : ℕ) (ip : Inode) (d : Disk)
    → ip.type ≢ t_dev
    → off ≤ ip.size
    → off + length src ≤ maxfile * bsize
    → IsSound sb ip d
    → AreBytes src
    → ((writei dw sb ip src off d ≡ panic out_of_blocks)
        × Short sb (off / bsize) (last_block off src) ip d)
      ⊎ ((ip' : Inode) × (d' : Disk) × (writei dw sb ip src off d ≡ ok (pos (length src), ip', d'))
          × Stored sb ip d src off ip' d'
          × (readi dw sb ip' off (length src) d' ≡ ok (pos (length src), src, ip', d')))
readi-writei dw sb src off ip d file start fits v wide =
    Stored-all dw sb src off ip d file start fits v wide
