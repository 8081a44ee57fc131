-- ===== src/Fs/Content/Write/Round.antt =====
-- One round of the loop of writei: what writing into one block changes.
use os_lab.Prelude.{
  ℕ, ◌+◌, ◌*◌, ◌/◌, ◌%◌, ◌-◌, ◌<◌, ◌≤◌, ◌≡◌, ◌≢◌, ◌==◌, ◌&&◌, if◌then◌else◌, true, false, arith,
  refl, Bool-cases, inl, inr, ◌∙◌, sym, get_or, ltb, leb, List, length, ne_of_==,
}
use os_lab.Fs.{Block, Disk, Superblock, bsize, put_block, put_bytes, bblock, iblock}
use os_lab.Fs.Inodes.{Inode}
use os_lab.Fs.Content.{maxfile}
use os_lab.Fs.Content.Slots.{ind, slot, byte_of, IsSound, IsData}
use os_lab.Fs.Content.Map.{HasMap-put_block}
use os_lab.Fs.Content.Bmap.{slot-ind}
use os_lab.Fs.Blocks.Bits.{HasBytes}
use os_lab.Fs.Blocks.Laws.{is_used}

abbrev pub AreBytes : List ℕ → Type 0
AreBytes bs = (i : ℕ) → get_or bs i 0 < 256

HasBytes-put_bytes :
    (o : ℕ) (bs : List ℕ) (b : Block) → AreBytes bs → HasBytes b → HasBytes (put_bytes o bs b)
unfolding put_bytes
HasBytes-put_bytes o bs b h w j = ground (arith, h (j - o), w j)

-- A write into a block that no slot but `n` has, if any.
module _ (sb : Superblock) (ip : Inode) (d : Disk) (v : IsSound sb ip d) (a : ℕ) (bytes : Block)
    (wide : HasBytes bytes) (inside : a < sb.size)
    (off_map : (c : ℕ) → c < sb.size → a ≢ bblock c sb) (not_ind : ind ip ≢ 0 → ind ip ≢ a) where
  abbrev after : Disk
  after = put_block a bytes d

  pub same_slot : (s : ℕ) → slot ip after s ≡ slot ip d s
  unfolding slot
  same_slot s = elim (Bool-cases (ind ip == 0)) [
    | inl z ↦ rw z refl
    | inr n ↦
        let other : (ind ip == a) ≡ false = ground (arith, not_ind (ne_of_== (ind ip) 0 n)) in
        rw other refl
  ]

  pub IsSound-put_block : IsSound sb ip after
  IsSound-put_block =
      let (m, same) = HasMap-put_block sb d a bytes v.map off_map wide in
      record {
        map = m;
        small = v.small;
        boot = same 0 (omega (arith, v.home_inside)) ∙ v.boot;
        home = same (iblock ip.inum sb) v.home_inside ∙ v.home;
        home_inside = v.home_inside;
        home_off_map = v.home_off_map;
        room = v.room;
        within = λ s le n. rw same_slot (v.within s le (λ z. n (same_slot s ∙ z)));
        used = λ s le n.
            let n' : slot ip d s ≢ 0 = λ z. n (same_slot s ∙ z) in
            rw same_slot (same (slot ip d s) (v.within s le n') ∙ v.used s le n');
        owned = λ s le n. rw same_slot (v.owned s le (λ z. n (same_slot s ∙ z)));
        apart = λ s t ls lt n e.
            v.apart s t ls lt (λ z. n (same_slot s ∙ z)) (sym (same_slot s) ∙ (e ∙ same_slot t));
      }

-- The bytes `bs`, within one block, are written at the position `off`.
module _ (sb : Superblock) (ip : Inode) (d : Disk) (v : IsSound sb ip d) (off b : ℕ) (bs : List ℕ)
    (wide : AreBytes bs) (inside : off < maxfile * bsize) (fits : off % bsize + length bs ≤ bsize)
    (place : slot ip d (off / bsize) ≡ b) (exists : b ≢ 0) where
  abbrev pub written : Disk
  written = put_block b (put_bytes (off % bsize) bs (d b)) d

  here : slot ip d (off / bsize) ≢ 0
  here z = exists (sym place ∙ z)

  mine : IsData sb ip b
  mine = rw (← place) (v.owned (off / bsize) (omega arith) here)

  no_ind : ind ip ≢ 0 → ind ip ≢ b
  no_ind n e = absurd (
      omega (
        arith,
        v.apart maxfile (off / bsize) (omega arith) (omega arith)
            (λ z. n (sym (slot-ind sb ip d v) ∙ z)) (slot-ind sb ip d v ∙ (e ∙ sym place)),
      ))

  bytes_wide : HasBytes (put_bytes (off % bsize) bs (d b))
  bytes_wide = HasBytes-put_bytes (off % bsize) bs (d b) wide (v.map.wide b)

  b_inside : b < sb.size
  b_inside = rw (← place) (v.within (off / bsize) (omega arith) here)

  pub written-slot : (s : ℕ) → slot ip written s ≡ slot ip d s
  written-slot =
      same_slot sb ip d v b (put_bytes (off % bsize) bs (d b)) bytes_wide b_inside mine.no_map
        no_ind

  pub IsSound-written : IsSound sb ip written
  IsSound-written =
      IsSound-put_block sb ip d v b (put_bytes (off % bsize) bs (d b)) bytes_wide b_inside
        mine.no_map no_ind

  pub written-used : (c : ℕ) → c < sb.size → is_used sb written c ≡ is_used sb d c
  written-used =
      (HasMap-put_block sb d b (put_bytes (off % bsize) bs (d b)) v.map mine.no_map bytes_wide).1

  written_at :
      (u x : ℕ)
      → u < maxfile
      → (if slot ip written u == 0 then 0 else written (slot ip written u) x) ≡ (
          if u == off / bsize && leb (off % bsize) x && ltb x (off % bsize + length bs)
          then get_or bs (x - off % bsize) 0
          else if slot ip d u == 0
          then 0
          else d (slot ip d u) x)
  unfolding put_bytes
  written_at u x lt = rw written-slot (elim (Bool-cases (u == off / bsize)) [
    | inl e ↦ let same : u ≡ off / bsize = ground arith in rw same (rw place (ground arith))
    | inr e ↦ elim (Bool-cases (slot ip d u == 0)) [
      | inl z ↦ ground arith
      | inr n ↦
          let other : slot ip d u ≢ b = λ p. ne_of_== u (off / bsize) e (
            v.apart u (off / bsize) (omega arith) (omega arith) (ne_of_== (slot ip d u) 0 n)
              (p ∙ sym place)) in
          ground arith
    ]
  ])

  pub written_byte :
      (i : ℕ)
      → i < maxfile * bsize
      → byte_of ip written i
        ≡ (if leb off i && ltb i (off + length bs) then get_or bs (i - off) 0 else byte_of ip d i)
  written_byte i lt = elim (Bool-cases (leb off i && ltb i (off + length bs))) [
    | inl within ↦
        let index : i % bsize - off % bsize ≡ i - off = ground arith in
        let t1 : (i / bsize == off / bsize) ≡ true = ground arith in
        let t2 : leb (off % bsize) (i % bsize) ≡ true = ground arith in
        let t3 : ltb (i % bsize) (off % bsize + length bs) ≡ true = ground arith in
        written_at (i / bsize) (i % bsize) (omega arith)
        ∙ rw within (rw t1 (rw t2 (rw t3 (rw index refl))))
    | inr out ↦
        let no : (i / bsize == off / bsize
              && leb (off % bsize) (i % bsize)
              && ltb (i % bsize) (off % bsize + length bs))
            ≡ false =
          ground arith in
        written_at (i / bsize) (i % bsize) (omega arith) ∙ rw out (rw no refl)
  ]
