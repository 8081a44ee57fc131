-- ===== src/Fs/Content/Write.antt =====
-- The loop of writei on a sound inode.
pub mod Round
pub mod Needs
use os_lab.Prelude.{
  ℕ, ◌+◌, ◌*◌, ◌/◌, ◌%◌, ◌-◌, ◌<◌, ◌≤◌, ◌≡◌, ◌≢◌, ◌==◌, ◌&&◌, if◌then◌else◌, true, false, arith,
  refl, Bool-cases, inl, inr, ◌∙◌, sym, get_or, ltb, leb, List, length, ne_of_==, take, drop, ap,
  ◌⊎◌, length-take, length-drop, get_or-take, get_or-drop, eq_of_==, zero, [],
}
use os_lab.Fs.{
  Block, Disk, Superblock, bsize, put_block, put_bytes, bblock, iblock, Result, panic,
  out_of_blocks, ok, suc, ◌∷◌,
}
use os_lab.Fs.Inodes.{Inode}
use os_lab.Fs.Content.{maxfile, take, drop, chunk, write_blocks}
use os_lab.Fs.Content.Slots.{ind, slot, byte_of, IsSound, IsData}
use os_lab.Fs.Content.Map.{HasMap-put_block, Mapped}
use os_lab.Fs.Content.Bmap.{slot-ind, bmap_outcome}
use os_lab.Fs.Content.Short.{
  Short, Wanted, Stays, Spends, Short-widen, Short-trans, Stays-trans, Spends-trans, Spends-widen,
}
use os_lab.Fs.Blocks.Bits.{HasBytes}
use os_lab.Fs.Content.Write.Needs.{last_block, Wanted-now, Stays-round, Spends-rounds, Short-rounds}
use os_lab.Fs.Content.Write.Round.{
  AreBytes, written, written_byte, IsSound-written, written-slot, written-used,
}

-- What a write of `src` at `off` leaves.
pub record Written (sb : Superblock) (ip : Inode) (d : Disk) (src : List ℕ) (off : ℕ) (ip' : Inode)
    (d' : Disk) : Type 0 where
  pub sound : IsSound sb ip' d'
  pub fields : record ip' { addrs = ip.addrs } ≡ ip
  pub bytes :
      (i : ℕ)
      → i < maxfile * bsize
      → byte_of ip' d' i
        ≡ (if leb off i && ltb i (off + length src) then get_or src (i - off) 0 else byte_of ip d i)
  pub present : (i : ℕ) → off ≤ i → i < off + length src → slot ip' d' (i / bsize) ≢ 0
  pub stay : Stays ip d ip' d'
  pub spent : Spends sb (off / bsize) (last_block off src) ip d ip' d'

abbrev WriteOutcome : Superblock → Inode → Disk → List ℕ → ℕ → Result (Inode × Disk) → Type 0
WriteOutcome sb ip d src off r =
    ((r ≡ panic out_of_blocks) × Short sb (off / bsize) (last_block off src) ip d)
    ⊎ ((ip' : Inode) × (d' : Disk) × (r ≡ ok (ip', d')) × Written sb ip d src off ip' d')

Written-none :
    (sb : Superblock) (ip : Inode) (d : Disk) (src : List ℕ) (off : ℕ)
    → IsSound sb ip d
    → length src ≡ 0
    → Written sb ip d src off ip d
Written-none sb ip d src off v e = record {
  sound = v;
  fields = refl;
  bytes = λ i lt. ground arith;
  present = λ i lo hi. absurd (omega arith);
  stay = λ u le n. refl;
  spent = λ c lc free. inl free;
}

-- A round and the rounds after it.
Written-more :
    (sb : Superblock) (ip ip1 ip2 : Inode) (d d1 d2 : Disk) (src : List ℕ) (off m b : ℕ)
    → IsSound sb ip d
    → (le : m ≤ length src) → 0 < m
    → off % bsize + m ≤ bsize
    → off < maxfile * bsize
    → (fits : off % bsize + length (take m src) ≤ bsize) → (wide : AreBytes (take m src))
    → (lt : off < maxfile * bsize) → (p : Mapped sb ip d (off / bsize) b ip1 d1)
    → Written sb ip1
        (written sb ip1 d1 p.sound off b (take m src) wide lt fits p.place p.exists)
        (drop m src)
        (off + m)
        ip2
        d2
    → Written sb ip d src off ip2 d2
Written-more sb ip ip1 ip2 d d1 d2 src off m b v le pos_m small start fits wide lt p w = record {
  sound = w.sound;
  fields = ap (λ (x : Inode). record x { addrs = ip.addrs }) w.fields ∙ p.fields;
  bytes = λ i li. ground (
    arith,
    w.bytes i li,
    written_byte sb ip1 d1 p.sound off b (take m src) wide lt fits p.place p.exists i li,
    p.content i li,
    length-take m src,
    length-drop m src,
    get_or-take m src (i - off) 0,
    get_or-drop m src (i - (off + m)) 0,
    index i,
  );
  present = λ i lo hi. elim (Bool-cases (ltb i (off + m))) [
    | inr far ↦ w.present i (ground arith) (ground (arith, length-drop m src))
    | inl near ↦
        let same : i / bsize ≡ off / bsize = ground arith in
        let there : slot ip1 here (off / bsize) ≡ b =
          written-slot sb ip1 d1 p.sound off b (take m src) wide lt fits p.place p.exists
            (off / bsize)
          ∙ p.place in
        rw same (λ z. p.exists (
          sym there
          ∙ (sym (w.stay (off / bsize) (omega arith) (λ y. p.exists (sym there ∙ y))) ∙ z)))
  ];
  stay =
      Stays-trans ip ip1 ip2 d here d2
        (Stays-round sb ip ip1 d d1 v src off m b le (omega arith) fits wide lt p) w.stay;
  spent =
      Spends-rounds sb ip ip1 d d1 v src off m b le (omega arith) fits wide lt p ip2 d2 w.stay
        w.spent;
}
  where
    here : Disk
    here = written sb ip1 d1 p.sound off b (take m src) wide lt fits p.place p.exists

    index : (i : ℕ) → off + m ≤ i → m + (i - (off + m)) ≡ i - off
    index i h = omega arith

AreBytes-take : (n : ℕ) (bs : List ℕ) → AreBytes bs → AreBytes (take n bs)
AreBytes-take zero bs h i = omega arith
AreBytes-take (suc n) [] h i = omega arith
AreBytes-take (suc n) (b ∷ bs) h zero = h 0
AreBytes-take (suc n) (b ∷ bs) h (suc i) = AreBytes-take n bs (λ j. h (suc j)) i

AreBytes-drop : (n : ℕ) (bs : List ℕ) → AreBytes bs → AreBytes (drop n bs)
AreBytes-drop n bs h i = rw (get_or-drop n bs i 0) (h (n + i))

pub chunk_bounds :
    (left off : ℕ)
    → 0 < left
    → (chunk left off ≤ left) × (0 < chunk left off) × (off % bsize + chunk left off ≤ bsize)
chunk_bounds left off h = ground arith

pub write_blocks_lem :
    (n : ℕ) (sb : Superblock) (src : List ℕ) (off : ℕ) (ip : Inode) (d : Disk)
    → IsSound sb ip d
    → AreBytes src
    → off + length src ≤ maxfile * bsize
    → length src ≤ n
    → WriteOutcome sb ip d src off (write_blocks n sb src off ip d)
unfolding write_blocks
write_blocks_lem zero sb src off ip d v wide fits enough =
    inr (ip, d, refl, Written-none sb ip d src off v (omega arith))
write_blocks_lem (suc n) sb src off ip d v wide fits enough = elim (Bool-cases (length src == 0)) [
  | inl e ↦ rw e (inr (ip, d, refl, Written-none sb ip d src off v (eq_of_== (length src) 0 e)))
  | inr more ↦
      let some_left : 0 < length src = ground arith in
      let (le, pos_m, small) = chunk_bounds (length src) off some_left in
      let m : ℕ = chunk (length src) off in
      let taken : length (take m src) ≡ m = ground (arith, length-take m src) in
      rw more (elim (bmap_outcome sb ip d (off / bsize) v (omega arith)) [
        | inl (e, short) ↦ rw e (
            inl (
              refl,
              Short-widen sb (off / bsize) (off / bsize) (off / bsize) (last_block off src) ip d
                  (λ u. Wanted-now off src u some_left) short,
            ))
        | inr (b, ip1, d1, e, p) ↦
            let fit : off % bsize + length (take m src) ≤ bsize = omega arith in
            let start : off < maxfile * bsize = omega arith in
            let wide' : AreBytes (take m src) = AreBytes-take m src wide in
            let w =
              IsSound-written sb ip1 d1 p.sound off b (take m src) wide' start fit p.place
                p.exists in
            rw e
              (elim (write_blocks_lem n sb (drop m src) (off + m) ip1
                (written sb ip1 d1 p.sound off b (take m src) wide' start fit p.place p.exists) w
                (AreBytes-drop m src wide) (omega (arith, length-drop m src))
                (omega (arith, length-drop m src))) [
                  | inl (f, short) ↦ inl (
                    f,
                    Short-rounds sb ip ip1 d d1 v src off m b le some_left fit wide' start p short,
                  )
                  | inr (ip2, d2, f, q) ↦ inr (
                    ip2,
                    d2,
                    f,
                    Written-more sb ip ip1 ip2 d d1 d2 src off m b v le pos_m small start fit wide'
                        start p q,
                  )
                ])
      ])
]
