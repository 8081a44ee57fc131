-- ===== src/Fs/Content/Bmap.antt =====
-- bmap on a sound inode.
use os_lab.Prelude.{
  ℕ, ◌+◌, ◌*◌, ◌-◌, ◌<◌, ◌≡◌, ◌≢◌, ◌==◌, true, arith, refl, Bool-cases, inl, inr, ap, ◌∙◌, sym,
  get_or, ltb, eq_of_==, ne_of_==, subst, ◌≤◌,
}
use os_lab.Fs.{Disk, Superblock, ndirect, nindirect, uint_at, ok}
use os_lab.Fs.Inodes.{Inode}
use os_lab.Fs.Content.{maxfile, bmap_slot, bmap_entry, bmap}
use os_lab.Fs.Content.Slots.{ind, slot, IsSound, fresh_slot}
use os_lab.Fs.Content.Map.{
  with_addr, with_entry, Adds-direct, Adds-indirect, Adds-entry, Mapped, MapOutcome, Mapped-same,
  Mapped-Adds,
}
use os_lab.Fs.Content.Short.{
  Short, Wanted, Short-now, Short-widen, Short-trans, Stays-trans, Spends-trans, Spends-widen,
}
use os_lab.Fs.Blocks.Alloc.{Takes, balloc_lem}
use os_lab.Fs.Content.Slots.{kept}
use os_lab.Log.{ok}

module _ (sb : Superblock) (ip : Inode) (d : Disk) (v : IsSound sb ip d) where
  direct_lem : (i : ℕ) → i < ndirect → MapOutcome sb ip d i (bmap_slot sb i ip d)
  unfolding bmap_slot
  direct_lem i lt = elim (Bool-cases (get_or ip.addrs i 0 == 0)) [
    | inr there ↦
        let is : slot ip d i ≡ get_or ip.addrs i 0 = unfold slot in ground arith in
        let at : slot ip d i ≢ 0 = λ z. ne_of_== (get_or ip.addrs i 0) 0 there (sym is ∙ z) in
        rw there (inr (get_or ip.addrs i 0, ip, d, refl, rw is at (Mapped-same sb ip d i v at)))
    | inl none_there ↦
        let zero_slot : slot ip d i ≡ 0 = unfold slot in ground arith in
        rw none_there (elim (balloc_lem sb d v.map) [
          | inl (e, full) ↦ rw e (inl (refl, Short-now sb i ip d v (omega arith) zero_slot full))
          | inr (b, d1, e, t, first) ↦ rw e (
              inr (
                b,
                with_addr sb ip d v b d1 t i,
                d1,
                refl,
                Mapped-Adds sb ip d v i b (omega arith) zero_slot d1 t
                    (with_addr sb ip d v b d1 t i) d1 (Adds-direct sb ip d v b d1 t i lt) refl
                    t.zeros (λ u lu n. kept sb ip d v b d1 t u (omega arith) n),
              ))
        ])
  ]

  indirect_lem : MapOutcome sb ip d maxfile (bmap_slot sb ndirect ip d)
  unfolding bmap_slot slot
  indirect_lem = elim (Bool-cases (ind ip == 0)) [
    | inr there ↦
        rw there
          (inr (ind ip, ip, d, refl, Mapped-same sb ip d maxfile v (ne_of_== (ind ip) 0 there)))
    | inl none_there ↦ rw none_there (elim (balloc_lem sb d v.map) [
      | inl (e, full) ↦ rw e (
          inl
            (refl, Short-now sb maxfile ip d v (omega arith) (eq_of_== (ind ip) 0 none_there) full))
      | inr (b, d1, e, t, first) ↦ rw e (
          inr (
            b,
            with_addr sb ip d v b d1 t ndirect,
            d1,
            refl,
            Mapped-Adds sb ip d v maxfile b (omega arith) (eq_of_== (ind ip) 0 none_there) d1 t
                (with_addr sb ip d v b d1 t ndirect) d1
                (Adds-indirect sb ip d v b d1 t (eq_of_== (ind ip) 0 none_there)) refl t.zeros
                (λ u lu n. kept sb ip d v b d1 t u (omega arith) n),
          ))
    ])
  ]

  entry_slot :
      (j : ℕ) → j < nindirect → ind ip ≢ 0 → slot ip d (j + ndirect) ≡ uint_at (d (ind ip)) (j * 4)
  unfolding slot
  entry_slot j lt n = let same : j + ndirect - ndirect ≡ j = omega arith in rw same (ground arith)

  pub slot-ind : slot ip d maxfile ≡ ind ip
  unfolding slot
  slot-ind = refl

  entry_zeros :
      (b : ℕ) (d1 : Disk) (t : Takes sb d b d1) (j : ℕ)
      → ind ip ≢ 0
      → (x : ℕ) → with_entry sb ip d v b d1 t j b x ≡ 0
  entry_zeros b d1 t j n x =
      let other : ind ip ≢ b =
        λ e. fresh_slot sb ip d v b d1 t maxfile (omega arith) (slot-ind ∙ e) in
      ground (arith, t.zeros x)

  entry_keeps :
      (b : ℕ) (d1 : Disk) (t : Takes sb d b d1) (j : ℕ)
      → ind ip ≢ 0
      → (u : ℕ) → u < maxfile
      → slot ip d u ≢ 0
      → with_entry sb ip d v b d1 t j (slot ip d u) ≡ d (slot ip d u)
  entry_keeps b d1 t j n u lu nz =
      let other : slot ip d u ≢ ind ip = λ e.
        absurd
          (omega (arith, v.apart u maxfile (omega arith) (omega arith) nz (e ∙ sym slot-ind))) in
      ground (arith, kept sb ip d v b d1 t u (omega arith) nz)

  entry_lem :
      (j : ℕ)
      → j < nindirect
      → ind ip ≢ 0
      → MapOutcome sb ip d (j + ndirect) (bmap_entry sb j (ind ip) ip d)
  unfolding bmap_entry
  entry_lem j lt n = elim (Bool-cases (uint_at (d (ind ip)) (j * 4) == 0)) [
    | inr there ↦
        let is : slot ip d (j + ndirect) ≡ uint_at (d (ind ip)) (j * 4) = entry_slot j lt n in
        let at : slot ip d (j + ndirect) ≢ 0 =
          λ z. ne_of_== (uint_at (d (ind ip)) (j * 4)) 0 there (sym is ∙ z) in
        rw there (
          inr (
            uint_at (d (ind ip)) (j * 4),
            ip,
            d,
            refl,
            rw is at (Mapped-same sb ip d (j + ndirect) v at),
          ))
    | inl none_there ↦
        let zero_slot : slot ip d (j + ndirect) ≡ 0 =
          entry_slot j lt n ∙ eq_of_== (uint_at (d (ind ip)) (j * 4)) 0 none_there in
        rw none_there (elim (balloc_lem sb d v.map) [
          | inl (e, full) ↦
              rw e (inl (refl, Short-now sb (j + ndirect) ip d v (omega arith) zero_slot full))
          | inr (b, d1, e, t, first) ↦ rw e (
              inr (
                b,
                ip,
                with_entry sb ip d v b d1 t j,
                refl,
                Mapped-Adds sb ip d v (j + ndirect) b (omega arith) zero_slot d1 t ip
                    (with_entry sb ip d v b d1 t j) (Adds-entry sb ip d v b d1 t j lt n) refl
                    (entry_zeros b d1 t j n) (entry_keeps b d1 t j n),
              ))
        ])
  ]

Mapped-trans :
    (sb : Superblock) (ip ip1 ip2 : Inode) (d d1 d2 : Disk) (s u a b : ℕ)
    → IsSound sb ip d
    → ((w : ℕ) → Wanted s s w → Wanted u u w)
    → Mapped sb ip d s a ip1 d1
    → Mapped sb ip1 d1 u b ip2 d2
    → Mapped sb ip d u b ip2 d2
Mapped-trans sb ip ip1 ip2 d d1 d2 s u a b v more m n = record {
  sound = n.sound;
  place = n.place;
  exists = n.exists;
  fields = ap (λ (x : Inode). record x { addrs = ip.addrs }) n.fields ∙ m.fields;
  stay = Stays-trans ip ip1 ip2 d d1 d2 m.stay n.stay;
  content = λ i lt. n.content i lt ∙ m.content i lt;
  spent =
      Spends-trans sb u u ip ip1 d d1 v m.stay (Spends-widen sb s s u u ip ip1 d d1 more m.spent)
        ip2 d2 n.stay n.spent;
}

-- The indirect block is needed for a block that is not direct.
needs_indirect : (bn w : ℕ) → ndirect ≤ bn → Wanted maxfile maxfile w → Wanted bn bn w
needs_indirect bn w le (inl (lo, hi)) = inr (omega arith, le)
needs_indirect bn w le (inr (e, hi)) = inr (e, le)

pub bmap_outcome :
    (sb : Superblock) (ip : Inode) (d : Disk) (bn : ℕ)
    → IsSound sb ip d
    → bn < maxfile
    → MapOutcome sb ip d bn (bmap sb bn ip d)
unfolding bmap
bmap_outcome sb ip d bn v lt = elim (Bool-cases (ltb bn ndirect)) [
  | inl near ↦ rw near (direct_lem sb ip d v bn (ground arith))
  | inr far ↦
      let inside : ltb (bn - ndirect) nindirect ≡ true = ground arith in
      let more = λ (w : ℕ). needs_indirect bn w (ground arith) in
      rw far (
        rw inside (elim (indirect_lem sb ip d v) [
          | inl (e, short) ↦ rw e (inl (refl, Short-widen sb maxfile maxfile bn bn ip d more short))
          | inr (a, ip1, d1, e, m) ↦
              let at : ind ip1 ≡ a = sym (slot-ind sb ip1 d1 m.sound) ∙ m.place in
              let same : bn - ndirect + ndirect ≡ bn = ground arith in
              rw e
                (elim (entry_lem sb ip1 d1 m.sound (bn - ndirect) (ground arith)
                  (λ z. m.exists (sym at ∙ z))) [
                    | inl (f, short) ↦ inl (
                      rw (← at) f,
                      Short-trans sb bn bn ip ip1 d d1 v m.stay
                          (Spends-widen sb maxfile maxfile bn bn ip ip1 d d1 more m.spent)
                          (subst (λ (x : ℕ). Short sb x x ip1 d1) same short),
                    )
                    | inr (b, ip2, d2, f, n) ↦ inr (
                      b,
                      ip2,
                      d2,
                      rw (← at) f,
                      Mapped-trans sb ip ip1 ip2 d d1 d2 maxfile bn a b v more m
                          (subst (λ (x : ℕ). Mapped sb ip1 d1 x b ip2 d2) same n),
                    )
                  ])
        ]))
]

-- A block that is there is found, and nothing changes.
pub bmap_present :
    (sb : Superblock) (ip : Inode) (d : Disk) (bn : ℕ)
    → bn < maxfile
    → slot ip d bn ≢ 0
    → bmap sb bn ip d ≡ ok (slot ip d bn, ip, d)
unfolding bmap bmap_slot bmap_entry slot
bmap_present sb ip d bn lt n = ground arith

-- For a sound inode and a block of the content below MAXFILE: if the block is there, bmap gives it
-- and changes nothing. In any case bmap panics only for want of blocks: no more of them are free
-- than fill the empty slots that are needed, the block's own and, unless it is direct, that of the
-- indirect block, and one of these stays empty. Otherwise the inode is sound again, the block of the
-- content stands where bmap says, blocks that were there stay where they are, all fields but the
-- addresses are as before, so is every byte of the content, and no block is taken but for the empty
-- slots that are needed.
pub bmap_lem :
    (sb : Superblock) (ip : Inode) (d : Disk) (bn : ℕ)
    → IsSound sb ip d
    → bn < maxfile
    → (slot ip d bn ≢ 0 → bmap sb bn ip d ≡ ok (slot ip d bn, ip, d))
      × MapOutcome sb ip d bn (bmap sb bn ip d)
bmap_lem sb ip d bn v lt = (bmap_present sb ip d bn lt, bmap_outcome sb ip d bn v lt)
