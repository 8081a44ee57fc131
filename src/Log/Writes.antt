-- ===== src/Log/Writes.antt =====
-- The loops of commit and of recovery, as lists of writes, whole and cut off.
use os_lab.Prelude.{
  ℕ, ◌<◌, ◌≡◌, if◌then◌else◌, ◌+◌, arith, ◌∙◌, [], refl, Bool-cases, false, take, ◌==◌, inl, suc,
  ap, inr, zero, length, ◌∷◌, List, ◌++◌, ◌≤◌, ◌-◌, ltb,
}
use os_lab.Log.{
  Header, write_log_from, install_from, Blocks, Disk, store, is_logged, Write, do_write, do_writes,
  to_home, to_area, to_head, ltb, recover_from_log, install_trans, write_head,
}

pub take_within : (n : ℕ) (xs ys : List Write) → n ≤ length xs → take n (xs ++ ys) ≡ take n xs
take_within zero xs ys h = refl
take_within (suc n) [] ys h = absurd (omega arith)
take_within (suc n) (x ∷ xs) ys h =
    ap (λ (l : List Write). x ∷ l) (take_within n xs ys (omega arith))

pub take_beyond :
    (n : ℕ) (xs ys : List Write) → length xs ≤ n → take n (xs ++ ys) ≡ xs ++ take (n - length xs) ys
take_beyond n [] ys h = let e : n ≡ n - 0 = omega arith in ap (λ (m : ℕ). take m ys) e
take_beyond zero (x ∷ xs) ys h = absurd (omega arith)
take_beyond (suc n) (x ∷ xs) ys h =
    let e : n - length xs ≡ suc n - suc (length xs) = omega arith in
    ap (λ (l : List Write). x ∷ l) (take_beyond n xs ys (omega arith))
    ∙ ap (λ (m : ℕ). (x ∷ xs) ++ take m ys) e

pub take_all : (n : ℕ) (xs : List Write) → length xs ≤ n → take n xs ≡ xs
take_all zero [] h = refl
take_all (suc n) [] h = refl
take_all zero (x ∷ xs) h = absurd (omega arith)
take_all (suc n) (x ∷ xs) h = ap (λ (l : List Write). x ∷ l) (take_all n xs (omega arith))

pub do_writes-append :
    (xs ys : List Write) (d : Disk) → do_writes (xs ++ ys) d ≡ do_writes ys (do_writes xs d)
unfolding do_writes
do_writes-append [] ys d = refl
do_writes-append (x ∷ xs) ys d = do_writes-append xs ys (do_write x d)

pub do_writes-head :
    (h : Header) (d : Disk) → do_writes (to_head h ∷ []) d ≡ record d { disk_head = h }
unfolding do_writes do_write
do_writes-head h d = refl

pub length-append_one : (xs : List Write) (w : Write) → length (xs ++ w ∷ []) ≡ length xs + 1
length-append_one [] w = refl
length-append_one (x ∷ xs) w = omega (arith, length-append_one xs w)

pub take-length : (h : Header) → take (length h) h ≡ h
take-length [] = refl
take-length (x ∷ xs) = ap (λ (l : Header). x ∷ l) (take-length xs)

pub nil_of_length : (h : Header) → ltb 0 (length h) ≡ false → h ≡ []
nil_of_length [] e = refl
nil_of_length (x ∷ xs) e = absurd (ground arith)

-- A part of a loop's writes is the loop over a part of the header.
pub take-write_log :
    (n tail : ℕ) (h : Header) (cache : Blocks)
    → take n (write_log_from tail h cache) ≡ write_log_from tail (take n h) cache
unfolding write_log_from
take-write_log zero tail h cache = refl
take-write_log (suc n) tail [] cache = refl
take-write_log (suc n) tail (b ∷ bs) cache =
    ap (λ (l : List Write). to_area tail (cache b) ∷ l) (take-write_log n (tail + 1) bs cache)

pub take-install :
    (n tail : ℕ) (h : Header) (area : Blocks)
    → take n (install_from tail h area) ≡ install_from tail (take n h) area
unfolding install_from
take-install zero tail h area = refl
take-install (suc n) tail [] area = refl
take-install (suc n) tail (b ∷ bs) area =
    ap (λ (l : List Write). to_home b (area tail) ∷ l) (take-install n (tail + 1) bs area)

pub length-write_log :
    (tail : ℕ) (h : Header) (cache : Blocks) → length (write_log_from tail h cache) ≡ length h
unfolding write_log_from
length-write_log tail [] cache = refl
length-write_log tail (b ∷ bs) cache = ap suc (length-write_log (tail + 1) bs cache)

pub length-install :
    (tail : ℕ) (h : Header) (area : Blocks) → length (install_from tail h area) ≡ length h
unfolding install_from
length-install tail [] area = refl
length-install tail (b ∷ bs) area = ap suc (length-install (tail + 1) bs area)

-- The log blocks from `tail` on hold the new contents of the logged blocks.
abbrev pub Holds : ℕ → Header → Blocks → Blocks → Type 0
Holds tail [] cache area = Unit {0}
Holds tail (b ∷ bs) cache area = (area tail ≡ cache b) × Holds (tail + 1) bs cache area

pub write_log_below :
    (tail : ℕ) (h : Header) (cache : Blocks) (d : Disk) (j : ℕ)
    → j < tail
    → (do_writes (write_log_from tail h cache) d).area j ≡ d.area j
unfolding write_log_from do_writes do_write
write_log_below tail [] cache d j lt = refl
write_log_below tail (b ∷ bs) cache d j lt =
    write_log_below (tail + 1) bs cache (record d { area = store d.area tail (cache b) }) j
      (omega arith)
    ∙ ground arith

pub write_log_keeps :
    (tail : ℕ) (h : Header) (cache : Blocks) (d : Disk)
    → ((do_writes (write_log_from tail h cache) d).home ≡ d.home)
      × ((do_writes (write_log_from tail h cache) d).disk_head ≡ d.disk_head)
unfolding write_log_from do_writes do_write
write_log_keeps tail [] cache d = (refl, refl)
write_log_keeps tail (b ∷ bs) cache d =
    write_log_keeps (tail + 1) bs cache (record d { area = store d.area tail (cache b) })

pub write_log-Holds :
    (tail : ℕ) (h : Header) (cache : Blocks) (d : Disk)
    → Holds tail h cache (do_writes (write_log_from tail h cache) d).area
unfolding write_log_from do_writes do_write
write_log-Holds tail [] cache d = tt
write_log-Holds tail (b ∷ bs) cache d =
    let d' : Disk = record d { area = store d.area tail (cache b) } in
    (
      write_log_below (tail + 1) bs cache d' tail (omega arith) ∙ ground arith,
      write_log-Holds (tail + 1) bs cache d',
    )

pub install_keeps :
    (tail : ℕ) (h : Header) (area : Blocks) (d : Disk)
    → ((do_writes (install_from tail h area) d).area ≡ d.area)
      × ((do_writes (install_from tail h area) d).disk_head ≡ d.disk_head)
unfolding install_from do_writes do_write
install_keeps tail [] area d = (refl, refl)
install_keeps tail (b ∷ bs) area d =
    install_keeps (tail + 1) bs area (record d { home = store d.home b (area tail) })

-- The disk after the transaction: logged blocks have the contents that the cache holds.
abbrev pub new_home : Header → Blocks → Blocks → Blocks
new_home h cache home b = if is_logged b h then cache b else home b

pub install_lem :
    (tail : ℕ) (h : Header) (cache area : Blocks) (d : Disk)
    → Holds tail h cache area
    → (b : ℕ) → (do_writes (install_from tail h area) d).home b ≡ new_home h cache d.home b
unfolding install_from do_writes do_write
install_lem tail [] cache area d holds b = refl
install_lem tail (x ∷ xs) cache area d (here, rest) b =
    install_lem (tail + 1) xs cache area (record d { home = store d.home x (area tail) }) rest b
    ∙ elim (Bool-cases (x == b)) [
      | inl e ↦ let at : x ≡ b = ground arith in ground (arith, here, ap cache at)
      | inr e ↦ ground arith
    ]

pub logged_take : (b n : ℕ) (h : Header) → is_logged b h ≡ false → is_logged b (take n h) ≡ false
logged_take b zero h e = refl
logged_take b (suc n) [] e = refl
logged_take b (suc n) (x ∷ xs) e = ground (arith, logged_take b n xs)

pub Holds-take :
    (n tail : ℕ) (h : Header) (cache area : Blocks)
    → Holds tail h cache area
    → Holds tail (take n h) cache area
Holds-take zero tail h cache area hs = tt
Holds-take (suc n) tail [] cache area hs = tt
Holds-take (suc n) tail (b ∷ bs) cache area (here, rest) =
    (here, Holds-take n (tail + 1) bs cache area rest)

-- Recovery with an empty header, and with one whose log blocks are there.
pub recover_none : (d : Disk) → d.disk_head ≡ [] → (b : ℕ) → (recover_from_log d).home b ≡ d.home b
unfolding recover_from_log install_trans write_head install_from do_writes do_write
recover_none d e b = rw e refl

pub recover_some :
    (d : Disk) (h : Header) (cache : Blocks)
    → d.disk_head ≡ h
    → Holds 0 h cache d.area
    → (b : ℕ) → (recover_from_log d).home b ≡ new_home h cache d.home b
unfolding recover_from_log install_trans write_head
recover_some d h cache e hs b =
    ap (λ (x : Header). (do_writes (install_from 0 x d.area ++ to_head [] ∷ []) d).home b) e
    ∙ (ap (λ (m : Disk). m.home b)
          (do_writes-append (install_from 0 h d.area) (to_head [] ∷ []) d
            ∙ do_writes-head [] (do_writes (install_from 0 h d.area) d))
        ∙ install_lem 0 h cache d.area d hs b)
