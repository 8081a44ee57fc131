-- ===== src/Log/Crash.antt =====
-- A crash in the middle of a commit: what recovery makes of the disk.
use os_lab.Prelude.{
  ℕ, ◌<◌, ◌≡◌, if◌then◌else◌, ◌+◌, arith, ◌∙◌, [], refl, Bool-cases, false, take, inl, suc, ap,
  subst, inr, sym, length, ◌∷◌, List, ◌++◌, ◌≤◌, leb, ◌-◌, ltb, true,
}
use os_lab.Log.{
  Header, write_log_from, install_from, Blocks, Disk, is_logged, Log, Write, install_trans,
  recover_from_log, write_head, do_write, do_writes, to_head, commit_writes, commit, write_log, ltb,
  true,
}
use os_lab.Log.Writes.{
  recover_none, recover_some, take_within, take_beyond, take_all, do_writes-append, do_writes-head,
  length-append_one, take-length, nil_of_length, take-write_log, take-install, length-write_log,
  length-install, Holds, write_log_keeps, write_log-Holds, install_keeps, new_home, install_lem,
  logged_take, Holds-take,
}

module _ (l : Log) (clear : l.disk.disk_head ≡ []) where
  -- The disk while the log blocks are written, of which `n` are written.
  abbrev logging : ℕ → Disk
  logging n = do_writes (write_log_from 0 (take n l.lh) l.cache) l.disk

  abbrev logged : Disk
  logged = do_writes (write_log_from 0 l.lh l.cache) l.disk

  -- The disk once the header is written, and `n` blocks are installed.
  abbrev installing : ℕ → Disk
  installing n =
      do_writes (install_from 0 (take n l.lh) logged.area) (record logged { disk_head = l.lh })

  before_commit : (n b : ℕ) → (recover_from_log (logging n)).home b ≡ l.disk.home b
  before_commit n b =
      let (home, head) = write_log_keeps 0 (take n l.lh) l.cache l.disk in
      recover_none (logging n) (head ∙ clear) b ∙ ap (λ (m : Blocks). m b) home

  holds : Holds 0 l.lh l.cache logged.area
  holds = write_log-Holds 0 l.lh l.cache l.disk

  home_installing : (n b : ℕ) → (installing n).home b ≡ new_home (take n l.lh) l.cache l.disk.home b
  home_installing n b =
      install_lem 0 (take n l.lh) l.cache logged.area (record logged { disk_head = l.lh })
        (Holds-take n 0 l.lh l.cache logged.area holds) b
      ∙ ap (λ (m : Blocks). new_home (take n l.lh) l.cache m b)
          (write_log_keeps 0 l.lh l.cache l.disk).0

  after_commit :
      (n b : ℕ) → (recover_from_log (installing n)).home b ≡ new_home l.lh l.cache l.disk.home b
  after_commit n b =
      let (area, head) =
        install_keeps 0 (take n l.lh) logged.area (record logged { disk_head = l.lh }) in
      recover_some (installing n) l.lh l.cache head (subst (Holds 0 l.lh l.cache) (sym area) holds)
        b
      ∙ elim (Bool-cases (is_logged b l.lh)) [
        | inl e ↦ rw e refl
        | inr e ↦ rw e (home_installing n b ∙ rw (logged_take b n l.lh e) refl)
      ]

  -- The writes of a commit of some blocks, up to and from the header on.
  tail_writes : List Write
  tail_writes = install_from 0 l.lh logged.area ++ to_head [] ∷ []

  abbrev some_writes : List Write
  some_writes = write_log_from 0 l.lh l.cache ++ to_head l.lh ∷ tail_writes

  up_to_header : (n : ℕ) → n ≤ length l.lh → do_writes (take n some_writes) l.disk ≡ logging n
  up_to_header n le =
      ap (λ (ws : List Write). do_writes ws l.disk)
        (take_within n (write_log_from 0 l.lh l.cache) (to_head l.lh ∷ tail_writes)
            (omega (arith, length-write_log 0 l.lh l.cache))
          ∙ take-write_log n 0 l.lh l.cache)

  from_header :
      (k : ℕ)
      → do_writes (take (length l.lh + suc k) some_writes) l.disk
        ≡ do_writes (take k tail_writes) (record logged { disk_head = l.lh })
  unfolding do_writes do_write
  from_header k =
      let len = length-write_log 0 l.lh l.cache in
      let at : length l.lh + suc k - length (write_log_from 0 l.lh l.cache) ≡ suc k = omega arith in
      ap (λ (ws : List Write). do_writes ws l.disk)
        (take_beyond (length l.lh + suc k) (write_log_from 0 l.lh l.cache)
            (to_head l.lh ∷ tail_writes) (omega arith)
          ∙ ap (λ (m : ℕ). write_log_from 0 l.lh l.cache ++ take m (to_head l.lh ∷ tail_writes)) at)
      ∙ do_writes-append (write_log_from 0 l.lh l.cache) (to_head l.lh ∷ take k tail_writes) l.disk

  -- What is left once every block is installed and the header is cleared.
  abbrev finished : Disk
  finished = record (installing (length l.lh)) { disk_head = [] }

  installing_some :
      (k : ℕ)
      → k ≤ length l.lh
      → do_writes (take k tail_writes) (record logged { disk_head = l.lh }) ≡ installing k
  unfolding tail_writes
  installing_some k le =
      ap (λ (ws : List Write). do_writes ws (record logged { disk_head = l.lh }))
        (take_within k (install_from 0 l.lh logged.area) (to_head [] ∷ [])
            (omega (arith, length-install 0 l.lh logged.area))
          ∙ take-install k 0 l.lh logged.area)

  installing_all : do_writes tail_writes (record logged { disk_head = l.lh }) ≡ finished
  unfolding tail_writes
  installing_all =
      let all : take (length l.lh) l.lh ≡ l.lh = take-length l.lh in
      do_writes-append (install_from 0 l.lh logged.area) (to_head [] ∷ [])
        (record logged { disk_head = l.lh })
      ∙ (do_writes-head []
            (do_writes (install_from 0 l.lh logged.area) (record logged { disk_head = l.lh }))
          ∙ rw all refl)

  finished_home : (b : ℕ) → finished.home b ≡ new_home l.lh l.cache l.disk.home b
  finished_home b = home_installing (length l.lh) b ∙ rw (take-length l.lh) refl

  after_header :
      (k b : ℕ)
      → (recover_from_log
            (do_writes (take k tail_writes) (record logged { disk_head = l.lh }))).home
          b
        ≡ new_home l.lh l.cache l.disk.home b
  unfolding tail_writes
  after_header k b = elim (Bool-cases (leb k (length l.lh))) [
    | inl le ↦ rw (installing_some k (ground arith)) (after_commit k b)
    | inr gt ↦
        let all = take_all k tail_writes (length_tail k (ground arith)) in
        rw all (rw installing_all (recover_none finished refl b ∙ finished_home b))
  ]
    where
      length_tail : (k : ℕ) → length l.lh < k → length tail_writes ≤ k
      length_tail k lt = omega (
        arith,
        length-append_one (install_from 0 l.lh logged.area) (to_head []),
        length-install 0 l.lh logged.area,
      )

  from_n :
      (n k b : ℕ)
      → n ≡ length l.lh + suc k
      → (recover_from_log (do_writes (take n some_writes) l.disk)).home b
        ≡ new_home l.lh l.cache l.disk.home b
  from_n n k b e =
      ap (λ (m : ℕ). (recover_from_log (do_writes (take m some_writes) l.disk)).home b) e
      ∙ (ap (λ (d : Disk). (recover_from_log d).home b) (from_header k) ∙ after_header k b)

  crash_some :
      (n b : ℕ)
      → (recover_from_log (do_writes (take n some_writes) l.disk)).home b
        ≡ (if leb n (length l.lh) then l.disk.home b else new_home l.lh l.cache l.disk.home b)
  crash_some n b = elim (Bool-cases (leb n (length l.lh))) [
    | inl le ↦ rw le (
        ap (λ (d : Disk). (recover_from_log d).home b) (up_to_header n (ground arith))
        ∙ before_commit n b)
    | inr gt ↦
        let over : length l.lh < n = ground arith in
        rw gt (from_n n (n - length l.lh - 1) b (omega arith))
  ]

  all_some : do_writes some_writes l.disk ≡ finished
  unfolding do_writes do_write
  all_some =
      do_writes-append (write_log_from 0 l.lh l.cache) (to_head l.lh ∷ tail_writes) l.disk
      ∙ installing_all

  writes_some : ltb 0 (length l.lh) ≡ true → commit_writes l ≡ some_writes
  unfolding commit_writes write_log write_head install_trans tail_writes
  writes_some t = rw t refl

  writes_none : ltb 0 (length l.lh) ≡ false → commit_writes l ≡ []
  unfolding commit_writes
  writes_none t = rw t refl

  same_home : (b : ℕ) → l.lh ≡ [] → l.disk.home b ≡ new_home l.lh l.cache l.disk.home b
  same_home b e = ap (λ (h : Header). new_home h l.cache l.disk.home b) (sym e)

  crash_none :
      (n b : ℕ)
      → l.lh ≡ []
      → (recover_from_log (do_writes (take n []) l.disk)).home b
        ≡ (if leb n (length l.lh) then l.disk.home b else new_home l.lh l.cache l.disk.home b)
  unfolding do_writes
  crash_none n b e =
      ap (λ (ws : List Write). (recover_from_log (do_writes ws l.disk)).home b)
        (take_all n [] (omega arith))
      ∙ (recover_none l.disk clear b ∙ elim (Bool-cases (leb n (length l.lh))) [
        | inl le ↦ rw le refl
        | inr gt ↦ rw gt (same_home b e)
      ])

-- From a disk whose header is empty, a commit is atomic in a crash. If the system stops after any
-- number `n` of the writes that commit makes, in their order, recovery leaves every home block as it
-- was before the transaction as long as the header is not among these writes, that is, `n` is at most
-- the number of logged blocks. From then on recovery gives every logged block the contents of the
-- cache and leaves the others. The commit that runs to its end leaves the same home blocks, and an
-- empty header on disk and in memory.
pub commit_atomic :
    (l : Log)
    → l.disk.disk_head ≡ []
    → ((n b : ℕ)
        → (recover_from_log (do_writes (take n (commit_writes l)) l.disk)).home b
          ≡ (if leb n (length l.lh) then l.disk.home b else new_home l.lh l.cache l.disk.home b))
      × ((b : ℕ) → (commit l).disk.home b ≡ new_home l.lh l.cache l.disk.home b)
      × ((commit l).disk.disk_head ≡ [])
      × ((commit l).lh ≡ [])
unfolding commit do_writes
commit_atomic l clear = elim (Bool-cases (ltb 0 (length l.lh))) [
  | inl t ↦
      let w = writes_some l clear t in
      let end = ap (λ (ws : List Write). do_writes ws l.disk) w ∙ all_some l clear in
      (
        λ n b.
            ap (λ (ws : List Write). (recover_from_log (do_writes (take n ws) l.disk)).home b) w
            ∙ crash_some l clear n b,
        λ b. ap (λ (d : Disk). d.home b) end ∙ finished_home l clear b,
        ap (λ (d : Disk). d.disk_head) end,
        refl,
      )
  | inr t ↦
      let w = writes_none l clear t in
      let none_logged = nil_of_length l.lh t in
      let end = ap (λ (ws : List Write). do_writes ws l.disk) w in
      (
        λ n b.
            ap (λ (ws : List Write). (recover_from_log (do_writes (take n ws) l.disk)).home b) w
            ∙ crash_none l clear n b none_logged,
        λ b. ap (λ (d : Disk). d.home b) end ∙ same_home l clear b none_logged,
        ap (λ (d : Disk). d.disk_head) end ∙ clear,
        refl,
      )
]
