-- ===== src/Proc/Choose/RoundRobin.antt =====
-- The do-while of the RR branch visits the whole table, from nextrrp on and round its end.
use os_lab.Kernel.State.{Proc}
use os_lab.Prelude.{
  List, ℕ, length, ◌≤◌, ◌<◌, ◌≡◌, some, ◌+◌, get_elem?, none, false, true, arith, suc, Bool-cases,
  zero, inl, inr, ◌⊎◌, ◌==◌, refl, ltb, ap, if◌then◌else◌, leb, ◌-◌,
}
use os_lab.Proc.Choose.{rr_scan, rr_here, advance}

-- How many entries a search that begins at `p` passes before it comes to `i`.
abbrev pub ahead : ℕ → ℕ → ℕ → ℕ
ahead n i p = if leb p i then i - p else i + n - p

pub ahead-advance :
    (n i p : ℕ) → i < n → p < n → (p == i) ≡ false → ahead n i (advance n p) + 1 ≡ ahead n i p
ahead-advance n i p hi hp ne = ground arith

pub advance_lt : (n p : ℕ) → p < n → advance n p < n
advance_lt n p hp = ground arith

module _ (ps : List Proc) (start : ℕ) where
  abbrev n : ℕ
  n = length ps

  abbrev Clear : ℕ → ℕ → Type 0
  Clear lo hi = (m : ℕ) → lo ≤ m → m < hi → rr_here (get_elem? ps m) ≡ false

  -- What is found can be run.
  pub rr_found : (fuel p i : ℕ) → rr_scan fuel ps start p ≡ some i → rr_here (get_elem? ps i) ≡ true
  unfolding rr_scan
  rr_found zero p i h = cc
  rr_found (suc fuel) p i h = elim (Bool-cases (rr_here (get_elem? ps p))) [
    | inl hit ↦ ground arith
    | inr miss ↦ ground (arith, rr_found fuel (advance n p) i)
  ]

  -- One failing step: the entry is no candidate, and the scan has come round or goes on.
  rr_step :
      (fuel p : ℕ)
      → rr_scan (suc fuel) ps start p ≡ none
      → (rr_here (get_elem? ps p) ≡ false)
        × ((advance n p ≡ start) ⊎ (rr_scan fuel ps start (advance n p) ≡ none))
  unfolding rr_scan
  rr_step fuel p h = (
    ground arith,
    elim (Bool-cases (advance n p == start)) [
      | inl e ↦ inl (ground arith)
      | inr e ↦ inr (ground arith)
    ],
  )

  Clear-cons : (lo hi : ℕ) → rr_here (get_elem? ps lo) ≡ false → Clear (lo + 1) hi → Clear lo hi
  Clear-cons lo hi here rest m le lt = elim (Bool-cases (lo == m)) [
    | inl e ↦ let at : lo ≡ m = ground arith in rw (← at) here
    | inr e ↦ rest m (ground arith) lt
  ]

  -- Before the start: what is left lies between the two.
  rr_low :
      (fuel p : ℕ)
      → p < start
      → start ≤ p + fuel
      → start < n
      → rr_scan fuel ps start p ≡ none
      → Clear p start
  rr_low zero p lt enough in_table h = absurd (omega arith)
  rr_low (suc fuel) p lt enough in_table h =
      let (here, rest) = rr_step fuel p h in
      let up : advance n p ≡ p + 1 = ground arith in
      Clear-cons p start here (elim rest [
        | inl e ↦ λ m le lt'. absurd (omega arith)
        | inr e ↦ elim (Bool-cases ((p + 1) == start)) [
          | inl at ↦ λ m le lt'. absurd (ground arith)
          | inr ne ↦ rr_low fuel (p + 1) (ground arith) (omega arith) in_table (rw (← up) e)
        ]
      ])

  -- From the start on: to the end of the table, and then from its beginning.
  rr_high :
      (fuel p : ℕ)
      → start ≤ p
      → p < n
      → n + start ≤ p + fuel
      → rr_scan fuel ps start p ≡ none
      → Clear p n × Clear 0 start
  rr_high zero p le lt enough h = absurd (omega arith)
  rr_high (suc fuel) p le lt enough h =
      let (here, rest) = rr_step fuel p h in
      elim (Bool-cases ((p + 1) == n)) [
        | inl last ↦
            let up : advance n p ≡ 0 = rw last refl in
            (
              Clear-cons p n here (λ m lo hi. absurd (ground arith)),
              elim (rw up at rest) [
                | inl e ↦ λ m lo hi. absurd (omega arith)
                | inr e ↦ elim (Bool-cases (start == 0)) [
                  | inl z ↦ λ m lo hi. absurd (ground arith)
                  | inr pos ↦ rr_low fuel 0 (ground arith) (ground arith) (omega arith) e
                ]
              ],
            )
        | inr more ↦
            let up : advance n p ≡ p + 1 = rw more refl in
            elim (rw up at rest) [
              | inl e ↦ absurd (omega arith)
              | inr e ↦
                  let (high, low) =
                    rr_high fuel (p + 1) (omega arith) (ground arith) (omega arith) e in
                  (Clear-cons p n here high, low)
            ]
      ]

  -- A scan that finds nothing has passed every entry.
  pub rr_none :
      start < n
      → rr_scan n ps start start ≡ none
      → (m : ℕ) → m < n
      → rr_here (get_elem? ps m) ≡ false
  rr_none lt h m hi =
      let (high, low) = rr_high n start (omega arith) lt (omega arith) h in
      elim (Bool-cases (ltb m start)) [
        | inl below ↦ low m (omega arith) (ground arith)
        | inr above ↦ high m (ground arith) hi
      ]

  -- What is found is the first candidate from `p` on and round the end.
  pub rr_first :
      (fuel p i m : ℕ)
      → p < n
      → i < n
      → m < n
      → rr_here (get_elem? ps m) ≡ true
      → rr_scan fuel ps start p ≡ some i
      → ahead n i p ≤ ahead n m p
  unfolding rr_scan
  rr_first zero p i m hp hi hm fits h = cc
  rr_first (suc fuel) p i m hp hi hm fits h = elim (Bool-cases (rr_here (get_elem? ps p))) [
    | inl hit ↦ let at : p ≡ i = ground arith in ground arith
    | inr miss ↦
        let later : rr_scan fuel ps start (advance n p) ≡ some i = ground arith in
        let ne : (p == m) ≡ false = apart p m miss fits in
        let ne' : (p == i) ≡ false = apart p i miss (rr_found fuel (advance n p) i later) in
        let near = ahead-advance n m p hm hp ne in
        let near' = ahead-advance n i p hi hp ne' in
        let rest = rr_first fuel (advance n p) i m (advance_lt n p hp) hi hm fits later in
        omega arith
  ]
    where
      apart :
          (p j : ℕ)
          → rr_here (get_elem? ps p) ≡ false
          → rr_here (get_elem? ps j) ≡ true
          → (p == j) ≡ false
      apart p j miss hit = elim (Bool-cases (p == j)) [
        | inr ne ↦ ne
        | inl e ↦
            let same : p ≡ j = ground arith in
            absurd (let hit' = ap (λ z. rr_here (get_elem? ps z)) same in ground arith)
      ]
