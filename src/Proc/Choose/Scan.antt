-- ===== src/Proc/Choose/Scan.antt =====
-- The scan of the EDF and FCFS branches: it finds an eligible entry with the least key.
use os_lab.Kernel.State.{Proc}
use os_lab.Prelude.{
  Bool, ℕ, Option, List, ◌≡◌, if◌then◌else◌, none, some, ◌&&◌, true, get_elem?, ◌⊎◌, false, ◌+◌,
  ◌∷◌, inl, arith, suc, inr, Bool-cases, [], zero, refl,
}
use os_lab.Prelude.Int.{ℤ, ltb_ℤ, ◌≤ℤ◌}
use os_lab.Proc.Choose.{scan, index_of}

module _ (ok : Proc → Bool) (key : Proc → ℤ) where
  abbrev before : Proc → Proc → Bool
  before p c = ltb_ℤ (key p) (key c)

  abbrev next : Proc → ℕ → Option (ℕ × Proc) → Option (ℕ × Proc)
  next p i ch =
      if ok p && elim ch [ none ↦ true | some (j, c) ↦ before p c ] then some (i, p) else ch

  scan-none :
      (ps : List Proc) (i : ℕ) (ch : Option (ℕ × Proc))
      → scan ok before ps i ch ≡ none
      → (ch ≡ none) × ((m : ℕ) (p : Proc) → get_elem? ps m ≡ some p → ok p ≡ false)
  unfolding scan
  scan-none [] i ch h = (h, λ m p g. cc)
  scan-none (x ∷ xs) i ch h =
      let (e, rest) = scan-none xs (i + 1) (next x i ch) h in
      (none_before ch e, λ m p g. all m p rest e g)
    where
      none_before : (ch : Option (ℕ × Proc)) → next x i ch ≡ none → ch ≡ none
      none_before ch e = ground arith

      all :
          (m : ℕ) (p : Proc)
          → ((m : ℕ) (p : Proc) → get_elem? xs m ≡ some p → ok p ≡ false)
          → next x i ch ≡ none
          → get_elem? (x ∷ xs) m ≡ some p
          → ok p ≡ false
      all zero p rest e g = ground arith
      all (suc m) p rest e g = rest m p g

  scan_from :
      (ps : List Proc) (i : ℕ) (ch : Option (ℕ × Proc)) (j : ℕ) (c : Proc)
      → scan ok before ps i ch ≡ some (j, c)
      → (ch ≡ some (j, c)) ⊎ ((m : ℕ) × (get_elem? ps m ≡ some c) × (ok c ≡ true) × (j ≡ i + m))
  unfolding scan
  scan_from [] i ch j c h = inl h
  scan_from (x ∷ xs) i ch j c h = elim (scan_from xs (i + 1) (next x i ch) j c h) [
    | inr (m, g, e, at) ↦ inr (suc m, g, e, omega arith)
    | inl e ↦ elim (Bool-cases (ok x && elim ch [ none ↦ true | some (b, d) ↦ before x d ])) [
      | inl t ↦ inr (0, ground arith, ground arith, ground arith)
      | inr t ↦ inl (ground arith)
    ]
  ]

  module _ (x : Proc) (i : ℕ) where
    next_keeps :
        (ch : Option (ℕ × Proc)) (c : Proc)
        → ((j0 : ℕ) (c0 : Proc) → next x i ch ≡ some (j0, c0) → key c ≤ℤ key c0)
        → (j0 : ℕ) (c0 : Proc) → ch ≡ some (j0, c0)
        → key c ≤ℤ key c0
    next_keeps none c better j0 c0 e = cc
    next_keeps (some (a, d)) c better j0 c0 e = ground (arith, better i x, better a d)

    next_new :
        (ch : Option (ℕ × Proc)) (c : Proc)
        → ((j0 : ℕ) (c0 : Proc) → next x i ch ≡ some (j0, c0) → key c ≤ℤ key c0)
        → ok x ≡ true
        → key c ≤ℤ key x
    next_new none c better t = ground (arith, better i x)
    next_new (some (a, d)) c better t = ground (arith, better i x, better a d)

  scan_least :
      (ps : List Proc) (i : ℕ) (ch : Option (ℕ × Proc)) (j : ℕ) (c : Proc)
      → scan ok before ps i ch ≡ some (j, c)
      → ((m : ℕ) (p : Proc) → get_elem? ps m ≡ some p → ok p ≡ true → key c ≤ℤ key p)
        × ((j0 : ℕ) (c0 : Proc) → ch ≡ some (j0, c0) → key c ≤ℤ key c0)
  unfolding scan
  scan_least [] i ch j c h = (λ m p g. cc, λ j0 c0 e. ground arith)
  scan_least (x ∷ xs) i ch j c h =
      let (rest, better) = scan_least xs (i + 1) (next x i ch) j c h in
      (λ m p g t. all m p rest better g t, λ j0 c0 e. next_keeps x i ch c better j0 c0 e)
    where
      all :
          (m : ℕ) (p : Proc)
          → ((m : ℕ) (p : Proc) → get_elem? xs m ≡ some p → ok p ≡ true → key c ≤ℤ key p)
          → ((j0 : ℕ) (c0 : Proc) → next x i ch ≡ some (j0, c0) → key c ≤ℤ key c0)
          → get_elem? (x ∷ xs) m ≡ some p
          → ok p ≡ true
          → key c ≤ℤ key p
      all zero p rest better g t =
          let e : some x ≡ some p = g in
          let least : key c ≤ℤ key x = next_new x i ch c better (ground arith) in ground arith
      all (suc m) p rest better g t = rest m p g t

-- What a branch of the scheduler picks, by the index of the entry.
pub record Least (ok : Proc → Bool) (key : Proc → ℤ) (ps : List Proc) (i : ℕ) : Type 0 where
  pub entry : Proc
  pub here : get_elem? ps i ≡ some entry
  pub fits : ok entry ≡ true
  pub least : (m : ℕ) (p : Proc) → get_elem? ps m ≡ some p → ok p ≡ true → key entry ≤ℤ key p

module _ (ok : Proc → Bool) (key : Proc → ℤ) (ps : List Proc) where
  pub scan-Least :
      (i : ℕ) → index_of (scan ok (before ok key) ps 0 none) ≡ some i → Least ok key ps i
  scan-Least i h = found (scan ok (before ok key) ps 0 none) refl h
    where
      found :
          (o : Option (ℕ × Proc))
          → scan ok (before ok key) ps 0 none ≡ o
          → index_of o ≡ some i
          → Least ok key ps i
      found none e h' = cc
      found (some (j, c)) e h' = elim (scan_from ok key ps 0 none j c e) [
        | inl bad ↦ cc
        | inr (m, g, t, at) ↦
            let same : m ≡ i = ground arith in
            record {
              entry = c;
              here = rw (← same) g;
              fits = t;
              least = (scan_least ok key ps 0 none j c e).0;
            }
      ]

  pub scan_none_lem :
      index_of (scan ok (before ok key) ps 0 none) ≡ none
      → (m : ℕ) (p : Proc) → get_elem? ps m ≡ some p
      → ok p ≡ false
  scan_none_lem h = found (scan ok (before ok key) ps 0 none) refl h
    where
      found :
          (o : Option (ℕ × Proc))
          → scan ok (before ok key) ps 0 none ≡ o
          → index_of o ≡ none
          → (m : ℕ) (p : Proc) → get_elem? ps m ≡ some p
          → ok p ≡ false
      found none e h' = (scan-none ok key ps 0 none e).1
      found (some (j, c)) e h' = cc
