-- ===== src/User/Grep/Scan.antt =====
-- The inner loop of grep on the first bytes of a file of lines.
use os_lab.Prelude.{
  ℕ, List, [], ◌∷◌, ◌++◌, none, some, zero, suc, ◌+◌, ◌<◌, ◌≤◌, ◌≡◌, inl, inr, if◌then◌else◌, arith,
  refl, sym, ap, ◌∙◌, Bool-cases, append_assoc, length, take, drop, length-append, length-take,
  take-append-drop, leb, leb→le, ◌-◌,
}
use os_lab.User.Grep.{Text, scan_lines, match, find_line, room, newline}
use os_lab.User.Grep.Lines.{
  matching, AreLines, file_of, IsLine, take-append_le, find_line-none, take-append_more,
  drop-append_more, find_line-line, IsLine-take,
}

-- What is left in the buffer is the beginning of the first line that is left.
abbrev pub Fits : List Text → Text → Type 0
Fits [] p = length p ≡ 0
Fits (l ∷ ls) p = length p ≤ length l

-- After the scan of the first `k` bytes of a file: the lines that are left.
pub record Scanned (pattern : Text) (ls : List Text) (k : ℕ) (r : Text × Text) : Type 0 where
  pub left : List Text
  pub lines : AreLines left
  pub whole : r.1 ++ drop k (file_of ls) ≡ file_of left
  pub written : r.0 ++ file_of (matching pattern left) ≡ file_of (matching pattern ls)
  pub fits : Fits left r.1
  pub fewer : length left ≤ length ls
  pub shorter : length r.1 ≤ length (take k (file_of ls))

Scanned-none :
    (pattern l : Text) (ls : List Text) (k : ℕ)
    → AreLines (l ∷ ls)
    → k ≤ length l
    → Scanned pattern (l ∷ ls) k ([], take k l)
Scanned-none pattern l ls k h le = record {
  left = l ∷ ls;
  lines = h;
  whole =
      ap (λ x. x ++ drop k (file_of (l ∷ ls))) (sym (take-append_le k l (newline ∷ file_of ls) le))
      ∙ take-append-drop k (file_of (l ∷ ls));
  written = refl;
  fits = omega (arith, length-take k l);
  fewer = omega arith;
  shorter = omega (arith, ap length (take-append_le k l (newline ∷ file_of ls) le));
}

Scanned-line :
    (pattern l : Text) (ls : List Text) (k : ℕ) (r : Text × Text)
    → Scanned pattern ls k r
    → Scanned pattern
        (l ∷ ls)
        (length l + suc k)
        (if match pattern l then l ++ (newline ∷ r.0) else r.0, r.1)
unfolding matching
Scanned-line pattern l ls k r s = record {
  left = s.left;
  lines = s.lines;
  whole = ap (λ x. r.1 ++ x) (drop-append_more (suc k) l (newline ∷ file_of ls)) ∙ s.whole;
  written = elim (Bool-cases (match pattern l)) [
    | inl hit ↦ rw hit (
        append_assoc l (newline ∷ r.0) (file_of (matching pattern s.left))
        ∙ ap (λ x. l ++ (newline ∷ x)) s.written)
    | inr miss ↦ rw miss s.written
  ];
  fits = s.fits;
  fewer = omega (arith, s.fewer);
  shorter = omega (
    arith,
    s.shorter,
    ap length (take-append_more (suc k) l (newline ∷ file_of ls)),
    length-append l (newline ∷ take k (file_of ls)),
  );
}

take-nil : (k : ℕ) → take {A = ℕ} k [] ≡ []
take-nil zero = refl
take-nil (suc k) = refl

drop-nil : (k : ℕ) → drop {A = ℕ} k [] ≡ []
drop-nil zero = refl
drop-nil (suc k) = refl

scan-none :
    (fuel : ℕ) (pattern p : Text) → find_line p ≡ none → scan_lines (suc fuel) pattern p ≡ ([], p)
unfolding scan_lines
scan-none fuel pattern p e = rw (e, scan_lines) refl

scan-some :
    (fuel : ℕ) (pattern p line q : Text)
    → find_line p ≡ some (line, q)
    → scan_lines (suc fuel) pattern p ≡ (
      if match pattern line
          then line ++ (newline ∷ (scan_lines fuel pattern q).0)
          else (scan_lines fuel pattern q).0,
      (scan_lines fuel pattern q).1,
    )
unfolding scan_lines
scan-some fuel pattern p line q e = rw (e, scan_lines) refl

Scanned-nil : (pattern : Text) (k : ℕ) → Scanned pattern [] k ([], [])
Scanned-nil pattern k = record {
  left = [];
  lines = tt;
  whole = drop-nil k;
  written = refl;
  fits = refl;
  fewer = omega arith;
  shorter = omega arith;
}

-- After a scan in which the first line was found.
abbrev Gone : Text → Text → List Text → ℕ → Text × Text → Type 0
Gone pattern l ls k r =
    (s : Scanned pattern (l ∷ ls) k r) × (length s.left ≤ length ls)
    × (length r.1 < length (take k (file_of (l ∷ ls))))

Gone-line :
    (pattern l : Text) (ls : List Text) (j : ℕ) (r : Text × Text)
    → Scanned pattern ls j r
    → Gone pattern l ls
        (length l + suc j)
        (if match pattern l then l ++ (newline ∷ r.0) else r.0, r.1)
unfolding Scanned-line
Gone-line pattern l ls j r s = (
  Scanned-line pattern l ls j r s,
  s.fewer,
  omega (
    arith,
    s.shorter,
    ap length (take-append_more (suc j) l (newline ∷ file_of ls)),
    length-append l (newline ∷ take j (file_of ls)),
  ),
)

scan-line :
    (fuel : ℕ) (pattern l : Text) (ls : List Text) (j : ℕ)
    → IsLine l
    → scan_lines (suc fuel) pattern (take (length l + suc j) (file_of (l ∷ ls))) ≡ (
      if match pattern l
          then l ++ (newline ∷ (scan_lines fuel pattern (take j (file_of ls))).0)
          else (scan_lines fuel pattern (take j (file_of ls))).0,
      (scan_lines fuel pattern (take j (file_of ls))).1,
    )
scan-line fuel pattern l ls j h =
    ap (scan_lines (suc fuel) pattern) (take-append_more (suc j) l (newline ∷ file_of ls))
    ∙ scan-some fuel pattern (l ++ (newline ∷ take j (file_of ls))) l (take j (file_of ls))
        (find_line-line l (take j (file_of ls)) h)

-- The first line goes if it ends before `k`, and the scan of the others follows.
scan_first :
    (fuel : ℕ) (pattern l : Text) (ls : List Text) (j : ℕ)
    → IsLine l
    → Scanned pattern ls j (scan_lines fuel pattern (take j (file_of ls)))
    → Gone pattern l ls
        (length l + suc j)
        (scan_lines (suc fuel) pattern (take (length l + suc j) (file_of (l ∷ ls))))
scan_first fuel pattern l ls j h s =
    rw (scan-line fuel pattern l ls j h)
      (Gone-line pattern l ls j (scan_lines fuel pattern (take j (file_of ls))) s)

scan_lem :
    (fuel : ℕ) (pattern : Text) (ls : List Text) (k : ℕ)
    → AreLines ls
    → length (take k (file_of ls)) < fuel
    → Scanned pattern ls k (scan_lines fuel pattern (take k (file_of ls)))
scan_lem zero pattern ls k h lt = absurd (omega arith)
scan_lem (suc fuel) pattern [] k h lt =
    rw (take-nil k) (rw (scan-none fuel pattern [] (find_line-none [] tt)) (Scanned-nil pattern k))
scan_lem (suc fuel) pattern (l ∷ ls) k h lt = elim (Bool-cases (leb k (length l))) [
  | inl le ↦
      let k-le : k ≤ length l = leb→le k (length l) le in
      rw (take-append_le k l (newline ∷ file_of ls) k-le) (
        rw (scan-none fuel pattern (take k l) (find_line-none (take k l) (IsLine-take k l h.0)))
          (Scanned-none pattern l ls k h k-le))
  | inr more ↦
      let j : ℕ = k - length l - 1 in
      let e : k ≡ length l + suc j = ground arith in
      let shorter : length (take j (file_of ls)) < fuel = omega (
        arith,
        lt,
        ap (λ x. length (take x (file_of (l ∷ ls)))) e,
        ap length (take-append_more (suc j) l (newline ∷ file_of ls)),
        length-append l (newline ∷ take j (file_of ls)),
      ) in
      rw e ((scan_first fuel pattern l ls j h.0 (scan_lem fuel pattern ls j h.2 shorter)).0)
]

pub scan-Gone :
    (fuel : ℕ) (pattern l : Text) (ls : List Text) (k : ℕ)
    → AreLines (l ∷ ls)
    → length l < k
    → length (take k (file_of (l ∷ ls))) ≤ fuel
    → Gone pattern l ls k (scan_lines (suc fuel) pattern (take k (file_of (l ∷ ls))))
scan-Gone fuel pattern l ls k h more lt =
    let j : ℕ = k - length l - 1 in
    let e : k ≡ length l + suc j = omega arith in
    let shorter : length (take j (file_of ls)) < fuel = omega (
      arith,
      lt,
      ap (λ x. length (take x (file_of (l ∷ ls)))) e,
      ap length (take-append_more (suc j) l (newline ∷ file_of ls)),
      length-append l (newline ∷ take j (file_of ls)),
    ) in
    rw e (scan_first fuel pattern l ls j h.0 (scan_lem fuel pattern ls j h.2 shorter))

-- What a read adds to the buffer: it is then the next part of the file.
pub read_full :
    (buf file : Text)
    → length buf ≤ room
    → (buf ++ take (room - length buf) file ≡ take room (buf ++ file))
      × (drop (room - length buf) file ≡ drop room (buf ++ file))
read_full buf file le =
    let e : room ≡ length buf + (room - length buf) = omega arith in
    (
      sym (take-append_more (room - length buf) buf file) ∙ ap (λ n. take n (buf ++ file)) (sym e),
      sym (drop-append_more (room - length buf) buf file) ∙ ap (λ n. drop n (buf ++ file)) (sym e),
    )
