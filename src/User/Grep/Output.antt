-- ===== src/User/Grep/Output.antt =====
-- What grep writes for a file of lines that fit into its buffer.
use os_lab.Prelude.{
  ℕ, List, [], ◌∷◌, ◌++◌, true, false, zero, suc, ◌==◌, ◌-◌, ◌+◌, ◌<◌, ◌≤◌, ◌≡◌, arith, refl, ap,
  ◌∙◌, length, take, drop, length-append, length-take, ◌≢◌,
}
use os_lab.User.Grep.{Text, grep_loop, kept, room, newline, scan_lines, grep}
use os_lab.User.Grep.Lines.{AreLines, file_of, matching}
use os_lab.User.Grep.Scan.{Fits, read_full, scan-Gone}

-- `read` gives as much as it is asked for, as far as the file goes.
abbrev ReadsAll : (ℕ → Text → Text × Text) → Type 0
ReadsAll read = (n : ℕ) (file : Text) → read n file ≡ (take n file, drop n file)

module _ (read : ℕ → Text → Text × Text) (all : ReadsAll read) (pattern : Text) where
  -- One round, which finds a line.
  round :
      (fuel : ℕ) (l : Text) (ls : List Text) (buf file : Text)
      → AreLines (l ∷ ls)
      → buf ++ file ≡ file_of (l ∷ ls)
      → length buf ≤ length l
      → ((ls' : List Text) (buf' file' : Text)
          → AreLines ls'
          → buf' ++ file' ≡ file_of ls'
          → Fits ls' buf'
          → length ls' ≤ length ls
          → grep_loop fuel read pattern buf' file' ≡ file_of (matching pattern ls'))
      → grep_loop (suc fuel) read pattern buf file ≡ file_of (matching pattern (l ∷ ls))
  unfolding grep_loop kept
  round fuel l ls buf file h e f ih =
      let (joined, behind) = read_full buf file (omega (arith, h.1)) in
      let buf' : Text = take room (file_of (l ∷ ls)) in
      let same : buf ++ take (room - length buf) file ≡ buf' = joined ∙ ap (take room) e in
      let more : length (take (room - length buf) file) ≢ 0 = λ z. absurd (
        omega (
          arith,
          length-take (room - length buf) file,
          length-append buf file,
          ap length e,
          length-append l (newline ∷ file_of ls),
          h.1,
        )) in
      let goes_on : (length (take (room - length buf) file) == 0) ≡ false = ground arith in
      let one : length buf' + 1 ≡ suc (length buf') = omega arith in
      let (s, fewer, shorter) = scan-Gone (length buf') pattern l ls room h h.1 (omega arith) in
      let found : (length (scan_lines (suc (length buf')) pattern buf').1 == length buf') ≡ false =
        ground arith in
      rw (all (room - length buf) file) (
        rw goes_on (
          rw same (
            rw one (
              rw found (
                ap (λ x. (scan_lines (suc (length buf')) pattern buf').0 ++ x)
                  (ih s.left (scan_lines (suc (length buf')) pattern buf').1
                    (drop (room - length buf) file) s.lines
                    (ap (λ x. (scan_lines (suc (length buf')) pattern buf').1 ++ x)
                        (behind ∙ ap (drop room) e)
                      ∙ s.whole)
                    s.fits fewer)
                ∙ s.written)))))

  loop_lem :
      (fuel : ℕ) (ls : List Text) (buf file : Text)
      → AreLines ls
      → buf ++ file ≡ file_of ls
      → Fits ls buf
      → length ls < fuel
      → grep_loop fuel read pattern buf file ≡ file_of (matching pattern ls)
  unfolding grep_loop matching
  loop_lem zero ls buf file h e f lt = absurd (omega arith)
  loop_lem (suc fuel) [] buf file h e f lt =
      let none_left : (length (take (room - length buf) file) == 0) ≡ true =
        ground (arith, length-take (room - length buf) file, length-append buf file, ap length e) in
      rw (all (room - length buf) file) (rw none_left refl)
  loop_lem (suc fuel) (l ∷ ls) buf file h e f lt =
      round fuel l ls buf file h e f
        (λ ls' buf' file' h' e' f' fewer. loop_lem fuel ls' buf' file' h' e' f' (omega arith))

lines_short : (ls : List Text) → length ls ≤ length (file_of ls)
lines_short [] = omega arith
lines_short (l ∷ ls) = omega (arith, lines_short ls, length-append l (newline ∷ file_of ls))

-- For a file of lines without a NUL, each with its newline and of at most 1023 bytes with it, and
-- reads that give as much as they are asked for: grep writes exactly the lines in which match finds
-- the pattern, in their order, each with its newline, also where a read ends within a line.
pub grep_lem :
    (read : ℕ → Text → Text × Text) (pattern : Text) (ls : List Text)
    → ReadsAll read
    → AreLines ls
    → grep read pattern (file_of ls) ≡ file_of (matching pattern ls)
unfolding grep
grep_lem read pattern ls all h =
    loop_lem read all pattern (length (file_of ls) + 1) ls [] (file_of ls) h refl (start ls)
      (omega (arith, lines_short ls))
  where
    start : (ls : List Text) → Fits ls []
    start [] = refl
    start (l ∷ ls) = omega arith
