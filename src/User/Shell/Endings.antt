-- ===== src/User/Shell/Endings.antt =====
-- The parser comes to an end.
use os_lab.Prelude.{
  ℕ, ◌+◌, ◌*◌, ◌<◌, ◌≤◌, ◌==◌, not, List, [], ◌∷◌, zero, suc, length, arith, refl, not-false,
}
use os_lab.User.Shell.{
  parseline, parsecmd, parsepipe, backs_from, skip_space, peek, gettoken, parseexec, parseblock,
  parseredirs,
}
use os_lab.User.Shell.Rounds.{
  StopsWithin, StopsWithin-then, StopsWithin-if, backs_from-stops, StopsWithin-ok,
  StopsWithin-panic, peek_pos, next_lt, skip_le, parse_words-stops, parseredirs-stops, next_le,
}

mutual
  unfolding parseline

  line-stops :
      (fuel n : ℕ) (s : List ℕ)
      → 4 * length s + 4 ≤ fuel
      → length s ≤ n
      → StopsWithin n (parseline fuel s)
  line-stops zero n s enough le = absurd (omega arith)
  line-stops (suc fuel) n s enough le =
      StopsWithin-then (length s) (parsepipe fuel s)
        (pipe-stops fuel (length s) s (omega arith) (omega arith))
        (λ cmd s1 le1.
          StopsWithin-then (length s) (backs_from (length s1 + 1) cmd s1)
            (backs_from-stops (length s1 + 1) (length s) cmd s1 (omega arith) le1)
            (λ cmd' s2 le2.
              StopsWithin-if (peek (b';' ∷ []) s2)
                (λ e.
                  let left : 0 < length (skip_space s2) = peek_pos (b';' ∷ []) s2 e in
                  StopsWithin-then n (parseline fuel (gettoken (skip_space s2)).rest)
                    (line-stops fuel n (gettoken (skip_space s2)).rest
                      (omega (arith, next_lt s2 left)) (omega (arith, next_lt s2 left)))
                    (λ right s3 le3. StopsWithin-ok s3 le3))
                (λ e. StopsWithin-ok (skip_space s2) (omega (arith, skip_le s2)))))

  pipe-stops :
      (fuel n : ℕ) (s : List ℕ)
      → 4 * length s + 3 ≤ fuel
      → length s ≤ n
      → StopsWithin n (parsepipe fuel s)
  pipe-stops zero n s enough le = absurd (omega arith)
  pipe-stops (suc fuel) n s enough le =
      StopsWithin-then (length s) (parseexec fuel s)
        (exec-stops fuel (length s) s (omega arith) (omega arith))
        (λ cmd s1 le1.
          StopsWithin-if (peek (b'|' ∷ []) s1)
            (λ e.
              let left : 0 < length (skip_space s1) = peek_pos (b'|' ∷ []) s1 e in
              StopsWithin-then n (parsepipe fuel (gettoken (skip_space s1)).rest)
                (pipe-stops fuel n (gettoken (skip_space s1)).rest (omega (arith, next_lt s1 left))
                  (omega (arith, next_lt s1 left)))
                (λ right s2 le2. StopsWithin-ok s2 le2))
            (λ e. StopsWithin-ok (skip_space s1) (omega (arith, skip_le s1))))

  exec-stops :
      (fuel n : ℕ) (s : List ℕ)
      → 4 * length s + 2 ≤ fuel
      → length s ≤ n
      → StopsWithin n (parseexec fuel s)
  exec-stops zero n s enough le = absurd (omega arith)
  exec-stops (suc fuel) n s enough le =
      StopsWithin-if (peek (b'(' ∷ []) s)
        (λ e.
          block-stops fuel n (skip_space s) (omega (arith, skip_le s)) (omega (arith, skip_le s)))
        (λ e. parse_words-stops n (skip_space s) (omega (arith, skip_le s)))

  block-stops :
      (fuel n : ℕ) (s : List ℕ)
      → 4 * length s + 1 ≤ fuel
      → length s ≤ n
      → StopsWithin n (parseblock fuel s)
  block-stops zero n s enough le = absurd (omega arith)
  block-stops (suc fuel) n s enough le =
      StopsWithin-if (not (peek (b'(' ∷ []) s)) (λ e. StopsWithin-panic refl)
        (λ e.
          let left : 0 < length (skip_space s) =
            peek_pos (b'(' ∷ []) s (not-false (peek (b'(' ∷ []) s) e) in
          StopsWithin-then n (parseline fuel (gettoken (skip_space s)).rest)
            (line-stops fuel n (gettoken (skip_space s)).rest (omega (arith, next_lt s left))
              (omega (arith, next_lt s left)))
            (λ cmd s1 le1.
              StopsWithin-if (not (peek (b')' ∷ []) s1)) (λ e. StopsWithin-panic refl)
                (λ e.
                  StopsWithin-then n (parseredirs (gettoken (skip_space s1)).rest)
                    (parseredirs-stops n (gettoken (skip_space s1)).rest
                      (omega (arith, next_le s1)))
                    (λ rs s2 le2. StopsWithin-ok s2 le2))))

-- The parser ends for every line: it gives a command and has taken the whole line, or it panics with
-- a message of its own; its loops and its calls of itself do not go on for ever.
pub parsecmd-stops : (s : List ℕ) → StopsWithin 0 (parsecmd s)
unfolding parsecmd
parsecmd-stops s =
    StopsWithin-then (length s) (parseline (4 * length s + 4) s)
      (line-stops (4 * length s + 4) (length s) s (omega arith) (omega arith))
      (λ cmd s' le.
        StopsWithin-if (length (skip_space s') == 0) (λ e. StopsWithin-ok [] (omega arith))
          (λ e. StopsWithin-panic refl))
