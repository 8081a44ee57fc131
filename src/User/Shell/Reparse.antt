-- ===== src/User/Shell/Reparse.antt =====
-- A command that is written out is parsed back.
use os_lab.Prelude.{
  ℕ, ◌+◌, ◌-◌, ◌*◌, ◌≤◌, ◌≡◌, ◌==◌, true, List, [], ◌∷◌, ◌++◌, suc, length, arith, refl, Bool-cases,
  inl, inr, ◌∙◌, append_assoc, append-nil, ap, sym,
}
use os_lab.User.Shell.Show.{show_redir, cost, show, IsCommand, cost-le, show_words}
use os_lab.User.Shell.{
  parsecmd, Redir, skip_space, wrap, Cmd, ok, parseline, exec_cmd, redir_cmd, parseexec,
  parseredirs, pipe_cmd, list_cmd, back_cmd,
}
use os_lab.User.Shell.Words.{skip_symbol, parseredirs_redir, skip_calm}
use os_lab.User.Shell.Blocks.{
  is_end, exec_line, exec_words, block_lem, end_calm, show_two, line_end, pipe_two, paren, pipe_end,
  peek_end, list_two, no_pipe_at, back_end, no_pipe_and,
}

skip_redir : (r : Redir) (t : List ℕ) → skip_space (show_redir r ++ t) ≡ show_redir r ++ t
unfolding show_redir
skip_redir r t = elim (Bool-cases (r.fd == 0)) [
  | inl e ↦ rw e (skip_symbol b'<' ((r.file ++ (32 ∷ [])) ++ t) refl)
  | inr e ↦ rw e (skip_symbol b'>' ((r.file ++ (32 ∷ [])) ++ t) refl)
]

-- The line `show c ++ t` is parsed as `c`, with fuel for its depth.
line_lem :
    (c : Cmd) (fuel : ℕ) (t : List ℕ)
    → IsCommand c
    → cost c ≤ fuel
    → is_end t ≡ true
    → parseline fuel (show c ++ t) ≡ ok c t
unfolding cost show wrap
line_lem (exec_cmd ws) fuel t (h, few) le stop =
    let e : fuel ≡ suc (suc (suc (fuel - 3))) = omega arith in
    rw e (
      exec_line (suc (fuel - 3)) (show_words ws ++ t) t (exec_cmd ws)
        (exec_words (fuel - 3) ws t h few stop) stop)
line_lem (redir_cmd c r) fuel t (h, hr) le stop =
    let g : ℕ = fuel - 4 in
    let e : fuel ≡ suc (suc (suc (suc g))) = omega arith in
    let inner : List ℕ = b'(' ∷ (show c ++ (b')' ∷ (show_redir r ++ t))) in
    let block : parseexec (suc (suc g)) inner ≡ ok (redir_cmd c r) t =
      block_lem g c (show_redir r ++ t) t (r ∷ []) h
        (line_lem c g (b')' ∷ (show_redir r ++ t)) h (omega arith) refl)
        (ap parseredirs (skip_redir r t) ∙ parseredirs_redir r t hr (end_calm t stop)) in
    rw e (
      rw (append_assoc (b'(' ∷ show c) (b')' ∷ show_redir r) t)
        (exec_line (suc (suc g)) inner t (redir_cmd c r) block stop))
line_lem (pipe_cmd l r) fuel t (hl, hr) le stop =
    let g : ℕ = fuel - 5 in
    let e : fuel ≡ suc (suc (suc (suc (suc g)))) = omega arith in
    let right : List ℕ = b'(' ∷ (show r ++ (b')' ∷ t)) in
    rw e (
      rw (show_two b'|' (show l) (show r) t) (
        line_end (suc (suc (suc (suc g)))) (b'(' ∷ (show l ++ (b')' ∷ b'|' ∷ right))) t
          (pipe_cmd l r)
          (pipe_two (suc (suc (suc g))) (b'(' ∷ (show l ++ (b')' ∷ b'|' ∷ right))) right t l r
            (paren (suc g) l (b'|' ∷ right) hl
              (line_lem l (suc g) (b')' ∷ b'|' ∷ right) hl (omega arith) refl) refl)
            (skip_symbol b'(' (show r ++ (b')' ∷ t)) refl)
            (pipe_end (suc (suc g)) right t r
              (paren g r t hr (line_lem r g (b')' ∷ t) hr (omega arith) refl) (end_calm t stop))
              (skip_calm t (end_calm t stop)) (peek_end b'|' t stop (inr (inr refl)))))
          stop))
line_lem (list_cmd l r) fuel t (hl, hr) le stop =
    let g : ℕ = fuel - 5 in
    let e : fuel ≡ suc (suc (suc (suc (suc g)))) = omega arith in
    let right : List ℕ = b'(' ∷ (show r ++ (b')' ∷ t)) in
    let left : List ℕ = b'(' ∷ (show l ++ (b')' ∷ b';' ∷ right)) in
    rw e (
      rw (show_two b';' (show l) (show r) t) (
        list_two (suc (suc (suc (suc g)))) left right t l r
          (pipe_end (suc (suc (suc g))) left (b';' ∷ right) l
            (paren (suc g) l (b';' ∷ right) hl
              (line_lem l (suc g) (b')' ∷ b';' ∷ right) hl (omega arith) refl) refl)
            (skip_symbol b';' right refl) (no_pipe_at right))
          (skip_symbol b'(' (show r ++ (b')' ∷ t)) refl)
          (exec_line (suc (suc g)) right t r
            (paren g r t hr (line_lem r g (b')' ∷ t) hr (omega arith) refl) (end_calm t stop))
            stop)))
line_lem (back_cmd c) fuel t h le stop =
    let g : ℕ = fuel - 4 in
    let e : fuel ≡ suc (suc (suc (suc g))) = omega arith in
    let s : List ℕ = b'(' ∷ (show c ++ (b')' ∷ b'&' ∷ t)) in
    rw e (
      rw (append_assoc (b'(' ∷ show c) (b')' ∷ b'&' ∷ []) t) (
        back_end (suc (suc (suc g))) s t c
          (pipe_end (suc (suc g)) s (b'&' ∷ t) c
            (paren g c (b'&' ∷ t) h (line_lem c g (b')' ∷ b'&' ∷ t) h (omega arith) refl) refl)
            (skip_symbol b'&' t refl) (no_pipe_and t))
          stop))

-- The parser reads back every command that is written out with its parts in parentheses: commands of
-- at most nine words each, words of bytes that are neither blanks nor symbols, with redirections of
-- the input and of the output, pipes, lists and background commands, however they are nested. The
-- whole line is taken, and the fuel of parsecmd is enough.
pub parsecmd-show : (c : Cmd) → IsCommand c → parsecmd (show c) ≡ ok c []
unfolding parsecmd skip_space
parsecmd-show c h =
    rw
      (ap (parseline (4 * length (show c) + 4)) (sym (append-nil (show c)))
        ∙ line_lem c (4 * length (show c) + 4) [] h (cost-le c) refl)
      refl
