-- ===== src/User/Shell/Blocks.antt =====
-- The parser on blocks, and on what follows them.
use os_lab.Prelude.{
  ℕ, ◌+◌, ◌<◌, ◌≡◌, ◌==◌, ◌⊎◌, ◌&&◌, not, Bool, true, false, List, [], ◌∷◌, ◌++◌, suc, length,
  arith, refl, inl, inr, ◌∙◌, append_assoc, ap,
}
use os_lab.User.Shell.Words.{
  is_stop, is_calm, stop_calm, skip_calm, calm_words, skip_symbol, count_words, parseredirs_calm,
  args_words,
}
use os_lab.User.Shell.{
  peek, gettoken, parseexec, parsepipe, backs_from, token_at, skip_space, Cmd, elem, Redir, ok,
  symbols, exec_cmd, parseline, whitespace, parseredirs, wrap, redir_cmd, pipe_cmd, list_cmd,
  back_cmd, parse_words, Token, begins, max_args,
}
use os_lab.User.Shell.Show.{show, IsCommand, show_words, AreWords}

-- The end of the line, or of a block.
abbrev pub is_end : List ℕ → Bool
is_end [] = true
is_end (c ∷ t) = c == b')'

end_stop : (t : List ℕ) → is_end t ≡ true → is_stop t ≡ true
end_stop [] h = refl
end_stop (c ∷ t) h = ground arith

pub end_calm : (t : List ℕ) → is_end t ≡ true → is_calm t ≡ true
end_calm t h = stop_calm t (end_stop t h)

-- At an end there is none of '&', ';' and '|'.
pub peek_end :
    (c : ℕ) (t : List ℕ)
    → is_end t ≡ true
    → (c ≡ b'&') ⊎ (c ≡ b';') ⊎ (c ≡ b'|')
    → peek (c ∷ []) t ≡ false
unfolding peek skip_space
peek_end c [] h which = refl
peek_end c (d ∷ t) h which = rw (skip_calm (d ∷ t) (end_calm (d ∷ t) h)) (ground (arith, which))

-- A symbol that is not '>'.
gettoken_sign :
    (c : ℕ) (s : List ℕ)
    → (elem c symbols && not (c == b'>')) ≡ true
    → gettoken (c ∷ s) ≡ record { kind = c; text = c ∷ []; rest = skip_space s }
unfolding gettoken token_at
gettoken_sign c s h = rw (skip_sign c s h) (at_sign c s h)
  where
    skip_sign :
        (c : ℕ) (s : List ℕ)
        → (elem c symbols && not (c == b'>')) ≡ true
        → skip_space (c ∷ s) ≡ c ∷ s
    skip_sign c s h =
        let no_blank : elem c whitespace ≡ false = ground arith in skip_symbol c s no_blank

    at_sign :
        (c : ℕ) (s : List ℕ)
        → (elem c symbols && not (c == b'>')) ≡ true
        → ◌≡◌ {A = Token}
            (record (token_at (c ∷ s)) { rest = skip_space (token_at (c ∷ s)).rest })
            (record { kind = c; text = c ∷ []; rest = skip_space s })
    at_sign c [] h = let symbol : elem c symbols ≡ true = ground arith in rw symbol refl
    at_sign c (d ∷ s) h =
        let symbol : elem c symbols ≡ true = ground arith in
        let once : (c == b'>' && d == b'>') ≡ false = ground arith in rw once (rw symbol refl)

skip_show :
    (c : Cmd) (t : List ℕ) → IsCommand c → is_stop t ≡ true → skip_space (show c ++ t) ≡ show c ++ t
unfolding show skip_space
skip_show (exec_cmd ws) t h stop = skip_calm (show_words ws ++ t) (calm_words ws t h.0 stop)
skip_show (redir_cmd c r) t h stop = refl
skip_show (pipe_cmd l r) t h stop = refl
skip_show (list_cmd l r) t h stop = refl
skip_show (back_cmd c) t h stop = refl

-- A block, when the line in it is parsed.
pub block_lem :
    (fuel : ℕ) (c : Cmd) (t t' : List ℕ) (rs : List Redir)
    → IsCommand c
    → parseline fuel (show c ++ (b')' ∷ t)) ≡ ok c (b')' ∷ t)
    → parseredirs (skip_space t) ≡ ok rs t'
    → parseexec (suc (suc fuel)) (b'(' ∷ (show c ++ (b')' ∷ t))) ≡ ok (wrap c rs) t'
unfolding parseexec peek wrap skip_space
block_lem fuel c t t' rs h line redirs =
    rw (gettoken_sign b'(' (show c ++ (b')' ∷ t)) refl) (
      rw (skip_show c (b')' ∷ t) h refl)
        (rw line (rw (gettoken_sign b')' t refl) (rw redirs refl))))

pub pipe_end :
    (fuel : ℕ) (s t : List ℕ) (c : Cmd)
    → parseexec fuel s ≡ ok c t
    → skip_space t ≡ t
    → peek (b'|' ∷ []) t ≡ false
    → parsepipe (suc fuel) s ≡ ok c t
unfolding parsepipe
pipe_end fuel s t c e calm free = rw e (rw free (rw calm refl))

backs_end :
    (fuel : ℕ) (c : Cmd) (t : List ℕ)
    → peek (b'&' ∷ []) t ≡ false
    → skip_space t ≡ t
    → backs_from (suc fuel) c t ≡ ok c t
unfolding backs_from
backs_end fuel c t free calm = rw free (rw calm refl)

-- A command at the end of a line or of a block.
pub line_end :
    (fuel : ℕ) (s t : List ℕ) (c : Cmd)
    → parsepipe fuel s ≡ ok c t
    → is_end t ≡ true
    → parseline (suc fuel) s ≡ ok c t
unfolding parseline
line_end fuel s t c e stop =
    let one : length t + 1 ≡ suc (length t) = omega arith in
    rw e (
      rw one (
        rw
          (backs_end (length t) c t (peek_end b'&' t stop (inl refl))
            (skip_calm t (end_calm t stop)))
          (rw (peek_end b';' t stop (inr (inl refl))) (rw (skip_calm t (end_calm t stop)) refl))))

pub exec_line :
    (fuel : ℕ) (s t : List ℕ) (c : Cmd)
    → parseexec fuel s ≡ ok c t
    → is_end t ≡ true
    → parseline (suc (suc fuel)) s ≡ ok c t
exec_line fuel s t c e stop =
    line_end (suc fuel) s t c
      (pipe_end fuel s t c e (skip_calm t (end_calm t stop))
        (peek_end b'|' t stop (inr (inr refl))))
      stop

no_block_at_words :
    (ws : List (List ℕ)) (t : List ℕ)
    → AreWords ws
    → is_end t ≡ true
    → peek (b'(' ∷ []) (show_words ws ++ t) ≡ false
unfolding peek
no_block_at_words ws t h stop =
    rw (skip_calm (show_words ws ++ t) (calm_words ws t h (end_stop t stop)))
      (calm_no_block (show_words ws ++ t) (calm_words ws t h (end_stop t stop)))
  where
    calm_no_block : (s : List ℕ) → is_calm s ≡ true → begins (b'(' ∷ []) s ≡ false
    calm_no_block [] h = refl
    calm_no_block (c ∷ s) h = ground arith

pub exec_words :
    (fuel : ℕ) (ws : List (List ℕ)) (t : List ℕ)
    → AreWords ws
    → length ws < max_args
    → is_end t ≡ true
    → parseexec (suc fuel) (show_words ws ++ t) ≡ ok (exec_cmd ws) t
unfolding parseexec parse_words wrap
exec_words fuel ws t h few stop =
    let calm = calm_words ws t h (end_stop t stop) in
    let many : length ws < length (show_words ws ++ t) + 1 = omega (arith, count_words ws t) in
    rw (no_block_at_words ws t h stop) (
      rw (skip_calm (show_words ws ++ t) calm) (
        rw (parseredirs_calm (show_words ws ++ t) calm) (
          rw
            (args_words (length (show_words ws ++ t) + 1) 0 ws t h (omega arith) (end_stop t stop)
              many)
            refl)))

-- A block with no redirections behind it.
pub paren :
    (fuel : ℕ) (c : Cmd) (t : List ℕ)
    → IsCommand c
    → parseline fuel (show c ++ (b')' ∷ t)) ≡ ok c (b')' ∷ t)
    → is_calm t ≡ true
    → parseexec (suc (suc fuel)) (b'(' ∷ (show c ++ (b')' ∷ t))) ≡ ok c t
unfolding wrap
paren fuel c t h line calm =
    block_lem fuel c t t [] h line (rw (skip_calm t calm) (parseredirs_calm t calm))

pub pipe_two :
    (fuel : ℕ) (s s' t : List ℕ) (l r : Cmd)
    → parseexec fuel s ≡ ok l (b'|' ∷ s')
    → skip_space s' ≡ s'
    → parsepipe fuel s' ≡ ok r t
    → parsepipe (suc fuel) s ≡ ok (pipe_cmd l r) t
unfolding parsepipe peek skip_space
pipe_two fuel s s' t l r e solid right =
    rw e (rw (gettoken_sign b'|' s' refl) (rw solid (rw right refl)))

pub list_two :
    (fuel : ℕ) (s s' t : List ℕ) (l r : Cmd)
    → parsepipe fuel s ≡ ok l (b';' ∷ s')
    → skip_space s' ≡ s'
    → parseline fuel s' ≡ ok r t
    → parseline (suc fuel) s ≡ ok (list_cmd l r) t
unfolding parseline peek skip_space
list_two fuel s s' t l r e solid right =
    let one : length (b';' ∷ s') + 1 ≡ suc (suc (length s')) = omega arith in
    rw e (
      rw one (
        rw (backs_end (suc (length s')) l (b';' ∷ s') refl refl)
          (rw (gettoken_sign b';' s' refl) (rw solid (rw right refl)))))

backs_one :
    (fuel : ℕ) (c : Cmd) (t : List ℕ)
    → is_end t ≡ true
    → backs_from (suc (suc fuel)) c (b'&' ∷ t) ≡ ok (back_cmd c) t
unfolding backs_from peek skip_space
backs_one fuel c t stop = rw (gettoken_sign b'&' t refl) (
    rw (skip_calm t (end_calm t stop)) (
      backs_end fuel (back_cmd c) t (peek_end b'&' t stop (inl refl))
        (skip_calm t (end_calm t stop))))

pub back_end :
    (fuel : ℕ) (s t : List ℕ) (c : Cmd)
    → parsepipe fuel s ≡ ok c (b'&' ∷ t)
    → is_end t ≡ true
    → parseline (suc fuel) s ≡ ok (back_cmd c) t
unfolding parseline
back_end fuel s t c e stop =
    let two : length (b'&' ∷ t) + 1 ≡ suc (suc (length t)) = omega arith in
    rw e (
      rw two (
        rw (backs_one (length t) c t stop)
          (rw (peek_end b';' t stop (inr (inl refl))) (rw (skip_calm t (end_calm t stop)) refl))))

pub no_pipe_at : (t : List ℕ) → peek (b'|' ∷ []) (b';' ∷ t) ≡ false
unfolding peek skip_space
no_pipe_at t = refl

pub no_pipe_and : (t : List ℕ) → peek (b'|' ∷ []) (b'&' ∷ t) ≡ false
unfolding peek skip_space
no_pipe_and t = refl

-- The text of two commands with a sign between them.
pub show_two :
    (sign : ℕ) (l r t : List ℕ)
    → (b'(' ∷ l ++ (b')' ∷ sign ∷ b'(' ∷ r ++ (b')' ∷ []))) ++ t
      ≡ b'(' ∷ (l ++ (b')' ∷ sign ∷ b'(' ∷ (r ++ (b')' ∷ t))))
show_two sign l r t =
    append_assoc (b'(' ∷ l) (b')' ∷ sign ∷ b'(' ∷ r ++ (b')' ∷ [])) t
    ∙ ap (λ x. b'(' ∷ (l ++ (b')' ∷ sign ∷ b'(' ∷ x))) (append_assoc r (b')' ∷ []) t)
