-- ===== src/User/Shell/Words.antt =====
-- What gettoken, parseredirs and the loop of parseexec do on words.
use os_lab.Prelude.{
  ℕ, ◌+◌, ◌<◌, ◌≡◌, ◌==◌, ◌&&◌, ◌||◌, Bool, true, false, List, [], ◌∷◌, ◌++◌, zero, suc, length,
  arith, refl, append_assoc, leb, ◌⊎◌, inl, inr, ◌∙◌, subst, ap, sym, ◌≤◌, length-append,
}
use os_lab.User.Shell.{
  in_word, elem, skip_space, peek, parseredirs, span_word, gettoken, begins, redirs_from, ok,
  token_at, whitespace, args_from, symbols, max_args, redir_of, Redir,
}
use os_lab.User.Shell.Show.{AllWord, IsWord, show_words, AreWords, show_redir, IsRedir}

-- A position at the end of the line, before a word, or before a symbol that no redirection and no
-- block begins with.
abbrev pub is_calm : List ℕ → Bool
is_calm [] = true
is_calm (c ∷ s) = in_word c || elem c (b'|' ∷ b')' ∷ b'&' ∷ b';' ∷ [])

abbrev pub is_stop : List ℕ → Bool
is_stop [] = true
is_stop (c ∷ s) = elem c (b'|' ∷ b')' ∷ b'&' ∷ b';' ∷ [])

pub skip_calm : (s : List ℕ) → is_calm s ≡ true → skip_space s ≡ s
unfolding skip_space
skip_calm [] h = refl
skip_calm (c ∷ s) h = ground arith

pub stop_calm : (s : List ℕ) → is_stop s ≡ true → is_calm s ≡ true
stop_calm [] h = refl
stop_calm (c ∷ s) h = ground arith

peek_calm : (s : List ℕ) → is_calm s ≡ true → peek (b'<' ∷ b'>' ∷ []) s ≡ false
unfolding peek
peek_calm s h = rw (skip_calm s h) (calm_head s h)
  where
    calm_head : (s : List ℕ) → is_calm s ≡ true → begins (b'<' ∷ b'>' ∷ []) s ≡ false
    calm_head [] h = refl
    calm_head (c ∷ s) h = ground arith

redirs_calm : (fuel : ℕ) (s : List ℕ) → is_calm s ≡ true → redirs_from (suc fuel) s ≡ ok [] s
unfolding redirs_from
redirs_calm fuel s h = rw (peek_calm s h) (rw (skip_calm s h) refl)

pub parseredirs_calm : (s : List ℕ) → is_calm s ≡ true → parseredirs s ≡ ok [] s
unfolding parseredirs
parseredirs_calm s h =
    let one : length s + 1 ≡ suc (length s) = omega arith in rw one (redirs_calm (length s) s h)

span_word_lem : (w s : List ℕ) → AllWord w → span_word (w ++ (32 ∷ s)) ≡ (w, 32 ∷ s)
unfolding span_word
span_word_lem [] s h = refl
span_word_lem (c ∷ w) s (h, hs) = rw (span_word_lem w s hs, span_word) (rw h refl)

token_word :
    (c : ℕ) (s : List ℕ)
    → in_word c ≡ true
    → token_at (c ∷ s)
      ≡ record { kind = b'a'; text = (span_word (c ∷ s)).0; rest = (span_word (c ∷ s)).1 }
unfolding token_at
token_word c [] h = let plain : elem c symbols ≡ false = ground arith in rw plain refl
token_word c (d ∷ s) h =
    let plain : elem c symbols ≡ false = ground arith in
    let no_append : (c == b'>' && d == b'>') ≡ false = ground arith in rw no_append (rw plain refl)

skip_word : (c : ℕ) (s : List ℕ) → in_word c ≡ true → skip_space (c ∷ s) ≡ c ∷ s
unfolding skip_space
skip_word c s h = let plain : elem c whitespace ≡ false = ground arith in rw plain refl

skip_blank : (s : List ℕ) → is_calm s ≡ true → skip_space (32 ∷ s) ≡ s
unfolding skip_space
skip_blank s h = skip_calm s h

-- A word with a blank behind it, and what follows it.
gettoken_word :
    (w s : List ℕ)
    → IsWord w
    → is_calm s ≡ true
    → gettoken (w ++ (32 ∷ s)) ≡ record { kind = b'a'; text = w; rest = s }
unfolding gettoken
gettoken_word [] s h calm = absurd h
gettoken_word (c ∷ w) s (h, hs) calm = rw (skip_word c (w ++ (32 ∷ s)) h) (
    rw (token_word c (w ++ (32 ∷ s)) h)
      (rw (span_word_lem (c ∷ w) s (h, hs)) (rw (skip_blank s calm) refl)))

pub calm_words :
    (ws : List (List ℕ)) (s : List ℕ)
    → AreWords ws
    → is_stop s ≡ true
    → is_calm (show_words ws ++ s) ≡ true
unfolding show_words
calm_words [] s h stop = stop_calm s stop
calm_words ([] ∷ ws) s h stop = absurd h.0
calm_words ((c ∷ w) ∷ ws) s h stop = let first : in_word c ≡ true = h.0.0 in rw first refl

peek_stop :
    (c : ℕ) (s : List ℕ)
    → is_stop (c ∷ s) ≡ true
    → peek (b'|' ∷ b')' ∷ b'&' ∷ b';' ∷ []) (c ∷ s) ≡ true
unfolding peek
peek_stop c s h = rw (skip_calm (c ∷ s) (stop_calm (c ∷ s) h)) h

peek_word : (w s : List ℕ) → IsWord w → peek (b'|' ∷ b')' ∷ b'&' ∷ b';' ∷ []) (w ++ s) ≡ false
unfolding peek
peek_word [] s h = absurd h
peek_word (c ∷ w) s (h, hs) = rw (skip_word c (w ++ s) h) (ground arith)

skip_head : (w s : List ℕ) → IsWord w → skip_space (w ++ s) ≡ w ++ s
skip_head [] s h = absurd h
skip_head (c ∷ w) s (h, hs) = skip_word c (w ++ s) h

stop_cons :
    (fuel argc c : ℕ) (s : List ℕ)
    → is_stop (c ∷ s) ≡ true
    → args_from (suc fuel) argc (c ∷ s) ≡ ok ([], []) (c ∷ s)
unfolding args_from
stop_cons fuel argc c s h = rw (peek_stop c s h) (rw (skip_calm (c ∷ s) (stop_calm (c ∷ s) h)) refl)

args_stop :
    (fuel argc : ℕ) (s : List ℕ) → is_stop s ≡ true → args_from (suc fuel) argc s ≡ ok ([], []) s
unfolding args_from peek skip_space gettoken token_at
args_stop fuel argc [] h = refl
args_stop fuel argc (c ∷ s) h = stop_cons fuel argc c s h

-- The loop of parseexec takes the words up to the stop.
pub args_words :
    (fuel argc : ℕ) (ws : List (List ℕ)) (s : List ℕ)
    → AreWords ws
    → argc + length ws < max_args
    → is_stop s ≡ true
    → length ws < fuel
    → args_from fuel argc (show_words ws ++ s) ≡ ok (ws, []) s
unfolding args_from show_words
args_words zero argc ws s h few stop lt = absurd (omega arith)
args_words (suc fuel) argc [] s h few stop lt = args_stop fuel argc s stop
args_words (suc fuel) argc (w ∷ ws) s (h, hs) few stop lt =
    let tail : List ℕ = show_words ws ++ s in
    let calm : is_calm tail ≡ true = calm_words ws s hs stop in
    let room : leb max_args (argc + 1) ≡ false = ground arith in
    rw (append_assoc w (32 ∷ show_words ws) s) (
      rw (peek_word w (32 ∷ tail) h) (
        rw (skip_head w (32 ∷ tail) h) (
          rw (gettoken_word w tail h calm) (
            rw room (
              rw (parseredirs_calm tail calm)
                (rw (args_words fuel (argc + 1) ws s hs (omega arith) stop (omega arith)) refl))))))

pub skip_symbol : (c : ℕ) (s : List ℕ) → elem c whitespace ≡ false → skip_space (c ∷ s) ≡ c ∷ s
unfolding skip_space
skip_symbol c s h = rw h refl

-- The symbol of a redirection, before a word.
gettoken_symbol :
    (c : ℕ) (w s : List ℕ)
    → (c ≡ b'<') ⊎ (c ≡ b'>')
    → IsWord w
    → gettoken (c ∷ w ++ s) ≡ record { kind = c; text = c ∷ []; rest = w ++ s }
unfolding gettoken token_at
gettoken_symbol c [] s which h = absurd h
gettoken_symbol c (d ∷ w) s which (h, hs) =
    let no_blank : elem c whitespace ≡ false = ground (arith, which) in
    let once : (c == b'>' && d == b'>') ≡ false = ground arith in
    let symbol : elem c symbols ≡ true = ground (arith, which) in
    rw (skip_symbol c (d ∷ w ++ s) no_blank)
      (rw once (rw symbol (rw (skip_word d (w ++ s) h) refl)))

redirs_one :
    (fuel c : ℕ) (w s : List ℕ)
    → (c ≡ b'<') ⊎ (c ≡ b'>')
    → IsWord w
    → is_calm s ≡ true
    → redirs_from (suc (suc fuel)) (c ∷ w ++ (32 ∷ s)) ≡ ok (redir_of c w ∷ []) s
unfolding redirs_from peek
redirs_one fuel c w s which h calm =
    let symbol : elem c (b'<' ∷ b'>' ∷ []) ≡ true = ground (arith, which) in
    let no_blank : elem c whitespace ≡ false = ground (arith, which) in
    rw (skip_symbol c (w ++ (32 ∷ s)) no_blank) (
      rw symbol (
        rw (gettoken_symbol c w (32 ∷ s) which h)
          (rw (gettoken_word w s h calm) (rw (redirs_calm fuel s calm) refl))))

parseredirs_of :
    (c : ℕ) (w s : List ℕ)
    → (c ≡ b'<') ⊎ (c ≡ b'>')
    → IsWord w
    → is_calm s ≡ true
    → parseredirs (show_redir (redir_of c w) ++ s) ≡ ok (redir_of c w ∷ []) s
unfolding parseredirs show_redir
parseredirs_of c w s which h calm =
    let one : length (c ∷ w ++ (32 ∷ s)) + 1 ≡ suc (suc (length (w ++ (32 ∷ s)))) = omega arith in
    shown c which
    ∙ (ap (λ x. redirs_from (length (c ∷ x) + 1) (c ∷ x)) (append_assoc w (32 ∷ []) s)
        ∙ rw one (redirs_one (length (w ++ (32 ∷ s))) c w s which h calm))
  where
    shown :
        (c : ℕ)
        → (c ≡ b'<') ⊎ (c ≡ b'>')
        → parseredirs (show_redir (redir_of c w) ++ s)
          ≡ redirs_from (length (c ∷ (w ++ (32 ∷ [])) ++ s) + 1) (c ∷ (w ++ (32 ∷ [])) ++ s)
    shown c (inl e) = rw e refl
    shown c (inr e) = rw e refl

pub parseredirs_redir :
    (r : Redir) (s : List ℕ)
    → IsRedir r
    → is_calm s ≡ true
    → parseredirs (show_redir r ++ s) ≡ ok (r ∷ []) s
parseredirs_redir r s (h, inl e) calm =
    subst (λ x. parseredirs (show_redir x ++ s) ≡ ok (x ∷ []) s) (sym e)
      (parseredirs_of b'<' r.file s (inl refl) h calm)
parseredirs_redir r s (h, inr e) calm =
    subst (λ x. parseredirs (show_redir x ++ s) ≡ ok (x ∷ []) s) (sym e)
      (parseredirs_of b'>' r.file s (inr refl) h calm)

pub count_words : (ws : List (List ℕ)) (t : List ℕ) → length ws ≤ length (show_words ws ++ t)
unfolding show_words
count_words [] t = omega arith
count_words (w ∷ ws) t = omega (
  arith,
  count_words ws t,
  length-append (w ++ (32 ∷ show_words ws)) t,
  length-append w (32 ∷ show_words ws),
  length-append (show_words ws) t,
)
