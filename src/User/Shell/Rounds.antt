-- ===== src/User/Shell/Rounds.antt =====
-- How far the tokens and the loops of the parser get.
use os_lab.Prelude.{
  ℕ, ◌+◌, ◌<◌, ◌≤◌, ◌≡◌, ◌==◌, ◌&&◌, not, if◌then◌else◌, Bool, true, false, List, [], ◌∷◌, zero,
  suc, length, leb, arith, refl, Bool-cases, inl, inr, ap, le→leb, leb→le, not-false,
}
use os_lab.User.Shell.{
  skip_space, span_word, token_at, gettoken, peek, elem, begins, whitespace, symbols, ParseError,
  Parsed, ok, redirs_from, parseredirs, args_from, parse_words, backs_from, panic, then_parse,
  Token, Cmd, endless, max_args, back_cmd,
}

pub skip_le : (s : List ℕ) → length (skip_space s) ≤ length s
unfolding skip_space
skip_le [] = omega arith
skip_le (c ∷ s) = ground (arith, skip_le s)

skip_twice : (s : List ℕ) → skip_space (skip_space s) ≡ skip_space s
unfolding skip_space
skip_twice [] = refl
skip_twice (c ∷ s) = elim (Bool-cases (elem c whitespace)) [
  | inl e ↦ rw e (skip_twice s)
  | inr e ↦ rw e (rw e refl)
]

span_le : (s : List ℕ) → length (span_word s).1 ≤ length s
unfolding span_word
span_le [] = omega arith
span_le (c ∷ s) = ground (arith, span_le s)

-- A byte that is neither a blank nor a symbol is taken.
span_lt :
    (c : ℕ) (s : List ℕ)
    → elem c whitespace ≡ false
    → elem c symbols ≡ false
    → length (span_word (c ∷ s)).1 ≤ length s
unfolding span_word
span_lt c s h k = rw (h, k) (span_le s)

token_at_lt :
    (c : ℕ) (s : List ℕ) → elem c whitespace ≡ false → length (token_at (c ∷ s)).rest ≤ length s
unfolding token_at
token_at_lt c [] h = elim (Bool-cases (elem c symbols)) [
  | inl e ↦ rw e (omega arith)
  | inr e ↦ rw e (span_lt c [] h e)
]
token_at_lt c (d ∷ s) h = elim (Bool-cases (c == b'>' && d == b'>')) [
  | inl e ↦ rw e (omega arith)
  | inr e ↦ rw e (elim (Bool-cases (elem c symbols)) [
    | inl f ↦ rw f (omega arith)
    | inr f ↦ rw f (span_lt c (d ∷ s) h f)
  ])
]

-- The position behind the blanks begins with none.
skip_solid : (s t : List ℕ) (c : ℕ) → skip_space s ≡ c ∷ t → elem c whitespace ≡ false
unfolding skip_space
skip_solid [] t c e = cc
skip_solid (d ∷ s) t c e = elim (Bool-cases (elem d whitespace)) [
  | inl h ↦ skip_solid s t c (rw h at e)
  | inr h ↦ let same : d ≡ c = cc (rw h at e) in rw (← same) h
]

from_token :
    (s t : List ℕ)
    → skip_space s ≡ t
    → 0 < length t
    → length (skip_space (token_at t).rest) < length s
from_token s [] e h = absurd (omega arith)
from_token s (c ∷ t) e h = omega (
  arith,
  skip_le (token_at (c ∷ t)).rest,
  token_at_lt c t (skip_solid s t c e),
  skip_le s,
  ap length e,
)

gettoken_lt : (s : List ℕ) → 0 < length (skip_space s) → length (gettoken s).rest < length s
unfolding gettoken
gettoken_lt s h = from_token s (skip_space s) refl h

gettoken_le : (s : List ℕ) → length (gettoken s).rest ≤ length s
unfolding gettoken token_at skip_space
gettoken_le s = at_most (skip_space s) refl
  where
    at_most : (t : List ℕ) → skip_space s ≡ t → length (skip_space (token_at t).rest) ≤ length s
    at_most [] e = omega arith
    at_most (c ∷ t) e = omega (arith, from_token s (c ∷ t) e (omega arith))

kind_pos : (s : List ℕ) → ((gettoken s).kind == 0) ≡ false → 0 < length (skip_space s)
unfolding gettoken token_at
kind_pos s h = some_left (skip_space s) h
  where
    some_left : (t : List ℕ) → ((token_at t).kind == 0) ≡ false → 0 < length t
    some_left [] h = cc
    some_left (c ∷ t) h = omega arith

-- A token behind the blanks.
pub next_lt :
    (s : List ℕ) → 0 < length (skip_space s) → length (gettoken (skip_space s)).rest < length s
next_lt s h = omega (arith, gettoken_lt (skip_space s) (rw (skip_twice s) h), skip_le s)

pub next_le : (s : List ℕ) → length (gettoken (skip_space s)).rest ≤ length s
next_le s = omega (arith, gettoken_le (skip_space s), skip_le s)

pub peek_pos : (toks s : List ℕ) → peek toks s ≡ true → 0 < length (skip_space s)
unfolding peek
peek_pos toks s h = head_pos (skip_space s) h
  where
    head_pos : (t : List ℕ) → begins toks t ≡ true → 0 < length t
    head_pos [] h = cc
    head_pos (c ∷ t) h = omega arith

abbrev is_panic : ParseError → Bool
is_panic endless = false
is_panic _ = true

-- The parser stopped by itself, and left at most `n` bytes.
abbrev stops_within : {A : Type 0} → ℕ → Parsed A → Bool
stops_within n (ok a s) = leb (length s) n
stops_within n (panic e) = is_panic e

pub record StopsWithin {A : Type 0} (n : ℕ) (o : Parsed A) : Type 0 where
  pub stops : stops_within n o ≡ true

pub StopsWithin-ok :
    {A : Type 0} {n : ℕ} {a : A} (s : List ℕ) → length s ≤ n → StopsWithin n (ok a s)
StopsWithin-ok {n} s h = record { stops = le→leb (length s) n h }

pub StopsWithin-panic :
    {A : Type 0} {n : ℕ} {e : ParseError} → is_panic e ≡ true → StopsWithin {A = A} n (panic e)
StopsWithin-panic h = record { stops = h }

pub StopsWithin-then :
    {A B : Type 0} (n : ℕ) {m : ℕ} (o : Parsed A) {f : A → List ℕ → Parsed B}
    → StopsWithin n o
    → ((a : A) (s : List ℕ) → length s ≤ n → StopsWithin m (f a s))
    → StopsWithin m (then_parse o f)
StopsWithin-then n (ok a s) h k = k a s (leb→le (length s) n h.stops)
StopsWithin-then n (panic e) h k = record { stops = h.stops }

pub StopsWithin-if :
    {A : Type 0} {n : ℕ} (b : Bool) {x y : Parsed A}
    → (b ≡ true → StopsWithin n x)
    → (b ≡ false → StopsWithin n y)
    → StopsWithin n (if b then x else y)
StopsWithin-if true h k = h refl
StopsWithin-if false h k = k refl

redirs_from-stops :
    (fuel n : ℕ) (s : List ℕ) → length s < fuel → length s ≤ n → StopsWithin n (redirs_from fuel s)
unfolding redirs_from
redirs_from-stops zero n s lt le = absurd (omega arith)
redirs_from-stops (suc fuel) n s lt le =
    let tok : Token = gettoken (skip_space s) in
    let name : Token = gettoken tok.rest in
    StopsWithin-if (not (peek (b'<' ∷ b'>' ∷ []) s))
      (λ e. StopsWithin-ok (skip_space s) (omega (arith, skip_le s)))
      (λ e.
        StopsWithin-if (not (name.kind == b'a')) (λ e. StopsWithin-panic refl)
          (λ e'.
            let some_left : 0 < length (skip_space s) =
              peek_pos (b'<' ∷ b'>' ∷ []) s (not-false (peek (b'<' ∷ b'>' ∷ []) s) e) in
            StopsWithin-then n (redirs_from fuel name.rest)
              (redirs_from-stops fuel n name.rest
                (omega (arith, next_lt s some_left, gettoken_le tok.rest))
                (omega (arith, next_lt s some_left, gettoken_le tok.rest)))
              (λ rs s' le'. StopsWithin-ok s' le')))

pub parseredirs-stops : (n : ℕ) (s : List ℕ) → length s ≤ n → StopsWithin n (parseredirs s)
unfolding parseredirs
parseredirs-stops n s le = redirs_from-stops (length s + 1) n s (omega arith) le

args_from-stops :
    (fuel n argc : ℕ) (s : List ℕ)
    → length s < fuel
    → length s ≤ n
    → StopsWithin n (args_from fuel argc s)
unfolding args_from
args_from-stops zero n argc s lt le = absurd (omega arith)
args_from-stops (suc fuel) n argc s lt le =
    let tok : Token = gettoken (skip_space s) in
    StopsWithin-if (peek (b'|' ∷ b')' ∷ b'&' ∷ b';' ∷ []) s)
      (λ e. StopsWithin-ok (skip_space s) (omega (arith, skip_le s)))
      (λ e.
        StopsWithin-if (tok.kind == 0) (λ e. StopsWithin-ok tok.rest (omega (arith, next_le s)))
          (λ some_kind.
            StopsWithin-if (not (tok.kind == b'a')) (λ e. StopsWithin-panic refl)
              (λ e.
                StopsWithin-if (leb max_args (argc + 1)) (λ e. StopsWithin-panic refl)
                  (λ e.
                    let left : 0 < length (skip_space s) =
                      rw (← skip_twice s) (kind_pos (skip_space s) some_kind) in
                    StopsWithin-then (length tok.rest) (parseredirs tok.rest)
                      (parseredirs-stops (length tok.rest) tok.rest (omega arith))
                      (λ rs s' le'.
                        StopsWithin-then n (args_from fuel (argc + 1) s')
                          (args_from-stops fuel n (argc + 1) s' (omega (arith, next_lt s left))
                            (omega (arith, next_lt s left)))
                          (λ r s'' le''. StopsWithin-ok s'' le''))))))

pub parse_words-stops : (n : ℕ) (s : List ℕ) → length s ≤ n → StopsWithin n (parse_words s)
unfolding parse_words
parse_words-stops n s le =
    StopsWithin-then n (parseredirs s) (parseredirs-stops n s le) (λ rs s' le'.
      StopsWithin-then n (args_from (length s' + 1) 0 s')
        (args_from-stops (length s' + 1) n 0 s' (omega arith) le')
        (λ r s'' le''. StopsWithin-ok s'' le''))

pub backs_from-stops :
    (fuel n : ℕ) (cmd : Cmd) (s : List ℕ)
    → length s < fuel
    → length s ≤ n
    → StopsWithin n (backs_from fuel cmd s)
unfolding backs_from
backs_from-stops zero n cmd s lt le = absurd (omega arith)
backs_from-stops (suc fuel) n cmd s lt le =
    StopsWithin-if (peek (b'&' ∷ []) s)
      (λ e.
        let left : 0 < length (skip_space s) = peek_pos (b'&' ∷ []) s e in
        backs_from-stops fuel n (back_cmd cmd) (gettoken (skip_space s)).rest
          (omega (arith, next_lt s left)) (omega (arith, next_lt s left)))
      (λ e. StopsWithin-ok (skip_space s) (omega (arith, skip_le s)))
