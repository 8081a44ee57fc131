-- ===== src/User/Shell/Run/Parsed.antt =====
-- A line of the shell, from its bytes to the programs that it starts.
use os_lab.Prelude.{
  ℕ, ◌+◌, ◌==◌, ◌≡◌, ◌⊎◌, refl, inl, inr, if◌then◌else◌, Bool, true, false, List, [], ◌∷◌, ◌++◌,
  zero, suc, length, Bool-cases, ◌*◌, not, leb, some, subst,
}
use os_lab.User.Shell.{
  Parsed, ok, panic, then_parse, Cmd, Redir, exec_cmd, redir_cmd, back_cmd, redirs_from,
  parseredirs, redir_of, args_from, parse_words, wrap, backs_from, parseline, parsepipe, parseexec,
  parseblock, gettoken, peek, parsecmd, skip_space, list_cmd, leftovers, syntax, pipe_cmd, no_block,
  max_args, missing_paren, too_many_args,
}
use os_lab.User.Shell.Run.Meaning.{IsStandard, meaning}
use os_lab.User.Shell.Run.Machine.{World, Object, Fds, run}
use os_lab.User.Shell.Run.{runcmd}
use os_lab.User.Shell.Run.Agrees.{runcmd-meaning}

-- What is parsed satisfies a predicate.
abbrev HoldsOf : {A : Type 0} → (A → Type 0) → Parsed A → Type 0
HoldsOf P (ok a s) = P a
HoldsOf P (panic e) = Unit

record Gives {A : Type 0} (P : A → Type 0) (o : Parsed A) : Type 0 where
  given : HoldsOf P o

module _ {A : Type 0} {P : A → Type 0} where
  Gives-ok : (a : A) (s : List ℕ) → P a → Gives P (ok a s)
  Gives-ok a s h = record { given = h }

  Gives-if : (t : Bool) (x y : Parsed A) → Gives P x → Gives P y → Gives P (if t then x else y)
  Gives-if true x y hx hy = hx
  Gives-if false x y hx hy = hy

Gives-panic : {A : Type 0} (P : A → Type 0) (e : _) → Gives P (panic e)
Gives-panic P e = record { given = tt }

Gives-then :
    {A B : Type 0} (P : A → Type 0) (Q : B → Type 0) (o : Parsed A) (f : A → List ℕ → Parsed B)
    → Gives P o
    → ((a : A) (s : List ℕ) → P a → Gives Q (f a s))
    → Gives Q (then_parse o f)
Gives-then P Q (ok a s) f h k = k a s h.given
Gives-then P Q (panic e) f h k = record { given = tt }

abbrev IsRedir : Redir → Type 0
IsRedir r = (r.fd ≡ 0) ⊎ (r.fd ≡ 1)

abbrev AreRedirs : List Redir → Type 0
AreRedirs [] = Unit
AreRedirs (r ∷ rs) = IsRedir r × AreRedirs rs

AreRedirs-append : (xs ys : List Redir) → AreRedirs xs → AreRedirs ys → AreRedirs (xs ++ ys)
AreRedirs-append [] ys hx hy = hy
AreRedirs-append (x ∷ xs) ys (h, hx) hy = (h, AreRedirs-append xs ys hx hy)

redir_of-IsRedir : (tok : ℕ) (file : List ℕ) → IsRedir (redir_of tok file)
redir_of-IsRedir tok file = elim (Bool-cases (tok == b'<')) [
  | inl e ↦ inl (rw e refl)
  | inr e ↦ inr (rw e refl)
]

wrap-IsStandard : (c : Cmd) (rs : List Redir) → IsStandard c → AreRedirs rs → IsStandard (wrap c rs)
unfolding wrap
wrap-IsStandard c [] h k = h
wrap-IsStandard c (r ∷ rs) h (k, ks) = wrap-IsStandard (redir_cmd c r) rs (k, h) ks

redirs-Gives : (fuel : ℕ) (s : List ℕ) → Gives AreRedirs (redirs_from fuel s)
unfolding redirs_from
redirs-Gives zero s = Gives-panic AreRedirs _
redirs-Gives (suc fuel) s = Gives-if _ _ _ (Gives-ok [] _ tt) (
    Gives-if _ _ _ (Gives-panic AreRedirs _) (
      Gives-then AreRedirs AreRedirs (redirs_from fuel _) _ (redirs-Gives fuel _)
        (λ rs s' h. Gives-ok _ s' (redir_of-IsRedir _ _, h))))

parseredirs-Gives : (s : List ℕ) → Gives AreRedirs (parseredirs s)
unfolding parseredirs
parseredirs-Gives s = redirs-Gives (length s + 1) s

abbrev Second : List (List ℕ) × List Redir → Type 0
Second r = AreRedirs r.1

args-Gives : (fuel argc : ℕ) (s : List ℕ) → Gives Second (args_from fuel argc s)
unfolding args_from
args-Gives zero argc s = Gives-panic Second _
args-Gives (suc fuel) argc s =
    let tok = gettoken (skip_space s) in
    Gives-if (peek (b'|' ∷ b')' ∷ b'&' ∷ b';' ∷ []) s) _ _ (Gives-ok ([], []) (skip_space s) tt) (
      Gives-if (tok.kind == 0) _ _ (Gives-ok ([], []) tok.rest tt) (
        Gives-if (not (tok.kind == b'a')) _ _ (Gives-panic Second syntax) (
          Gives-if (leb max_args (argc + 1)) _ _ (Gives-panic Second too_many_args) (
            Gives-then AreRedirs Second (parseredirs tok.rest) _ (parseredirs-Gives tok.rest)
              (λ rs s'. λ h.
                Gives-then Second Second (args_from fuel (argc + 1) s')
                  (λ r s''. ok (tok.text ∷ r.0, rs ++ r.1) s'') (args-Gives fuel (argc + 1) s')
                  (λ r s'' k.
                    Gives-ok (tok.text ∷ r.0, rs ++ r.1) s'' (AreRedirs-append rs r.1 h k)))))))

words-Gives : (s : List ℕ) → Gives IsStandard (parse_words s)
unfolding parse_words
words-Gives s = Gives-then AreRedirs IsStandard (parseredirs s) _ (parseredirs-Gives s) (λ rs s' h.
    Gives-then Second IsStandard (args_from (length s' + 1) 0 s') _
      (args-Gives (length s' + 1) 0 s')
      (λ r s'' k.
        Gives-ok _ s''
          (wrap-IsStandard (exec_cmd r.0) (rs ++ r.1) tt (AreRedirs-append rs r.1 h k))))

backs-Gives :
    (fuel : ℕ) (c : Cmd) (s : List ℕ) → IsStandard c → Gives IsStandard (backs_from fuel c s)
unfolding backs_from
backs-Gives zero c s h = Gives-panic IsStandard _
backs-Gives (suc fuel) c s h = Gives-if _ _ _ (backs-Gives fuel (back_cmd c) _ h) (Gives-ok c _ h)

mutual
  unfolding parseline

  line-Gives : (fuel : ℕ) (s : List ℕ) → Gives IsStandard (parseline fuel s)
  line-Gives zero s = Gives-panic IsStandard _
  line-Gives (suc fuel) s =
      Gives-then IsStandard IsStandard (parsepipe fuel s) _ (pipe-Gives fuel s) (λ c s1 h.
        Gives-then IsStandard IsStandard (backs_from (length s1 + 1) c s1) _
          (backs-Gives (length s1 + 1) c s1 h)
          (λ c' s2 h'.
            Gives-if (peek (b';' ∷ []) s2) _ _
              (Gives-then IsStandard IsStandard (parseline fuel (gettoken (skip_space s2)).rest) _
                (line-Gives fuel (gettoken (skip_space s2)).rest)
                (λ right s3 k. Gives-ok (list_cmd c' right) s3 (h', k)))
              (Gives-ok c' (skip_space s2) h')))

  pipe-Gives : (fuel : ℕ) (s : List ℕ) → Gives IsStandard (parsepipe fuel s)
  pipe-Gives zero s = Gives-panic IsStandard _
  pipe-Gives (suc fuel) s =
      Gives-then IsStandard IsStandard (parseexec fuel s) _ (exec-Gives fuel s) (λ c s1 h.
        Gives-if (peek (b'|' ∷ []) s1) _ _
          (Gives-then IsStandard IsStandard (parsepipe fuel (gettoken (skip_space s1)).rest) _
            (pipe-Gives fuel (gettoken (skip_space s1)).rest)
            (λ right s2 k. Gives-ok (pipe_cmd c right) s2 (h, k)))
          (Gives-ok c (skip_space s1) h))

  exec-Gives : (fuel : ℕ) (s : List ℕ) → Gives IsStandard (parseexec fuel s)
  exec-Gives zero s = Gives-panic IsStandard _
  exec-Gives (suc fuel) s =
      Gives-if (peek (b'(' ∷ []) s) _ _ (block-Gives fuel (skip_space s))
        (words-Gives (skip_space s))

  block-Gives : (fuel : ℕ) (s : List ℕ) → Gives IsStandard (parseblock fuel s)
  block-Gives zero s = Gives-panic IsStandard _
  block-Gives (suc fuel) s =
      Gives-if (not (peek (b'(' ∷ []) s)) _ _ (Gives-panic IsStandard no_block) (
        Gives-then IsStandard IsStandard (parseline fuel (gettoken (skip_space s)).rest) _
          (line-Gives fuel (gettoken (skip_space s)).rest)
          (λ c s1 h.
            Gives-if (not (peek (b')' ∷ []) s1)) _ _ (Gives-panic IsStandard missing_paren) (
              Gives-then AreRedirs IsStandard (parseredirs (gettoken (skip_space s1)).rest) _
                (parseredirs-Gives (gettoken (skip_space s1)).rest)
                (λ rs s2 k. Gives-ok (wrap c rs) s2 (wrap-IsStandard c rs h k)))))

parsecmd-Gives : (s : List ℕ) → Gives IsStandard (parsecmd s)
unfolding parsecmd
parsecmd-Gives s =
    Gives-then IsStandard IsStandard (parseline (4 * length s + 4) s) _
      (line-Gives (4 * length s + 4) s)
      (λ c s' h.
        Gives-if (length (skip_space s') == 0) _ _ (Gives-ok c [] h)
          (Gives-panic IsStandard leftovers))

-- Every line that the parser accepts, in every world, as it is decided there which fork, exec and open
-- succeed, and with descriptors 0 and 1 in use: the processes of runcmd end as the command means. Every
-- program starts with the input and the output that the command gives it, and otherwise with the
-- descriptors of the shell, none of a pipe among them; each call that fails is reported by the text that
-- the code prints; and every child has been waited for that does not belong to & or to a pipe whose
-- second fork failed.
pub parsecmd-runcmd :
    (line : List ℕ) (c : Cmd)
    → parsecmd line ≡ ok c []
    → (w : World) (who : List Bool) (said : List ℕ) (kids : ℕ) (a b : Object) (rest : Fds)
    → run w who said kids (some a ∷ some b ∷ rest) (runcmd c) ≡ meaning w who said kids a b rest c
parsecmd-runcmd line c e w who said kids a b rest =
    let standard = subst (HoldsOf IsStandard) e (parsecmd-Gives line).given in
    runcmd-meaning c standard w who said kids a b rest
