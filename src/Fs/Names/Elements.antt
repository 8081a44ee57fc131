-- ===== src/Fs/Names/Elements.antt =====
-- Path elements, and the end of the lookup of a path.
use os_lab.Prelude.{
  subst, sym, append-nil, ℕ, ◌≤◌, ◌<◌, ◌≡◌, ◌≢◌, ◌==◌, ◌++◌, refl, ap, arith, false, none, some,
  List, [], ◌∷◌, take, length, Bool-cases, inl, inr, ◌⊎◌, ◌∙◌,
}
use os_lab.Fs.{dirsiz}
use os_lab.Fs.Names.{slash, skip_slashes, element, after_element, skipelem_at, skipelem}

abbrev pub AllSlashes : List ℕ → Type 0
AllSlashes [] = Unit {0}
AllSlashes (c ∷ cs) = (c ≡ slash) × AllSlashes cs

abbrev NoSlash : List ℕ → Type 0
NoSlash [] = Unit {0}
NoSlash (c ∷ cs) = (c ≢ slash) × NoSlash cs

-- It does not begin with a slash.
abbrev Starts : List ℕ → Type 0
Starts [] = Unit {0}
Starts (c ∷ cs) = c ≢ slash

skip_slashes_lem :
    (path : List ℕ)
    → (s : List ℕ) × AllSlashes s × (path ≡ s ++ skip_slashes path) × Starts (skip_slashes path)
unfolding skip_slashes
skip_slashes_lem [] = ([], tt, refl, tt)
skip_slashes_lem (c ∷ cs) = elim (Bool-cases (c == slash)) [
  | inl e ↦
      let (s, a, p, b) = skip_slashes_lem cs in
      rw e (c ∷ s, (ground arith, a), ap (λ (l : List ℕ). c ∷ l) p, b)
  | inr e ↦ rw e ([], tt, refl, ground arith)
]

element_lem : (path : List ℕ) → (path ≡ element path ++ after_element path) × NoSlash (element path)
unfolding element after_element
element_lem [] = (refl, tt)
element_lem (c ∷ cs) = elim (Bool-cases (c == slash)) [
  | inl e ↦ rw e (refl, tt)
  | inr e ↦ let (p, n) = element_lem cs in rw e (ap (λ (l : List ℕ). c ∷ l) p, (ground arith, n))
]

-- The element is followed by a slash, if by anything.
after_slash : (path : List ℕ) (c : ℕ) (cs : List ℕ) → after_element path ≡ c ∷ cs → c ≡ slash
unfolding after_element
after_slash [] c cs h = cc
after_slash (b ∷ bs) c cs h = elim (Bool-cases (b == slash)) [
  | inl e ↦ ground arith
  | inr e ↦ after_slash bs c cs (ground arith)
]

-- An element that no slash follows is the last thing of the path.
stops : (path t rest : List ℕ) → after_element path ≡ t ++ rest → Starts rest → t ≡ [] → rest ≡ []
stops path t [] p s e = refl
stops path t (c ∷ cs) p s e =
    absurd (s (after_slash path c cs (p ∙ ap (λ (l : List ℕ). l ++ (c ∷ cs)) e)))

-- What skipelem takes off a path.
pub record Skipped (path name rest : List ℕ) : Type 0 where
  pub before : List ℕ
  pub elem : List ℕ
  pub behind : List ℕ
  pub parts : path ≡ before ++ (elem ++ (behind ++ rest))
  pub before_slashes : AllSlashes before
  pub behind_slashes : AllSlashes behind
  pub whole : NoSlash elem
  pub not_empty : elem ≢ []
  pub next : Starts rest
  pub maximal : behind ≡ [] → rest ≡ []
  pub cut : name ≡ take dirsiz elem

skipped :
    (path : List ℕ) (c : ℕ) (cs : List ℕ)
    → skip_slashes path ≡ c ∷ cs
    → Skipped path (take dirsiz (element (c ∷ cs))) (skip_slashes (after_element (c ∷ cs)))
unfolding element
skipped path c cs e =
    let (s, a, p, b) = skip_slashes_lem path in
    let (q, n) = element_lem (c ∷ cs) in
    let (t, a', p', b') = skip_slashes_lem (after_element (c ∷ cs)) in
    let first : (c == slash) ≡ false = ground arith in
    record {
      before = s;
      elem = element (c ∷ cs);
      behind = t;
      parts =
          p ∙ ap (λ (l : List ℕ). s ++ l) (e ∙ (q ∙ ap (λ (l : List ℕ). element (c ∷ cs) ++ l) p'));
      before_slashes = a;
      behind_slashes = a';
      whole = n;
      not_empty = λ z. ground arith;
      next = b';
      maximal = stops (c ∷ cs) t (skip_slashes (after_element (c ∷ cs))) p' b';
      cut = refl;
    }

-- skipelem of a path gives the null pointer exactly if the path has nothing but slashes. Otherwise
-- the path is slashes, an element, which is not empty and has no slash, slashes again, and a rest
-- that does not begin with one; the element goes as far as it can: if no slash follows it, the rest
-- is empty. The name is the element, cut at DIRSIZ bytes, and the rest is returned.
pub skipelem_lem :
    (path : List ℕ)
    → ((skipelem path ≡ none) × AllSlashes path)
      ⊎ ((name : List ℕ) × (rest : List ℕ) × (skipelem path ≡ some (name, rest))
          × Skipped path name rest)
unfolding skipelem skipelem_at
skipelem_lem path = split (skip_slashes path) refl
  where
    split :
        (l : List ℕ)
        → skip_slashes path ≡ l
        → ((skipelem path ≡ none) × AllSlashes path)
          ⊎ ((name : List ℕ) × (rest : List ℕ) × (skipelem path ≡ some (name, rest))
              × Skipped path name rest)
    split [] e =
        let (s, a, p, b) = skip_slashes_lem path in
        inl (
          rw (e, skipelem_at) refl,
          subst AllSlashes (sym (p ∙ (ap (λ (l : List ℕ). s ++ l) e ∙ append-nil s))) a,
        )
    split (c ∷ cs) e = inr (
      take dirsiz (element (c ∷ cs)),
      skip_slashes (after_element (c ∷ cs)),
      rw (e, skipelem_at) refl,
      skipped path c cs e,
    )

length-skip_slashes : (path : List ℕ) → length (skip_slashes path) ≤ length path
unfolding skip_slashes
length-skip_slashes [] = omega arith
length-skip_slashes (c ∷ cs) = ground (arith, length-skip_slashes cs)

length-after_element : (path : List ℕ) → length (after_element path) ≤ length path
unfolding after_element
length-after_element [] = omega arith
length-after_element (c ∷ cs) = ground (arith, length-after_element cs)

starts_elem : (c : ℕ) (cs : List ℕ) → c ≢ slash → after_element (c ∷ cs) ≡ after_element cs
unfolding after_element
starts_elem c cs h = ground arith

-- Each element makes the path shorter.
pub length-skipelem :
    (path name rest : List ℕ) → skipelem path ≡ some (name, rest) → length rest < length path
unfolding skipelem skipelem_at
length-skipelem path name rest h = split (skip_slashes path) refl
  where
    split : (l : List ℕ) → skip_slashes path ≡ l → length rest < length path
    split [] e = absurd (ground (arith, e))
    split (c ∷ cs) e =
        let (s, a, p, b) = skip_slashes_lem path in
        let first : c ≢ slash = ground arith in
        ground (
          arith,
          length-skip_slashes path,
          length-skip_slashes (after_element (c ∷ cs)),
          starts_elem c cs first,
          length-after_element cs,
        )
