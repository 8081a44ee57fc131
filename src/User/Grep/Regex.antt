-- ===== src/User/Grep/Regex.antt =====
-- What a pattern means, with no order of search in it, and that match finds it.
use os_lab.Prelude.{
  ℕ, Bool, [], ◌∷◌, ◌++◌, true, false, not, ◌==◌, ◌&&◌, ◌||◌, ◌≡◌, ◌⊎◌, ◌↔◌, inl, inr,
  if◌then◌else◌, arith, refl, sym, ap, ◌∙◌, Bool-cases, append_assoc, both_true, eq_of_==, if_else,
  not-true,
}
use os_lab.User.Grep.{
  dot, Text, matchhere, dollar, caret, match_one, matchstar, star, match_from, match,
}

-- One byte, as '.' or itself.
abbrev Accepts : ℕ → ℕ → Type 0
Accepts c t = (c ≡ dot) ⊎ (c ≡ t)

-- The byte `c` before `re` stands for itself: no '*' follows it, and it is not a '$' at the end.
abbrev is_plain : ℕ → Text → Bool
is_plain c [] = not (c == dollar)
is_plain c (d ∷ re) = not (d == star)

abbrev Repeats : ℕ → Text → Type 0
Repeats c [] = Unit {0}
Repeats c (t ∷ u) = Accepts c t × Repeats c u

-- `Matches re w rest`: the pattern, put at the start of `w ++ rest`, covers `w`.
pub data Matches : Text → Text → Text → Type 0 where
  nothing : {rest : Text} → Matches [] [] rest
  ending : {c : ℕ} → c ≡ dollar → Matches (c ∷ []) [] []
  one :
      {c t : ℕ} {re w rest : Text}
      → is_plain c re ≡ true
      → Accepts c t
      → Matches re w rest
      → Matches (c ∷ re) (t ∷ w) rest
  many :
      {c s : ℕ} {re v rest : Text} (u w : Text)
      → s ≡ star
      → Repeats c u
      → Matches re w rest
      → v ≡ u ++ w
      → Matches (c ∷ s ∷ re) v rest

-- A part of the text is covered, at its start; and somewhere, at its start if the pattern has '^'.
abbrev Begins : Text → Text → Type 0
Begins re text = (w : Text) × (rest : Text) × (text ≡ w ++ rest) × Matches re w rest

abbrev Within : Text → Text → Type 0
Within re text = (before : Text) × (after : Text) × (text ≡ before ++ after) × Begins re after

abbrev pub Occurs : Text → Text → Type 0
Occurs [] text = Within [] text
Occurs (c ∷ re) text = if c == caret then Begins re text else Within (c ∷ re) text

Accepts-iff : (c t : ℕ) → ((c == dot || c == t) ≡ true) ↔ Accepts c t
Accepts-iff c t = ground arith

matchhere_plain :
    (c : ℕ) (re text : Text)
    → is_plain c re ≡ true
    → matchhere (c ∷ re) text ≡ match_one c (matchhere re) text
unfolding matchhere
matchhere_plain c [] text h = if_else (c == dollar) _ _ (not-true (c == dollar) h)
matchhere_plain c (d ∷ re) text h = if_else (d == star) _ _ (not-true (d == star) h)

module _ (c : ℕ) (here : Text → Bool) where
  matchstar-here : (text : Text) → here text ≡ true → matchstar c here text ≡ true
  unfolding matchstar
  matchstar-here [] h = h
  matchstar-here (t ∷ text) h = rw h refl

  matchstar_complete :
      (u text : Text) → Repeats c u → here text ≡ true → matchstar c here (u ++ text) ≡ true
  unfolding matchstar
  matchstar_complete [] text r h = matchstar-here text h
  matchstar_complete (t ∷ u) text (a, r) h = rw (matchstar_complete u text r h) (ground (arith, a))

  matchstar_sound :
      (text : Text)
      → matchstar c here text ≡ true
      → (u : Text) × (after : Text) × (text ≡ u ++ after) × Repeats c u × (here after ≡ true)
  unfolding matchstar
  matchstar_sound [] h = ([], [], refl, tt, h)
  matchstar_sound (t ∷ text) h = elim (Bool-cases (here (t ∷ text))) [
    | inl now ↦ ([], t ∷ text, refl, tt, now)
    | inr later ↦
        let both : ((t == c || c == dot) && matchstar c here text) ≡ true = rw later at h in
        let (acc, more) = both_true (t == c || c == dot) (matchstar c here text) both in
        let (u, after, e, r, found) = matchstar_sound text more in
        (t ∷ u, after, ap (λ x. t ∷ x) e, (ground arith, r), found)
  ]

complete : {re w rest : Text} → Matches re w rest → matchhere re (w ++ rest) ≡ true
unfolding matchhere
complete nothing = refl
complete (ending e) = rw e refl
complete (one {c} {t} {re} {w} {rest} p a d) =
    matchhere_plain c re (t ∷ w ++ rest) p ∙ rw (complete d) (ground (arith, a))
complete (many {c} {s} {re} {v} {rest} u w e r d split) =
    rw (e, split, append_assoc u w rest)
      (matchstar_complete c (matchhere re) u (w ++ rest) r (complete d))

sound : (re text : Text) → matchhere re text ≡ true → Begins re text
unfolding matchhere
sound [] text h = ([], text, refl, nothing)
sound (c ∷ []) [] h = elim (Bool-cases (c == dollar)) [
  | inl e ↦ ([], [], refl, ending (eq_of_== c dollar e))
  | inr e ↦ cc (rw e at h)
]
sound (c ∷ []) (t ∷ text) h = elim (Bool-cases (c == dollar)) [
  | inl e ↦ cc (rw e at h)
  | inr e ↦
      let hit : (c == dot || c == t) ≡ true = ground arith in
      (t ∷ [], text, refl, one (ap not e) ((Accepts-iff c t).0 hit) nothing)
]
sound (c ∷ d ∷ re) text h = elim (Bool-cases (d == star)) [
  | inl e ↦
      let (u, after, split, r, found) = matchstar_sound c (matchhere re) text (rw e at h) in
      let (w, rest, split', m) = sound re after found in
      (
        u ++ w,
        rest,
        split ∙ (ap (λ x. u ++ x) split' ∙ sym (append_assoc u w rest)),
        many u w (eq_of_== d star e) r m refl,
      )
  | inr e ↦ one_sound c d re text (sound (d ∷ re)) e (rw e at h)
]
  where
    one_sound :
        (c d : ℕ) (re text : Text)
        → ((text' : Text) → matchhere (d ∷ re) text' ≡ true → Begins (d ∷ re) text')
        → (d == star) ≡ false
        → match_one c (matchhere (d ∷ re)) text ≡ true
        → Begins (c ∷ d ∷ re) text
    one_sound c d re [] ih e h = cc
    one_sound c d re (t ∷ text) ih e h = elim (Bool-cases (c == dot || c == t)) [
      | inl hit ↦
          let (w, rest, split, m) = ih text (rw hit at h) in
          (t ∷ w, rest, ap (λ x. t ∷ x) split, one (ap not e) ((Accepts-iff c t).0 hit) m)
      | inr miss ↦ cc (rw miss at h)
    ]

from_sound : (re text : Text) → match_from re text ≡ true → Within re text
unfolding match_from
from_sound re [] h = ([], [], refl, sound re [] h)
from_sound re (t ∷ text) h = elim (Bool-cases (matchhere re (t ∷ text))) [
  | inl now ↦ ([], t ∷ text, refl, sound re (t ∷ text) now)
  | inr later ↦
      let (before, after, split, found) = from_sound re text (rw later at h) in
      (t ∷ before, after, ap (λ x. t ∷ x) split, found)
]

Begins-complete : (re text : Text) → Begins re text → matchhere re text ≡ true
Begins-complete re text (w, rest, split, m) = rw split (complete m)

from-here : (re text : Text) → matchhere re text ≡ true → match_from re text ≡ true
unfolding match_from
from-here re [] h = h
from-here re (t ∷ text) h = rw h refl

from_complete : (re before after : Text) → Begins re after → match_from re (before ++ after) ≡ true
unfolding match_from
from_complete re [] after b = from-here re after (Begins-complete re after b)
from_complete re (t ∷ before) after b = rw (from_complete re before after b) (ground arith)

Within-complete : (re text : Text) → Within re text → match_from re text ≡ true
Within-complete re text (before, after, split, b) = rw split (from_complete re before after b)

-- match answers yes exactly if the pattern occurs in the text: some part of the text, at its start
-- if the pattern begins with '^', is made up of what the pattern says, byte for byte: '.' stands for
-- any byte, a byte and '*' for any number of such bytes, none included, a '$' at the end of the
-- pattern for the end of the text, and every other byte for itself.
pub match_iff : (re text : Text) → (match re text ≡ true) ↔ Occurs re text
unfolding match
match_iff [] text = (from_sound [] text, Within-complete [] text)
match_iff (c ∷ re) text = elim (Bool-cases (c == caret)) [
  | inl e ↦ rw e (sound re text, Begins-complete re text)
  | inr e ↦ rw e (from_sound (c ∷ re) text, Within-complete (c ∷ re) text)
]
