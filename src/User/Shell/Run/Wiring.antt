-- ===== src/User/Shell/Run/Wiring.antt =====
-- The descriptors of a pipe come and go: what runcmd leaves of them to the programs.
use os_lab.Prelude.{
  ℕ, List, Option, [], ◌∷◌, none, some, true, ◌≡◌, ◌≢◌, refl, set, get_elem?, zero, suc, arith,
  find_index-some, Option-cases, find_index, set-set, ◌∙◌, inl, set_same, ap, inr,
  get_elem?-set_self, sym, later, lt_of_get_elem?, subst, get_elem?-set_ne,
}
use os_lab.User.Shell.Run.Machine.{
  Object, Fds, slots, slots_from, lowest, is_free, given, second_of,
}

module _ {ℓ} {A : Type ℓ} where
  -- Two entries written and written back.
  pub undo_two :
      (xs : List A) (i j : ℕ) (x y n : A)
      → i ≢ j
      → get_elem? xs i ≡ some n
      → get_elem? xs j ≡ some n
      → set (set (set (set xs i x) j y) i n) j n ≡ xs
  undo_two [] i j x y n ne g h = refl
  undo_two (z ∷ zs) zero zero x y n ne g h = absurd (ne refl)
  undo_two (z ∷ zs) zero (suc j) x y n ne g h =
      let e : n ≡ z = ground arith in rw (set-set zs j y n) (rw (set_same zs j h) (rw e refl))
  undo_two (z ∷ zs) (suc i) zero x y n ne g h =
      let e : n ≡ z = ground arith in rw (set-set zs i x n) (rw (set_same zs i g) (rw e refl))
  undo_two (z ∷ zs) (suc i) (suc j) x y n ne g h =
      ap (λ (l : List A). z ∷ l) (undo_two zs i j x y n (λ e. ne (ap suc e)) g h)

free_is_none : (o : Option Object) → is_free o ≡ true → o ≡ none
free_is_none none h = refl
free_is_none (some o) h = absurd (ground arith)

lowest_free : (t : Fds) (i : ℕ) → lowest t ≡ some i → get_elem? t i ≡ some none
lowest_free t i e = let (o, g, f) = find_index-some is_free t e in g ∙ ap some (free_is_none o f)

module _ (t : Fds) where
  slots_none_left : lowest t ≡ none → slots t ≡ none
  slots_none_left e = ap (slots_from t) e

  slots_one_left :
      (p : ℕ) → lowest t ≡ some p → lowest (set t p (some (given 0))) ≡ none → slots t ≡ none
  slots_one_left p f e = ap (slots_from t) f ∙ ap (second_of p) e

  slots_two_left :
      (p q : ℕ)
      → lowest t ≡ some p
      → lowest (set t p (some (given 0))) ≡ some q
      → slots t ≡ some (p, q)
  slots_two_left p q f g = ap (slots_from t) f ∙ ap (second_of p) g

  two_free :
      (p q : ℕ)
      → lowest t ≡ some p
      → lowest (set t p (some (given 0))) ≡ some q
      → (get_elem? t p ≡ some none) × (get_elem? t q ≡ some none) × (p ≢ q)
  two_free p q f g =
      let at_p = lowest_free t p f in
      let at_q = lowest_free (set t p (some (given 0))) q g in
      let here = get_elem?-set_self t p (some (given 0)) (lt_of_get_elem? t p at_p) in
      let ne : p ≢ q = λ e. absurd (ground (arith, here, at_q, e)) in
      (at_p, sym (get_elem?-set_ne t (some (given 0)) ne) ∙ at_q, ne)

  -- The two descriptors of a pipe are free, and different.
  pub slots_free :
      (i j : ℕ)
      → slots t ≡ some (i, j)
      → (get_elem? t i ≡ some none) × (get_elem? t j ≡ some none) × (i ≢ j)
  slots_free i j e = elim (Option-cases (lowest t)) [
    | inl n ↦ cc (slots_none_left n, e)
    | inr (p, f) ↦ elim (Option-cases (lowest (set t p (some (given 0))))) [
      | inl n ↦ cc (slots_one_left p f n, e)
      | inr (q, g) ↦
          let same : ◌≡◌ {A = Option (ℕ × ℕ)} (some (p, q)) (some (i, j)) =
            sym (slots_two_left p q f g) ∙ e in
          let is_p : p ≡ i = ground arith in
          let is_q : q ≡ j = ground arith in
          subst (λ z. (get_elem? t z ≡ some none) × (get_elem? t j ≡ some none) × (z ≢ j)) is_p
            (subst (λ z. (get_elem? t p ≡ some none) × (get_elem? t z ≡ some none) × (p ≢ z)) is_q
              (two_free p q f g))
    ]
  ]

abbrev pub above : Option (ℕ × ℕ) → Option (ℕ × ℕ)
above none = none
above (some (i, j)) = some (suc (suc i), suc (suc j))

abbrev two_later : Option ℕ → Option ℕ
two_later o = later (later o)

-- Above two that are in use.
pub slots_above : (a b : Object) (t : Fds) → slots (some a ∷ some b ∷ t) ≡ above (slots t)
unfolding find_index
slots_above a b t = elim (Option-cases (lowest t)) [
  | inl n ↦
      slots_none_left (some a ∷ some b ∷ t) (ap two_later n) ∙ ap above (sym (slots_none_left t n))
  | inr (p, f) ↦ elim (Option-cases (lowest (set t p (some (given 0))))) [
    | inl n ↦
        slots_one_left (some a ∷ some b ∷ t) (suc (suc p)) (ap two_later f) (ap two_later n)
        ∙ ap above (sym (slots_one_left t p f n))
    | inr (q, g) ↦
        slots_two_left (some a ∷ some b ∷ t) (suc (suc p)) (suc (suc q)) (ap two_later f)
          (ap two_later g)
        ∙ ap above (sym (slots_two_left t p q f g))
  ]
]
