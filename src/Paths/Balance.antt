-- ===== src/Paths/Balance.antt =====
-- Every call on a path that begins an operation of the log ends it, on every way through its code.
use os_lab.Prelude.{
  ℕ, ◌+◌, ◌≡◌, ◌⊎◌, inl, inr, Option, none, some, Bool, true, false, refl, arith, List, ◌∙◌, ap,
}
use os_lab.Fs.{Result}
use os_lab.Fs.Inodes.{Fs}
use os_lab.Fs.Names.Lookup.{namex-Ends}
use os_lab.Paths.State.{
  Store, S, Panic, ok, panic, ◌>>=◌, ◌>>◌, pure, fail, lift, begin_op, end_op, continue, stored,
  branch, on_pointer,
}
use os_lab.Paths.{Site, lookup, leave, found_path}

-- The code returns, by a panic or with a result, and then it has begun `b` operations and ended `e`.
pub record Moves {A : Type 0} (b e : ℕ) (m : S A) : Type 0 where
  pub outcome :
      (s : Store)
      → ((x : Panic) × (m s ≡ some (panic x)))
        ⊎ ((a : A) × (s' : Store) × (m s ≡ some (ok a s'))
            × (s'.begun ≡ s.begun + b)
            × (s'.ended ≡ s.ended + e))

pub Moves-pure : {A : Type 0} (a : A) → Moves 0 0 (pure a)
Moves-pure a = record { outcome = λ s. inr (a, s, refl, omega arith, omega arith) }

pub Moves-fail : {A : Type 0} (b e : ℕ) (x : Panic) → Moves {A = A} b e (fail x)
Moves-fail b e x = record { outcome = λ s. inl (x, refl) }

stored-cases :
    {A : Type 0} (s : Store) (r : Result (A × Fs))
    → ((x : Panic) × (stored s r ≡ panic x))
      ⊎ ((a : A) × (f : Fs) × (stored s r ≡ ok a (record s { fs = f })))
stored-cases s (Result.ok (a, f)) = inr (a, f, refl)
stored-cases s (Result.panic e) = inl (_, refl)

pub Moves-lift : {A : Type 0} (m : Fs → Result (A × Fs)) → Moves 0 0 (lift m)
Moves-lift m = record {
  outcome = λ s. elim (stored-cases s (m s.fs)) [
    | inl (x, e) ↦ inl (x, ap some e)
    | inr (a, f, e) ↦ inr (a, record s { fs = f }, ap some e, omega arith, omega arith)
  ];
}

pub Moves-leave : {A : Type 0} (a : A) → Moves 0 1 (leave a)
unfolding end_op
Moves-leave a = record {
  outcome = λ s. inr (a, record s { ended = s.ended + 1 }, refl, omega arith, omega arith);
}

-- One after the other.
pub Moves-then :
    {A B : Type 0} {b e : ℕ} (m : S A) (f : A → S B)
    → Moves 0 0 m
    → ((a : A) → Moves b e (f a))
    → Moves b e (m >>= f)
Moves-then m f hm hf = record {
  outcome = λ s. elim (hm.outcome s) [
    | inl (x, d) ↦ inl (x, ap (continue f) d)
    | inr (a, s1, d, k, l) ↦ elim ((hf a).outcome s1) [
      | inl (x, d') ↦ inl (x, ap (continue f) d ∙ d')
      | inr (a', s2, d', k', l') ↦ inr (a', s2, ap (continue f) d ∙ d', omega arith, omega arith)
    ]
  ];
}

pub Moves-begin : {A : Type 0} (e : ℕ) (m : S A) → Moves 0 e m → Moves 1 e (begin_op >> m)
unfolding begin_op
Moves-begin e m h = record {
  outcome = λ s. elim (h.outcome (record s { begun = s.begun + 1 })) [
    | inl (x, d) ↦ inl (x, d)
    | inr (a, s', d, k, l) ↦ inr (a, s', d, omega arith, omega arith)
  ];
}

module _ {A : Type 0} {b e : ℕ} where
  pub Moves-branch : (t : Bool) (x y : S A) → Moves b e x → Moves b e y → Moves b e (branch t x y)
  unfolding branch
  Moves-branch true x y hx hy = hx
  Moves-branch false x y hx hy = hy

  pub Moves-on_pointer :
      {B : Type 0} (o : Option B) (x : S A) (f : B → S A)
      → Moves b e x
      → ((c : B) → Moves b e (f c))
      → Moves b e (on_pointer o x f)
  unfolding on_pointer
  Moves-on_pointer none x f hx hf = hx
  Moves-on_pointer (some c) x f hx hf = hf c

-- A lookup of a path ends.
found-cases :
    (s : Store) (r : Result (Option ℕ × List ℕ × Fs))
    → ((x : Panic) × (found_path s (some r) ≡ some (panic x)))
      ⊎ ((a : Option ℕ × List ℕ) × (f : Fs) × (found_path s (some r)
            ≡ some (ok a (record s { fs = f }))))
found-cases s (Result.ok (i, name, f)) = inr ((i, name), f, refl)
found-cases s (Result.panic e) = inl (_, refl)

pub Moves-lookup : (w : Site) (parent : Bool) (path : List ℕ) → Moves 0 0 (lookup w parent path)
unfolding lookup
Moves-lookup w parent path = record {
  outcome = λ s.
      let (r, d) = namex-Ends w.devices w.superblock w.caller parent path s.fs in
      let step : lookup w parent path s ≡ found_path s (some r) = ap (found_path s) d in
      elim (found-cases s r) [
        | inl (x, e) ↦ inl (x, step ∙ e)
        | inr (a, f, e) ↦ inr (a, record s { fs = f }, step ∙ e, omega arith, omega arith)
      ];
}
