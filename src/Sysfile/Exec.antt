-- ===== src/Sysfile/Exec.antt =====
-- sys_exec of sysfile.c: the vector of arguments that it reads from user memory for exec.
use os_lab.Prelude.{
  ℕ, List, Option, some, none, zero, suc, ◌≡◌, ◌+◌, ◌<◌, ◌%◌, ◌^◌, ◌*◌, ◌==◌, [], ◌∷◌,
  if◌then◌else◌, ◌≢◌, length, arith, get_elem?, Option-cases, inl, inr, subst, Bool-cases, leb, ◌∙◌,
  ◌≤◌, ◌⊎◌, ap, false, refl, eq_of_==, ne_of_==,
}
use os_lab.Prelude.Int.{ℤ, negsuc}
use os_lab.Syscall.{Memory, fetchint, fetchstr, argint, argstr}
use os_lab.Syscall.Bounds.{fetchstr_bounds}

abbrev max_arg : ℕ
max_arg = 32

abbrev prepend : {A : Type 0} → A → Option (List A) → Option (List A)
prepend x none = none
prepend x (some xs) = some (x ∷ xs)

module _ (m : Memory) (size : ℕ) where
  -- A null pointer ends the vector; another one must point to a string.
  unfoldable pub add_arg : ℕ → Option (List (ℕ × ℕ)) → Option (List (ℕ × ℕ))
  add_arg uarg rest =
      if uarg == 0
      then some []
      else (elim (fetchstr m size uarg) [ none ↦ none | some n ↦ prepend (uarg, n) rest ])

  -- The pointers and the lengths of argv[i] and the strings after it. The loop leaves at
  -- i >= NELEM(argv), so that a round more than the array has places is enough fuel.
  unfoldable pub exec_args : ℕ → ℕ → ℕ → Option (List (ℕ × ℕ))
  exec_args zero uargv i = none
  exec_args (suc n) uargv i =
      let rest = exec_args n uargv (i + 1) in
      if leb max_arg i then none else (elim (fetchint m size ((uargv + 4 * i) % 2 ^ 32)) [
        | none ↦ none
        | some uarg ↦ add_arg uarg rest
      ])

  -- exec, which gets the path and the vector, is a parameter.
  unfoldable pub sys_exec : (ℕ × ℕ → List (ℕ × ℕ) → ℤ) → ℕ → ℤ
  sys_exec exec esp = elim (argstr m size esp 0) [
    | none ↦ negsuc 0
    | some path ↦ elim (argint m size esp 1) [
      | none ↦ negsuc 0
      | some uargv ↦ elim (exec_args (max_arg + 1) uargv 0) [
        | none ↦ negsuc 0
        | some argv ↦ exec path argv
      ]
    ]
  ]

  -- A string of `n` bytes at `a` that ends inside the process.
  abbrev pub IsInside : ℕ × ℕ → Type 0
  IsInside (a, n) = (a + n < size) × (m (a + n) ≡ 0) × ((j : ℕ) → j < n → m (a + j) ≢ 0)

  -- The words from `uargv + 4 * i` on are pointers to the strings `xs`, and a null pointer, all in
  -- the first 32 places.
  abbrev pub IsVector : ℕ → ℕ → List (ℕ × ℕ) → Type 0
  IsVector uargv i [] = (i < 32) × (fetchint m size ((uargv + 4 * i) % 2 ^ 32) ≡ some 0)
  IsVector uargv i ((a, n) ∷ xs) =
      (i < 32)
      × (fetchint m size ((uargv + 4 * i) % 2 ^ 32) ≡ some a)
      × (a ≢ 0)
      × (fetchstr m size a ≡ some n)
      × IsVector uargv (i + 1) xs

  length-IsVector : (uargv i : ℕ) (xs : List (ℕ × ℕ)) → IsVector uargv i xs → i + length xs < 32
  length-IsVector uargv i [] (lt, e) = omega arith
  length-IsVector uargv i ((a, n) ∷ xs) (lt, e, nz, f, v) =
      let rest = length-IsVector uargv (i + 1) xs v in ground arith

  IsVector-IsInside :
      (uargv i : ℕ) (xs : List (ℕ × ℕ))
      → IsVector uargv i xs
      → (k : ℕ) (x : ℕ × ℕ) → get_elem? xs k ≡ some x
      → IsInside x
  IsVector-IsInside uargv i [] v k x g = absurd (ground arith)
  IsVector-IsInside uargv i ((a, n) ∷ xs) (lt, e, nz, f, v) zero x g =
      let q : (a, n) ≡ x = ground arith in subst IsInside q (fetchstr_bounds m size a n f)
  IsVector-IsInside uargv i ((a, n) ∷ xs) (lt, e, nz, f, v) (suc k) x g =
      IsVector-IsInside uargv (i + 1) xs v k x g

  -- What add_arg adds to a vector.
  add_arg-IsVector :
      (uargv i uarg : ℕ) (rest : Option (List (ℕ × ℕ))) (xs : List (ℕ × ℕ))
      → i < 32
      → fetchint m size ((uargv + 4 * i) % 2 ^ 32) ≡ some uarg
      → ((ys : List (ℕ × ℕ)) → rest ≡ some ys → IsVector uargv (i + 1) ys)
      → add_arg uarg rest ≡ some xs
      → IsVector uargv i xs
  unfolding add_arg
  add_arg-IsVector uargv i uarg rest xs lt at more h = elim (Bool-cases (uarg == 0)) [
    | inl z ↦
        let q : [] ≡ xs = ground arith in
        subst (IsVector uargv i) q (lt, at ∙ ap some (eq_of_== uarg 0 z))
    | inr nz ↦ elim (Option-cases (fetchstr m size uarg)) [
      | inl e ↦ absurd (ground arith)
      | inr (n, e) ↦ elim (Option-cases rest) [
        | inl r ↦ absurd (ground arith)
        | inr (ys, r) ↦
            let q : (uarg, n) ∷ ys ≡ xs = ground arith in
            subst (IsVector uargv i) q (lt, at, ne_of_== uarg 0 nz, e, more ys r)
      ]
    ]
  ]

  exec_args-IsVector :
      (n uargv i : ℕ) (xs : List (ℕ × ℕ)) → exec_args n uargv i ≡ some xs → IsVector uargv i xs
  unfolding exec_args
  exec_args-IsVector zero uargv i xs h = absurd (ground arith)
  exec_args-IsVector (suc n) uargv i xs h = elim (Bool-cases (leb max_arg i)) [
    | inl over ↦ absurd (ground arith)
    | inr room ↦ elim (Option-cases (fetchint m size ((uargv + 4 * i) % 2 ^ 32))) [
      | inl e ↦ absurd (ground arith)
      | inr (uarg, e) ↦
          add_arg-IsVector uargv i uarg (exec_args n uargv (i + 1)) xs (ground arith) e
            (λ ys r. exec_args-IsVector n uargv (i + 1) ys r) (ground arith)
    ]
  ]

  -- With enough fuel, a vector is read.
  exec_args-all :
      (n uargv i : ℕ) (xs : List (ℕ × ℕ))
      → 33 ≤ i + n
      → IsVector uargv i xs
      → exec_args n uargv i ≡ some xs
  unfolding exec_args add_arg
  exec_args-all zero uargv i xs enough v =
      let b = length-IsVector uargv i xs v in absurd (omega arith)
  exec_args-all (suc n) uargv i [] enough (lt, e) =
      let room : leb max_arg i ≡ false = ground arith in rw room (rw e refl)
  exec_args-all (suc n) uargv i ((a, l) ∷ xs) enough (lt, e, nz, f, v) =
      let room : leb max_arg i ≡ false = ground arith in
      let not_null : (a == 0) ≡ false = ground arith in
      rw room
        (rw e (rw not_null (rw f (rw (exec_args-all n uargv (i + 1) xs (omega arith) v) refl))))

  -- The two outcomes of sys_exec.
  abbrev pub ExecOutcome : (ℕ × ℕ → List (ℕ × ℕ) → ℤ) → ℕ → Type 0
  ExecOutcome exec esp =
      ((sys_exec exec esp ≡ negsuc 0)
        × ((argstr m size esp 0 ≡ none)
            ⊎ (argint m size esp 1 ≡ none)
            ⊎ ((uargv : ℕ) × (argint m size esp 1 ≡ some uargv)
                × ((xs : List (ℕ × ℕ)) → ¬ IsVector uargv 0 xs))))
      ⊎ ((path : ℕ × ℕ) × (uargv : ℕ) × (argv : List (ℕ × ℕ)) × (sys_exec exec esp ≡ exec path argv)
          × (argstr m size esp 0 ≡ some path)
          × (argint m size esp 1 ≡ some uargv)
          × IsVector uargv 0 argv
          × (length argv < 32)
          × ((k : ℕ) (x : ℕ × ℕ) → get_elem? argv k ≡ some x → IsInside x))

  -- sys_exec returns -1 only if the path or the vector's address cannot be read from the stack, or
  -- if the 32 words at that address are no vector: pointers to strings and a null pointer. Otherwise
  -- it calls exec with the path and exactly this vector. There are fewer than 32 strings, so that
  -- the array has room for the null pointer, and each ends inside the process: the byte at its
  -- length is zero and lies below the size, and no byte before it is zero.
  pub sys_exec_lem : (exec : ℕ × ℕ → List (ℕ × ℕ) → ℤ) (esp : ℕ) → ExecOutcome exec esp
  unfolding sys_exec
  sys_exec_lem exec esp = elim (Option-cases (argstr m size esp 0)) [
    | inl e ↦ inl (no_path e, inl e)
    | inr (path, e) ↦ elim (Option-cases (argint m size esp 1)) [
      | inl f ↦ inl (no_vector path e f, inr (inl f))
      | inr (uargv, f) ↦ elim (Option-cases (exec_args (max_arg + 1) uargv 0)) [
        | inl g ↦ inl (
          refused path uargv e f g,
          inr (
              inr (
                uargv,
                f,
                λ xs v.
                    absurd (let h = exec_args-all 33 uargv 0 xs (omega arith) v in ground arith),
              )),
        )
        | inr (argv, g) ↦
            let v = exec_args-IsVector (max_arg + 1) uargv 0 argv g in
            inr (
              path,
              uargv,
              argv,
              called path uargv argv e f g,
              e,
              f,
              v,
              omega (arith, length-IsVector uargv 0 argv v),
              IsVector-IsInside uargv 0 argv v,
            )
      ]
    ]
  ]
    where
      no_path : argstr m size esp 0 ≡ none → sys_exec exec esp ≡ negsuc 0
      no_path e = rw (sys_exec, e) refl

      no_vector :
          (path : ℕ × ℕ)
          → argstr m size esp 0 ≡ some path
          → argint m size esp 1 ≡ none
          → sys_exec exec esp ≡ negsuc 0
      no_vector path e f = rw (sys_exec, e) (rw f refl)

      refused :
          (path : ℕ × ℕ) (uargv : ℕ)
          → argstr m size esp 0 ≡ some path
          → argint m size esp 1 ≡ some uargv
          → exec_args (max_arg + 1) uargv 0 ≡ none
          → sys_exec exec esp ≡ negsuc 0
      refused path uargv e f g = rw (sys_exec, e) (rw f (rw g refl))

      called :
          (path : ℕ × ℕ) (uargv : ℕ) (argv : List (ℕ × ℕ))
          → argstr m size esp 0 ≡ some path
          → argint m size esp 1 ≡ some uargv
          → exec_args (max_arg + 1) uargv 0 ≡ some argv
          → sys_exec exec esp ≡ exec path argv
      called path uargv argv e f g = rw (sys_exec, e) (rw f (rw g refl))
