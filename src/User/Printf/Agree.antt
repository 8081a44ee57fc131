-- ===== src/User/Printf/Agree.antt =====
-- printf and cprintf, and numbers read back.
use os_lab.Prelude.{
  ℕ, ◌+◌, ◌-◌, ◌*◌, ◌/◌, ◌%◌, ◌^◌, ◌<◌, ◌≤◌, ◌≡◌, ◌==◌, ◌||◌, inl, inr, Bool, true, false, List, [],
  ◌∷◌, ◌++◌, zero, suc, arith, refl, sym, ap, subst, ◌∙◌, Bool-cases, get_or, append_assoc,
  append-nil, ◌≢◌, not,
}
use mathlib.Core.List.{reverse}
use os_lab.Console.{Console, consputc}
use os_lab.Console.Print
use os_lab.Console.Print.{lower_digits, put_all, print_item, cprintf_from, cprintf}
use os_lab.Format.{number, number_buf, digits_of, percent, is_negative}
use os_lab.Format.Digits.{Short, Short-ten, reverse-digits_of}
use os_lab.User.Library.{atoi, atoi_from, is_digit}
use os_lab.User.Printf.{upper_digits, printf, printf_from, convert, printint, after_arg}

digit_lem : (d : ℕ) → d < 10 → get_or upper_digits d 0 ≡ b'0' + d
digit_lem d h = ground arith

-- atoi takes a digit of a number that is not too large.
atoi-digit :
    (n d : ℕ) (s : List ℕ)
    → d < 10
    → n * 10 + d < 2 ^ 32
    → atoi_from n ((b'0' + d) ∷ s) ≡ atoi_from (n * 10 + d) s
unfolding atoi_from
atoi-digit n d s small fits =
    let digit : is_digit (b'0' + d) ≡ true = ground arith in
    let value : (n * 10 + (b'0' + d) + (2 ^ 32 - b'0')) % 2 ^ 32 ≡ n * 10 + d = omega arith in
    rw digit (rw value refl)

atoi-digits :
    (k fuel x : ℕ) (rest : List ℕ)
    → k ≤ fuel
    → Short 10 k x
    → x < 2 ^ 32
    → atoi_from 0 (reverse (digits_of fuel upper_digits 10 x) ++ rest) ≡ atoi_from x rest
atoi-digits zero fuel x rest le h w = absurd h
atoi-digits (suc k) zero x rest le h w = absurd (omega arith)
atoi-digits (suc k) (suc fuel) x rest le h w =
    ap (atoi_from 0) (reverse-digits_of fuel upper_digits 10 x rest)
    ∙ (rw (digit_lem (x % 10) (omega arith)) (elim (Bool-cases (x / 10 == 0)) [
      | inl z ↦
          let small : 0 * 10 + x % 10 ≡ x = ground arith in
          rw z (
            atoi-digit 0 (x % 10) rest (omega arith) (omega arith)
            ∙ ap (λ n. atoi_from n rest) small)
      | inr more ↦
          let whole : x / 10 * 10 + x % 10 ≡ x = omega arith in
          rw more (
            atoi-digits k fuel (x / 10) ((b'0' + x % 10) ∷ rest) (omega arith)
              (fewer k x (eq_lem x more) h) (omega arith)
            ∙ (atoi-digit (x / 10) (x % 10) rest (omega arith) (omega arith)
                ∙ ap (λ n. atoi_from n rest) whole))
    ]))
  where
    eq_lem : (x : ℕ) → (x / 10 == 0) ≡ false → x / 10 ≢ 0
    eq_lem x h = ground arith

    fewer : (k x : ℕ) → x / 10 ≢ 0 → Short 10 (suc k) x → Short 10 k (x / 10)
    fewer k x n (inl z) = absurd (n z)
    fewer k x n (inr h) = h

-- atoi of what printf writes for "%d" gives the number back, for every int that is not negative.
pub atoi-printf :
    (string : ℕ → List ℕ) (arg : ℕ → ℕ)
    → arg 0 < 2 ^ 31
    → atoi (printf string arg (percent ∷ b'd' ∷ [])) ≡ arg 0
unfolding atoi printf printf_from convert printint number number_buf atoi_from
atoi-printf string arg h =
    let plain : is_negative (arg 0) ≡ false = ground arith in
    rw plain
      (atoi-digits 10 32 (arg 0) [] (omega arith) (Short-ten (arg 0) (omega arith)) (omega arith))

-- The two tables have the same decimal digits.
same_digit : (d : ℕ) → d < 10 → get_or lower_digits d 0 ≡ get_or upper_digits d 0
same_digit d h = ground arith

same_digits : (fuel x : ℕ) → digits_of fuel lower_digits 10 x ≡ digits_of fuel upper_digits 10 x
unfolding digits_of
same_digits zero x = refl
same_digits (suc fuel) x = rw (same_digit (x % 10) (omega arith), same_digits fuel (x / 10)) refl

same_number : (x : ℕ) → number lower_digits 10 true x ≡ number upper_digits 10 true x
unfolding number number_buf
same_number x = rw (same_digits 32 x, same_digits 32 (2 ^ 32 - x)) refl

put_all-append : (cs ds : List ℕ) (s : Console) → put_all (cs ++ ds) s ≡ put_all ds (put_all cs s)
unfolding put_all
put_all-append [] ds s = refl
put_all-append (c ∷ cs) ds s = put_all-append cs ds (consputc c s)

put_all_lem : (cs : List ℕ) (s : Console) → put_all cs s ≡ record s { echoed = s.echoed ++ cs }
unfolding put_all consputc
put_all_lem [] s = ap (λ e. record s { echoed = e }) (sym (append-nil s.echoed))
put_all_lem (c ∷ cs) s =
    put_all_lem cs (consputc c s)
    ∙ ap (λ e. record s { echoed = e }) (append_assoc s.echoed (c ∷ []) cs)

-- The conversions %x, %p and %c are those that the two print differently.
abbrev is_common : ℕ → Bool
is_common c = not (c == b'x' || c == b'p' || c == b'c')

abbrev Common : Bool → List ℕ → Type 0
Common state [] = Unit {0}
Common true (c ∷ fmt) = (is_common c ≡ true) × Common false fmt
Common false (c ∷ fmt) = Common (c == percent) fmt

same_item :
    (string : ℕ → List ℕ) (word c : ℕ) (s : Console)
    → is_common c ≡ true
    → print_item string word c s ≡ (put_all (convert string word c).0 s, (convert string word c).1)
unfolding print_item convert printint Print.printint put_all
same_item string word c s h =
    let no_hex : (c == b'x' || c == b'p') ≡ false = ground arith in
    let no_char : (c == b'c') ≡ false = ground arith in
    elim (Bool-cases (c == b'd')) [
      | inl e ↦ rw e (ap (λ n. (put_all n s, true)) (same_number word))
      | inr e ↦ rw e (
          rw no_hex (elim (Bool-cases (c == b's')) [
            | inl f ↦ rw f refl
            | inr f ↦ rw f (
                rw no_char
                  (elim (Bool-cases (c == percent)) [ inl g ↦ rw g refl | inr g ↦ rw g refl ]))
          ]))
    ]

cprintf_from_lem :
    (string : ℕ → List ℕ) (arg : ℕ → ℕ) (i : ℕ) (fmt : List ℕ) (s : Console)
    → Common false fmt
    → cprintf_from string arg i fmt s ≡ put_all (printf_from string arg false i fmt) s
unfolding cprintf_from printf_from put_all
cprintf_from_lem string arg i [] s h = refl
cprintf_from_lem string arg i (c ∷ []) s h = ground arith
cprintf_from_lem string arg i (c ∷ d ∷ fmt) s h = elim (Bool-cases (c == percent)) [
  | inl e ↦
      let (common, rest) = subst (λ b. Common b (d ∷ fmt)) e h in
      rw e (
        rw (same_item string (arg i) d s common) (
          cprintf_from_lem string arg (after_arg (convert string (arg i) d).1 i) fmt
            (put_all (convert string (arg i) d).0 s) rest
          ∙ sym (
              put_all-append (convert string (arg i) d).0
                (printf_from string arg false (after_arg (convert string (arg i) d).1 i) fmt) s)))
  | inr e ↦
      let rest : Common false (d ∷ fmt) = subst (λ b. Common b (d ∷ fmt)) e h in
      rw e (cprintf_from_lem string arg i (d ∷ fmt) (consputc c s) rest)
]

-- For a format without %x, %p and %c, the kernel's cprintf puts on the console exactly the bytes
-- that the user library's printf writes, and changes nothing else.
pub cprintf-printf :
    (string : ℕ → List ℕ) (arg : ℕ → ℕ) (fmt : List ℕ) (s : Console)
    → Common false fmt
    → cprintf string arg fmt s ≡ record s { echoed = s.echoed ++ printf string arg fmt }
unfolding cprintf printf
cprintf-printf string arg fmt s h =
    cprintf_from_lem string arg 0 fmt s h ∙ put_all_lem (printf_from string arg false 0 fmt) s
