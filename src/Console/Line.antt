-- ===== src/Console/Line.antt =====
-- The input as two texts: the lines that may be read, and the line that is being edited.
use os_lab.Prelude.{
  ℕ, ◌+◌, ◌-◌, ◌%◌, ◌^◌, ◌<◌, ◌≤◌, ◌≡◌, ◌≢◌, length, arith, List, get_or, if◌then◌else◌, [], set,
  ◌++◌, ◌==◌, length-append, get_or-set, append-nil, ap, zero, ◌||◌, refl, ◌∙◌, sym, append_assoc,
  not, ◌&&◌, ltb, Bool-cases, inl, inr, ne_of_==, false,
}
use os_lab.Console.{
  Input, Console, input_buf, consputc, erase, List, get_or, [], suc, set, newline, ◌∷◌, ctrl_p,
  ctrl_d, ctrl_u, ctrl_h, delete, not, ltb, carriage_return, kill_line, before, at, false,
}

-- Bytes that may be read, and bytes in all.
abbrev pub ready : Input → ℕ
ready i = (i.w + 2 ^ 32 - i.r) % 2 ^ 32

abbrev pub filled : Input → ℕ
filled i = (i.e + 2 ^ 32 - i.r) % 2 ^ 32

pub record IsValid (i : Input) : Type 0 where
  pub room : length i.buf ≡ input_buf
  pub r_uint : i.r < 2 ^ 32
  pub w_uint : i.w < 2 ^ 32
  pub e_uint : i.e < 2 ^ 32
  pub ordered : ready i ≤ filled i
  pub fits : filled i ≤ input_buf

IsValid-erase : (s : Console) → IsValid s.input → s.input.e ≢ s.input.w → IsValid (erase s).input
unfolding erase consputc
IsValid-erase s v n = record {
  room = v.room;
  r_uint = v.r_uint;
  w_uint = v.w_uint;
  e_uint = omega arith;
  ordered = omega (arith, v.ordered, v.fits, v.r_uint, v.w_uint, v.e_uint, n);
  fits = omega (arith, v.ordered, v.fits, v.r_uint, v.w_uint, v.e_uint, n);
}

-- The `n` bytes from the place `from` on.
unfoldable pub span : List ℕ → ℕ → ℕ → List ℕ
span buf from zero = []
span buf from (suc n) = span buf from n ++ get_or buf ((from + n) % input_buf) 0 ∷ []

pub length-span : (buf : List ℕ) (from n : ℕ) → length (span buf from n) ≡ n
unfolding span
length-span buf from zero = refl
length-span buf from (suc n) =
    length-append (span buf from n) (get_or buf ((from + n) % input_buf) 0 ∷ [])
    ∙ omega (arith, length-span buf from n)

-- A write behind the span.
pub span-set :
    (buf : List ℕ) (from n m c : ℕ)
    → length buf ≡ input_buf
    → n ≤ m
    → m < input_buf
    → span (set buf ((from + m) % input_buf) c) from n ≡ span buf from n
unfolding span
span-set buf from zero m c room le lt = refl
span-set buf from (suc n) m c room le lt =
    let e : get_or (set buf ((from + m) % input_buf) c) ((from + n) % input_buf) 0
        ≡ get_or buf ((from + n) % input_buf) 0 =
      ground (
        arith,
        get_or-set buf ((from + m) % input_buf) ((from + n) % input_buf) c 0 (omega arith),
      ) in
    rw (span-set buf from n m c room (omega arith) lt) (rw e refl)

pub span-append :
    (buf : List ℕ) (from n m : ℕ) → span buf from n ++ span buf (from + n) m ≡ span buf from (n + m)
unfolding span
span-append buf from n zero = let e : n + 0 ≡ n = omega arith in rw e (append-nil (span buf from n))
span-append buf from n (suc m) =
    let same : from + n + m ≡ from + (n + m) = omega arith in
    let e : n + suc m ≡ suc (n + m) = omega arith in
    rw e (
      sym (append_assoc (span buf from n) (span buf (from + n) m) _)
      ∙ rw (span-append buf from n m) (rw same refl))

pub span_mod :
    (buf : List ℕ) (a b n : ℕ) → a % input_buf ≡ b % input_buf → span buf a n ≡ span buf b n
unfolding span
span_mod buf a b zero h = refl
span_mod buf a b (suc n) h =
    let same : (a + n) % input_buf ≡ (b + n) % input_buf = omega arith in
    rw (span_mod buf a b n h) (rw same refl)

-- What is being edited, and the number of its bytes.
abbrev pub edited : Input → ℕ
edited i = filled i - ready i

abbrev pub lines : Input → List ℕ
lines i = span i.buf i.r (ready i)

abbrev pub line : Input → List ℕ
line i = span i.buf i.w (edited i)

-- The line that is being edited has no end yet.
pub record IsOpen (i : Input) : Type 0 where
  pub valid : IsValid i
  pub no_end : (k : ℕ) → k < edited i → get_or i.buf ((i.w + k) % input_buf) 0 ≢ newline

-- The text view of the input: what may be read, and what is being edited.
pub record Text : Type 0 where
  pub lines : List ℕ
  pub line : List ℕ

abbrev pub text : Input → Text
text i = record { lines = lines i; line = line i }

abbrev drop_last : List ℕ → List ℕ
drop_last [] = []
drop_last (x ∷ []) = []
drop_last (x ∷ y ∷ ys) = x ∷ drop_last (y ∷ ys)

-- What a key does to the text.
abbrev pub type_text : ℕ → Text → Text
type_text c t =
    if c == newline || c == ctrl_d || length t.lines + length t.line + 1 == input_buf
    then record { lines = t.lines ++ (t.line ++ c ∷ []); line = [] }
    else record { lines = t.lines; line = t.line ++ c ∷ [] }

unfoldable pub press : ℕ → Text → Text
press c t =
    if c == ctrl_p
    then t
    else if c == ctrl_u
    then record t { line = [] }
    else if c == ctrl_h || c == delete
    then record t { line = drop_last t.line }
    else if not (c == 0) && ltb (length t.lines + length t.line) input_buf
    then type_text (if c == carriage_return then newline else c) t
    else t

drop_last-append : (xs : List ℕ) (x : ℕ) → drop_last (xs ++ x ∷ []) ≡ xs
drop_last-append [] x = refl
drop_last-append (y ∷ []) x = refl
drop_last-append (y ∷ z ∷ zs) x = ap (λ (l : List ℕ). y ∷ l) (drop_last-append (z ∷ zs) x)

drop_last-span : (buf : List ℕ) (from n : ℕ) → drop_last (span buf from n) ≡ span buf from (n - 1)
unfolding span
drop_last-span buf from zero = refl
drop_last-span buf from (suc n) =
    let same : suc n - 1 ≡ n = omega arith in rw same (drop_last-append (span buf from n) _)

-- Erasing takes the last byte off the line.
module _ (s : Console) (o : IsOpen s.input) (n : s.input.e ≢ s.input.w) where
  edited-erase : edited (erase s).input ≡ edited s.input - 1
  unfolding erase consputc
  edited-erase =
      omega
        (arith, o.valid.ordered, o.valid.fits, o.valid.r_uint, o.valid.w_uint, o.valid.e_uint, n)

  pub IsOpen-erase : IsOpen (erase s).input
  IsOpen-erase = record {
    valid = IsValid-erase s o.valid n;
    no_end = λ k lt. unfold erase consputc in o.no_end k (omega (arith, edited-erase));
  }

  pub text-erase : text (erase s).input ≡ record (text s.input) { line = drop_last (line s.input) }
  text-erase = rw drop_last-span (rw (← edited-erase) (unfold erase consputc in refl))

-- C('U') erases the whole line.
pub kill_all :
    (n : ℕ) (s : Console)
    → IsOpen s.input
    → edited s.input < n
    → IsOpen (kill_line n s).input
      × (text (kill_line n s).input ≡ record (text s.input) { line = [] })
unfolding kill_line
kill_all zero s o lt = absurd (omega arith)
kill_all (suc n) s o lt = elim (Bool-cases (s.input.e == s.input.w)) [
  | inl e ↦
      let none_left : edited s.input ≡ 0 = ground (arith, o.valid.ordered, o.valid.fits) in
      rw e (o, rw none_left (unfold span in refl))
  | inr ne ↦
      let n0 : s.input.e ≢ s.input.w = ne_of_== s.input.e s.input.w ne in
      let last : (s.input.w + (edited s.input - 1)) % input_buf ≡ before s.input.e % input_buf =
        omega (
          arith, o.valid.ordered, o.valid.fits, o.valid.r_uint, o.valid.w_uint, o.valid.e_uint, n0,
        ) in
      let some_left : 0 < edited s.input = omega (
        arith, o.valid.ordered, o.valid.fits, o.valid.r_uint, o.valid.w_uint, o.valid.e_uint, n0,
      ) in
      let no : (at s.input (before s.input.e) == newline) ≡ false =
        rw (← last) (ground (arith, o.no_end (edited s.input - 1) (omega arith))) in
      let (a, b) =
        kill_all n (erase s) (IsOpen-erase s o n0) (omega (arith, edited-erase s o n0)) in
      rw ne (rw no (a, b ∙ ap (λ (t : Text). record t { line = [] }) (text-erase s o n0)))
]
