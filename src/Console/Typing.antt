-- ===== src/Console/Typing.antt =====
-- consoleintr on the text that is being typed.
use os_lab.Prelude.{
  ℕ, ◌+◌, ◌%◌, ◌<◌, ◌≡◌, suc, List, [], ◌∷◌, ◌++◌, get_or, length-set, get_or-set, arith, refl, ap,
  ◌∙◌, ◌≢◌, Bool-cases, ◌==◌, inl, inr, ne_of_==, sym, length, ◌-◌, ◌^◌, ◌||◌, not, ◌&&◌, ltb,
  if◌then◌else◌,
}
use os_lab.Console.{
  Input, Console, input_buf, consputc, append, commit_line, newline, type_char, key, ctrl_p, ctrl_d,
  ctrl_u, ctrl_h, delete, not, ltb, carriage_return, consoleintr,
}
use os_lab.Console.Line.{
  ready, filled, edited, IsValid, IsOpen, lines, line, span, span-set, text, span-append, span_mod,
  length-span, type_text, press, kill_all, IsOpen-erase, text-erase, Text,
}

module _ (c : ℕ) (s : Console) (o : IsOpen s.input) (space : filled s.input < input_buf) where
  abbrev i : Input
  i = s.input

  abbrev i' : Input
  i' = (append c s).input

  slot_w : i.e % input_buf ≡ (i.w + edited i) % input_buf
  slot_w = omega (arith, o.valid.ordered, o.valid.r_uint, o.valid.w_uint, o.valid.e_uint)

  slot_r : i.e % input_buf ≡ (i.r + filled i) % input_buf
  slot_r = omega (arith, o.valid.r_uint, o.valid.e_uint)

  filled-append : filled i' ≡ filled i + 1
  unfolding append consputc
  filled-append = omega (arith, o.valid.r_uint, o.valid.e_uint)

  ready-append : ready i' ≡ ready i
  unfolding append consputc
  ready-append = refl

  IsValid-append : IsValid i'
  unfolding append consputc
  IsValid-append = record {
    room = length-set i.buf (i.e % input_buf) c ∙ o.valid.room;
    r_uint = o.valid.r_uint;
    w_uint = o.valid.w_uint;
    e_uint = omega arith;
    ordered = omega (arith, o.valid.ordered, o.valid.r_uint, o.valid.w_uint, o.valid.e_uint);
    fits = omega (arith, o.valid.ordered, o.valid.r_uint, o.valid.w_uint, o.valid.e_uint);
  }

  lines-append : span i'.buf i.r (ready i) ≡ lines i
  unfolding append consputc
  lines-append =
      rw slot_r (span-set i.buf i.r (ready i) (filled i) c o.valid.room o.valid.ordered space)

  last_byte : get_or i'.buf ((i.w + edited i) % input_buf) 0 ≡ c
  unfolding append consputc
  last_byte = rw slot_w (
      ground (
        arith,
        get_or-set i.buf ((i.w + edited i) % input_buf) ((i.w + edited i) % input_buf) c 0
            (omega (arith, o.valid.room)),
      ))

  line_kept : span i'.buf i.w (edited i) ≡ line i
  unfolding append consputc
  line_kept =
      rw slot_w
        (span-set i.buf i.w (edited i) (edited i) c o.valid.room (omega arith) (omega arith))

  line-append : span i'.buf i.w (suc (edited i)) ≡ line i ++ c ∷ []
  unfolding span
  line-append = rw last_byte (ap (λ (l : List ℕ). l ++ c ∷ []) line_kept)

  edited-append : edited i' ≡ suc (edited i)
  edited-append = omega (arith, filled-append, ready-append, o.valid.ordered)

  other_bytes :
      (k : ℕ)
      → k < edited i
      → get_or i'.buf ((i.w + k) % input_buf) 0 ≡ get_or i.buf ((i.w + k) % input_buf) 0
  unfolding append consputc
  other_bytes k lt = rw slot_w (
      ground (
        arith,
        get_or-set i.buf ((i.w + edited i) % input_buf) ((i.w + k) % input_buf) c 0
            (omega (arith, o.valid.room)),
      ))

  lines_longer : lines i' ≡ lines i
  unfolding append consputc
  lines_longer = lines-append

  line_longer : line i' ≡ line i ++ c ∷ []
  line_longer = ap (span i'.buf i'.w) edited-append ∙ same_start
    where
      same_start : span i'.buf i'.w (suc (edited i)) ≡ line i ++ c ∷ []
      same_start = unfold append consputc in line-append

  -- The line goes on.
  text_longer : text i' ≡ record { lines = lines i; line = line i ++ c ∷ [] }
  text_longer = cc (lines_longer, line_longer)

  all_bytes : span i'.buf i.r (ready i + suc (edited i)) ≡ lines i ++ (line i ++ c ∷ [])
  all_bytes =
      sym (span-append i'.buf i.r (ready i) (suc (edited i)))
      ∙ rw
          (span_mod i'.buf (i.r + ready i) i.w (suc (edited i))
            (omega (arith, o.valid.r_uint, o.valid.w_uint)))
          (rw lines-append (rw line-append refl))

  -- The line is handed to the readers.
  text_committed :
      text (commit_line (append c s)).input
      ≡ record { lines = lines i ++ (line i ++ c ∷ []); line = [] }
  text_committed = cc (all, none_left)
    where
      all : lines (commit_line (append c s)).input ≡ lines i ++ (line i ++ c ∷ [])
      all = unfold commit_line append consputc in ap (span i'.buf i.r) count ∙ all_bytes
        where
          count : filled i' ≡ ready i + suc (edited i)
          count = omega (arith, filled-append, o.valid.ordered)

      none_left : line (commit_line (append c s)).input ≡ []
      none_left =
          let z : filled i' - filled i' ≡ 0 = omega arith in
          unfold commit_line span in ap (span i'.buf i'.e) z

  IsOpen-longer : c ≢ newline → IsOpen i'
  unfolding append consputc
  IsOpen-longer ne = record {
    valid = IsValid-append;
    no_end = λ k lt. elim (Bool-cases (k == edited i)) [
      | inl e ↦ let same : k ≡ edited i = ground arith in rw same (λ z. ne (sym last_byte ∙ z))
      | inr n ↦ λ z.
          o.no_end k (omega (arith, edited-append, ne_of_== k (edited i) n))
            (sym (other_bytes k (omega (arith, edited-append, ne_of_== k (edited i) n))) ∙ z)
    ];
  }

  IsOpen-committed : IsOpen (commit_line (append c s)).input
  unfolding commit_line
  IsOpen-committed = record {
    valid = record {
      room = IsValid-append.room;
      r_uint = IsValid-append.r_uint;
      w_uint = IsValid-append.e_uint;
      e_uint = IsValid-append.e_uint;
      ordered = omega arith;
      fits = IsValid-append.fits;
    };
    no_end = λ k lt. absurd (omega arith);
  }

  counted : length (lines i) + length (line i) ≡ filled i
  counted =
      omega
        (arith, length-span i.buf i.r (ready i), length-span i.buf i.w (edited i), o.valid.ordered)

  -- The test for a full buffer, on the indices and on the text.
  full_test :
      (i'.e == (i'.r + input_buf) % 2 ^ 32) ≡ (length (lines i) + length (line i) + 1 == input_buf)
  unfolding append consputc
  full_test = rw counted (ground (arith, o.valid.r_uint, o.valid.e_uint))

  type_lem : IsOpen (type_char c s).input × (text (type_char c s).input ≡ type_text c (text i))
  unfolding type_char
  type_lem =
      rw full_test
        (elim (Bool-cases
          (c == newline || c == ctrl_d || length (lines i) + length (line i) + 1 == input_buf)) [
            | inl e ↦ rw e (IsOpen-committed, text_committed)
            | inr e ↦ rw e (IsOpen-longer (ground arith), text_longer)
          ])

-- On an input in good order, whose line has no end yet, every key of consoleintr does to what may
-- be read and to the line what it is meant to: C('U') clears the line, backspace takes its last
-- byte, and a character is added to it if there is room, '\r' as '\n'; with '\n', C('D') or a full
-- buffer the line is handed to the readers, behind what they have not read. And the input is in good
-- order again.
key_lem :
    (c : ℕ) (s : Console)
    → IsOpen s.input
    → IsOpen (key c s).input × (text (key c s).input ≡ press c (text s.input))
unfolding key press
key_lem c s o = elim (Bool-cases (c == ctrl_p)) [
  | inl e ↦ rw e (o, refl)
  | inr e ↦ rw e (elim (Bool-cases (c == ctrl_u)) [
    | inl u ↦ rw u (kill_all (input_buf + 1) s o (omega (arith, o.valid.fits)))
    | inr u ↦ rw u (elim (Bool-cases (c == ctrl_h || c == delete)) [
      | inl h ↦ rw h (elim (Bool-cases (s.input.e == s.input.w)) [
        | inr n ↦ rw n (
          IsOpen-erase s o (ne_of_== s.input.e s.input.w n),
          text-erase s o (ne_of_== s.input.e s.input.w n),
        )
        | inl z ↦
            let none_left : edited s.input ≡ 0 = ground (arith, o.valid.ordered, o.valid.fits) in
            rw z (o, rw none_left (unfold span in refl))
      ])
      | inr h ↦
          let count : length (lines s.input) + length (line s.input) ≡ filled s.input = omega (
            arith,
            length-span s.input.buf s.input.r (ready s.input),
            length-span s.input.buf s.input.w (edited s.input),
            o.valid.ordered,
          ) in
          let room : (not (c == 0)
                && ltb (length (lines s.input) + length (line s.input)) input_buf)
              ≡ (not (c == 0) && ltb (filled s.input) input_buf) =
            rw count refl in
          rw h (
            rw room (elim (Bool-cases (not (c == 0) && ltb (filled s.input) input_buf)) [
              | inr n ↦ rw n (o, refl)
              | inl y ↦
                  rw y (type_lem (if c == carriage_return then newline else c) s o (ground arith))
            ]))
    ])
  ])
]

abbrev pub press_all : List ℕ → Text → Text
press_all [] t = t
press_all (c ∷ cs) t = press_all cs (press c t)

-- consoleintr, from an input in good order whose line has no end yet, does to what may be read and
-- to the line what the keys are meant to do, one after the other, and leaves such an input. C('U')
-- clears the line and backspace takes its last byte. Any other key but C('P') and 0 is added to the
-- line if there is room, '\r' as '\n'; with '\n', C('D') or a full buffer the line is handed to the
-- readers, behind what they have not read.
pub consoleintr_lem :
    (cs : List ℕ) (s : Console)
    → IsOpen s.input
    → IsOpen (consoleintr cs s).input
      × (text (consoleintr cs s).input ≡ press_all cs (text s.input))
unfolding consoleintr
consoleintr_lem [] s o = (o, refl)
consoleintr_lem (c ∷ cs) s o =
    let (o', e) = key_lem c s o in
    let (a, b) = consoleintr_lem cs (key c s) o' in (a, b ∙ ap (press_all cs) e)
