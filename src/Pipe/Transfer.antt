-- ===== src/Pipe/Transfer.antt =====
-- The loops of pipewrite and piperead against the queue.
use os_lab.Prelude.{
  ℕ, ◌≡◌, List, ◌<◌, take, length, ◌≤◌, false, drop, ◌+◌, suc, arith, Bool-cases, some, inl, refl,
  ◌++◌, [], sym, inr, append-nil, ap, ◌∙◌, zero, length-append, append_assoc, ◌%◌, ◌^◌,
}
use os_lab.Pipe.{
  Pipe, write_loop, pipewrite, read_loop, piperead, Env, read_wait, List, read_after, length,
  is_empty, pipesize, false, is_full, suc, some, pos, [], get, ◌∷◌, put,
}
use os_lab.Pipe.Queue.{
  items, IsValid, size, contents, get-IsValid, contents-get, contents-put, put-IsValid,
}
use os_lab.Prelude.Int.{pos}

is_full_of_size : (p : Pipe) → IsValid p → size p < pipesize → is_full p ≡ false
is_full_of_size p v lt = ground (arith, v.read_uint, v.write_uint)

length-items : (bytes : List ℕ) (r n : ℕ) → length (items bytes r n) ≡ n
unfolding items
length-items bytes r zero = refl
length-items bytes r (suc n) = ap suc (length-items bytes ((r + 1) % 2 ^ 32) n)

write_loop_lem :
    (fuel : ℕ) (env : Env) (n t : ℕ) (bs : List ℕ) (p : Pipe)
    → IsValid p
    → length bs ≤ fuel
    → size p + length bs ≤ pipesize
    → (p' : Pipe) × (write_loop fuel env n t bs p ≡ some (pos n, p'))
      × IsValid p'
      × (contents p' ≡ contents p ++ bs)
unfolding write_loop
write_loop_lem zero env n t [] p v enough room = (p, refl, v, sym (append-nil (contents p)))
write_loop_lem (suc fuel) env n t [] p v enough room = (p, refl, v, sym (append-nil (contents p)))
write_loop_lem zero env n t (b ∷ bs) p v enough room = absurd (omega arith)
write_loop_lem (suc fuel) env n t (b ∷ bs) p v enough room =
    let free : is_full p ≡ false = is_full_of_size p v (omega arith) in
    let one : contents (put b p) ≡ contents p ++ b ∷ [] = contents-put b p v free in
    let grown : size (put b p) ≡ size p + 1 =
      sym (length-items (put b p).bytes (put b p).nread (size (put b p)))
      ∙ (ap length one
          ∙ (length-append (contents p) (b ∷ [])
              ∙ ap (λ (m : ℕ). m + 1) (length-items p.bytes p.nread (size p)))) in
    let (p', e, v', c) =
      write_loop_lem fuel env n t bs (put b p) (put-IsValid b p v free) (omega arith)
        (omega arith) in
    (
      p',
      rw (free, write_loop) e,
      v',
      c ∙ (ap (λ (l : List ℕ). l ++ bs) one ∙ append_assoc (contents p) (b ∷ []) bs),
    )

-- If the bytes fit behind those that lie in a valid pipe, and the fuel is at least their number,
-- pipewrite returns their number without a sleep, whatever other processes do, and leaves a valid
-- pipe that holds the old bytes and then the new ones.
pub pipewrite_lem :
    (fuel : ℕ) (env : Env) (bs : List ℕ) (p : Pipe)
    → IsValid p
    → length bs ≤ fuel
    → size p + length bs ≤ pipesize
    → (p' : Pipe) × (pipewrite fuel env bs p ≡ some (pos (length bs), p'))
      × IsValid p'
      × (contents p' ≡ contents p ++ bs)
unfolding pipewrite
pipewrite_lem fuel env bs p v enough room = write_loop_lem fuel env (length bs) 0 bs p v enough room

read_loop_lem :
    (n : ℕ) (p : Pipe)
    → IsValid p
    → ((read_loop n p).0 ≡ take n (contents p))
      × (contents (read_loop n p).1 ≡ drop n (contents p))
      × IsValid (read_loop n p).1
unfolding read_loop items
read_loop_lem zero p v = (refl, refl, v)
read_loop_lem (suc n) p v = elim (Bool-cases (is_empty p)) [
  | inl e ↦
      let z : size p ≡ 0 = ground (arith, v.read_uint, v.write_uint) in
      let none_left : contents p ≡ [] = ap (items p.bytes p.nread) z in
      rw (e, read_loop) (rw none_left (refl, refl, v))
  | inr e ↦
      let (a, b, c) = read_loop_lem n (get p).1 (get-IsValid p v e) in
      let first : contents p ≡ (get p).0 ∷ contents (get p).1 = contents-get p v e in
      rw (e, read_loop) (rw first (ap (λ (l : List ℕ). (get p).0 ∷ l) a, b, c))
]

-- From a valid pipe that holds bytes, piperead returns without a sleep, given any fuel: the result
-- is the first n bytes, or all if there are fewer, and a valid pipe with the rest is left.
pub piperead_lem :
    (fuel : ℕ) (env : Env) (n : ℕ) (p : Pipe)
    → IsValid p
    → is_empty p ≡ false
    → (p' : Pipe) × (piperead (suc fuel) env n p ≡ some (some (take n (contents p)), p'))
      × IsValid p'
      × (contents p' ≡ drop n (contents p))
unfolding piperead read_wait read_after
piperead_lem fuel env n p v some_bytes =
    let (a, b, c) = read_loop_lem n p v in
    ((read_loop n p).1, rw (some_bytes, read_wait) (rw a refl), c, b)
