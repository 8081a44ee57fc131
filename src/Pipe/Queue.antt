-- ===== src/Pipe/Queue.antt =====
-- A pipe is a bounded queue of bytes.
use os_lab.Prelude.{
  ℕ, List, ◌≢◌, ◌<◌, ◌+◌, length, [], ◌≡◌, ◌^◌, get_or, ◌-◌, ◌%◌, set, ◌≤◌, ◌++◌, ◌∷◌, zero, ap,
  arith, refl, false, length-set, ◌∙◌, subst, sym,
}
use os_lab.Pipe.{
  Pipe, length, [], suc, get_or, pipesize, set, ◌∷◌, is_full, is_empty, put, get, false, pipe_init,
}

-- How many bytes lie in the pipe: a difference of `uint`s.
abbrev pub size : Pipe → ℕ
size p = (p.nwrite + 2 ^ 32 - p.nread) % 2 ^ 32

pub record IsValid (p : Pipe) : Type 0 where
  pub room : length p.bytes ≡ pipesize
  pub read_uint : p.nread < 2 ^ 32
  pub write_uint : p.nwrite < 2 ^ 32
  pub fits : size p ≤ pipesize

-- A new pipe is valid, in any page of the right size.
pub pipe_init-IsValid : (page : List ℕ) → length page ≡ pipesize → IsValid (pipe_init page)
unfolding pipe_init
pipe_init-IsValid page e = record {
  room = e;
  read_uint = omega arith;
  write_uint = omega arith;
  fits = omega arith;
}

-- The `n` bytes from position `r` on.
unfoldable pub items : List ℕ → ℕ → ℕ → List ℕ
items bytes r zero = []
items bytes r (suc n) = get_or bytes (r % pipesize) 0 ∷ items bytes ((r + 1) % 2 ^ 32) n

-- The abstract queue.
abbrev pub contents : Pipe → List ℕ
contents p = items p.bytes p.nread (size p)

get_or-set_ne : (xs : List ℕ) (i j v : ℕ) → i ≢ j → get_or (set xs i v) j 0 ≡ get_or xs j 0
get_or-set_ne [] i j v h = refl
get_or-set_ne (x ∷ xs) zero zero v h = absurd (h refl)
get_or-set_ne (x ∷ xs) zero (suc j) v h = refl
get_or-set_ne (x ∷ xs) (suc i) zero v h = refl
get_or-set_ne (x ∷ xs) (suc i) (suc j) v h = get_or-set_ne xs i j v (λ e. h (ap suc e))

get_or-set_self : (xs : List ℕ) (i v : ℕ) → i < length xs → get_or (set xs i v) i 0 ≡ v
get_or-set_self [] i v h = elim h [ ]
get_or-set_self (x ∷ xs) zero v h = refl
get_or-set_self (x ∷ xs) (suc i) v h = get_or-set_self xs i v (omega arith)

-- A write at the far end adds a byte there and touches none of the bytes in between.
items-put :
    (bytes : List ℕ) (r n b : ℕ)
    → length bytes ≡ pipesize
    → r < 2 ^ 32
    → n < pipesize
    → items (set bytes ((r + n) % pipesize) b) r (suc n) ≡ items bytes r n ++ b ∷ []
unfolding items
items-put bytes r zero b room wide lt =
    let e : (r + 0) % pipesize ≡ r % pipesize = omega arith in
    rw e (ap (λ (x : ℕ). x ∷ []) (get_or-set_self bytes (r % pipesize) b (omega arith)))
items-put bytes r (suc n) b room wide lt =
    let far : (r + suc n) % pipesize ≡ ((r + 1) % 2 ^ 32 + n) % pipesize = omega arith in
    let head : get_or (set bytes ((r + suc n) % pipesize) b) (r % pipesize) 0
        ≡ get_or bytes (r % pipesize) 0 =
      get_or-set_ne bytes ((r + suc n) % pipesize) (r % pipesize) b (omega arith) in
    let tail : items (set bytes ((r + suc n) % pipesize) b) ((r + 1) % 2 ^ 32) (suc n)
        ≡ items bytes ((r + 1) % 2 ^ 32) n ++ b ∷ [] =
      subst
        (λ (j : ℕ).
          items (set bytes j b) ((r + 1) % 2 ^ 32) (suc n)
          ≡ items bytes ((r + 1) % 2 ^ 32) n ++ b ∷ [])
        (sym far) (items-put bytes ((r + 1) % 2 ^ 32) n b room (omega arith) (omega arith)) in
    cc (head, tail)

-- The guards of the loops, as facts on the queue.
full_size : (p : Pipe) → IsValid p → is_full p ≡ false → size p < pipesize
full_size p v h = let f : size p ≤ pipesize = v.fits in ground (arith, v.read_uint, v.write_uint)

empty_size : (p : Pipe) → IsValid p → is_empty p ≡ false → (n : ℕ) × (size p ≡ suc n)
empty_size p v h = (size p - 1, ground (arith, v.read_uint, v.write_uint))

pub put-IsValid : (b : ℕ) (p : Pipe) → IsValid p → is_full p ≡ false → IsValid (put b p)
unfolding put
put-IsValid b p v h =
    let lt : size p < pipesize = full_size p v h in
    record {
      room = length-set p.bytes (p.nwrite % pipesize) b ∙ v.room;
      read_uint = v.read_uint;
      write_uint = omega arith;
      fits = omega (arith, v.read_uint, v.write_uint);
    }

pub contents-put :
    (b : ℕ) (p : Pipe) → IsValid p → is_full p ≡ false → contents (put b p) ≡ contents p ++ b ∷ []
unfolding put
contents-put b p v h =
    let lt : size p < pipesize = full_size p v h in
    let at : p.nwrite % pipesize ≡ (p.nread + size p) % pipesize =
      omega (arith, v.read_uint, v.write_uint) in
    let more : ((p.nwrite + 1) % 2 ^ 32 + 2 ^ 32 - p.nread) % 2 ^ 32 ≡ suc (size p) =
      omega (arith, v.read_uint, v.write_uint) in
    rw more (rw at (items-put p.bytes p.nread (size p) b v.room v.read_uint lt))

pub get-IsValid : (p : Pipe) → IsValid p → is_empty p ≡ false → IsValid (get p).1
unfolding get
get-IsValid p v h =
    let (n, e) = empty_size p v h in
    record {
      room = v.room;
      read_uint = omega arith;
      write_uint = v.write_uint;
      fits = omega (arith, v.read_uint, v.write_uint, v.fits);
    }

pub contents-get :
    (p : Pipe) → IsValid p → is_empty p ≡ false → contents p ≡ (get p).0 ∷ contents (get p).1
unfolding get items
contents-get p v h =
    let (n, e) = empty_size p v h in
    let less : (p.nwrite + 2 ^ 32 - (p.nread + 1) % 2 ^ 32) % 2 ^ 32 ≡ n =
      omega (arith, v.read_uint, v.write_uint) in
    rw less (rw e refl)
