-- ===== src/User/Grep/Lines.antt =====
-- The loop of grep over a file of lines that fit into its buffer.
use native.Mathlib.Nat.{zero-add, suc-add}
use os_lab.Prelude.{
  ℕ, List, [], ◌∷◌, ◌++◌, none, some, zero, suc, ◌+◌, ◌<◌, ◌≤◌, ◌≡◌, ◌≢◌, if◌then◌else◌, arith,
  refl, ap, length, take, drop,
}
use os_lab.User.Grep.{Text, find_line, newline, room, match}

-- A line has no newline and no NUL.
abbrev pub IsLine : Text → Type 0
IsLine [] = Unit {0}
IsLine (c ∷ l) = (c ≢ newline) × (c ≢ 0) × IsLine l

-- Every line fits into the buffer with its newline.
abbrev pub AreLines : List Text → Type 0
AreLines [] = Unit {0}
AreLines (l ∷ ls) = IsLine l × (length l < room) × AreLines ls

-- A file of lines, each with its newline.
abbrev pub file_of : List Text → Text
file_of [] = []
file_of (l ∷ ls) = l ++ (newline ∷ file_of ls)

-- The lines in which the pattern is found.
unfoldable pub matching : Text → List Text → List Text
matching pattern [] = []
matching pattern (l ∷ ls) = if match pattern l then l ∷ matching pattern ls else matching pattern ls

pub find_line-line : (l p : Text) → IsLine l → find_line (l ++ (newline ∷ p)) ≡ some (l, p)
unfolding find_line
find_line-line [] p h = refl
find_line-line (c ∷ l) p (n, z, h) = rw (find_line-line l p h, find_line) (ground (arith, n, z))

pub find_line-none : (l : Text) → IsLine l → find_line l ≡ none
unfolding find_line
find_line-none [] h = refl
find_line-none (c ∷ l) (n, z, h) = rw (find_line-none l h, find_line) (ground (arith, n, z))

pub IsLine-take : (k : ℕ) (l : Text) → IsLine l → IsLine (take k l)
IsLine-take zero l h = tt
IsLine-take (suc k) [] h = tt
IsLine-take (suc k) (c ∷ l) (n, z, h) = (n, z, IsLine-take k l h)

pub take-append_le : (k : ℕ) (l p : Text) → k ≤ length l → take k (l ++ p) ≡ take k l
take-append_le zero l p h = refl
take-append_le (suc k) [] p h = absurd (omega arith)
take-append_le (suc k) (c ∷ l) p h = ap (λ x. c ∷ x) (take-append_le k l p (omega arith))

pub take-append_more : (k : ℕ) (l p : Text) → take (length l + k) (l ++ p) ≡ l ++ take k p
take-append_more k [] p = rw (zero-add k) refl
take-append_more k (c ∷ l) p = rw (suc-add (length l) k) (ap (λ x. c ∷ x) (take-append_more k l p))

pub drop-append_more : (k : ℕ) (l p : Text) → drop (length l + k) (l ++ p) ≡ drop k p
drop-append_more k [] p = rw (zero-add k) refl
drop-append_more k (c ∷ l) p = rw (suc-add (length l) k) (drop-append_more k l p)
