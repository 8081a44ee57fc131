-- ===== src/Paths/State.antt =====
-- The state of the calls on paths: the file system, and how many operations of
-- the log were begun and ended. Code is a
-- function to a result and a new state, or a panic; `none` means that a lookup ran out of fuel.
use os_lab.Prelude.{ℕ, ◌+◌, Option, none, some, Bool, true, false}
use os_lab.Fs.{Result, Failure}
use os_lab.Fs.Inodes.{Fs, Inode, deref}

pub record Store : Type 0 where
  pub fs : Fs
  pub begun : ℕ
  pub ended : ℕ

pub data Panic : Type 0 where
  of_fs : Failure → Panic
  unlink_nlink unlink_writei create_dots create_dirlink of_files : Panic

pub data Outcome (A : Type 0) : Type 0 where
  ok : A → Store → Outcome A
  panic : Panic → Outcome A

abbrev pub S : Type 0 → Type 0
S A = Store → Option (Outcome A)

abbrev pub continue : {A B : Type 0} → (A → S B) → Option (Outcome A) → Option (Outcome B)
continue f none = none
continue f (some (panic e)) = some (panic e)
continue f (some (ok a s)) = f a s

infixl 5 ◌>>=◌ ◌>>◌
abbrev pub ◌>>=◌ : {A B : Type 0} → S A → (A → S B) → S B
◌>>=◌ m f s = continue f (m s)

abbrev pub ◌>>◌ : {B : Type 0} → S (Unit {0}) → S B → S B
m >> n = m >>= λ _. n

abbrev pub pure : {A : Type 0} → A → S A
pure a s = some (ok a s)

abbrev pub fail : {A : Type 0} → Panic → S A
fail e s = some (panic e)

-- A step of the file system.
abbrev pub stored : {A : Type 0} → Store → Result (A × Fs) → Outcome A
stored s (Result.ok (a, f)) = ok a (record s { fs = f })
stored s (Result.panic e) = panic (of_fs e)

abbrev pub lift : {A : Type 0} → (Fs → Result (A × Fs)) → S A
lift m s = some (stored s (m s.fs))

abbrev pub unit : Result Fs → Result (Unit {0} × Fs)
unit (Result.ok f) = Result.ok (tt, f)
unit (Result.panic e) = Result.panic e

abbrev pub lift_unit : (Fs → Result Fs) → S (Unit {0})
lift_unit m = lift (λ f. unit (m f))

-- The inode at index `i`, as it is in the cache.
abbrev pub same_fs : {A : Type 0} → Fs → Result A → Result (A × Fs)
same_fs f (Result.ok a) = Result.ok (a, f)
same_fs f (Result.panic e) = Result.panic e

abbrev pub inode : ℕ → S Inode
inode i = lift (λ f. same_fs f (deref f.inodes i))

unfoldable pub begin_op : S (Unit {0})
begin_op s = some (ok tt (record s { begun = s.begun + 1 }))

unfoldable pub end_op : S (Unit {0})
end_op s = some (ok tt (record s { ended = s.ended + 1 }))

-- if and a test of a pointer, between two ways to go on.
unfoldable pub branch : {A : Type 0} → Bool → S A → S A → S A
branch true x y = x
branch false x y = y

unfoldable pub on_pointer : {A B : Type 0} → Option B → S A → (B → S A) → S A
on_pointer none null f = null
on_pointer (some b) null f = f b
