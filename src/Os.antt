-- ===== src/Os.antt =====
-- The operating system as the wrappers in platform/ see it. No source file is modelled here: a call of
-- the system is a value of a type that a wrapper declares, and the system is a function from all calls
-- up to one, the newest first, to what that one returns. So it may answer as it likes.
pub mod Discipline
use enocean_core.Base.{ℕ, Bool, true, false, List, ◌∷◌}

-- The error numbers that the wrappers tell apart. They differ from each other, and none is 0.
pub data Errno : Type 0 where
  einval enomem eagain etimedout eintr edeadlk ebusy eperm ealready : Errno
  enospc eacces eoverflow ebadf emfile enfile eexist esrch enotsup enodev eio : Errno
  other : ℕ → Errno

-- 0, or an error number. Where the system returns -1 it is `errno`, and in Zephyr its negation.
pub data Rc : Type 0 where
  success : Rc
  failure : Errno → Rc

abbrev pub is_success : Rc → Bool
is_success success = true
is_success (failure e) = false

abbrev pub Os : Type 0 → Type 0
Os Call = List Call → Rc

-- An operation of an object: it returns the object as it leaves it, and a result.
abbrev pub Method : Type 0 → Type 0 → Type 0
Method S A = S → S × A

module _ {S A B : Type 0} where
  infixl 5 ◌>>=◌
  abbrev pub ◌>>=◌ : Method S A → (A → Method S B) → Method S B
  ◌>>=◌ m f s = let r = m s in f r.1 r.0

abbrev pub give : {S A : Type 0} → A → Method S A
give a s = (s, a)
